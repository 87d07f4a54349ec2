-- ===== src/Image.antt =====
-- src/image/WebXImage.h: the sizes and checksums of an image. The checksum of a buffer is that of the
-- library of src/lib/crc32, a parameter. An image is fresh: no checksum of it was asked for before, so
-- that none is kept.
use webx_engine.Common.{ℕ, ◌+◌, List, length, Option, none, some}
use webx_engine.Message.{Image, bytes_of}

-- `getRawDataSize`, `getAlphaDataSize` and `getFullDataSize`
abbrev pub raw_data_size : Image → ℕ
raw_data_size i = length (bytes_of i.raw)

abbrev pub alpha_data_size : Image → ℕ
alpha_data_size i = length (bytes_of i.alpha)

abbrev pub full_data_size : Image → ℕ
full_data_size i = raw_data_size i + alpha_data_size i

abbrev pub checksum_of : (List ℕ → ℕ) → Option (List ℕ) → ℕ
checksum_of crc32 none = 0
checksum_of crc32 (some bytes) = crc32 bytes

-- `calculateImageChecksum` and `calculateAlphaChecksum`
abbrev pub image_checksum : (List ℕ → ℕ) → Image → ℕ
image_checksum crc32 i = checksum_of crc32 i.raw

abbrev pub alpha_checksum : (List ℕ → ℕ) → Image → ℕ
alpha_checksum crc32 i = checksum_of crc32 i.alpha

-- `removeAlpha`, without its result, which is only logged.
abbrev pub remove_alpha : Image → Image
remove_alpha i = record i { alpha = none }
