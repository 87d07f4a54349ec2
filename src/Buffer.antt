-- ===== src/Buffer.antt =====
-- src/utils/WebXBinaryBuffer.h: a byte buffer with a write and a read offset, both `uint32_t`.
-- Values stand in the buffer in the byte order of the (little-endian) host. A buffer that throws is
-- never used again by its callers, so an error carries the exception alone.
pub mod Bytes
pub mod Reading
pub mod Writing
use webx_engine.Common.{
  ℕ, ◌+◌, ◌-◌, ◌%◌, ◌^◌, List, ◌++◌, length, take, drop, ltb, if◌then◌else◌, Result, ok, err,
}
use Bytes.{le_bytes, le_value}

abbrev pub u32_mod : ℕ
u32_mod = 2 ^ 32

-- `WebXBinaryBuffer`: `content` is `_bufferContent`, `size` is `_bufferLength`.
pub record Buffer : Type 0 where
  pub content : List ℕ
  pub size : ℕ
  pub write_offset : ℕ
  pub read_offset : ℕ

-- `WebXBinaryBuffer::OverflowException`
pub record OverflowException : Type 0 where
  pub offset : ℕ
  pub data_size : ℕ
  pub buffer_length : ℕ

-- `sizeof(MessageHeader)`
abbrev pub header_size : ℕ
header_size = 48

-- The constructor that wraps received data.
pub wrap : List ℕ → Buffer
wrap bytes = record {
  content = bytes;
  size = length bytes % u32_mod;
  write_offset = 0;
  read_offset = 0;
}

-- `memcpy(&content[offset], bytes, length bytes)`
pub write_at : List ℕ → ℕ → List ℕ → List ℕ
write_at content offset bytes =
    take offset content ++ (bytes ++ drop (offset + length bytes) content)

-- The padding that takes `offset` to the next multiple of the size of a value.
pub padding : ℕ → ℕ → ℕ
padding offset size_of_t = if ltb 0 (offset % size_of_t) then size_of_t - offset % size_of_t else 0

-- `getNextWriteOffset<T>`: the aligned position, and the buffer with its offset moved past the value.
pub next_write_offset : ℕ → Buffer → ℕ × Buffer
unfolding padding
next_write_offset size_of_t b =
    let pad = padding b.write_offset size_of_t in
    (
      (b.write_offset + pad) % u32_mod,
      record b { write_offset = (b.write_offset + (size_of_t + pad)) % u32_mod },
    )

-- `getNextReadOffset<T>`
pub next_read_offset : ℕ → Buffer → ℕ × Buffer
unfolding padding
next_read_offset size_of_t b =
    let pad = padding b.read_offset size_of_t in
    (
      (b.read_offset + pad) % u32_mod,
      record b { read_offset = (b.read_offset + (size_of_t + pad)) % u32_mod },
    )

-- `write<T>`. The test adds in `size_t`, which is wider than the offset.
pub write : ℕ → ℕ → Buffer → Result OverflowException Buffer
unfolding next_write_offset write_at
write size_of_t value b =
    let (position, b') = next_write_offset size_of_t b in
    if ltb b.size (position + size_of_t)
    then err (record { offset = position; data_size = size_of_t; buffer_length = b.size })
    else ok (record b' { content = write_at b.content position (le_bytes size_of_t value) })

-- `append`
pub append : List ℕ → Buffer → Result OverflowException Buffer
unfolding write_at
append bytes b =
    if ltb b.size (b.write_offset + length bytes)
    then err (record {
      offset = b.write_offset;
      data_size = length bytes % u32_mod;
      buffer_length = b.size;
    })
    else ok (record b {
      content = write_at b.content b.write_offset bytes;
      write_offset = (b.write_offset + length bytes) % u32_mod;
    })

-- `read<T>`
pub read : ℕ → Buffer → Result OverflowException (ℕ × Buffer)
unfolding next_read_offset
read size_of_t b =
    let (position, b') = next_read_offset size_of_t b in
    if ltb b.size (position + size_of_t)
    then err (record { offset = position; data_size = size_of_t; buffer_length = b.size })
    else ok (le_value (take size_of_t (drop position b.content)), b')

-- `readSring`
pub read_string : ℕ → Buffer → Result OverflowException (List ℕ × Buffer)
read_string count b =
    if ltb b.size (b.read_offset + count)
    then err
        (record { offset = b.read_offset; data_size = count % u32_mod; buffer_length = b.size })
    else ok (
      take count (drop b.read_offset b.content),
      record b { read_offset = (b.read_offset + count) % u32_mod },
    )

-- `advanceReadOffset`
pub advance_read_offset : ℕ → Buffer → Buffer
advance_read_offset increment b = record b { read_offset = (b.read_offset + increment) % u32_mod }

-- The constructor that starts a message: it stores the fields of `MessageHeader` at their offsets and
-- leaves the four unused bytes as they were. `message_id` is the counter after its increment.
pub start : List ℕ → List ℕ → ℕ → ℕ → ℕ → ℕ → Buffer
unfolding write_at
start storage session_id client_index_mask message_type_id timestamp_ms message_id =
    let size = length storage % u32_mod in
    let c₀ = write_at storage 0 session_id in
    let c₁ = write_at c₀ 16 (le_bytes 8 client_index_mask) in
    let c₂ = write_at c₁ 24 (le_bytes 8 timestamp_ms) in
    let c₃ = write_at c₂ 32 (le_bytes 4 message_type_id) in
    let c₄ = write_at c₃ 36 (le_bytes 4 message_id) in
    let c₅ = write_at c₄ 40 (le_bytes 4 (length storage)) in
    record { content = c₅; size = size; write_offset = header_size; read_offset = header_size }
