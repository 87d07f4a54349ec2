-- ===== src/Transfer.antt =====
-- src/models/WebXWindowImageTransferData.h: what was sent of a window.
use webx_engine.Common.{ℕ}
use webx_engine.Common.Floats.{Floats}

pub data TransferStatus : Type 0 where
  full_window sub_window ignored : TransferStatus

module _ (fl : Floats) where
  pub record TransferData : Type 0 where
    pub x11_window : ℕ
    pub timestamp : ℕ
    pub image_size_kb : fl.Float
    pub rgb_checksum : ℕ
    pub alpha_checksum : ℕ
    pub status : TransferStatus

  -- The constructors of a status alone, of a size, and of a size with the checksums.
  abbrev pub transfer_ignored : ℕ → ℕ → TransferData
  transfer_ignored now x11_window = record {
    x11_window = x11_window;
    timestamp = now;
    image_size_kb = fl.of_ℕ 0;
    rgb_checksum = 0;
    alpha_checksum = 0;
    status = ignored;
  }

  abbrev pub transfer_of_parts : ℕ → ℕ → fl.Float → TransferData
  transfer_of_parts now x11_window image_size_kb = record {
    x11_window = x11_window;
    timestamp = now;
    image_size_kb = image_size_kb;
    rgb_checksum = 0;
    alpha_checksum = 0;
    status = sub_window;
  }

  abbrev pub transfer_of_window : ℕ → ℕ → fl.Float → ℕ → ℕ → TransferData
  transfer_of_window now x11_window image_size_kb rgb_checksum alpha_checksum = record {
    x11_window = x11_window;
    timestamp = now;
    image_size_kb = image_size_kb;
    rgb_checksum = rgb_checksum;
    alpha_checksum = alpha_checksum;
    status = full_window;
  }
