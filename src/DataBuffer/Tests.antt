-- ===== src/DataBuffer/Tests.antt =====
-- A buffer of two bytes that grows.
use webx_engine.Common.{
  ℕ, ◌*◌, ◌≡◌, ◌≤◌, ◌<◌, ◌⊎◌, refl, Bool, true, false, [], ◌∷◌, none, some, length, ltb, arith,
}
use webx_engine.DataBuffer.{DataBuffer, grown, returns, append_data}
use webx_engine.DataBuffer.Growth.{grown-IsEnough, IsAppended, append_data-IsAppended}

abbrev two_bytes : DataBuffer
two_bytes = record { buffer = some (1 ∷ 2 ∷ []); size = 2; capacity = 2 }

-- Memory for fewer than 200 bytes.
abbrev has_some : ℕ → Bool
has_some n = ltb n 200

grown-IsEnough_example :
    (c : ℕ) × (grown 8 100 2 ≡ some c) × (100 ≤ c) × ((c ≡ 2) ⊎ ((2 < c) × (c < 2 * 100)))
grown-IsEnough_example = grown-IsEnough 8 100 2 (omega arith) (omega arith) (omega arith)

append_data-IsAppended_example :
    ((b' : DataBuffer) × (append_data has_some (3 ∷ 4 ∷ 5 ∷ []) two_bytes ≡ returns true b')
      × IsAppended (1 ∷ 2 ∷ []) (3 ∷ 4 ∷ 5 ∷ []) two_bytes b')
    ⊎ ((c : ℕ) × (has_some c ≡ false)
        × (2 < c)
        × (c < 2 * length {A = ℕ} (1 ∷ 2 ∷ 3 ∷ 4 ∷ 5 ∷ []))
        × (append_data has_some (3 ∷ 4 ∷ 5 ∷ []) two_bytes
            ≡ returns false (record two_bytes { buffer = none })))
append_data-IsAppended_example =
    append_data-IsAppended has_some (1 ∷ 2 ∷ []) (3 ∷ 4 ∷ 5 ∷ []) two_bytes refl refl (omega arith)
      (omega arith)
