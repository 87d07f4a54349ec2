-- ===== src/Decoder/Tests.antt =====
-- Instructions at concrete inputs.
use webx_engine.Common.{
  ℕ, ◌*◌, ◌/◌, max, ◌≡◌, refl, true, List, [], ◌∷◌, ◌++◌, length, some, none, ok, err, inr, arith,
}
use webx_engine.Common.Int.{pos, negsuc}
use webx_engine.Buffer.{OverflowException}
use webx_engine.Instruction.{Instruction, mouse}
use webx_engine.Decoder.{decode}
use webx_engine.Decoder.Wire.{wire, received}
use webx_engine.Decoder.RoundTrip.{decode-wire}
use webx_engine.Decoder.Bounds.{decode-short, decode-unknown}

abbrev pub session : List ℕ
session = 1 ∷ 2 ∷ 3 ∷ 4 ∷ 5 ∷ 6 ∷ 7 ∷ 8 ∷ 9 ∷ 10 ∷ 11 ∷ 12 ∷ 13 ∷ 14 ∷ 15 ∷ 16 ∷ []

abbrev pub move : Instruction
move = record {
  base = record { client_id = 77; id = 3 };
  payload = mouse (record { x = negsuc 4; y = pos 300; button_mask = 1 });
}

decode-wire_example :
    decode 1000 (wire session true move)
    ≡ ok (some (record move { payload = received 1000 move.payload }))
decode-wire_example =
    decode-wire 1000 session true move refl (omega arith) (omega arith)
      ((omega arith, omega arith), (omega arith, omega arith), omega arith) (omega arith)

decode-short_example :
    (e : OverflowException) × (decode 1000 session ≡ err e)
    × (e.buffer_length ≡ length session)
    × (e.offset ≡ max 16 (length session / 4 * 4))
    × (e.data_size ≡ 4)
decode-short_example = decode-short 1000 session (omega arith)

-- Type 99, after a synchronous mark.
abbrev pub of_type_99 : List ℕ
of_type_99 = session ++ (77 ∷ 0 ∷ 0 ∷ 0 ∷ 99 ∷ 0 ∷ 0 ∷ 128 ∷ 3 ∷ 0 ∷ 0 ∷ 0 ∷ 0 ∷ 0 ∷ 0 ∷ 0 ∷ 8 ∷ [])

decode-unknown_example : decode 1000 of_type_99 ≡ ok none
decode-unknown_example =
    decode-unknown 1000 77 2_147_483_747 3 0 session (8 ∷ []) of_type_99 refl (omega arith)
      (omega arith) (omega arith) (omega arith) (inr (omega arith)) refl (omega arith)
