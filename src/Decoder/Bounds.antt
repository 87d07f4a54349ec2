-- ===== src/Decoder/Bounds.antt =====
-- What the decoder does with bytes that are no instruction.
use native.Mathlib.Decide.{dec_le}
use webx_engine.Common.{
  ℕ, ◌+◌, ◌^◌, ◌%◌, ◌≤◌, ◌<◌, ◌≡◌, refl, subst, ◌⊎◌, inl, inr, ◌*◌, ◌/◌, max, List, ◌++◌, length,
  none, ok, err, arith,
}
use webx_engine.Buffer.{Buffer, OverflowException, u32_mod, read, wrap, advance_read_offset}
use webx_engine.Buffer.Bytes.{le_bytes}
use webx_engine.Buffer.Reading.{
  skip, read_lem, read_inside, read-overflow, advance-wrap, advance-Unread, read-Unread,
}
use webx_engine.Decoder.{create, decode, decode_from, type_of_details}

-- The exception names the first four bytes from 16 on that do not lie in the buffer.
abbrev pub Names : ℕ → OverflowException → Type 0
Names size e = (e.buffer_length ≡ size) × (e.offset ≡ max 16 (size / 4 * 4)) × (e.data_size ≡ 4)

-- A read of four bytes that may lie past the end.
read-cases :
    (b : Buffer)
    → b.read_offset % 4 ≡ 0
    → 16 ≤ b.read_offset
    → b.read_offset ≤ max 16 b.size
    → b.size < 32
    → ((v : ℕ) × (read 4 b ≡ ok (v, skip 4 b)) × (b.read_offset + 4 ≤ b.size))
      ⊎ ((e : OverflowException) × (read 4 b ≡ err e) × Names b.size e)
read-cases b aligned o m h = elim (dec_le (b.read_offset + 4) b.size) [
  | yes p ↦ let (v, e) = read_inside 4 b aligned (omega arith) p in inl (v, e, p)
  | no p ↦ inr (_, read-overflow 4 b aligned (omega arith) (omega arith), (refl, omega arith, refl))
]

-- A header cut short at any of its four reads.
decode_from-short :
    (now_ms : ℕ) (b : Buffer)
    → b.read_offset ≡ 16
    → b.size < 32
    → (e : OverflowException) × (decode_from now_ms b ≡ err e) × Names b.size e
unfolding decode_from
decode_from-short now_ms b o h = elim (read-cases b (omega arith) (omega arith) (omega arith) h) [
  | inr (x, e, n) ↦ (x, rw e, n)
  | inl (v₁, e₁, p₁) ↦ elim (read-cases (skip 4 b) (omega arith) (omega arith) (omega arith) h) [
    | inr (x, e, n) ↦ (x, rw (e₁, e), n)
    | inl (v₂, e₂, p₂) ↦
        elim (read-cases (skip 4 (skip 4 b)) (omega arith) (omega arith) (omega arith) h) [
          | inr (x, e, n) ↦ (x, rw (e₁, e₂, e), n)
          | inl (v₃, e₃, p₃) ↦
              elim (read-cases (skip 4 (skip 4 (skip 4 b))) (omega arith) (omega arith)
                (omega arith) h) [
                  | inr (x, e, n) ↦ (x, rw (e₁, e₂, e₃, e), n)
                  | inl (v₄, e₄, p₄) ↦ absurd (omega arith)
                ]
        ]
  ]
]

-- Fewer bytes than the 32 of a header make `decode` throw, and the exception names the data's length and,
-- of the header's four words of 4 bytes from offset 16 on, the first that does not lie wholly in the data.
pub decode-short :
    (now_ms : ℕ) (instruction_data : List ℕ)
    → length instruction_data < 32
    → (e : OverflowException) × (decode now_ms instruction_data ≡ err e)
      × (e.buffer_length ≡ length instruction_data)
      × (e.offset ≡ max 16 (length instruction_data / 4 * 4))
      × (e.data_size ≡ 4)
unfolding decode
decode-short now_ms xs h =
    let (o, s) = advance-wrap xs (omega arith) in
    let (e, p, n) = decode_from-short now_ms _ o (omega arith) in
    let (l, f, d) = subst (λ size. Names size e) s n in (e, p, l, f, d)

-- The codes of WebXInstruction::Type run from 2 to 14.
abbrev pub IsUnknown : ℕ → Type 0
IsUnknown code = (code < 2) ⊎ (14 < code)

create-unknown : (now_ms code : ℕ) (b : Buffer) → IsUnknown code → create now_ms code b ≡ ok none
unfolding create
create-unknown now_ms code b (inl h) = ground arith
create-unknown now_ms code b (inr h) = ground arith

-- Sixteen bytes of session id and four words, the second the type with its mark, in fewer than 2 ^ 32
-- bytes in all: a type that no instruction has gives the null pointer, whatever follows the header.
pub decode-unknown :
    (now_ms client_id details id dummy : ℕ) (session_id rest sent : List ℕ)
    → length session_id ≡ 16
    → client_id < 2 ^ 32
    → details < 2 ^ 32
    → id < 2 ^ 32
    → dummy < 2 ^ 32
    → IsUnknown (type_of_details details)
    → sent
      ≡ session_id
        ++ (le_bytes 4 client_id
            ++ (le_bytes 4 details ++ (le_bytes 4 id ++ (le_bytes 4 dummy ++ rest))))
    → length sent < u32_mod
    → decode now_ms sent ≡ ok none
unfolding decode
decode-unknown now_ms client_id details id dummy session_id rest sent s hc ht hi hd h e small =
    let xs =
      session_id
      ++ (le_bytes 4 client_id
          ++ (le_bytes 4 details ++ (le_bytes 4 id ++ (le_bytes 4 dummy ++ rest)))) in
    let (o, u) = advance-Unread session_id _ s (subst (λ ys. length ys < u32_mod) e small) in
    let b = advance_read_offset 16 (wrap xs) in
    let u₁ = read-Unread 4 client_id _ b u in
    let u₂ = read-Unread 4 details _ (skip 4 b) u₁ in
    let u₃ = read-Unread 4 id _ (skip 4 (skip 4 b)) u₂ in
    rw (
      e,
      read_lem 4 client_id _ b u (omega arith) (omega arith),
      read_lem 4 details _ (skip 4 b) u₁ (omega arith) (omega arith),
      read_lem 4 id _ (skip 4 (skip 4 b)) u₂ (omega arith) (omega arith),
      read_lem 4 dummy _ (skip 4 (skip 4 (skip 4 b))) u₃ (omega arith) (omega arith),
      create-unknown now_ms (type_of_details details) (skip 4 (skip 4 (skip 4 (skip 4 b)))) h,
    )
