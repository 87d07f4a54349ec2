-- ===== src/Session/RoundTrip.antt =====
-- The identifier that a text of its bytes is read as.
use webx_engine.Common.{
  ℕ, ◌*◌, ◌/◌, ◌%◌, ◌<◌, ◌≡◌, refl, sym, ap, ◌∙◌, true, List, [], ◌∷◌, ◌++◌, some, length, arith,
  All, ltb, lt→ltb, Bool-cases, inl, inr, ◌==◌,
}
use webx_engine.Text.{Text}
use webx_engine.Text.Numbers.{hexadecimal, digit_char, emit, print_hex, read_number}
use webx_engine.Text.RoundTrip.{print_hex-IsNumeral, read_number-numeral, read-print_hex}
use webx_engine.Session.{to_byte, session_id_bytes, convert_session_id}

-- Bytes in hexadecimal, two digits each.
pub session_id_text : List ℕ → Text
session_id_text [] = []
session_id_text (b ∷ bs) = print_hex 2 b ++ session_id_text bs

two_digits : (n : ℕ) → n < 256 → (a b : ℕ) × (print_hex 2 n ≡ a ∷ b ∷ [])
unfolding emit
two_digits n h = elim (Bool-cases (ltb n 16)) [
  | inl e ↦ (b'0', digit_char (n % 16), rw e refl)
  | inr e ↦
      let f : ltb (n / 16) 16 ≡ true = lt→ltb (n / 16) 16 (omega arith) in
      (digit_char (n / 16 % 16), digit_char (n % 16), rw (e, f) refl)
]

byte-print_hex : (n : ℕ) → n < 256 → to_byte (read_number hexadecimal (print_hex 2 n)) ≡ n
byte-print_hex n h =
    rw
      (
        read_number-numeral hexadecimal (print_hex 2 n) (print_hex-IsNumeral 2 n),
        read-print_hex 2 n (omega arith),
      )
      (ground arith)

pair :
    (a b n : ℕ) (bs : List ℕ) (s : Text)
    → to_byte (read_number hexadecimal (a ∷ b ∷ [])) ≡ n
    → session_id_bytes s ≡ bs
    → session_id_bytes (a ∷ b ∷ s) ≡ n ∷ bs
unfolding session_id_bytes
pair a b n bs s k e = rw (k, e) refl

bytes-text : (bs : List ℕ) → All (λ b. b < 256) bs → session_id_bytes (session_id_text bs) ≡ bs
unfolding session_id_text session_id_bytes
bytes-text [] h = refl
bytes-text (n ∷ bs) (h, hs) =
    let (a, b, e) = two_digits n h in
    let k : to_byte (read_number hexadecimal (a ∷ b ∷ [])) ≡ n =
      ap (λ t. to_byte (read_number hexadecimal t)) (sym e) ∙ byte-print_hex n h in
    rw e (pair a b n bs (session_id_text bs) k (bytes-text bs hs))

length-text : (bs : List ℕ) → All (λ b. b < 256) bs → length (session_id_text bs) ≡ 2 * length bs
unfolding session_id_text session_id_bytes
length-text [] h = refl
length-text (n ∷ bs) (h, hs) =
    let (a, b, e) = two_digits n h in rw e (omega (arith, length-text bs hs))

-- 16 bytes written in hexadecimal, two digits each, are read as these bytes.
pub convert-session_id_text :
    (bs : List ℕ)
    → length bs ≡ 16
    → All (λ b. b < 256) bs
    → convert_session_id (session_id_text bs) ≡ some bs
unfolding convert_session_id
convert-session_id_text bs n h =
    let l : (length (session_id_text bs) == 32) ≡ true = ground (arith, length-text bs h, n) in
    rw (l, bytes-text bs h) refl
