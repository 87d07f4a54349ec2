-- ===== src/Text/RoundTrip.antt =====
-- Every number that is printed is read back.
use webx_engine.Common.{
  All, ℕ, zero, suc, ◌-◌, ◌/◌, ◌%◌, ◌^◌, ◌<◌, ◌≡◌, refl, ◌∙◌, true, false, [], ◌∷◌, arith, ltb,
  some, Bool-cases, inl, inr, length,
}
use webx_engine.Common.Int.{pos}
use webx_engine.Text.{Text}
use webx_engine.Text.Numbers.{
  Radix, decimal, hexadecimal, base, digit_char, emit, print, print_hex, zero_padded, read_digits,
  skip_spaces, read_sign, skip_mark, is_digit, read_number, stoi, stoul,
}
use webx_engine.Text.Printed.{IsPrinted, read-emit, emit-AllPrinted, digit_of-char, mod_lt}

-- A text whose characters are printed, with a digit in front.
abbrev pub IsNumeral : Radix → Text → Type 0
IsNumeral r s = All IsPrinted s × (is_digit r s ≡ true)

is_digit-char : (r : Radix) (d : ℕ) (s : Text) → d < base r → is_digit r (digit_char d ∷ s) ≡ true
is_digit-char r d s h = rw (is_digit, digit_of-char r d h) refl

is_digit-emit : (r : Radix) (k n : ℕ) (out : Text) → is_digit r (emit r (suc k) n out) ≡ true
unfolding emit
is_digit-emit r zero n out = elim (Bool-cases (ltb n (base r))) [
  | inl e ↦ rw e (is_digit-char r (n % base r) out (mod_lt r n))
  | inr e ↦ rw e (is_digit-char r (n % base r) out (mod_lt r n))
]
is_digit-emit r (suc k) n out = elim (Bool-cases (ltb n (base r))) [
  | inl e ↦ rw e (is_digit-char r (n % base r) out (mod_lt r n))
  | inr e ↦ rw e (is_digit-emit r k (n / base r) (digit_char (n % base r) ∷ out))
]

pub print-IsNumeral : (r : Radix) (n : ℕ) → IsNumeral r (print r n)
print-IsNumeral r n = (emit-AllPrinted r 64 n [] tt, is_digit-emit r 63 n [])

skip_spaces-numeral : (c : ℕ) (s : Text) → IsPrinted c → skip_spaces (c ∷ s) ≡ c ∷ s
unfolding skip_spaces
skip_spaces-numeral c s p = ground arith

read_sign-numeral : (c : ℕ) (s : Text) → IsPrinted c → read_sign (c ∷ s) ≡ (false, c ∷ s)
read_sign-numeral c s p = ground arith

skip_mark-numeral : (r : Radix) (s : Text) → All IsPrinted s → skip_mark r s ≡ s
skip_mark-numeral decimal s p = refl
skip_mark-numeral hexadecimal [] p = refl
skip_mark-numeral hexadecimal (c ∷ []) p = refl
skip_mark-numeral hexadecimal (c ∷ x ∷ s) (p, (q, h)) = ground arith

-- Nothing is skipped before a numeral.
pub read_number-numeral :
    (r : Radix) (s : Text)
    → IsNumeral r s
    → read_number r s ≡ some (false, (read_digits r 0 s).0, (read_digits r 0 s).1)
unfolding read_number
read_number-numeral r [] (p, h) = ground arith
read_number-numeral r (c ∷ s) (p, h) =
    rw (skip_spaces-numeral c s p.0, read_sign-numeral c s p.0, skip_mark-numeral r (c ∷ s) p, h)
      refl

zero_padded-IsNumeral :
    (k : ℕ) (s : Text) → IsNumeral hexadecimal s → IsNumeral hexadecimal (zero_padded k s)
zero_padded-IsNumeral zero s h = h
zero_padded-IsNumeral (suc k) s h =
    let (p, _) = zero_padded-IsNumeral k s h in (((omega arith, inl (omega arith)), p), refl)

read-zero_padded :
    (k : ℕ) (s : Text) → read_digits hexadecimal 0 (zero_padded k s) ≡ read_digits hexadecimal 0 s
unfolding read_digits
read-zero_padded zero s = refl
read-zero_padded (suc k) s = read-zero_padded k s

read-print : (r : Radix) (n : ℕ) → n < 2 ^ 64 → read_digits r 0 (print r n) ≡ (n, [])
unfolding read_digits
read-print r n h = read-emit r 63 n [] h

-- `std::stoi` reads a printed number below 2 ^ 31, to the end of the text.
pub stoi-print : (n : ℕ) → n < 2 ^ 31 → stoi (print decimal n) ≡ some (pos n, [])
unfolding stoi
stoi-print n h =
    rw
      (
        read_number-numeral decimal (print decimal n) (print-IsNumeral decimal n),
        read-print decimal n (omega arith),
      )
      (ground arith)

pub print_hex-IsNumeral : (w n : ℕ) → IsNumeral hexadecimal (print_hex w n)
print_hex-IsNumeral w n =
    let t = print hexadecimal n in
    zero_padded-IsNumeral (w - length t) t (print-IsNumeral hexadecimal n)

pub read-print_hex : (w n : ℕ) → n < 2 ^ 64 → read_digits hexadecimal 0 (print_hex w n) ≡ (n, [])
read-print_hex w n h =
    let t = print hexadecimal n in read-zero_padded (w - length t) t ∙ read-print hexadecimal n h

-- `std::stoul` reads a 64-bit number printed in hexadecimal with any width.
pub stoul-print_hex : (w n : ℕ) → n < 2 ^ 64 → stoul (print_hex w n) ≡ some n
unfolding stoul
stoul-print_hex w n h =
    let t = print hexadecimal n in
    rw
      (
        read_number-numeral hexadecimal (print_hex w n) (print_hex-IsNumeral w n),
        read-zero_padded (w - length t) t,
        read-print hexadecimal n h,
      )
      (ground arith)
