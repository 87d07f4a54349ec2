-- ===== src/Text/Printed.antt =====
-- What is printed is digits, and reads as the number.
use webx_engine.Common.{
  All, ℕ, zero, suc, ◌+◌, ◌*◌, ◌/◌, ◌%◌, ◌^◌, ◌≤◌, ◌<◌, ◌≡◌, refl, ◌⊎◌, inl, inr, true, ◌∷◌, arith,
  ltb, some, Bool-cases, ltb→lt, lt→ltb,
}
use webx_engine.Text.{Text}
use webx_engine.Text.Numbers.{
  Radix, decimal, hexadecimal, base, digit_char, emit, digit_of, read_digits,
}

pub digit_of-char : (r : Radix) (d : ℕ) → d < base r → digit_of r (digit_char d) ≡ some d
digit_of-char decimal d h = ground arith
digit_of-char hexadecimal d h = ground arith

base_pos : (r : Radix) → 2 ≤ base r
base_pos decimal = omega arith
base_pos hexadecimal = omega arith

pub mod_lt : (r : Radix) (n : ℕ) → n % base r < base r
mod_lt decimal n = omega arith
mod_lt hexadecimal n = omega arith

div_mod : (r : Radix) (n : ℕ) → n / base r * base r + n % base r ≡ n
div_mod decimal n = omega arith
div_mod hexadecimal n = omega arith

small_mod : (r : Radix) (n : ℕ) → n < base r → 0 * base r + n % base r ≡ n
small_mod decimal n h = omega arith
small_mod hexadecimal n h = omega arith

div_lt : (r : Radix) (k n : ℕ) → n < 2 ^ suc k → n / base r < 2 ^ k
div_lt decimal k n h = omega arith
div_lt hexadecimal k n h = omega arith

read_char :
    (r : Radix) (n d : ℕ) (out : Text)
    → d < base r
    → read_digits r n (digit_char d ∷ out) ≡ read_digits r (n * base r + d) out
unfolding read_digits
read_char r n d out h = rw (read_digits, digit_of-char r d h) refl

-- Reading the last digit of a number after the digits before it gives the number.
read_last :
    (r : Radix) (n : ℕ) (out : Text)
    → read_digits r (n / base r) (digit_char (n % base r) ∷ out) ≡ read_digits r n out
read_last r n out = rw (read_char r (n / base r) (n % base r) out (mod_lt r n), div_mod r n) refl

-- A number below the base is one digit.
read_small :
    (r : Radix) (k n : ℕ) (out : Text)
    → n < base r
    → read_digits r 0 (emit r (suc k) n out) ≡ read_digits r n out
unfolding emit
read_small r k n out h =
    let e : ltb n (base r) ≡ true = lt→ltb n (base r) h in
    rw e (rw (read_char r 0 (n % base r) out (mod_lt r n), small_mod r n h) refl)

pub read-emit :
    (r : Radix) (k n : ℕ) (out : Text)
    → n < 2 ^ suc k
    → read_digits r 0 (emit r (suc k) n out) ≡ read_digits r n out
unfolding emit
read-emit r zero n out h = read_small r zero n out (omega (arith, base_pos r))
read-emit r (suc k) n out h = elim (Bool-cases (ltb n (base r))) [
  | inl e ↦ read_small r (suc k) n out (ltb→lt n (base r) e)
  | inr e ↦ rw e (
      rw (read-emit r k (n / base r) (digit_char (n % base r) ∷ out) (div_lt r (suc k) n h))
        (read_last r n out))
]

-- A character of a number in either radix.
abbrev pub IsPrinted : ℕ → Type 0
IsPrinted c = (b'0' ≤ c) × ((c ≤ b'9') ⊎ ((b'a' ≤ c) × (c ≤ b'f')))

char-IsPrinted : (r : Radix) (d : ℕ) → d < base r → IsPrinted (digit_char d)
char-IsPrinted decimal d h = ground arith
char-IsPrinted hexadecimal d h = ground arith

pub emit-AllPrinted :
    (r : Radix) (k n : ℕ) (out : Text) → All IsPrinted out → All IsPrinted (emit r k n out)
unfolding emit
emit-AllPrinted r zero n out h = h
emit-AllPrinted r (suc k) n out h =
    let more = digit_char (n % base r) ∷ out in
    let h' : All IsPrinted more = (char-IsPrinted r (n % base r) (mod_lt r n), h) in
    elim (Bool-cases (ltb n (base r))) [
      | inl e ↦ rw e h'
      | inr e ↦ rw e (emit-AllPrinted r k (n / base r) more h')
    ]
