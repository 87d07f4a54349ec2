-- ===== src/Text/Numbers.antt =====
-- Printing and reading of numbers: `fmt::format` and `operator<<` of an integer, `std::stoi`,
-- `std::stoul`, and `HexUtils` of src/utils/WebXHexUtils.h.
use webx_engine.Common.{
  ℕ, zero, suc, ◌+◌, ◌-◌, ◌*◌, ◌/◌, ◌%◌, ◌^◌, Bool, true, false, ◌&&◌, ◌||◌, Option, none, some, [],
  ◌∷◌, ltb, leb, ◌==◌, if◌then◌else◌, length,
}
use webx_engine.Common.Int.{ℤ, pos, negsuc}
use webx_engine.Text.{Text}

pub data Radix : Type 0 where
  decimal hexadecimal : Radix

abbrev pub base : Radix → ℕ
base decimal = 10
base hexadecimal = 16

abbrev pub digit_char : ℕ → ℕ
digit_char d = if ltb d 10 then b'0' + d else b'a' + (d - 10)

-- The digits of `n` before `out`; `fuel` bounds their number.
unfoldable pub emit : Radix → (fuel n : ℕ) → Text → Text
emit r zero n out = out
emit r (suc fuel) n out =
    let more = digit_char (n % base r) ∷ out in
    let rest = emit r fuel (n / base r) more in if ltb n (base r) then more else rest

-- 64 digits are enough for any 64-bit word.
abbrev pub print : Radix → ℕ → Text
print r n = emit r 64 n []

abbrev pub zero_padded : ℕ → Text → Text
zero_padded zero t = t
zero_padded (suc k) t = b'0' ∷ zero_padded k t

-- The formats `{:08x}` and `{:016x}`.
abbrev pub print_hex : (width : ℕ) → ℕ → Text
print_hex width n = let t = print hexadecimal n in zero_padded (width - length t) t

-- The value of a digit or letter.
abbrev pub digit_value : ℕ → Option ℕ
digit_value c =
    if leb b'0' c && leb c b'9'
    then some (c - b'0')
    else if leb b'a' c && leb c b'z'
    then some (c - b'a' + 10)
    else if leb b'A' c && leb c b'Z'
    then some (c - b'A' + 10)
    else none

abbrev pub in_radix : Radix → Option ℕ → Option ℕ
in_radix r none = none
in_radix r (some d) = if ltb d (base r) then some d else none

-- The digit that a character is.
abbrev pub digit_of : Radix → ℕ → Option ℕ
digit_of r c = in_radix r (digit_value c)

-- The value of the digits at the front, behind `n`, and the text behind them.
unfoldable pub read_digits : Radix → ℕ → Text → ℕ × Text
read_digits r n [] = (n, [])
read_digits r n (c ∷ s) = elim (digit_of r c) [
  | none ↦ (n, c ∷ s)
  | some d ↦ read_digits r (n * base r + d) s
]

-- `isspace`
abbrev pub is_space : ℕ → Bool
is_space c = (c == b' ') || (leb 9 c && leb c 13)

unfoldable pub skip_spaces : Text → Text
skip_spaces [] = []
skip_spaces (c ∷ s) = let rest = skip_spaces s in if is_space c then rest else c ∷ s

-- Whether there is a minus sign at the front, and the text behind a sign.
abbrev pub read_sign : Text → Bool × Text
read_sign [] = (false, [])
read_sign (c ∷ s) =
    if c == b'-' then (true, s) else if c == b'+' then (false, s) else (false, c ∷ s)

abbrev pub is_digit : Radix → Text → Bool
is_digit r [] = false
is_digit r (c ∷ s) = elim (digit_of r c) [ none ↦ false | some _ ↦ true ]

-- The `0x` before hexadecimal digits.
abbrev pub skip_mark : Radix → Text → Text
skip_mark decimal s = s
skip_mark hexadecimal (zero_char ∷ x ∷ s) =
    if (zero_char == b'0') && ((x == b'x') || (x == b'X')) && is_digit hexadecimal s
    then s
    else zero_char ∷ x ∷ s
skip_mark hexadecimal s = s

-- `strtol` and `strtoul` with no bound: the sign, the absolute value and the text behind the number, or
-- nothing where there are no digits.
unfoldable pub read_number : Radix → Text → Option (Bool × ℕ × Text)
read_number r s =
    let (negative, t) = read_sign (skip_spaces s) in
    let u = skip_mark r t in
    let (n, rest) = read_digits r 0 u in if is_digit r u then some (negative, n, rest) else none

abbrev pub to_int : Option (Bool × ℕ × Text) → Option (ℤ × Text)
to_int none = none
to_int (some (true, zero, rest)) = some (pos 0, rest)
to_int (some (true, suc n, rest)) = if ltb n (2 ^ 31) then some (negsuc n, rest) else none
to_int (some (false, n, rest)) = if ltb n (2 ^ 31) then some (pos n, rest) else none

-- `std::stoi`: the number with the text behind it, or nothing where it throws `invalid_argument` or
-- `out_of_range`.
unfoldable pub stoi : Text → Option (ℤ × Text)
stoi s = to_int (read_number decimal s)

abbrev to_ulong : Option (Bool × ℕ × Text) → Option ℕ
to_ulong none = none
to_ulong (some (negative, n, _)) =
    if ltb n (2 ^ 64) then some (if negative then (2 ^ 64 - n) % 2 ^ 64 else n) else none

-- `std::stoul(hex, nullptr, 16)`, where `unsigned long` has 64 bits, or nothing where it throws.
unfoldable pub stoul : Text → Option ℕ
stoul s = to_ulong (read_number hexadecimal s)
