-- ===== src/Common/Bits.antt =====
-- The bits of a 64-bit word, and what the operations on words do to each bit.
use Prim.Native.Nat.{
  ℕ, zero, suc, ◌+◌, ◌-◌, ◌*◌, ◌/◌, ◌%◌, ◌^◌, ◌≤◌, ◌<◌, max, min, bit_and, bit_or, digits,
  bit_or-bitwise, bit_and-bitwise,
}
use native.Mathlib.Nat.{pow-suc}
use native.Mathlib.Omega.{arith}
use mathlib.Core.Path.{◌≡◌, refl, sym, ◌∙◌}
use mathlib.Core.Bool.{Bool, false, not, ◌&&◌, ◌||◌}
use webx_engine.Common.Tests.{◌==◌, ltb}

unfoldable pub bit : ℕ → ℕ → Bool
bit n zero = n % 2 == 1
bit n (suc k) = bit (n / 2) k

-- `~w` and `w << 1` of a `uint64_t`.
abbrev pub bit_not : ℕ → ℕ
bit_not w = 2 ^ 64 - 1 - w

abbrev pub shift_left : ℕ → ℕ
shift_left w = w * 2 % 2 ^ 64

pub bit-zero : (k : ℕ) → bit 0 k ≡ false
unfolding bit
bit-zero zero = refl
bit-zero (suc k) = bit-zero k

-- Two words with the same bits are equal.
bits_eq_fuel : (n a b : ℕ) → a ≤ n → b ≤ n → ((k : ℕ) → bit a k ≡ bit b k) → a ≡ b
unfolding bit
bits_eq_fuel zero a b p q h = omega arith
bits_eq_fuel (suc n) a b p q h =
    let low : a % 2 ≡ b % 2 = ground (arith, h 0) in
    let high : a / 2 ≡ b / 2 =
      bits_eq_fuel n (a / 2) (b / 2) (omega arith) (omega arith) (λ k. h (suc k)) in
    omega arith

pub bits_eq : (a b : ℕ) → ((k : ℕ) → bit a k ≡ bit b k) → a ≡ b
bits_eq a b h = bits_eq_fuel (a + b) a b (omega arith) (omega arith) h

bit-digits_or : (n a b k : ℕ) → a ≤ n → bit (digits (λ b. b) max n a b) k ≡ (bit a k || bit b k)
unfolding bit
bit-digits_or zero zero b k h = rw (bit-zero k)
bit-digits_or zero (suc a) b k h = absurd (omega arith)
bit-digits_or (suc n) zero b k h = rw (bit-zero k)
bit-digits_or (suc n) (suc a) b zero h = ground arith
bit-digits_or (suc n) (suc a) b (suc k) h =
    let e : (digits (λ b. b) max n (suc a / 2) (b / 2) * 2 + max (suc a % 2) (b % 2)) / 2
        ≡ digits (λ b. b) max n (suc a / 2) (b / 2) =
      omega arith in
    rw e (bit-digits_or n (suc a / 2) (b / 2) k (omega arith))

pub bit-bit_or : (a b k : ℕ) → bit (bit_or a b) k ≡ (bit a k || bit b k)
bit-bit_or a b k = rw (bit_or-bitwise a b) (bit-digits_or a a b k (omega arith))

bit-digits_and : (n a b k : ℕ) → a ≤ n → bit (digits (λ b. zero) min n a b) k ≡ (bit a k && bit b k)
unfolding bit
bit-digits_and zero zero b k h = rw (bit-zero k)
bit-digits_and zero (suc a) b k h = absurd (omega arith)
bit-digits_and (suc n) zero b k h = rw (bit-zero k)
bit-digits_and (suc n) (suc a) b zero h = ground arith
bit-digits_and (suc n) (suc a) b (suc k) h =
    let e : (digits (λ b. zero) min n (suc a / 2) (b / 2) * 2 + min (suc a % 2) (b % 2)) / 2
        ≡ digits (λ b. zero) min n (suc a / 2) (b / 2) =
      omega arith in
    rw e (bit-digits_and n (suc a / 2) (b / 2) k (omega arith))

pub bit-bit_and : (a b k : ℕ) → bit (bit_and a b) k ≡ (bit a k && bit b k)
bit-bit_and a b k = rw (bit_and-bitwise a b) (bit-digits_and a a b k (omega arith))

-- The complement within `n` bits.
bit-complement : (n m k : ℕ) → m < 2 ^ n → bit (2 ^ n - 1 - m) k ≡ (ltb k n && not (bit m k))
unfolding bit
bit-complement zero m k h =
    let e : 2 ^ 0 - 1 - m ≡ 0 = omega arith in rw (e, bit-zero k) (ground arith)
bit-complement (suc n) m zero h = ground (arith, pow-suc 2 n)
bit-complement (suc n) m (suc k) h =
    let e : (2 ^ suc n - 1 - m) / 2 ≡ 2 ^ n - 1 - m / 2 = omega (arith, pow-suc 2 n) in
    rw (e, bit-complement n (m / 2) k (omega (arith, pow-suc 2 n))) (ground arith)

pub bit-bit_not : (m k : ℕ) → m < 2 ^ 64 → bit (bit_not m) k ≡ (ltb k 64 && not (bit m k))
bit-bit_not m k h = bit-complement 64 m k h

pub bit-pow : (j k : ℕ) → bit (2 ^ j) k ≡ (j == k)
unfolding bit
bit-pow zero zero = refl
bit-pow zero (suc k) = rw (bit-zero k) (ground arith)
bit-pow (suc j) zero = ground (arith, pow-suc 2 j)
bit-pow (suc j) (suc k) =
    let e : 2 ^ suc j / 2 ≡ 2 ^ j = omega (arith, pow-suc 2 j) in rw (e, bit-pow j k) (ground arith)

pub lt-pow_of_bits : (n a : ℕ) → ((k : ℕ) → n ≤ k → bit a k ≡ false) → a < 2 ^ n
unfolding bit
lt-pow_of_bits zero a h =
    let e : a ≡ 0 = bits_eq a 0 (λ k. h k (omega arith) ∙ sym (bit-zero k)) in omega arith
lt-pow_of_bits (suc n) a h =
    let e : a / 2 < 2 ^ n = lt-pow_of_bits n (a / 2) (λ k p. h (suc k) (omega arith)) in
    omega (arith, pow-suc 2 n)

-- A word has no bit beyond its width.
pub bit-above : (n a k : ℕ) → a < 2 ^ n → n ≤ k → bit a k ≡ false
unfolding bit
bit-above zero a k h p = let e : a ≡ 0 = omega arith in rw (e, bit-zero k)
bit-above (suc n) a zero h p = absurd (omega arith)
bit-above (suc n) a (suc k) h p = bit-above n (a / 2) k (omega (arith, pow-suc 2 n)) (omega arith)

pub bit_or-lt : (a b : ℕ) → a < 2 ^ 64 → b < 2 ^ 64 → bit_or a b < 2 ^ 64
bit_or-lt a b p q =
    lt-pow_of_bits 64 (bit_or a b)
      (λ k h. rw (bit-bit_or a b k, bit-above 64 a k p h, bit-above 64 b k q h))

pub bit_and-lt : (a b : ℕ) → a < 2 ^ 64 → bit_and a b < 2 ^ 64
bit_and-lt a b p =
    lt-pow_of_bits 64 (bit_and a b) (λ k h. rw (bit-bit_and a b k, bit-above 64 a k p h))
