-- ===== src/Common/Xor.antt =====
-- The bits of an exclusive or, and the test of one bit.
use Prim.Native.Nat.{
  ℕ, zero, suc, ◌+◌, ◌*◌, ◌/◌, ◌%◌, ◌^◌, ◌≤◌, ◌<◌, bit_and, bit_xor, digits, differ,
  bit_xor-bitwise,
}
use native.Mathlib.Omega.{arith}
use mathlib.Core.Path.{◌≡◌, refl, sym, ap, ◌∙◌}
use mathlib.Core.Logic.{◌≢◌, inl, inr}
use mathlib.Core.Bool.{Bool, true, false, not, ◌&&◌}
use webx_engine.Common.Tests.{◌==◌, if◌then◌else◌, Bool-cases}
use webx_engine.Common.Bits.{bit, bit-zero, bits_eq, bit-bit_and, bit-pow}

abbrev pub xor : Bool → Bool → Bool
xor a b = if a then not b else b

differ_mod : (x y : ℕ) → x < 2 → y < 2 → differ x y ≡ (x + y) % 2
differ_mod zero y h g = omega arith
differ_mod (suc zero) zero h g = omega arith
differ_mod (suc zero) (suc zero) h g = omega arith
differ_mod (suc zero) (suc (suc y)) h g = absurd (omega arith)
differ_mod (suc (suc x)) y h g = absurd (omega arith)

bit-digits_odd :
    (n a b k : ℕ) → a ≤ n → bit (digits (λ b. b) differ n a b) k ≡ xor (bit a k) (bit b k)
unfolding bit
bit-digits_odd zero zero b k h = rw (bit-zero k)
bit-digits_odd zero (suc a) b k h = absurd (omega arith)
bit-digits_odd (suc n) zero b k h = rw (bit-zero k)
bit-digits_odd (suc n) (suc a) b zero h =
    rw (differ_mod (suc a % 2) (b % 2) (omega arith) (omega arith)) (ground arith)
bit-digits_odd (suc n) (suc a) b (suc k) h =
    let d : differ (suc a % 2) (b % 2) ≡ (suc a % 2 + b % 2) % 2 =
      differ_mod (suc a % 2) (b % 2) (omega arith) (omega arith) in
    let e : (digits (λ b. b) differ n (suc a / 2) (b / 2) * 2 + differ (suc a % 2) (b % 2)) / 2
        ≡ digits (λ b. b) differ n (suc a / 2) (b / 2) =
      omega (arith, d) in
    rw e (bit-digits_odd n (suc a / 2) (b / 2) k (omega arith))

pub bit-bit_xor : (a b k : ℕ) → bit (bit_xor a b) k ≡ xor (bit a k) (bit b k)
bit-bit_xor a b k = rw (bit_xor-bitwise a b) (bit-digits_odd a a b k (omega arith))

bit-bit_and_pow : (n p k : ℕ) → bit (bit_and n (2 ^ p)) k ≡ (bit n k && (p == k))
bit-bit_and_pow n p k = rw (bit-bit_and n (2 ^ p) k, bit-pow p k) refl

-- A word and a mask of one bit.
pub bit_and-pow : (n p : ℕ) → not (bit_and n (2 ^ p) == 0) ≡ bit n p
bit_and-pow n p = elim (Bool-cases (bit n p)) [
  | inl e ↦
      let t : bit (bit_and n (2 ^ p)) p ≡ true = rw (bit-bit_and_pow n p p, e) (ground arith) in
      let z : bit_and n (2 ^ p) ≢ 0 = λ g.
        let f : false ≡ true = sym (bit-zero p) ∙ (ap (λ x. bit x p) (sym g) ∙ t) in
        ground (arith, f) in
      ground (arith, z, e)
  | inr e ↦
      let z : bit_and n (2 ^ p) ≡ 0 =
        bits_eq (bit_and n (2 ^ p)) 0
          (λ k. rw (bit-bit_and_pow n p k, bit-zero k) (ground (arith, e))) in
      ground (arith, z, e)
]
