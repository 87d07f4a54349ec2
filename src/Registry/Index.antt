-- ===== src/Registry/Index.antt =====
-- The loop of `addClient` in src/controller/client/WebXClientRegistry.cpp that looks for a free index.
use Prim.Native.Nat.{bit_and}
use native.Mathlib.Nat.{pow-suc, pow-le-pow_right}
use native.Mathlib.Decide.{dec_lt}
use webx_engine.Common.{
  ℕ, zero, suc, ◌+◌, ◌^◌, ◌≤◌, ◌<◌, ◌≡◌, ◌≢◌, refl, sym, ap, ◌∙◌, subst, true, false, not, ◌&&◌,
  ltb, ◌==◌, Bool-cases, inl, inr, arith,
}
use webx_engine.Common.Bits.{
  bit, bit_not, shift_left, bit-bit_and, bit-bit_not, bit-pow, bit-zero, bits_eq,
}
use webx_engine.Registry.{next_index, index_rounds}

-- `(1 << j) & mask` is zero exactly if bit j of the mask is clear.
and-pow_clear : (j mask : ℕ) → bit mask j ≡ false → bit_and (2 ^ j) mask ≡ 0
and-pow_clear j mask h =
    bits_eq (bit_and (2 ^ j) mask) 0
      (λ k. bit-bit_and (2 ^ j) mask k ∙ rw (bit-pow j k, bit-zero k) (by_index k))
  where
    by_index : (k : ℕ) → ((j == k) && bit mask k) ≡ false
    by_index k = elim (Bool-cases (j == k)) [
      | inl e ↦ let e' : j ≡ k = ground arith in rw e (subst (λ i. bit mask i ≡ false) e' h)
      | inr e ↦ rw e
    ]

and-pow_set : (j mask : ℕ) → bit mask j ≡ true → bit_and (2 ^ j) mask ≢ 0
and-pow_set j mask h z =
    let e : bit (bit_and (2 ^ j) mask) j ≡ true =
      bit-bit_and (2 ^ j) mask j ∙ rw (bit-pow j j, h) (ground arith) in
    cc (sym e ∙ (ap (λ w. bit w j) z ∙ bit-zero j))

-- If every bit below 64 is set, no index is free.
not-full : (mask : ℕ) → mask < 2 ^ 64 → ((k : ℕ) → k < 64 → bit mask k ≡ true) → bit_not mask ≡ 0
not-full mask h all =
    bits_eq (bit_not mask) 0 (λ k. bit-bit_not mask k h ∙ (by_index k ∙ sym (bit-zero k)))
  where
    by_index : (k : ℕ) → (ltb k 64 && not (bit mask k)) ≡ false
    by_index k = elim (dec_lt k 64) [ yes p ↦ rw (all k p) (ground arith) | no p ↦ ground arith ]

-- The free index found: a single bit that is clear in the mask, with all lower ones set.
pub record IsLowestFree (mask index : ℕ) : Type 0 where
  pub position : ℕ
  pub is_bit : index ≡ 2 ^ position
  pub in_word : position < 64
  pub free : bit mask position ≡ false
  pub lowest : (k : ℕ) → k < position → bit mask k ≡ true

shift_left-pow : (j : ℕ) → suc j < 64 → shift_left (2 ^ j) ≡ 2 ^ suc j
shift_left-pow j h =
    let le : 2 ^ suc j ≤ 2 ^ 63 = pow-le-pow_right (omega arith) {j = 63} (omega arith) in
    omega (arith, pow-suc 2 j)

below_suc :
    (j mask : ℕ)
    → ((k : ℕ) → k < j → bit mask k ≡ true)
    → bit mask j ≡ true
    → (k : ℕ) → k < suc j
    → bit mask k ≡ true
below_suc j mask below here k h = elim (dec_lt k j) [
  | yes p ↦ below k p
  | no p ↦ let e : j ≡ k = omega arith in subst (λ i. bit mask i ≡ true) e here
]

next_index_from :
    (fuel j mask : ℕ)
    → j + fuel ≡ 64
    → mask < 2 ^ 64
    → bit_not mask ≢ 0
    → ((k : ℕ) → k < j → bit mask k ≡ true)
    → IsLowestFree mask (next_index fuel (2 ^ j) mask)
unfolding next_index
next_index_from zero j mask e m n below =
    absurd (n (not-full mask m (λ k p. below k (omega arith))))
next_index_from (suc fuel) j mask e m n below = elim (Bool-cases (bit mask j)) [
  | inl set ↦
      let z : (bit_and (2 ^ j) mask == 0) ≡ false = ground (arith, and-pow_set j mask set) in
      let below' = below_suc j mask below set in
      rw (z, next_index)
        (elim (dec_lt (suc j) 64) [
          | yes p ↦
              rw (shift_left-pow j p) (next_index_from fuel (suc j) mask (omega arith) m n below')
          | no p ↦ absurd (n (not-full mask m (λ k q. below' k (omega arith))))
        ])
  | inr clear ↦
      let z : (bit_and (2 ^ j) mask == 0) ≡ true = ground (arith, and-pow_clear j mask clear) in
      rw (z, next_index)
        (record {
          position = j;
          is_bit = refl;
          in_word = omega arith;
          free = clear;
          lowest = below;
        })
]

-- If an index is free, the loop of `addClient` ends within 64 rounds, at the lowest one.
pub next_index-IsLowestFree :
    (mask : ℕ)
    → mask < 2 ^ 64
    → bit_not mask ≢ 0
    → IsLowestFree mask (next_index index_rounds 1 mask)
next_index-IsLowestFree mask m n = next_index_from 64 0 mask refl m n (λ k h. absurd (omega arith))
