-- ===== src/Roster/Mask.antt =====
-- The mask of a list of clients: the bits of their indices.
use Prim.Native.Nat.{bit_or, bit_and}
use native.Mathlib.Decide.{dec_lt}
use webx_engine.Common.{
  ℕ, ◌^◌, ◌≤◌, ◌<◌, ◌≡◌, ◌∙◌, List, [], ◌∷◌, ◌++◌, some, ltb, Bool-cases, inl, inr, arith,
}
use webx_engine.Common.Bits.{
  bit, bit_not, bit-bit_or, bit-bit_and, bit-bit_not, bit-above, bit_or-lt, bit_and-lt,
  lt-pow_of_bits, bit-zero,
}
use webx_engine.Roster.{
  Member, has_bit, find, remove, count_if, count_if-append, count_if_one, count_if-remove,
  count_if-find, count_if-nil,
}

-- A 64-bit word with exactly the bits that some client's index has.
pub record IsMask (mask : ℕ) (ms : List Member) : Type 0 where
  pub fits : mask < 2 ^ 64
  pub bits : (k : ℕ) → bit mask k ≡ ltb 0 (count_if (has_bit k) ms)

-- No bit is in two indices.
abbrev pub OneOwner : List Member → Type 0
OneOwner ms = (k : ℕ) → count_if (has_bit k) ms ≤ 1

pub nil-IsMask : IsMask 0 []
nil-IsMask = record {
  fits = omega arith;
  bits = λ k. bit-zero k ∙ rw (count_if-nil (has_bit k)) (ground arith);
}

pub append-IsMask :
    (mask : ℕ) (ms : List Member) (m : Member)
    → m.index < 2 ^ 64
    → IsMask mask ms
    → IsMask (bit_or mask m.index) (ms ++ m ∷ [])
append-IsMask mask ms m h v = record {
  fits = bit_or-lt mask m.index v.fits h;
  bits = λ k. ground (
    arith,
    bit-bit_or mask m.index k,
    v.bits k,
    count_if-append (has_bit k) ms (m ∷ []),
    count_if_one (has_bit k) m,
  );
}

-- The index of a client in the list is a word too.
pub index-lt :
    (mask i : ℕ) (ms : List Member) (m : Member)
    → IsMask mask ms
    → find i ms ≡ some m
    → m.index < 2 ^ 64
index-lt mask i ms m v h = lt-pow_of_bits 64 m.index λ k p. elim (Bool-cases (bit m.index k)) [
  | inl e ↦
      absurd
        (ground (arith, v.bits k, bit-above 64 mask k v.fits p, count_if-find (has_bit k) i ms m h))
  | inr e ↦ e
]

pub remove-IsMask :
    (mask i : ℕ) (ms : List Member) (m : Member)
    → IsMask mask ms
    → OneOwner ms
    → find i ms ≡ some m
    → IsMask (bit_and mask (bit_not m.index)) (remove i ms)
remove-IsMask mask i ms m v one h = record {
  fits = bit_and-lt mask (bit_not m.index) v.fits;
  bits = λ k. elim (dec_lt k 64) [
    | yes p ↦ ground (
      arith,
      bit-bit_and mask (bit_not m.index) k,
      bit-bit_not m.index k (index-lt mask i ms m v h),
      v.bits k,
      one k,
      count_if-remove (has_bit k) i ms m h,
    )
    | no p ↦ ground (
      arith,
      bit-bit_and mask (bit_not m.index) k,
      bit-above 64 mask k v.fits,
      v.bits k,
      count_if-remove (has_bit k) i ms m h,
    )
  ];
}
