-- ===== src/DataBuffer/Growth.antt =====
-- How far the buffer grows.
use webx_engine.Common.{
  ℕ, zero, suc, ◌+◌, ◌*◌, ◌^◌, ◌%◌, ◌≤◌, ◌<◌, ◌≡◌, refl, ◌∙◌, some, none, ◌⊎◌, Bool, true, false,
  List, ◌++◌, length, length-append, ltb, Bool-cases, inl, inr, arith,
}
use native.Mathlib.Nat.{pow-succ', mul_assoc}
use webx_engine.DataBuffer.{DataBuffer, grown, next_capacity, growth_rounds, returns, append_data}

-- One round of the loop from a capacity that is too small and not 0.
grown_round :
    (fuel n c : ℕ)
    → ltb c n ≡ true
    → 1 ≤ c
    → n ≤ 2 ^ 63
    → grown (suc fuel) n c ≡ grown fuel n (c * 2)
unfolding grown
grown_round fuel n c e p w =
    let l : c < n = ground arith in
    let m : (c * 2) % 2 ^ 64 ≡ c * 2 = omega arith in
    let s : next_capacity n c ≡ c * 2 = ground arith in rw (e, s) refl

-- From a capacity that is not 0, the loop ends if so many doublings as it has rounds reach the size, of
-- at most 2 ^ 63. The capacity that it ends with holds the size, and is the one before, or greater and
-- less than twice the size.
pub grown-IsEnough :
    (fuel new_size capacity : ℕ)
    → 1 ≤ capacity
    → new_size ≤ capacity * 2 ^ fuel
    → new_size ≤ 2 ^ 63
    → (c : ℕ) × (grown fuel new_size capacity ≡ some c)
      × (new_size ≤ c)
      × ((c ≡ capacity) ⊎ ((capacity < c) × (c < 2 * new_size)))
unfolding grown
grown-IsEnough zero n c p h w = (c, ground arith, omega arith, inl refl)
grown-IsEnough (suc fuel) n c p h w = elim (Bool-cases (ltb c n)) [
  | inl e ↦
      let h' : n ≤ c * 2 * 2 ^ fuel =
        grind (arith, h, pow-succ' 2 fuel, mul_assoc c 2 (2 ^ fuel)) in
      let (r, x, y, z) = grown-IsEnough fuel n (c * 2) (omega (arith, p)) h' w in
      let l : c < n = ground (arith, e) in
      (
        r,
        grown_round fuel n c e p w ∙ x,
        y,
        inr (elim z [
          | inl i ↦ (omega (arith, i, p), omega (arith, i, l))
          | inr (i, j) ↦ (omega (arith, i, p), j)
        ]),
      )
  | inr e ↦ (c, rw e refl, ground arith, inl refl)
]

ltb_of_lt : (a b : ℕ) → a < b → ltb a b ≡ true
ltb_of_lt a b h = ground arith

ltb_refl : (a : ℕ) → ltb a a ≡ false
ltb_refl a = ground arith

-- The bytes are those before and then the new ones, and the capacity, the one before or less than twice
-- their number, holds them.
pub record IsAppended (xs data_bytes : List ℕ) (b b' : DataBuffer) : Type 0 where
  pub bytes : b'.buffer ≡ some (xs ++ data_bytes)
  pub sized : b'.size ≡ length (xs ++ data_bytes)
  pub held : b'.size ≤ b'.capacity
  pub bounded : (b'.capacity ≡ b.capacity) ⊎ (b'.capacity < 2 * b'.size)

-- `appendData` to a buffer that is not null, with as many bytes as its size says, a capacity that is not
-- 0 and fewer than 2 ^ 63 bytes in all: the loop ends, and either it returns true, the bytes are those
-- before and then the new ones, and the capacity, the one before or less than twice their number, holds
-- them; or it returns false because a greater capacity, of less than twice their number, was refused, and
-- the buffer is null with the size and the capacity as they were.
pub append_data-IsAppended :
    (has_memory : ℕ → Bool) (xs data_bytes : List ℕ) (b : DataBuffer)
    → b.buffer ≡ some xs
    → b.size ≡ length xs
    → 1 ≤ b.capacity
    → length xs + length data_bytes < 2 ^ 63
    → ((b' : DataBuffer) × (append_data has_memory data_bytes b ≡ returns true b')
        × IsAppended xs data_bytes b b')
      ⊎ ((c : ℕ) × (has_memory c ≡ false)
          × (b.capacity < c)
          × (c < 2 * length (xs ++ data_bytes))
          × (append_data has_memory data_bytes b ≡ returns false (record b { buffer = none })))
unfolding append_data
append_data-IsAppended has_memory xs data_bytes b k s p w =
    let n = (b.size + length data_bytes) % 2 ^ 64 in
    let e : n ≡ length xs + length data_bytes = omega (arith, s, w) in
    let h : n ≤ b.capacity * 2 ^ growth_rounds = omega (arith, p, w, e) in
    let (c, x, y, z) = grown-IsEnough growth_rounds n b.capacity p h (omega (arith, w, e)) in
    let l = length-append xs data_bytes in
    elim z [
      | inl q ↦
          let t : ltb b.capacity c ≡ false = rw q (ltb_refl b.capacity) in
          inl (
            record b { buffer = some (xs ++ data_bytes); size = n },
            rw (x, t, k) refl,
            record {
              bytes = refl;
              sized = omega (arith, l, e);
              held = omega (arith, q, y);
              bounded = inl refl;
            },
          )
      | inr (q, u) ↦
          let t : ltb b.capacity c ≡ true = ltb_of_lt b.capacity c q in
          elim (Bool-cases (has_memory c)) [
            | inl g ↦ inl (
              record b { buffer = some (xs ++ data_bytes); size = n; capacity = c },
              rw (x, t, g, k) refl,
              record { bytes = refl; sized = omega (arith, l, e); held = y; bounded = inr u },
            )
            | inr g ↦ inr (c, g, q, omega (arith, u, l, e), rw (x, t, g) refl)
          ]
    ]
