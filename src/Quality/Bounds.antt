-- ===== src/Quality/Bounds.antt =====
-- The range of the levels that src/models/WebXQuality.h chooses.
use webx_engine.Common.{
  ℕ, zero, suc, ◌+◌, ◌-◌, ◌≤◌, ◌<◌, ◌≡◌, refl, Bool, true, false, ◌&&◌, List, [], ◌∷◌, ltb, ◌==◌,
  max, min, ◌⊎◌, Bool-cases, inl, inr, arith,
}
use webx_engine.Common.Int.{ℤ, pos, negsuc}
use webx_engine.Common.Floats.{Floats}
use webx_engine.Quality.{
  max_mbps_of, Quality, quality_settings, quality_at, quality_at_from, max_quality_index,
  set_runtime_max_quality_index, quality_for_index, quality_for_image_mbps, max_quality,
}

-- The levels of a table are numbered from a first one on.
consecutive : ℕ → List Quality → Bool
consecutive k [] = true
consecutive k (q ∷ qs) = q.index == k && consecutive (suc k) qs

entries : List Quality → ℕ
entries [] = 0
entries (q ∷ qs) = suc (entries qs)

index-quality_at_from :
    (k p : ℕ) (qs : List Quality)
    → consecutive k qs ≡ true
    → p < entries qs
    → (quality_at_from qs p).index ≡ k + p
unfolding consecutive entries quality_at_from
index-quality_at_from k p [] c h = absurd (omega arith)
index-quality_at_from k zero (q ∷ qs) c h = ground arith
index-quality_at_from k (suc p) (q ∷ qs) c h = ground (arith, index-quality_at_from (suc k) p qs)

index-quality_at : (p : ℕ) → p < max_quality_index → (quality_at p).index ≡ p + 1
unfolding quality_at quality_settings consecutive entries
index-quality_at p h = omega (arith, index-quality_at_from 1 p quality_settings refl h)

quality_for_index-in :
    (m i : ℕ) → m ≤ max_quality_index → 1 ≤ i → i ≤ m → (quality_for_index m i).index ≡ i
unfolding quality_for_index
quality_for_index-in m i h l u =
    let e₁ : ltb i 1 ≡ false = ground arith in
    let e₂ : ltb m i ≡ false = ground arith in
    rw (e₁, e₂) (omega (arith, index-quality_at (i - 1) (omega arith)))

quality_for_index-below : (m i : ℕ) → i < 1 → (quality_for_index m i).index ≡ 1
unfolding quality_for_index
quality_for_index-below m i h =
    let e₁ : ltb i 1 ≡ true = ground arith in rw e₁ (index-quality_at 0 (omega arith))

quality_for_index-above : (m i : ℕ) → 1 ≤ m → m < i → quality_for_index m i ≡ max_quality m
unfolding quality_for_index max_quality
quality_for_index-above m i l h =
    let e₁ : ltb i 1 ≡ false = ground arith in
    let e₂ : ltb m i ≡ true = ground arith in rw (e₁, e₂) refl

index-max_quality : (m : ℕ) → 1 ≤ m → m ≤ max_quality_index → (max_quality m).index ≡ m
unfolding max_quality
index-max_quality m l u = omega (arith, index-quality_at (m - 1) (omega arith))

set_runtime_max-bounds :
    (asked : ℤ)
    → (1 ≤ set_runtime_max_quality_index asked)
      × (set_runtime_max_quality_index asked ≤ max_quality_index)
unfolding set_runtime_max_quality_index
set_runtime_max-bounds (negsuc i) = (omega arith, omega arith)
set_runtime_max-bounds (pos i) = (ground arith, ground arith)

-- For any maximum that the settings ask for: `SetRuntimeMaxQualityIndex` holds it between 1 and 12,
-- `MaxQuality` has that level, and `QualityForIndex` gives, for any index, the level of the table
-- nearest to it between 1 and the maximum.
pub quality_for_index-bounds :
    (asked : ℤ) (i : ℕ)
    → let m = set_runtime_max_quality_index asked in
      (1 ≤ m)
      × (m ≤ max_quality_index)
      × ((max_quality m).index ≡ m)
      × ((quality_for_index m i).index ≡ max 1 (min i m))
quality_for_index-bounds asked i =
    let (l, u) = set_runtime_max-bounds asked in
    let m = set_runtime_max_quality_index asked in
    let clamped : (quality_for_index m i).index ≡ max 1 (min i m) = elim (Bool-cases (ltb i 1)) [
      | inl b ↦ ground (arith, quality_for_index-below m i)
      | inr b ↦ elim (Bool-cases (ltb m i)) [
        | inl a ↦
            rw (quality_for_index-above m i l (ground arith), index-max_quality m l u)
              (ground arith)
        | inr a ↦ ground (arith, quality_for_index-in m i u)
      ]
    ] in
    (l, u, index-max_quality m l u, clamped)

-- For a maximum in the range of the table and a current level in its range, `QualityForImageMbps`
-- gives a level in that range again, at most one step up. Either it is one step down, and the rate is
-- over the desired level's; or it is not down, and the rate is not over or there is no lower level.
pub quality_for_image_mbps-step :
    (fl : Floats) (m : ℕ) (mbps : fl.Float) (desired current : Quality)
    → m ≤ max_quality_index
    → 1 ≤ current.index
    → current.index ≤ m
    → let i = (quality_for_image_mbps fl m mbps desired current).index in
      (1 ≤ i)
      × (i ≤ m)
      × (i ≤ current.index + 1)
      × (((i + 1 ≡ current.index) × (fl.flt_ltb (max_mbps_of fl desired) mbps ≡ true))
          ⊎ ((current.index ≤ i)
              × ((fl.flt_ltb (max_mbps_of fl desired) mbps ≡ false) ⊎ (current.index ≤ 1))))
unfolding quality_for_image_mbps
quality_for_image_mbps-step fl m mbps desired current h l u =
    let down = quality_for_index-in m (current.index - 1) h in
    let up = quality_for_index-in m (current.index + 1) h in
    (ground arith, ground arith, ground arith, ground arith)
