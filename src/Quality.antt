-- ===== src/Quality.antt =====
-- src/models/WebXQuality.h and .cpp: the table of quality levels and the choices among them.
-- A `float` of the table is a number of hundredths. `max_runtime` is the static
-- `MaxRuntimeQualityIndex`.
pub mod Bounds
pub mod Tests
use webx_engine.Common.Int.{ℤ, pos, negsuc}
use webx_engine.Common.Floats.{Floats}
use webx_engine.Common.{
  ℕ, zero, suc, ◌+◌, ◌-◌, ◌*◌, ◌/◌, Bool, ◌&&◌, ◌||◌, List, [], ◌∷◌, ltb, ◌==◌, if◌then◌else◌,
}

pub record Quality : Type 0 where
  pub index : ℕ
  pub image_fps : ℕ
  pub rgb_quality : ℕ
  pub alpha_quality : ℕ
  pub max_mbps : ℕ
  pub image_update_time_us : ℕ

-- The constructor: `imageUpdateTimeUs(1000000.0 / imageFPS)`, truncated.
abbrev pub quality_of : ℕ → ℕ → ℕ → ℕ → ℕ → Quality
quality_of index image_fps rgb_quality alpha_quality max_mbps = record {
  index = index;
  image_fps = image_fps;
  rgb_quality = rgb_quality;
  alpha_quality = alpha_quality;
  max_mbps = max_mbps;
  image_update_time_us = 100_000_000 / image_fps;
}

-- `operator ==` and `operator <` compare indices only.
abbrev pub same_quality : Quality → Quality → Bool
same_quality a b = a.index == b.index

abbrev pub max_quality_index : ℕ
max_quality_index = 12

-- `QUALITY_SETTINGS`
unfoldable pub quality_settings : List Quality
quality_settings =
    quality_of 1 50 40 50 50
    ∷ quality_of 2 50 40 50 75
    ∷ quality_of 3 100 50 60 100
    ∷ quality_of 4 300 60 60 200
    ∷ quality_of 5 500 60 70 300
    ∷ quality_of 6 600 70 70 400
    ∷ quality_of 7 800 70 80 500
    ∷ quality_of 8 1000 80 80 600
    ∷ quality_of 9 1200 90 90 800
    ∷ quality_of 10 1500 90 90 1200
    ∷ quality_of 11 2400 90 90 1600
    ∷ quality_of 12 3000 90 90 2400
    ∷ []

-- `std::vector::operator[]`. An index out of range is undefined behaviour there and gives an arbitrary
-- value here.
unfoldable pub quality_at_from : List Quality → ℕ → Quality
quality_at_from [] i = quality_of 0 1 0 0 0
quality_at_from (q ∷ qs) zero = q
quality_at_from (q ∷ qs) (suc i) = quality_at_from qs i

unfoldable pub quality_at : ℕ → Quality
unfolding quality_at_from quality_settings
quality_at i = quality_at_from quality_settings i

-- `SetRuntimeMaxQualityIndex`: the new value of the static.
pub set_runtime_max_quality_index : ℤ → ℕ
set_runtime_max_quality_index (negsuc i) = 1
set_runtime_max_quality_index (pos i) =
    if ltb i 1 then 1 else if ltb max_quality_index i then max_quality_index else i

-- `MaxQuality`
unfoldable pub max_quality : ℕ → Quality
max_quality max_runtime = quality_at (max_runtime - 1)

-- `QualityForIndex`: the clamp is made only on the branch that warns.
pub quality_for_index : ℕ → ℕ → Quality
quality_for_index max_runtime i =
    let clamped =
      if ltb i 1 || ltb max_runtime i then (if ltb i 1 then 1 else max_runtime) else i in
    quality_at (clamped - 1)

module _ (fl : Floats) where
  open fl use {Float, of_ℕ, decimal, sub, mul, flt_ltb, ceil}

  abbrev pub max_mbps_of : Quality → Float
  max_mbps_of q = decimal q.max_mbps 100

  -- `QualityForImageMbps`
  pub quality_for_image_mbps : ℕ → Float → Quality → Quality → Quality
  quality_for_image_mbps max_runtime image_mbps desired current =
      let lower_bound =
        if ltb 1 desired.index
        then max_mbps_of (quality_for_index max_runtime (desired.index - 1))
        else mul (decimal 8 10) (max_mbps_of desired) in
      if flt_ltb (max_mbps_of desired) image_mbps && ltb 1 current.index
      then quality_for_index max_runtime (current.index - 1)
      else if flt_ltb image_mbps lower_bound && ltb current.index max_runtime
      then quality_for_index max_runtime (current.index + 1)
      else current

  abbrev clamped : Float → Float
  clamped coverage =
      if flt_ltb coverage (of_ℕ 0) || flt_ltb (of_ℕ 1) coverage
      then (if flt_ltb coverage (of_ℕ 0) then of_ℕ 0 else of_ℕ 1)
      else coverage

  -- `QualityForImageCoverageLinear`
  pub quality_for_image_coverage_linear : ℕ → Float → Quality
  quality_for_image_coverage_linear max_runtime coverage =
      let span = sub (of_ℕ max_runtime) (decimal 1 100) in
      quality_at (ceil (sub (of_ℕ max_runtime) (mul span (clamped coverage))) - 1)

  -- `QualityForImageCoverageQuadratic`
  pub quality_for_image_coverage_quadratic : ℕ → Float → Quality
  quality_for_image_coverage_quadratic max_runtime coverage =
      let c = clamped coverage in
      let span = sub (of_ℕ max_runtime) (decimal 1 100) in
      quality_at (ceil (sub (of_ℕ max_runtime) (mul (mul span c) c)) - 1)
