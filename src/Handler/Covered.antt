-- ===== src/Handler/Covered.antt =====
-- The coverage that a handler has after a call.
use webx_engine.Common.{
  ℕ, ◌≡◌, refl, ◌∙◌, ◌⊎◌, inl, inr, Bool-cases, true, Option, none, some, arith,
}
use webx_engine.Common.Floats.{Floats}
use webx_engine.Quality.{Quality}
use webx_engine.Coverage.{WindowCoverage, same_coverage}
use webx_engine.Handler.{
  QualitySettings, QualityHandler, CoverageQualityFunc, disabled, linear, quadratic,
  set_current_quality, limited, calculate_image_mbps, recent, calculate_quality, apply_coverage,
  apply_by, quality_under_mouse, set_window_coverage, new_handler, new_handler_covered,
}

module _ (fl : Floats) where
  coverage-set_current :
      (now : ℕ) (q : Quality) (h : QualityHandler fl)
      → (set_current_quality fl now q h).coverage ≡ h.coverage
  unfolding set_current_quality
  coverage-set_current now q h = ground arith

  coverage-limited :
      (m now : ℕ) (mbps : Option fl.Float) (h : QualityHandler fl)
      → (limited fl m now mbps h).coverage ≡ h.coverage
  unfolding set_current_quality
  coverage-limited m now none h = refl
  coverage-limited m now (some mbps) h = ground arith

  pub coverage-calculate :
      (settings : QualitySettings) (now : ℕ) (h : QualityHandler fl)
      → (calculate_quality fl settings now h).coverage ≡ h.coverage
  unfolding calculate_quality
  coverage-calculate settings now h =
      let ps = recent fl now h.data_points in
      let mbps = calculate_image_mbps fl now h.image_mbps_init_time ps in
      let h' = record h { data_points = ps; image_mbps = mbps } in
      elim (Bool-cases settings.limit_quality_by_data_rate) [
        | inl e ↦ rw e (coverage-limited settings.max_runtime_quality_index now mbps h')
        | inr e ↦ rw e (coverage-set_current now h.desired_quality h')
      ]

  coverage-apply :
      (settings : QualitySettings) (now : ℕ) (q : Quality) (h : QualityHandler fl)
      → (apply_coverage fl settings now q h).coverage ≡ h.coverage
  unfolding set_current_quality
  coverage-apply settings now q h = ground arith

  coverage-apply_by :
      (f : CoverageQualityFunc) (settings : QualitySettings) (now : ℕ) (c : WindowCoverage fl)
      (h : QualityHandler fl)
      → (apply_by fl f settings now c h).coverage ≡ h.coverage
  coverage-apply_by disabled settings now c h = refl
  coverage-apply_by linear settings now c h =
      coverage-apply settings now (quality_under_mouse fl settings c) h
  coverage-apply_by quadratic settings now c h =
      coverage-apply settings now (quality_under_mouse fl settings c) h

  -- The coverage is the one given, or the comparison of `WebXWindowCoverage` takes it for that.
  abbrev pub IsCovered : WindowCoverage fl → QualityHandler fl → Type 0
  IsCovered c h = (h.coverage ≡ c) ⊎ (same_coverage fl h.coverage c ≡ true)

  pub set_window_coverage-IsCovered :
      (settings : QualitySettings) (now : ℕ) (c : WindowCoverage fl) (h : QualityHandler fl)
      → IsCovered c (set_window_coverage fl settings now c h)
  unfolding set_window_coverage
  set_window_coverage-IsCovered settings now c h =
      elim (Bool-cases (same_coverage fl h.coverage c)) [
        | inl e ↦ rw e (inr e)
        | inr e ↦
            let h' = record h { coverage = c } in
            rw e (
              inl (
                coverage-calculate settings now
                  (apply_by fl settings.coverage_quality_func settings now c h')
                ∙ coverage-apply_by settings.coverage_quality_func settings now c h'))
      ]

  pub new_handler_covered-IsCovered :
      (settings : QualitySettings) (now : ℕ) (q : Quality) (c : WindowCoverage fl)
      → IsCovered c (new_handler_covered fl settings now q c)
  unfolding new_handler_covered
  new_handler_covered-IsCovered settings now q c =
      set_window_coverage-IsCovered settings now c (new_handler fl settings now q)
