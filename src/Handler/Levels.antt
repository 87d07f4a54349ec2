-- ===== src/Handler/Levels.antt =====
-- The range of the current quality of a window.
use webx_engine.Common.{
  ℕ, ◌≤◌, List, [], ◌∷◌, ◌++◌, Option, none, some, arith, inl, inr, Bool-cases,
}
use webx_engine.Common.Floats.{Floats}
use webx_engine.Quality.{Quality, max_quality_index, quality_for_image_mbps}
use webx_engine.Quality.Bounds.{quality_for_image_mbps-step}
use webx_engine.Transfer.{TransferData, TransferStatus, ignored, full_window, sub_window}
use webx_engine.Coverage.{WindowCoverage, same_coverage}
use webx_engine.Handler.{
  QualitySettings, QualityHandler, HandlerCall, covers, transfers, recalculates,
  CoverageQualityFunc, disabled, linear, quadratic, set_current_quality, calculate_image_mbps,
  limited, aimed_quality, recent, calculate_quality, on_image_transfer, set_window_coverage,
  apply_coverage, apply_by, on_transfer_of, quality_under_mouse, new_handler, handler_call,
  handler_calls,
}

module _ (fl : Floats) (settings : QualitySettings)
    (small : settings.max_runtime_quality_index ≤ max_quality_index) where
  abbrev IsIn : Quality → Type 0
  IsIn q = (1 ≤ q.index) × (q.index ≤ settings.max_runtime_quality_index)

  -- The current and the desired level are from 1 to the maximum of the settings.
  abbrev pub IsLevelled : QualityHandler fl → Type 0
  IsLevelled h = IsIn h.current_quality × IsIn h.desired_quality

  set_current-IsLevelled :
      (now : ℕ) (q : Quality) (h : QualityHandler fl)
      → IsIn q
      → IsLevelled h
      → IsLevelled (set_current_quality fl now q h)
  unfolding set_current_quality
  set_current-IsLevelled now q h i v = ground arith

  limited-IsLevelled :
      (now : ℕ) (mbps : Option fl.Float) (h : QualityHandler fl)
      → IsLevelled h
      → IsLevelled (limited fl settings.max_runtime_quality_index now mbps h)
  limited-IsLevelled now none h v = v
  limited-IsLevelled now (some mbps) h v =
      let m = settings.max_runtime_quality_index in
      let aim = aimed_quality fl mbps h in
      let (l, u, _, _) =
        quality_for_image_mbps-step fl m mbps aim h.current_quality small v.0.0 v.0.1 in
      let q = quality_for_image_mbps fl m mbps aim h.current_quality in
      set_current-IsLevelled now q (record h { image_mbps_quality = q }) (l, u) v

  calculate-IsLevelled :
      (now : ℕ) (h : QualityHandler fl)
      → IsLevelled h
      → IsLevelled (calculate_quality fl settings now h)
  unfolding calculate_quality
  calculate-IsLevelled now h v =
      let ps = recent fl now h.data_points in
      let mbps = calculate_image_mbps fl now h.image_mbps_init_time ps in
      let h' = record h { data_points = ps; image_mbps = mbps } in
      elim (Bool-cases settings.limit_quality_by_data_rate) [
        | inl e ↦ rw e (limited-IsLevelled now mbps h' v)
        | inr e ↦ rw e (set_current-IsLevelled now h.desired_quality h' v.1 v)
      ]

  transfer_of-IsLevelled :
      (s : TransferStatus) (now : ℕ) (size_kb : fl.Float) (h : QualityHandler fl)
      → IsLevelled h
      → IsLevelled (on_transfer_of fl s settings now size_kb h)
  unfolding on_transfer_of
  transfer_of-IsLevelled ignored now size_kb h v = v
  transfer_of-IsLevelled full_window now size_kb h v =
      calculate-IsLevelled now
        (record h {
          data_points = h.data_points ++ record { value = size_kb; timestamp = now } ∷ [];
        })
        v
  transfer_of-IsLevelled sub_window now size_kb h v =
      calculate-IsLevelled now
        (record h {
          data_points = h.data_points ++ record { value = size_kb; timestamp = now } ∷ [];
        })
        v

  transfer-IsLevelled :
      (now : ℕ) (t : TransferData fl) (h : QualityHandler fl)
      → IsLevelled h
      → IsLevelled (on_image_transfer fl settings now t h)
  unfolding on_image_transfer
  transfer-IsLevelled now t h v = transfer_of-IsLevelled t.status now t.image_size_kb h v

  apply_coverage-IsLevelled :
      (now : ℕ) (q : Quality) (h : QualityHandler fl)
      → IsLevelled h
      → IsLevelled (apply_coverage fl settings now q h)
  unfolding set_current_quality
  apply_coverage-IsLevelled now q h v = ground arith

  apply_by-IsLevelled :
      (f : CoverageQualityFunc) (now : ℕ) (c : WindowCoverage fl) (h : QualityHandler fl)
      → IsLevelled h
      → IsLevelled (apply_by fl f settings now c h)
  apply_by-IsLevelled disabled now c h v = v
  apply_by-IsLevelled linear now c h v =
      apply_coverage-IsLevelled now (quality_under_mouse fl settings c) h v
  apply_by-IsLevelled quadratic now c h v =
      apply_coverage-IsLevelled now (quality_under_mouse fl settings c) h v

  coverage-IsLevelled :
      (now : ℕ) (c : WindowCoverage fl) (h : QualityHandler fl)
      → IsLevelled h
      → IsLevelled (set_window_coverage fl settings now c h)
  unfolding set_window_coverage
  coverage-IsLevelled now c h v = elim (Bool-cases (same_coverage fl h.coverage c)) [
    | inl e ↦ rw e v
    | inr e ↦
        let h' = record h { coverage = c } in
        rw e (
          calculate-IsLevelled now (apply_by fl settings.coverage_quality_func settings now c h')
            (apply_by-IsLevelled settings.coverage_quality_func now c h' v))
  ]

  pub new_handler-IsLevelled :
      (now : ℕ) (q : Quality) → IsIn q → IsLevelled (new_handler fl settings now q)
  unfolding new_handler
  new_handler-IsLevelled now q i = (i, i)

  handler_call-IsLevelled :
      (now : ℕ) (c : HandlerCall fl) (h : QualityHandler fl)
      → IsLevelled h
      → IsLevelled (handler_call fl settings now c h)
  unfolding handler_call
  handler_call-IsLevelled now (covers c) h v = coverage-IsLevelled now c h v
  handler_call-IsLevelled now (transfers t) h v = transfer-IsLevelled now t h v
  handler_call-IsLevelled now recalculates h v = calculate-IsLevelled now h v

  handler_calls-IsLevelled :
      (cs : List (ℕ × HandlerCall fl)) (h : QualityHandler fl)
      → IsLevelled h
      → IsLevelled (handler_calls fl settings cs h)
  unfolding handler_calls
  handler_calls-IsLevelled [] h v = v
  handler_calls-IsLevelled ((now, c) ∷ cs) h v =
      handler_calls-IsLevelled cs (handler_call fl settings now c h)
        (handler_call-IsLevelled now c h v)

  -- With a maximum in the range of the table and a desired quality in the range of the maximum, the
  -- current quality of a window is in that range too after any coverages, transfers and recalculations
  -- at any times, and the desired one still is.
  pub handler-IsLevelled :
      (start : ℕ) (desired : Quality) (cs : List (ℕ × HandlerCall fl))
      → 1 ≤ desired.index
      → desired.index ≤ settings.max_runtime_quality_index
      → IsLevelled (handler_calls fl settings cs (new_handler fl settings start desired))
  handler-IsLevelled start desired cs l u =
      handler_calls-IsLevelled cs (new_handler fl settings start desired)
        (new_handler-IsLevelled start desired (l, u))
