-- ===== src/Handler.antt =====
-- src/controller/client/WebXWindowQualityHandler.h and .cpp: the quality of one window. `now` is the
-- reading of the clock in a call, in nanoseconds. A data point is one of src/models/WebXTransferData.h.
pub mod Levels
pub mod Covered
pub mod Tests
use webx_engine.Common.{
  ℕ, ◌+◌, ◌-◌, Bool, true, false, List, [], ◌∷◌, ◌++◌, Option, none, some, length, ltb,
  if◌then◌else◌, remove_if, ◌&&◌, not,
}
use webx_engine.Common.Floats.{Floats}
use webx_engine.Quality.{
  Quality, same_quality, max_quality, max_mbps_of, quality_for_image_mbps,
  quality_for_image_coverage_linear, quality_for_image_coverage_quadratic,
}
use webx_engine.Bitrate.{DataPoint, older_than, accumulate, first_timestamp, ms}
use webx_engine.Coverage.{WindowCoverage, no_coverage, same_coverage}
use webx_engine.Transfer.{TransferData, TransferStatus, ignored}

-- `WebXQualitySettings::CoverageQualityFunc`
pub data CoverageQualityFunc : Type 0 where
  disabled linear quadratic : CoverageQualityFunc

-- `WebXQualitySettings`, with the static maximum of the quality index.
pub record QualitySettings : Type 0 where
  pub increase_quality_on_mouse_over : Bool
  pub coverage_quality_func : CoverageQualityFunc
  pub limit_quality_by_data_rate : Bool
  pub max_runtime_quality_index : ℕ

abbrev pub data_retention_time_ms : ℕ
data_retention_time_ms = 4000

abbrev pub no_recent_window_update_time_ms : ℕ
no_recent_window_update_time_ms = 2000

abbrev pub time_for_valid_image_kbps_ms : ℕ
time_for_valid_image_kbps_ms = 2000

module _ (fl : Floats) where
  open fl use {Float, of_ℕ, decimal, add, mul, div, flt_ltb}

  pub record QualityHandler : Type 0 where
    pub desired_quality : Quality
    pub coverage : WindowCoverage fl
    pub coverage_quality : Quality
    pub image_mbps_quality : Quality
    pub current_quality : Quality
    pub data_points : List (DataPoint fl)
    pub image_mbps : Option Float
    pub image_mbps_init_time : ℕ
    pub last_refresh_time : ℕ

  -- `7.8125 * totalImageSizeKB / durationMs`
  abbrev pub mbps_of : Float → ℕ → Float
  mbps_of total_kb duration = div (mul (decimal 78125 10_000) total_kb) (decimal duration ms)

  -- The points that `calculateImageMbps` keeps, and the rate that it gives.
  abbrev pub recent : ℕ → List (DataPoint fl) → List (DataPoint fl)
  recent now ps = remove_if (λ p. older_than data_retention_time_ms now p.timestamp) ps

  pub calculate_image_mbps : ℕ → ℕ → List (DataPoint fl) → Option Float
  calculate_image_mbps now init_time ps =
      let first = first_timestamp fl ps in
      if ltb 0 (length ps)
      then (if older_than time_for_valid_image_kbps_ms now first
          then some (mbps_of (accumulate fl add (of_ℕ 0) ps) (now - first))
          else none)
      else if older_than no_recent_window_update_time_ms now init_time
      then some (of_ℕ 0)
      else none

  -- `setCurrentQuality`
  pub set_current_quality : ℕ → Quality → QualityHandler → QualityHandler
  set_current_quality now q h =
      if same_quality h.current_quality q
      then h
      else record h { current_quality = q; data_points = []; image_mbps_init_time = now }

  -- The quality that the coverage and the desired quality leave to aim at.
  abbrev pub aimed_quality : Float → QualityHandler → Quality
  aimed_quality mbps h =
      if flt_ltb (max_mbps_of fl h.coverage_quality) mbps
      then h.coverage_quality
      else h.desired_quality

  abbrev pub limited : ℕ → ℕ → Option Float → QualityHandler → QualityHandler
  limited m now none h = h
  limited m now (some mbps) h =
      let q = quality_for_image_mbps fl m mbps (aimed_quality mbps h) h.current_quality in
      set_current_quality now q (record h { image_mbps_quality = q })

  -- `calculateQuality`
  pub calculate_quality : QualitySettings → ℕ → QualityHandler → QualityHandler
  unfolding set_current_quality calculate_image_mbps
  calculate_quality settings now h =
      let ps = recent now h.data_points in
      let mbps = calculate_image_mbps now h.image_mbps_init_time ps in
      let h' = record h { data_points = ps; image_mbps = mbps } in
      let h'' =
        if settings.limit_quality_by_data_rate
        then limited settings.max_runtime_quality_index now mbps h'
        else set_current_quality now h.desired_quality h' in
      record h'' { last_refresh_time = now }

  pub on_transfer_of :
      TransferStatus → QualitySettings → ℕ → Float → QualityHandler → QualityHandler
  unfolding calculate_quality
  on_transfer_of ignored settings now size_kb h = h
  on_transfer_of _ settings now size_kb h =
      calculate_quality settings now (record h {
        data_points = h.data_points ++ record { value = size_kb; timestamp = now } ∷ [];
      })

  -- `onImageTransfer`
  pub on_image_transfer : QualitySettings → ℕ → TransferData fl → QualityHandler → QualityHandler
  unfolding on_transfer_of
  on_image_transfer settings now transfer h =
      on_transfer_of transfer.status settings now transfer.image_size_kb h

  -- The quality for a coverage: by the quadratic function where the settings say linear, and the other
  -- way round.
  abbrev pub quality_for_coverage : QualitySettings → Float → Quality
  quality_for_coverage settings coverage = elim settings.coverage_quality_func [
    | linear ↦ quality_for_image_coverage_quadratic fl settings.max_runtime_quality_index coverage
    | _ ↦ quality_for_image_coverage_linear fl settings.max_runtime_quality_index coverage
  ]

  abbrev pub quality_under_mouse : QualitySettings → WindowCoverage fl → Quality
  quality_under_mouse settings coverage =
      if settings.increase_quality_on_mouse_over && coverage.mouse_over
      then max_quality settings.max_runtime_quality_index
      else quality_for_coverage settings coverage.coverage

  -- The part of `setWindowCoverage` under the test that the function is not disabled.
  abbrev pub apply_coverage : QualitySettings → ℕ → Quality → QualityHandler → QualityHandler
  apply_coverage settings now q h =
      let h' =
        if same_quality q (max_quality settings.max_runtime_quality_index)
          && ltb (h.coverage_quality.index + 2) q.index
        then set_current_quality now h.desired_quality h
        else h in
      record h' { coverage_quality = q }

  abbrev pub apply_by :
      CoverageQualityFunc
      → QualitySettings
      → ℕ
      → WindowCoverage fl
      → QualityHandler
      → QualityHandler
  apply_by disabled settings now coverage h = h
  apply_by _ settings now coverage h =
      apply_coverage settings now (quality_under_mouse settings coverage) h

  -- `setWindowCoverage`
  pub set_window_coverage :
      QualitySettings → ℕ → WindowCoverage fl → QualityHandler → QualityHandler
  unfolding calculate_quality set_current_quality
  set_window_coverage settings now coverage h =
      if same_coverage fl h.coverage coverage
      then h
      else calculate_quality settings now (
          apply_by settings.coverage_quality_func settings now coverage
            (record h { coverage = coverage }))

  -- The constructors, without and with a coverage.
  pub new_handler : QualitySettings → ℕ → Quality → QualityHandler
  new_handler settings now desired_quality = record {
    desired_quality = desired_quality;
    coverage = no_coverage fl;
    coverage_quality = max_quality settings.max_runtime_quality_index;
    image_mbps_quality = max_quality settings.max_runtime_quality_index;
    current_quality = desired_quality;
    data_points = [];
    image_mbps = none;
    image_mbps_init_time = now;
    last_refresh_time = now;
  }

  pub new_handler_covered : QualitySettings → ℕ → Quality → WindowCoverage fl → QualityHandler
  unfolding new_handler set_window_coverage
  new_handler_covered settings now desired_quality coverage =
      set_window_coverage settings now coverage (new_handler settings now desired_quality)

  -- The calls that change a handler.
  pub data HandlerCall : Type 0 where
    covers : WindowCoverage fl → HandlerCall
    transfers : TransferData fl → HandlerCall
    recalculates : HandlerCall

  pub handler_call : QualitySettings → ℕ → HandlerCall → QualityHandler → QualityHandler
  unfolding set_window_coverage on_image_transfer calculate_quality
  handler_call settings now (covers coverage) h = set_window_coverage settings now coverage h
  handler_call settings now (transfers transfer) h = on_image_transfer settings now transfer h
  handler_call settings now recalculates h = calculate_quality settings now h

  pub handler_calls : QualitySettings → List (ℕ × HandlerCall) → QualityHandler → QualityHandler
  unfolding handler_call
  handler_calls settings [] h = h
  handler_calls settings ((now, c) ∷ cs) h =
      handler_calls settings cs (handler_call settings now c h)
