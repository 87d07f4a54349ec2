-- ===== src/Bitrate/Paired.antt =====
-- The mean and the deviation of the latency in src/controller/client/WebXClientBitrateCalculator.h.
use webx_engine.Common.{ℕ, ◌≡◌, refl, List, [], ◌∷◌, Option, arith}
use webx_engine.Common.Floats.{Floats}
use webx_engine.Bitrate.{
  BitrateCalculator, new_calculator, has_value, update_latency, calculate_rtt_latency_stats,
  calculate_average_bitrate_data, update_bitrate_data, reset_bitrate_data,
  set_current_group_image_mbps,
}

module _ (fl : Floats) where
  -- The calls of the calculator.
  pub data CalculatorCall : Type 0 where
    latency : ℕ → ℕ → CalculatorCall
    bitrate : ℕ → ℕ → ℕ → CalculatorCall
    average : CalculatorCall
    reset group_mbps : Option fl.Float → CalculatorCall

  pub calculator_call : ℕ → CalculatorCall → BitrateCalculator fl → BitrateCalculator fl
  calculator_call now (latency s t) c = update_latency fl now s t c
  calculator_call now (bitrate s t n) c = update_bitrate_data fl now s t n c
  calculator_call now average c = calculate_average_bitrate_data fl now c
  calculator_call now (reset mbps) c = reset_bitrate_data fl mbps c
  calculator_call now (group_mbps mbps) c = set_current_group_image_mbps fl mbps c

  pub calculator_calls : List (ℕ × CalculatorCall) → BitrateCalculator fl → BitrateCalculator fl
  unfolding calculator_call
  calculator_calls [] c = c
  calculator_calls ((now, k) ∷ ks) c = calculator_calls ks (calculator_call now k c)

  abbrev pub IsPaired : BitrateCalculator fl → Type 0
  IsPaired c = has_value c.mean_rtt_latency_ms ≡ has_value c.sd_rtt_latency_ms

  calculator_call-IsPaired :
      (now : ℕ) (k : CalculatorCall) (c : BitrateCalculator fl)
      → IsPaired c
      → IsPaired (calculator_call now k c)
  unfolding calculator_call update_latency calculate_rtt_latency_stats update_bitrate_data
      calculate_average_bitrate_data reset_bitrate_data set_current_group_image_mbps
  calculator_call-IsPaired now (latency s t) c h = ground arith
  calculator_call-IsPaired now (bitrate s t n) c h = ground arith
  calculator_call-IsPaired now average c h = ground arith
  calculator_call-IsPaired now (reset mbps) c h = h
  calculator_call-IsPaired now (group_mbps mbps) c h = h

  calculator_calls-IsPaired :
      (ks : List (ℕ × CalculatorCall)) (c : BitrateCalculator fl)
      → IsPaired c
      → IsPaired (calculator_calls ks c)
  unfolding calculator_calls
  calculator_calls-IsPaired [] c h = h
  calculator_calls-IsPaired ((now, k) ∷ ks) c h =
      calculator_calls-IsPaired ks (calculator_call now k c) (calculator_call-IsPaired now k c h)

  -- After any calls of a new calculator, the mean and the deviation of the latency are both there or
  -- both not: where `updateBitrateData` tests the first and reads both, neither read throws.
  pub calculator-IsPaired :
      (ks : List (ℕ × CalculatorCall)) → IsPaired (calculator_calls ks (new_calculator fl))
  unfolding new_calculator
  calculator-IsPaired ks = calculator_calls-IsPaired ks (new_calculator fl) refl
