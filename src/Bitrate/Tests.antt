-- ===== src/Bitrate/Tests.antt =====
-- Calls of a bitrate calculator.
use webx_engine.Common.{some, [], ◌∷◌}
use webx_engine.Common.WholeFloats.{whole_floats}
use webx_engine.Bitrate.{new_calculator}
use webx_engine.Bitrate.Paired.{
  latency, bitrate, average, reset, calculator_calls, IsPaired, calculator-IsPaired,
}

calculator-IsPaired_example : IsPaired whole_floats (
    calculator_calls whole_floats
      ((5, latency 100 130) ∷ (9, bitrate 100 200 4096) ∷ (12, reset (some 7)) ∷ (14, average) ∷ [])
      (new_calculator whole_floats))
calculator-IsPaired_example =
    calculator-IsPaired whole_floats
      ((5, latency 100 130) ∷ (9, bitrate 100 200 4096) ∷ (12, reset (some 7)) ∷ (14, average) ∷ [])
