-- ===== src/Handler/Tests.antt =====
-- The range of the quality of a window at some calls.
use webx_engine.Common.{ℕ, true, [], ◌∷◌, List, arith}
use webx_engine.Common.WholeFloats.{whole_floats}
use webx_engine.Quality.{quality_at}
use webx_engine.Transfer.{transfer_of_parts}
use webx_engine.Handler.{
  QualitySettings, HandlerCall, covers, transfers, recalculates, linear, handler_calls, new_handler,
}
use webx_engine.Handler.Levels.{IsLevelled, handler-IsLevelled}

abbrev settings_of_test : QualitySettings
settings_of_test = record {
  increase_quality_on_mouse_over = true;
  coverage_quality_func = linear;
  limit_quality_by_data_rate = true;
  max_runtime_quality_index = 10;
}

abbrev two_seconds : ℕ
two_seconds = 2_500_000_000

abbrev calls_of_test : List (ℕ × HandlerCall whole_floats)
calls_of_test =
    (1000, covers (record { coverage = 1; mouse_over = true }))
    ∷ (2000, transfers (transfer_of_parts whole_floats 2000 7 900_000))
    ∷ (two_seconds, recalculates)
    ∷ []

handler-IsLevelled_example : IsLevelled whole_floats settings_of_test (omega arith) (
    handler_calls whole_floats settings_of_test calls_of_test
      (new_handler whole_floats settings_of_test 0 (quality_at 9)))
unfolding quality_at
handler-IsLevelled_example =
    handler-IsLevelled whole_floats settings_of_test (omega arith) 0 (quality_at 9) calls_of_test
      (omega arith) (omega arith)
