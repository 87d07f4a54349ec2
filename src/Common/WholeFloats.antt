-- ===== src/Common/WholeFloats.antt =====
-- Whole numbers in the place of the processor's floating point numbers, for tests.
use webx_engine.Common.{ℕ, ◌+◌, ◌-◌, ◌*◌, ◌/◌, ltb, leb, ◌==◌}
use webx_engine.Common.Int.{pos_part}
use webx_engine.Common.Floats.{Floats}

abbrev pub whole_floats : Floats
whole_floats = record {
  Float = ℕ;
  of_ℕ = λ n. n;
  of_ℤ = pos_part;
  decimal = λ a b. a / b;
  add = λ a b. a + b;
  sub = λ a b. a - b;
  mul = λ a b. a * b;
  div = λ a b. a / b;
  sqrt = λ a. a;
  flt_ltb = ltb;
  flt_leb = leb;
  flt_eqb = ◌==◌;
  to_u64 = λ a. a;
  ceil = λ a. a;
}
