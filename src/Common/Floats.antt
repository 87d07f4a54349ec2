-- ===== src/Common/Floats.antt =====
-- The processor's `float` and `double`, as an interface: the program's conversions, operations and
-- comparisons, with no law assumed of them. The model has one type for both precisions.
use Prim.Native.Nat.{ℕ}
use mathlib.Core.Bool.{Bool}
use webx_engine.Common.Int.{ℤ}

pub record Floats : Type 1 where
  pub Float : Type 0
  -- A number, and a decimal literal, or a time in milliseconds, as a fraction.
  pub of_ℕ : ℕ → Float
  pub of_ℤ : ℤ → Float
  pub decimal : ℕ → ℕ → Float
  pub add : Float → Float → Float
  pub sub : Float → Float → Float
  pub mul : Float → Float → Float
  pub div : Float → Float → Float
  pub sqrt : Float → Float
  pub flt_ltb : Float → Float → Bool
  pub flt_leb : Float → Float → Bool
  pub flt_eqb : Float → Float → Bool
  -- The conversion to `uint64_t`, and the least whole number not below, for one that is not negative.
  pub to_u64 : Float → ℕ
  pub ceil : Float → ℕ
