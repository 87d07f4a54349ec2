-- ===== src/Coverage.antt =====
-- src/models/WebXWindowCoverage.h: how much of a window others cover, and whether the mouse is on it.
pub mod Sweep
use webx_engine.Common.{Bool, true, false, ◌&&◌}
use webx_engine.Common.Floats.{Floats}

module _ (fl : Floats) where
  pub record WindowCoverage : Type 0 where
    pub coverage : fl.Float
    pub mouse_over : Bool

  -- The default constructor.
  abbrev pub no_coverage : WindowCoverage
  no_coverage = record { coverage = fl.of_ℕ 0; mouse_over = false }

  abbrev same_bool : Bool → Bool → Bool
  same_bool true b = b
  same_bool false true = false
  same_bool false false = true

  -- `operator ==`
  abbrev pub same_coverage : WindowCoverage → WindowCoverage → Bool
  same_coverage a b = fl.flt_eqb a.coverage b.coverage && same_bool a.mouse_over b.mouse_over
