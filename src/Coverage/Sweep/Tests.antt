-- ===== src/Coverage/Sweep/Tests.antt =====
-- The sweep at concrete rectangles.
use webx_engine.Common.{◌≡◌, refl, [], ◌∷◌, arith}
use webx_engine.Common.Int.{pos, ◌+ℤ◌, ◌-ℤ◌, ◌*ℤ◌}
use webx_engine.Rectangle.{Rectangle, rectangle_of, overlap}
use webx_engine.Coverage.Sweep.{Interval, covered_height, max_ℤ, min_ℤ, sweep_of}
use webx_engine.Coverage.Sweep.Areas.{height_nested, sweep_of-one}

abbrev base : Rectangle
base = rectangle_of (pos 10) (pos 20) (pos 100) (pos 50)

abbrev over : Rectangle
over = rectangle_of (pos 60) (pos 0) (pos 200) (pos 40)

sweep_of-one_example :
    (sweep_of base (over ∷ []) (pos 0) (pos 0)).covered_area
    ≡ (min_ℤ over.top base.top -ℤ max_ℤ over.bottom base.bottom)
      *ℤ (min_ℤ over.right base.right -ℤ max_ℤ over.left base.left)
unfolding rectangle_of overlap ◌+ℤ◌
sweep_of-one_example =
    sweep_of-one base over (pos 0) (pos 0) refl (omega arith, omega arith)
      (omega arith, omega arith) (omega arith)

abbrev outer : Interval
outer = record { y1 = pos 10; y2 = pos 90 }

abbrev inner : Interval
inner = record { y1 = pos 20; y2 = pos 30 }

height_nested_example :
    covered_height (pos 0) (pos 0) (outer ∷ inner ∷ []) +ℤ (outer.y2 -ℤ inner.y2)
    ≡ outer.y2 -ℤ outer.y1
height_nested_example =
    height_nested outer inner (omega arith) (omega arith) (omega arith) (omega arith)
