-- ===== src/Coverage/Sweep.antt =====
-- src/models/WebXWindowCoverage.h: `OverlapCalc`, the sweep over the covering rectangles. No `int`
-- overflows. Events of one x-coordinate stand in the order given, which `std::sort` leaves open.
pub mod Areas
pub mod Tests
use webx_engine.Common.{Bool, true, false, List, [], ◌∷◌, ◌&&◌, ◌||◌, if◌then◌else◌}
use webx_engine.Common.Int.{ℤ, pos, ltb_ℤ, leb_ℤ, eqb_ℤ, ◌+ℤ◌, ◌-ℤ◌, ◌*ℤ◌}
use webx_engine.Common.Floats.{Floats}
use webx_engine.Rectangle.{Rectangle, area, overlap}
use webx_engine.Coverage.{WindowCoverage}

-- `SweepLineEvent`, with whether it is entering in the place of the type.
pub record SweepLineEvent : Type 0 where
  pub x : ℤ
  pub y1 : ℤ
  pub y2 : ℤ
  pub is_entering : Bool

pub record Interval : Type 0 where
  pub y1 : ℤ
  pub y2 : ℤ

abbrev pub max_ℤ : ℤ → ℤ → ℤ
max_ℤ a b = if ltb_ℤ a b then b else a

abbrev pub min_ℤ : ℤ → ℤ → ℤ
min_ℤ a b = if ltb_ℤ b a then b else a

-- The events of one rectangle.
abbrev pub entering : Rectangle → Rectangle → SweepLineEvent
entering base r = record {
  x = max_ℤ r.left base.left;
  y1 = max_ℤ r.bottom base.bottom;
  y2 = min_ℤ r.top base.top;
  is_entering = true;
}

abbrev pub leaving : Rectangle → Rectangle → SweepLineEvent
leaving base r = record {
  x = min_ℤ r.right base.right;
  y1 = max_ℤ r.bottom base.bottom;
  y2 = min_ℤ r.top base.top;
  is_entering = false;
}

pub events_of : Rectangle → List Rectangle → List SweepLineEvent
events_of base [] = []
events_of base (r ∷ rs) =
    if overlap base r
    then entering base r ∷ leaving base r ∷ events_of base rs
    else events_of base rs

-- The sort by x-coordinate.
pub insert_event : SweepLineEvent → List SweepLineEvent → List SweepLineEvent
insert_event e [] = e ∷ []
insert_event e (f ∷ fs) = if ltb_ℤ f.x e.x then f ∷ insert_event e fs else e ∷ f ∷ fs

pub sort_events : List SweepLineEvent → List SweepLineEvent
unfolding insert_event
sort_events [] = []
sort_events (e ∷ es) = insert_event e (sort_events es)

-- The multiset of active intervals, in the order of pairs.
abbrev pub is_before : Interval → Interval → Bool
is_before i j = ltb_ℤ i.y1 j.y1 || (eqb_ℤ i.y1 j.y1 && ltb_ℤ i.y2 j.y2)

pub insert_interval : Interval → List Interval → List Interval
insert_interval i [] = i ∷ []
insert_interval i (j ∷ js) = if is_before i j then i ∷ j ∷ js else j ∷ insert_interval i js

pub erase_interval : Interval → List Interval → List Interval
erase_interval i [] = []
erase_interval i (j ∷ js) =
    if eqb_ℤ i.y1 j.y1 && eqb_ℤ i.y2 j.y2 then js else j ∷ erase_interval i js

-- The loop through the active intervals: the covered height added up, and whether an interval shows
-- the mouse to be covered.
pub covered_height : ℤ → ℤ → List Interval → ℤ
covered_height last_y height [] = height
covered_height last_y height (i ∷ is) =
    let lower_y = if ltb_ℤ last_y i.y1 then i.y1 else last_y in
    covered_height (max_ℤ last_y i.y2) (height +ℤ (i.y2 -ℤ lower_y)) is

pub is_mouse_covered : ℤ → ℤ → List Interval → Bool
is_mouse_covered mouse_y last_y [] = false
is_mouse_covered mouse_y last_y (i ∷ is) =
    let lower_y = if ltb_ℤ last_y i.y1 then i.y1 else last_y in
    (leb_ℤ mouse_y i.y2 && leb_ℤ lower_y mouse_y) || is_mouse_covered mouse_y (max_ℤ last_y i.y2) is

-- The state of the loop through the events.
pub record Sweep : Type 0 where
  pub prev_x : ℤ
  pub covered_area : ℤ
  pub mouse_over : Bool
  pub active_intervals : List Interval

abbrev pub interval_of : SweepLineEvent → Interval
interval_of e = record { y1 = e.y1; y2 = e.y2 }

pub sweep_event : ℤ → ℤ → SweepLineEvent → Sweep → Sweep
unfolding covered_height is_mouse_covered insert_interval erase_interval
sweep_event mouse_x mouse_y e s = record {
  prev_x = e.x;
  covered_area =
      s.covered_area +ℤ covered_height (pos 0) (pos 0) s.active_intervals *ℤ (e.x -ℤ s.prev_x);
  mouse_over =
      if leb_ℤ mouse_x e.x
        && leb_ℤ s.prev_x mouse_x
        && is_mouse_covered mouse_y (pos 0) s.active_intervals
      then false
      else s.mouse_over;
  active_intervals =
      if e.is_entering
      then insert_interval (interval_of e) s.active_intervals
      else erase_interval (interval_of e) s.active_intervals;
}

pub sweep_events : ℤ → ℤ → List SweepLineEvent → Sweep → Sweep
unfolding sweep_event
sweep_events mouse_x mouse_y [] s = s
sweep_events mouse_x mouse_y (e ∷ es) s =
    sweep_events mouse_x mouse_y es (sweep_event mouse_x mouse_y e s)

-- The mouse is on the window, before anything covers it.
abbrev pub is_mouse_on : ℤ → ℤ → Rectangle → Bool
is_mouse_on mouse_x mouse_y base =
    leb_ℤ mouse_x base.right
    && leb_ℤ base.left mouse_x
    && leb_ℤ mouse_y base.top
    && leb_ℤ base.bottom mouse_y

pub sweep_of : Rectangle → List Rectangle → ℤ → ℤ → Sweep
unfolding events_of sort_events sweep_events
sweep_of base covering_rectangles mouse_x mouse_y =
    sweep_events mouse_x mouse_y (sort_events (events_of base covering_rectangles)) (record {
      prev_x = base.left;
      covered_area = pos 0;
      mouse_over = is_mouse_on mouse_x mouse_y base;
      active_intervals = [];
    })

module _ (fl : Floats) where
  -- `OverlapCalc`
  pub overlap_calc : Rectangle → List Rectangle → ℤ → ℤ → WindowCoverage fl
  unfolding sweep_of
  overlap_calc base covering_rectangles mouse_x mouse_y =
      let s = sweep_of base covering_rectangles mouse_x mouse_y in
      record {
        coverage = fl.div (fl.of_ℤ s.covered_area) (fl.of_ℤ (area base));
        mouse_over = s.mouse_over;
      }
