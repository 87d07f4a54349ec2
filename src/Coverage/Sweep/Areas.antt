-- ===== src/Coverage/Sweep/Areas.antt =====
-- The area that the sweep finds covered.
use webx_engine.Common.{◌≡◌, refl, true, [], ◌∷◌, Bool-cases, inl, inr, arith}
use webx_engine.Common.Int.{ℤ, pos, ltb_ℤ, ◌+ℤ◌, ◌-ℤ◌, ◌*ℤ◌, ◌<ℤ◌, ◌≤ℤ◌, int_laws}
use webx_engine.Rectangle.{Rectangle, overlap}
use webx_engine.Coverage.Sweep.{
  Interval, Sweep, entering, leaving, max_ℤ, min_ℤ, events_of, insert_event, sort_events,
  covered_height, sweep_event, sweep_events, sweep_of, insert_interval, is_mouse_on,
}

-- One interval above 0 is measured in full.
height_one : (i : Interval) → pos 0 ≤ℤ i.y1 → covered_height (pos 0) (pos 0) (i ∷ []) ≡ i.y2 -ℤ i.y1
unfolding covered_height
height_one i h = grind int_laws

-- Where the second of two active intervals lies within the first, both from 0 on, the covered height
-- that the sweep finds falls short of the first interval by what that has above the second.
pub height_nested :
    (i j : Interval)
    → pos 0 ≤ℤ i.y1
    → i.y1 ≤ℤ j.y1
    → j.y1 ≤ℤ j.y2
    → j.y2 ≤ℤ i.y2
    → covered_height (pos 0) (pos 0) (i ∷ j ∷ []) +ℤ (i.y2 -ℤ j.y2) ≡ i.y2 -ℤ i.y1
unfolding covered_height
height_nested i j a b c d = grind int_laws

-- A rectangle with some width and height.
abbrev pub IsSolid : Rectangle → Type 0
IsSolid r = (r.left <ℤ r.right) × (r.bottom <ℤ r.top)

zero_mul : (d : ℤ) → pos 0 *ℤ d ≡ pos 0
unfolding ◌*ℤ◌
zero_mul d = ground arith

zero_add : (d : ℤ) → pos 0 +ℤ d ≡ d
zero_add d = grind int_laws

height_nil : covered_height (pos 0) (pos 0) [] ≡ pos 0
unfolding covered_height
height_nil = refl

-- What the two events of one rectangle add up to.
sweep_one :
    (base r : Rectangle) (mouse_x mouse_y : ℤ) (s : Sweep)
    → s.active_intervals ≡ []
    → s.covered_area ≡ pos 0
    → pos 0 ≤ℤ max_ℤ r.bottom base.bottom
    → (sweep_events mouse_x mouse_y (entering base r ∷ leaving base r ∷ []) s).covered_area
      ≡ ((entering base r).y2 -ℤ (entering base r).y1)
        *ℤ ((leaving base r).x -ℤ (entering base r).x)
unfolding sweep_events sweep_event insert_interval
sweep_one base r mouse_x mouse_y s a z p =
    let d = max_ℤ r.left base.left -ℤ s.prev_x in
    let i : Interval = record { y1 = (entering base r).y1; y2 = (entering base r).y2 } in
    rw (a, z, height_nil, zero_mul d, zero_add (pos 0), height_one i p) (zero_add _)

sorted_one :
    (base r : Rectangle)
    → overlap base r ≡ true
    → IsSolid base
    → IsSolid r
    → sort_events (events_of base (r ∷ [])) ≡ entering base r ∷ leaving base r ∷ []
unfolding sort_events events_of insert_event overlap
sorted_one base r o a b =
    elim (Bool-cases (ltb_ℤ (min_ℤ r.right base.right) (max_ℤ r.left base.left))) [
      | inl e ↦ absurd (ground arith)
      | inr e ↦ rw (o, e) refl
    ]

-- For one covering rectangle that overlaps the window, both with some width and height and not both
-- reaching above the screen, the sweep finds the area of the part that the two have in common.
pub sweep_of-one :
    (base r : Rectangle) (mouse_x mouse_y : ℤ)
    → overlap base r ≡ true
    → IsSolid base
    → IsSolid r
    → pos 0 ≤ℤ max_ℤ r.bottom base.bottom
    → (sweep_of base (r ∷ []) mouse_x mouse_y).covered_area
      ≡ (min_ℤ r.top base.top -ℤ max_ℤ r.bottom base.bottom)
        *ℤ (min_ℤ r.right base.right -ℤ max_ℤ r.left base.left)
unfolding sweep_of
sweep_of-one base r mouse_x mouse_y o a b p =
    let start : Sweep = record {
      prev_x = base.left;
      covered_area = pos 0;
      mouse_over = is_mouse_on mouse_x mouse_y base;
      active_intervals = [];
    } in
    rw (sorted_one base r o a b) (sweep_one base r mouse_x mouse_y start refl refl p)
