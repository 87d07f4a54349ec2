-- ===== src/Damage.antt =====
-- src/models/WebXWindowDamage.h: the damaged areas of a window, or all of it.
pub mod Cover
pub mod Tests
use webx_engine.Common.{ℕ, Bool, true, false, ◌&&◌, ◌||◌, not, List, [], ◌∷◌, if◌then◌else◌}
use webx_engine.Common.Int.{eqb_ℤ}
use webx_engine.Message.{Size}
use webx_engine.Common.Int.{ℤ, pos, ◌+ℤ◌}
use webx_engine.Message.{Size}
use webx_engine.Rectangle.{Rectangle, overlap_or_touching, extend, same_size, area}

pub record WindowDamage : Type 0 where
  pub x11_window : ℕ
  pub damage_areas : List Rectangle
  pub is_full_window : Bool

-- The constructor of a window without damage.
unfoldable pub no_damage : ℕ → WindowDamage
no_damage x11_window = record { x11_window = x11_window; damage_areas = []; is_full_window = false }

-- The loop of `addDamageRecange`: one pass that takes out each area that overlaps or touches the
-- combined one and widens that by it; the combined area goes to the end.
pub merge : Rectangle → List Rectangle → List Rectangle
merge combined [] = combined ∷ []
merge combined (existing ∷ rest) =
    if overlap_or_touching existing combined
    then merge (extend combined existing) rest
    else existing ∷ merge combined rest

-- `addDamageRecange`
pub add_damage_rectangle : Rectangle → WindowDamage → WindowDamage
unfolding merge
add_damage_rectangle area d =
    if d.is_full_window then d else record d { damage_areas = merge area d.damage_areas }

-- The loop of `operator +=` through the areas of the other.
pub add_all : List Rectangle → WindowDamage → WindowDamage
unfolding add_damage_rectangle
add_all [] d = d
add_all (area ∷ areas) d = add_all areas (add_damage_rectangle area d)

-- `operator +=`
unfoldable pub add_damage : WindowDamage → WindowDamage → WindowDamage
unfolding add_all
add_damage other d =
    if d.is_full_window
    then d
    else if other.is_full_window
    then record d { damage_areas = []; is_full_window = true }
    else add_all other.damage_areas d

-- `isFullWindow` for a size of the window.
abbrev is_of_size : Size → List Rectangle → Bool
is_of_size window_size [] = false
is_of_size window_size (r ∷ []) = same_size r.size window_size
is_of_size window_size (_ ∷ _ ∷ _) = false

pub covers_window : Size → WindowDamage → Bool
covers_window window_size d = d.is_full_window || is_of_size window_size d.damage_areas

-- `getDamagedArea`
area_from : ℤ → List Rectangle → ℤ
area_from acc [] = acc
area_from acc (r ∷ rs) = area_from (acc +ℤ area r) rs

pub damaged_area : WindowDamage → ℤ
unfolding area_from
damaged_area d = area_from (pos 0) d.damage_areas

abbrev is_nil : List Rectangle → Bool
is_nil [] = true
is_nil (_ ∷ _) = false

-- `hasDamage`
unfoldable pub has_damage : WindowDamage → Bool
has_damage d = d.is_full_window || not (is_nil d.damage_areas)

-- `reset`
unfoldable pub reset : WindowDamage → WindowDamage
reset d = record d { damage_areas = []; is_full_window = false }
