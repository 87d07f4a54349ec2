-- ===== src/Damage/Tests.antt =====
-- Damage at concrete inputs.
use webx_engine.Common.{false, [], ◌∷◌, inl, inr, arith}
use webx_engine.Common.Int.{pos, negsuc, ◌+ℤ◌}
use webx_engine.Rectangle.{rectangle_of}
use webx_engine.Damage.{WindowDamage, add_damage}
use webx_engine.Damage.Cover.{IsDamaged, add_damage-IsDamaged}

abbrev two_corners : WindowDamage
two_corners = record {
  x11_window = 9;
  damage_areas =
      rectangle_of (pos 0) (pos 0) (pos 10) (pos 10)
      ∷ rectangle_of (pos 30) (pos 30) (pos 5) (pos 5)
      ∷ [];
  is_full_window = false;
}

abbrev between : WindowDamage
between = record {
  x11_window = 9;
  damage_areas = rectangle_of (negsuc 4) (pos 8) (pos 40) (pos 25) ∷ [];
  is_full_window = false;
}

-- A pixel left of the window's origin.
add_damage-IsDamaged_example : IsDamaged (negsuc 2) (pos 9) (add_damage between two_corners)
unfolding rectangle_of ◌+ℤ◌
add_damage-IsDamaged_example =
    add_damage-IsDamaged (negsuc 2) (pos 9) between two_corners
      (inl (inr (inl (omega arith, omega arith, omega arith, omega arith))))
