-- ===== src/Group/Tests.antt =====
-- A group with two windows at concrete inputs.
use webx_engine.Common.{◌≡◌, refl, true, false, [], ◌∷◌, some, none, ◌⊎◌}
use webx_engine.Common.Int.{pos}
use webx_engine.Common.WholeFloats.{whole_floats}
use webx_engine.Message.{ping, no_command}
use webx_engine.Quality.{quality_of}
use webx_engine.Rectangle.{rectangle_of}
use webx_engine.Damage.{WindowDamage}
use webx_engine.Transfer.{transfer_of_window}
use webx_engine.Handler.{QualitySettings, quadratic}
use webx_engine.Window.{Visibility, ClientWindow, new_damaged_window}
use webx_engine.Group.{Group, new_group}
use webx_engine.Group.Windows.{
  UpdateHandler, add_damage_to_group, update_visible_windows, handle_graphical_updates,
  add_damage_to,
}
use webx_engine.Group.Shown.{
  window_with, last_of, damage_or_none, IsShown, update_visible_windows-IsShown,
}
use webx_engine.Group.Updates.{IsUpdated, sent_for, handle_graphical_updates-IsUpdated}

abbrev settings : QualitySettings
settings = record {
  increase_quality_on_mouse_over = true;
  coverage_quality_func = quadratic;
  limit_quality_by_data_rate = true;
  max_runtime_quality_index = 12;
}

abbrev corner_damage : WindowDamage
corner_damage = record {
  x11_window = 77;
  damage_areas = rectangle_of (pos 3) (pos 4) (pos 10) (pos 20) ∷ [];
  is_full_window = false;
}

abbrev damaged_group : Group whole_floats
damaged_group =
    add_damage_to_group whole_floats settings 10 corner_damage
      (new_group whole_floats (quality_of 4 300 60 60 200))

abbrev pub seen_window : Visibility whole_floats
seen_window = record {
  x11_window = 77;
  coverage = record { coverage = 0; mouse_over = true };
  rectangle = rectangle_of (pos 0) (pos 0) (pos 640) (pos 480);
  is_viewable = true;
  shape_mask_checksum = 5;
}

update_visible_windows-IsShown_example :
    let after =
      window_with whole_floats 77
        (update_visible_windows whole_floats settings 30
          (seen_window ∷ [])
          damaged_group).windows in
    ((last_of whole_floats 77 (seen_window ∷ []) ≡ none) × (after ≡ none))
    ⊎ ((v : Visibility whole_floats) × (last_of whole_floats 77 (seen_window ∷ []) ≡ some v)
        × (w : ClientWindow whole_floats) × (after ≡ some w)
        × IsShown whole_floats
            (damage_or_none whole_floats 77 (window_with whole_floats 77 damaged_group.windows))
            v
            w)
update_visible_windows-IsShown_example =
    update_visible_windows-IsShown whole_floats settings 30 (seen_window ∷ []) damaged_group 77

abbrev pub damaged_window : ClientWindow whole_floats
damaged_window =
    new_damaged_window whole_floats settings 10 (quality_of 4 300 60 60 200) corner_damage

abbrev sends_whole : UpdateHandler whole_floats
sends_whole w mask = (
  record { client_index_mask = mask; command_id = no_command; payload = ping } ∷ [],
  some (transfer_of_window whole_floats 900_000_000 w.id 40 1 2),
)

handle_graphical_updates-IsUpdated_example :
    let result =
      handle_graphical_updates whole_floats settings 900_000_000 sends_whole damaged_group in
    (result.1
      ≡ sent_for whole_floats settings 900_000_000 sends_whole damaged_group.client_index_mask
          damaged_group.windows)
    × (w' : ClientWindow whole_floats) × (window_with whole_floats 77 result.0.windows ≡ some w')
    × IsUpdated whole_floats settings 900_000_000 sends_whole damaged_group.client_index_mask
        damaged_window w' result.1
unfolding window_with add_damage_to_group add_damage_to new_group new_damaged_window
handle_graphical_updates-IsUpdated_example =
    handle_graphical_updates-IsUpdated whole_floats settings 900_000_000 sends_whole damaged_group
      77 damaged_window refl
