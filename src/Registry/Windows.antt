-- ===== src/Registry/Windows.antt =====
-- src/controller/client/WebXClientRegistry.h: what the registry passes on to its groups.
-- `now` is the reading of the clock in a call.
use webx_engine.Common.{ℕ, Option, List, [], ◌∷◌, ◌++◌, map}
use webx_engine.Common.Floats.{Floats}
use webx_engine.Message.{Message}
use webx_engine.Damage.{WindowDamage}
use webx_engine.Handler.{QualitySettings}
use webx_engine.Window.{Visibility}
use webx_engine.Client.{Client, set_group_image_mbps}
use webx_engine.Roster.{Member}
use webx_engine.Group.{Group}
use webx_engine.Group.Windows.{
  UpdateHandler, add_damage_to_group, update_visible_windows, handle_graphical_updates,
}
use webx_engine.Registry.{Settings, Registry, update_client}

module _ (fl : Floats) where
  open fl use {Float}

  -- `addWindowDamage`
  unfoldable pub add_window_damage : Settings → ℕ → WindowDamage → Registry fl → Registry fl
  add_window_damage settings now damage r = record r {
    groups = map (add_damage_to_group fl settings.quality now damage) r.groups;
  }

  -- `updateVisibleWindows`
  unfoldable pub show_visible : Settings → ℕ → List (Visibility fl) → Registry fl → Registry fl
  show_visible settings now vs r = record r {
    groups = map (update_visible_windows fl settings.quality now vs) r.groups;
  }

  -- The loop of a group that gives its clients the data rate of their group.
  unfoldable pub set_group_mbps_of :
      Option Float → List Member → List (Client fl) → List (Client fl)
  set_group_mbps_of average [] cs = cs
  set_group_mbps_of average (m ∷ ms) cs =
      set_group_mbps_of average ms (update_client fl m.id (set_group_image_mbps fl average) cs)

  -- `handleWindowGraphicalUpdates`, one group after the other.
  unfoldable pub update_groups :
      QualitySettings
      → ℕ
      → UpdateHandler fl
      → List (Group fl)
      → List (Client fl)
      → List (Group fl) × List (Client fl) × List Message
  update_groups settings now handler [] cs = ([], cs, [])
  update_groups settings now handler (g ∷ gs) cs =
      let result = handle_graphical_updates fl settings now handler g in
      let g' = result.0 in
      let rest =
        update_groups settings now handler gs
          (set_group_mbps_of g'.average_image_mbps g'.clients cs) in
      (g' ∷ rest.0, rest.1, result.1 ++ rest.2)

  unfoldable pub handle_updates : Settings → ℕ → UpdateHandler fl → Registry fl → Registry fl
  unfolding update_groups
  handle_updates settings now handler r =
      let result = update_groups settings.quality now handler r.groups r.clients in
      record r { groups = result.0; clients = result.1; sent = r.sent ++ result.2 }
