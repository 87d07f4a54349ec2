-- ===== src/Registry/Invariant/Windows.antt =====
-- What the calls that the registry passes on to its groups keep.
use webx_engine.Common.{ℕ, ◌≡◌, refl, ◌∙◌, Option, List, [], ◌∷◌}
use webx_engine.Common.Floats.{Floats}
use webx_engine.Damage.{WindowDamage}
use webx_engine.Handler.{QualitySettings}
use webx_engine.Window.{Visibility}
use webx_engine.Client.{Client, set_group_image_mbps}
use webx_engine.Roster.{Member}
use webx_engine.Group.{Group}
use webx_engine.Group.Windows.{
  UpdateHandler, add_damage_to_group, update_visible_windows, handle_graphical_updates,
}
use webx_engine.Group.Kept.{
  AllKept, map-AllKept, add_damage_to_group-IsKept, update_visible_windows-IsKept,
  handle_graphical_updates-IsKept,
}
use webx_engine.Registry.{Settings, Registry, members, update_client}
use webx_engine.Registry.Clients.{members-update}
use webx_engine.Registry.Ledger.{kept-IsLedger}
use webx_engine.Registry.Windows.{
  add_window_damage, show_visible, set_group_mbps_of, update_groups, handle_updates,
}
use webx_engine.Registry.Invariant.{IsRegistry}

module _ (fl : Floats) where
  pub add_window_damage-IsRegistry :
      (settings : Settings) (now : ℕ) (damage : WindowDamage) (r : Registry fl)
      → IsRegistry fl r
      → IsRegistry fl (add_window_damage fl settings now damage r)
  unfolding add_window_damage
  add_window_damage-IsRegistry settings now damage r v =
      let f = add_damage_to_group fl settings.quality now damage in
      kept-IsLedger fl v
        (map-AllKept fl f r.groups (add_damage_to_group-IsKept fl settings.quality now damage))

  pub show_visible-IsRegistry :
      (settings : Settings) (now : ℕ) (vs : List (Visibility fl)) (r : Registry fl)
      → IsRegistry fl r
      → IsRegistry fl (show_visible fl settings now vs r)
  unfolding show_visible
  show_visible-IsRegistry settings now vs r v =
      let f = update_visible_windows fl settings.quality now vs in
      kept-IsLedger fl v
        (map-AllKept fl f r.groups (update_visible_windows-IsKept fl settings.quality now vs))

  members-set_group_mbps_of :
      (average : Option fl.Float) (ms : List Member) (cs : List (Client fl))
      → members fl (set_group_mbps_of fl average ms cs) ≡ members fl cs
  unfolding set_group_mbps_of set_group_image_mbps
  members-set_group_mbps_of average [] cs = refl
  members-set_group_mbps_of average (m ∷ ms) cs =
      members-set_group_mbps_of average ms
        (update_client fl m.id (set_group_image_mbps fl average) cs)
      ∙ members-update fl m.id (set_group_image_mbps fl average) cs (λ c. refl)

  pub update_groups-AllKept :
      (settings : QualitySettings) (now : ℕ) (handler : UpdateHandler fl) (gs : List (Group fl))
      (cs : List (Client fl))
      → AllKept fl gs (update_groups fl settings now handler gs cs).0
  unfolding update_groups
  update_groups-AllKept settings now handler [] cs = tt
  update_groups-AllKept settings now handler (g ∷ gs) cs =
      let g' = (handle_graphical_updates fl settings now handler g).0 in
      (
        handle_graphical_updates-IsKept fl settings now handler g,
        update_groups-AllKept settings now handler gs
            (set_group_mbps_of fl g'.average_image_mbps g'.clients cs),
      )

  members-update_groups :
      (settings : QualitySettings) (now : ℕ) (handler : UpdateHandler fl) (gs : List (Group fl))
      (cs : List (Client fl))
      → members fl (update_groups fl settings now handler gs cs).1 ≡ members fl cs
  unfolding update_groups
  members-update_groups settings now handler [] cs = refl
  members-update_groups settings now handler (g ∷ gs) cs =
      let g' = (handle_graphical_updates fl settings now handler g).0 in
      members-update_groups settings now handler gs
        (set_group_mbps_of fl g'.average_image_mbps g'.clients cs)
      ∙ members-set_group_mbps_of g'.average_image_mbps g'.clients cs

  pub handle_updates-IsRegistry :
      (settings : Settings) (now : ℕ) (handler : UpdateHandler fl) (r : Registry fl)
      → IsRegistry fl r
      → IsRegistry fl (handle_updates fl settings now handler r)
  unfolding handle_updates
  handle_updates-IsRegistry settings now handler r v =
      rw (members-update_groups settings.quality now handler r.groups r.clients)
        (kept-IsLedger fl v (update_groups-AllKept settings.quality now handler r.groups r.clients))
