-- ===== src/Group/Kept.antt =====
-- Changes of the windows of groups, which keep their qualities, clients and masks.
use webx_engine.Common.{ℕ, ◌≡◌, refl, List, [], ◌∷◌, map}
use webx_engine.Common.Floats.{Floats}
use webx_engine.Damage.{WindowDamage}
use webx_engine.Handler.{QualitySettings}
use webx_engine.Window.{Visibility}
use webx_engine.Group.{Group}
use webx_engine.Group.Members.{all_members, quality_count, AllGroups}
use webx_engine.Group.Windows.{
  UpdateHandler, add_damage_to_group, update_visible_windows, handle_graphical_updates,
  calculate_group_mbps,
}

module _ (fl : Floats) where
  pub record IsKept (g g' : Group fl) : Type 0 where
    pub quality : g'.quality ≡ g.quality
    pub mask : g'.client_index_mask ≡ g.client_index_mask
    pub clients : g'.clients ≡ g.clients

  abbrev pub AllKept : List (Group fl) → List (Group fl) → Type 0
  AllKept [] [] = Unit
  AllKept (g ∷ gs) (h ∷ hs) = IsKept g h × AllKept gs hs
  AllKept _ _ = ⊥

  pub map-AllKept :
      (f : Group fl → Group fl) (gs : List (Group fl))
      → ((g : Group fl) → IsKept g (f g))
      → AllKept gs (map f gs)
  map-AllKept f [] k = tt
  map-AllKept f (g ∷ gs) k = (k g, map-AllKept f gs k)

  pub add_damage_to_group-IsKept :
      (settings : QualitySettings) (now : ℕ) (damage : WindowDamage) (g : Group fl)
      → IsKept g (add_damage_to_group fl settings now damage g)
  unfolding add_damage_to_group
  add_damage_to_group-IsKept settings now damage g = record {
    quality = refl;
    mask = refl;
    clients = refl;
  }

  pub update_visible_windows-IsKept :
      (settings : QualitySettings) (now : ℕ) (vs : List (Visibility fl)) (g : Group fl)
      → IsKept g (update_visible_windows fl settings now vs g)
  unfolding update_visible_windows
  update_visible_windows-IsKept settings now vs g = record {
    quality = refl;
    mask = refl;
    clients = refl;
  }

  pub handle_graphical_updates-IsKept :
      (settings : QualitySettings) (now : ℕ) (handler : UpdateHandler fl) (g : Group fl)
      → IsKept g (handle_graphical_updates fl settings now handler g).0
  unfolding handle_graphical_updates calculate_group_mbps
  handle_graphical_updates-IsKept settings now handler g = record {
    quality = refl;
    mask = refl;
    clients = refl;
  }

  pub all_members-kept :
      (gs hs : List (Group fl)) → AllKept gs hs → all_members fl hs ≡ all_members fl gs
  unfolding all_members
  all_members-kept [] [] k = refl
  all_members-kept [] (h ∷ hs) k = elim k [ ]
  all_members-kept (g ∷ gs) [] k = elim k [ ]
  all_members-kept (g ∷ gs) (h ∷ hs) k = rw (k.0.clients, all_members-kept gs hs k.1) refl

  pub quality_count-kept :
      (j : ℕ) (gs hs : List (Group fl))
      → AllKept gs hs
      → quality_count fl j hs ≡ quality_count fl j gs
  unfolding quality_count
  quality_count-kept j [] [] k = refl
  quality_count-kept j [] (h ∷ hs) k = elim k [ ]
  quality_count-kept j (g ∷ gs) [] k = elim k [ ]
  quality_count-kept j (g ∷ gs) (h ∷ hs) k = rw (k.0.quality, quality_count-kept j gs hs k.1) refl

  pub kept-AllGroups : (gs hs : List (Group fl)) → AllKept gs hs → AllGroups fl gs → AllGroups fl hs
  kept-AllGroups [] [] k a = tt
  kept-AllGroups [] (h ∷ hs) k a = elim k [ ]
  kept-AllGroups (g ∷ gs) [] k a = elim k [ ]
  kept-AllGroups (g ∷ gs) (h ∷ hs) k (a, b) = (
    record { inhabited = rw k.0.clients a.inhabited; mask = rw (k.0.mask, k.0.clients) a.mask },
    kept-AllGroups gs hs k.1 b,
  )
