-- ===== src/Registry/Refinement/Runs.antt =====
-- Runs of calls of the registry as runs of its map of levels.
use webx_engine.Common.{ℕ, ◌≡◌, refl, List, [], ◌∷◌, none}
use webx_engine.Common.Floats.{Floats}
use webx_engine.Group.Kept.{map-AllKept, add_damage_to_group-IsKept, update_visible_windows-IsKept}
use webx_engine.Group.Views.{level, level-kept}
use webx_engine.Registry.{Registry, Settings, new_registry, on_pong, on_data_ack}
use webx_engine.Registry.Steps.{
  Call, adds, removes, sets_max_quality, pongs, acks, handles_pings, verifies_quality, damages,
  shows, updates, step, run,
}
use webx_engine.Registry.Rounds.{disconnect_all}
use webx_engine.Registry.Calls.{step-IsRegistry}
use webx_engine.Registry.Invariant.Windows.{update_groups-AllKept}
use webx_engine.Registry.Windows.{add_window_damage, show_visible, handle_updates}
use webx_engine.Group.Windows.{add_damage_to_group, update_visible_windows}
use webx_engine.Registry.Invariant.{new_registry-IsRegistry, IsRegistry}
use webx_engine.Registry.Refinement.{IsChange, leaves, rests, IsRun, done, then_run, levels}
use webx_engine.Registry.Refinement.Steps.{
  levels-remove, add-IsChange, pings-IsChange, max_quality-IsChange, verify-IsChange,
}

module _ (fl : Floats) (settings : Settings) where
  step-IsChange :
      (now : ℕ) (call : Call fl) (r : Registry fl)
      → IsRegistry fl r
      → IsChange fl settings call (levels fl r) (levels fl (step fl settings now call r))
  unfolding step on_pong on_data_ack add_window_damage show_visible handle_updates
  step-IsChange now (adds version) r v = add-IsChange fl settings now version r v
  step-IsChange now (removes i) r v = leaves i (λ j. levels-remove fl settings i r j v)
  step-IsChange now (sets_max_quality i q) r v = max_quality-IsChange fl settings i q r v
  step-IsChange now (pongs i s t) r v = rests (pongs i s t) refl (λ j. refl)
  step-IsChange now (acks i s t n) r v = rests (acks i s t n) refl (λ j. refl)
  step-IsChange now (damages d) r v = rests (damages d) refl (λ j.
      level-kept fl r.groups (add_window_damage fl settings now d r).groups j (
        map-AllKept fl (add_damage_to_group fl settings.quality now d) r.groups
          (add_damage_to_group-IsKept fl settings.quality now d)))
  step-IsChange now (shows vs) r v = rests (shows vs) refl (λ j.
      level-kept fl r.groups (show_visible fl settings now vs r).groups j (
        map-AllKept fl (update_visible_windows fl settings.quality now vs) r.groups
          (update_visible_windows-IsKept fl settings.quality now vs)))
  step-IsChange now (updates handler) r v = rests (updates handler) refl (λ j.
      level-kept fl r.groups (handle_updates fl settings now handler r).groups j
        (update_groups-AllKept fl settings.quality now handler r.groups r.clients))
  step-IsChange now handles_pings r v = pings-IsChange fl settings now r v
  step-IsChange now verifies_quality r v = verify-IsChange fl settings now r v

  run-IsRun_from :
      (calls : List (ℕ × Call fl)) (r : Registry fl)
      → IsRegistry fl r
      → IsRun fl settings calls (levels fl r) (levels fl (run fl settings calls r))
  unfolding run
  run-IsRun_from [] r v = done (λ j. refl)
  run-IsRun_from ((now, call) ∷ calls) r v = then_run now call calls (step-IsChange now call r v) (
      run-IsRun_from calls (step fl settings now call r) (step-IsRegistry fl settings now call r v))

  -- Any run of calls but `disconnectAll` on a new registry is, call by call, one of the map from the identifiers of the
  -- clients to the quality levels of their groups, which is empty at first. `addClient` inserts one
  -- identifier that is not there at the greatest level or leaves the map as it is, `removeClient`
  -- deletes one, `setClientMaxQuality` puts one that is there at the level asked for and ignores one
  -- that is not, `handleClientPings` deletes some, `performQualityVerification` moves some that are
  -- there, and every other call but `disconnectAll`, among them all that concern windows, leaves the map
  -- as it is. A `disconnectAll` after the run empties the map.
  pub run-IsRun :
      (draws : List ℕ) (calls : List (ℕ × Call fl))
      → let r = run fl settings calls (new_registry fl draws) in
        IsRun fl settings calls (λ i. none) (levels fl r)
        × ((i : ℕ) → levels fl (disconnect_all fl r) i ≡ none)
  unfolding new_registry level disconnect_all
  run-IsRun draws calls =
      (run-IsRun_from calls (new_registry fl draws) (new_registry-IsRegistry fl draws), λ i. refl)
