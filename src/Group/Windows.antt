-- ===== src/Group/Windows.antt =====
-- src/controller/client/WebXClientGroup.h and .cpp: the windows of a group, their damage, what is sent
-- of them and the data rate of that. `now` is the reading of the clock in a call. The function that
-- grabs and sends an image is a parameter: what it returns of a window for the mask of the clients
-- (`none` for an error), and the messages that it sends.
use webx_engine.Common.{
  ℕ, ◌-◌, Bool, true, false, List, [], ◌∷◌, ◌++◌, Option, none, some, ◌==◌, ◌&&◌, ◌||◌,
  if◌then◌else◌, remove_if, map,
}
use webx_engine.Common.Floats.{Floats}
use webx_engine.Message.{Message}
use webx_engine.Quality.{Quality}
use webx_engine.Bitrate.{DataPoint, older_than, accumulate}
use webx_engine.Transfer.{TransferData}
use webx_engine.Damage.{WindowDamage}
use webx_engine.Handler.{QualitySettings, mbps_of}
use webx_engine.Window.{
  ClientWindow, Visibility, new_window, new_damaged_window, add_window_damage, reset_damage,
  reset_shape_mask_checksum, window_has_damage, update_quality, update_visible, requires_refresh,
  shape_requires_update, on_window_transfer,
}
use webx_engine.Group.{Group}

abbrev pub bitrate_data_retention_time_ms : ℕ
bitrate_data_retention_time_ms = 4000

abbrev pub time_for_valid_group_mbps_ms : ℕ
time_for_valid_group_mbps_ms = 2000

module _ (fl : Floats) where
  open fl use {Float, of_ℕ, add, flt_ltb}

  abbrev pub UpdateHandler : Type 0
  UpdateHandler = ClientWindow fl → ℕ → List Message × Option (TransferData fl)

  -- The loop of `addWindowDamage` that finds the window and adds to its damage, or adds a window.
  unfoldable pub add_damage_to :
      QualitySettings → ℕ → Quality → WindowDamage → List (ClientWindow fl) → List (ClientWindow fl)
  unfolding add_window_damage
  add_damage_to settings now q damage [] = new_damaged_window fl settings now q damage ∷ []
  add_damage_to settings now q damage (w ∷ ws) =
      if w.id == damage.x11_window
      then add_window_damage fl damage w ∷ ws
      else w ∷ add_damage_to settings now q damage ws

  -- `addWindowDamage`
  unfoldable pub add_damage_to_group : QualitySettings → ℕ → WindowDamage → Group fl → Group fl
  unfolding add_damage_to
  add_damage_to_group settings now damage g = record g {
    windows = add_damage_to settings now g.quality damage g.windows;
  }

  -- No visibility has the identifier.
  unfoldable pub is_gone : ℕ → List (Visibility fl) → Bool
  is_gone i [] = true
  is_gone i (v ∷ vs) = if v.x11_window == i then false else is_gone i vs

  -- One round of the loop through the visibilities: the window of it is updated, or added.
  unfoldable pub show_window :
      QualitySettings
      → ℕ
      → Quality
      → Visibility fl
      → List (ClientWindow fl)
      → List (ClientWindow fl)
  unfolding update_visible new_window
  show_window settings now q v [] = new_window fl settings now q v ∷ []
  show_window settings now q v (w ∷ ws) =
      if v.x11_window == w.id
      then update_visible fl settings now v w ∷ ws
      else w ∷ show_window settings now q v ws

  unfoldable pub show_windows :
      QualitySettings
      → ℕ
      → Quality
      → List (Visibility fl)
      → List (ClientWindow fl)
      → List (ClientWindow fl)
  unfolding show_window
  show_windows settings now q [] ws = ws
  show_windows settings now q (v ∷ vs) ws =
      show_windows settings now q vs (show_window settings now q v ws)

  -- `updateVisibleWindows`
  unfoldable pub update_visible_windows :
      QualitySettings → ℕ → List (Visibility fl) → Group fl → Group fl
  unfolding is_gone show_windows update_quality
  update_visible_windows settings now vs g =
      let kept = remove_if (λ w. is_gone w.id vs) g.windows in
      let shown = show_windows settings now g.quality vs kept in
      record g { windows = map (update_quality fl settings now) shown }

  -- The test for a window that is handled: it has damage or a new shape, and has not been refreshed
  -- for the time of its quality.
  abbrev pub is_due : ℕ → ClientWindow fl → Bool
  is_due now w = (window_has_damage fl w || shape_requires_update fl w) && requires_refresh fl now w

  -- What a window is after the handler's result, with its damage and shape reset.
  abbrev pub after_result :
      QualitySettings → ℕ → Option (TransferData fl) → ClientWindow fl → ClientWindow fl
  after_result settings now none w = w
  after_result settings now (some t) w = on_window_transfer fl settings now t w

  unfoldable pub handled :
      QualitySettings → ℕ → UpdateHandler → ℕ → ClientWindow fl → ClientWindow fl
  unfolding on_window_transfer reset_damage reset_shape_mask_checksum
  handled settings now handler mask w =
      reset_shape_mask_checksum fl
        (reset_damage fl (after_result settings now (handler w mask).1 w))

  -- The size of what was sent, added to the total.
  abbrev pub add_size : Option (TransferData fl) → Float → Float
  add_size none total = total
  add_size (some t) total = add total t.image_size_kb

  -- The loop of `handleWindowGraphicalUpdates`: the windows after it, the messages sent and the total.
  unfoldable pub handle_windows :
      QualitySettings
      → ℕ
      → UpdateHandler
      → ℕ
      → Float
      → List (ClientWindow fl)
      → List (ClientWindow fl) × List Message × Float
  unfolding handled
  handle_windows settings now handler mask total [] = ([], [], total)
  handle_windows settings now handler mask total (w ∷ ws) =
      let due = is_due now w in
      let asked = handler w mask in
      let total' = if due then add_size asked.1 total else total in
      let rest = handle_windows settings now handler mask total' ws in
      (
        (if due then handled settings now handler mask w else w) ∷ rest.0,
        (if due then asked.0 ++ rest.1 else rest.1),
        rest.2,
      )

  -- The points that `calculateImageMbps` keeps, and the average that it sets.
  abbrev pub kept_points : ℕ → List (DataPoint fl) → List (DataPoint fl)
  kept_points now ps = remove_if (λ p. older_than bitrate_data_retention_time_ms now p.timestamp) ps

  unfoldable pub group_image_mbps : ℕ → List (DataPoint fl) → Option Float
  group_image_mbps now [] = some (of_ℕ 0)
  group_image_mbps now (p ∷ ps) =
      if older_than time_for_valid_group_mbps_ms now p.timestamp
      then some (mbps_of fl (accumulate fl add (of_ℕ 0) (p ∷ ps)) (now - p.timestamp))
      else none

  -- `calculateImageMbps`, without what it sets in the clients.
  unfoldable pub calculate_group_mbps : ℕ → Group fl → Group fl
  unfolding group_image_mbps
  calculate_group_mbps now g =
      let ps = kept_points now g.transfer_data_points in
      record g { transfer_data_points = ps; average_image_mbps = group_image_mbps now ps }

  abbrev pub add_point : ℕ → Float → List (DataPoint fl) → List (DataPoint fl)
  add_point now total ps =
      if flt_ltb (of_ℕ 0) total then ps ++ record { value = total; timestamp = now } ∷ [] else ps

  -- `handleWindowGraphicalUpdates`: the group after it and the messages sent.
  unfoldable pub handle_graphical_updates :
      QualitySettings → ℕ → UpdateHandler → Group fl → Group fl × List Message
  unfolding handle_windows calculate_group_mbps
  handle_graphical_updates settings now handler g =
      let result = handle_windows settings now handler g.client_index_mask (of_ℕ 0) g.windows in
      (
        calculate_group_mbps now (record g {
          windows = result.0;
          transfer_data_points = add_point now result.2 g.transfer_data_points;
        }),
        result.1,
      )
