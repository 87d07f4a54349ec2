-- ===== src/Controller/Settled.antt =====
-- What a round of the controller leaves to do.
use webx_engine.Common.{
  ℕ, ◌≡◌, refl, Bool, true, false, List, [], ◌∷◌, Bool-cases, inl, inr, if◌then◌else◌,
}
use webx_engine.Common.Floats.{Floats}
use webx_engine.Registry.Rounds.{handle_client_pings}
use webx_engine.Controller.{
  Display, DisplayEvent, cursor_event, window_layout_event, damage_event, clipboard_event,
  screen_resize_event, ControllerSettings, Controller, send_message, notify_display_changed,
  notify_cursor_changed, notify_mouse_position_changed, on_clipboard_event, on_screen_resize_event,
}
use webx_engine.Controller.Instructions.{handle_instructions, handle_client_instructions}
use webx_engine.Controller.Windows.{update_client_windows}
use webx_engine.Controller.Loop.{on_event, on_events, handle_pending_events, refresh_mouse, round}

module _ (fl : Floats) (dp : Display fl) (crc32 : List ℕ → ℕ) (settings : ControllerSettings) where
  events-instructions :
      (now : ℕ) (es : List DisplayEvent) (s : Controller fl dp)
      → (on_events fl dp crc32 settings now es s).instructions ≡ s.instructions
  unfolding on_events on_clipboard_event on_screen_resize_event send_message
  events-instructions now [] s = refl
  events-instructions now (cursor_event ∷ es) s =
      events-instructions now es (record s { cursor_dirty = true })
  events-instructions now (window_layout_event ∷ es) s =
      events-instructions now es (record s { display_dirty = true })
  events-instructions now (damage_event d ∷ es) s =
      events-instructions now es (on_event fl dp crc32 settings now (damage_event d) s)
  events-instructions now (clipboard_event t ∷ es) s =
      events-instructions now es (on_event fl dp crc32 settings now (clipboard_event t) s)
  events-instructions now (screen_resize_event w h ∷ es) s =
      events-instructions now es (on_event fl dp crc32 settings now (screen_resize_event w h) s)

  -- No instruction is left, and neither the display nor the cursor has changed since it was told.
  abbrev pub IsSettled : Controller fl dp → Type 0
  IsSettled s = (s.instructions ≡ []) × (s.display_dirty ≡ false) × (s.cursor_dirty ≡ false)

  changed-IsSettled :
      (b c : Bool) (s : Controller fl dp)
      → s.instructions ≡ []
      → s.display_dirty ≡ b
      → s.cursor_dirty ≡ c
      → let s3 = if b then notify_display_changed fl dp s else s in
        IsSettled (if s3.cursor_dirty then notify_cursor_changed fl dp s3 else s3)
  unfolding notify_display_changed notify_cursor_changed send_message
  changed-IsSettled true true s i d c = rw c (i, refl, refl)
  changed-IsSettled true false s i d c = rw c (i, refl, refl)
  changed-IsSettled false true s i d c = rw c (i, d, refl)
  changed-IsSettled false false s i d c = rw c (i, d, refl)

  refreshed-IsSettled :
      (b : Bool) (s : Controller fl dp)
      → IsSettled s
      → IsSettled (if b then refresh_mouse fl dp crc32 settings s else s)
  unfolding refresh_mouse notify_mouse_position_changed send_message
  refreshed-IsSettled false s h = h
  refreshed-IsSettled true s h =
      elim (Bool-cases (dp.is_mouse_dirty (dp.update_position s.display))) [
        | inl e ↦ rw e h
        | inr e ↦ rw e h
      ]

  pub round-IsSettled :
      (now : ℕ) (refreshes : Bool) (s : Controller fl dp)
      → IsSettled (round fl dp crc32 settings now refreshes s)
  unfolding round handle_client_instructions handle_pending_events update_client_windows
  round-IsSettled now refreshes s =
      let h = handle_instructions fl dp settings now s.instructions s in
      let s1 = record h { instructions = [] } in
      let pending = dp.pending_events s1.display in
      let s1' = record s1 { display = pending.1 } in
      let s2 = on_events fl dp crc32 settings now pending.0 s1' in
      let s3 = if s2.display_dirty then notify_display_changed fl dp s2 else s2 in
      let s4 = if s3.cursor_dirty then notify_cursor_changed fl dp s3 else s3 in
      let s5 = record s4 { registry = handle_client_pings fl now s4.registry } in
      let k : IsSettled s4 =
        changed-IsSettled s2.display_dirty s2.cursor_dirty s2
          (events-instructions now pending.0 s1') refl refl in
      refreshed-IsSettled refreshes (update_client_windows fl dp crc32 settings now s5) k
