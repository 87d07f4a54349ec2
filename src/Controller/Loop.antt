-- ===== src/Controller/Loop.antt =====
-- src/controller/WebXController.cpp: the rounds of `run`, and what the other threads call. `now` is the
-- reading of the clock.
use webx_engine.Common.{ℕ, Bool, true, List, [], ◌∷◌, ◌++◌, if◌then◌else◌}
use webx_engine.Common.Floats.{Floats}
use webx_engine.Message.{Version}
use webx_engine.Instruction.{Instruction}
use webx_engine.Registry.{add_client, remove_client}
use webx_engine.Registry.Windows.{add_window_damage}
use webx_engine.Registry.Rounds.{handle_client_pings, disconnect_all}
use webx_engine.Registry.Steps.{after_add}
use webx_engine.Controller.{
  Display, DisplayEvent, cursor_event, window_layout_event, damage_event, clipboard_event,
  screen_resize_event, ControllerSettings, Controller, notify_display_changed,
  notify_cursor_changed, notify_mouse_position_changed, on_clipboard_event, on_screen_resize_event,
}
use webx_engine.Controller.Instructions.{handle_client_instructions}
use webx_engine.Controller.Windows.{update_client_windows}

-- What happens to a controller that is not stopped: a connection, a disconnection and an instruction of
-- the gateway's threads, and a round of `run`.
pub data ControllerCall : Type 0 where
  connects : Version → ControllerCall
  disconnects : ℕ → ControllerCall
  receives : Instruction → ControllerCall
  rounds : Bool → ControllerCall

module _ (fl : Floats) (dp : Display fl) (crc32 : List ℕ → ℕ) (settings : ControllerSettings) where
  -- The handlers of the display's events.
  abbrev pub on_event : ℕ → DisplayEvent → Controller fl dp → Controller fl dp
  on_event now cursor_event s = record s { cursor_dirty = true }
  on_event now window_layout_event s = record s { display_dirty = true }
  on_event now (damage_event d) s = record s {
    registry = add_window_damage fl settings.registry now d s.registry;
  }
  on_event now (clipboard_event t) s = on_clipboard_event fl dp t s
  on_event now (screen_resize_event w h) s = on_screen_resize_event fl dp w h s

  unfoldable pub on_events : ℕ → List DisplayEvent → Controller fl dp → Controller fl dp
  on_events now [] s = s
  on_events now (e ∷ es) s = on_events now es (on_event now e s)

  -- `handlePendingEvents` of the manager, which calls the handlers.
  unfoldable pub handle_pending_events : ℕ → Controller fl dp → Controller fl dp
  unfolding on_events
  handle_pending_events now s =
      let pending = dp.pending_events s.display in
      on_events now pending.0 (record s { display = pending.1 })

  -- The look whether the mouse was moved by another application.
  unfoldable pub refresh_mouse : Controller fl dp → Controller fl dp
  unfolding notify_mouse_position_changed
  refresh_mouse s =
      let s' = record s { display = dp.update_position s.display } in
      let s'' = notify_mouse_position_changed fl dp s' in
      if dp.is_mouse_dirty s'.display
      then record s'' { display = dp.clean_mouse s''.display }
      else s'

  -- One round of the loop of `run` that is no test. `refreshes` is the test of the time since the last
  -- refresh of the mouse.
  unfoldable pub round : ℕ → Bool → Controller fl dp → Controller fl dp
  unfolding handle_client_instructions handle_pending_events notify_display_changed
      notify_cursor_changed update_client_windows refresh_mouse
  round now refreshes s =
      let s1 = handle_client_instructions fl dp settings now s in
      let s2 = handle_pending_events now s1 in
      let s3 = if s2.display_dirty then notify_display_changed fl dp s2 else s2 in
      let s4 = if s3.cursor_dirty then notify_cursor_changed fl dp s3 else s3 in
      let s5 = record s4 { registry = handle_client_pings fl now s4.registry } in
      let s6 = update_client_windows fl dp crc32 settings now s5 in
      if refreshes then refresh_mouse s6 else s6

  -- `stop`, without the handlers that it takes from the gateway and the manager.
  unfoldable pub stop : Controller fl dp → Controller fl dp
  stop s = record s { registry = disconnect_all fl s.registry }

  unfoldable pub controller_step : ℕ → ControllerCall → Controller fl dp → Controller fl dp
  unfolding round
  controller_step now (connects version) s = record s {
    registry = after_add fl s.registry (add_client fl settings.registry now version s.registry);
  }
  controller_step now (disconnects i) s = record s { registry = (remove_client fl i s.registry).1 }
  controller_step now (receives i) s = record s { instructions = s.instructions ++ i ∷ [] }
  controller_step now (rounds refreshes) s = round now refreshes s

  unfoldable pub controller_run : List (ℕ × ControllerCall) → Controller fl dp → Controller fl dp
  unfolding controller_step
  controller_run [] s = s
  controller_run ((now, c) ∷ cs) s = controller_run cs (controller_step now c s)
