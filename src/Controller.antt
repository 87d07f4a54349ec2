-- ===== src/Controller.antt =====
-- src/controller/WebXController.h and .cpp: the state of the controller and the messages that it sends of
-- itself. The display and its mouse, which are the X11 libraries behind src/display, are an interface.
pub mod Windows
pub mod Instructions
pub mod Loop
pub mod Settled
pub mod Invariant
pub mod Answers
pub mod Sent
pub mod Tests
use webx_engine.Common.{ℕ, Bool, true, false, List, [], ◌∷◌, Option}
use webx_engine.Common.Int.{ℤ, negsuc}
use webx_engine.Common.Floats.{Floats}
use webx_engine.Message.{
  Message, Payload, Image, Size, Version, WindowProperties, windows, mouse, clipboard,
  screen_resize,
}
use webx_engine.Instruction.{Instruction}
use webx_engine.Quality.{Quality}
use webx_engine.Rectangle.{Rectangle}
use webx_engine.Damage.{WindowDamage}
use webx_engine.Window.{Visibility}
use webx_engine.Registry.{Registry, Settings, send, message_to}

-- What a message takes from a WebXMouseCursor.
pub record Cursor : Type 0 where
  pub id : ℕ
  pub x_hot : ℤ
  pub y_hot : ℤ
  pub image : Image

-- What the display tells the controller, in its event handlers.
pub data DisplayEvent : Type 0 where
  cursor_event window_layout_event : DisplayEvent
  damage_event : WindowDamage → DisplayEvent
  clipboard_event : List ℕ → DisplayEvent
  screen_resize_event : ℤ → ℤ → DisplayEvent

-- What the controller calls of the display, its mouse and its manager, in any state of theirs.
pub record Display (fl : Floats) : Type 1 where
  pub State : Type 0
  pub screen_size : State → Size
  pub can_resize_screen : State → Bool
  pub keyboard_layout_name : State → List ℕ
  pub visible_windows_properties : State → List WindowProperties
  pub window_visibilities : State → List (Visibility fl)
  pub image_of : ℕ → Quality → Option Rectangle → State → Option Image
  pub window_shape_mask : ℕ → State → Option Image
  pub mouse_x : State → ℤ
  pub mouse_y : State → ℤ
  pub current_cursor_id : State → ℕ
  pub cursor_of : ℕ → State → Cursor
  pub is_mouse_dirty : State → Bool
  pub send_keyboard : ℤ → Bool → State → State
  pub send_client_mouse_instruction : ℤ → ℤ → ℕ → State → State
  pub set_clipboard_content : List ℕ → State → State
  pub resize_screen : ℕ → ℕ → State → State
  pub load_keyboard_layout : List ℕ → State → Bool × State
  pub update_position : State → State
  pub clean_mouse : State → State
  pub pending_events : State → List DisplayEvent × State

-- What the controller and its parts read of the settings, and the version of the engine.
pub record ControllerSettings : Type 0 where
  pub registry : Settings
  pub image_checksum_enabled : Bool
  pub engine_version : Version

abbrev pub global_client_index_mask : ℕ
global_client_index_mask = 0xffff_ffff_ffff_ffff

module _ (fl : Floats) (dp : Display fl) where
  -- The messages sent of the registry are all that are handed to the gateway, the controller's too.
  pub record Controller : Type 0 where
    pub registry : Registry fl
    pub instructions : List Instruction
    pub display_dirty : Bool
    pub cursor_dirty : Bool
    pub display : dp.State

  -- The constructor, for a registry and a display that are new.
  unfoldable pub new_controller : Registry fl → dp.State → Controller
  new_controller registry display = record {
    registry = registry;
    instructions = [];
    display_dirty = true;
    cursor_dirty = true;
    display = display;
  }

  -- `sendMessage`
  unfoldable pub send_message : Message → Controller → Controller
  send_message message s = record s { registry = send fl message s.registry }

  abbrev pub to_all : Payload → Message
  to_all payload = message_to fl global_client_index_mask payload

  -- `notifyDisplayChanged`
  unfoldable pub notify_display_changed : Controller → Controller
  unfolding send_message
  notify_display_changed s =
      let ws = dp.visible_windows_properties s.display in
      send_message (to_all (windows (record { windows = ws }))) (record s { display_dirty = false })

  -- `notifyCursorChanged`
  unfoldable pub notify_cursor_changed : Controller → Controller
  unfolding send_message
  notify_cursor_changed s =
      send_message
        (to_all (
          mouse
            (record { x = negsuc 0; y = negsuc 0; cursor_id = dp.current_cursor_id s.display })))
        (record s { cursor_dirty = false })

  -- `notifyMousePositionChanged`
  unfoldable pub notify_mouse_position_changed : Controller → Controller
  unfolding send_message
  notify_mouse_position_changed s =
      send_message
        (to_all (
          mouse (record {
            x = dp.mouse_x s.display;
            y = dp.mouse_y s.display;
            cursor_id = dp.current_cursor_id s.display;
          })))
        s

  -- `onClipboardEvent` and `onScreenResizeEvent`
  unfoldable pub on_clipboard_event : List ℕ → Controller → Controller
  unfolding send_message
  on_clipboard_event content s =
      send_message (to_all (clipboard (record { clipboard_content = content }))) s

  unfoldable pub on_screen_resize_event : ℤ → ℤ → Controller → Controller
  unfolding send_message
  on_screen_resize_event width height s =
      send_message
        (to_all
          (screen_resize (record { screen_size = record { width = width; height = height } })))
        s
