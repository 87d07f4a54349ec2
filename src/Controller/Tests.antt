-- ===== src/Controller/Tests.antt =====
-- A controller over a display of one window at concrete inputs.
use webx_engine.Common.{ℕ, ◌≡◌, refl, true, false, List, [], ◌∷◌, ◌++◌, none, some, not, length}
use webx_engine.Common.Int.{ℤ, pos}
use webx_engine.Common.WholeFloats.{whole_floats}
use webx_engine.Message.{Image, Payload, jpg}
use webx_engine.Instruction.{Instruction}
use webx_engine.Instruction
use webx_engine.Transfer.{TransferData}
use webx_engine.Registry.{new_registry, members}
use webx_engine.Registry.Tests.{settings, version, new_damage, one_client, client_5, client_5_found}
use webx_engine.Group.Tests.{seen_window, damaged_window}
use webx_engine.Controller.{
  Display, damage_event, window_layout_event, ControllerSettings, Controller, new_controller,
}
use webx_engine.Controller.Instructions.{handle_instruction, handle_instructions}
use webx_engine.Controller.Windows.{update_window}
use webx_engine.Controller.Loop.{ControllerCall, connects, receives, rounds}
use webx_engine.Controller.Answers.{
  asks_for_data, IsTold, handle_instruction-answer, handle_instructions-known, only_known,
}
use webx_engine.Controller.Sent.{update_window-IsReported, AllAbout, is_ignored, any_pixels}

abbrev grey : Image
grey = record { image_type = jpg; depth = 24; raw = some (1 ∷ 2 ∷ 3 ∷ []); alpha = some (9 ∷ []) }

-- The state is the mouse and what is on the clipboard.
abbrev test_display : Display whole_floats
test_display = record {
  State = ℤ × ℤ × List ℕ;
  screen_size = λ d. record { width = pos 1024; height = pos 768 };
  can_resize_screen = λ d. true;
  keyboard_layout_name = λ d. 103 ∷ 98 ∷ [];
  visible_windows_properties = λ d. [];
  window_visibilities = λ d. seen_window ∷ [];
  image_of = λ i q r d. some grey;
  window_shape_mask = λ i d. none;
  mouse_x = λ d. d.0;
  mouse_y = λ d. d.1;
  current_cursor_id = λ d. 4;
  cursor_of = λ i d. record { id = i; x_hot = pos 1; y_hot = pos 2; image = grey };
  is_mouse_dirty = λ d. false;
  send_keyboard = λ k b d. d;
  send_client_mouse_instruction = λ x y mask d. (x, y, d.2);
  set_clipboard_content = λ t d. (d.0, d.1, t);
  resize_screen = λ w h d. d;
  load_keyboard_layout = λ t d. (true, d);
  update_position = λ d. d;
  clean_mouse = λ d. d;
  pending_events = λ d. (window_layout_event ∷ damage_event new_damage ∷ [], d);
}

abbrev controller_settings : ControllerSettings
controller_settings = record {
  registry = settings;
  image_checksum_enabled = true;
  engine_version = record { major = 1; minor = 4; patch = 0 };
}

abbrev asks_screen : Instruction
asks_screen = record { base = record { client_id = 5; id = 31 }; payload = Instruction.screen }

abbrev asks_unknown : Instruction
asks_unknown = record { base = record { client_id = 6; id = 32 }; payload = Instruction.screen }

abbrev controller_calls : List (ℕ × ControllerCall)
controller_calls =
    (0, connects version)
    ∷ (10, receives asks_screen)
    ∷ (20, receives asks_unknown)
    ∷ (1_000_000_000, rounds true)
    ∷ []

abbrev at_start : Controller whole_floats test_display
at_start =
    new_controller whole_floats test_display (new_registry whole_floats (5 ∷ 9 ∷ []))
      (pos 0, pos 0, [])

abbrev with_one : Controller whole_floats test_display
with_one = new_controller whole_floats test_display one_client (pos 0, pos 0, [])

handle_instructions-known_example :
    (handle_instructions whole_floats test_display controller_settings 40
        (asks_screen ∷ asks_unknown ∷ [])
        with_one
      ≡ handle_instructions whole_floats test_display controller_settings 40
          (only_known
            (members whole_floats with_one.registry.clients)
            (asks_screen ∷ asks_unknown ∷ []))
          with_one)
    × (members whole_floats
          (handle_instructions whole_floats test_display controller_settings 40
            (asks_screen ∷ asks_unknown ∷ [])
            with_one).registry.clients
        ≡ members whole_floats with_one.registry.clients)
handle_instructions-known_example =
    handle_instructions-known whole_floats test_display controller_settings 40
      (asks_screen ∷ asks_unknown ∷ []) with_one

update_window-IsReported_example :
    let result =
      update_window whole_floats test_display length controller_settings 900_000_000
        (pos 0, pos 0, [])
        damaged_window
        1 in
    AllAbout 1 damaged_window.id result.0
    × (t : TransferData whole_floats) × (result.1 ≡ some t)
    × (t.x11_window ≡ damaged_window.id)
    × (is_ignored t.status ≡ not (any_pixels result.0))
update_window-IsReported_example =
    update_window-IsReported whole_floats test_display length controller_settings 900_000_000
      (pos 0, pos 0, []) damaged_window 1

handle_instruction-answer_example :
    (payload : Payload) × IsTold whole_floats test_display controller_settings Instruction.screen
      (pos 0, pos 0, [])
      payload
    × (handle_instruction whole_floats test_display controller_settings 40 asks_screen with_one
        ≡ record with_one {
          registry = record one_client {
            sent =
                one_client.sent
                ++ (record {
                  client_index_mask = client_5.index;
                  command_id = 31;
                  payload = payload;
                })
                  ∷ [];
          };
        })
unfolding new_controller asks_for_data
handle_instruction-answer_example =
    handle_instruction-answer whole_floats test_display controller_settings 40 asks_screen with_one
      client_5 client_5_found refl
