-- ===== src/Controller/Instructions.antt =====
-- src/controller/WebXController.cpp: `handleClientInstructions`. `now` is the reading of the clock.
use webx_engine.Common.{
  ℕ, Bool, true, false, List, [], ◌∷◌, Option, none, some, ◌&&◌, if◌then◌else◌,
}
use webx_engine.Common.Int.{pos, negsuc, eqb_ℤ}
use webx_engine.Common.Bits.{bit_not}
use webx_engine.Common.Floats.{Floats}
use webx_engine.Message.{
  Message, Payload, screen, windows, image, shape, cursor_image, mouse, keyboard_layout,
}
use webx_engine.Instruction.{Instruction, MouseInstruction}
use webx_engine.Instruction
use webx_engine.Quality.{max_quality, quality_for_index}
use webx_engine.Client.{Client}
use webx_engine.Registry.{client_by_id, set_client_max_quality, on_pong, on_data_ack, message_to}
use webx_engine.Controller.{Display, ControllerSettings, Controller, send_message, to_all}

module _ (fl : Floats) (dp : Display fl) (settings : ControllerSettings) where
  abbrev max_runtime : ℕ
  max_runtime = settings.registry.quality.max_runtime_quality_index

  -- The message that answers an instruction, to one client.
  abbrev pub answer_to : Client fl → Instruction → Payload → Message
  answer_to c i payload = record {
    client_index_mask = c.index;
    command_id = i.id;
    payload = payload;
  }

  -- The positions before and in the instruction are the same.
  abbrev pub same_position : MouseInstruction → dp.State → Bool
  same_position m d = eqb_ℤ (dp.mouse_x d) m.x && eqb_ℤ (dp.mouse_y d) m.y

  -- `onClientMouseInstruction`
  unfoldable pub on_client_mouse_instruction :
      MouseInstruction → Client fl → Controller fl dp → Controller fl dp
  unfolding send_message
  on_client_mouse_instruction m c s =
      let d = dp.send_client_mouse_instruction m.x m.y m.button_mask s.display in
      let s' = record s { display = d } in
      if same_position m s.display
      then s'
      else send_message fl dp
          (message_to fl c.index
            (mouse (record { x = negsuc 0; y = negsuc 0; cursor_id = dp.current_cursor_id d })))
          (send_message fl dp
            (message_to fl (bit_not c.index)
              (mouse (record { x = m.x; y = m.y; cursor_id = dp.current_cursor_id d })))
            s')

  -- The answer to an instruction that asks for data, and nothing for any other.
  abbrev pub answer : Instruction.Payload → dp.State → Option Payload
  answer Instruction.screen d = some (
      screen (record {
        screen_size = dp.screen_size d;
        max_quality_index = pos (max_quality max_runtime).index;
        engine_version = settings.engine_version;
        can_resize_screen = dp.can_resize_screen d;
        keyboard_layout_name = dp.keyboard_layout_name d;
      }))
  answer Instruction.windows d =
      some (windows (record { windows = dp.visible_windows_properties d }))
  answer (Instruction.image i) d = some (
      image (record {
        window_id = i.window_id;
        image = dp.image_of i.window_id (max_quality max_runtime) none d;
      }))
  answer (Instruction.shape i) d =
      some (shape (record { window_id = i.window_id; shape = dp.window_shape_mask i.window_id d }))
  answer (Instruction.cursor i) d =
      let c = dp.cursor_of i.cursor_id d in
      some (
        cursor_image (record {
          x = dp.mouse_x d;
          y = dp.mouse_y d;
          xhot = c.x_hot;
          yhot = c.y_hot;
          cursor_id = c.id;
          mouse_cursor_image = c.image;
        }))
  answer _ d = none

  abbrev pub with_layout : List ℕ → Bool × dp.State → Controller fl dp → Controller fl dp
  with_layout layout (true, d) s =
      send_message fl dp (to_all fl dp (keyboard_layout (record { keyboard_layout_name = layout })))
        (record s { display = d })
  with_layout layout (false, d) s = record s { display = d }

  abbrev pub send_answer :
      Option Payload → Client fl → Instruction → Controller fl dp → Controller fl dp
  send_answer none c i s = s
  send_answer (some payload) c i s = send_message fl dp (answer_to c i payload) s

  -- What the instructions that ask for no data do.
  abbrev pub act :
      ℕ → Instruction.Payload → Client fl → Instruction → Controller fl dp → Controller fl dp
  act now (Instruction.mouse m) c i s = on_client_mouse_instruction m c s
  act now (Instruction.keyboard k) c i s = record s {
    display = dp.send_keyboard k.key k.pressed s.display;
  }
  act now (Instruction.quality q) c i s = record s {
    registry =
        set_client_max_quality fl i.client_id (quality_for_index max_runtime q.quality_index)
          s.registry;
  }
  act now (Instruction.pong p) c i s = record s {
    registry = on_pong fl now i.client_id p.send_timestamp_ms p.recv_timestamp_ms s.registry;
  }
  act now (Instruction.data_ack a) c i s = record s {
    registry =
        on_data_ack fl now i.client_id a.send_timestamp_ms a.recv_timestamp_ms a.data_length
          s.registry;
  }
  act now (Instruction.clipboard t) c i s = record s {
    display = dp.set_clipboard_content t.clipboard_content s.display;
  }
  act now (Instruction.screen_resize z) c i s = record s {
    display = dp.resize_screen z.width z.height s.display;
  }
  act now (Instruction.keyboard_layout k) c i s =
      with_layout k.keyboard_layout (dp.load_keyboard_layout k.keyboard_layout s.display) s
  act now _ c i s = s

  -- One round of the loop: an instruction of no client is ignored.
  abbrev pub for_client : ℕ → Option (Client fl) → Instruction → Controller fl dp → Controller fl dp
  for_client now none i s = s
  for_client now (some c) i s =
      act now i.payload c i (send_answer (answer i.payload s.display) c i s)

  unfoldable pub handle_instruction : ℕ → Instruction → Controller fl dp → Controller fl dp
  handle_instruction now i s = for_client now (client_by_id fl i.client_id s.registry.clients) i s

  unfoldable pub handle_instructions : ℕ → List Instruction → Controller fl dp → Controller fl dp
  unfolding handle_instruction
  handle_instructions now [] s = s
  handle_instructions now (i ∷ is) s = handle_instructions now is (handle_instruction now i s)

  -- `handleClientInstructions`
  unfoldable pub handle_client_instructions : ℕ → Controller fl dp → Controller fl dp
  unfolding handle_instructions
  handle_client_instructions now s =
      let s' = handle_instructions now s.instructions s in record s' { instructions = [] }
