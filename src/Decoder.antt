-- ===== src/Decoder.antt =====
-- src/transport/serializer/WebXInstructionDecoder.cpp. `now_ms` is the system clock's time in
-- milliseconds, which the constructors of two instructions read.
pub mod Wire
pub mod RoundTrip
pub mod Bounds
pub mod Tests
use webx_engine.Common.{
  ℕ, ◌%◌, ◌^◌, List, Option, none, some, ltb, ◌==◌, if◌then◌else◌, Result, ok, err, ◌>>=◌,
}
use webx_engine.Common.Int.{to_int32}
use webx_engine.Buffer.{Buffer, OverflowException, wrap, read, read_string, advance_read_offset}
use webx_engine.Instruction.{
  Payload, InstructionBase, Instruction, windows, image, screen, mouse, keyboard, cursor, quality,
  pong, data_ack, clipboard, shape, screen_resize, keyboard_layout,
}

-- What a read gives, or the exception that escapes `decode`.
abbrev pub Decoded : Type 0 → Type 0
Decoded A = Result OverflowException A

pub create_mouse : Buffer → Decoded Payload
create_mouse b = do
  (x, b) ← read 4 b
  (y, b) ← read 4 b
  (button_mask, _) ← read 4 b
  ok (mouse (record { x = to_int32 x; y = to_int32 y; button_mask = button_mask }))

pub create_cursor_image : Buffer → Decoded Payload
create_cursor_image b = do (cursor_id, _) ← read 4 b; ok (cursor (record { cursor_id = cursor_id }))

pub create_image : Buffer → Decoded Payload
create_image b = do (window_id, _) ← read 4 b; ok (image (record { window_id = window_id }))

pub create_keyboard : Buffer → Decoded Payload
create_keyboard b = do
  (key, b) ← read 4 b
  (pressed, _) ← read 4 b
  ok (keyboard (record { key = to_int32 key; pressed = ltb 0 pressed }))

pub create_quality : Buffer → Decoded Payload
create_quality b = do
  (quality_index, _) ← read 4 b
  ok (quality (record { quality_index = quality_index }))

pub create_pong : ℕ → Buffer → Decoded Payload
create_pong now_ms b = do
  (send_timestamp_ms, _) ← read 8 b
  ok (pong (record { send_timestamp_ms = send_timestamp_ms; recv_timestamp_ms = now_ms }))

pub create_data_ack : ℕ → Buffer → Decoded Payload
create_data_ack now_ms b = do
  (send_timestamp_ms, b) ← read 8 b
  (data_length, _) ← read 4 b
  ok (
      data_ack (record {
        send_timestamp_ms = send_timestamp_ms;
        recv_timestamp_ms = now_ms;
        data_length = data_length;
      }))

pub create_clipboard : Buffer → Decoded Payload
create_clipboard b = do
  (clipboard_content_length, b) ← read 4 b
  (clipboard_content, _) ← read_string clipboard_content_length b
  ok (clipboard (record { clipboard_content = clipboard_content }))

pub create_shape : Buffer → Decoded Payload
create_shape b = do (window_id, _) ← read 4 b; ok (shape (record { window_id = window_id }))

pub create_screen_resize : Buffer → Decoded Payload
create_screen_resize b = do
  (width, b) ← read 4 b
  (height, _) ← read 4 b
  ok (screen_resize (record { width = width; height = height }))

pub create_keyboard_layout : Buffer → Decoded Payload
create_keyboard_layout b = do
  (keyboard_layout_length, b) ← read 4 b
  (layout, _) ← read_string keyboard_layout_length b
  ok (keyboard_layout (record { keyboard_layout = layout }))

abbrev found : Payload → Decoded (Option Payload)
found p = ok (some p)

-- The chain of tests on the type; `none` is the null pointer for a type that is not known.
pub create : ℕ → ℕ → Buffer → Decoded (Option Payload)
create now_ms type b =
    if type == 5
    then create_mouse b >>= found
    else if type == 6
    then create_keyboard b >>= found
    else if type == 7
    then create_cursor_image b >>= found
    else if type == 3
    then create_image b >>= found
    else if type == 4
    then found screen
    else if type == 2
    then found windows
    else if type == 8
    then create_quality b >>= found
    else if type == 9
    then create_pong now_ms b >>= found
    else if type == 10
    then create_data_ack now_ms b >>= found
    else if type == 11
    then create_clipboard b >>= found
    else if type == 12
    then create_shape b >>= found
    else if type == 13
    then create_screen_resize b >>= found
    else if type == 14
    then create_keyboard_layout b >>= found
    else ok none

-- `details & ~0x80000000` of a 32-bit number drops its highest bit.
abbrev pub type_of_details : ℕ → ℕ
type_of_details details = details % 2 ^ 31

abbrev with_base : InstructionBase → Option Payload → Option Instruction
with_base base none = none
with_base base (some p) = some (record { base = base; payload = p })

-- `decode` after the session id, which the subscription has filtered.
pub decode_from : ℕ → Buffer → Decoded (Option Instruction)
decode_from now_ms b = do
  (client_id, b) ← read 4 b
  (details, b) ← read 4 b
  (instruction_id, b) ← read 4 b
  (dummy, b) ← read 4 b
  payload ← create now_ms (type_of_details details) b
  ok (with_base (record { client_id = client_id; id = instruction_id }) payload)

pub decode : ℕ → List ℕ → Decoded (Option Instruction)
unfolding decode_from
decode now_ms instruction_data = decode_from now_ms (advance_read_offset 16 (wrap instruction_data))
