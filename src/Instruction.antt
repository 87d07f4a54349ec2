-- ===== src/Instruction.antt =====
-- src/models/instruction: what a client sends. One record for each subclass, of the fields that it adds to
-- WebXInstruction, and one data type of them all.
use webx_engine.Common.{ℕ, Bool, List}
use webx_engine.Common.Int.{ℤ}

-- The fields of the base class, without its type.
pub record InstructionBase : Type 0 where
  pub client_id : ℕ
  pub id : ℕ

pub record MouseInstruction : Type 0 where
  pub x : ℤ
  pub y : ℤ
  pub button_mask : ℕ

pub record KeyboardInstruction : Type 0 where
  pub key : ℤ
  pub pressed : Bool

pub record CursorImageInstruction : Type 0 where
  pub cursor_id : ℕ

pub record ImageInstruction : Type 0 where
  pub window_id : ℕ

pub record QualityInstruction : Type 0 where
  pub quality_index : ℕ

pub record PongInstruction : Type 0 where
  pub send_timestamp_ms : ℕ
  pub recv_timestamp_ms : ℕ

pub record DataAckInstruction : Type 0 where
  pub send_timestamp_ms : ℕ
  pub recv_timestamp_ms : ℕ
  pub data_length : ℕ

pub record ClipboardInstruction : Type 0 where
  pub clipboard_content : List ℕ

pub record ShapeInstruction : Type 0 where
  pub window_id : ℕ

pub record ScreenResizeInstruction : Type 0 where
  pub width : ℕ
  pub height : ℕ

pub record KeyboardLayoutInstruction : Type 0 where
  pub keyboard_layout : List ℕ

-- What a subclass adds. The constructor is the `type` of the base class.
pub data Payload : Type 0 where
  windows : Payload
  image : ImageInstruction → Payload
  screen : Payload
  mouse : MouseInstruction → Payload
  keyboard : KeyboardInstruction → Payload
  cursor : CursorImageInstruction → Payload
  quality : QualityInstruction → Payload
  pong : PongInstruction → Payload
  data_ack : DataAckInstruction → Payload
  clipboard : ClipboardInstruction → Payload
  shape : ShapeInstruction → Payload
  screen_resize : ScreenResizeInstruction → Payload
  keyboard_layout : KeyboardLayoutInstruction → Payload

pub record Instruction : Type 0 where
  pub base : InstructionBase
  pub open base use *
  pub payload : Payload

-- The enumerators of WebXInstruction::Type, which stand on the wire.
abbrev pub type_code : Payload → ℕ
type_code windows = 2
type_code (image _) = 3
type_code screen = 4
type_code (mouse _) = 5
type_code (keyboard _) = 6
type_code (cursor _) = 7
type_code (quality _) = 8
type_code (pong _) = 9
type_code (data_ack _) = 10
type_code (clipboard _) = 11
type_code (shape _) = 12
type_code (screen_resize _) = 13
type_code (keyboard_layout _) = 14
