-- ===== src/Message.antt =====
-- src/models/message: what the engine sends. One record for each subclass, of the fields that it adds to
-- WebXMessage, with the classes that the fields hold.
use webx_engine.Common.{ℕ, Bool, List, Option, none, some, []}
use webx_engine.Common.Int.{ℤ}
use webx_engine.Quality.{Quality}

-- src/models/WebXSize.h
pub record Size : Type 0 where
  pub width : ℤ
  pub height : ℤ

-- src/models/WebXVersion.h
pub record Version : Type 0 where
  pub major : ℕ
  pub minor : ℕ
  pub patch : ℕ

-- `WebXImageType`
pub data ImageType : Type 0 where
  png jpg webp other : ImageType

-- What a message takes from a WebXImage: its type, depth and encoded data, each null or a buffer.
pub record Image : Type 0 where
  pub image_type : ImageType
  pub depth : ℕ
  pub raw : Option (List ℕ)
  pub alpha : Option (List ℕ)

-- `getRawData` and `getAlphaData` with their sizes: no bytes for a null buffer.
abbrev pub bytes_of : Option (List ℕ) → List ℕ
bytes_of none = []
bytes_of (some bytes) = bytes

-- display/WebXWindowProperties.h
pub record WindowProperties : Type 0 where
  pub id : ℕ
  pub x : ℤ
  pub y : ℤ
  pub width : ℤ
  pub height : ℤ
  pub has_shape : Bool

-- image/WebXSubImage.h, with the position and size of its rectangle.
pub record SubImage : Type 0 where
  pub x : ℤ
  pub y : ℤ
  pub width : ℤ
  pub height : ℤ
  pub image : Image

pub record WindowsMessage : Type 0 where
  pub windows : List WindowProperties

pub record ImageMessage : Type 0 where
  pub window_id : ℕ
  pub image : Option Image

pub record ScreenMessage : Type 0 where
  pub screen_size : Size
  pub max_quality_index : ℤ
  pub engine_version : Version
  pub can_resize_screen : Bool
  pub keyboard_layout_name : List ℕ

pub record SubImagesMessage : Type 0 where
  pub window_id : ℕ
  pub images : List SubImage

pub record MouseMessage : Type 0 where
  pub x : ℤ
  pub y : ℤ
  pub cursor_id : ℕ

pub record CursorImageMessage : Type 0 where
  pub x : ℤ
  pub y : ℤ
  pub xhot : ℤ
  pub yhot : ℤ
  pub cursor_id : ℕ
  pub mouse_cursor_image : Image

pub record QualityMessage : Type 0 where
  pub quality : Quality

pub record ClipboardMessage : Type 0 where
  pub clipboard_content : List ℕ

pub record ShapeMessage : Type 0 where
  pub window_id : ℕ
  pub shape : Option Image

pub record ScreenResizeMessage : Type 0 where
  pub screen_size : Size

pub record KeyboardLayoutMessage : Type 0 where
  pub keyboard_layout_name : List ℕ

-- What a subclass adds. The constructor is the `type` of the base class.
pub data Payload : Type 0 where
  windows : WindowsMessage → Payload
  image : ImageMessage → Payload
  screen : ScreenMessage → Payload
  sub_images : SubImagesMessage → Payload
  mouse : MouseMessage → Payload
  cursor_image : CursorImageMessage → Payload
  ping : Payload
  disconnect : Payload
  quality : QualityMessage → Payload
  clipboard : ClipboardMessage → Payload
  shape : ShapeMessage → Payload
  screen_resize : ScreenResizeMessage → Payload
  keyboard_layout : KeyboardLayoutMessage → Payload

pub record Message : Type 0 where
  pub client_index_mask : ℕ
  pub command_id : ℕ
  pub payload : Payload

-- The command id of a message that answers no instruction: -1 as a `uint32_t`.
abbrev pub no_command : ℕ
no_command = 0xffff_ffff

-- The enumerators of WebXMessage::Type.
abbrev pub type_code : Payload → ℕ
type_code (windows _) = 2
type_code (image _) = 3
type_code (screen _) = 4
type_code (sub_images _) = 5
type_code (mouse _) = 6
type_code (cursor_image _) = 7
type_code ping = 8
type_code disconnect = 9
type_code (quality _) = 10
type_code (clipboard _) = 11
type_code (shape _) = 12
type_code (screen_resize _) = 13
type_code (keyboard_layout _) = 14
