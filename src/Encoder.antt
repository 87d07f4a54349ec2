-- ===== src/Encoder.antt =====
-- src/transport/serializer/WebXMessageEncoder.cpp. What is not in the repository is a parameter: the memory
-- that `zmq::message_t(n)` gives, whose bytes are not initialised, and the bits of a `float`, given by
-- its hundredths.
pub mod Fields
pub mod Layout
pub mod Exact
pub mod Tests
use webx_engine.Common.{
  ℕ, zero, suc, ◌+◌, ◌-◌, ◌*◌, ◌%◌, ◌^◌, Bool, true, false, List, [], ◌∷◌, ◌++◌, Option, none, some,
  length, take, replicate, ltb, ◌==◌, if◌then◌else◌, Result, ok, err, ◌>>=◌,
}
use webx_engine.Common.Int.{to_u32}
use webx_engine.Buffer.{Buffer, OverflowException, u32_mod, start, write, append}
use webx_engine.Message.{
  Image, ImageType, png, jpg, webp, other, bytes_of, WindowProperties, SubImage, WindowsMessage,
  ImageMessage, ScreenMessage, SubImagesMessage, MouseMessage, CursorImageMessage, QualityMessage,
  ClipboardMessage, ShapeMessage, ScreenResizeMessage, KeyboardLayoutMessage, Payload, Message,
  windows, image, screen, sub_images, mouse, cursor_image, ping, disconnect, quality, clipboard,
  shape, screen_resize, keyboard_layout, type_code,
}

-- `WebXImage::getFileExtension`
abbrev pub file_extension : ImageType → List ℕ
file_extension png = b'p' ∷ b'n' ∷ b'g' ∷ []
file_extension jpg = b'j' ∷ b'p' ∷ b'g' ∷ []
file_extension webp = b'w' ∷ b'e' ∷ b'b' ∷ b'p' ∷ []
file_extension other = b'i' ∷ b'm' ∷ b'g' ∷ []

-- `char imageType[4] = ""; strncpy(imageType, extension, 4)`
abbrev pub image_type_bytes : ImageType → List ℕ
image_type_bytes t = take 4 (file_extension t ++ replicate 4 0)

-- `MESSAGE_HEADER_LENGTH`
abbrev pub message_header_length : ℕ
message_header_length = 48

abbrev pub bool_value : Bool → ℕ
bool_value true = 1
bool_value false = 0

abbrev pub raw_size : Image → ℕ
raw_size i = length (bytes_of i.raw)

abbrev pub alpha_size : Image → ℕ
alpha_size i = length (bytes_of i.alpha)

-- What an encoder's function gives: the content of the message, or the exception that escapes.
abbrev pub Encoded : Type 0
Encoded = Result OverflowException Buffer

abbrev pub write_if : Bool → List ℕ → Buffer → Encoded
write_if true bytes b = append bytes b
write_if false bytes b = ok b

-- The members of the encoder and the environment of one call: the session id, the memory given for a
-- size, the bits of a float, the clock and the counter of messages after its increment.
pub record Env : Type 0 where
  pub session_id : List ℕ
  pub storage : ℕ → List ℕ
  pub float_bits : ℕ → ℕ
  pub timestamp_ms : ℕ
  pub message_id : ℕ

-- What the functions that send an image hold in their locals when there is one, and when not.
abbrev pub raw_of : Option Image → List ℕ
raw_of none = []
raw_of (some i) = bytes_of i.raw

abbrev pub alpha_of : Option Image → List ℕ
alpha_of none = []
alpha_of (some i) = bytes_of i.alpha

abbrev pub depth_of : Option Image → ℕ
depth_of none = 0
depth_of (some i) = i.depth

abbrev pub type_of : Option Image → List ℕ
type_of none = replicate 4 0
type_of (some i) = image_type_bytes i.image_type

-- The stencil of a shape message, if there is one.
pub write_raw : Option Image → Buffer → Encoded
write_raw none b = ok b
write_raw (some i) b = append (bytes_of i.raw) b

-- The image data of an image message, and its alpha data if there are any.
pub write_image : Option Image → Buffer → Encoded
write_image none b = ok b
write_image (some i) b = do
  b ← append (bytes_of i.raw) b
  write_if (ltb 0 (alpha_size i)) (bytes_of i.alpha) b

-- The size that the first loop of `createSubImagesMessage` adds up: each image's data and the padding
-- behind it.
pub sub_images_data_size : List SubImage → ℕ
sub_images_data_size [] = 0
sub_images_data_size (s ∷ ss) =
    let size = raw_size s.image + alpha_size s.image in
    size + (if size % 4 == 0 then 0 else 4 - size % 4) + sub_images_data_size ss

pub write_sub_image : SubImage → Buffer → Encoded
write_sub_image s b = do
  b ← write 4 (to_u32 s.x) b
  b ← write 4 (to_u32 s.y) b
  b ← write 4 (to_u32 s.width) b
  b ← write 4 (to_u32 s.height) b
  b ← write 4 s.image.depth b
  b ← append (image_type_bytes s.image.image_type) b
  b ← write 4 (raw_size s.image) b
  b ← write 4 (alpha_size s.image) b
  b ← append (bytes_of s.image.raw) b
  write_if (ltb 0 (alpha_size s.image)) (bytes_of s.image.alpha) b

pub write_sub_images : List SubImage → Buffer → Encoded
write_sub_images [] b = ok b
write_sub_images (s ∷ ss) b = write_sub_image s b >>= write_sub_images ss

-- `std::copy_if` of the windows with a shape.
pub shaped : List WindowProperties → List WindowProperties
shaped [] = []
shaped (w ∷ ws) = if w.has_shape then w ∷ shaped ws else shaped ws

pub write_windows : List WindowProperties → Buffer → Encoded
write_windows [] b = ok b
write_windows (w ∷ ws) b = do
  b ← write 4 w.id b
  b ← write 4 (to_u32 w.x) b
  b ← write 4 (to_u32 w.y) b
  b ← write 4 (to_u32 w.width) b
  b ← write 4 (to_u32 w.height) b
  write_windows ws b

pub write_window_ids : List WindowProperties → Buffer → Encoded
write_window_ids [] b = ok b
write_window_ids (w ∷ ws) b = write 4 w.id b >>= write_window_ids ws

module _ (env : Env) (message : Message) where
  -- `zmq::message_t(dataSize)` and the WebXBinaryBuffer over it.
  pub open_message : ℕ → Buffer
  open_message data_size =
      start (env.storage data_size) env.session_id message.client_index_mask
        (type_code message.payload) env.timestamp_ms env.message_id

  pub create_cursor_image_message : CursorImageMessage → Encoded
  create_cursor_image_message m = do
    let raw_data = bytes_of m.mouse_cursor_image.raw
    let b = open_message (message_header_length + 28 + length raw_data)
    b ← write 4 message.command_id b
    b ← write 4 (to_u32 m.x) b
    b ← write 4 (to_u32 m.y) b
    b ← write 4 (to_u32 m.xhot) b
    b ← write 4 (to_u32 m.yhot) b
    b ← write 4 m.cursor_id b
    b ← write 4 (length raw_data) b
    append raw_data b

  pub create_image_message : ImageMessage → Encoded
  create_image_message m = do
    let image_data = raw_of m.image
    let alpha_data = alpha_of m.image
    let depth = depth_of m.image
    let type_bytes = type_of m.image
    let b = open_message (message_header_length + 24 + length image_data + length alpha_data)
    b ← write 4 message.command_id b
    b ← write 4 m.window_id b
    b ← write 4 depth b
    b ← append type_bytes b
    b ← write 4 (length image_data) b
    b ← write 4 (length alpha_data) b
    write_image m.image b

  pub create_mouse_message : MouseMessage → Encoded
  create_mouse_message m = do
    let b = open_message (message_header_length + 16)
    b ← write 4 message.command_id b
    b ← write 4 (to_u32 m.x) b
    b ← write 4 (to_u32 m.y) b
    write 4 m.cursor_id b

  pub create_screen_message : ScreenMessage → Encoded
  create_screen_message m = do
    let name = m.keyboard_layout_name
    let b = open_message (message_header_length + 36 + length name)
    b ← write 4 message.command_id b
    b ← write 4 (to_u32 m.screen_size.width) b
    b ← write 4 (to_u32 m.screen_size.height) b
    b ← write 4 (to_u32 m.max_quality_index) b
    b ← write 4 m.engine_version.major b
    b ← write 4 m.engine_version.minor b
    b ← write 4 m.engine_version.patch b
    b ← write 4 (bool_value m.can_resize_screen) b
    b ← write 4 (length name) b
    append name b

  pub create_sub_images_message : SubImagesMessage → Encoded
  create_sub_images_message m = do
    let n_images = length m.images % u32_mod
    let data_size =
        message_header_length + 12 + n_images * 32 % u32_mod + sub_images_data_size m.images
    let b = open_message data_size
    b ← write 4 message.command_id b
    b ← write 4 m.window_id b
    b ← write 4 n_images b
    write_sub_images m.images b

  pub create_windows_message : WindowsMessage → Encoded
  create_windows_message m = do
    let shaped_windows = shaped m.windows
    let b =
        open_message (
          message_header_length + 4 + (4 + length m.windows * 20) + (4 + length shaped_windows * 4))
    b ← write 4 message.command_id b
    b ← write 4 (length m.windows) b
    b ← write_windows m.windows b
    b ← write 4 (length shaped_windows) b
    write_window_ids shaped_windows b

  pub create_ping_message : Encoded
  create_ping_message = ok (open_message message_header_length)

  pub create_disconnect_message : Encoded
  create_disconnect_message = ok (open_message message_header_length)

  pub create_quality_message : QualityMessage → Encoded
  create_quality_message m = do
    let b = open_message (message_header_length + 20)
    b ← write 4 m.quality.index b
    b ← write 4 (env.float_bits m.quality.image_fps) b
    b ← write 4 (env.float_bits m.quality.rgb_quality) b
    b ← write 4 (env.float_bits m.quality.alpha_quality) b
    write 4 (env.float_bits m.quality.max_mbps) b

  pub create_clipboard_message : ClipboardMessage → Encoded
  create_clipboard_message m = do
    let text = m.clipboard_content
    let b = open_message (message_header_length + 4 + length text)
    b ← write 4 (length text) b
    append text b

  pub create_shape_message : ShapeMessage → Encoded
  create_shape_message m = do
    let stencil_data = raw_of m.shape
    let type_bytes = type_of m.shape
    let b = open_message (message_header_length + 16 + length stencil_data)
    b ← write 4 message.command_id b
    b ← write 4 m.window_id b
    b ← append type_bytes b
    b ← write 4 (length stencil_data) b
    write_raw m.shape b

  pub create_screen_resize_message : ScreenResizeMessage → Encoded
  create_screen_resize_message m = do
    let b = open_message (message_header_length + 8)
    b ← write 4 (to_u32 m.screen_size.width) b
    write 4 (to_u32 m.screen_size.height) b

  pub create_keyboard_layout_message : KeyboardLayoutMessage → Encoded
  create_keyboard_layout_message m = do
    let name = m.keyboard_layout_name
    let b = open_message (message_header_length + 4 + length name)
    b ← write 4 (length name) b
    append name b

  create : Payload → Encoded
  create (windows m) = create_windows_message m
  create (image m) = create_image_message m
  create (screen m) = create_screen_message m
  create (sub_images m) = create_sub_images_message m
  create (mouse m) = create_mouse_message m
  create (cursor_image m) = create_cursor_image_message m
  create ping = create_ping_message
  create disconnect = create_disconnect_message
  create (quality m) = create_quality_message m
  create (clipboard m) = create_clipboard_message m
  create (shape m) = create_shape_message m
  create (screen_resize m) = create_screen_resize_message m
  create (keyboard_layout m) = create_keyboard_layout_message m

  -- The switch on the type. Its default branch belongs to no class of the program.
  pub encode : Encoded
  unfolding create
  encode = create message.payload
