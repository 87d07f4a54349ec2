-- ===== src/Decoder/RoundTrip.antt =====
-- The decoder of src/transport/serializer/WebXInstructionDecoder.cpp on the layout of Decoder/Wire.
use webx_engine.Common.{
  ℕ, ◌^◌, ◌<◌, ◌≡◌, refl, Bool, true, false, if◌then◌else◌, List, ◌++◌, [], length, some, ok, arith,
}
use webx_engine.Common.Int.{to_u32, to_u32-lt, to_int32-to_u32}
use webx_engine.Buffer.{Buffer, u32_mod}
use webx_engine.Buffer.Bytes.{le_bytes}
use webx_engine.Buffer.Reading.{
  Unread, skip, read_lem, read_string_lem, advance-Unread, read-Unread,
}
use webx_engine.Instruction.{
  Payload, Instruction, type_code, windows, image, screen, mouse, keyboard, cursor, quality, pong,
  data_ack, clipboard, shape, screen_resize, keyboard_layout,
}
use webx_engine.Decoder.{
  create, decode, decode_from, type_of_details, create_mouse, create_keyboard, create_cursor_image,
  create_image, create_quality, create_pong, create_data_ack, create_clipboard, create_shape,
  create_screen_resize, create_keyboard_layout,
}
use webx_engine.Decoder.Wire.{content, details, wire, IsPayload, received}

type_code-lt : (p : Payload) → type_code p < 15
type_code-lt windows = omega arith
type_code-lt _ = omega arith

details-lt : (synchronous : Bool) (p : Payload) → details synchronous p < 2 ^ 32
details-lt true p = omega (arith, type_code-lt p)
details-lt false p = omega (arith, type_code-lt p)

create-content :
    (now_ms : ℕ) (p : Payload) (b : Buffer)
    → b.read_offset ≡ 32
    → Unread b (content p)
    → IsPayload p
    → create now_ms (type_code p) b ≡ ok (some (received now_ms p))
unfolding create create_mouse create_keyboard create_cursor_image create_image create_quality
    create_pong create_data_ack create_clipboard create_shape create_screen_resize
    create_keyboard_layout
create-content now_ms windows b o u h = refl
create-content now_ms screen b o u h = refl
create-content now_ms (image i) b o u h = ground (arith, read_lem 4 i.window_id [] b u)
create-content now_ms (cursor i) b o u h = ground (arith, read_lem 4 i.cursor_id [] b u)
create-content now_ms (quality i) b o u h = ground (arith, read_lem 4 i.quality_index [] b u)
create-content now_ms (pong i) b o u h = ground (arith, read_lem 8 i.send_timestamp_ms [] b u)
create-content now_ms (shape i) b o u h = ground (arith, read_lem 4 i.window_id [] b u)
create-content now_ms (mouse i) b o u h =
    let u₁ = read-Unread 4 (to_u32 i.x) _ b u in
    let u₂ = read-Unread 4 (to_u32 i.y) _ (skip 4 b) u₁ in
    ground (
      arith,
      read_lem 4 (to_u32 i.x) _ b u,
      read_lem 4 (to_u32 i.y) _ (skip 4 b) u₁,
      read_lem 4 i.button_mask [] (skip 4 (skip 4 b)) u₂,
      to_u32-lt i.x,
      to_u32-lt i.y,
      to_int32-to_u32 i.x,
      to_int32-to_u32 i.y,
    )
create-content now_ms (keyboard i) b o u h =
    let pressed : ℕ = if i.pressed then 1 else 0 in
    let u₁ = read-Unread 4 (to_u32 i.key) _ b u in
    ground (
      arith,
      read_lem 4 (to_u32 i.key) _ b u,
      read_lem 4 pressed [] (skip 4 b) u₁,
      to_u32-lt i.key,
      to_int32-to_u32 i.key,
    )
create-content now_ms (data_ack i) b o u h =
    let u₁ = read-Unread 8 i.send_timestamp_ms _ b u in
    ground (arith, read_lem 8 i.send_timestamp_ms _ b u, read_lem 4 i.data_length [] (skip 8 b) u₁)
create-content now_ms (screen_resize i) b o u h =
    let u₁ = read-Unread 4 i.width _ b u in
    ground (arith, read_lem 4 i.width _ b u, read_lem 4 i.height [] (skip 4 b) u₁)
create-content now_ms (clipboard i) b o u h =
    let n = length i.clipboard_content in
    let u₁ = read-Unread 4 n _ b u in
    ground (arith, read_lem 4 n _ b u, read_string_lem i.clipboard_content [] (skip 4 b) u₁)
create-content now_ms (keyboard_layout i) b o u h =
    let n = length i.keyboard_layout in
    let u₁ = read-Unread 4 n _ b u in
    ground (arith, read_lem 4 n _ b u, read_string_lem i.keyboard_layout [] (skip 4 b) u₁)

type_of_details-details :
    (synchronous : Bool) (p : Payload) → type_of_details (details synchronous p) ≡ type_code p
type_of_details-details true p = omega (arith, type_code-lt p)
type_of_details-details false p = omega (arith, type_code-lt p)

decode_from-header :
    (now_ms : ℕ) (synchronous : Bool) (i : Instruction) (b : Buffer)
    → b.read_offset ≡ 16
    → Unread b (
        le_bytes 4 i.client_id
        ++ (le_bytes 4 (details synchronous i.payload)
            ++ (le_bytes 4 i.id ++ (le_bytes 4 0 ++ content i.payload))))
    → i.client_id < 2 ^ 32
    → i.id < 2 ^ 32
    → IsPayload i.payload
    → decode_from now_ms b ≡ ok (some (record i { payload = received now_ms i.payload }))
unfolding decode_from
decode_from-header now_ms synchronous i b o u c d h =
    let t = details synchronous i.payload in
    let u₁ = read-Unread 4 i.client_id _ b u in
    let u₂ = read-Unread 4 t _ (skip 4 b) u₁ in
    let u₃ = read-Unread 4 i.id _ (skip 4 (skip 4 b)) u₂ in
    let u₄ = read-Unread 4 0 _ (skip 4 (skip 4 (skip 4 b))) u₃ in
    rw (
      read_lem 4 i.client_id _ b u (omega arith) (omega arith),
      read_lem 4 t _ (skip 4 b) u₁ (omega arith) (details-lt synchronous i.payload),
      read_lem 4 i.id _ (skip 4 (skip 4 b)) u₂ (omega arith) (omega arith),
      read_lem 4 0 _ (skip 4 (skip 4 (skip 4 b))) u₃ (omega arith) (omega arith),
      type_of_details-details synchronous i.payload,
      create-content now_ms i.payload (skip 4 (skip 4 (skip 4 (skip 4 b)))) (omega arith) u₄ h,
    )

-- An instruction laid out as a session id of 16 bytes, its client id, its type with the mark, its id and a
-- word 0, of 4 bytes each, and then the fields of its type, whose fields fit their places, of fewer than
-- 2 ^ 32 bytes in all: it decodes to itself, whether or not it is marked as synchronous; only the receive
-- times are the receiver's.
pub decode-wire :
    (now_ms : ℕ) (session_id : List ℕ) (synchronous : Bool) (i : Instruction)
    → length session_id ≡ 16
    → i.client_id < 2 ^ 32
    → i.id < 2 ^ 32
    → IsPayload i.payload
    → length (wire session_id synchronous i) < u32_mod
    → decode now_ms (wire session_id synchronous i)
      ≡ ok (some (record i { payload = received now_ms i.payload }))
unfolding decode
decode-wire now_ms session_id synchronous i s c d h small =
    let (o, u) = advance-Unread session_id _ s small in
    decode_from-header now_ms synchronous i _ o u c d h
