-- ===== src/Decoder/Wire.antt =====
-- The layout of instructions that src/transport/serializer/WebXInstructionDecoder.cpp reads, written from
-- the sender's side: the session id of 16 bytes; the client id, the type with its mark, the
-- instruction's id and a word that is not used, of 4 bytes each; then the content. It does not use the
-- decoder. WebXInstructionDecoder.h describes it so for the mouse instruction.
use webx_engine.Common.{ℕ, ◌+◌, ◌^◌, ◌<◌, Bool, List, [], ◌++◌, length, if◌then◌else◌}
use webx_engine.Common.Int.{to_u32, IsInt32}
use webx_engine.Buffer.Bytes.{le_bytes}
use webx_engine.Instruction.{
  Payload, Instruction, type_code, windows, image, screen, mouse, keyboard, cursor, quality, pong,
  data_ack, clipboard, shape, screen_resize, keyboard_layout,
}

abbrev pub content : Payload → List ℕ
content windows = []
content (image i) = le_bytes 4 i.window_id ++ []
content screen = []
content (mouse i) =
    le_bytes 4 (to_u32 i.x) ++ (le_bytes 4 (to_u32 i.y) ++ (le_bytes 4 i.button_mask ++ []))
content (keyboard i) = le_bytes 4 (to_u32 i.key) ++ (le_bytes 4 (if i.pressed then 1 else 0) ++ [])
content (cursor i) = le_bytes 4 i.cursor_id ++ []
content (quality i) = le_bytes 4 i.quality_index ++ []
content (pong i) = le_bytes 8 i.send_timestamp_ms ++ []
content (data_ack i) = le_bytes 8 i.send_timestamp_ms ++ (le_bytes 4 i.data_length ++ [])
content (clipboard i) = le_bytes 4 (length i.clipboard_content) ++ (i.clipboard_content ++ [])
content (shape i) = le_bytes 4 i.window_id ++ []
content (screen_resize i) = le_bytes 4 i.width ++ (le_bytes 4 i.height ++ [])
content (keyboard_layout i) = le_bytes 4 (length i.keyboard_layout) ++ (i.keyboard_layout ++ [])

-- The highest bit of the type marks a synchronous request.
abbrev pub details : Bool → Payload → ℕ
details synchronous p = (if synchronous then 2 ^ 31 else 0) + type_code p

abbrev pub wire : List ℕ → Bool → Instruction → List ℕ
wire session_id synchronous i =
    session_id
    ++ (le_bytes 4 i.client_id
        ++ (le_bytes 4 (details synchronous i.payload)
            ++ (le_bytes 4 i.id ++ (le_bytes 4 0 ++ content i.payload))))

-- Every field fits its place on the wire.
abbrev pub IsPayload : Payload → Type 0
IsPayload windows = Unit
IsPayload (image i) = i.window_id < 2 ^ 32
IsPayload screen = Unit
IsPayload (mouse i) = IsInt32 i.x × IsInt32 i.y × (i.button_mask < 2 ^ 32)
IsPayload (keyboard i) = IsInt32 i.key
IsPayload (cursor i) = i.cursor_id < 2 ^ 32
IsPayload (quality i) = i.quality_index < 2 ^ 32
IsPayload (pong i) = i.send_timestamp_ms < 2 ^ 64
IsPayload (data_ack i) = (i.send_timestamp_ms < 2 ^ 64) × (i.data_length < 2 ^ 32)
IsPayload (clipboard i) = length i.clipboard_content < 2 ^ 32
IsPayload (shape i) = i.window_id < 2 ^ 32
IsPayload (screen_resize i) = (i.width < 2 ^ 32) × (i.height < 2 ^ 32)
IsPayload (keyboard_layout i) = length i.keyboard_layout < 2 ^ 32

-- What arrives: the receive times are the receiver's clock, the rest is as it was sent.
abbrev pub received : ℕ → Payload → Payload
received now_ms (pong i) = pong (record i { recv_timestamp_ms = now_ms })
received now_ms (data_ack i) = data_ack (record i { recv_timestamp_ms = now_ms })
received now_ms windows = windows
received now_ms (image i) = image i
received now_ms screen = screen
received now_ms (mouse i) = mouse i
received now_ms (keyboard i) = keyboard i
received now_ms (cursor i) = cursor i
received now_ms (quality i) = quality i
received now_ms (clipboard i) = clipboard i
received now_ms (shape i) = shape i
received now_ms (screen_resize i) = screen_resize i
received now_ms (keyboard_layout i) = keyboard_layout i
