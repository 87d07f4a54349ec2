-- ===== src/Encoder/Layout.antt =====
-- The content of each message as src/transport/serializer/WebXMessageEncoder.h documents it.
-- The sub-images message, whose parts are not all aligned, has no layout here.
use webx_engine.Common.{ℕ, ◌+◌, ◌≡◌, List, [], ◌∷◌, ◌++◌, length, ok}
use webx_engine.Common.Int.{to_u32}
use webx_engine.Buffer.{Buffer}
use webx_engine.Buffer.Bytes.{le_bytes}
use webx_engine.Buffer.Writing.{header}
use webx_engine.Message.{
  bytes_of, WindowProperties, Payload, Message, windows, image, screen, sub_images, mouse,
  cursor_image, ping, disconnect, quality, clipboard, shape, screen_resize, keyboard_layout,
  type_code,
}
use webx_engine.Encoder.{Env, Encoded, shaped, bool_value, raw_of, alpha_of, depth_of, type_of}

abbrev pub windows_bytes : List WindowProperties → List ℕ
windows_bytes [] = []
windows_bytes (w ∷ ws) =
    le_bytes 4 w.id
    ++ (le_bytes 4 (to_u32 w.x)
        ++ (le_bytes 4 (to_u32 w.y)
            ++ (le_bytes 4 (to_u32 w.width) ++ (le_bytes 4 (to_u32 w.height) ++ windows_bytes ws))))

abbrev pub ids_bytes : List WindowProperties → List ℕ
ids_bytes [] = []
ids_bytes (w ∷ ws) = le_bytes 4 w.id ++ ids_bytes ws

-- What stands behind the header.
abbrev pub layout : (ℕ → ℕ) → ℕ → Payload → List ℕ
layout float_bits id (windows m) =
    le_bytes 4 id
    ++ (le_bytes 4 (length m.windows)
        ++ (windows_bytes m.windows
            ++ (le_bytes 4 (length (shaped m.windows)) ++ ids_bytes (shaped m.windows))))
layout float_bits id (image m) =
    le_bytes 4 id
    ++ (le_bytes 4 m.window_id
        ++ (le_bytes 4 (depth_of m.image)
            ++ (type_of m.image
                ++ (le_bytes 4 (length (raw_of m.image))
                    ++ (le_bytes 4 (length (alpha_of m.image))
                        ++ (raw_of m.image ++ alpha_of m.image))))))
layout float_bits id (screen m) =
    le_bytes 4 id
    ++ (le_bytes 4 (to_u32 m.screen_size.width)
        ++ (le_bytes 4 (to_u32 m.screen_size.height)
            ++ (le_bytes 4 (to_u32 m.max_quality_index)
                ++ (le_bytes 4 m.engine_version.major
                    ++ (le_bytes 4 m.engine_version.minor
                        ++ (le_bytes 4 m.engine_version.patch
                            ++ (le_bytes 4 (bool_value m.can_resize_screen)
                                ++ (le_bytes 4 (length m.keyboard_layout_name)
                                    ++ m.keyboard_layout_name))))))))
layout float_bits id (mouse m) =
    le_bytes 4 id
    ++ (le_bytes 4 (to_u32 m.x) ++ (le_bytes 4 (to_u32 m.y) ++ le_bytes 4 m.cursor_id))
layout float_bits id (cursor_image m) =
    let raw_data = bytes_of m.mouse_cursor_image.raw in
    le_bytes 4 id
    ++ (le_bytes 4 (to_u32 m.x)
        ++ (le_bytes 4 (to_u32 m.y)
            ++ (le_bytes 4 (to_u32 m.xhot)
                ++ (le_bytes 4 (to_u32 m.yhot)
                    ++ (le_bytes 4 m.cursor_id ++ (le_bytes 4 (length raw_data) ++ raw_data))))))
layout float_bits id ping = []
layout float_bits id disconnect = []
layout float_bits id (quality m) =
    le_bytes 4 m.quality.index
    ++ (le_bytes 4 (float_bits m.quality.image_fps)
        ++ (le_bytes 4 (float_bits m.quality.rgb_quality)
            ++ (le_bytes 4 (float_bits m.quality.alpha_quality)
                ++ le_bytes 4 (float_bits m.quality.max_mbps))))
layout float_bits id (clipboard m) = le_bytes 4 (length m.clipboard_content) ++ m.clipboard_content
layout float_bits id (shape m) =
    le_bytes 4 id
    ++ (le_bytes 4 m.window_id
        ++ (type_of m.shape ++ (le_bytes 4 (length (raw_of m.shape)) ++ raw_of m.shape)))
layout float_bits id (screen_resize m) =
    le_bytes 4 (to_u32 m.screen_size.width) ++ le_bytes 4 (to_u32 m.screen_size.height)
layout float_bits id (keyboard_layout m) =
    le_bytes 4 (length m.keyboard_layout_name) ++ m.keyboard_layout_name
layout float_bits id (sub_images m) = []

-- Every message but that of sub-images.
abbrev pub IsPlain : Payload → Type 0
IsPlain (sub_images _) = ⊥
IsPlain _ = Unit

-- What the environment promises: a session id of 16 bytes, and memory of the size asked for.
pub record IsEnv (env : Env) : Type 0 where
  pub session : length env.session_id ≡ 16
  pub storage : (n : ℕ) → length (env.storage n) ≡ n

-- The encoding of a message is its header, four bytes that are not used, and `body`, and no more.
abbrev pub IsEncoding : Env → Message → List ℕ → Encoded → Type 0
IsEncoding env m body encoded =
    (b : Buffer) × (unused : List ℕ) × (encoded ≡ ok b)
    × (length unused ≡ 4)
    × (b.content
        ≡ (header env.session_id m.client_index_mask env.timestamp_ms (type_code m.payload)
              env.message_id (48 + length body)
            ++ unused)
          ++ body)
