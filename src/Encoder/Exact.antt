-- ===== src/Encoder/Exact.antt =====
-- The encoder's functions of src/transport/serializer/WebXMessageEncoder.cpp and the documented layout.
use webx_engine.Common.{
  ℕ, ◌+◌, ◌*◌, ◌%◌, ◌<◌, ◌≡◌, refl, sym, ap, ◌∙◌, List, [], ◌∷◌, ◌++◌, Option, none, some, length,
  ok, ◌>>=◌, arith, length-append, take_all,
}
use webx_engine.Buffer.{Buffer, u32_mod, append}
use webx_engine.Buffer.Bytes.{le_bytes}
use webx_engine.Buffer.Writing.{header, start-Filled}
use webx_engine.Message.{
  Image, ImageType, png, jpg, webp, other, bytes_of, WindowProperties, Payload, Message, windows,
  image, screen, sub_images, mouse, cursor_image, ping, disconnect, quality, clipboard, shape,
  screen_resize, keyboard_layout, type_code,
}
use webx_engine.Encoder.{
  Env, Encoded, encode, create, open_message, shaped, image_type_bytes, raw_of, alpha_of, type_of,
  write_raw, write_image, write_windows, write_window_ids, create_cursor_image_message,
  create_image_message, create_mouse_message, create_screen_message, create_windows_message,
  create_ping_message, create_disconnect_message, create_quality_message, create_clipboard_message,
  create_shape_message, create_screen_resize_message, create_keyboard_layout_message,
}
use webx_engine.Encoder.Layout.{windows_bytes, ids_bytes, layout, IsPlain, IsEnv, IsEncoding}
use webx_engine.Encoder.Fields.{
  Appends, done-Appends, word-Appends, bytes-Appends, then-Appends, word_then, append_anywhere,
  write_if_anywhere, then_anywhere,
}

length-type_of : (i : Option Image) → length (type_of i) ≡ 4
length-type_of none = refl
length-type_of (some i) = by_type i.image_type
  where
    by_type : (t : ImageType) → length (image_type_bytes t) ≡ 4
    by_type png = refl
    by_type jpg = refl
    by_type webp = refl
    by_type other = refl

write_windows-Appends : (ws : List WindowProperties) → Appends (write_windows ws) (windows_bytes ws)
unfolding write_windows
write_windows-Appends [] = done-Appends
write_windows-Appends (w ∷ ws) = word_then _ _ _ (
    word_then _ _ _
      (word_then _ _ _ (word_then _ _ _ (word_then _ _ _ (write_windows-Appends ws)))))

write_window_ids-Appends :
    (ws : List WindowProperties) → Appends (write_window_ids ws) (ids_bytes ws)
unfolding write_window_ids
write_window_ids-Appends [] = done-Appends
write_window_ids-Appends (w ∷ ws) = word_then _ _ _ (write_window_ids-Appends ws)

module _ (env : Env) (v : IsEnv env) (m : Message) where
  opened :
      (f : Buffer → Encoded) (body : List ℕ) (data_size : ℕ)
      → Appends f body
      → data_size ≡ 48 + length body
      → 48 + length body < u32_mod
      → IsEncoding env m body (f (open_message env m data_size))
  unfolding open_message
  opened f body data_size p e h =
      let l : length (env.storage data_size) ≡ 48 + length body = v.storage data_size ∙ e in
      let mask = m.client_index_mask in
      let code = type_code m.payload in
      let (unused, n, g, s, o) =
        start-Filled (env.storage data_size) env.session_id mask code env.timestamp_ms
          env.message_id v.session (omega arith) (omega arith) in
      let b = open_message env m data_size in
      let head =
        header env.session_id mask env.timestamp_ms code env.message_id
          (length (env.storage data_size))
        ++ unused in
      let (b', e', g', s') = p b head g (omega arith) (omega arith) in
      let whole : b'.write_offset ≡ length b'.content =
        omega (arith, length-append head body, g'.offset, g'.whole) in
      (
        b',
        unused,
        e',
        n,
        sym (take_all b'.write_offset b'.content whole)
            ∙ (g'.done
                ∙ ap
                    (λ k.
                      (header env.session_id mask env.timestamp_ms code env.message_id k ++ unused)
                      ++ body)
                    l),
      )

length-windows_bytes : (ws : List WindowProperties) → length (windows_bytes ws) ≡ length ws * 20
length-windows_bytes [] = refl
length-windows_bytes (w ∷ ws) = omega (arith, length-windows_bytes ws)

length-ids_bytes : (ws : List WindowProperties) → length (ids_bytes ws) ≡ length ws * 4
length-ids_bytes [] = refl
length-ids_bytes (w ∷ ws) = omega (arith, length-ids_bytes ws)

write_image-Appends : (i : Option Image) → Appends (write_image i) (raw_of i ++ alpha_of i)
unfolding write_image
write_image-Appends none = done-Appends
write_image-Appends (some i) = λ b xs f al h.
    then_anywhere _ _ (bytes_of i.raw) (bytes_of i.alpha) (append_anywhere (bytes_of i.raw))
      (write_if_anywhere (bytes_of i.alpha)) b xs f h

write_raw-Appends : (i : Option Image) → Appends (write_raw i) (raw_of i)
unfolding write_raw
write_raw-Appends none = done-Appends
write_raw-Appends (some i) = bytes-Appends (bytes_of i.raw)

-- The image type, and what follows it.
type_then :
    (i : Option Image) (g : Buffer → Encoded) (zs : List ℕ)
    → Appends g zs
    → Appends (λ b. append (type_of i) b >>= g) (type_of i ++ zs)
type_then i g zs q =
    let e : length (type_of i) % 4 ≡ 0 = omega (arith, length-type_of i) in
    then-Appends (λ b. append (type_of i) b) g (type_of i) zs e (bytes-Appends (type_of i)) q

module _ (env : Env) (v : IsEnv env) (m : Message) where
  create-layout :
      (p : Payload)
      → IsPlain p
      → 48 + length (layout env.float_bits m.command_id p) < u32_mod
      → IsEncoding env m (layout env.float_bits m.command_id p) (create env m p)
  unfolding create create_cursor_image_message create_image_message create_mouse_message
      create_screen_message create_windows_message create_ping_message create_disconnect_message
      create_quality_message create_clipboard_message create_shape_message
      create_screen_resize_message create_keyboard_layout_message
  create-layout (mouse p) h s =
      opened env v m _ _ _
        (word_then _ _ _ (word_then _ _ _ (word_then _ _ _ (word-Appends p.cursor_id)))) refl s
  create-layout (cursor_image p) h s =
      opened env v m _ _ _
        (word_then _ _ _ (
          word_then _ _ _ (
            word_then _ _ _ (
              word_then _ _ _
                (word_then _ _ _ (word_then _ _ _ (word_then _ _ _ (bytes-Appends _))))))))
        (omega arith) s
  create-layout (screen p) h s =
      opened env v m _ _ _
        (word_then _ _ _ (
          word_then _ _ _ (
            word_then _ _ _ (
              word_then _ _ _ (
                word_then _ _ _ (
                  word_then _ _ _ (
                    word_then _ _ _ (
                      word_then _ _ _
                        (word_then _ _ _ (bytes-Appends p.keyboard_layout_name))))))))))
        (omega arith) s
  create-layout (quality p) h s =
      opened env v m _ _ _
        (word_then _ _ _ (word_then _ _ _ (word_then _ _ _ (word_then _ _ _ (word-Appends _)))))
        refl s
  create-layout (clipboard p) h s =
      opened env v m _ _ _ (word_then _ _ _ (bytes-Appends p.clipboard_content)) (omega arith) s
  create-layout (keyboard_layout p) h s =
      opened env v m _ _ _ (word_then _ _ _ (bytes-Appends p.keyboard_layout_name)) (omega arith) s
  create-layout (screen_resize p) h s =
      opened env v m _ _ _ (word_then _ _ _ (word-Appends _)) refl s
  create-layout ping h s = opened env v m (λ b. ok b) [] 48 done-Appends refl s
  create-layout disconnect h s = opened env v m (λ b. ok b) [] 48 done-Appends refl s
  create-layout (windows p) h s =
      opened env v m _ _ _
        (word_then _ _ _ (
          word_then _ _ _ (
            then-Appends (write_windows p.windows) _ (windows_bytes p.windows) _
              (omega (arith, length-windows_bytes p.windows)) (write_windows-Appends p.windows)
              (word_then _ _ _ (write_window_ids-Appends (shaped p.windows))))))
        (omega (
          arith,
          length-windows_bytes p.windows,
          length-ids_bytes (shaped p.windows),
          length-append (windows_bytes p.windows)
              (le_bytes 4 (length (shaped p.windows)) ++ ids_bytes (shaped p.windows)),
        ))
        s
  create-layout (image p) h s =
      opened env v m _ _ _
        (word_then _ _ _ (
          word_then _ _ _ (
            word_then _ _ _ (
              type_then p.image _ _
                (word_then _ _ _ (word_then _ _ _ (write_image-Appends p.image)))))))
        (omega (
          arith,
          length-type_of p.image,
          length-append (type_of p.image) (
              le_bytes 4 (length (raw_of p.image))
              ++ (le_bytes 4 (length (alpha_of p.image)) ++ (raw_of p.image ++ alpha_of p.image))),
          length-append (raw_of p.image) (alpha_of p.image),
        ))
        s
  create-layout (shape p) h s =
      opened env v m _ _ _
        (word_then _ _ _
          (word_then _ _ _ (type_then p.shape _ _ (word_then _ _ _ (write_raw-Appends p.shape)))))
        (omega (
          arith,
          length-type_of p.shape,
          length-append (type_of p.shape) (le_bytes 4 (length (raw_of p.shape)) ++ raw_of p.shape),
        ))
        s
  create-layout (sub_images p) h s = absurd h

-- Given memory of the size it asks for, a session id of 16 bytes and fewer than 2 ^ 32 bytes in all,
-- the encoder never throws, and fills the message exactly: the header with the total length, four
-- unused bytes, and the documented content, for every message but that of sub-images.
pub encode-layout :
    (env : Env) (m : Message)
    → IsEnv env
    → IsPlain m.payload
    → 48 + length (layout env.float_bits m.command_id m.payload) < u32_mod
    → IsEncoding env m (layout env.float_bits m.command_id m.payload) (encode env m)
unfolding encode
encode-layout env m v h s = create-layout env v m m.payload h s
