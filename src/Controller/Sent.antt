-- ===== src/Controller/Sent.antt =====
-- What the handler of `updateClientWindows` sends of a window.
use webx_engine.Common.{
  ℕ, ◌≡◌, refl, Bool, true, false, List, [], ◌∷◌, ◌++◌, Option, none, some, not, ◌||◌, ◌==◌,
  Bool-cases, inl, inr, arith,
}
use webx_engine.Common.Floats.{Floats}
use webx_engine.Message.{Message, Payload, Image, SubImage, shape, image, sub_images, no_command}
use webx_engine.Transfer.{TransferData, TransferStatus, ignored}
use webx_engine.Window.{ClientWindow, shape_requires_update, current_quality}
use webx_engine.Controller.{Display, ControllerSettings}
use webx_engine.Controller.Windows.{
  verify_image_update, shape_of, shape_messages, full_update, parts_update, pixel_update,
  sub_images_of, is_nearly_full, update_window,
}

-- The message shows the window's image, parts of it or its shape.
abbrev pub is_of_window : ℕ → Payload → Bool
is_of_window i (image m) = m.window_id == i
is_of_window i (sub_images m) = m.window_id == i
is_of_window i (shape m) = m.window_id == i
is_of_window i _ = false

abbrev pub has_pixels : Payload → Bool
has_pixels (image _) = true
has_pixels (sub_images _) = true
has_pixels _ = false

abbrev pub any_pixels : List Message → Bool
any_pixels [] = false
any_pixels (m ∷ ms) = has_pixels m.payload || any_pixels ms

-- Each message is for the clients of the mask, answers no instruction, and is about the window.
abbrev pub AllAbout : ℕ → ℕ → List Message → Type 0
AllAbout mask i [] = Unit
AllAbout mask i (m ∷ ms) =
    (m.client_index_mask ≡ mask)
    × (m.command_id ≡ no_command)
    × (is_of_window i m.payload ≡ true)
    × AllAbout mask i ms

abbrev pub is_ignored : TransferStatus → Bool
is_ignored ignored = true
is_ignored _ = false

append-AllAbout :
    (mask i : ℕ) (ms ns : List Message)
    → AllAbout mask i ms
    → AllAbout mask i ns
    → AllAbout mask i (ms ++ ns)
append-AllAbout mask i [] ns a b = b
append-AllAbout mask i (m ∷ ms) ns (x, y, z, a) b = (x, y, z, append-AllAbout mask i ms ns a b)

module _ (fl : Floats) (dp : Display fl) (crc32 : List ℕ → ℕ) (settings : ControllerSettings) where
  -- What is sent of the pixels of a window, with the transfer that is reported of it.
  abbrev IsReported : ClientWindow fl → ℕ → List Message × TransferData fl → Type 0
  IsReported w mask r =
      AllAbout mask w.id r.0
      × (r.1.x11_window ≡ w.id)
      × (is_ignored r.1.status ≡ not (any_pixels r.0))

  full-IsReported :
      (now : ℕ) (o : Option Image) (w : ClientWindow fl) (mask : ℕ)
      → IsReported w mask (full_update fl dp crc32 settings now o w mask)
  full-IsReported now none w mask = (tt, refl, refl)
  full-IsReported now (some i) w mask =
      elim (Bool-cases (verify_image_update fl dp crc32 settings w i).has_changed) [
        | inl e ↦ rw e ((refl, refl, ground arith, tt), refl, refl)
        | inr e ↦ rw e (tt, refl, refl)
      ]

  parts-IsReported :
      (now : ℕ) (r : List SubImage × fl.Float) (w : ClientWindow fl) (mask : ℕ)
      → IsReported w mask (parts_update fl dp crc32 settings now r w mask)
  parts-IsReported now ([], total) w mask = (tt, refl, refl)
  parts-IsReported now (i ∷ is, total) w mask = ((refl, refl, ground arith, tt), refl, refl)

  pixels-IsReported :
      (now : ℕ) (d : dp.State) (w : ClientWindow fl) (mask : ℕ)
      → IsReported w mask (pixel_update fl dp crc32 settings now d w mask)
  pixels-IsReported now d w mask =
      let whole = dp.image_of w.id (current_quality fl w) none d in
      let parts = sub_images_of fl dp crc32 settings d w w.damage.damage_areas (fl.of_ℕ 0) in
      elim (Bool-cases (is_nearly_full fl dp crc32 settings w)) [
        | inl e ↦ rw e (full-IsReported now whole w mask)
        | inr e ↦ rw e (parts-IsReported now parts w mask)
      ]

  shape_of-lem :
      (o : Option Image) (w : ClientWindow fl) (mask : ℕ) (ns : List Message)
      → AllAbout mask w.id (shape_of fl dp crc32 settings o w mask)
        × (any_pixels (shape_of fl dp crc32 settings o w mask ++ ns) ≡ any_pixels ns)
  shape_of-lem none w mask ns = (tt, refl)
  shape_of-lem (some i) w mask ns = ((refl, refl, ground arith, tt), refl)

  shape_messages-lem :
      (d : dp.State) (w : ClientWindow fl) (mask : ℕ) (ns : List Message)
      → AllAbout mask w.id (shape_messages fl dp crc32 settings d w mask)
        × (any_pixels (shape_messages fl dp crc32 settings d w mask ++ ns) ≡ any_pixels ns)
  shape_messages-lem d w mask ns = elim (Bool-cases (shape_requires_update fl w)) [
    | inl e ↦ rw e (shape_of-lem (dp.window_shape_mask w.id d) w mask ns)
    | inr e ↦ rw e (tt, refl)
  ]

  -- The handler of `updateClientWindows` for a window and a mask: each message that it sends is about
  -- that window, goes to the clients of the mask alone and answers no instruction; and it returns the
  -- data of a transfer of that window, which is one to ignore exactly where no message has an image or
  -- sub-images.
  pub update_window-IsReported :
      (now : ℕ) (d : dp.State) (w : ClientWindow fl) (mask : ℕ)
      → let result = update_window fl dp crc32 settings now d w mask in
        AllAbout mask w.id result.0
        × (t : TransferData fl) × (result.1 ≡ some t)
        × (t.x11_window ≡ w.id)
        × (is_ignored t.status ≡ not (any_pixels result.0))
  unfolding update_window
  update_window-IsReported now d w mask =
      let pixels = pixel_update fl dp crc32 settings now d w mask in
      let (a, b, c) = pixels-IsReported now d w mask in
      let (x, y) = shape_messages-lem d w mask pixels.0 in
      (
        append-AllAbout mask w.id (shape_messages fl dp crc32 settings d w mask) pixels.0 x a,
        pixels.1,
        refl,
        b,
        rw y c,
      )
