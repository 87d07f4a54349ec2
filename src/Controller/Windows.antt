-- ===== src/Controller/Windows.antt =====
-- src/controller/WebXController.cpp: `updateClientWindows`, with the handler that it gives to the groups
-- of the registry. The times of the handler's results are the reading of the clock in the call.
use webx_engine.Common.{
  ℕ, Bool, true, false, List, [], ◌∷◌, ◌++◌, Option, none, some, ◌==◌, ◌||◌, if◌then◌else◌,
}
use webx_engine.Common.Floats.{Floats}
use webx_engine.Message.{Message, Image, SubImage, shape, image, sub_images}
use webx_engine.Image.{image_checksum, alpha_checksum, remove_alpha, full_data_size}
use webx_engine.Rectangle.{Rectangle}
use webx_engine.Transfer.{TransferData, transfer_ignored, transfer_of_parts, transfer_of_window}
use webx_engine.Window.{
  ClientWindow, shape_requires_update, is_full_window_damage, damage_area_ratio, current_quality,
}
use webx_engine.Group.Windows.{UpdateHandler}
use webx_engine.Registry.{message_to}
use webx_engine.Registry.Windows.{show_visible, handle_updates}
use webx_engine.Registry.Rounds.{verify_quality}
use webx_engine.Controller.{Display, ControllerSettings, Controller}

-- `WebXImageUpdateVerification`
pub record ImageUpdateVerification : Type 0 where
  pub rgb_checksum : ℕ
  pub alpha_checksum : ℕ
  pub has_changed : Bool

module _ (fl : Floats) (dp : Display fl) (crc32 : List ℕ → ℕ) (settings : ControllerSettings) where
  open fl use {Float, of_ℕ, decimal, add, div, flt_ltb}

  -- The image after `verifyImageUpdate`: without its alpha data where only those are as they were.
  abbrev pub image_sent : ClientWindow fl → Image → Image
  image_sent w i =
      if settings.image_checksum_enabled
      then (if image_checksum crc32 i == w.rgb_checksum
          then i
          else if alpha_checksum crc32 i == w.alpha_checksum
          then remove_alpha i
          else i)
      else i

  -- `verifyImageUpdate` of an image that is not null.
  abbrev pub verify_image_update : ClientWindow fl → Image → ImageUpdateVerification
  verify_image_update w i =
      if settings.image_checksum_enabled
      then (record {
        rgb_checksum = image_checksum crc32 i;
        alpha_checksum = alpha_checksum crc32 i;
        has_changed = if image_checksum crc32 i == w.rgb_checksum then false else true;
      })
      else (record { rgb_checksum = 0; alpha_checksum = 0; has_changed = true })

  -- The size of an image in KB.
  abbrev pub size_kb : Image → Float
  size_kb i = div (of_ℕ (full_data_size i)) (of_ℕ 1024)

  -- The message of a new shape, if the display gives one.
  abbrev pub shape_of : Option Image → ClientWindow fl → ℕ → List Message
  shape_of none w mask = []
  shape_of (some i) w mask =
      message_to fl mask (shape (record { window_id = w.id; shape = some i })) ∷ []

  abbrev pub shape_messages : dp.State → ClientWindow fl → ℕ → List Message
  shape_messages d w mask =
      if shape_requires_update fl w then shape_of (dp.window_shape_mask w.id d) w mask else []

  -- The part for a window that is damaged as a whole, or nearly. A null image has not changed.
  abbrev pub full_update : ℕ → Option Image → ClientWindow fl → ℕ → List Message × TransferData fl
  full_update now none w mask = ([], transfer_ignored fl now w.id)
  full_update now (some i) w mask =
      let v = verify_image_update w i in
      let i' = image_sent w i in
      if v.has_changed
      then (
        message_to fl mask (image (record { window_id = w.id; image = some i' })) ∷ [],
        transfer_of_window fl now w.id (size_kb i') v.rgb_checksum v.alpha_checksum,
      )
      else ([], transfer_ignored fl now w.id)

  -- The sub-images of the damaged areas that the display gives an image of, and their size added to a
  -- total.
  abbrev pub sub_image_of : Rectangle → Image → SubImage
  sub_image_of r i = record {
    x = r.x;
    y = r.y;
    width = r.size.width;
    height = r.size.height;
    image = i;
  }

  abbrev pub with_area : Rectangle → Option Image → List SubImage → List SubImage
  with_area r none rest = rest
  with_area r (some i) rest = sub_image_of r i ∷ rest

  abbrev pub with_size : Option Image → Float → Float
  with_size none total = total
  with_size (some i) total = add total (size_kb i)

  pub sub_images_of : dp.State → ClientWindow fl → List Rectangle → Float → List SubImage × Float
  sub_images_of d w [] total = ([], total)
  sub_images_of d w (r ∷ rs) total =
      let i = dp.image_of w.id (current_quality fl w) (some r) d in
      let rest = sub_images_of d w rs (with_size i total) in (with_area r i rest.0, rest.1)

  abbrev pub parts_update :
      ℕ → List SubImage × Float → ClientWindow fl → ℕ → List Message × TransferData fl
  parts_update now ([], total) w mask = ([], transfer_ignored fl now w.id)
  parts_update now (i ∷ is, total) w mask = (
    message_to fl mask (sub_images (record { window_id = w.id; images = i ∷ is })) ∷ [],
    transfer_of_parts fl now w.id total,
  )

  -- The damage is that of the whole window, or of more than nine tenths of it.
  abbrev pub is_nearly_full : ClientWindow fl → Bool
  is_nearly_full w = is_full_window_damage fl w || flt_ltb (decimal 9 10) (damage_area_ratio fl w)

  abbrev pub pixel_update : ℕ → dp.State → ClientWindow fl → ℕ → List Message × TransferData fl
  pixel_update now d w mask =
      if is_nearly_full w
      then full_update now (dp.image_of w.id (current_quality fl w) none d) w mask
      else parts_update now (sub_images_of d w w.damage.damage_areas (of_ℕ 0)) w mask

  -- The handler of `updateClientWindows`, which never fails.
  unfoldable pub update_window : ℕ → dp.State → UpdateHandler fl
  update_window now d w mask =
      let pixels = pixel_update now d w mask in (shape_messages d w mask ++ pixels.0, some pixels.1)

  -- `updateClientWindows`, without the total of the sizes, which goes to the statistics.
  unfoldable pub update_client_windows : ℕ → Controller fl dp → Controller fl dp
  unfolding update_window
  update_client_windows now s =
      let shown =
        show_visible fl settings.registry now (dp.window_visibilities s.display) s.registry in
      let updated = handle_updates fl settings.registry now (update_window now s.display) shown in
      record s { registry = verify_quality fl settings.registry now updated }
