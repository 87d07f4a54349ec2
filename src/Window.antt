-- ===== src/Window.antt =====
-- src/controller/client/WebXClientWindow.h: one window as the clients of a group see it, and
-- src/models/WebXWindowVisibility.h. `now` is the reading of the clock in a call, in nanoseconds.
use webx_engine.Common.{ℕ, ◌+◌, ◌*◌, Bool, ltb, if◌then◌else◌, ◌==◌, ◌&&◌, not}
use webx_engine.Common.Int.{pos}
use webx_engine.Common.Floats.{Floats}
use webx_engine.Message.{Size}
use webx_engine.Quality.{Quality}
use webx_engine.Bitrate.{older_than}
use webx_engine.Rectangle.{Rectangle, area_of_size, is_visible}
use webx_engine.Damage.{
  WindowDamage, no_damage, add_damage, has_damage, covers_window, damaged_area, reset,
}
use webx_engine.Coverage.{WindowCoverage}
use webx_engine.Transfer.{TransferData, TransferStatus, full_window, sub_window, ignored}
use webx_engine.Handler.{
  QualitySettings, QualityHandler, new_handler, new_handler_covered, set_window_coverage,
  calculate_quality, on_image_transfer,
}

abbrev pub quality_refresh_time_ms : ℕ
quality_refresh_time_ms = 500

module _ (fl : Floats) where
  open fl use {Float, of_ℤ, div}

  pub record Visibility : Type 0 where
    pub x11_window : ℕ
    pub coverage : WindowCoverage fl
    pub rectangle : Rectangle
    pub is_viewable : Bool
    pub shape_mask_checksum : ℕ

  -- `WebXWindowVisibility::isVisible`
  pub is_visible_in : Size → Visibility → Bool
  is_visible_in viewport v = v.is_viewable && is_visible viewport v.rectangle

  pub record ClientWindow : Type 0 where
    pub id : ℕ
    pub damage : WindowDamage
    pub quality_handler : QualityHandler fl
    pub window_size : Size
    pub image_refresh_time : ℕ
    pub shape_update_time : ℕ
    pub rgb_checksum : ℕ
    pub alpha_checksum : ℕ
    pub shape_mask_checksum : ℕ
    pub last_sent_shape_mask_checksum : ℕ

  -- The constructor of a window that has become visible.
  unfoldable pub new_window : QualitySettings → ℕ → Quality → Visibility → ClientWindow
  new_window settings now desired_quality v = record {
    id = v.x11_window;
    damage = no_damage v.x11_window;
    quality_handler = new_handler_covered fl settings now desired_quality v.coverage;
    window_size = v.rectangle.size;
    image_refresh_time = now;
    shape_update_time = now;
    rgb_checksum = 0;
    alpha_checksum = 0;
    shape_mask_checksum = v.shape_mask_checksum;
    last_sent_shape_mask_checksum = v.shape_mask_checksum;
  }

  -- The constructor of a window that is known by its damage only.
  unfoldable pub new_damaged_window : QualitySettings → ℕ → Quality → WindowDamage → ClientWindow
  new_damaged_window settings now desired_quality damage = record {
    id = damage.x11_window;
    damage = damage;
    quality_handler = new_handler fl settings now desired_quality;
    window_size = record { width = pos 0; height = pos 0 };
    image_refresh_time = now;
    shape_update_time = now;
    rgb_checksum = 0;
    alpha_checksum = 0;
    shape_mask_checksum = 0;
    last_sent_shape_mask_checksum = 0;
  }

  -- `addDamage`
  unfoldable pub add_window_damage : WindowDamage → ClientWindow → ClientWindow
  add_window_damage damage w = record w { damage = add_damage damage w.damage }

  -- `resetDamage` and `resetShapeMaskChecksum`
  unfoldable pub reset_damage : ClientWindow → ClientWindow
  reset_damage w = record w { damage = reset w.damage }

  unfoldable pub reset_shape_mask_checksum : ClientWindow → ClientWindow
  reset_shape_mask_checksum w = record w { last_sent_shape_mask_checksum = w.shape_mask_checksum }

  -- `hasDamage`, `isFullWindowDamage` and `getDamageAreaRatio`
  abbrev pub window_has_damage : ClientWindow → Bool
  window_has_damage w = has_damage w.damage

  abbrev pub is_full_window_damage : ClientWindow → Bool
  is_full_window_damage w = covers_window w.window_size w.damage

  abbrev pub damage_area_ratio : ClientWindow → Float
  damage_area_ratio w = div (of_ℤ (damaged_area w.damage)) (of_ℤ (area_of_size w.window_size))

  -- `getCurrentQuality`
  abbrev pub current_quality : ClientWindow → Quality
  current_quality w = w.quality_handler.current_quality

  -- `updateQuality`
  unfoldable pub update_quality : QualitySettings → ℕ → ClientWindow → ClientWindow
  update_quality settings now w =
      if older_than quality_refresh_time_ms now w.quality_handler.last_refresh_time
      then record w { quality_handler = calculate_quality fl settings now w.quality_handler }
      else w

  -- `setSize`, `setCoverage` and `setShapeMaskChecksum`, as `updateVisibleWindows` calls them.
  unfoldable pub update_visible : QualitySettings → ℕ → Visibility → ClientWindow → ClientWindow
  update_visible settings now v w = record w {
    window_size = v.rectangle.size;
    quality_handler = set_window_coverage fl settings now v.coverage w.quality_handler;
    shape_mask_checksum = v.shape_mask_checksum;
  }

  -- `requiresRefresh` for the reference time of `handleWindowGraphicalUpdates`: the window was
  -- refreshed longer ago than the time of an image at its current quality.
  abbrev pub requires_refresh : ℕ → ClientWindow → Bool
  requires_refresh now w =
      ltb (w.image_refresh_time + (current_quality w).image_update_time_us * 1000) now

  -- `shapeRequiresUpdate`
  abbrev pub shape_requires_update : ClientWindow → Bool
  shape_requires_update w = not (w.last_sent_shape_mask_checksum == w.shape_mask_checksum)

  abbrev pub on_transferred : TransferStatus → TransferData fl → ClientWindow → ClientWindow
  on_transferred full_window t w = record w {
    rgb_checksum = t.rgb_checksum;
    alpha_checksum = t.alpha_checksum;
    image_refresh_time = t.timestamp;
  }
  on_transferred sub_window t w = record w { image_refresh_time = t.timestamp }
  on_transferred ignored t w = w

  -- `onImageTransfer`
  unfoldable pub on_window_transfer :
      QualitySettings → ℕ → TransferData fl → ClientWindow → ClientWindow
  on_window_transfer settings now t w =
      let w' = on_transferred t.status t w in
      record w' { quality_handler = on_image_transfer fl settings now t w.quality_handler }
