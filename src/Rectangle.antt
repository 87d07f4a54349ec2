-- ===== src/Rectangle.antt =====
-- src/models/WebXRectangle.h, where no `int` overflows. The overlap ratio is not modelled.
use webx_engine.Common.{Bool, ◌&&◌, if◌then◌else◌}
use webx_engine.Common.Int.{leb_ℤ, eqb_ℤ, ◌*ℤ◌, ℤ, pos, ◌+ℤ◌, ◌-ℤ◌, ltb_ℤ}
use webx_engine.Message.{Size}

pub record Rectangle : Type 0 where
  pub x : ℤ
  pub y : ℤ
  pub size : Size
  pub left : ℤ
  pub right : ℤ
  pub top : ℤ
  pub bottom : ℤ

-- `WebXSize::operator ==` and `area`.
abbrev pub same_size : Size → Size → Bool
same_size a b = eqb_ℤ a.width b.width && eqb_ℤ a.height b.height

abbrev pub area_of_size : Size → ℤ
area_of_size s = s.width *ℤ s.height

-- `area`
abbrev pub area : Rectangle → ℤ
area r = area_of_size r.size

-- `isVisible`
pub is_visible : Size → Rectangle → Bool
is_visible viewport r =
    ltb_ℤ r.left viewport.width
    && ltb_ℤ (pos 0) r.right
    && ltb_ℤ r.bottom viewport.height
    && ltb_ℤ (pos 0) r.top

-- `overlap`
unfoldable pub overlap : Rectangle → Rectangle → Bool
overlap a b =
    ltb_ℤ a.left b.right && ltb_ℤ b.left a.right && ltb_ℤ b.bottom a.top && ltb_ℤ a.bottom b.top

-- `contains`
pub contains : Rectangle → Rectangle → Bool
contains a b =
    leb_ℤ a.left b.left && leb_ℤ b.right a.right && leb_ℤ b.top a.top && leb_ℤ a.bottom b.bottom

-- The constructor of a position and a size.
unfoldable pub rectangle_of : ℤ → ℤ → ℤ → ℤ → Rectangle
rectangle_of x y width height = record {
  x = x;
  y = y;
  size = record { width = width; height = height };
  left = x;
  right = x +ℤ width;
  top = y +ℤ height;
  bottom = y;
}

-- `overlapOrTouching`
abbrev pub overlap_or_touching : Rectangle → Rectangle → Bool
overlap_or_touching a b =
    ltb_ℤ a.left (b.right +ℤ pos 1)
    && ltb_ℤ (b.left -ℤ pos 1) a.right
    && ltb_ℤ (b.bottom -ℤ pos 1) a.top
    && ltb_ℤ a.bottom (b.top +ℤ pos 1)

-- `operator +=`: the smallest rectangle around both.
unfoldable pub extend : Rectangle → Rectangle → Rectangle
extend a b =
    let left = if ltb_ℤ b.left a.left then b.left else a.left in
    let right = if ltb_ℤ a.right b.right then b.right else a.right in
    let bottom = if ltb_ℤ b.bottom a.bottom then b.bottom else a.bottom in
    let top = if ltb_ℤ a.top b.top then b.top else a.top in
    record {
      x = left;
      y = bottom;
      size = record { width = right -ℤ left; height = top -ℤ bottom };
      left = left;
      right = right;
      top = top;
      bottom = bottom;
    }
