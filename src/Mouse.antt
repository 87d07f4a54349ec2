-- ===== src/Mouse.antt =====
-- src/display/input/WebXMouse.cpp and WebXMouseState.h, without the cursor. `buttons` is the two arrays of
-- `sendMouseButtons`: for each button of X11 the position of its bit in a mask. The position that
-- XQueryPointer gives is an argument, and the events are all that are handed to XTest and XWarpPointer.
pub mod Held
mod Tests
use Prim.Native.Nat.{bit_and, bit_xor}
use webx_engine.Common.{
  ℕ, ◌^◌, Bool, true, false, ◌&&◌, not, List, [], ◌∷◌, ◌++◌, ◌==◌, if◌then◌else◌,
}
use webx_engine.Common.Int.{ℤ, pos, eqb_ℤ}

pub data MouseEvent : Type 0 where
  warp : ℤ → ℤ → MouseEvent
  button_event : (button : ℕ) (is_pressed : Bool) → MouseEvent

pub record Mouse : Type 0 where
  pub x : ℤ
  pub y : ℤ
  pub button_mask : ℕ
  pub is_dirty : Bool
  pub events : List MouseEvent

-- The constructor, with the state of `createDefaultMouseState`.
abbrev pub new_mouse : Mouse
new_mouse = record { x = pos 0; y = pos 0; button_mask = 0; is_dirty = false; events = [] }

-- `mask & buttonMask`, as a condition.
abbrev pub has_button : ℕ → ℕ → Bool
has_button mask position = not (bit_and mask (2 ^ position) == 0)

module _ (buttons : List (ℕ × ℕ)) where
  -- The loop of `sendMouseButtons`.
  unfoldable pub changed_buttons : List (ℕ × ℕ) → (delta new_mask : ℕ) → List MouseEvent
  changed_buttons [] delta new_mask = []
  changed_buttons ((button, position) ∷ bs) delta new_mask =
      let rest = changed_buttons bs delta new_mask in
      if has_button delta position
      then button_event button (has_button new_mask position) ∷ rest
      else rest

  unfoldable pub send_mouse_buttons : ℕ → Mouse → Mouse
  send_mouse_buttons new_mask s = record s {
    events = s.events ++ changed_buttons buttons (bit_xor s.button_mask new_mask) new_mask;
    button_mask = 0;
  }

  unfoldable pub send_mouse_movement : ℤ → ℤ → Mouse → Mouse
  send_mouse_movement x y s =
      if eqb_ℤ x s.x && eqb_ℤ y s.y then s else record s { events = s.events ++ warp x y ∷ [] }

  -- `updatePosition`, where XQueryPointer gives the position.
  unfoldable pub update_position : ℤ × ℤ → Mouse → Mouse
  update_position at s =
      if eqb_ℤ s.x at.0 && eqb_ℤ s.y at.1
      then s
      else record s { x = at.0; y = at.1; is_dirty = true }

  -- `sendClientInstruction`
  unfoldable pub send_client_instruction : ℤ → ℤ → ℕ → ℤ × ℤ → Mouse → Mouse
  send_client_instruction x y mask at s =
      let s' = send_mouse_buttons mask (send_mouse_movement x y s) in
      let s'' = update_position at (record s' { x = x; y = y; button_mask = mask }) in
      record s'' { is_dirty = false }

  -- The calls of a mouse, with the position that XQueryPointer gives in each.
  pub data MouseCall : Type 0 where
    instructs : ℤ → ℤ → ℕ → ℤ × ℤ → MouseCall
    looks : ℤ × ℤ → MouseCall
    cleans : MouseCall

  unfoldable pub mouse_call : MouseCall → Mouse → Mouse
  mouse_call (instructs x y mask at) s = send_client_instruction x y mask at s
  mouse_call (looks at) s = update_position at s
  mouse_call cleans s = record s { is_dirty = false }

  unfoldable pub mouse_calls : List MouseCall → Mouse → Mouse
  mouse_calls [] s = s
  mouse_calls (c ∷ cs) s = mouse_calls cs (mouse_call c s)
