-- ===== src/Mouse/Tests.antt =====
-- Instructions of a mouse with the buttons of X11.
use webx_engine.Common.{ℕ, ◌≡◌, refl, true, false, List, [], ◌∷◌, arith, inl}
use webx_engine.Common.Int.{pos}
use webx_engine.Common.Bits.{bit}
use webx_engine.Mouse.{
  warp, button_event, new_mouse, MouseCall, instructs, looks, cleans, mouse_calls, mouse_call,
  send_client_instruction, send_mouse_buttons, send_mouse_movement, changed_buttons,
  update_position,
}
use webx_engine.Mouse.Held.{is_down, HasButton, last_mask, mouse_calls-is_down}

-- `Button1` to `Button5`, whose masks are the bits from 8.
abbrev x11_buttons : List (ℕ × ℕ)
x11_buttons = (1, 8) ∷ (2, 9) ∷ (3, 10) ∷ (4, 11) ∷ (5, 12) ∷ []

-- The left button goes down, the mouse is moved by another application, and the right one goes down as the
-- left one goes up.
abbrev calls_of_test : List (MouseCall x11_buttons)
calls_of_test =
    instructs (pos 3) (pos 4) 256 (pos 3, pos 4)
    ∷ looks (pos 9, pos 4)
    ∷ cleans
    ∷ instructs (pos 9) (pos 4) 1024 (pos 9, pos 4)
    ∷ []

events_of_test :
    (mouse_calls x11_buttons calls_of_test new_mouse).events
    ≡ warp (pos 3) (pos 4) ∷ button_event 1 true ∷ button_event 1 false ∷ button_event 3 true ∷ []
unfolding mouse_calls mouse_call send_client_instruction send_mouse_buttons send_mouse_movement
    changed_buttons update_position
events_of_test = refl

left_button : HasButton 1 8 x11_buttons
unfolding HasButton
left_button = inl (refl, refl)

mouse_calls-is_down_example :
    is_down 1 (mouse_calls x11_buttons calls_of_test new_mouse).events
    ≡ bit (last_mask x11_buttons 0 calls_of_test) 8
mouse_calls-is_down_example =
    mouse_calls-is_down x11_buttons calls_of_test 1 8 (omega arith) left_button
