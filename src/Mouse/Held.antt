-- ===== src/Mouse/Held.antt =====
-- The buttons that X11 holds down after the events of a mouse.
use Prim.Native.Nat.{bit_xor}
use webx_engine.Common.{
  ℕ, ◌≡◌, refl, sym, subst, ap, ◌≢◌, ◌⊎◌, inl, inr, ◌∙◌, Bool, true, false, ◌&&◌, List, [], ◌∷◌,
  ◌++◌, ◌==◌, if◌then◌else◌, arith, All, Bool-cases,
}
use webx_engine.Common.Int.{ℤ, eqb_ℤ}
use webx_engine.Common.Bits.{bit, bit-zero}
use webx_engine.Common.Xor.{xor, bit-bit_xor, bit_and-pow}
use webx_engine.Mouse.{
  MouseEvent, warp, button_event, Mouse, new_mouse, has_button, changed_buttons, send_mouse_buttons,
  send_mouse_movement, update_position, send_client_instruction, MouseCall, instructs, looks,
  cleans, mouse_call, mouse_calls,
}

abbrev after_mouse_event : ℕ → MouseEvent → Bool → Bool
after_mouse_event b (warp x y) d = d
after_mouse_event b (button_event c p) d = if c == b then p else d

-- Whether a button is down after events, if it was at first as given.
pub is_down_from : Bool → ℕ → List MouseEvent → Bool
is_down_from d b [] = d
is_down_from d b (e ∷ es) = is_down_from (after_mouse_event b e d) b es

abbrev pub is_down : ℕ → List MouseEvent → Bool
is_down b es = is_down_from false b es

is_down_from-append :
    (d : Bool) (b : ℕ) (xs ys : List MouseEvent)
    → is_down_from d b (xs ++ ys) ≡ is_down_from (is_down_from d b xs) b ys
unfolding is_down_from
is_down_from-append d b [] ys = refl
is_down_from-append d b (x ∷ xs) ys = is_down_from-append (after_mouse_event b x d) b xs ys

-- A button of the list with the position of its bit.
unfoldable pub HasButton : ℕ → ℕ → List (ℕ × ℕ) → Type 0
HasButton b p [] = ⊥
HasButton b p ((c, q) ∷ bs) = ((b ≡ c) × (p ≡ q)) ⊎ HasButton b p bs

-- No button is in the list twice.
abbrev pub IsApart : List (ℕ × ℕ) → Type 0
IsApart [] = Unit
IsApart ((b, p) ∷ bs) = All (λ c. c.0 ≢ b) bs × IsApart bs

one_event :
    (d : Bool) (b : ℕ) (f : Bool) (e : MouseEvent) (es : List MouseEvent)
    → is_down_from d b (if f then e ∷ es else es)
      ≡ is_down_from (if f then after_mouse_event b e d else d) b es
unfolding is_down_from
one_event d b true e es = refl
one_event d b false e es = refl

nothing : (d : Bool) (b : ℕ) → is_down_from d b [] ≡ d
unfolding is_down_from
nothing d b = refl

warped : (b : ℕ) (es : List MouseEvent) (x y : ℤ) → is_down b (es ++ warp x y ∷ []) ≡ is_down b es
unfolding is_down_from
warped b es x y = rw (is_down_from-append false b es (warp x y ∷ [])) refl

module _ (buttons : List (ℕ × ℕ)) where
  changed-cons :
      (d : Bool) (b c q : ℕ) (bs : List (ℕ × ℕ)) (delta mask : ℕ)
      → is_down_from d b (changed_buttons buttons ((c, q) ∷ bs) delta mask)
        ≡ is_down_from
            (if bit delta q then (if c == b then bit mask q else d) else d)
            b
            (changed_buttons buttons bs delta mask)
  unfolding changed_buttons
  changed-cons d b c q bs delta mask =
      rw
        (
          one_event d b (has_button delta q) (button_event c (has_button mask q))
              (changed_buttons buttons bs delta mask),
          bit_and-pow delta q,
          bit_and-pow mask q,
        )
        refl

  if-same : (f : Bool) (d : Bool) → (if f then d else d) ≡ d
  if-same true d = refl
  if-same false d = refl

  changed-other :
      (d : Bool) (b : ℕ) (bs : List (ℕ × ℕ)) (delta mask : ℕ)
      → All (λ c. c.0 ≢ b) bs
      → is_down_from d b (changed_buttons buttons bs delta mask) ≡ d
  unfolding changed_buttons
  changed-other d b [] delta mask h = nothing d b
  changed-other d b ((c, q) ∷ bs) delta mask (n, h) =
      let f : (c == b) ≡ false = ground (arith, n) in
      rw (changed-cons d b c q bs delta mask, f, if-same (bit delta q) d)
        (changed-other d b bs delta mask h)

  apart_from :
      (b p : ℕ) (bs : List (ℕ × ℕ)) (c : ℕ) → HasButton b p bs → All (λ x. x.0 ≢ c) bs → c ≢ b
  unfolding HasButton
  apart_from b p [] c h a = absurd h
  apart_from b p ((e, q) ∷ bs) c (inl (f, g)) (n, a) = λ k. n (sym f ∙ sym k)
  apart_from b p ((e, q) ∷ bs) c (inr h) (n, a) = apart_from b p bs c h a

  changed-down :
      (d : Bool) (b p : ℕ) (bs : List (ℕ × ℕ)) (delta mask : ℕ)
      → IsApart bs
      → HasButton b p bs
      → is_down_from d b (changed_buttons buttons bs delta mask)
        ≡ (if bit delta p then bit mask p else d)
  unfolding HasButton
  changed-down d b p [] delta mask a h = absurd h
  changed-down d b p ((c, q) ∷ bs) delta mask (n, a) (inl (f, g)) =
      let k : (c == b) ≡ true = ground (arith, f) in
      let n' : All (λ x. x.0 ≢ b) bs = subst (λ x. All (λ y. y.0 ≢ x) bs) (sym f) n in
      rw (changed-cons d b c q bs delta mask, k, sym g)
        (changed-other (if bit delta p then bit mask p else d) b bs delta mask n')
  changed-down d b p ((c, q) ∷ bs) delta mask (n, a) (inr h) =
      let k : (c == b) ≡ false = ground (arith, apart_from b p bs c h n) in
      rw (changed-cons d b c q bs delta mask, k, if-same (bit delta q) d)
        (changed-down d b p bs delta mask a h)

  -- A button is down exactly if its bit is in the mask of the state.
  abbrev pub IsInStep : Mouse → Type 0
  IsInStep s = (b p : ℕ) → HasButton b p buttons → is_down b s.events ≡ bit s.button_mask p

  movement-same :
      (x y : ℤ) (s : Mouse) (b : ℕ)
      → (is_down b (send_mouse_movement buttons x y s).events ≡ is_down b s.events)
        × ((send_mouse_movement buttons x y s).button_mask ≡ s.button_mask)
  unfolding send_mouse_movement
  movement-same x y s b = elim (Bool-cases (eqb_ℤ x s.x && eqb_ℤ y s.y)) [
    | inl e ↦ rw e (refl, refl)
    | inr e ↦ rw e (warped b s.events x y, refl)
  ]

  position-same :
      (at : ℤ × ℤ) (s : Mouse)
      → ((update_position buttons at s).events ≡ s.events)
        × ((update_position buttons at s).button_mask ≡ s.button_mask)
  unfolding update_position
  position-same at s = elim (Bool-cases (eqb_ℤ s.x at.0 && eqb_ℤ s.y at.1)) [
    | inl e ↦ rw e (refl, refl)
    | inr e ↦ rw e (refl, refl)
  ]

  xor-if : (a b : Bool) → (if xor a b then b else a) ≡ b
  xor-if true true = refl
  xor-if true false = refl
  xor-if false true = refl
  xor-if false false = refl

  buttons-down :
      (mask : ℕ) (s : Mouse) (b p : ℕ)
      → IsApart buttons
      → HasButton b p buttons
      → is_down b s.events ≡ bit s.button_mask p
      → is_down b (send_mouse_buttons buttons mask s).events ≡ bit mask p
  unfolding send_mouse_buttons
  buttons-down mask s b p a h e =
      rw
        (
          is_down_from-append false b s.events
              (changed_buttons buttons buttons (bit_xor s.button_mask mask) mask),
          e,
          changed-down (bit s.button_mask p) b p buttons (bit_xor s.button_mask mask) mask a h,
          bit-bit_xor s.button_mask mask p,
        )
        (xor-if (bit s.button_mask p) (bit mask p))

  instruction-IsInStep :
      (x y : ℤ) (mask : ℕ) (at : ℤ × ℤ) (s : Mouse)
      → IsApart buttons
      → IsInStep s
      → IsInStep (send_client_instruction buttons x y mask at s)
        × ((send_client_instruction buttons x y mask at s).button_mask ≡ mask)
  unfolding send_client_instruction
  instruction-IsInStep x y mask at s a h =
      let moved = send_mouse_movement buttons x y s in
      let s' = send_mouse_buttons buttons mask moved in
      let (e, k) = position-same at (record s' { x = x; y = y; button_mask = mask }) in
      (
        λ b p m.
            let (f, g) = movement-same x y s b in
            let before : is_down b moved.events ≡ bit moved.button_mask p =
              f ∙ (h b p m ∙ ap (λ n. bit n p) (sym g)) in
            rw (e, k) (buttons-down mask moved b p a m before),
        k,
      )

  call-IsInStep :
      (c : MouseCall buttons) (s : Mouse)
      → IsApart buttons
      → IsInStep s
      → IsInStep (mouse_call buttons c s)
  unfolding mouse_call
  call-IsInStep (instructs x y mask at) s a h = (instruction-IsInStep x y mask at s a h).0
  call-IsInStep (looks at) s a h = let (e, k) = position-same at s in rw (e, k) h
  call-IsInStep cleans s a h = h

  -- The mask of the last instruction.
  pub last_mask : ℕ → List (MouseCall buttons) → ℕ
  last_mask n [] = n
  last_mask n (instructs x y mask at ∷ cs) = last_mask mask cs
  last_mask n (looks at ∷ cs) = last_mask n cs
  last_mask n (cleans ∷ cs) = last_mask n cs

  calls-down :
      (cs : List (MouseCall buttons)) (s : Mouse)
      → IsApart buttons
      → IsInStep s
      → (b p : ℕ) → HasButton b p buttons
      → is_down b (mouse_calls buttons cs s).events ≡ bit (last_mask s.button_mask cs) p
  unfolding mouse_calls last_mask mouse_call
  calls-down [] s a h b p m = h b p m
  calls-down (instructs x y mask at ∷ cs) s a h b p m =
      let (k, e) = instruction-IsInStep x y mask at s a h in
      calls-down cs (send_client_instruction buttons x y mask at s) a k b p m
      ∙ ap (λ n. bit (last_mask n cs) p) e
  calls-down (looks at ∷ cs) s a h b p m =
      let (_, e) = position-same at s in
      calls-down cs (update_position buttons at s) a (call-IsInStep (looks at) s a h) b p m
      ∙ ap (λ n. bit (last_mask n cs) p) e
  calls-down (cleans ∷ cs) s a h b p m = calls-down cs (record s { is_dirty = false }) a h b p m

  -- If no button is in the list twice: after any instructions, looks at the position and resets of the
  -- flag on a new mouse, X11 holds a button of the list down exactly if its bit is in the mask of the last
  -- instruction, and no button if there was none.
  pub mouse_calls-is_down :
      (cs : List (MouseCall buttons)) (b p : ℕ)
      → IsApart buttons
      → HasButton b p buttons
      → is_down b (mouse_calls buttons cs new_mouse).events ≡ bit (last_mask 0 cs) p
  unfolding is_down_from
  mouse_calls-is_down cs b p a m = calls-down cs new_mouse a (λ c q n. sym (bit-zero q)) b p m
