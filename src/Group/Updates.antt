-- ===== src/Group/Updates.antt =====
-- What `handleWindowGraphicalUpdates` does to the windows of a group.
use webx_engine.Common.{
  ℕ, ◌≡◌, refl, sym, ap, true, false, List, [], ◌∷◌, ◌++◌, append_assoc, Option, none, some, ◌⊎◌,
  inl, inr, Bool-cases, ◌==◌, if◌then◌else◌, arith,
}
use webx_engine.Common.Floats.{Floats}
use webx_engine.Message.{Message}
use webx_engine.Damage.{has_damage, reset}
use webx_engine.Transfer.{TransferData, full_window, sub_window, ignored}
use webx_engine.Handler.{QualitySettings}
use webx_engine.Window.{
  ClientWindow, window_has_damage, shape_requires_update, reset_damage, reset_shape_mask_checksum,
  on_window_transfer, on_transferred,
}
use webx_engine.Group.{Group}
use webx_engine.Group.Windows.{
  UpdateHandler, is_due, handled, after_result, handle_windows, add_size, handle_graphical_updates,
  calculate_group_mbps,
}
use webx_engine.Group.Shown.{window_with}

module _ (fl : Floats) where
  -- Nothing of the window is left to send.
  abbrev pub IsSettled : ClientWindow fl → Type 0
  IsSettled w = (window_has_damage fl w ≡ false) × (shape_requires_update fl w ≡ false)

  module _ (settings : QualitySettings) (now : ℕ) (handler : UpdateHandler fl) (mask : ℕ) where
    handled-IsSettled : (w : ClientWindow fl) → IsSettled (handled fl settings now handler mask w)
    unfolding handled reset_damage reset_shape_mask_checksum has_damage reset
    handled-IsSettled w = (refl, ground arith)

    id-after_result :
        (o : Option (TransferData fl)) (w : ClientWindow fl)
        → (after_result fl settings now o w).id ≡ w.id
    unfolding on_window_transfer
    id-after_result none w = refl
    id-after_result (some t) w = elim (t.status) as (λ s. (on_transferred fl s t w).id ≡ w.id) [
      | full_window ↦ refl
      | sub_window ↦ refl
      | ignored ↦ refl
    ]

    id-handled : (w : ClientWindow fl) → (handled fl settings now handler mask w).id ≡ w.id
    unfolding handled reset_damage reset_shape_mask_checksum
    id-handled w = id-after_result (handler w mask).1 w

    -- The messages that the handler sends of the windows that are due, in their order.
    pub sent_for : List (ClientWindow fl) → List Message
    sent_for [] = []
    sent_for (w ∷ ws) = if is_due fl now w then (handler w mask).0 ++ sent_for ws else sent_for ws

    messages-handle :
        (ws : List (ClientWindow fl)) (total : fl.Float)
        → (handle_windows fl settings now handler mask total ws).1 ≡ sent_for ws
    unfolding handle_windows sent_for
    messages-handle [] total = refl
    messages-handle (w ∷ ws) total = elim (Bool-cases (is_due fl now w)) [
      | inl e ↦ rw e (ap (◌++◌ (handler w mask).0) (messages-handle ws _))
      | inr e ↦ rw e (messages-handle ws _)
    ]

    -- The window was due, has nothing left to send and its messages are among those sent; or it was not
    -- due and is as it was.
    abbrev pub IsUpdated : ClientWindow fl → ClientWindow fl → List Message → Type 0
    IsUpdated w w' sent =
        ((is_due fl now w ≡ true)
          × IsSettled w'
          × (before after : List Message) × (sent ≡ before ++ ((handler w mask).0 ++ after)))
        ⊎ ((is_due fl now w ≡ false) × (w' ≡ w))

    later-IsUpdated :
        (w w' : ClientWindow fl) (more sent : List Message)
        → IsUpdated w w' sent
        → IsUpdated w w' (more ++ sent)
    later-IsUpdated w w' more sent (inl (d, s, before, after, e)) = inl (
      d,
      s,
      more ++ before,
      after,
      rw e (sym (append_assoc more before ((handler w mask).0 ++ after))),
    )
    later-IsUpdated w w' more sent (inr (d, e)) = inr (d, e)

    window-IsUpdated :
        (i : ℕ) (w : ClientWindow fl) (ws : List (ClientWindow fl)) (total : fl.Float)
        → window_with fl i ws ≡ some w
        → (w' : ClientWindow fl) × (window_with fl i
              (handle_windows fl settings now handler mask total ws).0
            ≡ some w')
          × IsUpdated w w' (sent_for ws)
    unfolding window_with handle_windows sent_for
    window-IsUpdated i w [] total h = absurd (ground arith)
    window-IsUpdated i w (x ∷ ws) total h = elim (Bool-cases (x.id == i)) [
      | inl e ↦
          let s : x ≡ w = ground arith in
          elim (Bool-cases (is_due fl now x)) [
            | inl d ↦ (
              handled fl settings now handler mask x,
              rw (d, id-handled x, e) refl,
              rw (d, ← s) (inl (d, handled-IsSettled x, [], sent_for ws, refl)),
            )
            | inr d ↦ (x, rw (d, e) refl, rw (d, ← s) (inr (d, refl)))
          ]
      | inr e ↦ elim (Bool-cases (is_due fl now x)) [
        | inl d ↦
            let (w', f, u) =
              window-IsUpdated i w ws (add_size fl (handler x mask).1 total) (ground arith) in
            (
              w',
              rw (d, id-handled x, e) f,
              rw d (later-IsUpdated w w' (handler x mask).0 (sent_for ws) u),
            )
        | inr d ↦
            let (w', f, u) = window-IsUpdated i w ws total (ground arith) in
            (w', rw (d, e) f, rw d u)
      ]
    ]

  -- `handleWindowGraphicalUpdates` of a group, whatever the handler returns of any window. The messages
  -- sent are those of the handler, for the mask of the group, of each window that is due, once each and in
  -- the order of the windows; due is a window that has damage or a new shape and for which the time of its
  -- quality has passed since it was refreshed. A window that the group has, the first with its identifier,
  -- has neither damage nor a new shape after if it was due, and what the handler sends of it is among the
  -- messages; if it was not due it is as it was.
  pub handle_graphical_updates-IsUpdated :
      (settings : QualitySettings) (now : ℕ) (handler : UpdateHandler fl) (g : Group fl) (i : ℕ)
      (w : ClientWindow fl)
      → window_with fl i g.windows ≡ some w
      → let result = handle_graphical_updates fl settings now handler g in
        (result.1 ≡ sent_for settings now handler g.client_index_mask g.windows)
        × (w' : ClientWindow fl) × (window_with fl i result.0.windows ≡ some w')
        × IsUpdated settings now handler g.client_index_mask w w' result.1
  unfolding handle_graphical_updates calculate_group_mbps
  handle_graphical_updates-IsUpdated settings now handler g i w h =
      let total = fl.of_ℕ 0 in
      let mask = g.client_index_mask in
      let (w', f, u) = window-IsUpdated settings now handler mask i w g.windows total h in
      rw (messages-handle settings now handler mask g.windows total) (refl, w', f, u)
