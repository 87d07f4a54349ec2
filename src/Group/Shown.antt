-- ===== src/Group/Shown.antt =====
-- What a group's windows are after `updateVisibleWindows`.
use webx_engine.Common.{
  ℕ, ◌≡◌, refl, sym, ◌∙◌, ap, subst, true, List, [], ◌∷◌, Option, none, some, map, ◌⊎◌, inl, inr,
  Bool-cases, ◌==◌, if◌then◌else◌, remove_if, arith,
}
use webx_engine.Common.Floats.{Floats}
use webx_engine.Quality.{Quality}
use webx_engine.Damage.{WindowDamage, no_damage}
use webx_engine.Handler.{QualitySettings}
use webx_engine.Handler.Covered.{
  IsCovered, coverage-calculate, set_window_coverage-IsCovered, new_handler_covered-IsCovered,
}
use webx_engine.Window.{ClientWindow, Visibility, new_window, update_visible, update_quality}
use webx_engine.Group.{Group}
use webx_engine.Group.Windows.{is_gone, show_window, show_windows, update_visible_windows}

module _ (fl : Floats) where
  -- The window with an identifier, the damage of it, and the last visibility of it.
  unfoldable pub window_with : ℕ → List (ClientWindow fl) → Option (ClientWindow fl)
  window_with i [] = none
  window_with i (w ∷ ws) = if w.id == i then some w else window_with i ws

  abbrev pub damage_or_none : ℕ → Option (ClientWindow fl) → WindowDamage
  damage_or_none i none = no_damage i
  damage_or_none i (some w) = w.damage

  abbrev pub or_else : {A : Type 0} → Option A → Option A → Option A
  or_else none o = o
  or_else (some a) o = some a

  pub last_of : ℕ → List (Visibility fl) → Option (Visibility fl)
  last_of i [] = none
  last_of i (v ∷ vs) = or_else (last_of i vs) (if v.x11_window == i then some v else none)

  -- The window shows the visibility.
  pub record IsShown (damage : WindowDamage) (v : Visibility fl) (w : ClientWindow fl)
      : Type 0 where
    pub same_id : w.id ≡ v.x11_window
    pub same_size : w.window_size ≡ v.rectangle.size
    pub same_shape : w.shape_mask_checksum ≡ v.shape_mask_checksum
    pub same_damage : w.damage ≡ damage
    pub covered : IsCovered fl v.coverage w.quality_handler

  window_with-kept :
      (i : ℕ) (vs : List (Visibility fl)) (ws : List (ClientWindow fl))
      → window_with i (remove_if (λ w. is_gone fl w.id vs) ws)
        ≡ (if is_gone fl i vs then none else window_with i ws)
  unfolding window_with remove_if
  window_with-kept i vs [] = ground arith
  window_with-kept i vs (w ∷ ws) = elim (Bool-cases (is_gone fl w.id vs)) [
    | inl e ↦ ground (arith, window_with-kept i vs ws)
    | inr e ↦ ground (arith, window_with-kept i vs ws)
  ]

  module _ (settings : QualitySettings) (now : ℕ) (q : Quality) where
    abbrev shown : Visibility fl → Option (ClientWindow fl) → ClientWindow fl
    shown v none = new_window fl settings now q v
    shown v (some w) = update_visible fl settings now v w

    window_with-show :
        (i : ℕ) (v : Visibility fl) (ws : List (ClientWindow fl))
        → window_with i (show_window fl settings now q v ws)
          ≡ (if v.x11_window == i then some (shown v (window_with i ws)) else window_with i ws)
    unfolding window_with show_window new_window update_visible
    window_with-show i v [] = ground arith
    window_with-show i v (w ∷ ws) = ground (arith, window_with-show i v ws)

    abbrev shown_if : ℕ → Visibility fl → Option (ClientWindow fl) → Option (ClientWindow fl)
    shown_if i v o = if v.x11_window == i then some (shown v o) else o

    -- What the visibilities make of the window with an identifier.
    shown_by : ℕ → List (Visibility fl) → Option (ClientWindow fl) → Option (ClientWindow fl)
    shown_by i [] o = o
    shown_by i (v ∷ vs) o = shown_by i vs (shown_if i v o)

    window_with-show_all :
        (i : ℕ) (vs : List (Visibility fl)) (ws : List (ClientWindow fl))
        → window_with i (show_windows fl settings now q vs ws) ≡ shown_by i vs (window_with i ws)
    unfolding show_windows shown_by
    window_with-show_all i [] ws = refl
    window_with-show_all i (v ∷ vs) ws =
        window_with-show_all i vs (show_window fl settings now q v ws)
        ∙ ap (shown_by i vs) (window_with-show i v ws)

    window_with-update :
        (i : ℕ) (ws : List (ClientWindow fl))
        → window_with i (map (update_quality fl settings now) ws) ≡ elim (window_with i ws) [
          | none ↦ none
          | some w ↦ some (update_quality fl settings now w)
        ]
    unfolding window_with update_quality
    window_with-update i [] = refl
    window_with-update i (w ∷ ws) = ground (arith, window_with-update i ws)

    shown-IsShown :
        (i : ℕ) (v : Visibility fl) (o : Option (ClientWindow fl))
        → v.x11_window ≡ i
        → ((w : ClientWindow fl) → o ≡ some w → w.id ≡ i)
        → IsShown (damage_or_none i o) v (shown v o)
    unfolding new_window update_visible
    shown-IsShown i v none e k = record {
      same_id = refl;
      same_size = refl;
      same_shape = refl;
      same_damage = ap no_damage e;
      covered = new_handler_covered-IsCovered fl settings now q v.coverage;
    }
    shown-IsShown i v (some w) e k = record {
      same_id = k w refl ∙ sym e;
      same_size = refl;
      same_shape = refl;
      same_damage = refl;
      covered = set_window_coverage-IsCovered fl settings now v.coverage w.quality_handler;
    }

    -- A window that stays shows what it showed after the recalculation of its quality.
    update-IsShown :
        (d : WindowDamage) (v : Visibility fl) (w : ClientWindow fl)
        → IsShown d v w
        → IsShown d v (update_quality fl settings now w)
    unfolding update_quality
    update-IsShown d v w s = ground (arith, coverage-calculate fl settings now w.quality_handler)

    last_of-gone :
        (i : ℕ) (vs : List (Visibility fl)) → is_gone fl i vs ≡ true → last_of i vs ≡ none
    unfolding last_of is_gone
    last_of-gone i [] h = refl
    last_of-gone i (v ∷ vs) h = elim (Bool-cases (v.x11_window == i)) [
      | inl e ↦ absurd (ground arith)
      | inr e ↦ rw (e, last_of-gone i vs (ground arith)) refl
    ]

    -- Either no visibility has the identifier, or the window shows the last that has it.
    abbrev Outcome :
        ℕ
        → List (Visibility fl)
        → WindowDamage
        → Option (ClientWindow fl)
        → Option (ClientWindow fl)
        → Type 0
    Outcome i vs d o after =
        ((is_gone fl i vs ≡ true) × (after ≡ o))
        ⊎ ((v : Visibility fl) × (last_of i vs ≡ some v)
            × (w : ClientWindow fl) × (after ≡ some w)
            × IsShown d v w)

    shown_by-lem :
        (i : ℕ) (vs : List (Visibility fl)) (o : Option (ClientWindow fl))
        → ((w : ClientWindow fl) → o ≡ some w → w.id ≡ i)
        → Outcome i vs (damage_or_none i o) o (shown_by i vs o)
    unfolding shown_by is_gone last_of
    shown_by-lem i [] o k = inl (refl, refl)
    shown_by-lem i (v ∷ vs) o k = elim (Bool-cases (v.x11_window == i)) [
      | inl e ↦
          let s = shown-IsShown i v o (ground arith) k in
          rw (e, ← s.same_damage)
            (elim (shown_by-lem i vs (some (shown v o)) (λ w h. ground (arith, s.same_id))) [
              | inl (a, b) ↦ inr (
                v,
                rw (last_of-gone i vs a) refl,
                shown v o,
                b,
                subst (λ d. IsShown d v (shown v o)) (sym s.same_damage) s,
              )
              | inr (u, l, w, b, s') ↦ inr (u, rw l refl, w, b, s')
            ])
      | inr e ↦ rw e (elim (shown_by-lem i vs o k) [
        | inl (a, b) ↦ inl (a, b)
        | inr (u, l, w, b, s') ↦ inr (u, rw l refl, w, b, s')
      ])
    ]

    id-of_window_with :
        (i : ℕ) (ws : List (ClientWindow fl)) (w : ClientWindow fl)
        → window_with i ws ≡ some w
        → w.id ≡ i
    unfolding window_with
    id-of_window_with i [] w h = absurd (ground arith)
    id-of_window_with i (x ∷ ws) w h = ground (arith, id-of_window_with i ws w)

  -- For any identifier after `updateVisibleWindows` of a group: either no visibility has it, and no
  -- window has; or a window with it has the size and the shape of the last visibility that has it, a
  -- coverage that is that visibility's or compares equal, and the damage that the window had before, or
  -- none if there was no window.
  pub update_visible_windows-IsShown :
      (settings : QualitySettings) (now : ℕ) (vs : List (Visibility fl)) (g : Group fl) (i : ℕ)
      → let after = window_with i (update_visible_windows fl settings now vs g).windows in
        ((last_of i vs ≡ none) × (after ≡ none))
        ⊎ ((v : Visibility fl) × (last_of i vs ≡ some v)
            × (w : ClientWindow fl) × (after ≡ some w)
            × IsShown (damage_or_none i (window_with i g.windows)) v w)
  unfolding update_visible_windows
  update_visible_windows-IsShown settings now vs g i =
      let kept = remove_if (λ w. is_gone fl w.id vs) g.windows in
      let e =
        window_with-update settings now g.quality i
          (show_windows fl settings now g.quality vs kept) in
      let o = window_with i g.windows in
      elim (Bool-cases (is_gone fl i vs)) [
        | inl z ↦
            elim (shown_by-lem settings now g.quality i vs none (λ w h. absurd (ground arith))) [
              | inl (a, b) ↦ inl (
                last_of-gone settings now g.quality i vs a,
                rw
                    (
                      e,
                      window_with-show_all settings now g.quality i vs kept,
                      window_with-kept i vs g.windows,
                      z,
                      b,
                    )
                    refl,
              )
              | inr (v, l, w, b, s) ↦
                  absurd (ground (arith, last_of-gone settings now g.quality i vs z))
            ]
        | inr z ↦
            elim (shown_by-lem settings now g.quality i vs o
              (id-of_window_with settings now g.quality i g.windows)) [
                | inl (a, b) ↦ absurd (ground arith)
                | inr (v, l, w, b, s) ↦ inr (
                  v,
                  l,
                  update_quality fl settings now w,
                  rw
                      (
                        e,
                        window_with-show_all settings now g.quality i vs kept,
                        window_with-kept i vs g.windows,
                        z,
                        b,
                      )
                      refl,
                  update-IsShown settings now g.quality (damage_or_none i o) v w s,
                )
              ]
      ]
