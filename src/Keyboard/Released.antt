-- ===== src/Keyboard/Released.antt =====
-- The keys that are held when a key is up again.
use Prim.Native.Nat.{bit_and}
use webx_engine.Common.{
  ℕ, suc, ◌^◌, ◌-◌, ◌≡◌, refl, ◌≢◌, Bool, true, false, ◌&&◌, List, [], ◌∷◌, ◌++◌, append_assoc,
  append-nil, some, ◌==◌, if◌then◌else◌, arith,
}
use webx_engine.Keyboard.{
  KeySymDefinition, KeyEvent, KeyMap, keysym_num_lock, keysym_caps_lock, keysym_lshift,
  keysym_altgr, num_lock_key, has_flag, key_sym_definition, release_if, release_modifiers,
  unlock_if, release_locks, release_client_locks, handle_defined, handle_key_sym,
}
use webx_engine.Keyboard.Layout.{
  held_from, held_from-append, held, key_event, IsLayout, IsPlain, kb, key, plain_key, lock_events,
  sets_shift, sets_altgr, held-lock,
}

module _ (m : KeyMap) (l : IsLayout m) where
  release_events : ℕ → Bool → List KeyEvent
  release_events c true = key_event c false ∷ []
  release_events c false = []

  release_if-kb :
      (fuel k c : ℕ) (a : Bool) (locks : ℕ) (es : List KeyEvent)
      → IsPlain m k c
      → (k == keysym_caps_lock) ≡ false
      → release_if (key m l (suc fuel)) k a (kb m l locks es)
        ≡ some (kb m l locks (es ++ release_events c a))
  unfolding release_events
  release_if-kb fuel k c true locks es h n = plain_key m l fuel k c false locks es h n
  release_if-kb fuel k c false locks es h n = rw append-nil refl

  unlock_if-kb :
      (fuel : ℕ) (a : Bool) (locks : ℕ) (es : List KeyEvent)
      → unlock_if (key m l (suc fuel)) a (kb m l locks es)
        ≡ some (
            kb m l
              (if a then bit_and locks (2 ^ 32 - 1 - num_lock_key) else locks)
              (es ++ lock_events m l a))
  unfolding lock_events
  unlock_if-kb fuel true locks es =
      rw
        (
          plain_key m l fuel keysym_num_lock l.num_lock true locks es l.num_lock_plain refl,
          plain_key m l fuel keysym_num_lock l.num_lock false locks
              (es ++ key_event l.num_lock true ∷ []) l.num_lock_plain refl,
          append_assoc,
        )
        refl
  unlock_if-kb fuel false locks es = rw append-nil refl

  -- Whether the lock is switched back by a release.
  abbrev unlocks_now : Bool → KeySymDefinition → ℕ → Bool
  unlocks_now c d locks = c && (has_flag d.locks_to_set num_lock_key && has_flag locks num_lock_key)

  client_locks-kb :
      (fuel : ℕ) (c : Bool) (d : KeySymDefinition) (locks : ℕ) (es : List KeyEvent)
      → release_client_locks (key m l (suc fuel)) c d.locks_to_set (kb m l locks es)
        ≡ some (
            kb m l
              (if unlocks_now c d locks then bit_and locks (2 ^ 32 - 1 - num_lock_key) else locks)
              (es ++ lock_events m l (unlocks_now c d locks)))
  unfolding release_locks lock_events
  client_locks-kb fuel true d locks es = unlock_if-kb fuel (unlocks_now true d locks) locks es
  client_locks-kb fuel false d locks es = rw append-nil refl

  -- The events up to that of the key, and all of them.
  abbrev up_events : KeySymDefinition → List KeyEvent → List KeyEvent
  up_events d es = es ++ key_event d.keycode false ∷ []

  abbrev all_events : Bool → KeySymDefinition → ℕ → List KeyEvent → List KeyEvent
  all_events c d locks es =
      ((up_events d es ++ release_events l.lshift (sets_shift m l d))
        ++ release_events l.altgr (sets_altgr m l d))
      ++ lock_events m l (unlocks_now c d locks)

  release-lem :
      (fuel k : ℕ) (c : Bool) (d : KeySymDefinition) (locks : ℕ) (es : List KeyEvent)
      → key_sym_definition k m ≡ some d
      → (k == keysym_caps_lock) ≡ false
      → handle_key_sym (suc (suc fuel)) k false c (kb m l locks es)
        ≡ some (
            kb m l
              (if unlocks_now c d locks then bit_and locks (2 ^ 32 - 1 - num_lock_key) else locks)
              (all_events c d locks es))
  unfolding handle_key_sym handle_defined release_modifiers
  release-lem fuel k c d locks es h n =
      let up = up_events d es in
      let shift = up ++ release_events l.lshift (sets_shift m l d) in
      rw
        (
          h,
          n,
          release_if-kb fuel keysym_lshift l.lshift (sets_shift m l d) locks up l.lshift_plain refl,
          release_if-kb fuel keysym_altgr l.altgr (sets_altgr m l d) locks shift l.altgr_plain refl,
          client_locks-kb fuel c d locks (shift ++ release_events l.altgr (sets_altgr m l d)),
        )
        refl

  release-stays : (c : ℕ) (a : Bool) (x : ℕ) → held_from false x (release_events c a) ≡ false
  unfolding held_from release_events
  release-stays c true x = ground arith
  release-stays c false x = refl

  lock-stays : (a : Bool) (x : ℕ) → held_from false x (lock_events m l a) ≡ false
  unfolding held_from lock_events
  lock-stays true x = ground arith
  lock-stays false x = refl

  release-other :
      (b : Bool) (c : ℕ) (a : Bool) (x : ℕ) → x ≢ c → held_from b x (release_events c a) ≡ b
  unfolding held_from release_events
  release-other b c true x h = ground arith
  release-other b c false x h = refl

  held-all :
      (x : ℕ) (c : Bool) (d : KeySymDefinition) (locks : ℕ) (es : List KeyEvent)
      → held x (all_events c d locks es)
        ≡ held_from
            (held_from
              (held_from
                (held_from (held x es) x (key_event d.keycode false ∷ []))
                x
                (release_events l.lshift (sets_shift m l d)))
              x
              (release_events l.altgr (sets_altgr m l d)))
            x
            (lock_events m l (unlocks_now c d locks))
  held-all x c d locks es =
      rw
        (
          held_from-append false x _ (lock_events m l (unlocks_now c d locks)),
          held_from-append false x _ (release_events l.altgr (sets_altgr m l d)),
          held_from-append false x _ (release_events l.lshift (sets_shift m l d)),
          held_from-append false x es (key_event d.keycode false ∷ []),
        )
        refl

  up_one : (b : Bool) (x : ℕ) → held_from b x (key_event x false ∷ []) ≡ false
  unfolding held_from
  up_one b x = ground arith

  up_other : (b : Bool) (c x : ℕ) → x ≢ c → held_from b x (key_event c false ∷ []) ≡ b
  unfolding held_from
  up_other b c x h = ground arith

  release_one : (b : Bool) (x : ℕ) → held_from b x (release_events x true) ≡ false
  unfolding release_events
  release_one b x = up_one b x

  -- What is held when the key is up again.
  pub record IsReleased (d : KeySymDefinition) (es after : List KeyEvent) : Type 0 where
    pub key_up : held d.keycode after ≡ false
    pub shift_up : sets_shift m l d ≡ true → held l.lshift after ≡ false
    pub altgr_up : sets_altgr m l d ≡ true → held l.altgr after ≡ false
    pub others :
        (x : ℕ)
        → (x ≢ d.keycode) × (x ≢ l.lshift) × (x ≢ l.altgr) × (x ≢ l.num_lock)
        → held x after ≡ held x es

  all-IsReleased :
      (c : Bool) (d : KeySymDefinition) (locks : ℕ) (es : List KeyEvent)
      → IsReleased d es (all_events c d locks es)
  all-IsReleased c d locks es =
      let s = sets_shift m l d in
      let a = sets_altgr m l d in
      let k = unlocks_now c d locks in
      record {
        key_up =
            rw
              (
                held-all d.keycode c d locks es,
                up_one (held d.keycode es) d.keycode,
                release-stays l.lshift s d.keycode,
                release-stays l.altgr a d.keycode,
              )
              (lock-stays k d.keycode);
        shift_up = λ h.
            rw
              (
                held-all l.lshift c d locks es,
                h,
                release_one (held_from (held l.lshift es) l.lshift (key_event d.keycode false ∷ []))
                    l.lshift,
                release-stays l.altgr a l.lshift,
              )
              (lock-stays k l.lshift);
        altgr_up = λ h.
            rw (held-all l.altgr c d locks es, h, release_one _ l.altgr) (lock-stays k l.altgr);
        others = λ x (f, g, h, n).
            rw
              (
                held-all x c d locks es,
                up_other (held x es) d.keycode x f,
                release-other (held x es) l.lshift s x g,
                release-other (held x es) l.altgr a x h,
              )
              (held-lock m l (held x es) k x n);
      }

  -- In a layout that defines the modifiers and Num Lock as plain keys, apart from each other, a release of a keysym that the layout defines, other than Caps Lock. With a depth of
  -- two calls it returns; then the key is up, the left shift and AltGr are up if the definition sets them,
  -- and no key other than these and Num Lock is touched.
  pub release-IsReleased :
      (fuel k : ℕ) (c : Bool) (d : KeySymDefinition) (locks : ℕ) (es : List KeyEvent)
      → key_sym_definition k m ≡ some d
      → k ≢ keysym_caps_lock
      → (after : List KeyEvent) × (locks' : ℕ) × (handle_key_sym
            (suc (suc fuel))
            k
            false
            c
            (kb m l locks es)
          ≡ some (kb m l locks' after))
        × IsReleased d es after
  release-IsReleased fuel k c d locks es h n = (
    all_events c d locks es,
    if unlocks_now c d locks then bit_and locks (2 ^ 32 - 1 - num_lock_key) else locks,
    release-lem fuel k c d locks es h (ground (arith, n)),
    all-IsReleased c d locks es,
  )
