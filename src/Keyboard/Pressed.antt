-- ===== src/Keyboard/Pressed.antt =====
-- The keys that are held when a key goes down.
use Prim.Native.Nat.{bit_or}
use webx_engine.Common.{
  ℕ, suc, ◌≡◌, refl, ◌≢◌, ◌∙◌, Bool, true, false, ◌&&◌, not, List, [], ◌∷◌, ◌++◌, some, ◌==◌,
  if◌then◌else◌, arith,
}
use webx_engine.Keyboard.{
  KeySymDefinition, KeyEvent, KeyMap, keysym_caps_lock, num_lock_key, has_flag, key_sym_definition,
  update_modifiers, update_locks, handle_defined, handle_key_sym,
}
use webx_engine.Keyboard.Layout.{
  held_from, held_from-append, held, key_event, IsLayout, kb, shift_events, altgr_events,
  lock_events, update_shift-kb, update_altgr-kb, lock_if-kb, held-lock, held-altgr, held-shift,
  sets_shift, clears_shift, sets_altgr, clears_altgr,
}

module _ (m : KeyMap) (l : IsLayout m) where
  -- Whether the lock is switched by a press.
  abbrev locks_now : KeySymDefinition → ℕ → Bool
  locks_now d locks = has_flag d.locks_to_set num_lock_key && not (has_flag locks num_lock_key)

  -- The events before the key goes down.
  abbrev prior_events : KeySymDefinition → ℕ → List KeyEvent → List KeyEvent
  prior_events d locks es =
      ((es ++ shift_events m l (sets_shift m l d) (clears_shift m l d))
        ++ altgr_events m l (sets_altgr m l d) (clears_altgr m l d))
      ++ lock_events m l (locks_now d locks)

  press-lem :
      (fuel k : ℕ) (c : Bool) (d : KeySymDefinition) (locks : ℕ) (es : List KeyEvent)
      → key_sym_definition k m ≡ some d
      → (k == keysym_caps_lock) ≡ false
      → handle_key_sym (suc (suc fuel)) k true c (kb m l locks es)
        ≡ some (
            kb m l
              (if locks_now d locks then bit_or locks num_lock_key else locks)
              (prior_events d locks es ++ key_event d.keycode true ∷ []))
  unfolding handle_key_sym handle_defined update_modifiers update_locks
  press-lem fuel k c d locks es h n =
      rw
        (
          h,
          n,
          update_shift-kb m l fuel (sets_shift m l d) (clears_shift m l d) locks es,
          update_altgr-kb m l fuel (sets_altgr m l d) (clears_altgr m l d) locks
              (es ++ shift_events m l (sets_shift m l d) (clears_shift m l d)),
          lock_if-kb m l fuel (locks_now d locks) locks (
              (es ++ shift_events m l (sets_shift m l d) (clears_shift m l d))
              ++ altgr_events m l (sets_altgr m l d) (clears_altgr m l d)),
        )
        refl

  held-prior :
      (x : ℕ) (d : KeySymDefinition) (locks : ℕ) (es : List KeyEvent)
      → held x (prior_events d locks es)
        ≡ held_from
            (held_from
              (held_from (held x es) x (shift_events m l (sets_shift m l d) (clears_shift m l d)))
              x
              (altgr_events m l (sets_altgr m l d) (clears_altgr m l d)))
            x
            (lock_events m l (locks_now d locks))
  held-prior x d locks es =
      rw
        (
          held_from-append false x _ (lock_events m l (locks_now d locks)),
          held_from-append false x _ (altgr_events m l (sets_altgr m l d) (clears_altgr m l d)),
          held_from-append false x es (shift_events m l (sets_shift m l d) (clears_shift m l d)),
        )
        refl

  -- What is held when the key goes down.
  pub record IsReady (d : KeySymDefinition) (es prior : List KeyEvent) : Type 0 where
    pub shift_set : sets_shift m l d ≡ true → held l.lshift prior ≡ true
    pub shift_clear :
        sets_shift m l d ≡ false
        → clears_shift m l d ≡ true
        → (held l.lshift prior ≡ false) × (held l.rshift prior ≡ false)
    pub altgr_set : sets_altgr m l d ≡ true → held l.altgr prior ≡ true
    pub altgr_clear :
        sets_altgr m l d ≡ false
        → clears_altgr m l d ≡ true
        → (held l.altgr prior ≡ false) × (held l.lalt prior ≡ false) × (held l.ralt prior ≡ false)
    pub others :
        (x : ℕ)
        → (x ≢ l.lshift)
          × (x ≢ l.rshift)
          × (x ≢ l.altgr)
          × (x ≢ l.lalt)
          × (x ≢ l.ralt)
          × (x ≢ l.num_lock)
        → held x prior ≡ held x es

  shift-after :
      (x : ℕ) (d : KeySymDefinition) (locks : ℕ) (es : List KeyEvent)
      → (x ≢ l.altgr) × (x ≢ l.lalt) × (x ≢ l.ralt) × (x ≢ l.num_lock)
      → held x (prior_events d locks es)
        ≡ held_from (held x es) x (shift_events m l (sets_shift m l d) (clears_shift m l d))
  shift-after x d locks es (f, g, h, k) =
      rw
        (
          held-prior x d locks es,
          held-lock m l _ (locks_now d locks) x k,
          held-altgr m l _ (sets_altgr m l d) (clears_altgr m l d) x f g h,
        )
        refl

  altgr-after :
      (x : ℕ) (d : KeySymDefinition) (locks : ℕ) (es : List KeyEvent)
      → (x ≢ l.lshift) × (x ≢ l.rshift) × (x ≢ l.num_lock)
      → held x (prior_events d locks es)
        ≡ held_from (held x es) x (altgr_events m l (sets_altgr m l d) (clears_altgr m l d))
  altgr-after x d locks es (f, g, k) =
      rw
        (
          held-prior x d locks es,
          held-lock m l _ (locks_now d locks) x k,
          held-shift m l _ (sets_shift m l d) (clears_shift m l d) x f g,
        )
        refl

  altgr_apart :
      ((l.altgr ≢ l.lshift) × (l.altgr ≢ l.rshift) × (l.altgr ≢ l.num_lock))
      × ((l.lalt ≢ l.lshift) × (l.lalt ≢ l.rshift) × (l.lalt ≢ l.num_lock))
      × ((l.ralt ≢ l.lshift) × (l.ralt ≢ l.rshift) × (l.ralt ≢ l.num_lock))
  altgr_apart = ground (arith, l.lshift_apart, l.rshift_apart, l.num_lock_apart)

  prior-IsReady :
      (d : KeySymDefinition) (locks : ℕ) (es : List KeyEvent)
      → IsReady d es (prior_events d locks es)
  unfolding held_from shift_events altgr_events
  prior-IsReady d locks es = record {
    shift_set = λ h. rw (shift-after l.lshift d locks es l.lshift_apart, h) (ground arith);
    shift_clear = λ h g. (
      rw (shift-after l.lshift d locks es l.lshift_apart, h, g) (ground (arith, l.shifts_apart)),
      rw (shift-after l.rshift d locks es l.rshift_apart, h, g) (ground arith),
    );
    altgr_set = λ h. rw (altgr-after l.altgr d locks es altgr_apart.0, h) (ground arith);
    altgr_clear = λ h g. (
      rw (altgr-after l.altgr d locks es altgr_apart.0, h, g) (ground (arith, l.alts_apart)),
      rw (altgr-after l.lalt d locks es altgr_apart.1, h, g) (ground arith),
      rw (altgr-after l.ralt d locks es altgr_apart.2, h, g) (ground arith),
    );
    others = λ x (f, g, h, k, n, o).
        shift-after x d locks es (h, k, n, o)
        ∙ held-shift m l (held x es) (sets_shift m l d) (clears_shift m l d) x f g;
  }

  -- In a layout that defines the modifiers and Num Lock as plain keys, apart from each other, a press of a
  -- keysym that the layout defines, other than Caps Lock. With a depth of two calls it returns; the key's
  -- own event is the last; before it, the left shift is down if the definition sets shift, and no shift
  -- if it clears it, in the same way AltGr and the Alt keys; and no key other than these and Num Lock is
  -- touched.
  pub press-IsReady :
      (fuel k : ℕ) (c : Bool) (d : KeySymDefinition) (locks : ℕ) (es : List KeyEvent)
      → key_sym_definition k m ≡ some d
      → k ≢ keysym_caps_lock
      → (prior : List KeyEvent) × (locks' : ℕ) × (handle_key_sym
            (suc (suc fuel))
            k
            true
            c
            (kb m l locks es)
          ≡ some (kb m l locks' (prior ++ key_event d.keycode true ∷ [])))
        × IsReady d es prior
  press-IsReady fuel k c d locks es h n = (
    prior_events d locks es,
    if locks_now d locks then bit_or locks num_lock_key else locks,
    press-lem fuel k c d locks es h (ground (arith, n)),
    prior-IsReady d locks es,
  )
