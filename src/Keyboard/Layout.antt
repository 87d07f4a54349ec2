-- ===== src/Keyboard/Layout.antt =====
-- The keys of the modifiers and of Num Lock, and what their events do to the keys that are held.
use Prim.Native.Nat.{bit_or}
use webx_engine.Common.{
  ℕ, suc, ◌≡◌, refl, ◌≢◌, Bool, true, false, List, [], ◌∷◌, ◌++◌, append_assoc, append-nil, some,
  ◌==◌, if◌then◌else◌, arith,
}
use webx_engine.Keyboard.{
  KeySymDefinition, KeyEvent, KeyMap, Keyboard, KeyCall, keysym_num_lock, keysym_caps_lock,
  keysym_lshift, keysym_rshift, keysym_lalt, keysym_ralt, keysym_altgr, shift_modifier_key,
  altgr_modifier_key, num_lock_key, has_flag, key_sym_definition, update_shift, update_altgr,
  update_modifiers, release_modifiers, lock_if, update_locks, handle_defined, handle_key_sym,
}

-- Whether a key is down after events, if it was at first as given.
unfoldable pub held_from : Bool → ℕ → List KeyEvent → Bool
held_from b c [] = b
held_from b c (e ∷ es) = held_from (if e.keycode == c then e.pressed else b) c es

abbrev pub held : ℕ → List KeyEvent → Bool
held c es = held_from false c es

pub held_from-append :
    (b : Bool) (c : ℕ) (xs ys : List KeyEvent)
    → held_from b c (xs ++ ys) ≡ held_from (held_from b c xs) c ys
unfolding held_from
held_from-append b c [] ys = refl
held_from-append b c (x ∷ xs) ys =
    held_from-append (if x.keycode == c then x.pressed else b) c xs ys

abbrev pub key_event : ℕ → Bool → KeyEvent
key_event c p = record { keycode = c; pressed = p }

-- A key that sets and clears no modifier and no lock.
abbrev pub IsPlain : KeyMap → ℕ → ℕ → Type 0
IsPlain m k c =
    key_sym_definition k m
    ≡ some (record {
      keysym = k;
      keycode = c;
      modifiers_to_set = 0;
      modifiers_to_clear = 0;
      locks_to_set = 0;
    })

-- The keys of the modifiers and of the lock, as every map has them.
pub record IsLayout (m : KeyMap) : Type 0 where
  pub lshift : ℕ
  pub rshift : ℕ
  pub altgr : ℕ
  pub lalt : ℕ
  pub ralt : ℕ
  pub num_lock : ℕ
  pub lshift_plain : IsPlain m keysym_lshift lshift
  pub rshift_plain : IsPlain m keysym_rshift rshift
  pub altgr_plain : IsPlain m keysym_altgr altgr
  pub lalt_plain : IsPlain m keysym_lalt lalt
  pub ralt_plain : IsPlain m keysym_ralt ralt
  pub num_lock_plain : IsPlain m keysym_num_lock num_lock
  pub shifts_apart : lshift ≢ rshift
  pub lshift_apart : (lshift ≢ altgr) × (lshift ≢ lalt) × (lshift ≢ ralt) × (lshift ≢ num_lock)
  pub rshift_apart : (rshift ≢ altgr) × (rshift ≢ lalt) × (rshift ≢ ralt) × (rshift ≢ num_lock)
  pub alts_apart : (altgr ≢ lalt) × (altgr ≢ ralt)
  pub num_lock_apart : (num_lock ≢ altgr) × (num_lock ≢ lalt) × (num_lock ≢ ralt)

module _ (m : KeyMap) (l : IsLayout m) where
  abbrev pub kb : ℕ → List KeyEvent → Keyboard
  kb locks es = record { keyboard_mapping = some m; locks_set = locks; events = es }

  abbrev pub key : ℕ → KeyCall
  key fuel k p = handle_key_sym fuel k p false

  pub plain_key :
      (fuel k c : ℕ) (p : Bool) (locks : ℕ) (es : List KeyEvent)
      → IsPlain m k c
      → (k == keysym_caps_lock) ≡ false
      → handle_key_sym (suc fuel) k p false (kb locks es)
        ≡ some (kb locks (es ++ key_event c p ∷ []))
  unfolding handle_key_sym handle_defined update_modifiers release_modifiers update_locks has_flag
  plain_key fuel k c true locks es h n = rw (h, n) refl
  plain_key fuel k c false locks es h n = rw (h, n) refl

  unfoldable pub shift_events : (sets clears : Bool) → List KeyEvent
  shift_events true clears = key_event l.lshift true ∷ []
  shift_events false true = key_event l.lshift false ∷ key_event l.rshift false ∷ []
  shift_events false false = []

  unfoldable pub altgr_events : (sets clears : Bool) → List KeyEvent
  altgr_events true clears = key_event l.altgr true ∷ []
  altgr_events false true =
      key_event l.altgr false ∷ key_event l.lalt false ∷ key_event l.ralt false ∷ []
  altgr_events false false = []

  unfoldable pub lock_events : Bool → List KeyEvent
  lock_events true = key_event l.num_lock true ∷ key_event l.num_lock false ∷ []
  lock_events false = []

  pub update_shift-kb :
      (fuel : ℕ) (a b : Bool) (locks : ℕ) (es : List KeyEvent)
      → update_shift (key (suc fuel)) a b (kb locks es) ≡ some (kb locks (es ++ shift_events a b))
  unfolding shift_events
  update_shift-kb fuel true b locks es =
      plain_key fuel keysym_lshift l.lshift true locks es l.lshift_plain refl
  update_shift-kb fuel false true locks es =
      rw
        (
          plain_key fuel keysym_lshift l.lshift false locks es l.lshift_plain refl,
          plain_key fuel keysym_rshift l.rshift false locks (es ++ key_event l.lshift false ∷ [])
              l.rshift_plain refl,
          append_assoc,
        )
        refl
  update_shift-kb fuel false false locks es = rw append-nil refl

  pub update_altgr-kb :
      (fuel : ℕ) (a b : Bool) (locks : ℕ) (es : List KeyEvent)
      → update_altgr (key (suc fuel)) a b (kb locks es) ≡ some (kb locks (es ++ altgr_events a b))
  unfolding altgr_events
  update_altgr-kb fuel true b locks es =
      plain_key fuel keysym_altgr l.altgr true locks es l.altgr_plain refl
  update_altgr-kb fuel false true locks es =
      rw
        (
          plain_key fuel keysym_altgr l.altgr false locks es l.altgr_plain refl,
          plain_key fuel keysym_lalt l.lalt false locks (es ++ key_event l.altgr false ∷ [])
              l.lalt_plain refl,
          plain_key fuel keysym_ralt l.ralt false locks
              ((es ++ key_event l.altgr false ∷ []) ++ key_event l.lalt false ∷ []) l.ralt_plain
              refl,
          append_assoc,
          append_assoc,
        )
        refl
  update_altgr-kb fuel false false locks es = rw append-nil refl

  pub lock_if-kb :
      (fuel : ℕ) (a : Bool) (locks : ℕ) (es : List KeyEvent)
      → lock_if (key (suc fuel)) a (kb locks es)
        ≡ some (kb (if a then bit_or locks num_lock_key else locks) (es ++ lock_events a))
  unfolding lock_events
  lock_if-kb fuel true locks es =
      rw
        (
          plain_key fuel keysym_num_lock l.num_lock true locks es l.num_lock_plain refl,
          plain_key fuel keysym_num_lock l.num_lock false locks
              (es ++ key_event l.num_lock true ∷ []) l.num_lock_plain refl,
          append_assoc,
        )
        refl
  lock_if-kb fuel false locks es = rw append-nil refl

  pub held-lock : (b a : Bool) (x : ℕ) → x ≢ l.num_lock → held_from b x (lock_events a) ≡ b
  unfolding held_from lock_events
  held-lock b true x h = ground arith
  held-lock b false x h = refl

  pub held-altgr :
      (b s c : Bool) (x : ℕ)
      → x ≢ l.altgr
      → x ≢ l.lalt
      → x ≢ l.ralt
      → held_from b x (altgr_events s c) ≡ b
  unfolding held_from altgr_events
  held-altgr b true c x f g h = ground arith
  held-altgr b false true x f g h = ground arith
  held-altgr b false false x f g h = refl

  pub held-shift :
      (b s c : Bool) (x : ℕ) → x ≢ l.lshift → x ≢ l.rshift → held_from b x (shift_events s c) ≡ b
  unfolding held_from shift_events
  held-shift b true c x f g = ground arith
  held-shift b false true x f g = ground arith
  held-shift b false false x f g = refl

  abbrev pub sets_shift : KeySymDefinition → Bool
  sets_shift d = has_flag d.modifiers_to_set shift_modifier_key

  abbrev pub clears_shift : KeySymDefinition → Bool
  clears_shift d = has_flag d.modifiers_to_clear shift_modifier_key

  abbrev pub sets_altgr : KeySymDefinition → Bool
  sets_altgr d = has_flag d.modifiers_to_set altgr_modifier_key

  abbrev pub clears_altgr : KeySymDefinition → Bool
  clears_altgr d = has_flag d.modifiers_to_clear altgr_modifier_key
