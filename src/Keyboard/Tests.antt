-- ===== src/Keyboard/Tests.antt =====
-- Keys of the British layout.
use webx_engine.Common.{ℕ, ◌≡◌, refl, true, false, List, [], ◌∷◌, ◌++◌, Option, some, none, arith}
use webx_engine.Keyboard.{
  KeySymDefinition, KeyEvent, KeyMap, Keyboard, key_sym_definition, handle_key_sym, handle_defined,
  update_modifiers, update_locks, release_modifiers, has_flag,
}
use webx_engine.Keyboard.Layout.{IsLayout, kb, key_event}
use webx_engine.Keyboard.Pressed.{press-IsReady, IsReady}
use webx_engine.Keyboard.Released.{release-IsReleased, IsReleased}

abbrev plain : ℕ → ℕ → ℕ × KeySymDefinition
plain k c = (
  k,
  record {
    keysym = k;
    keycode = c;
    modifiers_to_set = 0;
    modifiers_to_clear = 0;
    locks_to_set = 0;
  },
)

abbrev capital_a : KeySymDefinition
capital_a = record {
  keysym = 0x41;
  keycode = 0x26;
  modifiers_to_set = 1;
  modifiers_to_clear = 2;
  locks_to_set = 0;
}

abbrev british : KeyMap
british =
    (0x41, capital_a)
    ∷ plain 0xFF7F 0x4D
    ∷ plain 0xFFE1 0x32
    ∷ plain 0xFFE2 0x3E
    ∷ plain 0xFFE9 0x40
    ∷ plain 0xFFEA 0x40
    ∷ plain 0xFE03 0x5C
    ∷ []

abbrev british-IsLayout : IsLayout british
unfolding key_sym_definition
british-IsLayout = record {
  lshift = 0x32;
  rshift = 0x3E;
  altgr = 0x5C;
  lalt = 0x40;
  ralt = 0x40;
  num_lock = 0x4D;
  lshift_plain = refl;
  rshift_plain = refl;
  altgr_plain = refl;
  lalt_plain = refl;
  ralt_plain = refl;
  num_lock_plain = refl;
  shifts_apart = omega arith;
  lshift_apart = omega arith;
  rshift_apart = omega arith;
  alts_apart = omega arith;
  num_lock_apart = omega arith;
}

abbrev sent_events : Option Keyboard → List KeyEvent
sent_events none = []
sent_events (some s) = s.events

-- Shift goes down, AltGr and both Alt keys go up, and then the key goes down.
press_of_test :
    sent_events (
      handle_key_sym 2 0x41 true true
        (record { keyboard_mapping = some british; locks_set = 0; events = [] }))
    ≡ key_event 0x32 true
      ∷ key_event 0x5C false
      ∷ key_event 0x40 false
      ∷ key_event 0x40 false
      ∷ key_event 0x26 true
      ∷ []
unfolding handle_key_sym key_sym_definition handle_defined update_modifiers has_flag update_locks
    release_modifiers
press_of_test = refl

press-IsReady_example :
    (prior : List KeyEvent) × (locks' : ℕ) × (handle_key_sym 2 0x41 true true
        (kb british british-IsLayout 0 [])
      ≡ some (kb british british-IsLayout locks' (prior ++ key_event 0x26 true ∷ [])))
    × IsReady british british-IsLayout capital_a [] prior
unfolding key_sym_definition
press-IsReady_example =
    press-IsReady british british-IsLayout 0 0x41 true capital_a 0 [] refl (omega arith)

release-IsReleased_example :
    (after : List KeyEvent) × (locks' : ℕ) × (handle_key_sym 2 0x41 false true
        (kb british british-IsLayout 0 (key_event 0x32 true ∷ key_event 0x26 true ∷ []))
      ≡ some (kb british british-IsLayout locks' after))
    × IsReleased british british-IsLayout capital_a
        (key_event 0x32 true ∷ key_event 0x26 true ∷ [])
        after
unfolding key_sym_definition
release-IsReleased_example =
    release-IsReleased british british-IsLayout 0 0x41 true capital_a 0
      (key_event 0x32 true ∷ key_event 0x26 true ∷ []) refl (omega arith)
