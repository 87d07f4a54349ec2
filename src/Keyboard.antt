-- ===== src/Keyboard.antt =====
-- src/display/input/WebXKeyboard.cpp: the key events that an instruction of a client becomes. The map of a
-- layout, of src/display/input/WebXKeyboardMapping.h, is generated: it is part of the state. The events are
-- all that are handed to XTest.
pub mod Layout
pub mod Pressed
pub mod Released
mod Tests
use Prim.Native.Nat.{bit_and, bit_or}
use webx_engine.Common.{
  ℕ, zero, suc, ◌^◌, ◌-◌, Bool, true, false, ◌&&◌, ◌||◌, not, List, [], ◌∷◌, ◌++◌, Option, none,
  some, ◌==◌, if◌then◌else◌,
}

pub record KeySymDefinition : Type 0 where
  pub keysym : ℕ
  pub keycode : ℕ
  pub modifiers_to_set : ℕ
  pub modifiers_to_clear : ℕ
  pub locks_to_set : ℕ

-- A call of `XTestFakeKeyEvent`.
pub record KeyEvent : Type 0 where
  pub keycode : ℕ
  pub pressed : Bool

-- The map of a layout, from keysyms.
abbrev pub KeyMap : Type 0
KeyMap = List (ℕ × KeySymDefinition)

pub record Keyboard : Type 0 where
  pub keyboard_mapping : Option KeyMap
  pub locks_set : ℕ
  pub events : List KeyEvent

abbrev pub keysym_num_lock : ℕ
keysym_num_lock = 0xFF7F

abbrev pub keysym_caps_lock : ℕ
keysym_caps_lock = 0xFFE5

abbrev pub keysym_lshift : ℕ
keysym_lshift = 0xFFE1

abbrev pub keysym_rshift : ℕ
keysym_rshift = 0xFFE2

abbrev pub keysym_lalt : ℕ
keysym_lalt = 0xFFE9

abbrev pub keysym_ralt : ℕ
keysym_ralt = 0xFFEA

abbrev pub keysym_altgr : ℕ
keysym_altgr = 0xFE03

abbrev pub shift_modifier_key : ℕ
shift_modifier_key = 1

abbrev pub altgr_modifier_key : ℕ
altgr_modifier_key = 2

abbrev pub num_lock_key : ℕ
num_lock_key = 1

-- `mask & flag`, as a condition.
unfoldable pub has_flag : ℕ → ℕ → Bool
has_flag mask flag = not (bit_and mask flag == 0)

-- `getKeySymDefinition`
unfoldable pub key_sym_definition : ℕ → KeyMap → Option KeySymDefinition
key_sym_definition k [] = none
key_sym_definition k ((j, d) ∷ m) =
    let rest = key_sym_definition k m in if j == k then some d else rest

-- A call of `handleKeySym` with the keysym and whether it is pressed; `none` has not returned.
abbrev pub KeyCall : Type 0
KeyCall = ℕ → Bool → Keyboard → Option Keyboard

infixl 15 ◌then_do◌
abbrev pub ◌then_do◌ : Option Keyboard → (Keyboard → Option Keyboard) → Option Keyboard
none then_do f = none
some s then_do f = f s

abbrev pub fake_key_event : ℕ → Bool → Keyboard → Keyboard
fake_key_event code pressed s = record s {
  events = s.events ++ (record { keycode = code; pressed = pressed }) ∷ [];
}

abbrev update_shift : KeyCall → Bool → Bool → Keyboard → Option Keyboard
update_shift key true _ s = key keysym_lshift true s
update_shift key false true s = key keysym_lshift false s then_do key keysym_rshift false
update_shift key false false s = some s

abbrev update_altgr : KeyCall → Bool → Bool → Keyboard → Option Keyboard
update_altgr key true _ s = key keysym_altgr true s
update_altgr key false true s =
    key keysym_altgr false s then_do key keysym_lalt false then_do key keysym_ralt false
update_altgr key false false s = some s

-- `updateModifiers`
unfoldable pub update_modifiers : KeyCall → (to_set to_clear : ℕ) → Keyboard → Option Keyboard
update_modifiers key to_set to_clear s =
    update_shift key (has_flag to_set shift_modifier_key) (has_flag to_clear shift_modifier_key) s
    then_do update_altgr key (has_flag to_set altgr_modifier_key)
        (has_flag to_clear altgr_modifier_key)

abbrev release_if : KeyCall → ℕ → Bool → Keyboard → Option Keyboard
release_if key k true s = key k false s
release_if key k false s = some s

-- `releaseModifiers`
unfoldable pub release_modifiers : KeyCall → ℕ → Keyboard → Option Keyboard
release_modifiers key modifiers s =
    release_if key keysym_lshift (has_flag modifiers shift_modifier_key) s
    then_do release_if key keysym_altgr (has_flag modifiers altgr_modifier_key)

abbrev toggle : KeyCall → Keyboard → Option Keyboard
toggle key s = key keysym_num_lock true s then_do key keysym_num_lock false

abbrev lock_if : KeyCall → Bool → Keyboard → Option Keyboard
lock_if key true s =
    toggle key s then_do (λ t. some (record t { locks_set = bit_or t.locks_set num_lock_key }))
lock_if key false s = some s

-- `updateLocks`
unfoldable pub update_locks : KeyCall → ℕ → Keyboard → Option Keyboard
update_locks key locks s =
    lock_if key (has_flag locks num_lock_key && not (has_flag s.locks_set num_lock_key)) s

abbrev unlock_if : KeyCall → Bool → Keyboard → Option Keyboard
unlock_if key true s =
    toggle key s
    then_do (λ t. some (record t { locks_set = bit_and t.locks_set (2 ^ 32 - 1 - num_lock_key) }))
unlock_if key false s = some s

-- `releaseLocks`
unfoldable pub release_locks : KeyCall → ℕ → Keyboard → Option Keyboard
release_locks key locks s =
    unlock_if key (has_flag locks num_lock_key && has_flag s.locks_set num_lock_key) s

abbrev release_client_locks : KeyCall → Bool → ℕ → Keyboard → Option Keyboard
release_client_locks key true locks s = release_locks key locks s
release_client_locks key false locks s = some s

-- What a keysym with a definition does.
unfoldable pub handle_defined :
    KeyCall → KeySymDefinition → (pressed is_from_client : Bool) → Keyboard → Option Keyboard
handle_defined key d true is_from_client s =
    update_modifiers key d.modifiers_to_set d.modifiers_to_clear s
    then_do update_locks key d.locks_to_set
    then_do (λ t. some (fake_key_event d.keycode true t))
handle_defined key d false is_from_client s =
    release_modifiers key d.modifiers_to_set (fake_key_event d.keycode false s)
    then_do release_client_locks key is_from_client d.locks_to_set

abbrev handle_found :
    KeyCall
    → Option KeySymDefinition
    → ℕ
    → (pressed is_from_client : Bool) → Keyboard
    → Option Keyboard
handle_found key none keysym pressed is_from_client s = some s
handle_found key (some d) keysym pressed is_from_client s =
    if keysym == keysym_caps_lock then some s else handle_defined key d pressed is_from_client s

abbrev handle_mapped :
    KeyCall → Option KeyMap → ℕ → (pressed is_from_client : Bool) → Keyboard → Option Keyboard
handle_mapped key none keysym pressed is_from_client s = some s
handle_mapped key (some m) keysym pressed is_from_client s =
    handle_found key (key_sym_definition keysym m) keysym pressed is_from_client s

-- `handleKeySym`. The fuel bounds the depth of the calls that it makes of itself for modifiers and locks,
-- which are not a client's.
unfoldable pub handle_key_sym :
    (fuel keysym : ℕ) (pressed is_from_client : Bool) → Keyboard → Option Keyboard
handle_key_sym zero keysym pressed is_from_client s = none
handle_key_sym (suc fuel) keysym pressed is_from_client s =
    handle_mapped (λ k p. handle_key_sym fuel k p false) s.keyboard_mapping keysym pressed
      is_from_client s
