-- ===== src/Session.antt =====
-- The session identifier and the coverage function of src/models/WebXSettings.h, as they are read from the
-- texts of the environment.
pub mod RoundTrip
mod Tests
use webx_engine.Common.{
  ℕ, ◌-◌, ◌%◌, Bool, true, false, List, [], ◌∷◌, ◌++◌, Option, none, some, length, ◌==◌,
  if◌then◌else◌,
}
use webx_engine.Handler.{CoverageQualityFunc, disabled, linear, quadratic}
use webx_engine.Text.{Text, codes, same_text}
use webx_engine.Text.Numbers.{hexadecimal, read_number, print_hex}

-- The byte that `(char) strtol(text, NULL, 16)` becomes as an unsigned one; 0 where there is no number.
abbrev pub to_byte : Option (Bool × ℕ × Text) → ℕ
to_byte none = 0
to_byte (some (true, n, _)) = (256 - n % 256) % 256
to_byte (some (false, n, _)) = n % 256

-- The loop of `convertSessionIdStringToBytes`, through the text by two.
unfoldable pub session_id_bytes : Text → List ℕ
session_id_bytes [] = []
session_id_bytes (a ∷ []) = to_byte (read_number hexadecimal (a ∷ [])) ∷ []
session_id_bytes (a ∷ b ∷ s) = to_byte (read_number hexadecimal (a ∷ b ∷ [])) ∷ session_id_bytes s

-- `convertSessionIdStringToBytes`; nothing where it exits.
unfoldable pub convert_session_id : Text → Option (List ℕ)
convert_session_id s = if length s == 32 then some (session_id_bytes s) else none

-- `convertCoverageQualityFuncString`
abbrev pub convert_coverage_quality_func : Text → CoverageQualityFunc
convert_coverage_quality_func t =
    if same_text t (codes "linear")
    then linear
    else if same_text t (codes "quadratic")
    then quadratic
    else disabled
