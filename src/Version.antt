-- ===== src/Version.antt =====
-- src/models/WebXVersion.h: the version that is read from a text, and its text.
pub mod RoundTrip
pub mod Canonical
mod Tests
use webx_engine.Common.{ℕ, Option, none, some, List, [], ◌∷◌, ◌++◌}
use webx_engine.Common.Int.{ℤ, pos, negsuc}
use webx_engine.Message.{Version}
use webx_engine.Text.{Text, split}
use webx_engine.Text.Numbers.{stoi, print, decimal}

abbrev pub no_version : Version
no_version = record { major = 0; minor = 0; patch = 0 }

-- `versionString`
unfoldable pub version_string : Version → Text
version_string v =
    print decimal v.major ++ b'.' ∷ (print decimal v.minor ++ b'.' ∷ print decimal v.patch)

-- One component: the number must end the text and not be negative.
abbrev pub whole : Option (ℤ × Text) → Option ℕ
whole (some (pos n, [])) = some n
whole (some (pos n, _ ∷ _)) = none
whole (some (negsuc n, _)) = none
whole none = none

unfoldable pub component : Text → Option ℕ
component t = whole (stoi t)

abbrev pub of_components : Option ℕ → Option ℕ → Option ℕ → Version
of_components (some a) (some b) (some c) = record { major = a; minor = b; patch = c }
of_components none b c = no_version
of_components (some a) none c = no_version
of_components (some a) (some b) none = no_version

abbrev pub of_parts : List Text → Version
of_parts (a ∷ b ∷ c ∷ []) = of_components (component a) (component b) (component c)
of_parts [] = no_version
of_parts (a ∷ []) = no_version
of_parts (a ∷ b ∷ []) = no_version
of_parts (a ∷ b ∷ c ∷ d ∷ ps) = no_version

-- `parseAll`
unfoldable pub parse_all : Text → Version
parse_all s = of_parts (split s b'.')
