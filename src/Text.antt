-- ===== src/Text.antt =====
-- What the engine uses of std::string: a text is the list of its bytes. `split` is that of
-- src/utils/WebXStringUtils.h and src/models/WebXVersion.h; Numbers has the printing and the reading of
-- numbers, and src/utils/WebXHexUtils.h.
pub mod Numbers
pub mod RoundTrip
pub mod Hex
pub mod Printed
pub mod Split
use Prim.Native.Char.{code}
use Prim.Native.String.{String}
use webx_engine.Common.{ℕ, Bool, true, false, ◌&&◌, List, [], ◌∷◌, ◌==◌, if◌then◌else◌}

abbrev pub Text : Type 0
Text = List ℕ

-- The bytes of a text in ASCII.
abbrev pub codes : String → Text
codes String.[] = []
codes (String.◌∷◌ c s) = code c ∷ codes s

-- The comparison of two texts.
unfoldable pub same_text : Text → Text → Bool
same_text [] [] = true
same_text [] (_ ∷ _) = false
same_text (_ ∷ _) [] = false
same_text (c ∷ s) (d ∷ t) = (c == d) && same_text s t

-- `text.rfind(prefix, 0) == 0`
unfoldable pub has_prefix : Text → Text → Bool
has_prefix [] t = true
has_prefix (_ ∷ _) [] = false
has_prefix (c ∷ s) (d ∷ t) = (c == d) && has_prefix s t

abbrev pub in_front : ℕ → List Text → List Text
in_front c [] = (c ∷ []) ∷ []
in_front c (t ∷ ts) = (c ∷ t) ∷ ts

-- The tokens that `std::getline` reads: there is none behind a delimiter that ends the text.
unfoldable pub split : Text → ℕ → List Text
split [] d = []
split (c ∷ s) d = let rest = split s d in if c == d then [] ∷ rest else in_front c rest
