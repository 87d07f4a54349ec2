-- ===== src/Version/Canonical.antt =====
-- What any text is read as.
use webx_engine.Common.{
  ℕ, zero, suc, ◌^◌, ◌<◌, ◌≡◌, refl, Bool, true, false, Option, none, some, List, [], ◌∷◌, arith,
}
use webx_engine.Text.{Text, split}
use webx_engine.Text.Numbers.{stoi, to_int, read_number, decimal}
use webx_engine.Version.{version_string, component, parse_all, whole, of_parts, of_components}
use webx_engine.Version.RoundTrip.{IsVersion, parse-version_string}

whole-lt : (x : Option (Bool × ℕ × Text)) (n : ℕ) → whole (to_int x) ≡ some n → n < 2 ^ 31
whole-lt none n h = ground arith
whole-lt (some (true, zero, rest)) n h = ground arith
whole-lt (some (true, suc m, rest)) n h = ground arith
whole-lt (some (false, m, [])) n h = ground arith
whole-lt (some (false, m, c ∷ s)) n h = ground arith

component-lt : (t : Text) (n : ℕ) → component t ≡ some n → n < 2 ^ 31
unfolding component stoi
component-lt t n h = whole-lt (read_number decimal t) n h

abbrev Fits : Option ℕ → Type 0
Fits o = (n : ℕ) → o ≡ some n → n < 2 ^ 31

of_components-IsVersion :
    (a b c : Option ℕ) → Fits a → Fits b → Fits c → IsVersion (of_components a b c)
of_components-IsVersion none b c p q r = omega arith
of_components-IsVersion (some a) none c p q r = omega arith
of_components-IsVersion (some a) (some b) none p q r = omega arith
of_components-IsVersion (some a) (some b) (some c) p q r = (p a refl, q b refl, r c refl)

of_parts-IsVersion : (ps : List Text) → IsVersion (of_parts ps)
of_parts-IsVersion [] = omega arith
of_parts-IsVersion (a ∷ []) = omega arith
of_parts-IsVersion (a ∷ b ∷ []) = omega arith
of_parts-IsVersion (a ∷ b ∷ c ∷ []) =
    of_components-IsVersion (component a) (component b) (component c) (component-lt a)
      (component-lt b) (component-lt c)
of_parts-IsVersion (a ∷ b ∷ c ∷ d ∷ ps) = omega arith

-- Whatever a text is read as, the text of that is read as the same.
pub parse-canonical : (s : Text) → parse_all (version_string (parse_all s)) ≡ parse_all s
unfolding parse_all
parse-canonical s = parse-version_string (parse_all s) (of_parts-IsVersion (split s b'.'))
