-- ===== src/Version/RoundTrip.antt =====
-- What is read of a text that a version prints, and of any text.
use webx_engine.Common.{All, ℕ, ◌^◌, ◌<◌, ◌≡◌, refl, true, some, [], ◌∷◌, arith}
use webx_engine.Message.{Version}
use webx_engine.Text.{Text, split}
use webx_engine.Text.Split.{Lacks, split-append, split-token}
use webx_engine.Text.Numbers.{Radix, print, decimal, is_digit}
use webx_engine.Text.Printed.{IsPrinted}
use webx_engine.Text.RoundTrip.{print-IsNumeral, stoi-print}
use webx_engine.Version.{version_string, component, parse_all}

pub All-weaken : (d : ℕ) (s : Text) → d < b'0' → All IsPrinted s → Lacks d s
All-weaken d [] h p = tt
All-weaken d (c ∷ s) h ((p, _), q) = (λ e. omega arith, All-weaken d s h q)

component-print : (n : ℕ) → n < 2 ^ 31 → component (print decimal n) ≡ some n
unfolding component
component-print n h = rw (stoi-print n h) refl

print-Lacks : (n : ℕ) → Lacks b'.' (print decimal n)
print-Lacks n = All-weaken b'.' (print decimal n) (omega arith) (print-IsNumeral decimal n).0

pub split_last :
    (r : Radix) (d : ℕ) (s : Text) → is_digit r s ≡ true → Lacks d s → split s d ≡ s ∷ []
split_last r d [] h g = ground arith
split_last r d (c ∷ s) h g = split-token d c s g

abbrev pub IsVersion : Version → Type 0
IsVersion v = (v.major < 2 ^ 31) × (v.minor < 2 ^ 31) × (v.patch < 2 ^ 31)

-- A version whose components are below 2 ^ 31 is what its own text is read as.
pub parse-version_string : (v : Version) → IsVersion v → parse_all (version_string v) ≡ v
unfolding parse_all version_string
parse-version_string v (a, b, c) =
    let x = print decimal v.major in
    let y = print decimal v.minor in
    let z = print decimal v.patch in
    rw
      (
        split-append b'.' x _ (print-Lacks v.major),
        split-append b'.' y z (print-Lacks v.minor),
        split_last decimal b'.' z (print-IsNumeral decimal v.patch).1 (print-Lacks v.patch),
        component-print v.major a,
        component-print v.minor b,
        component-print v.patch c,
      )
      refl
