-- ===== src/Text/Split.antt =====
-- What `split` gives of texts with and without the delimiter.
use webx_engine.Common.{ℕ, ◌≡◌, ◌≢◌, [], ◌∷◌, ◌++◌, arith, All}
use webx_engine.Text.{Text, split}

-- No character is the delimiter.
abbrev pub Lacks : ℕ → Text → Type 0
Lacks d = All (λ c. c ≢ d)

pub split-append : (d : ℕ) (s t : Text) → Lacks d s → split (s ++ d ∷ t) d ≡ s ∷ split t d
unfolding split
split-append d [] t _ = ground arith
split-append d (c ∷ s) t (p, h) = ground (arith, split-append d s t h)

pub split-token : (d c : ℕ) (s : Text) → Lacks d (c ∷ s) → split (c ∷ s) d ≡ (c ∷ s) ∷ []
unfolding split
split-token d c [] (p, h) = ground arith
split-token d c (e ∷ s) (p, h) = ground (arith, split-token d e s h)
