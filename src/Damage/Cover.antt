-- ===== src/Damage/Cover.antt =====
-- The pixels that `operator +=` of src/models/WebXWindowDamage.h covers.
use webx_engine.Common.{
  ◌≡◌, refl, sym, subst, true, false, List, [], ◌∷◌, ◌⊎◌, inl, inr, Bool-cases, arith,
}
use webx_engine.Common.Int.{ℤ, ◌≤ℤ◌, ◌<ℤ◌}
use webx_engine.Rectangle.{Rectangle, overlap_or_touching, extend}
use webx_engine.Damage.{WindowDamage, merge, add_damage_rectangle, add_all, add_damage}

-- A pixel is in a rectangle, whose right and top edges are outside it.
abbrev pub IsInside : ℤ → ℤ → Rectangle → Type 0
IsInside x y r = (r.left ≤ℤ x) × (x <ℤ r.right) × (r.bottom ≤ℤ y) × (y <ℤ r.top)

abbrev pub IsCovered : ℤ → ℤ → List Rectangle → Type 0
IsCovered x y [] = ⊥
IsCovered x y (r ∷ rs) = IsInside x y r ⊎ IsCovered x y rs

-- A pixel is damaged: the whole window is, or an area has it.
abbrev pub IsDamaged : ℤ → ℤ → WindowDamage → Type 0
IsDamaged x y d = (d.is_full_window ≡ true) ⊎ IsCovered x y d.damage_areas

extend-first : (x y : ℤ) (a b : Rectangle) → IsInside x y a → IsInside x y (extend a b)
unfolding extend
extend-first x y a b (l, r, u, v) = (ground arith, ground arith, ground arith, ground arith)

extend-second : (x y : ℤ) (a b : Rectangle) → IsInside x y b → IsInside x y (extend a b)
unfolding extend
extend-second x y a b (l, r, u, v) = (ground arith, ground arith, ground arith, ground arith)

merge-new :
    (x y : ℤ) (c : Rectangle) (rs : List Rectangle) → IsInside x y c → IsCovered x y (merge c rs)
unfolding merge
merge-new x y c [] h = inl h
merge-new x y c (r ∷ rs) h = elim (Bool-cases (overlap_or_touching r c)) [
  | inl e ↦ rw e (merge-new x y (extend c r) rs (extend-first x y c r h))
  | inr e ↦ rw e (inr (merge-new x y c rs h))
]

merge-old :
    (x y : ℤ) (c : Rectangle) (rs : List Rectangle) → IsCovered x y rs → IsCovered x y (merge c rs)
unfolding merge
merge-old x y c [] h = absurd h
merge-old x y c (r ∷ rs) (inl h) = elim (Bool-cases (overlap_or_touching r c)) [
  | inl e ↦ rw e (merge-new x y (extend c r) rs (extend-second x y c r h))
  | inr e ↦ rw e (inl h)
]
merge-old x y c (r ∷ rs) (inr h) = elim (Bool-cases (overlap_or_touching r c)) [
  | inl e ↦ rw e (merge-old x y (extend c r) rs h)
  | inr e ↦ rw e (inr (merge-old x y c rs h))
]

add-new :
    (x y : ℤ) (r : Rectangle) (d : WindowDamage)
    → IsInside x y r
    → IsDamaged x y (add_damage_rectangle r d)
unfolding add_damage_rectangle
add-new x y r d h = elim (Bool-cases d.is_full_window) [
  | inl e ↦ inl (ground arith)
  | inr e ↦ rw e (inr (merge-new x y r d.damage_areas h))
]

add-old :
    (x y : ℤ) (r : Rectangle) (d : WindowDamage)
    → IsDamaged x y d
    → IsDamaged x y (add_damage_rectangle r d)
unfolding add_damage_rectangle
add-old x y r d (inl h) = inl (ground arith)
add-old x y r d (inr h) = elim (Bool-cases d.is_full_window) [
  | inl e ↦ inl (ground arith)
  | inr e ↦ rw e (inr (merge-old x y r d.damage_areas h))
]

add_all-old :
    (x y : ℤ) (rs : List Rectangle) (d : WindowDamage)
    → IsDamaged x y d
    → IsDamaged x y (add_all rs d)
unfolding add_all
add_all-old x y [] d h = h
add_all-old x y (r ∷ rs) d h = add_all-old x y rs (add_damage_rectangle r d) (add-old x y r d h)

add_all-new :
    (x y : ℤ) (rs : List Rectangle) (d : WindowDamage)
    → IsCovered x y rs
    → IsDamaged x y (add_all rs d)
unfolding add_all
add_all-new x y [] d h = absurd h
add_all-new x y (r ∷ rs) d (inl h) =
    add_all-old x y rs (add_damage_rectangle r d) (add-new x y r d h)
add_all-new x y (r ∷ rs) d (inr h) = add_all-new x y rs (add_damage_rectangle r d) h

add_all-either :
    (x y : ℤ) (other d : WindowDamage)
    → other.is_full_window ≡ false
    → IsDamaged x y other ⊎ IsDamaged x y d
    → IsDamaged x y (add_all other.damage_areas d)
add_all-either x y other d f (inl (inl h)) = cc
add_all-either x y other d f (inl (inr h)) = add_all-new x y other.damage_areas d h
add_all-either x y other d f (inr h) = add_all-old x y other.damage_areas d h

add_damage-areas :
    (other d : WindowDamage)
    → d.is_full_window ≡ false
    → other.is_full_window ≡ false
    → add_damage other d ≡ add_all other.damage_areas d
unfolding add_damage
add_damage-areas other d e f = simp (e, f)

-- Adding damage to damage of a window loses none: each pixel that was damaged before or is damaged by
-- what is added is damaged after.
pub add_damage-IsDamaged :
    (x y : ℤ) (other d : WindowDamage)
    → IsDamaged x y other ⊎ IsDamaged x y d
    → IsDamaged x y (add_damage other d)
unfolding add_damage
add_damage-IsDamaged x y other d h = elim (Bool-cases d.is_full_window) [
  | inl e ↦ inl (ground arith)
  | inr e ↦ elim (Bool-cases other.is_full_window) [
    | inl f ↦ inl (rw (e, f) refl)
    | inr f ↦
        subst (IsDamaged x y) (sym (add_damage-areas other d e f)) (add_all-either x y other d f h)
  ]
]
