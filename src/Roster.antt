-- ===== src/Roster.antt =====
-- Lists of clients as the registry and the groups hold them. A shared pointer to a WebXClient is its
-- two constant fields.
pub mod Mask
use webx_engine.Common.{
  ℕ, ◌+◌, ◌-◌, ◌^◌, ◌≤◌, ◌<◌, ◌≡◌, refl, subst, Bool, true, false, List, [], ◌∷◌, ◌++◌, Option,
  none, some, not, ◌&&◌, ◌||◌, ltb, ◌==◌, if◌then◌else◌, Bool-cases, inl, inr, arith,
}
use webx_engine.Common.Bits.{bit, bit_not, bit-bit_or, bit-bit_and, bit-bit_not, bit-above}

pub record Member : Type 0 where
  pub id : ℕ
  pub index : ℕ

abbrev pub has_id : ℕ → Member → Bool
has_id i m = m.id == i

abbrev pub has_bit : ℕ → Member → Bool
has_bit k m = bit m.index k

-- `std::find_if` by identifier.
pub find : ℕ → List Member → Option Member
find i [] = none
find i (m ∷ ms) = if has_id i m then some m else find i ms

-- `erase(std::find(client))` by identifier.
pub remove : ℕ → List Member → List Member
remove i [] = []
remove i (m ∷ ms) = if has_id i m then ms else m ∷ remove i ms

pub count_if : (Member → Bool) → List Member → ℕ
count_if P [] = 0
count_if P (m ∷ ms) = (if P m then 1 else 0) + count_if P ms

pub count_if-append :
    (P : Member → Bool) (xs ys : List Member)
    → count_if P (xs ++ ys) ≡ count_if P xs + count_if P ys
unfolding count_if
count_if-append P [] ys = omega arith
count_if-append P (x ∷ xs) ys = omega (arith, count_if-append P xs ys)

pub count_if-nil : (P : Member → Bool) → count_if P [] ≡ 0
unfolding count_if
count_if-nil P = refl

pub count_if_one : (P : Member → Bool) (m : Member) → count_if P (m ∷ []) ≡ (if P m then 1 else 0)
unfolding count_if
count_if_one P m = omega arith

pub find-id : (i : ℕ) (xs : List Member) (m : Member) → find i xs ≡ some m → m.id ≡ i
unfolding find
find-id i [] m h = cc
find-id i (x ∷ xs) m h = ground (arith, find-id i xs m)

pub count_if-find :
    (P : Member → Bool) (i : ℕ) (xs : List Member) (m : Member)
    → find i xs ≡ some m
    → P m ≡ true
    → 1 ≤ count_if P xs
unfolding find count_if
count_if-find P i [] m h p = cc
count_if-find P i (x ∷ xs) m h p = ground (arith, count_if-find P i xs m)

pub count_if-none : (i : ℕ) (xs : List Member) → find i xs ≡ none → count_if (has_id i) xs ≡ 0
unfolding find count_if
count_if-none i [] h = refl
count_if-none i (x ∷ xs) h = ground (arith, count_if-none i xs)

pub remove-none : (i : ℕ) (xs : List Member) → find i xs ≡ none → remove i xs ≡ xs
unfolding find remove
remove-none i [] h = refl
remove-none i (x ∷ xs) h = ground (arith, remove-none i xs)

-- What a removal takes away from each count.
pub count_if-remove :
    (P : Member → Bool) (i : ℕ) (xs : List Member) (m : Member)
    → find i xs ≡ some m
    → count_if P (remove i xs) + (if P m then 1 else 0) ≡ count_if P xs
unfolding find remove count_if
count_if-remove P i [] m h = cc
count_if-remove P i (x ∷ xs) m h = ground (arith, count_if-remove P i xs m)

-- A member that is counted together with an identifier that only one has is that one.
abbrev pub is : Member → Member → Bool
is m n = m.id == n.id && m.index == n.index

pub count_if-is-le :
    (n : Member) (xs : List Member) → count_if (is n) xs ≤ count_if (has_id n.id) xs
unfolding count_if
count_if-is-le n [] = omega arith
count_if-is-le n (x ∷ xs) = ground (arith, count_if-is-le n xs)

pub count_if-is :
    (i : ℕ) (xs : List Member) (m n : Member)
    → find i xs ≡ some m
    → n.id ≡ i
    → count_if (has_id i) xs ≤ 1
    → 1 ≤ count_if (is n) xs
    → m ≡ n
unfolding find count_if
count_if-is i [] m n h e u c = cc
count_if-is i (x ∷ xs) m n h e u c =
    let l : count_if (is n) xs ≤ count_if (has_id i) xs =
      subst (λ j. count_if (is n) xs ≤ count_if (has_id j) xs) e (count_if-is-le n xs) in
    ground (arith, count_if-is i xs m n)

-- Looking through one list and then another.
pub find-append_some :
    (i : ℕ) (xs ys : List Member) (m : Member) → find i xs ≡ some m → find i (xs ++ ys) ≡ some m
unfolding find
find-append_some i [] ys m h = cc
find-append_some i (x ∷ xs) ys m h = ground (arith, find-append_some i xs ys m)

pub find-append_none :
    (i : ℕ) (xs ys : List Member) → find i xs ≡ none → find i (xs ++ ys) ≡ find i ys
unfolding find
find-append_none i [] ys h = refl
find-append_none i (x ∷ xs) ys h = ground (arith, find-append_none i xs ys)

pub find_of_count : (i : ℕ) (xs : List Member) → count_if (has_id i) xs ≡ 0 → find i xs ≡ none
unfolding find count_if
find_of_count i [] h = refl
find_of_count i (x ∷ xs) h = ground (arith, find_of_count i xs)

pub find-nil : (i : ℕ) → find i [] ≡ none
unfolding find
find-nil i = refl

-- Whatever is counted by identifier is found.
pub find-counted :
    (i : ℕ) (xs : List Member) → 1 ≤ count_if (has_id i) xs → (m : Member) × (find i xs ≡ some m)
unfolding find count_if
find-counted i [] h = absurd (omega arith)
find-counted i (x ∷ xs) h = elim (Bool-cases (has_id i x)) [
  | inl e ↦ (x, rw e)
  | inr e ↦ let (m, p) = find-counted i xs (ground arith) in (m, ground arith)
]

-- One step of the lookups, for lists of clients that hold more than their members.
pub find-cons :
    (i : ℕ) (m : Member) (ms : List Member)
    → find i (m ∷ ms) ≡ (if has_id i m then some m else find i ms)
unfolding find
find-cons i m ms = refl

pub remove-nil : (i : ℕ) → remove i [] ≡ []
unfolding remove
remove-nil i = refl

pub remove-cons :
    (i : ℕ) (m : Member) (ms : List Member)
    → remove i (m ∷ ms) ≡ (if has_id i m then ms else m ∷ remove i ms)
unfolding remove
remove-cons i m ms = refl

pub count_if-cons :
    (P : Member → Bool) (m : Member) (ms : List Member)
    → count_if P (m ∷ ms) ≡ (if P m then 1 else 0) + count_if P ms
unfolding count_if
count_if-cons P m ms = refl

-- A removal by an identifier that only one has hides that one and no other.
pub find-remove :
    (i j : ℕ) (xs : List Member)
    → count_if (has_id i) xs ≤ 1
    → find j (remove i xs) ≡ (if j == i then none else find j xs)
unfolding find remove count_if
find-remove i j [] u = ground arith
find-remove i j (x ∷ xs) u = elim (Bool-cases (has_id i x)) [
  | inl e ↦ ground (arith, find_of_count i xs)
  | inr e ↦ ground (arith, find-remove i j xs)
]

-- The lookup after one more at the end.
pub find-snoc :
    (j : ℕ) (xs : List Member) (m : Member)
    → find m.id xs ≡ none
    → find j (xs ++ m ∷ []) ≡ (if j == m.id then some m else find j xs)
unfolding find
find-snoc j [] m h = ground arith
find-snoc j (x ∷ xs) m h = ground (arith, find-snoc j xs m)
