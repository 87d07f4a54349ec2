-- ===== src/Group/Views.antt =====
-- The groups as a map from the clients' identifiers to quality levels.
use webx_engine.Common.{
  ℕ, ◌≤◌, ◌≡◌, refl, sym, ◌∙◌, subst, true, false, List, [], ◌∷◌, ◌++◌, Option, none, some, ◌==◌,
  if◌then◌else◌, Bool-cases, Option-cases, inl, inr, arith,
}
use webx_engine.Common.Floats.{Floats}
use webx_engine.Quality.{Quality, same_quality}
use webx_engine.Roster.{
  Member, has_id, find, remove, count_if, count_if-append, find-append_none, find-remove, find-snoc,
  find_of_count, find-id, find-nil, find-append_some, count_if-find,
}
use webx_engine.Group.{
  Group, new_group, contains, add_client, remove_client, group_with, add_to_groups,
  remove_from_groups, is_nil,
}
use webx_engine.Group.Members.{all_members, add_client_new, remove_client_found}
use webx_engine.Group.Kept.{AllKept}

module _ (fl : Floats) where
  -- The level of the group that a client is in.
  unfoldable pub level : ℕ → List (Group fl) → Option ℕ
  level i [] = none
  level i (g ∷ gs) = if contains fl i g then some g.quality.index else level i gs

  contains-add :
      (j : ℕ) (m : Member) (g : Group fl)
      → find m.id g.clients ≡ none
      → contains fl j (add_client fl m g) ≡ (if j == m.id then true else contains fl j g)
  contains-add j m g h = rw (add_client_new fl m g h, find-snoc j g.clients m h) (ground arith)

  quality-add : (m : Member) (g : Group fl) → (add_client fl m g).quality ≡ g.quality
  unfolding add_client
  quality-add m g = ground arith

  -- The head and the tail of the groups of a client that is in none.
  find_head :
      (i : ℕ) (g : Group fl) (gs : List (Group fl))
      → find i (g.clients ++ all_members fl gs) ≡ none
      → (find i g.clients ≡ none) × (find i (all_members fl gs) ≡ none)
  find_head i g gs h = elim (Option-cases (find i g.clients)) [
    | inl e ↦ (e, sym (find-append_none i g.clients (all_members fl gs) e) ∙ h)
    | inr (m, e) ↦ cc (find-append_some i g.clients (all_members fl gs) m e)
  ]

  pub level-add :
      (q : Quality) (m : Member) (gs : List (Group fl)) (j : ℕ)
      → find m.id (all_members fl gs) ≡ none
      → level j (add_to_groups fl q m gs) ≡ (if j == m.id then some q.index else level j gs)
  unfolding level add_to_groups all_members new_group
  level-add q m [] j h =
      let g = new_group fl q in
      rw (contains-add j m g (find-nil m.id), quality-add m g, find-nil j) (ground arith)
  level-add q m (g ∷ gs) j h =
      let (a, b) = find_head m.id g gs h in
      elim (Bool-cases (same_quality g.quality q)) [
        | inl z ↦ rw (z, contains-add j m g a, quality-add m g) (ground arith)
        | inr z ↦ rw (z, level-add q m gs j b) (ground arith)
      ]

  contains-remove :
      (i j : ℕ) (g : Group fl) (m : Member)
      → find i g.clients ≡ some m
      → count_if (has_id i) g.clients ≤ 1
      → contains fl j (remove_client fl i g) ≡ (if j == i then false else contains fl j g)
  contains-remove i j g m e u =
      rw (remove_client_found fl i g m e, find-remove i j g.clients u) (ground arith)

  -- A client in no group has no level.
  pub level-none :
      (i : ℕ) (gs : List (Group fl)) → find i (all_members fl gs) ≡ none → level i gs ≡ none
  unfolding level all_members
  level-none i [] h = refl
  level-none i (g ∷ gs) h = let (a, b) = find_head i g gs h in rw (a, level-none i gs b) refl

  find-is_nil : (j : ℕ) (xs : List Member) → is_nil xs ≡ true → find j xs ≡ none
  find-is_nil j [] h = find-nil j
  find-is_nil j (x ∷ xs) h = cc

  -- A client in the first group is in no other.
  counts_of :
      (i : ℕ) (g : Group fl) (gs : List (Group fl)) (m : Member)
      → count_if (has_id i) (g.clients ++ all_members fl gs) ≤ 1
      → find i g.clients ≡ some m
      → (count_if (has_id i) g.clients ≤ 1) × (level i gs ≡ none)
  counts_of i g gs m u e =
      let l = count_if-append (has_id i) g.clients (all_members fl gs) in
      let s = find-id i g.clients m e in
      let one = count_if-find (has_id i) i g.clients m e (ground arith) in
      (
        omega (arith, u, l),
        level-none i gs (find_of_count i (all_members fl gs) (omega (arith, u, l, one))),
      )

  level-remove_same :
      (i : ℕ) (gs : List (Group fl))
      → count_if (has_id i) (all_members fl gs) ≤ 1
      → level i (remove_from_groups fl i gs) ≡ none
  unfolding level remove_from_groups all_members
  level-remove_same i [] u = refl
  level-remove_same i (g ∷ gs) u = elim (Option-cases (find i g.clients)) [
    | inl e ↦
        let l = count_if-append (has_id i) g.clients (all_members fl gs) in
        rw (e, e) (level-remove_same i gs (omega (arith, u, l)))
    | inr (m, e) ↦
        let (u', n) = counts_of i g gs m u e in
        let f = find-remove i i g.clients u' in
        elim (Bool-cases (is_nil (remove i g.clients))) [
          | inl z ↦ rw (e, remove_client, z) n
          | inr z ↦ rw (e, remove_client, z, f) (ground (arith, n))
        ]
  ]

  level-remove_other :
      (i j : ℕ) (gs : List (Group fl))
      → (j == i) ≡ false
      → count_if (has_id i) (all_members fl gs) ≤ 1
      → level j (remove_from_groups fl i gs) ≡ level j gs
  unfolding level remove_from_groups all_members
  level-remove_other i j [] d u = refl
  level-remove_other i j (g ∷ gs) d u = elim (Option-cases (find i g.clients)) [
    | inl e ↦
        let l = count_if-append (has_id i) g.clients (all_members fl gs) in
        rw (e, level-remove_other i j gs d (omega (arith, u, l))) refl
    | inr (m, e) ↦
        let (u', n) = counts_of i g gs m u e in
        let f : find j (remove i g.clients) ≡ find j g.clients =
          find-remove i j g.clients u' ∙ ground (arith, d) in
        elim (Bool-cases (is_nil (remove i g.clients))) [
          | inl z ↦ rw (e, remove_client, z, ← f, find-is_nil j (remove i g.clients) z) refl
          | inr z ↦ rw (e, remove_client, z, f) refl
        ]
  ]

  pub level-remove :
      (i : ℕ) (gs : List (Group fl)) (j : ℕ)
      → count_if (has_id i) (all_members fl gs) ≤ 1
      → level j (remove_from_groups fl i gs) ≡ (if j == i then none else level j gs)
  level-remove i gs j u = elim (Bool-cases (j == i)) [
    | inl e ↦
        let s : j ≡ i = ground arith in
        rw e (
          subst (λ x. level x (remove_from_groups fl i gs) ≡ none) (sym s)
            (level-remove_same i gs u))
    | inr e ↦ rw e (level-remove_other i j gs e u)
  ]

  -- A group that is found is that of the level.
  pub level-group_with :
      (i : ℕ) (gs : List (Group fl)) (g : Group fl)
      → group_with fl i gs ≡ some g
      → level i gs ≡ some g.quality.index
  unfolding level group_with
  level-group_with i [] g h = cc
  level-group_with i (x ∷ gs) g h = ground (arith, level-group_with i gs g)

  pub level-kept : (gs hs : List (Group fl)) (i : ℕ) → AllKept fl gs hs → level i hs ≡ level i gs
  unfolding level
  level-kept [] [] i k = refl
  level-kept [] (h ∷ hs) i k = elim k [ ]
  level-kept (g ∷ gs) [] i k = elim k [ ]
  level-kept (g ∷ gs) (h ∷ hs) i k = rw (k.0.quality, k.0.clients, level-kept gs hs i k.1) refl
