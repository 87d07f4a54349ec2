-- ===== src/Group/Placing.antt =====
-- Where a client is after it joins a group.
use webx_engine.Common.{
  ℕ, ◌≡◌, refl, sym, ◌∙◌, true, List, [], ◌∷◌, ◌++◌, none, some, Bool-cases, Option-cases, inl, inr,
  arith,
}
use webx_engine.Common.Floats.{Floats}
use webx_engine.Quality.{Quality, same_quality}
use webx_engine.Roster.{
  Member, has_id, find, find-append_some, find-append_none, find-cons, find-nil,
}
use webx_engine.Group.{Group, new_group, contains, add_client, group_with, add_to_groups}
use webx_engine.Group.Members.{all_members, add_client_new}

module _ (fl : Floats) where
  find-last :
      (m : Member) (xs : List Member) → find m.id xs ≡ none → find m.id (xs ++ m ∷ []) ≡ some m
  find-last m xs h =
      let e : has_id m.id m ≡ true = ground arith in
      find-append_none m.id xs (m ∷ []) h ∙ (find-cons m.id m [] ∙ rw e)

  contains-add :
      (m : Member) (g : Group fl)
      → find m.id g.clients ≡ none
      → contains fl m.id (add_client fl m g) ≡ true
  contains-add m g h = rw (add_client_new fl m g h, find-last m g.clients h)

  quality-add : (m : Member) (g : Group fl) → (add_client fl m g).quality ≡ g.quality
  unfolding add_client
  quality-add m g = ground arith

  -- A client that is in no group is then in one of the quality that it joins at.
  pub group_with-add :
      (q : Quality) (m : Member) (gs : List (Group fl))
      → find m.id (all_members fl gs) ≡ none
      → (g : Group fl) × (group_with fl m.id (add_to_groups fl q m gs) ≡ some g)
        × (same_quality g.quality q ≡ true)
  unfolding add_to_groups group_with all_members new_group
  group_with-add q m [] h = (
    add_client fl m (new_group fl q),
    rw (contains-add m (new_group fl q) (find-nil m.id)),
    rw (quality-add m (new_group fl q)) (ground arith),
  )
  group_with-add q m (g ∷ gs) h = elim (Option-cases (find m.id g.clients)) [
    | inr (m', e) ↦ cc (find-append_some m.id g.clients (all_members fl gs) m' e)
    | inl e ↦ elim (Bool-cases (same_quality g.quality q)) [
      | inl z ↦ (add_client fl m g, rw (z, contains-add m g e), rw (quality-add m g) z)
      | inr z ↦
          let (g', p, s) =
            group_with-add q m gs
              (sym (find-append_none m.id g.clients (all_members fl gs) e) ∙ h) in
          (g', rw (z, e) p, s)
    ]
  ]

  -- A client that is not found in the groups has none.
  pub group_with-none_of :
      (i : ℕ) (gs : List (Group fl)) → find i (all_members fl gs) ≡ none → group_with fl i gs ≡ none
  unfolding group_with all_members
  group_with-none_of i [] h = refl
  group_with-none_of i (g ∷ gs) h = elim (Option-cases (find i g.clients)) [
    | inr (m, e) ↦ cc (find-append_some i g.clients (all_members fl gs) m e)
    | inl e ↦
        rw e
          (group_with-none_of i gs (sym (find-append_none i g.clients (all_members fl gs) e) ∙ h))
  ]
