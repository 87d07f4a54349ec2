-- ===== src/Group/Members.antt =====
-- The clients of a list of groups, and what joining and leaving do to them.
use Prim.Native.Nat.{bit_or, bit_and}
use webx_engine.Common.{
  ℕ, ◌+◌, ◌^◌, ◌≤◌, ◌<◌, ◌≡◌, refl, sym, ◌∙◌, ap, Bool, true, false, List, [], ◌∷◌, ◌++◌, none,
  some, ◌==◌, max, if◌then◌else◌, Bool-cases, Option-cases, inl, inr, arith,
}
use webx_engine.Common.Bits.{bit_not}
use webx_engine.Common.Floats.{Floats}
use webx_engine.Quality.{Quality, same_quality}
use webx_engine.Roster.{
  Member, has_bit, has_id, find, remove, count_if, count_if-append, count_if_one, count_if-remove,
  count_if-nil, find_of_count, find-append_some, find-append_none, find-nil,
}
use webx_engine.Roster.Mask.{IsMask, OneOwner, nil-IsMask, append-IsMask, remove-IsMask}
use webx_engine.Group.{
  Group, new_group, add_client, remove_client, group_with, remove_from_groups, add_to_groups,
  is_nil,
}

is_nil-append : (xs : List Member) (m : Member) → is_nil (xs ++ m ∷ []) ≡ false
is_nil-append [] m = refl
is_nil-append (x ∷ xs) m = refl

module _ (fl : Floats) where
  unfoldable pub all_members : List (Group fl) → List Member
  all_members [] = []
  all_members (g ∷ gs) = g.clients ++ all_members gs

  -- How many groups have a quality level.
  unfoldable pub quality_count : ℕ → List (Group fl) → ℕ
  quality_count j [] = 0
  quality_count j (g ∷ gs) = (if g.quality.index == j then 1 else 0) + quality_count j gs

  pub all_members-nil : all_members [] ≡ []
  unfolding all_members
  all_members-nil = refl

  pub quality_count-nil : (j : ℕ) → quality_count j [] ≡ 0
  unfolding quality_count
  quality_count-nil j = refl

  -- A group has a client, and its mask is that of its clients.
  pub record IsGroup (g : Group fl) : Type 0 where
    pub inhabited : is_nil g.clients ≡ false
    pub mask : IsMask g.client_index_mask g.clients

  abbrev pub AllGroups : List (Group fl) → Type 0
  AllGroups [] = Unit
  AllGroups (g ∷ gs) = IsGroup g × AllGroups gs

  -- A group that a client is not in takes it at the end.
  pub add_client_new :
      (m : Member) (g : Group fl)
      → find m.id g.clients ≡ none
      → add_client fl m g ≡ record g {
        client_index_mask = bit_or g.client_index_mask m.index;
        clients = g.clients ++ m ∷ [];
      }
  unfolding add_client
  add_client_new m g h = rw (h, add_client)

  -- What the lookup through the first group leaves for the rest.
  rest_of_count :
      (i : ℕ) (g : Group fl) (gs : List (Group fl))
      → count_if (has_id i) (all_members (g ∷ gs)) ≡ 0
      → (count_if (has_id i) g.clients ≡ 0) × (count_if (has_id i) (all_members gs) ≡ 0)
  unfolding all_members
  rest_of_count i g gs h = omega (arith, count_if-append (has_id i) g.clients (all_members gs))

  -- A client that is in no group is counted once more when it joins.
  pub all_members-add :
      (P : Member → Bool) (q : Quality) (m : Member) (gs : List (Group fl))
      → count_if (has_id m.id) (all_members gs) ≡ 0
      → count_if P (all_members (add_to_groups fl q m gs))
        ≡ count_if P (all_members gs) + (if P m then 1 else 0)
  unfolding all_members add_to_groups
  all_members-add P q m [] h =
      rw (add_client_new m (new_group fl q) (find_of_count m.id [] h))
        (omega (arith, count_if_one P m, count_if-nil P))
  all_members-add P q m (g ∷ gs) h =
      let (h₁, h₂) = rest_of_count m.id g gs h in
      elim (Bool-cases (same_quality g.quality q)) [
        | inl e ↦
            rw (e, add_client_new m g (find_of_count m.id g.clients h₁))
              (omega (
                arith,
                count_if-append P (g.clients ++ m ∷ []) (all_members gs),
                count_if-append P g.clients (m ∷ []),
                count_if-append P g.clients (all_members gs),
                count_if_one P m,
              ))
        | inr e ↦ rw e (
            omega (
              arith,
              count_if-append P g.clients (all_members gs),
              count_if-append P g.clients (all_members (add_to_groups fl q m gs)),
              all_members-add P q m gs h₂,
            ))
      ]

  add_client-IsGroup :
      (m : Member) (g : Group fl)
      → count_if (has_id m.id) g.clients ≡ 0
      → m.index < 2 ^ 64
      → IsMask g.client_index_mask g.clients
      → IsGroup (add_client fl m g)
  add_client-IsGroup m g h l v = rw (add_client_new m g (find_of_count m.id g.clients h)) (record {
    inhabited = is_nil-append g.clients m;
    mask = append-IsMask g.client_index_mask g.clients m l v;
  })

  pub add_to_groups-AllGroups :
      (q : Quality) (m : Member) (gs : List (Group fl))
      → count_if (has_id m.id) (all_members gs) ≡ 0
      → m.index < 2 ^ 64
      → AllGroups gs
      → AllGroups (add_to_groups fl q m gs)
  unfolding add_to_groups
  add_to_groups-AllGroups q m [] h l v =
      (add_client-IsGroup m (new_group fl q) (count_if-nil (has_id m.id)) l nil-IsMask, tt)
  add_to_groups-AllGroups q m (g ∷ gs) h l (v, vs) =
      let (h₁, h₂) = rest_of_count m.id g gs h in
      elim (Bool-cases (same_quality g.quality q)) [
        | inl e ↦ rw e (add_client-IsGroup m g h₁ l v.mask, vs)
        | inr e ↦ rw e (v, add_to_groups-AllGroups q m gs h₂ l vs)
      ]

  quality-add_client : (m : Member) (g : Group fl) → (add_client fl m g).quality ≡ g.quality
  unfolding add_client
  quality-add_client m g = ground arith

  -- Joining makes a group only where the quality has none.
  pub quality_count-add :
      (j : ℕ) (q : Quality) (m : Member) (gs : List (Group fl))
      → quality_count j (add_to_groups fl q m gs)
        ≡ (if q.index == j then max 1 (quality_count j gs) else quality_count j gs)
  unfolding quality_count add_to_groups
  quality_count-add j q m [] =
      rw (quality-add_client m (new_group fl q)) (unfold new_group in ground arith)
  quality_count-add j q m (g ∷ gs) =
      ground (arith, quality-add_client m g, quality_count-add j q m gs)

  -- A client in no group leaves none.
  pub remove_from_groups-none :
      (i : ℕ) (gs : List (Group fl))
      → find i (all_members gs) ≡ none
      → remove_from_groups fl i gs ≡ gs
  unfolding remove_from_groups all_members
  remove_from_groups-none i [] h = refl
  remove_from_groups-none i (g ∷ gs) h = elim (Option-cases (find i g.clients)) [
    | inl e ↦ rw e (
        ap (λ r. g ∷ r)
          (remove_from_groups-none i gs
            (sym (find-append_none i g.clients (all_members gs) e) ∙ h)))
    | inr (m, e) ↦ cc (find-append_some i g.clients (all_members gs) m e)
  ]

  -- What is left of a group that a client leaves.
  pub remove_client_found :
      (i : ℕ) (g : Group fl) (m : Member)
      → find i g.clients ≡ some m
      → remove_client fl i g ≡ record g {
        client_index_mask = bit_and g.client_index_mask (bit_not m.index);
        clients = remove i g.clients;
      }
  unfolding remove_client
  remove_client_found i g m h = rw (h, remove_client)

  count_if-is_nil : (P : Member → Bool) (xs : List Member) → is_nil xs ≡ true → count_if P xs ≡ 0
  count_if-is_nil P [] h = count_if-nil P
  count_if-is_nil P (x ∷ xs) h = cc

  -- A client that is in a group is counted once less when it leaves.
  pub all_members-remove :
      (P : Member → Bool) (i : ℕ) (gs : List (Group fl)) (m : Member)
      → find i (all_members gs) ≡ some m
      → count_if P (all_members (remove_from_groups fl i gs)) + (if P m then 1 else 0)
        ≡ count_if P (all_members gs)
  unfolding remove_from_groups all_members
  all_members-remove P i [] m h = cc (find-nil i)
  all_members-remove P i (g ∷ gs) m h = elim (Option-cases (find i g.clients)) [
    | inl e ↦
        let h' = sym (find-append_none i g.clients (all_members gs) e) ∙ h in
        rw e (
          omega (
            arith,
            count_if-append P g.clients (all_members gs),
            count_if-append P g.clients (all_members (remove_from_groups fl i gs)),
            all_members-remove P i gs m h',
          ))
    | inr (m', e) ↦
        let same : m' ≡ m = cc (find-append_some i g.clients (all_members gs) m' e) in
        let r = count_if-remove P i g.clients m' e in
        let l = count_if-append P g.clients (all_members gs) in
        rw (← same) (elim (Bool-cases (is_nil (remove i g.clients))) [
          | inl z ↦
              rw (e, remove_client, z)
                (omega (arith, r, l, count_if-is_nil P (remove i g.clients) z))
          | inr z ↦
              rw (e, remove_client, z)
                (omega (arith, r, l, count_if-append P (remove i g.clients) (all_members gs)))
        ])
  ]

  -- The one owner of each bit over all groups is one within each.
  owner_of_all :
      (g : Group fl) (gs : List (Group fl))
      → OneOwner (all_members (g ∷ gs))
      → OneOwner g.clients × OneOwner (all_members gs)
  unfolding all_members
  owner_of_all g gs h = (
    λ k. omega (arith, h k, count_if-append (has_bit k) g.clients (all_members gs)),
    λ k. omega (arith, h k, count_if-append (has_bit k) g.clients (all_members gs)),
  )

  pub remove_from_groups-AllGroups :
      (i : ℕ) (gs : List (Group fl))
      → OneOwner (all_members gs)
      → AllGroups gs
      → AllGroups (remove_from_groups fl i gs)
  unfolding remove_from_groups
  remove_from_groups-AllGroups i [] o v = tt
  remove_from_groups-AllGroups i (g ∷ gs) o (v, vs) =
      let (o₁, o₂) = owner_of_all g gs o in
      elim (Option-cases (find i g.clients)) [
        | inl e ↦ rw e (v, remove_from_groups-AllGroups i gs o₂ vs)
        | inr (m, e) ↦ elim (Bool-cases (is_nil (remove i g.clients))) [
          | inl z ↦ rw (e, remove_client, z) vs
          | inr z ↦
              rw (e, remove_client, z)
                (
                  record {
                    inhabited = z;
                    mask = remove-IsMask g.client_index_mask i g.clients m v.mask o₁ e;
                  },
                  vs,
                )
        ]
      ]

  pub quality_count-remove :
      (j i : ℕ) (gs : List (Group fl))
      → quality_count j (remove_from_groups fl i gs) ≤ quality_count j gs
  unfolding quality_count remove_from_groups
  quality_count-remove j i [] = omega arith
  quality_count-remove j i (g ∷ gs) = ground (arith, quality_count-remove j i gs)

  -- A client that is counted is in a group that is found.
  pub group_with-found :
      (i : ℕ) (gs : List (Group fl)) (m : Member)
      → find i (all_members gs) ≡ some m
      → (g : Group fl) × (group_with fl i gs ≡ some g)
  unfolding group_with all_members
  group_with-found i [] m h = cc (find-nil i)
  group_with-found i (g ∷ gs) m h = elim (Option-cases (find i g.clients)) [
    | inl e ↦
        let h' = sym (find-append_none i g.clients (all_members gs) e) ∙ h in
        let (g', e') = group_with-found i gs m h' in (g', rw e e')
    | inr (m', e) ↦ (g, rw e)
  ]

  pub group_with-none :
      (i : ℕ) (gs : List (Group fl)) → group_with fl i gs ≡ none → find i (all_members gs) ≡ none
  group_with-none i gs h = elim (Option-cases (find i (all_members gs))) [
    | inl e ↦ e
    | inr (m, e) ↦ let (g, e') = group_with-found i gs m e in cc
  ]
