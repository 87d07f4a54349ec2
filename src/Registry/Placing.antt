-- ===== src/Registry/Placing.antt =====
-- Where a change of quality puts a client.
use webx_engine.Common.{
  ℕ, ◌≡◌, refl, sym, subst, true, false, [], ◌∷◌, ◌++◌, Option, none, some, ◌⊎◌, Bool-cases,
  Option-cases, inl, inr, arith,
}
use webx_engine.Common.Floats.{Floats}
use webx_engine.Message.{quality}
use webx_engine.Quality.{Quality, same_quality}
use webx_engine.Client.{Client, set_max_quality}
use webx_engine.Roster.{Member, find, find_of_count}
use webx_engine.Group.{Group, group_with, remove_from_groups}
use webx_engine.Group.Members.{all_members, group_with-found}
use webx_engine.Group.Placing.{group_with-add}
use webx_engine.Registry.{
  Registry, member, members, client_by_id, update_client, set_client_quality,
  set_client_max_quality, not_in_quality, message_to,
}
use webx_engine.Registry.Ledger.{found_in_groups, count_if-left}
use webx_engine.Registry.Clients.{members-update, find-members, client_by_id-id}
use webx_engine.Registry.Branches.{
  join_lem, move_here, move_in, move_there, set_client_quality_lem, set_max_known,
}
use webx_engine.Registry.Invariant.{IsRegistry}

module _ (fl : Floats) where
  -- A client is in a group of a quality.
  pub record IsPlaced (i : ℕ) (q : Quality) (r : Registry fl) : Type 0 where
    pub group : Group fl
    pub at : group_with fl i r.groups ≡ some group
    pub same : same_quality group.quality q ≡ true

  pub set_client_quality-IsPlaced :
      (m : Member) (q : Quality) (r : Registry fl)
      → IsRegistry fl r
      → find m.id (members fl r.clients) ≡ some m
      → IsPlaced m.id q (set_client_quality fl m q r)
  set_client_quality-IsPlaced m q r v h =
      let (g, e) = group_with-found fl m.id r.groups m (found_in_groups fl v m.id m h) in
      elim (Bool-cases (same_quality g.quality q)) [
        | inl z ↦
            rw (set_client_quality_lem fl m q r, move_here fl m q r g e z)
              (record { group = g; at = e; same = z })
        | inr z ↦
            let rest = remove_from_groups fl m.id r.groups in
            let (g', e', s) =
              group_with-add fl q m rest
                (find_of_count m.id (all_members fl rest) (count_if-left fl v m h)) in
            rw
              (
                set_client_quality_lem fl m q r,
                move_there fl m q r g e z,
                join_lem fl q m (record r { groups = rest }),
              )
              (record { group = g'; at = e'; same = s })
      ]

  sent-set_client_quality :
      (m : Member) (q : Quality) (r : Registry fl)
      → (set_client_quality fl m q r).sent
        ≡ r.sent ++ message_to fl m.index (quality (record { quality = q })) ∷ []
  sent-set_client_quality m q r = elim (Option-cases (group_with fl m.id r.groups)) [
    | inl e ↦ rw (set_client_quality_lem fl m q r, move_in fl m q r e, join_lem fl q m r)
    | inr (g, e) ↦ elim (Bool-cases (same_quality g.quality q)) [
      | inl z ↦ rw (set_client_quality_lem fl m q r, move_here fl m q r g e z)
      | inr z ↦ rw (
        set_client_quality_lem fl m q r,
        move_there fl m q r g e z,
        join_lem fl q m (record r { groups = remove_from_groups fl m.id r.groups }),
      )
    ]
  ]

  pub same_of :
      (g : Group fl) (o : Option (Group fl)) (q : Quality)
      → o ≡ some g
      → not_in_quality fl q o ≡ false
      → same_quality g.quality q ≡ true
  same_of g none q e h = cc
  same_of g (some g') q e h = ground arith

  -- `setClientMaxQuality` for a client of a registry that keeps the invariant: the client is then in the
  -- group of that quality, and the client is told so by one message to its index alone, unless it was in
  -- that group before, when no message is sent.
  pub set_client_max_quality-IsPlaced :
      (i : ℕ) (q : Quality) (r : Registry fl) (c : Client fl)
      → IsRegistry fl r
      → client_by_id fl i r.clients ≡ some c
      → IsPlaced i q (set_client_max_quality fl i q r)
        × (((not_in_quality fl q (group_with fl i r.groups) ≡ false)
              × ((set_client_max_quality fl i q r).sent ≡ r.sent))
            ⊎ ((not_in_quality fl q (group_with fl i r.groups) ≡ true)
                × ((set_client_max_quality fl i q r).sent
                    ≡ r.sent ++ message_to fl c.index (quality (record { quality = q })) ∷ [])))
  set_client_max_quality-IsPlaced i q r c v e =
      let f = find-members fl i r.clients c e in
      let r' = record r { clients = update_client fl i (set_max_quality fl q) r.clients } in
      let k : members fl r'.clients ≡ members fl r.clients =
        members-update fl i (set_max_quality fl q) r.clients
          (λ d. unfold set_max_quality in refl) in
      let v' : IsRegistry fl r' = rw k v in
      let j : c.id ≡ i = client_by_id-id fl i r.clients c e in
      let h : find c.id (members fl r'.clients) ≡ some (member fl c) =
        rw k (subst (λ x. find x (members fl r.clients) ≡ some (member fl c)) (sym j) f) in
      elim (Bool-cases (not_in_quality fl q (group_with fl i r.groups))) [
        | inl z ↦
            rw (set_max_known fl i q r c e, z)
              (
                subst (λ x. IsPlaced x q (set_client_quality fl (member fl c) q r')) j
                    (set_client_quality-IsPlaced (member fl c) q r' v' h),
                inr (refl, sent-set_client_quality (member fl c) q r'),
              )
        | inr z ↦
            let (g, a) =
              group_with-found fl i r.groups (member fl c)
                (found_in_groups fl v i (member fl c) f) in
            let s : same_quality g.quality q ≡ true = same_of g (group_with fl i r.groups) q a z in
            rw (set_max_known fl i q r c e, z)
              (record { group = g; at = a; same = s }, inl (refl, refl))
      ]
