-- ===== src/Registry/Refinement/Steps.antt =====
-- Each call of the registry does to its map of levels what it may do.
use webx_engine.Common.{
  ℕ, ◌≡◌, ◌≤◌, refl, sym, ◌∙◌, subst, List, [], ◌∷◌, some, ◌==◌, Bool-cases, Option-cases, inl, inr,
  arith,
}
use webx_engine.Common.Bits.{bit_not}
use webx_engine.Common.Floats.{Floats}
use webx_engine.Message.{Version, disconnect}
use webx_engine.Quality.{Quality, same_quality, max_quality}
use webx_engine.Client.{new_client, set_max_quality, update_ping_status}
use webx_engine.Roster.{Member, has_id, find, count_if, find_of_count}
use webx_engine.Group.{group_with, remove_from_groups}
use webx_engine.Group.Members.{all_members, group_with-found}
use webx_engine.Group.Views.{level-add, level-remove, level-group_with, level-none}
use webx_engine.Registry.{
  Registry, Settings, member, members, client_by_id, draw_id, add_client, remove_client,
  update_client, set_client_quality, set_client_max_quality, not_in_quality, message_to, send,
}
use webx_engine.Registry.Rounds.{
  remove_timeouts, adjust_client, adjust_clients, verify_quality, verify_groups,
  handle_client_pings, with_timeout, update_all, send_pings,
}
use webx_engine.Registry.Steps.{adds, sets_max_quality, handles_pings, verifies_quality, after_add}
use webx_engine.Registry.Branches.{
  added_client, with_client, add_client_full, add_client_undrawn, add_client_drawn, join_lem,
  remove_client_unknown, remove_client_known, move_here, move_there, set_client_quality_lem,
  set_max_unknown, set_max_known, adjust_client_cases,
}
use webx_engine.Registry.Ledger.{found_in_groups, not_in_groups, count_if-left}
use webx_engine.Registry.Clients.{
  find-members, find-members-none, draw_id-fresh, client_by_id-id, members-update,
  members-update_all, members-verify_groups,
}
use webx_engine.Registry.Invariant.Rounds.{adjust_client-IsRegistry}
use webx_engine.Registry.Invariant.{IsRegistry, same_members, remove_client-IsRegistry}
use webx_engine.Registry.Placing.{same_of}
use webx_engine.Registry.Refinement.{
  insert, delete, delete_all, IsMoved, stays, moves, IsChange, joins, refuses, levels_to, ignores,
  time_out, adjusts, levels,
}

module _ (fl : Floats) (settings : Settings) where
  one_in_groups :
      (i : ℕ) (r : Registry fl)
      → IsRegistry fl r
      → count_if (has_id i) (all_members fl r.groups) ≤ 1
  one_in_groups i r v = omega (arith, v.same (has_id i), v.unique i)

  -- `addClient`
  pub add-IsChange :
      (now : ℕ) (version : Version) (r : Registry fl)
      → IsRegistry fl r
      → IsChange fl settings
          (adds version)
          (levels fl r)
          (levels fl (after_add fl r (add_client fl settings now version r)))
  unfolding new_client
  add-IsChange now version r v = elim (Bool-cases (bit_not r.client_index_mask == 0)) [
    | inl full ↦ rw (add_client_full fl settings now version r full) (refuses version (λ j. refl))
    | inr free ↦ elim (Option-cases (draw_id fl r.draws r.clients)) [
      | inl e ↦
          rw (add_client_undrawn fl settings now version r free e) (refuses version (λ j. refl))
      | inr ((d, ds), e) ↦
          let c = added_client fl settings now version r d in
          let q = max_quality settings.quality.max_runtime_quality_index in
          let n =
            not_in_groups fl v d
              (find-members-none fl d r.clients (draw_id-fresh fl r.draws r.clients d ds e)) in
          rw (add_client_drawn fl settings now version r d ds free e) (
            joins version d (level-none fl d r.groups n) (λ j.
              rw (join_lem fl q (member fl c) (with_client fl c ds r))
                (level-add fl q (member fl c) r.groups j n)))
    ]
  ]

  -- `removeClient`
  pub levels-remove :
      (i : ℕ) (r : Registry fl) (j : ℕ)
      → IsRegistry fl r
      → levels fl (remove_client fl i r).1 j ≡ delete i (levels fl r) j
  levels-remove i r j v = elim (Option-cases (client_by_id fl i r.clients)) [
    | inl e ↦
        rw (remove_client_unknown fl i r e) (level-remove fl i r.groups j (one_in_groups i r v))
    | inr (c, e) ↦
        rw (remove_client_known fl i r c e) (level-remove fl i r.groups j (one_in_groups i r v))
  ]

  -- A change of quality.
  levels-set_quality :
      (m : Member) (q : Quality) (r : Registry fl) (j : ℕ)
      → IsRegistry fl r
      → find m.id (members fl r.clients) ≡ some m
      → levels fl (set_client_quality fl m q r) j ≡ insert m.id q.index (levels fl r) j
  levels-set_quality m q r j v h =
      let (g, e) = group_with-found fl m.id r.groups m (found_in_groups fl v m.id m h) in
      let l = level-group_with fl m.id r.groups g e in
      elim (Bool-cases (same_quality g.quality q)) [
        | inl z ↦ rw (set_client_quality_lem fl m q r, move_here fl m q r g e z) (ground (arith, l))
        | inr z ↦
            let rest = remove_from_groups fl m.id r.groups in
            let n = find_of_count m.id (all_members fl rest) (count_if-left fl v m h) in
            rw
              (
                set_client_quality_lem fl m q r,
                move_there fl m q r g e z,
                join_lem fl q m (record r { groups = rest }),
                level-add fl q m rest j n,
                level-remove fl m.id r.groups j (one_in_groups m.id r v),
              )
              (ground arith)
      ]

  -- `handleClientPings`
  levels-remove_timeouts :
      (ms : List Member) (r : Registry fl) (j : ℕ)
      → IsRegistry fl r
      → levels fl (remove_timeouts fl ms r) j ≡ delete_all ms (levels fl r) j
  unfolding remove_timeouts
  levels-remove_timeouts [] r j v = refl
  levels-remove_timeouts (m ∷ ms) r j v =
      let r' = send fl (message_to fl m.index disconnect) r in
      let r'' = (remove_client fl m.id r').1 in
      levels-remove_timeouts ms r'' j (remove_client-IsRegistry fl m.id r' v)
      ∙ ground (arith, levels-remove m.id r' j v)

  pub pings-IsChange :
      (now : ℕ) (r : Registry fl)
      → IsRegistry fl r
      → IsChange fl settings handles_pings (levels fl r) (levels fl (handle_client_pings fl now r))
  unfolding handle_client_pings send_pings update_ping_status
  pings-IsChange now r v =
      let updated = update_all fl (update_ping_status fl now) r.clients in
      let v' : IsRegistry fl (record r { clients = updated }) =
        same_members fl updated r v
          (members-update_all fl (update_ping_status fl now) r.clients (λ c. refl)) in
      time_out (with_timeout fl updated) (λ j.
        levels-remove_timeouts (with_timeout fl updated) (record r { clients = updated }) j v')

  -- `setClientMaxQuality`
  pub max_quality-IsChange :
      (i : ℕ) (q : Quality) (r : Registry fl)
      → IsRegistry fl r
      → IsChange fl settings
          (sets_max_quality i q)
          (levels fl r)
          (levels fl (set_client_max_quality fl i q r))
  max_quality-IsChange i q r v = elim (Option-cases (client_by_id fl i r.clients)) [
    | inl e ↦
        let n = not_in_groups fl v i (find-members-none fl i r.clients e) in
        rw (set_max_unknown fl i q r e) (ignores i q (level-none fl i r.groups n) (λ j. refl))
    | inr (c, e) ↦
        let k : members fl (update_client fl i (set_max_quality fl q) r.clients)
            ≡ members fl r.clients =
          members-update fl i (set_max_quality fl q) r.clients
            (λ d. unfold set_max_quality in refl) in
        let r' = record r { clients = update_client fl i (set_max_quality fl q) r.clients } in
        let v' : IsRegistry fl r' = rw k v in
        let s = client_by_id-id fl i r.clients c e in
        let f = find-members fl i r.clients c e in
        let h : find c.id (members fl r.clients) ≡ some (member fl c) =
          subst (λ j. find j (members fl r.clients) ≡ some (member fl c)) (sym s) f in
        let (g, a) =
          group_with-found fl i r.groups (member fl c) (found_in_groups fl v i (member fl c) f) in
        let l = level-group_with fl i r.groups g a in
        rw (set_max_known fl i q r c e)
          (elim (Bool-cases (not_in_quality fl q (group_with fl i r.groups))) [
            | inl z ↦ rw z (
                levels_to i g.quality.index q l (λ j.
                  subst
                    (λ x.
                      levels fl (set_client_quality fl (member fl c) q r') j
                      ≡ insert x q.index (levels fl r) j)
                    s (levels-set_quality (member fl c) q r' j v' (rw k h))))
            | inr z ↦ rw z (
                levels_to i g.quality.index q l
                  (λ j. ground (arith, l, same_of fl g (group_with fl i r.groups) q a z)))
          ])
  ]

  -- `performQualityVerification`
  IsMoved-adjust :
      (ms : List Member) (r : Registry fl)
      → IsRegistry fl r
      → IsMoved (levels fl r) (levels fl (adjust_clients fl settings ms r))
  unfolding adjust_clients
  IsMoved-adjust [] r v = stays (λ j. refl)
  IsMoved-adjust (m ∷ ms) r v =
      let v' = adjust_client-IsRegistry fl settings m.id r v in
      let rest = IsMoved-adjust ms (adjust_client fl settings m.id r) v' in
      elim (adjust_client_cases fl settings m.id r) [
        | inl e ↦
            subst
              (λ s.
                IsMoved (levels fl s)
                  (levels fl (adjust_clients fl settings ms (adjust_client fl settings m.id r))))
              e rest
        | inr (c, q, e, a) ↦
            let s = client_by_id-id fl m.id r.clients c e in
            let f = find-members fl m.id r.clients c e in
            let h : find c.id (members fl r.clients) ≡ some (member fl c) =
              subst (λ j. find j (members fl r.clients) ≡ some (member fl c)) (sym s) f in
            let (g, b) =
              group_with-found fl c.id r.groups (member fl c)
                (found_in_groups fl v c.id (member fl c) h) in
            moves c.id g.quality.index q.index (level-group_with fl c.id r.groups g b)
              (λ j. rw a (levels-set_quality (member fl c) q r j v h)) rest
      ]

  pub verify-IsChange :
      (now : ℕ) (r : Registry fl)
      → IsRegistry fl r
      → IsChange fl settings verifies_quality
          (levels fl r)
          (levels fl (verify_quality fl settings now r))
  unfolding verify_quality
  verify-IsChange now r v =
      let cs = verify_groups fl now r.groups r.clients in
      adjusts (
        IsMoved-adjust (members fl cs) (record r { clients = cs })
          (same_members fl cs r v (members-verify_groups fl now r.groups r.clients)))
