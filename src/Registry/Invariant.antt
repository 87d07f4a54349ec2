-- ===== src/Registry/Invariant.antt =====
-- What every call of the registry keeps.
pub mod Rounds
pub mod Windows
use webx_engine.Common.{
  ℕ, ◌^◌, ◌<◌, ◌≤◌, ◌≡◌, refl, sym, subst, true, false, List, [], ◌∷◌, ◌++◌, none, some, ◌==◌,
  Bool-cases, Option-cases, inl, inr, arith,
}
use native.Mathlib.Nat.{pow-le-pow_right}
use webx_engine.Common.Bits.{bit, bit_not, bit-pow}
use webx_engine.Common.Floats.{Floats}
use webx_engine.Message.{Version, disconnect}
use webx_engine.Quality.{Quality, same_quality, max_quality}
use webx_engine.Client.{
  Client, new_client, set_max_quality, update_ping_status, on_pong_received, on_data_ack_received,
}
use webx_engine.Roster.{Member, find}
use webx_engine.Group.{group_with, remove_from_groups, joined_average}
use webx_engine.Group.Members.{group_with-found}
use webx_engine.Registry.{
  Registry, Settings, new_registry, member, members, client_by_id, update_client, draw_id, join,
  add_client, remove_client, set_client_quality, set_client_max_quality, on_pong, on_data_ack,
  message_to, send, not_in_quality,
}
use webx_engine.Registry.Steps.{after_add}
use webx_engine.Registry.Rounds.{
  update_all, ping_clients, verify_groups, remove_timeouts, with_timeout, send_pings,
  handle_client_pings, adjust_client, adjust_clients, verify_quality,
}
use webx_engine.Registry.Branches.{
  added_client, with_client, add_client_full, add_client_undrawn, add_client_drawn, join_lem,
  remove_client_unknown, remove_client_known, move_here, move_there, set_client_quality_lem,
  set_max_unknown, set_max_known, adjust_client_cases,
}
use webx_engine.Registry.Index.{IsLowestFree, next_index-IsLowestFree}
use webx_engine.Registry.Ledger.{
  IsLedger, nil-IsLedger, add-IsLedger, remove-IsLedger, move-IsLedger, remove_unknown,
  found_in_groups,
}
use webx_engine.Registry.Clients.{
  members-append, members_one, members-nil, members-erase, members-update, members-update_all,
  members-ping_clients, members-verify_groups, members-reset_joined, find-members,
  find-members-none, client_by_id-id, draw_id-fresh,
}

-- The free bit that `addClient` finds is no bit of the mask.
free_bits :
    (mask index : ℕ)
    → IsLowestFree mask index
    → (index < 2 ^ 64) × ((k : ℕ) → bit index k ≡ true → bit mask k ≡ false)
free_bits mask index v =
    let le : 2 ^ v.position ≤ 2 ^ 63 =
      pow-le-pow_right (omega arith) {j = 63} (omega (arith, v.in_word)) in
    let below : 2 ^ v.position < 2 ^ 64 = omega arith in
    rw v.is_bit (
      below,
      λ k h.
          let e : v.position ≡ k = ground (arith, bit-pow v.position k) in
          subst (λ j. bit mask j ≡ false) e v.free,
    )

module _ (fl : Floats) where
  -- The invariant of a registry.
  abbrev pub IsRegistry : Registry fl → Type 0
  IsRegistry r = IsLedger fl r.client_index_mask (members fl r.clients) r.groups

  pub new_registry-IsRegistry : (draws : List ℕ) → IsRegistry (new_registry fl draws)
  unfolding new_registry
  new_registry-IsRegistry draws = rw (members-nil fl) (nil-IsLedger fl)

  -- An added client.
  pub members-joined :
      (c : Client fl) (q : Quality) (ds : List ℕ) (r : Registry fl)
      → members fl (join fl q (member fl c) (with_client fl c ds r)).clients
        ≡ members fl r.clients ++ member fl c ∷ []
  members-joined c q ds r = rw (
    join_lem fl q (member fl c) (with_client fl c ds r),
    members-reset_joined fl c.id (joined_average fl q c.id r.groups) (r.clients ++ c ∷ []),
    members-append fl r.clients (c ∷ []),
    members_one fl c,
  )

  pub drawn-IsRegistry :
      (c : Client fl) (q : Quality) (ds : List ℕ) (r : Registry fl)
      → IsRegistry r
      → client_by_id fl c.id r.clients ≡ none
      → IsLowestFree r.client_index_mask c.index
      → IsRegistry (join fl q (member fl c) (with_client fl c ds r))
  drawn-IsRegistry c q ds r v e f =
      let (l, free) = free_bits r.client_index_mask c.index f in
      rw
        (
          join_lem fl q (member fl c) (with_client fl c ds r),
          members-reset_joined fl c.id (joined_average fl q c.id r.groups) (r.clients ++ c ∷ []),
          members-append fl r.clients (c ∷ []),
          members_one fl c,
        )
        (add-IsLedger fl v q (member fl c) (find-members-none fl c.id r.clients e) l free)

  pub add_client-IsRegistry :
      (settings : Settings) (now : ℕ) (version : Version) (r : Registry fl)
      → IsRegistry r
      → IsRegistry (after_add fl r (add_client fl settings now version r))
  unfolding new_client
  add_client-IsRegistry settings now version r v =
      elim (Bool-cases (bit_not r.client_index_mask == 0)) [
        | inl full ↦ rw (add_client_full fl settings now version r full) v
        | inr some_free ↦ elim (Option-cases (draw_id fl r.draws r.clients)) [
          | inl e ↦ rw (add_client_undrawn fl settings now version r some_free e) v
          | inr ((d, ds), e) ↦ rw (add_client_drawn fl settings now version r d ds some_free e) (
              drawn-IsRegistry (added_client fl settings now version r d)
                (max_quality settings.quality.max_runtime_quality_index) ds r v
                (draw_id-fresh fl r.draws r.clients d ds e)
                (next_index-IsLowestFree r.client_index_mask v.mask_ok.fits (ground arith)))
        ]
      ]

  pub remove_client-IsRegistry :
      (i : ℕ) (r : Registry fl) → IsRegistry r → IsRegistry (remove_client fl i r).1
  remove_client-IsRegistry i r v = elim (Option-cases (client_by_id fl i r.clients)) [
    | inl e ↦
        rw
          (
            remove_client_unknown fl i r e,
            remove_unknown fl v i (find-members-none fl i r.clients e),
          )
          v
    | inr (c, e) ↦
        rw (remove_client_known fl i r c e, members-erase fl i r.clients)
          (remove-IsLedger fl v i (member fl c) (find-members fl i r.clients c e))
  ]

  -- A change of quality.
  pub set_client_quality-IsRegistry :
      (m : Member) (q : Quality) (r : Registry fl)
      → IsRegistry r
      → find m.id (members fl r.clients) ≡ some m
      → IsRegistry (set_client_quality fl m q r)
  set_client_quality-IsRegistry m q r v h =
      let (g, e) = group_with-found fl m.id r.groups m (found_in_groups fl v m.id m h) in
      elim (Bool-cases (same_quality g.quality q)) [
        | inl z ↦ rw (set_client_quality_lem fl m q r, move_here fl m q r g e z) v
        | inr z ↦
            let r' = record r { groups = remove_from_groups fl m.id r.groups } in
            rw
              (
                set_client_quality_lem fl m q r,
                move_there fl m q r g e z,
                join_lem fl q m r',
                members-reset_joined fl m.id (joined_average fl q m.id r'.groups) r.clients,
              )
              (move-IsLedger fl v q m h)
      ]

  -- A change of the clients that keeps their identifiers and indices.
  pub same_members :
      (cs : List (Client fl)) (r : Registry fl)
      → IsRegistry r
      → members fl cs ≡ members fl r.clients
      → IsRegistry (record r { clients = cs })
  same_members cs r v e = rw e v

  pub set_client_max_quality-IsRegistry :
      (i : ℕ) (q : Quality) (r : Registry fl)
      → IsRegistry r
      → IsRegistry (set_client_max_quality fl i q r)
  set_client_max_quality-IsRegistry i q r v = elim (Option-cases (client_by_id fl i r.clients)) [
    | inl e ↦ rw (set_max_unknown fl i q r e) v
    | inr (c, e) ↦
        let k : members fl (update_client fl i (set_max_quality fl q) r.clients)
            ≡ members fl r.clients =
          members-update fl i (set_max_quality fl q) r.clients
            (λ d. unfold set_max_quality in refl) in
        let r' = record r { clients = update_client fl i (set_max_quality fl q) r.clients } in
        let v' : IsRegistry r' = rw k v in
        let h : find c.id (members fl r.clients) ≡ some (member fl c) =
          subst (λ j. find j (members fl r.clients) ≡ some (member fl c))
            (sym (client_by_id-id fl i r.clients c e)) (find-members fl i r.clients c e) in
        rw (set_max_known fl i q r c e)
          (elim (Bool-cases (not_in_quality fl q (group_with fl i r.groups))) [
            | inl z ↦ rw z (set_client_quality-IsRegistry (member fl c) q r' v' (rw k h))
            | inr z ↦ rw z v'
          ])
  ]

  -- The calls that change clients one by one.
  pub on_pong-IsRegistry :
      (now i sent_ms recv_ms : ℕ) (r : Registry fl)
      → IsRegistry r
      → IsRegistry (on_pong fl now i sent_ms recv_ms r)
  unfolding on_pong on_pong_received
  on_pong-IsRegistry now i sent_ms recv_ms r v =
      same_members (update_client fl i (on_pong_received fl now sent_ms recv_ms) r.clients) r v
        (members-update fl i (on_pong_received fl now sent_ms recv_ms) r.clients (λ c. refl))

  pub on_data_ack-IsRegistry :
      (now i sent_ms recv_ms n : ℕ) (r : Registry fl)
      → IsRegistry r
      → IsRegistry (on_data_ack fl now i sent_ms recv_ms n r)
  unfolding on_data_ack on_data_ack_received
  on_data_ack-IsRegistry now i sent_ms recv_ms n r v =
      same_members (update_client fl i (on_data_ack_received fl now sent_ms recv_ms n) r.clients) r
        v
        (members-update fl i (on_data_ack_received fl now sent_ms recv_ms n) r.clients (λ c. refl))
