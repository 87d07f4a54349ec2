-- ===== src/Registry/Calls.antt =====
-- What the calls of the registry do, in any registry that its calls lead to.
use Prim.Native.Nat.{bit_or}
use webx_engine.Common.{
  ℕ, ◌+◌, ◌≡◌, ◌≢◌, refl, ap, Bool, true, false, List, [], ◌∷◌, ◌++◌, none, some, ◌==◌,
  if◌then◌else◌, Option-cases, ◌⊎◌, inl, inr, arith, ok, err, ◌&&◌,
}
use webx_engine.Common.Bits.{bit, bit_not}
use webx_engine.Common.Floats.{Floats}
use webx_engine.Message.{Version, disconnect}
use webx_engine.Quality.{Quality, same_quality, max_quality}
use webx_engine.Client.{Client, new_client}
use webx_engine.Roster.{
  Member, has_bit, has_id, find, find-id, remove, count_if, count_if-remove, find_of_count,
}
use webx_engine.Group.{Group, group_with}
use webx_engine.Group.Members.{group_with-found}
use webx_engine.Registry.{
  Registry, Settings, new_registry, member, members, client_by_id, draw_id, join, add_client,
  remove_client, client_id_unknown, next_index, index_rounds,
}
use webx_engine.Registry.Steps.{
  Call, adds, removes, sets_max_quality, pongs, acks, handles_pings, verifies_quality, damages,
  shows, updates, step, run,
}
use webx_engine.Registry.Rounds.{disconnects_for, disconnect_all}
use webx_engine.Registry.Pings.{told}
use webx_engine.Registry.Index.{IsLowestFree, next_index-IsLowestFree}
use webx_engine.Registry.Ledger.{found_in_groups, not_in_groups, remove_unknown}
use webx_engine.Group.Placing.{group_with-add, group_with-none_of}
use webx_engine.Registry.Clients.{find-members, find-members-none, draw_id-fresh, members-erase}
use webx_engine.Registry.Branches.{
  added_client, with_client, add_client_drawn, join_lem, remove_client_unknown, remove_client_known,
}
use webx_engine.Registry.Invariant.{
  IsRegistry, drawn-IsRegistry, members-joined, new_registry-IsRegistry, add_client-IsRegistry,
  remove_client-IsRegistry, set_client_max_quality-IsRegistry, on_pong-IsRegistry,
  on_data_ack-IsRegistry,
}
use webx_engine.Registry.Invariant.Rounds.{
  handle_client_pings-IsRegistry, verify_quality-IsRegistry,
}
use webx_engine.Registry.Invariant.Windows.{
  add_window_damage-IsRegistry, show_visible-IsRegistry, handle_updates-IsRegistry,
}

module _ (fl : Floats) where
  pub step-IsRegistry :
      (settings : Settings) (now : ℕ) (call : Call fl) (r : Registry fl)
      → IsRegistry fl r
      → IsRegistry fl (step fl settings now call r)
  unfolding step
  step-IsRegistry settings now (adds version) r v =
      add_client-IsRegistry fl settings now version r v
  step-IsRegistry settings now (removes i) r v = remove_client-IsRegistry fl i r v
  step-IsRegistry settings now (sets_max_quality i q) r v =
      set_client_max_quality-IsRegistry fl i q r v
  step-IsRegistry settings now (pongs i s t) r v = on_pong-IsRegistry fl now i s t r v
  step-IsRegistry settings now (acks i s t n) r v = on_data_ack-IsRegistry fl now i s t n r v
  step-IsRegistry settings now (damages damage) r v =
      add_window_damage-IsRegistry fl settings now damage r v
  step-IsRegistry settings now (shows vs) r v = show_visible-IsRegistry fl settings now vs r v
  step-IsRegistry settings now (updates handler) r v =
      handle_updates-IsRegistry fl settings now handler r v
  step-IsRegistry settings now handles_pings r v = handle_client_pings-IsRegistry fl now r v
  step-IsRegistry settings now verifies_quality r v = verify_quality-IsRegistry fl settings now r v

  run_from-IsRegistry :
      (settings : Settings) (calls : List (ℕ × Call fl)) (r : Registry fl)
      → IsRegistry fl r
      → IsRegistry fl (run fl settings calls r)
  unfolding run
  run_from-IsRegistry settings [] r v = v
  run_from-IsRegistry settings ((now, call) ∷ calls) r v =
      run_from-IsRegistry settings calls (step fl settings now call r)
        (step-IsRegistry settings now call r v)

  -- `disconnectAll`: no clients and no groups are left, the mask is as it was, and each client has been sent
  -- one message of disconnection at its index.
  pub record IsDisconnected (r r' : Registry fl) : Type 0 where
    pub no_clients : r'.clients ≡ []
    pub no_groups : r'.groups ≡ []
    pub same_mask : r'.client_index_mask ≡ r.client_index_mask
    pub sent : r'.sent ≡ r.sent ++ told fl disconnect r.clients

  disconnects_for-told : (cs : List (Client fl)) → disconnects_for fl cs ≡ told fl disconnect cs
  unfolding disconnects_for told
  disconnects_for-told [] = refl
  disconnects_for-told (c ∷ cs) = rw (disconnects_for-told cs) refl

  disconnect_all-IsDisconnected : (r : Registry fl) → IsDisconnected r (disconnect_all fl r)
  unfolding disconnect_all
  disconnect_all-IsDisconnected r = record {
    no_clients = refl;
    no_groups = refl;
    same_mask = refl;
    sent = ap (λ ms. r.sent ++ ms) (disconnects_for-told r.clients);
  }

  -- After any sequence of calls of `addClient`, `removeClient`, `setClientMaxQuality`, `onPongReceived`,
  -- `onDataAckReceived`, `addWindowDamage`, `updateVisibleWindows`, `handleWindowGraphicalUpdates`,
  -- `handleClientPings` and `performQualityVerification` on a new registry, at any times, with any
  -- random numbers and any results of the handler of the updates: identifiers are unique, no bit is in
  -- the indices of two clients, the mask has exactly the bits of the clients' indices, each client is in
  -- exactly one group, each group has a client and the mask of its clients, and no two groups have the
  -- same quality index. A `disconnectAll` then leaves no client and no group and the mask as it was, and
  -- has sent each client one message of disconnection at its index alone.
  pub run-IsRegistry :
      (settings : Settings) (draws : List ℕ) (calls : List (ℕ × Call fl))
      → let r = run fl settings calls (new_registry fl draws) in
        IsRegistry fl r × IsDisconnected r (disconnect_all fl r)
  run-IsRegistry settings draws calls = (
    run_from-IsRegistry settings calls (new_registry fl draws) (new_registry-IsRegistry fl draws),
    disconnect_all-IsDisconnected (run fl settings calls (new_registry fl draws)),
  )

  -- In a registry that keeps the invariant, each client is in the group that
  -- `getGroupWithClientId` finds: the pointer that `performQualityVerification` follows is not null.
  pub group_with-client :
      (r : Registry fl) (i : ℕ) (c : Client fl)
      → IsRegistry fl r
      → client_by_id fl i r.clients ≡ some c
      → (g : Group fl) × (group_with fl i r.groups ≡ some g)
  group_with-client r i c v h =
      group_with-found fl i r.groups (member fl c)
        (found_in_groups fl v i (member fl c) (find-members fl i r.clients c h))

  pub draw_id-ends :
      (before after : List ℕ) (d : ℕ) (cs : List (Client fl))
      → client_by_id fl d cs ≡ none
      → (i : ℕ) × (ds : List ℕ) × (draw_id fl (before ++ d ∷ after) cs ≡ some (i, ds))
  unfolding draw_id
  draw_id-ends [] after d cs h = (d, after, rw (h, draw_id))
  draw_id-ends (b ∷ before) after d cs h = elim (Option-cases (client_by_id fl b cs)) [
    | inl e ↦ (b, before ++ d ∷ after, rw (e, draw_id))
    | inr (c, e) ↦ let (i, ds, p) = draw_id-ends before after d cs h in (i, ds, rw (e, draw_id) p)
  ]

  client_by_id-append :
      (i : ℕ) (cs : List (Client fl)) (c : Client fl)
      → client_by_id fl i cs ≡ none
      → c.id ≡ i
      → client_by_id fl i (cs ++ c ∷ []) ≡ some c
  unfolding client_by_id
  client_by_id-append i [] c h e = ground arith
  client_by_id-append i (d ∷ cs) c h e = ground (arith, client_by_id-append i cs c)

  -- What `addClient` gives: the identifier, the index and the registry after it.
  pub record IsAdded (q : Quality) (r : Registry fl) (client_id client_index : ℕ)
      (after : Registry fl) : Type 0 where
    pub fresh : client_by_id fl client_id r.clients ≡ none
    pub lowest_free : IsLowestFree r.client_index_mask client_index
    pub mask : after.client_index_mask ≡ bit_or r.client_index_mask client_index
    pub still : IsRegistry fl after
    pub clients :
        members fl after.clients
        ≡ members fl r.clients ++ (record { id = client_id; index = client_index }) ∷ []
    pub group : Group fl
    pub grouped : group_with fl client_id after.groups ≡ some group
    pub at_quality : same_quality group.quality q ≡ true

  -- `addClient` on a registry that keeps the invariant, has a free index and has a random number to come
  -- that is no client's identifier: it ends and gives an identifier that no client had and the lowest
  -- free bit as the index, sets that bit of the mask, adds that client after the others, puts it in the
  -- group of the greatest quality, and keeps the invariant.
  pub add_client-IsAdded :
      (settings : Settings) (now : ℕ) (version : Version) (r : Registry fl) (before after : List ℕ)
      (d : ℕ)
      → IsRegistry fl r
      → bit_not r.client_index_mask ≢ 0
      → r.draws ≡ before ++ d ∷ after
      → client_by_id fl d r.clients ≡ none
      → (client_id client_index : ℕ) × (r' : Registry fl) × (add_client fl settings now version r
          ≡ some (ok (client_id, client_index), r'))
        × IsAdded
            (max_quality settings.quality.max_runtime_quality_index)
            r
            client_id
            client_index
            r'
  unfolding new_client
  add_client-IsAdded settings now version r before after d v n e h =
      let some_free : (bit_not r.client_index_mask == 0) ≡ false = ground (arith, n) in
      let (i, ds, p) = draw_id-ends before after d r.clients h in
      let p' : draw_id fl r.draws r.clients ≡ some (i, ds) = rw e p in
      let index = next_index index_rounds 1 r.client_index_mask in
      let c = added_client fl settings now version r i in
      let q = max_quality settings.quality.max_runtime_quality_index in
      let fresh = draw_id-fresh fl r.draws r.clients i ds p' in
      let lowest = next_index-IsLowestFree r.client_index_mask v.mask_ok.fits n in
      let r' = join fl q (member fl c) (with_client fl c ds r) in
      let (g, at, same) =
        group_with-add fl q (member fl c) r.groups
          (not_in_groups fl v i (find-members-none fl i r.clients fresh)) in
      (
        i,
        index,
        r',
        add_client_drawn fl settings now version r i ds some_free p',
        record {
          fresh = fresh;
          lowest_free = lowest;
          mask =
              ap (λ s. s.client_index_mask) (join_lem fl q (member fl c) (with_client fl c ds r));
          still = drawn-IsRegistry fl c q ds r v fresh lowest;
          clients = members-joined fl c q ds r;
          group = g;
          grouped = rw (join_lem fl q (member fl c) (with_client fl c ds r)) at;
          at_quality = same;
        },
      )

  -- The registry after a client has left: no client and no group has the identifier, and one client less
  -- is counted by every test that it passes.
  pub record IsRemoved (i : ℕ) (m : Member) (r after : Registry fl) : Type 0 where
    pub gone : find i (members fl after.clients) ≡ none
    pub ungrouped : group_with fl i after.groups ≡ none
    pub freed : (k : ℕ) → (bit m.index k && bit after.client_index_mask k) ≡ false
    pub others :
        (P : Member → Bool)
        → count_if P (members fl after.clients) + (if P m then 1 else 0)
          ≡ count_if P (members fl r.clients)
    pub still : IsRegistry fl after

  known-IsRemoved :
      (i : ℕ) (r : Registry fl) (c : Client fl)
      → IsRegistry fl r
      → client_by_id fl i r.clients ≡ some c
      → IsRemoved i (member fl c) r (remove_client fl i r).1
  known-IsRemoved i r c v e =
      let m = member fl c in
      let f = find-members fl i r.clients c e in
      let after = (remove_client fl i r).1 in
      let still = remove_client-IsRegistry fl i r v in
      let cut : members fl after.clients ≡ remove i (members fl r.clients) =
        rw (remove_client_known fl i r c e, members-erase fl i r.clients) in
      let counts : (P : Member → Bool)
          → count_if P (members fl after.clients) + (if P m then 1 else 0)
            ≡ count_if P (members fl r.clients) =
        λ P. rw cut (count_if-remove P i (members fl r.clients) m f) in
      let gone : find i (members fl after.clients) ≡ none =
        find_of_count i (members fl after.clients)
          (ground (arith, counts (has_id i), v.unique i, find-id i (members fl r.clients) m f)) in
      record {
        gone = gone;
        ungrouped = group_with-none_of fl i after.groups (not_in_groups fl still i gone);
        freed = λ k. ground (arith, still.mask_ok.bits k, counts (has_bit k), v.owner k);
        others = counts;
        still = still;
      }

  -- `removeClient` on a registry that keeps the invariant. An identifier of no client: it fails and the
  -- registry is as it was. An identifier of a client: it succeeds; no client and no group has that
  -- identifier any more, the bits of its index are free, every test counts one client less if it holds
  -- of the removed one and as many as before if not, and the invariant is kept.
  pub remove_client-IsRemoved :
      (i : ℕ) (r : Registry fl)
      → IsRegistry fl r
      → ((client_by_id fl i r.clients ≡ none) × (remove_client fl i r ≡ (err client_id_unknown, r)))
        ⊎ ((c : Client fl) × (client_by_id fl i r.clients ≡ some c)
            × ((remove_client fl i r).0 ≡ ok tt)
            × IsRemoved i (member fl c) r (remove_client fl i r).1)
  remove_client-IsRemoved i r v = elim (Option-cases (client_by_id fl i r.clients)) [
    | inl e ↦ inl (
      e,
      rw
          (
            remove_client_unknown fl i r e,
            remove_unknown fl v i (find-members-none fl i r.clients e),
          )
          refl,
    )
    | inr (c, e) ↦ inr (c, e, rw (remove_client_known fl i r c e), known-IsRemoved i r c v e)
  ]
