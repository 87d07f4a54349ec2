-- ===== src/Registry/Invariant/Rounds.antt =====
-- What the rounds through all clients keep.
use webx_engine.Common.{ℕ, ◌≡◌, refl, sym, subst, List, [], ◌∷◌, some, inl, inr}
use webx_engine.Common.Floats.{Floats}
use webx_engine.Message.{disconnect}
use webx_engine.Client.{update_ping_status}
use webx_engine.Roster.{Member, find}
use webx_engine.Registry.{Registry, Settings, member, members, remove_client, message_to, send}
use webx_engine.Registry.Rounds.{
  update_all, ping_clients, verify_groups, remove_timeouts, with_timeout, send_pings,
  handle_client_pings, adjust_client, adjust_clients, verify_quality,
}
use webx_engine.Registry.Branches.{adjust_client_cases}
use webx_engine.Registry.Clients.{
  members-update_all, members-ping_clients, members-verify_groups, find-members, client_by_id-id,
}
use webx_engine.Registry.Invariant.{
  IsRegistry, same_members, remove_client-IsRegistry, set_client_quality-IsRegistry,
}

module _ (fl : Floats) where
  -- Pings.
  pub remove_timeouts-IsRegistry :
      (ms : List Member) (r : Registry fl)
      → IsRegistry fl r
      → IsRegistry fl (remove_timeouts fl ms r)
  unfolding remove_timeouts
  remove_timeouts-IsRegistry [] r v = v
  remove_timeouts-IsRegistry (m ∷ ms) r v =
      let r' = send fl (message_to fl m.index disconnect) r in
      remove_timeouts-IsRegistry ms (remove_client fl m.id r').1
        (remove_client-IsRegistry fl m.id r' v)

  pub handle_client_pings-IsRegistry :
      (now : ℕ) (r : Registry fl) → IsRegistry fl r → IsRegistry fl (handle_client_pings fl now r)
  unfolding handle_client_pings send_pings update_ping_status
  handle_client_pings-IsRegistry now r v =
      let updated = update_all fl (update_ping_status fl now) r.clients in
      let r' = record r { clients = updated } in
      let v' : IsRegistry fl r' =
        same_members fl updated r v
          (members-update_all fl (update_ping_status fl now) r.clients (λ c. refl)) in
      let r'' = remove_timeouts fl (with_timeout fl updated) r' in
      same_members fl (ping_clients fl now r''.clients) r''
        (remove_timeouts-IsRegistry (with_timeout fl updated) r' v')
        (members-ping_clients fl now r''.clients)

  -- The verification of the qualities.
  pub adjust_client-IsRegistry :
      (settings : Settings) (i : ℕ) (r : Registry fl)
      → IsRegistry fl r
      → IsRegistry fl (adjust_client fl settings i r)
  adjust_client-IsRegistry settings i r v = elim (adjust_client_cases fl settings i r) [
    | inl e ↦ rw e v
    | inr (c, q, e, a) ↦ rw a (
        set_client_quality-IsRegistry fl (member fl c) q r v (
          subst (λ j. find j (members fl r.clients) ≡ some (member fl c))
            (sym (client_by_id-id fl i r.clients c e)) (find-members fl i r.clients c e)))
  ]

  pub adjust_clients-IsRegistry :
      (settings : Settings) (ms : List Member) (r : Registry fl)
      → IsRegistry fl r
      → IsRegistry fl (adjust_clients fl settings ms r)
  unfolding adjust_clients
  adjust_clients-IsRegistry settings [] r v = v
  adjust_clients-IsRegistry settings (m ∷ ms) r v =
      adjust_clients-IsRegistry settings ms (adjust_client fl settings m.id r)
        (adjust_client-IsRegistry settings m.id r v)

  pub verify_quality-IsRegistry :
      (settings : Settings) (now : ℕ) (r : Registry fl)
      → IsRegistry fl r
      → IsRegistry fl (verify_quality fl settings now r)
  unfolding verify_quality
  verify_quality-IsRegistry settings now r v =
      let cs = verify_groups fl now r.groups r.clients in
      adjust_clients-IsRegistry settings (members fl cs) (record r { clients = cs })
        (same_members fl cs r v (members-verify_groups fl now r.groups r.clients))
