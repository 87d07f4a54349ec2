-- ===== src/Registry/Pings.antt =====
-- What `handleClientPings` does to the clients and what it sends.
use webx_engine.Common.{
  ℕ, ◌+◌, ◌≤◌, ◌≡◌, refl, sym, ◌∙◌, ap, Bool, true, false, List, [], ◌∷◌, ◌++◌, none, ◌==◌,
  if◌then◌else◌, Bool-cases, Option-cases, inl, inr, arith, ◌⊎◌, append_assoc, append-nil,
}
use webx_engine.Common.Floats.{Floats}
use webx_engine.Message.{Message, Payload, ping, disconnect, no_command}
use webx_engine.Client.{
  Client, PingStatus, waiting_to_ping, waiting_for_pong, requires_ping, pong_timeout,
  update_ping_status, on_ping_sent,
}
use webx_engine.Roster.{Member, has_id, count_if, count_if-append, count_if-find, count_if-cons}
use webx_engine.Registry.{
  Registry, member, members, client_by_id, erase_client, remove_client, message_to, send,
}
use webx_engine.Registry.Rounds.{
  update_all, is_timeout, is_requiring_ping, with_timeout, remove_timeouts, ping_clients, pings_for,
  send_pings, handle_client_pings,
}
use webx_engine.Registry.Clients.{
  members-append, find-members, client_by_id-id, members-cons, members-update_all,
}
use webx_engine.Registry.Branches.{remove_client_unknown, remove_client_known}
use webx_engine.Registry.Invariant.{IsRegistry}

-- The two are the same status.
abbrev pub same_status : PingStatus → PingStatus → Bool
same_status waiting_to_ping waiting_to_ping = true
same_status requires_ping requires_ping = true
same_status waiting_for_pong waiting_for_pong = true
same_status pong_timeout pong_timeout = true
same_status _ _ = false

module _ (fl : Floats) where
  abbrev pub has_status : PingStatus → Client fl → Bool
  has_status s c = same_status s c.ping_status

  -- The clients with the given status, in their order.
  pub with_status : PingStatus → List (Client fl) → List (Client fl)
  with_status s [] = []
  with_status s (c ∷ cs) = if has_status s c then c ∷ with_status s cs else with_status s cs

  -- The clients that have not timed out, in their order.
  pub survivors : List (Client fl) → List (Client fl)
  survivors [] = []
  survivors (c ∷ cs) = if has_status pong_timeout c then survivors cs else c ∷ survivors cs

  -- A message to each, at its index alone, that answers no instruction.
  unfoldable pub told : Payload → List (Client fl) → List Message
  told payload [] = []
  told payload (c ∷ cs) =
      (record { client_index_mask = c.index; command_id = no_command; payload = payload })
      ∷ told payload cs

  -- Those that required a ping wait for the pong from now on.
  pub pinged : ℕ → List (Client fl) → List (Client fl)
  pinged now [] = []
  pinged now (c ∷ cs) =
      (if has_status requires_ping c
        then record c { ping_sent_time = now; ping_status = waiting_for_pong }
        else c)
      ∷ pinged now cs

  is_timeout-status : (s : PingStatus) → is_timeout fl s ≡ same_status pong_timeout s
  is_timeout-status waiting_to_ping = refl
  is_timeout-status requires_ping = refl
  is_timeout-status waiting_for_pong = refl
  is_timeout-status pong_timeout = refl

  is_requiring_ping-status : (s : PingStatus) → is_requiring_ping fl s ≡ same_status requires_ping s
  is_requiring_ping-status waiting_to_ping = refl
  is_requiring_ping-status requires_ping = refl
  is_requiring_ping-status waiting_for_pong = refl
  is_requiring_ping-status pong_timeout = refl

  ping_clients-pinged : (now : ℕ) (cs : List (Client fl)) → ping_clients fl now cs ≡ pinged now cs
  unfolding ping_clients pinged on_ping_sent
  ping_clients-pinged now [] = refl
  ping_clients-pinged now (c ∷ cs) =
      rw (is_requiring_ping-status c.ping_status, ping_clients-pinged now cs) refl

  pings_for-told :
      (cs : List (Client fl)) → pings_for fl cs ≡ told ping (with_status requires_ping cs)
  unfolding pings_for told with_status
  pings_for-told [] = refl
  pings_for-told (c ∷ cs) = elim (Bool-cases (has_status requires_ping c)) [
    | inl e ↦ rw (is_requiring_ping-status c.ping_status, e, pings_for-told cs) refl
    | inr e ↦ rw (is_requiring_ping-status c.ping_status, e, pings_for-told cs) refl
  ]

  disconnects_to : List Member → List Message
  disconnects_to [] = []
  disconnects_to (m ∷ ms) = message_to fl m.index disconnect ∷ disconnects_to ms

  disconnects_to-told :
      (cs : List (Client fl))
      → disconnects_to (with_timeout fl cs) ≡ told disconnect (with_status pong_timeout cs)
  unfolding disconnects_to told with_status with_timeout
  disconnects_to-told [] = refl
  disconnects_to-told (c ∷ cs) = elim (Bool-cases (has_status pong_timeout c)) [
    | inl e ↦ rw (is_timeout-status c.ping_status, e, ← disconnects_to-told cs) refl
    | inr e ↦ rw (is_timeout-status c.ping_status, e, disconnects_to-told cs) refl
  ]

  -- Each client waits, for the time of its next ping or for a pong.
  pub AllWaiting : List (Client fl) → Type 0
  AllWaiting [] = Unit
  AllWaiting (c ∷ cs) =
      ((c.ping_status ≡ waiting_to_ping) ⊎ (c.ping_status ≡ waiting_for_pong)) × AllWaiting cs

  erase_all : List Member → List (Client fl) → List (Client fl)
  erase_all [] cs = cs
  erase_all (m ∷ ms) cs = erase_all ms (erase_client fl m.id cs)

  Unique : List (Client fl) → Type 0
  Unique cs = (i : ℕ) → count_if (has_id i) (members fl cs) ≤ 1

  erase_none :
      (i : ℕ) (cs : List (Client fl)) → client_by_id fl i cs ≡ none → erase_client fl i cs ≡ cs
  unfolding client_by_id erase_client
  erase_none i [] h = refl
  erase_none i (c ∷ cs) h = elim (Bool-cases (c.id == i)) [
    | inl e ↦ ground arith
    | inr e ↦ rw e (ap (λ r. c ∷ r) (erase_none i cs (ground arith)))
  ]

  erase_middle :
      (kept cs : List (Client fl)) (c : Client fl)
      → client_by_id fl c.id kept ≡ none
      → erase_client fl c.id (kept ++ c ∷ cs) ≡ kept ++ cs
  unfolding client_by_id erase_client
  erase_middle [] cs c h = ground arith
  erase_middle (k ∷ kept) cs c h = elim (Bool-cases (k.id == c.id)) [
    | inl e ↦ ground arith
    | inr e ↦ rw e (ap (λ r. k ∷ r) (erase_middle kept cs c (ground arith)))
  ]

  count_if-both :
      (P : Member → Bool) (cs ds : List (Client fl))
      → count_if P (members fl (cs ++ ds)) ≡ count_if P (members fl cs) + count_if P (members fl ds)
  count_if-both P cs ds =
      rw (members-append fl cs ds) (count_if-append P (members fl cs) (members fl ds))

  count_if-middle :
      (P : Member → Bool) (cs ds : List (Client fl)) (c : Client fl)
      → count_if P (members fl (cs ++ c ∷ ds))
        ≡ count_if P (members fl cs)
          + ((if P (member fl c) then 1 else 0) + count_if P (members fl ds))
  count_if-middle P cs ds c =
      count_if-both P cs (c ∷ ds)
      ∙ rw (members-cons fl c ds, count_if-cons P (member fl c) (members fl ds))

  kept_none :
      (kept cs : List (Client fl)) (c : Client fl)
      → Unique (kept ++ c ∷ cs)
      → client_by_id fl c.id kept ≡ none
  unfolding Unique
  kept_none kept cs c u = elim (Option-cases (client_by_id fl c.id kept)) [
    | inl e ↦ e
    | inr (d, e) ↦ absurd (
        ground (
          arith,
          u c.id,
          count_if-middle (has_id c.id) kept cs c,
          count_if-find (has_id c.id) c.id (members fl kept) (member fl d)
              (find-members fl c.id kept d e),
          client_by_id-id fl c.id kept d e,
        ))
  ]

  Unique-without :
      (kept cs : List (Client fl)) (c : Client fl) → Unique (kept ++ c ∷ cs) → Unique (kept ++ cs)
  unfolding Unique
  Unique-without kept cs c u i =
      ground (arith, u i, count_if-middle (has_id i) kept cs c, count_if-both (has_id i) kept cs)

  erase_all-with_timeout :
      (kept cs : List (Client fl))
      → Unique (kept ++ cs)
      → erase_all (with_timeout fl cs) (kept ++ cs) ≡ kept ++ survivors cs
  unfolding erase_all with_timeout survivors
  erase_all-with_timeout kept [] u = refl
  erase_all-with_timeout kept (c ∷ cs) u = elim (Bool-cases (is_timeout fl c.ping_status)) [
    | inl e ↦
        rw (← is_timeout-status c.ping_status, e)
          (ap (erase_all (with_timeout fl cs)) (erase_middle kept cs c (kept_none kept cs c u))
            ∙ erase_all-with_timeout kept cs (Unique-without kept cs c u))
    | inr e ↦
        rw
          (
            ← is_timeout-status c.ping_status,
            e,
            ← append_assoc kept (c ∷ []) cs,
            ← append_assoc kept (c ∷ []) (survivors cs),
          )
          (erase_all-with_timeout (kept ++ c ∷ []) cs (rw (append_assoc kept (c ∷ []) cs) u))
  ]

  remove_client-clients :
      (i : ℕ) (r : Registry fl) → (remove_client fl i r).1.clients ≡ erase_client fl i r.clients
  remove_client-clients i r = elim (Option-cases (client_by_id fl i r.clients)) [
    | inl e ↦ rw (remove_client_unknown fl i r e, erase_none i r.clients e)
    | inr (c, e) ↦ rw (remove_client_known fl i r c e)
  ]

  -- The loop that disconnects and removes is the erasure of each, and a message to each.
  remove_timeouts-clients :
      (ms : List Member) (r : Registry fl)
      → (remove_timeouts fl ms r).clients ≡ erase_all ms r.clients
  unfolding remove_timeouts erase_all
  remove_timeouts-clients [] r = refl
  remove_timeouts-clients (m ∷ ms) r =
      let r' = send fl (message_to fl m.index disconnect) r in
      remove_timeouts-clients ms (remove_client fl m.id r').1
      ∙ ap (erase_all ms) (remove_client-clients m.id r')

  remove_client-sent : (i : ℕ) (r : Registry fl) → (remove_client fl i r).1.sent ≡ r.sent
  remove_client-sent i r = elim (Option-cases (client_by_id fl i r.clients)) [
    | inl e ↦ rw (remove_client_unknown fl i r e)
    | inr (c, e) ↦ rw (remove_client_known fl i r c e)
  ]

  remove_timeouts-sent :
      (ms : List Member) (r : Registry fl)
      → (remove_timeouts fl ms r).sent ≡ r.sent ++ disconnects_to ms
  unfolding remove_timeouts disconnects_to
  remove_timeouts-sent [] r = sym (append-nil r.sent)
  remove_timeouts-sent (m ∷ ms) r =
      let message = message_to fl m.index disconnect in
      let r' = send fl message r in
      remove_timeouts-sent ms (remove_client fl m.id r').1
      ∙ (ap (λ s. s ++ disconnects_to ms) (remove_client-sent m.id r')
          ∙ append_assoc r.sent (message ∷ []) (disconnects_to ms))

  waiting_rest :
      (s : PingStatus)
      → is_timeout fl s ≡ false
      → is_requiring_ping fl s ≡ false
      → (s ≡ waiting_to_ping) ⊎ (s ≡ waiting_for_pong)
  waiting_rest waiting_to_ping t p = inl refl
  waiting_rest waiting_for_pong t p = inr refl
  waiting_rest requires_ping t p = cc
  waiting_rest pong_timeout t p = cc

  waiting-survivors :
      (now : ℕ) (cs : List (Client fl)) → AllWaiting (ping_clients fl now (survivors cs))
  unfolding AllWaiting ping_clients survivors on_ping_sent
  waiting-survivors now [] = tt
  waiting-survivors now (c ∷ cs) = elim (Bool-cases (is_timeout fl c.ping_status)) [
    | inl t ↦ rw (← is_timeout-status c.ping_status, t) (waiting-survivors now cs)
    | inr t ↦ elim (Bool-cases (is_requiring_ping fl c.ping_status)) [
      | inl p ↦ rw (← is_timeout-status c.ping_status, t, p) (inr refl, waiting-survivors now cs)
      | inr p ↦
          rw (← is_timeout-status c.ping_status, t, p)
            (waiting_rest c.ping_status t p, waiting-survivors now cs)
    ]
  ]

  -- `handleClientPings` on a registry that keeps the invariant. After the ping states are brought up to
  -- the time, the clients that have timed out go, the others stay in their order, and those of them that
  -- require a ping wait for a pong, with that time as the one at which it was sent; the messages sent are
  -- a disconnection to the index of each client that has timed out and then a ping to the index of each
  -- that required one, in their order, none of which answers an instruction; and then each client is
  -- waiting.
  pub handle_client_pings-lem :
      (now : ℕ) (r : Registry fl)
      → IsRegistry fl r
      → let updated = update_all fl (update_ping_status fl now) r.clients in
        ((handle_client_pings fl now r).clients ≡ pinged now (survivors updated))
        × ((handle_client_pings fl now r).sent
            ≡ (r.sent ++ told disconnect (with_status pong_timeout updated))
              ++ told ping (with_status requires_ping (survivors updated)))
        × AllWaiting (handle_client_pings fl now r).clients
  unfolding handle_client_pings send_pings update_ping_status Unique
  handle_client_pings-lem now r v =
      let updated = update_all fl (update_ping_status fl now) r.clients in
      let u : Unique updated = λ i.
        rw (members-update_all fl (update_ping_status fl now) r.clients (λ c. refl)) (v.unique i) in
      let r' = record r { clients = updated } in
      let cs : (remove_timeouts fl (with_timeout fl updated) r').clients ≡ survivors updated =
        remove_timeouts-clients (with_timeout fl updated) r'
        ∙ erase_all-with_timeout [] updated u in
      let ms : (remove_timeouts fl (with_timeout fl updated) r').sent
          ≡ r.sent ++ told disconnect (with_status pong_timeout updated) =
        remove_timeouts-sent (with_timeout fl updated) r'
        ∙ ap (λ xs. r.sent ++ xs) (disconnects_to-told updated) in
      (
        ap (ping_clients fl now) cs ∙ ping_clients-pinged now (survivors updated),
        rw (cs, ms, pings_for-told (survivors updated)) refl,
        rw cs (waiting-survivors now updated),
      )
