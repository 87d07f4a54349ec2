-- ===== src/Registry/Rounds.antt =====
-- src/controller/client/WebXClientRegistry.cpp: the rounds through all clients, for the pings, the
-- qualities and the end. `now` is the reading of the clock in a call.
use webx_engine.Common.{
  ℕ, ◌+◌, ◌-◌, Bool, true, false, List, [], ◌∷◌, ◌++◌, Option, none, some, ltb, if◌then◌else◌,
}
use webx_engine.Common.Floats.{Floats}
use webx_engine.Message.{Message, ping, disconnect}
use webx_engine.Quality.{same_quality, quality_for_index}
use webx_engine.Client.{
  Client, PingStatus, requires_ping, pong_timeout, update_ping_status, on_ping_sent,
  perform_quality_verification,
}
use webx_engine.Roster.{Member}
use webx_engine.Group.{Group, group_with}
use webx_engine.Registry.{
  Settings, Registry, member, members, client_by_id, update_client, message_to, send, remove_client,
  set_client_quality,
}

module _ (fl : Floats) where
  open fl use {Float, decimal, flt_ltb, flt_leb}

  unfoldable pub update_all : (Client fl → Client fl) → List (Client fl) → List (Client fl)
  update_all f [] = []
  update_all f (c ∷ cs) = f c ∷ update_all f cs

  abbrev pub is_timeout : PingStatus → Bool
  is_timeout pong_timeout = true
  is_timeout _ = false

  abbrev pub is_requiring_ping : PingStatus → Bool
  is_requiring_ping requires_ping = true
  is_requiring_ping _ = false

  -- `clientsWithTimeout`
  unfoldable pub with_timeout : List (Client fl) → List Member
  with_timeout [] = []
  with_timeout (c ∷ cs) =
      if is_timeout c.ping_status then member fl c ∷ with_timeout cs else with_timeout cs

  -- The loop that disconnects and removes them.
  unfoldable pub remove_timeouts : List Member → Registry fl → Registry fl
  unfolding remove_client
  remove_timeouts [] r = r
  remove_timeouts (m ∷ ms) r =
      remove_timeouts ms (remove_client fl m.id (send fl (message_to fl m.index disconnect) r)).1

  -- The loop that sends the pings: the clients after it and the messages that it sends.
  unfoldable pub ping_clients : ℕ → List (Client fl) → List (Client fl)
  ping_clients now [] = []
  ping_clients now (c ∷ cs) =
      (if is_requiring_ping c.ping_status then on_ping_sent fl now c else c) ∷ ping_clients now cs

  unfoldable pub pings_for : List (Client fl) → List Message
  pings_for [] = []
  pings_for (c ∷ cs) =
      if is_requiring_ping c.ping_status
      then message_to fl c.index ping ∷ pings_for cs
      else pings_for cs

  -- `handleClientPings`
  unfoldable pub send_pings : ℕ → Registry fl → Registry fl
  unfolding ping_clients pings_for
  send_pings now r = record r {
    clients = ping_clients now r.clients;
    sent = r.sent ++ pings_for r.clients;
  }

  unfoldable pub handle_client_pings : ℕ → Registry fl → Registry fl
  unfolding update_all with_timeout remove_timeouts send_pings
  handle_client_pings now r =
      let updated = update_all (update_ping_status fl now) r.clients in
      send_pings now (remove_timeouts (with_timeout updated) (record r { clients = updated }))

  -- The first loop of `performQualityVerification`, through the groups and their clients.
  unfoldable pub verify_members :
      ℕ → Option Float → List Member → List (Client fl) → List (Client fl)
  verify_members now average [] cs = cs
  verify_members now average (m ∷ ms) cs =
      verify_members now average ms
        (update_client fl m.id (perform_quality_verification fl now average) cs)

  unfoldable pub verify_groups : ℕ → List (Group fl) → List (Client fl) → List (Client fl)
  unfolding verify_members
  verify_groups now [] cs = cs
  verify_groups now (g ∷ gs) cs =
      verify_groups now gs (verify_members now g.average_image_mbps g.clients cs)

  -- The index that the second loop suggests: one less from a ratio of 0.8, one more below 0.2, then
  -- held between 1 and the client's maximum. (`index - 1` of 0 would be below 1 too.)
  unfoldable pub suggested_index : ℕ → ℕ → Float → ℕ
  suggested_index index max_index ratio =
      let i =
        if flt_leb (decimal 8 10) ratio
        then index - 1
        else if flt_ltb ratio (decimal 2 10)
        then index + 1
        else index in
      if ltb i 1 then 1 else if ltb max_index i then max_index else i

  -- One round of the second loop. A client with no group would be a null pointer there,
  -- and is left as it is here.
  unfoldable pub adjust_client : Settings → ℕ → Registry fl → Registry fl
  unfolding suggested_index set_client_quality
  adjust_client settings i r = elim (client_by_id fl i r.clients) [
    | none ↦ r
    | some c ↦ elim (group_with fl i r.groups) [
      | none ↦ r
      | some g ↦ elim c.bitrate_means [
        | none ↦ r
        | some means ↦
            let q =
              quality_for_index settings.quality.max_runtime_quality_index
                (suggested_index g.quality.index c.max_quality.index means.mean_bitrate_ratio) in
            if same_quality q g.quality then r else set_client_quality fl (member fl c) q r
      ]
    ]
  ]

  unfoldable pub adjust_clients : Settings → List Member → Registry fl → Registry fl
  unfolding adjust_client
  adjust_clients settings [] r = r
  adjust_clients settings (m ∷ ms) r = adjust_clients settings ms (adjust_client settings m.id r)

  -- `performQualityVerification`
  unfoldable pub verify_quality : Settings → ℕ → Registry fl → Registry fl
  unfolding verify_groups adjust_clients members
  verify_quality settings now r =
      let r' = record r { clients = verify_groups now r.groups r.clients } in
      adjust_clients settings (members fl r'.clients) r'

  unfoldable pub disconnects_for : List (Client fl) → List Message
  disconnects_for [] = []
  disconnects_for (c ∷ cs) = message_to fl c.index disconnect ∷ disconnects_for cs

  -- `disconnectAll`. It leaves the mask of the indices as it is.
  unfoldable pub disconnect_all : Registry fl → Registry fl
  unfolding disconnects_for
  disconnect_all r = record r {
    clients = [];
    groups = [];
    sent = r.sent ++ disconnects_for r.clients;
  }
