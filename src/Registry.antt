-- ===== src/Registry.antt =====
-- src/controller/client/WebXClientRegistry.h and .cpp. `now` is the reading of the clock in a call. The
-- random generator is the list of the numbers that it will give, and the messages handed to the
-- handler are a list, the last sent last. The lock makes each call one step.
pub mod Rounds
pub mod Windows
pub mod Steps
pub mod Index
pub mod Branches
pub mod Clients
pub mod Ledger
pub mod Invariant
pub mod Calls
pub mod Pings
pub mod Placing
pub mod Refinement
pub mod Tests
use Prim.Native.Nat.{bit_or, bit_and}
use webx_engine.Common.{
  ℕ, zero, suc, ◌+◌, ◌-◌, Bool, true, false, List, [], ◌∷◌, ◌++◌, Option, none, some, Result, ok,
  err, ltb, leb, not, ◌==◌, if◌then◌else◌,
}
use webx_engine.Common.Bits.{bit_not, shift_left}
use webx_engine.Common.Floats.{Floats}
use webx_engine.Message.{
  Version, Message, Payload, QualityMessage, ping, disconnect, quality, no_command,
}
use webx_engine.Quality.{Quality, same_quality, max_quality, quality_for_index}
use webx_engine.Client.{
  Client, PingStatus, BitrateMeans, waiting_to_ping, requires_ping, waiting_for_pong, pong_timeout,
  new_client, set_max_quality, update_ping_status, on_ping_sent, on_pong_received,
  on_data_ack_received, reset_bitrate, perform_quality_verification,
}
use webx_engine.Roster.{Member}
use webx_engine.Handler.{QualitySettings}
use webx_engine.Group.{Group, group_with, remove_from_groups, add_to_groups, joined_average}

-- The errors of `addClient` and `removeClient`.
pub data RegistryError : Type 0 where
  no_client_indices client_id_unknown : RegistryError

-- What the registry and its groups read of the settings.
pub record Settings : Type 0 where
  pub client_ping_response_timeout_ms : ℕ
  pub quality : QualitySettings

-- The loop that shifts an index to the first that is free. The fuel is the number of
-- bits of the index.
pub next_index : ℕ → ℕ → ℕ → ℕ
next_index zero client_index mask = client_index
next_index (suc fuel) client_index mask = elim (bit_and client_index mask == 0) [
  | true ↦ client_index
  | false ↦ next_index fuel (shift_left client_index) mask
]

abbrev pub index_rounds : ℕ
index_rounds = 64

module _ (fl : Floats) where
  open fl use {Float, decimal, flt_ltb, flt_leb}

  pub record Registry : Type 0 where
    pub client_index_mask : ℕ
    pub clients : List (Client fl)
    pub groups : List (Group fl)
    pub draws : List ℕ
    pub sent : List Message

  -- The constructor.
  unfoldable pub new_registry : List ℕ → Registry
  new_registry draws = record {
    client_index_mask = 0;
    clients = [];
    groups = [];
    draws = draws;
    sent = [];
  }

  abbrev pub member : Client fl → Member
  member c = record { id = c.id; index = c.index }

  pub members : List (Client fl) → List Member
  members [] = []
  members (c ∷ cs) = member c ∷ members cs

  -- `getClientById`
  unfoldable pub client_by_id : ℕ → List (Client fl) → Option (Client fl)
  client_by_id i [] = none
  client_by_id i (c ∷ cs) = if c.id == i then some c else client_by_id i cs

  -- A call through the pointer to the client with an identifier.
  pub update_client : ℕ → (Client fl → Client fl) → List (Client fl) → List (Client fl)
  update_client i f [] = []
  update_client i f (c ∷ cs) = if c.id == i then f c ∷ cs else c ∷ update_client i f cs

  -- `erase(std::find(client))`
  pub erase_client : ℕ → List (Client fl) → List (Client fl)
  erase_client i [] = []
  erase_client i (c ∷ cs) = if c.id == i then cs else c ∷ erase_client i cs

  -- The loop that draws an identifier until it is one of no client: the identifier and the draws left.
  -- `none` if the draws given do not end it.
  pub draw_id : List ℕ → List (Client fl) → Option (ℕ × List ℕ)
  unfolding client_by_id
  draw_id [] cs = none
  draw_id (d ∷ ds) cs = elim (client_by_id d cs) [ none ↦ some (d, ds) | some _ ↦ draw_id ds cs ]

  abbrev pub message_to : ℕ → Payload → Message
  message_to mask payload = record {
    client_index_mask = mask;
    command_id = no_command;
    payload = payload;
  }

  -- `_clientMessageHandler(message)`
  abbrev pub send : Message → Registry → Registry
  send message r = record r { sent = r.sent ++ message ∷ [] }

  abbrev pub reset_joined : ℕ → Option (Option Float) → List (Client fl) → List (Client fl)
  reset_joined i none cs = cs
  reset_joined i (some average) cs = update_client i (reset_bitrate fl average) cs

  -- `getOrCreateGroupByQuality(quality)->addClient(client)`
  pub join : Quality → Member → Registry → Registry
  join q m r = record r {
    clients = reset_joined m.id (joined_average fl q m.id r.groups) r.clients;
    groups = add_to_groups fl q m r.groups;
  }

  -- `addClient`. The outer `none` is a generator whose draws given do not end the loop.
  pub add_client :
      Settings → ℕ → Version → Registry → Option (Result RegistryError (ℕ × ℕ) × Registry)
  unfolding join
  add_client settings now version r = elim (bit_not r.client_index_mask == 0) [
    | true ↦ some (err no_client_indices, r)
    | false ↦
        let client_index = next_index index_rounds 1 r.client_index_mask in
        let default_quality = max_quality settings.quality.max_runtime_quality_index in
        elim (draw_id r.draws r.clients) [
          | none ↦ none
          | some (client_id, draws) ↦
              let c =
                new_client fl now client_id client_index version default_quality
                  settings.client_ping_response_timeout_ms in
              some (
                ok (client_id, client_index),
                join default_quality (member c) (record r {
                  client_index_mask = bit_or r.client_index_mask client_index;
                  clients = r.clients ++ c ∷ [];
                  draws = draws;
                }),
              )
        ]
  ]

  -- `removeClient`
  pub remove_client : ℕ → Registry → Result RegistryError (Unit {0}) × Registry
  remove_client i r = elim (client_by_id i r.clients) [
    | none ↦ (err client_id_unknown, record r { groups = remove_from_groups fl i r.groups })
    | some c ↦ (
      ok tt,
      record r {
        client_index_mask = bit_and r.client_index_mask (bit_not c.index);
        clients = erase_client i r.clients;
        groups = remove_from_groups fl i r.groups;
      },
    )
  ]

  -- The move of `setClientQuality`: none if the client's group has the quality already.
  pub move_to_quality : Member → Quality → Registry → Registry
  unfolding join
  move_to_quality m q r = elim (group_with fl m.id r.groups) [
    | none ↦ join q m r
    | some old_group ↦
        if same_quality old_group.quality q
        then r
        else join q m (record r { groups = remove_from_groups fl m.id r.groups })
  ]

  -- `setClientQuality`
  pub set_client_quality : Member → Quality → Registry → Registry
  unfolding move_to_quality
  set_client_quality m q r =
      send (message_to m.index (quality (record { quality = q }))) (move_to_quality m q r)

  -- `oldGroup == nullptr || oldGroup->getQuality() != quality`
  abbrev pub not_in_quality : Quality → Option (Group fl) → Bool
  not_in_quality q none = true
  not_in_quality q (some g) = not (same_quality g.quality q)

  -- `setClientMaxQuality`
  pub set_client_max_quality : ℕ → Quality → Registry → Registry
  unfolding set_client_quality
  set_client_max_quality i q r = elim (client_by_id i r.clients) [
    | none ↦ r
    | some c ↦
        let r' = record r { clients = update_client i (set_max_quality fl q) r.clients } in
        if not_in_quality q (group_with fl i r.groups)
        then set_client_quality (member c) q r'
        else r'
  ]

  -- `onPongReceived` and `onDataAckReceived`; a client that is not there changes nothing.
  unfoldable pub on_pong : ℕ → ℕ → ℕ → ℕ → Registry → Registry
  on_pong now i send_timestamp_ms recv_timestamp_ms r = record r {
    clients =
        update_client i (on_pong_received fl now send_timestamp_ms recv_timestamp_ms) r.clients;
  }

  unfoldable pub on_data_ack : ℕ → ℕ → ℕ → ℕ → ℕ → Registry → Registry
  on_data_ack now i send_timestamp_ms recv_timestamp_ms data_length r = record r {
    clients =
        update_client i
          (on_data_ack_received fl now send_timestamp_ms recv_timestamp_ms data_length) r.clients;
  }
