-- ===== src/Registry/Tests.antt =====
-- Runs of the registry at concrete inputs.
use webx_engine.Common.{
  ℕ, ◌≡◌, ◌≢◌, refl, true, false, List, [], ◌∷◌, ◌++◌, Option, some, ok, err, arith, ◌⊎◌, none,
}
use webx_engine.Common.Bits.{bit_not}
use webx_engine.Common.WholeFloats.{whole_floats}
use webx_engine.Message.{Version, quality, ping, disconnect}
use webx_engine.Common.Int.{pos}
use webx_engine.Rectangle.{rectangle_of}
use webx_engine.Damage.{WindowDamage}
use webx_engine.Transfer.{transfer_of_parts}
use webx_engine.Handler.{quadratic}
use webx_engine.Group.Windows.{UpdateHandler}
use webx_engine.Quality.{
  Quality, quality_of, max_quality, quality_at, quality_at_from, quality_settings,
}
use webx_engine.Client.{
  Client, pong_timeout, requires_ping, new_client, reset_bitrate, update_ping_status,
}
use webx_engine.Group.{Group, group_with, new_group, add_to_groups, joined_average}
use webx_engine.Registry.{
  Registry, Settings, new_registry, next_index, index_rounds, add_client, remove_client,
  client_by_id, draw_id, join, update_client, set_client_max_quality, member, not_in_quality,
  message_to, client_id_unknown,
}
use webx_engine.Registry.Rounds.{handle_client_pings, update_all, disconnect_all}
use webx_engine.Registry.Steps.{Call, adds, sets_max_quality, damages, updates, run, step}
use webx_engine.Registry.Index.{IsLowestFree, next_index-IsLowestFree}
use webx_engine.Registry.Invariant.{IsRegistry}
use webx_engine.Registry.Calls.{
  run-IsRegistry, IsDisconnected, group_with-client, add_client-IsAdded, IsAdded,
  remove_client-IsRemoved, IsRemoved,
}
use webx_engine.Registry.Placing.{IsPlaced, set_client_max_quality-IsPlaced}
use webx_engine.Registry.Pings.{
  handle_client_pings-lem, survivors, with_status, told, pinged, AllWaiting,
}

abbrev pub version : Version
version = record { major = 1; minor = 2; patch = 3 }

abbrev pub settings : Settings
settings = record {
  client_ping_response_timeout_ms = 15000;
  quality = record {
    increase_quality_on_mouse_over = true;
    coverage_quality_func = quadratic;
    limit_quality_by_data_rate = true;
    max_runtime_quality_index = 12;
  };
}

abbrev pub new_damage : WindowDamage
new_damage = record {
  x11_window = 77;
  damage_areas = rectangle_of (pos 3) (pos 4) (pos 10) (pos 20) ∷ [];
  is_full_window = false;
}

-- The window is sent, in parts.
abbrev sends_part : UpdateHandler whole_floats
sends_part w mask = (
  message_to whole_floats mask ping ∷ [],
  some (transfer_of_parts whole_floats 1_000_000_000 w.id 3),
)

-- Two clients join, the first moves to another quality, and a window is damaged and sent to both.
abbrev pub calls_made : List (ℕ × Call whole_floats)
calls_made =
    (0, adds version)
    ∷ (10, adds version)
    ∷ (20, sets_max_quality 5 (quality_of 4 300 60 60 200))
    ∷ (30, damages new_damage)
    ∷ (1_000_000_000, updates sends_part)
    ∷ []

abbrev two_clients : Registry whole_floats
two_clients = run whole_floats settings calls_made (new_registry whole_floats (5 ∷ 5 ∷ 9 ∷ 7 ∷ []))

run-IsRegistry_example :
    let r = run whole_floats settings calls_made (new_registry whole_floats (5 ∷ 5 ∷ 9 ∷ 7 ∷ [])) in
    IsRegistry whole_floats r × IsDisconnected whole_floats r (disconnect_all whole_floats r)
run-IsRegistry_example = run-IsRegistry whole_floats settings (5 ∷ 5 ∷ 9 ∷ 7 ∷ []) calls_made

two_clients-IsRegistry : IsRegistry whole_floats two_clients
two_clients-IsRegistry = (run-IsRegistry whole_floats settings (5 ∷ 5 ∷ 9 ∷ 7 ∷ []) calls_made).0

-- After 0b1011, the index is 0b100.
next_index-IsLowestFree_example : IsLowestFree 11 (next_index index_rounds 1 11)
next_index-IsLowestFree_example =
    next_index-IsLowestFree 11 (omega arith) (λ e. absurd (omega arith))

remove_client-IsRemoved_example :
    ((client_by_id whole_floats 9 two_clients.clients ≡ none)
      × (remove_client whole_floats 9 two_clients ≡ (err client_id_unknown, two_clients)))
    ⊎ ((c : Client whole_floats) × (client_by_id whole_floats 9 two_clients.clients ≡ some c)
        × ((remove_client whole_floats 9 two_clients).0 ≡ ok tt)
        × IsRemoved whole_floats 9
            (member whole_floats c)
            two_clients
            (remove_client whole_floats 9 two_clients).1)
remove_client-IsRemoved_example =
    remove_client-IsRemoved whole_floats 9 two_clients two_clients-IsRegistry

handle_client_pings-lem_example :
    let updated =
      update_all whole_floats (update_ping_status whole_floats 2_000_000_000) two_clients.clients in
    ((handle_client_pings whole_floats 2_000_000_000 two_clients).clients
      ≡ pinged whole_floats 2_000_000_000 (survivors whole_floats updated))
    × ((handle_client_pings whole_floats 2_000_000_000 two_clients).sent
        ≡ (two_clients.sent
            ++ told whole_floats disconnect (with_status whole_floats pong_timeout updated))
          ++ told whole_floats ping
              (with_status whole_floats requires_ping (survivors whole_floats updated)))
    × AllWaiting whole_floats (handle_client_pings whole_floats 2_000_000_000 two_clients).clients
handle_client_pings-lem_example =
    handle_client_pings-lem whole_floats 2_000_000_000 two_clients two_clients-IsRegistry

abbrev pub one_client : Registry whole_floats
one_client =
    run whole_floats settings ((0, adds version) ∷ []) (new_registry whole_floats (5 ∷ 5 ∷ 9 ∷ []))

abbrev client_or : Client whole_floats → Option (Client whole_floats) → Client whole_floats
client_or c none = c
client_or _ (some c) = c

abbrev pub client_5 : Client whole_floats
client_5 =
    client_or (new_client whole_floats 0 0 0 version (quality_of 0 1 0 0 0) 0)
      (client_by_id whole_floats 5 one_client.clients)

one_client-IsRegistry : IsRegistry whole_floats one_client
one_client-IsRegistry =
    (run-IsRegistry whole_floats settings (5 ∷ 5 ∷ 9 ∷ []) ((0, adds version) ∷ [])).0

pub client_5_found : client_by_id whole_floats 5 one_client.clients ≡ some client_5
unfolding run step add_client draw_id client_by_id join next_index new_registry update_client
    new_client new_group add_to_groups joined_average max_quality quality_at quality_at_from
    quality_settings reset_bitrate
client_5_found = refl

unknown_9 : client_by_id whole_floats 9 one_client.clients ≡ none
unfolding run step add_client draw_id client_by_id join next_index new_registry update_client
    new_client new_group add_to_groups joined_average max_quality quality_at quality_at_from
    quality_settings reset_bitrate
unknown_9 = refl

draws_left : one_client.draws ≡ (5 ∷ []) ++ 9 ∷ []
unfolding run step add_client draw_id client_by_id join next_index new_registry
draws_left = refl

index_left : bit_not one_client.client_index_mask ≢ 0
unfolding run step add_client draw_id client_by_id join next_index new_registry
index_left h = absurd (omega (arith, h))

group_with-client_example :
    (g : Group whole_floats) × (group_with whole_floats 5 one_client.groups ≡ some g)
group_with-client_example =
    group_with-client whole_floats one_client 5 client_5 one_client-IsRegistry client_5_found

-- The number 5 is drawn again, and passed over.
add_client-IsAdded_example :
    (client_id client_index : ℕ) × (r' : Registry whole_floats) × (add_client whole_floats settings
        30 version one_client
      ≡ some (ok (client_id, client_index), r'))
    × IsAdded whole_floats (max_quality 12) one_client client_id client_index r'
add_client-IsAdded_example =
    add_client-IsAdded whole_floats settings 30 version one_client (5 ∷ []) [] 9
      one_client-IsRegistry index_left draws_left unknown_9

abbrev lower : Quality
lower = quality_of 4 300 60 60 200

set_client_max_quality-IsPlaced_example :
    IsPlaced whole_floats 5 lower (set_client_max_quality whole_floats 5 lower one_client)
    × (((not_in_quality whole_floats lower (group_with whole_floats 5 one_client.groups) ≡ false)
          × ((set_client_max_quality whole_floats 5 lower one_client).sent ≡ one_client.sent))
        ⊎ ((not_in_quality whole_floats lower (group_with whole_floats 5 one_client.groups) ≡ true)
            × ((set_client_max_quality whole_floats 5 lower one_client).sent
                ≡ one_client.sent
                  ++ message_to whole_floats client_5.index (quality (record { quality = lower }))
                    ∷ [])))
set_client_max_quality-IsPlaced_example =
    set_client_max_quality-IsPlaced whole_floats 5 lower one_client client_5 one_client-IsRegistry
      client_5_found
