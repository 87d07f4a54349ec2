-- ===== src/Connector/Tests.antt =====
-- Runs of the connector at concrete inputs.
use webx_engine.Common.{ℕ, ◌+◌, ◌-◌, ◌≡◌, refl, List, [], ◌∷◌, Option, some, none, ok, arith}
use webx_engine.Common.WholeFloats.{whole_floats}
use webx_engine.Registry.{new_registry, client_by_id}
use webx_engine.Registry.Invariant.{new_registry-IsRegistry}
use webx_engine.Registry.Tests.{settings, version}
use webx_engine.Gateway.{Gateway, on_client_connect, on_client_disconnect}
use webx_engine.Text.{Text, codes, same_text, has_prefix, split}
use webx_engine.Text.Numbers.{emit, stoi, stoul, read_number, skip_spaces, read_digits}
use webx_engine.Text.Hex.{to_uint32}
use webx_engine.Version.{parse_all, component}
use webx_engine.Connector.{
  ConnectorSettings, idle, fails, empty, got, Poll, poll_fails, polled, Connector, new_connector,
  main_loop, connector_round, answer_command, ping_reply, connect_command, connect_client,
  disconnect_command, disconnect_client,
}
use webx_engine.Connector.InStep.{LoopEnds, main_loop-IsInStep}
use webx_engine.Connector.Handshake.{handshake, IsHandshake}
use webx_engine.Connector.Registered.{registry_gateway-IsSession, IsSession}

abbrev connector_settings : ConnectorSettings
connector_settings = record {
  publisher_port = 5557;
  collector_port = 5556;
  session_id = codes "0a1b";
}

-- The state counts the clients.
abbrev counting : Gateway ℕ
counting = record {
  message_publisher_func = none;
  instruction_handler_func = none;
  client_connect_func = some (λ v n. some (ok (10 + n, 4), n + 1));
  client_disconnect_func = some (λ i n. (ok tt, n - 1));
}

counting-connects : on_client_connect ℕ counting version 0 ≡ some (ok (10, 4), 1)
unfolding on_client_connect
counting-connects = refl

abbrev throwing : Text → Option Text
throwing t = none

-- A ping, a connection, a disconnection, one with an identifier that is no number, an unknown command and
-- a shutdown.
abbrev polls : List Poll
polls =
    polled idle (got (codes "ping,0a1b"))
    ∷ polled idle (got (codes "connect,0a1b,1.5.0"))
    ∷ poll_fails
    ∷ polled empty (got (codes "disconnect,0a1b,0000000a"))
    ∷ polled idle (got (codes "disconnect,0a1b,xyz"))
    ∷ polled idle empty
    ∷ polled fails (got (codes "comm"))
    ∷ polled idle (got (codes "unknown"))
    ∷ polled (got (codes "shutdown")) (got (codes "comm"))
    ∷ polled idle (got (codes "comm"))
    ∷ []

abbrev replies_of : Option (Connector ℕ counting throwing connector_settings) → List Text
replies_of none = []
replies_of (some c) = c.sent

replies_of_test :
    replies_of (
      main_loop ℕ counting throwing connector_settings polls
        (new_connector ℕ counting throwing connector_settings 0))
    ≡ codes "pong,0a1b" ∷ codes "0000000a,0000000000000004" ∷ codes "success" ∷ [] ∷ [] ∷ [] ∷ []
unfolding main_loop connector_round answer_command same_text has_prefix split ping_reply
    connect_command connect_client disconnect_command disconnect_client on_client_connect
    on_client_disconnect to_uint32 stoul read_number skip_spaces read_digits emit parse_all
    component stoi
replies_of_test = refl

main_loop-IsInStep_example : LoopEnds ℕ counting throwing connector_settings polls [] 0 (
    main_loop ℕ counting throwing connector_settings polls
      (new_connector ℕ counting throwing connector_settings 0))
main_loop-IsInStep_example = main_loop-IsInStep ℕ counting throwing connector_settings polls 0

handshake_example : IsHandshake ℕ counting throwing connector_settings version 0 10 4 1
handshake_example =
    handshake ℕ counting throwing connector_settings (omega arith) version 0 1 10 4 (omega arith)
      (omega arith) (omega arith) counting-connects

registry_gateway-IsSession_example :
    IsSession whole_floats settings 0 none none throwing connector_settings version
      (new_registry whole_floats (5 ∷ []))
unfolding new_registry client_by_id
registry_gateway-IsSession_example =
    registry_gateway-IsSession whole_floats settings 0 none none throwing connector_settings version
      (new_registry whole_floats (5 ∷ [])) [] [] 5 (omega arith) (omega arith)
      (new_registry-IsRegistry whole_floats (5 ∷ [])) (λ e. absurd (omega arith)) refl refl
      (omega arith)
