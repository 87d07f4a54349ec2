-- ===== src/Connector.antt =====
-- src/transport/WebXClientConnector.h and .cpp: the answers to the commands of a client. The socket and
-- its event bus are ZeroMQ's, and what they give in each round is an argument. `S` is the state behind
-- the gateway, `describe` the formatting of the error of `HexUtils`.
pub mod InStep
mod Tests
pub mod Registered
pub mod Handshake
use webx_engine.Common.{
  ℕ, Bool, true, false, ◌&&◌, List, [], ◌∷◌, ◌++◌, Option, none, some, Result, ok, err,
  if◌then◌else◌,
}
use webx_engine.Message.{Version}
use webx_engine.Gateway.{Gateway, on_client_connect, on_client_disconnect}
use webx_engine.Text.{Text, codes, same_text, has_prefix, split}
use webx_engine.Text.Numbers.{print, print_hex, decimal}
use webx_engine.Text.Hex.{to_uint32}
use webx_engine.Version.{no_version, parse_all}

-- What the connector reads of the settings.
pub record ConnectorSettings : Type 0 where
  pub publisher_port : ℕ
  pub collector_port : ℕ
  pub session_id : Text

-- `fmt::format("{},{}", first, second)`
abbrev pub with_comma : Text → Text → Text
with_comma s t = s ++ b',' ∷ t

-- What a socket gives in a round: nothing to receive, an exception, no message although there was one to
-- receive, or a message.
pub data Received : Type 0 where
  idle fails empty : Received
  got : Text → Received

pub data Poll : Type 0 where
  poll_fails : Poll
  polled : (event request : Received) → Poll

pub data SocketState : Type 0 where
  waiting_recv waiting_send : SocketState

-- `running`, and the end of the process by a call of `exit` or an exception that nothing catches.
pub data ThreadStatus : Type 0 where
  runs stops exits : ThreadStatus

abbrev pub is_running : ThreadStatus → Bool
is_running runs = true
is_running stops = false
is_running exits = false

abbrev pub is_shutdown : Received → Bool
is_shutdown idle = false
is_shutdown fails = false
is_shutdown empty = false
is_shutdown (got t) = same_text t (codes "shutdown")

module _ (S : Type 0) (gateway : Gateway S) (describe : Text → Option Text)
    (settings : ConnectorSettings) where
  abbrev connect_reply : Option (Result Text (ℕ × ℕ) × S) → Option (Text × S)
  connect_reply none = none
  connect_reply (some (ok (client_id, client_index), s)) =
      some (with_comma (print_hex 8 client_id) (print_hex 16 client_index), s)
  connect_reply (some (err e, s)) = some (e, s)

  -- `connectClient`; nothing if the gateway's call has not returned.
  unfoldable pub connect_client : Text → Version → S → Option (Text × S)
  connect_client session_id v s =
      if same_text session_id settings.session_id
      then connect_reply (on_client_connect S gateway v s)
      else some (codes "session id error", s)

  abbrev disconnect_reply : Result Text (Unit {0}) × S → Option Text × S
  disconnect_reply (ok _, s) = (some (codes "success"), s)
  disconnect_reply (err e, s) = (some e, s)

  abbrev disconnect_id : Option (Result Text ℕ) → S → Option Text × S
  disconnect_id none s = (none, s)
  disconnect_id (some (err e)) s = (some (codes "client id is invalid"), s)
  disconnect_id (some (ok i)) s = disconnect_reply (on_client_disconnect S gateway i s)

  -- `disconnectClient`, with no text where it throws.
  unfoldable pub disconnect_client : Text → Text → S → Option Text × S
  disconnect_client session_id client_id s =
      if same_text session_id settings.session_id
      then disconnect_id (to_uint32 describe client_id) s
      else (some (codes "session id error"), s)

  -- The reply to "ping"; a text with that prefix has a token.
  unfoldable pub ping_reply : List Text → Text
  ping_reply [] = []
  ping_reply (_ ∷ []) = codes "pong"
  ping_reply (_ ∷ session_id ∷ _) =
      if same_text session_id settings.session_id
      then with_comma (codes "pong") session_id
      else with_comma (codes "pang") (with_comma session_id (codes "Invalid session Id"))

  abbrev client_version : List Text → Version
  client_version [] = no_version
  client_version (t ∷ _) = parse_all t

  abbrev sends : Option (Text × S) → Option (Option Text × S)
  sends none = none
  sends (some (t, s)) = some (some t, s)

  unfoldable pub connect_command : List Text → S → Option (Option Text × S)
  connect_command [] s = some (some (codes "invalid connect command"), s)
  connect_command (_ ∷ []) s = some (some (codes "invalid connect command"), s)
  connect_command (_ ∷ session_id ∷ es) s = sends (connect_client session_id (client_version es) s)

  unfoldable pub disconnect_command : List Text → S → Option Text × S
  disconnect_command [] s = (some (codes "invalid disconnect command"), s)
  disconnect_command (_ ∷ []) s = (some (codes "invalid disconnect command"), s)
  disconnect_command (_ ∷ _ ∷ []) s = (some (codes "invalid disconnect command"), s)
  disconnect_command (_ ∷ session_id ∷ client_id ∷ _) s = disconnect_client session_id client_id s

  -- What is sent for a command, and the state after it. No text is sent for a command that is unknown or
  -- throws.
  unfoldable pub answer_command : Text → S → Option (Option Text × S)
  answer_command instruction s =
      let elements = split instruction b',' in
      if same_text instruction (codes "comm")
      then some (
        some (
            with_comma (print decimal settings.publisher_port)
              (print decimal settings.collector_port)),
        s,
      )
      else if has_prefix (codes "ping") instruction
      then some (some (ping_reply elements), s)
      else if has_prefix (codes "connect") instruction
      then connect_command elements s
      else if has_prefix (codes "disconnect") instruction
      then some (disconnect_command elements s)
      else some (none, s)

  -- The state of `mainLoop`: the messages sent are all those on the responder's socket.
  pub record Connector : Type 0 where
    pub socket_state : SocketState
    pub status : ThreadStatus
    pub sent : List Text
    pub world : S

  abbrev pub new_connector : S → Connector
  new_connector s = record { socket_state = waiting_recv; status = runs; sent = []; world = s }

  abbrev send_reply : Text → Connector → Connector
  send_reply t c = record c { sent = c.sent ++ t ∷ []; socket_state = waiting_recv }

  abbrev answered : Connector → Option (Option Text × S) → Option Connector
  answered c none = none
  answered c (some (none, s)) = some (record c { world = s })
  answered c (some (some t, s)) = some (send_reply t (record c { world = s }))

  abbrev receive : Received → Connector → Option Connector
  receive idle c = some c
  receive fails c = some c
  receive empty c = some (record c { socket_state = waiting_send })
  receive (got t) c = answered (record c { socket_state = waiting_send }) (answer_command t c.world)

  abbrev check_state : SocketState → Received → Connector → Option Connector
  check_state waiting_send request c = some (record c { status = exits })
  check_state waiting_recv request c = if is_running c.status then receive request c else some c

  abbrev after_event : Received → Connector → Connector
  after_event event c = if is_shutdown event then record c { status = stops } else c

  -- The `try` block of a round. An exception of the poll or of the event bus leaves the rest out.
  abbrev try_poll : Poll → Connector → Option Connector
  try_poll poll_fails c = some c
  try_poll (polled fails request) c = some c
  try_poll (polled idle request) c = check_state c.socket_state request c
  try_poll (polled empty request) c = check_state c.socket_state request c
  try_poll (polled (got t) request) c = check_state c.socket_state request (after_event (got t) c)

  abbrev is_owed : SocketState → Bool
  is_owed waiting_recv = false
  is_owed waiting_send = true

  -- The empty reply where none was sent.
  abbrev finish : Connector → Connector
  finish c = if is_owed c.socket_state && is_running c.status then send_reply [] c else c

  abbrev finished : Option Connector → Option Connector
  finished none = none
  finished (some c) = some (finish c)

  unfoldable pub connector_round : Poll → Connector → Option Connector
  connector_round p c = finished (try_poll p c)

  -- `mainLoop`, on what the polls give.
  unfoldable pub main_loop : List Poll → Connector → Option Connector
  main_loop [] c = some c
  main_loop (p ∷ ps) c = elim (connector_round p c) [
    | none ↦ none
    | some c' ↦ elim (is_running c'.status) [ true ↦ main_loop ps c' | false ↦ some c' ]
  ]
