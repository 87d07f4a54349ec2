-- ===== src/Gateway.antt =====
-- src/gateway/WebXGateway.h: the functions that the transport calls. `S` is the state that they change.
use webx_engine.Common.{ℕ, Option, none, some, Result, err}
use webx_engine.Message.{Version, Message}
use webx_engine.Instruction.{Instruction}
use webx_engine.Text.{Text, codes}

module _ (S : Type 0) where
  -- The connection of a client ends with an identifier and an index, or an error. The outer `none` is a
  -- call that has not returned.
  abbrev pub ClientConnectFunc : Type 0
  ClientConnectFunc = Version → S → Option (Result Text (ℕ × ℕ) × S)

  abbrev pub ClientDisconnectFunc : Type 0
  ClientDisconnectFunc = ℕ → S → Result Text (Unit {0}) × S

  -- Each function is null until it is set.
  pub record Gateway : Type 0 where
    pub message_publisher_func : Option (Message → S → S)
    pub instruction_handler_func : Option (Instruction → S → S)
    pub client_connect_func : Option ClientConnectFunc
    pub client_disconnect_func : Option ClientDisconnectFunc

  abbrev pub new_gateway : Gateway
  new_gateway = record {
    message_publisher_func = none;
    instruction_handler_func = none;
    client_connect_func = none;
    client_disconnect_func = none;
  }

  abbrev if_set {ℓ} : {A : Type ℓ} → Option (A → S → S) → A → S → S
  if_set none a s = s
  if_set (some f) a s = f a s

  abbrev pub publish_message : Gateway → Message → S → S
  publish_message g m s = if_set g.message_publisher_func m s

  abbrev pub handle_instruction : Gateway → Instruction → S → S
  handle_instruction g i s = if_set g.instruction_handler_func i s

  abbrev connect_by : Option ClientConnectFunc → Version → S → Option (Result Text (ℕ × ℕ) × S)
  connect_by none v s = some (err (codes "engine configuration error"), s)
  connect_by (some f) v s = f v s

  unfoldable pub on_client_connect : Gateway → Version → S → Option (Result Text (ℕ × ℕ) × S)
  on_client_connect g v s = connect_by g.client_connect_func v s

  abbrev disconnect_by : Option ClientDisconnectFunc → ℕ → S → Result Text (Unit {0}) × S
  disconnect_by none i s = (err (codes "engine configuration error"), s)
  disconnect_by (some f) i s = f i s

  unfoldable pub on_client_disconnect : Gateway → ℕ → S → Result Text (Unit {0}) × S
  on_client_disconnect g i s = disconnect_by g.client_disconnect_func i s
