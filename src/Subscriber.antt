-- ===== src/Subscriber.antt =====
-- src/transport/WebXClientInstructionSubscriber.cpp: the loop that hands the instructions of the clients
-- over. What the polls of its sockets give is an argument; the socket passes on the frames of the session
-- alone. `S` is the state behind the gateway.
pub mod Delivered
mod Tests
use webx_engine.Common.{
  ℕ, List, [], ◌∷◌, Option, none, some, Result, ok, err, if◌then◌else◌, true, false,
}
use webx_engine.Instruction.{Instruction}
use webx_engine.Decoder.{Decoded, decode}
use webx_engine.Gateway.{Gateway, handle_instruction}
use webx_engine.Text.{Text}
use webx_engine.Connector.{
  Received, idle, fails, empty, got, Poll, poll_fails, polled, ThreadStatus, runs, stops, exits,
  is_running, is_shutdown,
}

module _ (S : Type 0) (gateway : Gateway S) where
  -- The state of `mainLoop`.
  pub record Subscriber : Type 0 where
    pub status : ThreadStatus
    pub world : S

  abbrev pub new_subscriber : S → Subscriber
  new_subscriber s = record { status = runs; world = s }

  -- A frame of no known type is left out. The exception of the decoder is none of those that the loop
  -- catches and ends the process.
  abbrev pub handle_decoded : Decoded (Option Instruction) → Subscriber → Subscriber
  handle_decoded (err e) c = record c { status = exits }
  handle_decoded (ok none) c = c
  handle_decoded (ok (some i)) c = record c { world = handle_instruction S gateway i c.world }

  abbrev receive_frame : ℕ → Received → Subscriber → Subscriber
  receive_frame now_ms idle c = c
  receive_frame now_ms fails c = c
  receive_frame now_ms empty c = c
  receive_frame now_ms (got t) c = handle_decoded (decode now_ms t) c

  abbrev receive_running : ℕ → Received → Subscriber → Subscriber
  receive_running now_ms request c =
      if is_running c.status then receive_frame now_ms request c else c

  -- One round of `mainLoop`: an exception of the poll or the event bus leaves the rest out.
  unfoldable pub subscriber_round : ℕ → Poll → Subscriber → Subscriber
  subscriber_round now_ms poll_fails c = c
  subscriber_round now_ms (polled idle request) c = receive_running now_ms request c
  subscriber_round now_ms (polled fails request) c = c
  subscriber_round now_ms (polled empty request) c = receive_running now_ms request c
  subscriber_round now_ms (polled (got t) request) c =
      receive_running now_ms request
        (if is_shutdown (got t) then record c { status = stops } else c)

  -- `mainLoop`, on the times of the system clock and what the polls give.
  unfoldable pub subscriber_loop : List (ℕ × Poll) → Subscriber → Subscriber
  subscriber_loop [] c = c
  subscriber_loop ((now_ms, p) ∷ ps) c =
      let c' = subscriber_round now_ms p c in
      let rest = subscriber_loop ps c' in if is_running c'.status then rest else c'
