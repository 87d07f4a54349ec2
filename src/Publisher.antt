-- ===== src/Publisher.antt =====
-- src/transport/WebXClientMessagePublisher.h and .cpp: the queue of the messages, the loop that encodes and
-- sends them, and what other threads do meanwhile, in steps that each touch one of `_running` and the queue.
-- The frames are all that are handed to the socket, and sending is taken not to fail.
pub mod InFlight
pub mod Runs
pub mod Fifo
mod Tests
use webx_engine.Common.{
  Bool, true, false, ℕ, suc, List, [], ◌∷◌, ◌++◌, Result, ok, err, if◌then◌else◌,
}
use webx_engine.Common.Int.{pos}
use webx_engine.Buffer.{Buffer}
use webx_engine.Message.{Message}
use webx_engine.Encoder.{Env, Encoded, encode}
use webx_engine.Queue.{Queue, GetResult, waits, stopped, gives, new_queue, put, get, stop}

-- Where the loop is: before its test of `_running`, before or in the call of `get`, with a message before
-- the second test of `_running`, with one after it, at its end, or with the process, after an exception of
-- the encoder, which is none of those that the loop catches.
pub data Phase : Type 0 where
  tests gets ended crashed : Phase
  holds sends : Message → Phase

-- The encoder reads the clock and counts its messages: `env` is what it has for each message that it
-- encodes, in their order.
module _ (env : ℕ → Env) where
  pub record Publisher : Type 0 where
    pub phase : Phase
    pub running : Bool
    pub message_queue : Queue Message
    pub encoded : ℕ
    pub sent : List (List ℕ)

  -- After `run`.
  abbrev pub new_publisher : Publisher
  new_publisher = record {
    phase = tests;
    running = true;
    message_queue = new_queue;
    encoded = 0;
    sent = [];
  }

  -- `put` in `onMessage`
  abbrev pub put_message : Message → Publisher → Publisher
  put_message m p = record p { message_queue = put m (pos 0) p.message_queue }

  -- `onMessage`
  abbrev pub on_message : Message → Publisher → Publisher
  on_message m p = if p.running then put_message m p else p

  -- A call of `get` that waits is made again.
  abbrev pub after_get : GetResult Message → Publisher → Publisher
  after_get waits p = p
  after_get stopped p = record p { phase = tests }
  after_get (gives m) p = record p { phase = holds m }

  abbrev pub after_encode : Encoded → Publisher → Publisher
  after_encode (ok b) p = record p {
    phase = tests;
    sent = p.sent ++ b.content ∷ [];
    encoded = suc p.encoded;
  }
  after_encode (err e) p = record p { phase = crashed }

  -- One step of `mainLoop`.
  abbrev pub loop_step : Phase → Publisher → Publisher
  loop_step tests p = record p { phase = if p.running then gets else ended }
  loop_step gets p = let x = get p.message_queue in after_get x.0 (record p { message_queue = x.1 })
  loop_step (holds m) p = record p { phase = if p.running then sends m else tests }
  loop_step (sends m) p = after_encode (encode (env p.encoded) m) p
  loop_step ended p = p
  loop_step crashed p = p

  -- What the loop and the other threads do, in any order: a step of the loop; a call of `onMessage`, or the
  -- `put` of one that has tested `_running` before; and the two steps of `stop`.
  pub data PublisherCall : Type 0 where
    goes_on stops_running stops_queue : PublisherCall
    publishes puts_late : Message → PublisherCall

  unfoldable pub publisher_call : PublisherCall → Publisher → Publisher
  publisher_call goes_on p = loop_step p.phase p
  publisher_call (publishes m) p = on_message m p
  publisher_call (puts_late m) p = put_message m p
  publisher_call stops_running p = record p { running = false }
  publisher_call stops_queue p = record p { message_queue = stop p.message_queue }

  unfoldable pub publisher_calls : List PublisherCall → Publisher → Publisher
  publisher_calls [] p = p
  publisher_calls (c ∷ cs) p = publisher_calls cs (publisher_call c p)
