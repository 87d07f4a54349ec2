-- ===== src/Subscriber/Tests.antt =====
-- A run of the subscriber at a concrete input.
use webx_engine.Common.{
  ℕ, ◌+◌, ◌≡◌, refl, true, List, [], ◌∷◌, none, some, ok, inr, All, ◌++◌, arith,
}
use webx_engine.Decoder.Tests.{session, move, of_type_99}
use webx_engine.Decoder.{decode}
use webx_engine.Decoder.Wire.{wire}
use webx_engine.Decoder.Bounds.{decode-short, decode-unknown}
use webx_engine.Gateway.{Gateway}
use webx_engine.Text.{Text, same_text}
use webx_engine.Connector.{idle, empty, got, Poll, poll_fails, polled}
use webx_engine.Subscriber.{new_subscriber, subscriber_loop}
use webx_engine.Subscriber.Delivered.{
  Incoming, arrives, strays, IsSound, IsTail, IsEnd, frames, wires, deliver,
  subscriber_loop-delivers,
}

-- The state counts the instructions.
abbrev counting : Gateway ℕ
counting = record {
  message_publisher_func = none;
  instruction_handler_func = some (λ i n. n + 1);
  client_connect_func = none;
  client_disconnect_func = none;
}

abbrev incoming : List Incoming
incoming =
    arrives (record { now_ms = 1000; synchronous = true; instruction = move })
    ∷ strays 1001 of_type_99
    ∷ arrives (record { now_ms = 1002; synchronous = true; instruction = move })
    ∷ []

-- The last frame is cut short.
abbrev polls : List (ℕ × Poll)
polls =
    (1000, polled idle (got (wire session true move)))
    ∷ (1001, polled idle (got of_type_99))
    ∷ (1001, poll_fails)
    ∷ (1002, polled empty (got (wire session true move)))
    ∷ (1003, polled idle (got session))
    ∷ (1004, polled idle (got (wire session true move)))
    ∷ []

abbrev tail_of_test : List (ℕ × Text)
tail_of_test = (1003, session) ∷ (1004, wire session true move) ∷ []

frames_of_test : frames polls ≡ wires session incoming ++ tail_of_test
unfolding frames same_text wires
frames_of_test = refl

tail_of_test-IsTail : IsTail tail_of_test
tail_of_test-IsTail = let (e, d, l, o, n) = decode-short 1003 session (omega arith) in (e, d)

move-IsSound :
    IsSound session (arrives (record { now_ms = 1000; synchronous = true; instruction = move }))
move-IsSound = (
  omega arith,
  omega arith,
  ((omega arith, omega arith), (omega arith, omega arith), omega arith),
  omega arith,
)

incoming-IsSound : All (IsSound session) incoming
incoming-IsSound =
    let stray : decode 1001 of_type_99 ≡ ok none =
      decode-unknown 1001 77 2_147_483_747 3 0 session (8 ∷ []) of_type_99 refl (omega arith)
        (omega arith) (omega arith) (omega arith) (inr (omega arith)) refl (omega arith) in
    (move-IsSound, (stray, (move-IsSound, tt)))

subscriber_loop-delivers_example :
    let c = subscriber_loop ℕ counting polls (new_subscriber ℕ counting 0) in
    (c.world ≡ deliver ℕ counting incoming 0) × IsEnd ℕ counting tail_of_test c.status
subscriber_loop-delivers_example =
    subscriber_loop-delivers ℕ counting session polls incoming tail_of_test 0 refl incoming-IsSound
      tail_of_test-IsTail frames_of_test
