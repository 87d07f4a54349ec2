-- ===== src/Publisher/Tests.antt =====
-- A run of the publisher at a concrete input.
use webx_engine.Common.{◌*◌, ◌≡◌, ◌⊎◌, true, false, List, [], ◌∷◌, length}
use webx_engine.Encoder.Tests.{env, moved}
use webx_engine.Publisher.{
  new_publisher, PublisherCall, publishes, puts_late, goes_on, stops_running, stops_queue,
  publisher_calls,
}
use webx_engine.Publisher.Runs.{given}
use webx_engine.Publisher.Fifo.{IsInOrder, IsThrough, steps, publisher_calls-fifo}

-- One message is sent, the next is taken before the stop and dropped, and one comes too late.
abbrev calls_of_test : List (PublisherCall (λ n. env))
calls_of_test =
    goes_on
    ∷ publishes moved
    ∷ publishes moved
    ∷ goes_on
    ∷ goes_on
    ∷ goes_on
    ∷ goes_on
    ∷ goes_on
    ∷ stops_running
    ∷ puts_late moved
    ∷ goes_on
    ∷ stops_queue
    ∷ goes_on
    ∷ publishes moved
    ∷ []

publisher_calls-fifo_example :
    let p = publisher_calls (λ n. env) calls_of_test (new_publisher (λ n. env)) in
    let accepted = given (λ n. env) true true calls_of_test in
    IsInOrder (λ n. env) accepted p
    × ((p.running ≡ false)
        ⊎ ((p.message_queue.unavailable ≡ true)
            ⊎ IsThrough
                (λ n. env)
                accepted
                (publisher_calls (λ n. env) (steps (λ n. env) (4 * length accepted)) p)))
publisher_calls-fifo_example = publisher_calls-fifo (λ n. env) calls_of_test
