-- ===== src/Publisher/Fifo.antt =====
-- The order in which messages are sent, and that enough steps send them all.
use webx_engine.Common.{
  ℕ, zero, suc, ◌+◌, ◌*◌, ◌≤◌, ◌≡◌, refl, sym, ◌∙◌, ap, subst, Bool, true, false, List, [], ◌∷◌,
  ◌++◌, ◌⊎◌, inl, inr, ok, err, append-nil, length, length-append, arith,
}
use webx_engine.Message.{Message}
use webx_engine.Encoder.{Env, Encoded, encode}
use webx_engine.Queue.{get}
use webx_engine.Publisher.{
  Phase, tests, gets, ended, crashed, holds, sends, Publisher, new_publisher, after_encode,
  PublisherCall, goes_on, publisher_call, publisher_calls,
}
use webx_engine.Publisher.InFlight.{
  messages_in, messages_in-items_of, AreSent, InFlight, state, IsFifo, IsFifo-gets, IsFifo-holds,
  IsFifo-sends, IsFifo-sent,
}
use webx_engine.Publisher.Runs.{given, run-Ran}

-- The steps that the loop takes to send what it has in hand and in the queue.
abbrev steps_left : Phase → List Message → ℕ
steps_left tests w = 4 * length w
steps_left gets [] = 0
steps_left gets (m ∷ w) = 3 + 4 * length w
steps_left (holds m) w = 2 + 4 * length w
steps_left (sends m) w = 1 + 4 * length w
steps_left ended w = 0
steps_left crashed w = 0

module _ (env : ℕ → Env) where
  unfoldable pub steps : ℕ → List (PublisherCall env)
  steps zero = []
  steps (suc n) = goes_on ∷ steps n

  -- The encoder has thrown, or all is sent.
  abbrev pub IsThrough : List Message → Publisher env → Type 0
  IsThrough accepted p = (p.phase ≡ crashed) ⊎ AreSent env 0 accepted p.sent

  crashed-same :
      (n : ℕ) (w : List Message) (k : ℕ) (sent : List (List ℕ))
      → publisher_calls env (steps n) (state env crashed true true w k sent)
        ≡ state env crashed true true w k sent
  unfolding publisher_calls publisher_call steps
  crashed-same zero w k sent = refl
  crashed-same (suc n) w k sent = crashed-same n w k sent

  all_sent-IsThrough :
      (acc : List Message) (phase : Phase) (k : ℕ) (sent : List (List ℕ))
      (h : IsFifo env acc phase true [] k sent)
      → h.flight ≡ []
      → IsThrough acc (state env phase true true [] k sent)
  all_sent-IsThrough acc phase k sent h e =
      let o : acc ≡ h.done = h.order ∙ (ap (λ xs. h.done ++ (xs ++ [])) e ∙ append-nil h.done) in
      inr (subst (λ xs. AreSent env 0 xs sent) (sym o) h.frames)

  IsThrough-zero :
      (acc : List Message) (phase : Phase) (w : List Message) (k : ℕ) (sent : List (List ℕ))
      → IsFifo env acc phase true w k sent
      → steps_left phase w ≤ 0
      → IsThrough acc (state env phase true true w k sent)
  unfolding InFlight
  IsThrough-zero acc tests [] k sent h n =
      all_sent-IsThrough acc tests k sent h
        (elim h.in_flight [ inl e ↦ e | inr (e, _) ↦ absurd cc ])
  IsThrough-zero acc tests (m ∷ w) k sent h n = absurd (omega arith)
  IsThrough-zero acc gets [] k sent h n = all_sent-IsThrough acc gets k sent h h.in_flight
  IsThrough-zero acc gets (m ∷ w) k sent h n = absurd (omega arith)
  IsThrough-zero acc (holds m) w k sent h n = absurd (omega arith)
  IsThrough-zero acc (sends m) w k sent h n = absurd (omega arith)
  IsThrough-zero acc ended w k sent h n = let (e, _) = h.in_flight in absurd cc
  IsThrough-zero acc crashed w k sent h n = inl refl

  drained_after :
      (n : ℕ) (acc : List Message) (m : Message) (w : List Message) (k : ℕ) (sent : List (List ℕ))
      (x : Encoded)
      → encode (env k) m ≡ x
      → IsFifo env acc (sends m) true w k sent
      → ((sent' : List (List ℕ))
          → IsFifo env acc tests true w (suc k) sent'
          → IsThrough acc
              (publisher_calls env (steps n) (state env tests true true w (suc k) sent')))
      → IsThrough acc (
          publisher_calls env
            (steps n)
            (after_encode env x (state env (sends m) true true w k sent)))
  drained_after n acc m w k sent (ok b) e h rest =
      rest (sent ++ b.content ∷ []) (IsFifo-sent env acc w m true k sent b h e)
  drained_after n acc m w k sent (err x) e h rest =
      inl (ap (λ p. p.phase) (crashed-same n w k sent))

  drained :
      (n : ℕ) (acc : List Message) (phase : Phase) (w : List Message) (k : ℕ) (sent : List (List ℕ))
      → IsFifo env acc phase true w k sent
      → steps_left phase w ≤ n
      → IsThrough acc (publisher_calls env (steps n) (state env phase true true w k sent))
  unfolding publisher_calls publisher_call steps get InFlight
  drained zero acc phase w k sent h n = IsThrough-zero acc phase w k sent h n
  drained (suc n) acc tests [] k sent h l =
      drained n acc gets [] k sent (IsFifo-gets env acc [] k sent h) (omega arith)
  drained (suc n) acc tests (m ∷ w) k sent h l =
      drained n acc gets (m ∷ w) k sent (IsFifo-gets env acc (m ∷ w) k sent h) (omega arith)
  drained (suc n) acc gets [] k sent h l = drained n acc gets [] k sent h (omega arith)
  drained (suc n) acc gets (m ∷ w) k sent h l =
      drained n acc (holds m) w k sent (IsFifo-holds env acc w m true k sent h) (omega arith)
  drained (suc n) acc (holds m) w k sent h l =
      drained n acc (sends m) w k sent (IsFifo-sends env acc w m k sent h) (omega arith)
  drained (suc n) acc (sends m) w k sent h l =
      drained_after n acc m w k sent (encode (env k) m) refl h
        (λ sent' h'. drained n acc tests w (suc k) sent' h' (omega arith))
  drained (suc n) acc ended w k sent h l = let (e, _) = h.in_flight in absurd cc
  drained (suc n) acc crashed w k sent h l = inl (ap (λ p. p.phase) (crashed-same n w k sent))

  steps_left-flight :
      (phase : Phase) (w flight : List Message) (n : ℕ)
      → length flight + length w ≤ n
      → InFlight env phase true flight
      → steps_left phase w ≤ 4 * n
  unfolding InFlight
  steps_left-flight tests w flight n l h = omega (arith, l)
  steps_left-flight gets [] flight n l h = omega arith
  steps_left-flight gets (m ∷ w) flight n l h = omega (arith, l)
  steps_left-flight (holds m) w flight n l h = omega (arith, l, ap length h)
  steps_left-flight (sends m) w flight n l h = omega (arith, l, ap length h)
  steps_left-flight ended w flight n l h = omega arith
  steps_left-flight crashed w flight n l h = omega arith

  steps_left-le :
      (acc : List Message) (phase : Phase) (w : List Message) (k : ℕ) (sent : List (List ℕ))
      → IsFifo env acc phase true w k sent
      → steps_left phase w ≤ 4 * length acc
  unfolding InFlight
  steps_left-le acc phase w k sent h =
      let n : length acc ≡ length h.done + (length h.flight + length w) =
        ap length h.order
        ∙ omega (arith, length-append h.done (h.flight ++ w), length-append h.flight w) in
      steps_left-flight phase w h.flight (length acc) (omega (arith, n)) h.in_flight

  new-IsFifo : IsFifo env [] tests true [] 0 []
  unfolding InFlight AreSent
  new-IsFifo = record {
    done = [];
    flight = [];
    order = refl;
    counted = refl;
    frames = tt;
    in_flight = inl refl;
  }

  drained_or_stopped :
      (running is_open : Bool) (acc : List Message) (phase : Phase) (w : List Message) (k : ℕ)
      (sent : List (List ℕ))
      → IsFifo env acc phase running w k sent
      → let p = state env phase running is_open w k sent in
        (p.running ≡ false)
        ⊎ ((p.message_queue.unavailable ≡ true)
            ⊎ IsThrough acc (publisher_calls env (steps (4 * length acc)) p))
  drained_or_stopped false is_open acc phase w k sent h = inl refl
  drained_or_stopped true false acc phase w k sent h = inr (inl refl)
  drained_or_stopped true true acc phase w k sent h =
      inr (inr (drained (4 * length acc) acc phase w k sent h (steps_left-le acc phase w k sent h)))

  -- What is sent, what is in flight and what is in the queue.
  pub record IsInOrder (accepted : List Message) (p : Publisher env) : Type 0 where
    pub done : List Message
    pub flight : List Message
    pub order : accepted ≡ done ++ (flight ++ messages_in p.message_queue.items)
    pub frames : AreSent env 0 done p.sent
    pub in_flight : InFlight env p.phase p.running flight

  IsFifo-IsInOrder :
      (acc : List Message) (phase : Phase) (running is_open : Bool) (w : List Message) (k : ℕ)
      (sent : List (List ℕ))
      → IsFifo env acc phase running w k sent
      → IsInOrder acc (state env phase running is_open w k sent)
  IsFifo-IsInOrder acc phase running is_open w k sent h = record {
    done = h.done;
    flight = h.flight;
    order = rw (messages_in-items_of w) h.order;
    frames = h.frames;
    in_flight = h.in_flight;
  }

  -- However messages are given, the loop goes on and the publisher is stopped, from its start on, in any
  -- order of their steps. The messages that reach the queue before it is stopped, given while the publisher
  -- runs or by a call that began then, are first those whose frames are sent, each once and in the order in
  -- which they were given, then at most one that the loop has taken, and then those in the queue; the one
  -- taken is in hand, or was dropped after a stop, or is one for which the encoder has thrown, which ends
  -- the process. And unless it is stopped, four steps of the loop for each message send all of them, or
  -- come to one for which the encoder throws.
  pub publisher_calls-fifo :
      (cs : List (PublisherCall env))
      → let p = publisher_calls env cs (new_publisher env) in
        let accepted = given env true true cs in
        IsInOrder accepted p
        × ((p.running ≡ false)
            ⊎ ((p.message_queue.unavailable ≡ true)
                ⊎ IsThrough accepted (publisher_calls env (steps (4 * length accepted)) p)))
  publisher_calls-fifo cs =
      let r = run-Ran env cs [] tests true true [] 0 [] new-IsFifo in
      let accepted = given env true true cs in
      let h = r.to.at_end in
      subst
        (λ p.
          IsInOrder accepted p
          × ((p.running ≡ false)
              ⊎ ((p.message_queue.unavailable ≡ true)
                  ⊎ IsThrough accepted (publisher_calls env (steps (4 * length accepted)) p))))
        (sym r.to.is)
        (
          IsFifo-IsInOrder accepted r.to.phase r.running r.is_open r.to.waiting r.to.count
              r.to.frames_sent h,
          drained_or_stopped r.running r.is_open accepted r.to.phase r.to.waiting r.to.count
              r.to.frames_sent h,
        )
