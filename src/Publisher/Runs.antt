-- ===== src/Publisher/Runs.antt =====
-- What the publisher comes to, whatever the threads do.
use webx_engine.Common.{
  ℕ, suc, ◌≡◌, refl, sym, subst, Bool, true, false, ◌&&◌, List, [], ◌∷◌, ◌++◌, ok, err,
  append_assoc, append-nil, if◌then◌else◌,
}
use webx_engine.Message.{Message}
use webx_engine.Encoder.{Env, Encoded, encode}
use webx_engine.Queue.{put, get, stop}
use webx_engine.Publisher.{
  Phase, tests, gets, ended, crashed, holds, sends, Publisher, after_encode, PublisherCall, goes_on,
  stops_running, stops_queue, publishes, puts_late, publisher_call, publisher_calls,
}
use webx_engine.Publisher.InFlight.{
  insert-last, state, IsFifo, IsFifo-gets, IsFifo-ended, IsFifo-stopped, IsFifo-holds, IsFifo-sends,
  IsFifo-drops, IsFifo-sent, IsFifo-crashed, IsFifo-stop, IsFifo-put,
}

module _ (env : ℕ → Env) where
  -- The messages that are given while the publisher runs, or by a call that began before, and before the
  -- queue is stopped.
  pub given : (running is_open : Bool) → List (PublisherCall env) → List Message
  given running is_open [] = []
  given running is_open (goes_on ∷ cs) = given running is_open cs
  given running is_open (publishes m ∷ cs) =
      (if running && is_open then m ∷ [] else []) ++ given running is_open cs
  given running is_open (puts_late m ∷ cs) =
      (if is_open then m ∷ [] else []) ++ given running is_open cs
  given running is_open (stops_running ∷ cs) = given false is_open cs
  given running is_open (stops_queue ∷ cs) = given running false cs

  -- What the publisher comes to, still running or not and with the queue open or not.
  pub record Reached (acc : List Message) (running is_open : Bool) (p : Publisher env)
      : Type 0 where
    pub phase : Phase
    pub waiting : List Message
    pub count : ℕ
    pub frames_sent : List (List ℕ)
    pub is : p ≡ state env phase running is_open waiting count frames_sent
    pub at_end : IsFifo env acc phase running waiting count frames_sent

  reached :
      (acc : List Message) (phase : Phase) (running is_open : Bool) (w : List Message) (k : ℕ)
      (sent : List (List ℕ))
      → IsFifo env acc phase running w k sent
      → Reached acc running is_open (state env phase running is_open w k sent)
  reached acc phase running is_open w k sent h = record {
    phase = phase;
    waiting = w;
    count = k;
    frames_sent = sent;
    is = refl;
    at_end = h;
  }

  encode-Reached :
      (acc : List Message) (m : Message) (running is_open : Bool) (w : List Message) (k : ℕ)
      (sent : List (List ℕ)) (x : Encoded)
      → encode (env k) m ≡ x
      → IsFifo env acc (sends m) running w k sent
      → Reached acc running is_open
          (after_encode env x (state env (sends m) running is_open w k sent))
  encode-Reached acc m running is_open w k sent (ok b) e h =
      reached acc tests running is_open w (suc k) (sent ++ b.content ∷ [])
        (IsFifo-sent env acc w m running k sent b h e)
  encode-Reached acc m running is_open w k sent (err x) e h =
      reached acc crashed running is_open w k sent (IsFifo-crashed env acc w m running k sent x h e)

  step-Reached :
      (acc : List Message) (phase : Phase) (running is_open : Bool) (w : List Message) (k : ℕ)
      (sent : List (List ℕ))
      → IsFifo env acc phase running w k sent
      → Reached acc running is_open
          (publisher_call env goes_on (state env phase running is_open w k sent))
  unfolding publisher_call get
  step-Reached acc tests true is_open w k sent h =
      reached acc gets true is_open w k sent (IsFifo-gets env acc w k sent h)
  step-Reached acc tests false is_open w k sent h =
      reached acc ended false is_open w k sent (IsFifo-ended env acc w k sent h)
  step-Reached acc gets running false w k sent h =
      reached acc tests running false w k sent (IsFifo-stopped env acc w running k sent h)
  step-Reached acc gets running true [] k sent h = reached acc gets running true [] k sent h
  step-Reached acc gets running true (m ∷ w) k sent h =
      reached acc (holds m) running true w k sent (IsFifo-holds env acc w m running k sent h)
  step-Reached acc (holds m) true is_open w k sent h =
      reached acc (sends m) true is_open w k sent (IsFifo-sends env acc w m k sent h)
  step-Reached acc (holds m) false is_open w k sent h =
      reached acc tests false is_open w k sent (IsFifo-drops env acc w m k sent h)
  step-Reached acc (sends m) running is_open w k sent h =
      encode-Reached acc m running is_open w k sent (encode (env k) m) refl h
  step-Reached acc ended running is_open w k sent h = reached acc ended running is_open w k sent h
  step-Reached acc crashed running is_open w k sent h =
      reached acc crashed running is_open w k sent h

  -- What a run comes to.
  pub record Ran (acc : List Message) (p : Publisher env) : Type 0 where
    pub running : Bool
    pub is_open : Bool
    pub to : Reached acc running is_open p

  pub run-Ran :
      (cs : List (PublisherCall env)) (acc : List Message) (phase : Phase) (running is_open : Bool)
      (w : List Message) (k : ℕ) (sent : List (List ℕ))
      → IsFifo env acc phase running w k sent
      → Ran
          (acc ++ given running is_open cs)
          (publisher_calls env cs (state env phase running is_open w k sent))
  unfolding publisher_calls given publisher_call put stop
  run-Ran [] acc phase running is_open w k sent h = record {
    running = running;
    is_open = is_open;
    to = rw append-nil (reached acc phase running is_open w k sent h);
  }
  run-Ran (goes_on ∷ cs) acc phase running is_open w k sent h =
      let r = step-Reached acc phase running is_open w k sent h in
      subst (λ p. Ran (acc ++ given running is_open cs) (publisher_calls env cs p)) (sym r.is)
        (run-Ran cs acc r.phase running is_open r.waiting r.count r.frames_sent r.at_end)
  run-Ran (publishes m ∷ cs) acc phase true true w k sent h =
      rw (insert-last m w, ← append_assoc acc (m ∷ []) (given true true cs))
        (run-Ran cs (acc ++ m ∷ []) phase true true (w ++ m ∷ []) k sent
          (IsFifo-put env acc w m phase true k sent h))
  run-Ran (publishes m ∷ cs) acc phase true false w k sent h =
      run-Ran cs acc phase true false w k sent h
  run-Ran (publishes m ∷ cs) acc phase false is_open w k sent h =
      run-Ran cs acc phase false is_open w k sent h
  run-Ran (puts_late m ∷ cs) acc phase running true w k sent h =
      rw (insert-last m w, ← append_assoc acc (m ∷ []) (given running true cs))
        (run-Ran cs (acc ++ m ∷ []) phase running true (w ++ m ∷ []) k sent
          (IsFifo-put env acc w m phase running k sent h))
  run-Ran (puts_late m ∷ cs) acc phase running false w k sent h =
      run-Ran cs acc phase running false w k sent h
  run-Ran (stops_running ∷ cs) acc phase running is_open w k sent h =
      run-Ran cs acc phase false is_open w k sent (IsFifo-stop env acc w phase running k sent h)
  run-Ran (stops_queue ∷ cs) acc phase running is_open w k sent h =
      run-Ran cs acc phase running false w k sent h
