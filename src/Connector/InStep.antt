-- ===== src/Connector/InStep.antt =====
-- The replies of the loop, whatever the polls give.
use webx_engine.Common.{
  ℕ, ◌+◌, ◌≡◌, refl, ap, ◌≢◌, Bool, true, false, List, [], ◌∷◌, ◌++◌, Option, none, some, Result,
  ok, err, arith, length, length-append, if◌then◌else◌, Bool-cases, Option-cases, ◌⊎◌, inl, inr,
}
use webx_engine.Message.{Version}
use webx_engine.Gateway.{Gateway, on_client_connect}
use webx_engine.Text.{Text, codes, same_text, has_prefix, split}
use webx_engine.Connector.{
  ConnectorSettings, Received, idle, fails, empty, got, Poll, poll_fails, polled, waiting_recv,
  waiting_send, runs, stops, exits, is_shutdown, Connector, new_connector, connector_round,
  main_loop, answer_command, connect_command, connect_client, sends, connect_reply, client_version,
  receive, answered, finished,
}

-- How often the responder's socket is received from without an exception.
abbrev receives_of : Received → ℕ
receives_of idle = 0
receives_of fails = 0
receives_of empty = 1
receives_of (got _) = 1

-- The same of a poll, unless it or the event bus fails or the event bus shuts the thread down.
abbrev receives_in : Poll → ℕ
receives_in poll_fails = 0
receives_in (polled idle request) = receives_of request
receives_in (polled fails request) = 0
receives_in (polled empty request) = receives_of request
receives_in (polled (got t) request) = if is_shutdown (got t) then 0 else receives_of request

abbrev pub shuts_down : Poll → Bool
shuts_down poll_fails = false
shuts_down (polled event request) = is_shutdown event

-- The receives before a shutdown.
unfoldable pub receives_before_shutdown : List Poll → ℕ
receives_before_shutdown [] = 0
receives_before_shutdown (p ∷ ps) =
    let rest = receives_before_shutdown ps in if shuts_down p then 0 else receives_in p + rest

module _ (S : Type 0) (gateway : Gateway S) (describe : Text → Option Text)
    (settings : ConnectorSettings) where
  pub record IsInStep (ps : List Poll) (sent : List Text)
      (c : Connector S gateway describe settings) : Type 0 where
    pub receives : c.socket_state ≡ waiting_recv
    pub goes_on : c.status ≢ exits
    pub replies : length c.sent ≡ receives_before_shutdown ps + length sent

  -- A call of the gateway's connection function that does not return.
  pub Hangs : S → Type 0
  Hangs s = (v : Version) × (on_client_connect S gateway v s ≡ none)

  -- A result, or a call that does not return.
  abbrev Ends : {A : Type 0} → S → Option A → Type 0
  Ends s none = Hangs s
  Ends s (some _) = Unit

  if-Ends :
      {A : Type 0} (s : S) (b : Bool) (x y : Option A)
      → Ends s x
      → Ends s y
      → Ends s (if b then x else y)
  if-Ends s true x y p q = p
  if-Ends s false x y p q = q

  connect_reply-Ends :
      (s : S) (o : Option (Result Text (ℕ × ℕ) × S))
      → Ends s o
      → Ends s (connect_reply S gateway describe settings o)
  connect_reply-Ends s none h = h
  connect_reply-Ends s (some (ok (i, index), s')) h = tt
  connect_reply-Ends s (some (err e, s')) h = tt

  on_client_connect-Ends : (v : Version) (s : S) → Ends s (on_client_connect S gateway v s)
  unfolding Hangs
  on_client_connect-Ends v s = elim (Option-cases (on_client_connect S gateway v s)) [
    | inl e ↦ rw e (v, e)
    | inr (x, e) ↦ rw e tt
  ]

  connect_client-Ends :
      (session_id : Text) (v : Version) (s : S)
      → Ends s (connect_client S gateway describe settings session_id v s)
  unfolding connect_client
  connect_client-Ends session_id v s =
      if-Ends s (same_text session_id settings.session_id) _ _
        (connect_reply-Ends s (on_client_connect S gateway v s) (on_client_connect-Ends v s)) tt

  sends-Ends :
      (s : S) (o : Option (Text × S)) → Ends s o → Ends s (sends S gateway describe settings o)
  sends-Ends s none h = h
  sends-Ends s (some (t, s')) h = tt

  connect_command-Ends :
      (es : List Text) (s : S) → Ends s (connect_command S gateway describe settings es s)
  unfolding connect_command
  connect_command-Ends [] s = tt
  connect_command-Ends (e ∷ []) s = tt
  connect_command-Ends (e ∷ session_id ∷ es) s =
      sends-Ends s _
        (connect_client-Ends session_id (client_version S gateway describe settings es) s)

  answer_command-Ends : (t : Text) (s : S) → Ends s (answer_command S gateway describe settings t s)
  unfolding answer_command
  answer_command-Ends t s = if-Ends s (same_text t (codes "comm")) _ _ tt (
      if-Ends s (has_prefix (codes "ping") t) _ _ tt (
        if-Ends s (has_prefix (codes "connect") t) _ _ (connect_command-Ends (split t b',') s)
          (if-Ends s (has_prefix (codes "disconnect") t) _ _ tt tt)))

  -- A thread between two rounds.
  abbrev ready : List Text → S → Connector S gateway describe settings
  ready sent s = record { socket_state = waiting_recv; status = runs; sent = sent; world = s }

  -- A step that leads to the next round after so many replies, or a call that does not return.
  abbrev GoesOn : ℕ → List Text → S → Option (Connector S gateway describe settings) → Type 0
  GoesOn n sent s o =
      ((sent' : List Text) × (s' : S) × (o ≡ some (ready sent' s'))
        × (length sent' ≡ n + length sent))
      ⊎ ((o ≡ none) × Hangs s)

  answered-ready :
      (o : Option (Option Text × S)) (sent : List Text) (s : S)
      → Ends s o
      → GoesOn 1 sent s (
          finished S gateway describe settings (
            answered S gateway describe settings
              (record { socket_state = waiting_send; status = runs; sent = sent; world = s })
              o))
  answered-ready none sent s h = inr (refl, h)
  answered-ready (some (none, s')) sent s h =
      inl (sent ++ [] ∷ [], s', refl, omega (arith, length-append sent ([] ∷ [])))
  answered-ready (some (some t, s')) sent s h =
      inl (sent ++ t ∷ [], s', refl, omega (arith, length-append sent (t ∷ [])))

  receive-ready :
      (request : Received) (sent : List Text) (s : S)
      → GoesOn (receives_of request) sent s (
          finished S gateway describe settings
            (receive S gateway describe settings request (ready sent s)))
  receive-ready idle sent s = inl (sent, s, refl, omega arith)
  receive-ready fails sent s = inl (sent, s, refl, omega arith)
  receive-ready empty sent s =
      inl (sent ++ [] ∷ [], s, refl, omega (arith, length-append sent ([] ∷ [])))
  receive-ready (got t) sent s =
      answered-ready (answer_command S gateway describe settings t s) sent s
        (answer_command-Ends t s)

  round-runs :
      (p : Poll) (sent : List Text) (s : S)
      → shuts_down p ≡ false
      → GoesOn (receives_in p) sent s (connector_round S gateway describe settings p (ready sent s))
  unfolding connector_round
  round-runs poll_fails sent s h = inl (sent, s, refl, omega arith)
  round-runs (polled idle request) sent s h = receive-ready request sent s
  round-runs (polled fails request) sent s h = inl (sent, s, refl, omega arith)
  round-runs (polled empty request) sent s h = receive-ready request sent s
  round-runs (polled (got t) request) sent s h = rw h (receive-ready request sent s)

  round-stops :
      (p : Poll) (sent : List Text) (s : S)
      → shuts_down p ≡ true
      → connector_round S gateway describe settings p (ready sent s)
        ≡ some (record { socket_state = waiting_recv; status = stops; sent = sent; world = s })
  unfolding connector_round
  round-stops poll_fails sent s h = ground arith
  round-stops (polled idle request) sent s h = ground arith
  round-stops (polled fails request) sent s h = ground arith
  round-stops (polled empty request) sent s h = ground arith
  round-stops (polled (got t) request) sent s h = rw h refl

  -- The loop has come to a poll in which it calls the gateway's connection function in vain.
  pub record IsHung (ps : List Poll) (sent : List Text) (s : S) : Type 0 where
    pub before : List Poll
    pub poll : Poll
    pub after : List Poll
    pub reached : Connector S gateway describe settings
    pub polls : ps ≡ before ++ poll ∷ after
    pub reaches : main_loop S gateway describe settings before (ready sent s) ≡ some reached
    pub in_step : IsInStep before sent reached
    pub hangs : Hangs reached.world
    pub in_vain : connector_round S gateway describe settings poll reached ≡ none

  abbrev pub LoopEnds :
      List Poll → List Text → S → Option (Connector S gateway describe settings) → Type 0
  LoopEnds ps sent s o =
      ((c : Connector S gateway describe settings) × (o ≡ some c) × IsInStep ps sent c)
      ⊎ ((o ≡ none) × IsHung ps sent s)

  main_loop-again :
      (p : Poll) (ps : List Poll) (sent sent' : List Text) (s s' : S)
      → shuts_down p ≡ false
      → connector_round S gateway describe settings p (ready sent s) ≡ some (ready sent' s')
      → length sent' ≡ receives_in p + length sent
      → LoopEnds ps sent' s' (main_loop S gateway describe settings ps (ready sent' s'))
      → LoopEnds (p ∷ ps) sent s (main_loop S gateway describe settings (p ∷ ps) (ready sent s))
  unfolding main_loop receives_before_shutdown
  main_loop-again p ps sent sent' s s' h e n (inl (c, e', k)) = inl (
    c,
    rw (main_loop, e) e',
    record {
      receives = k.receives;
      goes_on = k.goes_on;
      replies = rw h (omega (arith, n, k.replies));
    },
  )
  main_loop-again p ps sent sent' s s' h e n (inr (e', w)) = inr (
    rw (main_loop, e) e',
    record {
      before = p ∷ w.before;
      poll = w.poll;
      after = w.after;
      reached = w.reached;
      polls = ap (λ xs. p ∷ xs) w.polls;
      reaches = rw (main_loop, e) w.reaches;
      in_step = record {
        receives = w.in_step.receives;
        goes_on = w.in_step.goes_on;
        replies = rw h (omega (arith, n, w.in_step.replies));
      };
      hangs = w.hangs;
      in_vain = w.in_vain;
    },
  )

  main_loop-ready :
      (ps : List Poll) (sent : List Text) (s : S)
      → LoopEnds ps sent s (main_loop S gateway describe settings ps (ready sent s))
  unfolding main_loop receives_before_shutdown
  main_loop-ready [] sent s =
      inl (ready sent s, refl, record { receives = refl; goes_on = cc; replies = omega arith })
  main_loop-ready (p ∷ ps) sent s = elim (Bool-cases (shuts_down p)) [
    | inl h ↦ inl (
      record { socket_state = waiting_recv; status = stops; sent = sent; world = s },
      rw (main_loop, round-stops p sent s h) refl,
      record { receives = refl; goes_on = cc; replies = rw h (omega arith) },
    )
    | inr h ↦ elim (round-runs p sent s h) [
      | inr (e, w) ↦ inr (
        rw (main_loop, e) refl,
        record {
          before = [];
          poll = p;
          after = ps;
          reached = ready sent s;
          polls = refl;
          reaches = refl;
          in_step = record { receives = refl; goes_on = cc; replies = omega arith };
          hangs = w;
          in_vain = e;
        },
      )
      | inl (sent', s', e, n) ↦
          main_loop-again p ps sent sent' s s' h e n (main_loop-ready ps sent' s')
    ]
  ]

  -- After any polls from the start on, the loop has not called `exit`, its socket waits to receive, and it
  -- has sent exactly one reply for each time before a shutdown that it received from the socket without an
  -- exception, with a message or without one; or it has come, after some of the polls for which the same
  -- holds, to a poll whose call of the gateway's connection function does not return.
  pub main_loop-IsInStep :
      (ps : List Poll) (s : S)
      → LoopEnds ps [] s
          (main_loop S gateway describe settings ps (new_connector S gateway describe settings s))
  main_loop-IsInStep ps s = main_loop-ready ps [] s
