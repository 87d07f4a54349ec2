-- ===== src/Publisher/InFlight.antt =====
-- What the loop has sent, has in flight and has left in the queue, through its phases.
use webx_engine.Common.{
  ℕ, suc, ◌+◌, ◌≤◌, ◌≡◌, refl, sym, ◌∙◌, ap, Bool, true, false, not, List, [], ◌∷◌, ◌++◌, ◌⊎◌, inl,
  inr, ok, err, append_assoc, length, length-append, arith,
}
use webx_engine.Common.Int.{pos}
use webx_engine.Buffer.{Buffer, OverflowException}
use webx_engine.Message.{Message}
use webx_engine.Encoder.{Env, encode}
use webx_engine.Queue.{Item, insert_item}
use webx_engine.Publisher.{Phase, tests, gets, ended, crashed, holds, sends, Publisher}

-- Items of the priority that a message is given by default.
abbrev pub items_of : List Message → List (Item Message)
items_of [] = []
items_of (m ∷ ms) = (record { content = m; priority = pos 0 }) ∷ items_of ms

pub insert-last :
    (m : Message) (ms : List Message)
    → insert_item (record { content = m; priority = pos 0 }) (items_of ms) ≡ items_of (ms ++ m ∷ [])
unfolding insert_item
insert-last m [] = refl
insert-last m (n ∷ ms) =
    ap (λ is. (record { content = n; priority = pos 0 }) ∷ is) (insert-last m ms)

pub messages_in : List (Item Message) → List Message
messages_in [] = []
messages_in (i ∷ is) = i.content ∷ messages_in is

pub messages_in-items_of : (ms : List Message) → messages_in (items_of ms) ≡ ms
unfolding messages_in
messages_in-items_of [] = refl
messages_in-items_of (m ∷ ms) = ap (λ xs. m ∷ xs) (messages_in-items_of ms)

module _ (env : ℕ → Env) where
  -- The frames are those of the messages, each once and in their order, from the encoder's count `k` on.
  unfoldable pub AreSent : ℕ → List Message → List (List ℕ) → Type 0
  AreSent k [] [] = Unit
  AreSent k [] (f ∷ fs) = ⊥
  AreSent k (m ∷ ms) [] = ⊥
  AreSent k (m ∷ ms) (f ∷ fs) =
      ((b : Buffer) × (encode (env k) m ≡ ok b) × (f ≡ b.content)) × AreSent (suc k) ms fs

  -- What the loop has taken from the queue and not sent: nothing, the message that it has in hand, one that
  -- it has dropped because the publisher was stopped, or one for which the encoder has thrown.
  unfoldable pub InFlight : Phase → Bool → List Message → Type 0
  InFlight tests running ms = (ms ≡ []) ⊎ ((running ≡ false) × (length ms ≡ 1))
  InFlight gets running ms = ms ≡ []
  InFlight (holds m) running ms = ms ≡ m ∷ []
  InFlight (sends m) running ms = ms ≡ m ∷ []
  InFlight ended running ms = (running ≡ false) × (length ms ≤ 1)
  InFlight crashed running ms =
      (m : Message) × (k : ℕ) × (e : OverflowException) × (ms ≡ m ∷ []) × (encode (env k) m ≡ err e)

  -- A publisher with messages in its queue.
  abbrev pub state : Phase → Bool → Bool → List Message → ℕ → List (List ℕ) → Publisher env
  state phase running is_open waiting k sent = record {
    phase = phase;
    running = running;
    message_queue = record { items = items_of waiting; unavailable = not is_open };
    encoded = k;
    sent = sent;
  }

  -- Of the messages accepted, the first are sent, then comes what is in flight, and the rest is waiting.
  pub record IsFifo (accepted : List Message) (phase : Phase) (running : Bool)
      (waiting : List Message) (k : ℕ) (sent : List (List ℕ)) : Type 0 where
    pub done : List Message
    pub flight : List Message
    pub order : accepted ≡ done ++ (flight ++ waiting)
    pub counted : k ≡ length done
    pub frames : AreSent 0 done sent
    pub in_flight : InFlight phase running flight

  AreSent-append :
      (k : ℕ) (ms : List Message) (fs : List (List ℕ)) (m : Message) (b : Buffer)
      → AreSent k ms fs
      → encode (env (length ms + k)) m ≡ ok b
      → AreSent k (ms ++ m ∷ []) (fs ++ b.content ∷ [])
  unfolding AreSent
  AreSent-append k [] [] m b h e =
      let c : k ≡ length {A = Message} [] + k = omega arith in
      ((b, ap (λ j. encode (env j) m) c ∙ e, refl), tt)
  AreSent-append k [] (f ∷ fs) m b h e = absurd h
  AreSent-append k (n ∷ ms) [] m b h e = absurd h
  AreSent-append k (n ∷ ms) (f ∷ fs) m b (x, h) e =
      let c : length ms + suc k ≡ length (n ∷ ms) + k = omega arith in
      (x, AreSent-append (suc k) ms fs m b h (ap (λ j. encode (env j) m) c ∙ e))

  pub IsFifo-gets :
      (acc w : List Message) (k : ℕ) (sent : List (List ℕ))
      → IsFifo acc tests true w k sent
      → IsFifo acc gets true w k sent
  unfolding InFlight
  IsFifo-gets acc w k sent h = record {
    done = h.done;
    flight = h.flight;
    order = h.order;
    counted = h.counted;
    frames = h.frames;
    in_flight = elim h.in_flight [ inl e ↦ e | inr (e, n) ↦ absurd cc ];
  }

  pub IsFifo-ended :
      (acc w : List Message) (k : ℕ) (sent : List (List ℕ))
      → IsFifo acc tests false w k sent
      → IsFifo acc ended false w k sent
  unfolding InFlight
  IsFifo-ended acc w k sent h = record {
    done = h.done;
    flight = h.flight;
    order = h.order;
    counted = h.counted;
    frames = h.frames;
    in_flight = elim h.in_flight [
      | inl e ↦ (refl, rw e (omega arith))
      | inr (e, n) ↦ (refl, omega (arith, n))
    ];
  }

  pub IsFifo-stopped :
      (acc w : List Message) (running : Bool) (k : ℕ) (sent : List (List ℕ))
      → IsFifo acc gets running w k sent
      → IsFifo acc tests running w k sent
  unfolding InFlight
  IsFifo-stopped acc w running k sent h = record {
    done = h.done;
    flight = h.flight;
    order = h.order;
    counted = h.counted;
    frames = h.frames;
    in_flight = inl h.in_flight;
  }

  pub IsFifo-holds :
      (acc w : List Message) (m : Message) (running : Bool) (k : ℕ) (sent : List (List ℕ))
      → IsFifo acc gets running (m ∷ w) k sent
      → IsFifo acc (holds m) running w k sent
  unfolding InFlight
  IsFifo-holds acc w m running k sent h = record {
    done = h.done;
    flight = m ∷ [];
    order = h.order ∙ ap (λ xs. h.done ++ (xs ++ m ∷ w)) h.in_flight;
    counted = h.counted;
    frames = h.frames;
    in_flight = refl;
  }

  pub IsFifo-sends :
      (acc w : List Message) (m : Message) (k : ℕ) (sent : List (List ℕ))
      → IsFifo acc (holds m) true w k sent
      → IsFifo acc (sends m) true w k sent
  unfolding InFlight
  IsFifo-sends acc w m k sent h = record {
    done = h.done;
    flight = h.flight;
    order = h.order;
    counted = h.counted;
    frames = h.frames;
    in_flight = h.in_flight;
  }

  pub IsFifo-drops :
      (acc w : List Message) (m : Message) (k : ℕ) (sent : List (List ℕ))
      → IsFifo acc (holds m) false w k sent
      → IsFifo acc tests false w k sent
  unfolding InFlight
  IsFifo-drops acc w m k sent h = record {
    done = h.done;
    flight = h.flight;
    order = h.order;
    counted = h.counted;
    frames = h.frames;
    in_flight = inr (refl, ap length h.in_flight);
  }

  pub IsFifo-sent :
      (acc w : List Message) (m : Message) (running : Bool) (k : ℕ) (sent : List (List ℕ))
      (b : Buffer)
      → IsFifo acc (sends m) running w k sent
      → encode (env k) m ≡ ok b
      → IsFifo acc tests running w (suc k) (sent ++ b.content ∷ [])
  unfolding InFlight
  IsFifo-sent acc w m running k sent b h e =
      let c : length h.done + 0 ≡ k = omega (arith, h.counted) in
      record {
        done = h.done ++ m ∷ [];
        flight = [];
        order =
            h.order
            ∙ (ap (λ xs. h.done ++ (xs ++ w)) h.in_flight ∙ sym (append_assoc h.done (m ∷ []) w));
        counted = omega (arith, h.counted, length-append h.done (m ∷ []));
        frames = AreSent-append 0 h.done sent m b h.frames (ap (λ j. encode (env j) m) c ∙ e);
        in_flight = inl refl;
      }

  pub IsFifo-crashed :
      (acc w : List Message) (m : Message) (running : Bool) (k : ℕ) (sent : List (List ℕ))
      (x : OverflowException)
      → IsFifo acc (sends m) running w k sent
      → encode (env k) m ≡ err x
      → IsFifo acc crashed running w k sent
  unfolding InFlight
  IsFifo-crashed acc w m running k sent x h e = record {
    done = h.done;
    flight = h.flight;
    order = h.order;
    counted = h.counted;
    frames = h.frames;
    in_flight = (m, k, x, h.in_flight, e);
  }

  -- `_running` is only ever set to false, and what is in flight stays so.
  InFlight-stop :
      (phase : Phase) (running : Bool) (ms : List Message)
      → InFlight phase running ms
      → InFlight phase false ms
  unfolding InFlight
  InFlight-stop tests running ms (inl e) = inl e
  InFlight-stop tests running ms (inr (e, n)) = inr (refl, n)
  InFlight-stop gets running ms h = h
  InFlight-stop (holds m) running ms h = h
  InFlight-stop (sends m) running ms h = h
  InFlight-stop ended running ms (e, n) = (refl, n)
  InFlight-stop crashed running ms h = h

  pub IsFifo-stop :
      (acc w : List Message) (phase : Phase) (running : Bool) (k : ℕ) (sent : List (List ℕ))
      → IsFifo acc phase running w k sent
      → IsFifo acc phase false w k sent
  IsFifo-stop acc w phase running k sent h = record {
    done = h.done;
    flight = h.flight;
    order = h.order;
    counted = h.counted;
    frames = h.frames;
    in_flight = InFlight-stop phase running h.flight h.in_flight;
  }

  pub IsFifo-put :
      (acc w : List Message) (m : Message) (phase : Phase) (running : Bool) (k : ℕ)
      (sent : List (List ℕ))
      → IsFifo acc phase running w k sent
      → IsFifo (acc ++ m ∷ []) phase running (w ++ m ∷ []) k sent
  IsFifo-put acc w m phase running k sent h = record {
    done = h.done;
    flight = h.flight;
    order =
        ap (λ xs. xs ++ m ∷ []) h.order
        ∙ (append_assoc h.done (h.flight ++ w) (m ∷ [])
            ∙ ap (λ xs. h.done ++ xs) (append_assoc h.flight w (m ∷ [])));
    counted = h.counted;
    frames = h.frames;
    in_flight = h.in_flight;
  }
