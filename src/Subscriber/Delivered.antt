-- ===== src/Subscriber/Delivered.antt =====
-- The instructions that reach the handler.
use webx_engine.Common.{
  ℕ, ◌^◌, ◌<◌, ◌≡◌, refl, sym, ◌∙◌, ap, Bool, true, false, List, [], ◌∷◌, ◌++◌, if◌then◌else◌,
  arith, length, Bool-cases, inl, inr, All, ok, err, none, some, Option, ◌⊎◌, ◌≢◌,
}
use webx_engine.Buffer.{u32_mod, OverflowException}
use webx_engine.Instruction.{Instruction}
use webx_engine.Decoder.{Decoded, decode}
use webx_engine.Decoder.Wire.{wire, IsPayload, received}
use webx_engine.Decoder.RoundTrip.{decode-wire}
use webx_engine.Gateway.{Gateway, handle_instruction}
use webx_engine.Text.{Text}
use webx_engine.Connector.{
  Received, idle, fails, empty, got, Poll, poll_fails, polled, ThreadStatus, runs, stops, exits,
  is_running,
}
use webx_engine.Connector.InStep.{shuts_down}
use webx_engine.Subscriber.{
  Subscriber, new_subscriber, handle_decoded, receive_frame, subscriber_round, subscriber_loop,
}

abbrev frame_of : ℕ → Received → List (ℕ × Text)
frame_of now_ms idle = []
frame_of now_ms fails = []
frame_of now_ms empty = []
frame_of now_ms (got t) = (now_ms, t) ∷ []

abbrev frames_in : ℕ → Poll → List (ℕ × Text)
frames_in now_ms poll_fails = []
frames_in now_ms (polled idle request) = frame_of now_ms request
frames_in now_ms (polled fails request) = []
frames_in now_ms (polled empty request) = frame_of now_ms request
frames_in now_ms (polled (got t) request) = frame_of now_ms request

-- The frames that come before a shutdown, with their times.
unfoldable pub frames : List (ℕ × Poll) → List (ℕ × Text)
frames [] = []
frames ((now_ms, p) ∷ ps) =
    let rest = frames ps in if shuts_down p then [] else frames_in now_ms p ++ rest

-- An instruction of a client, the mark whether it is synchronous, and the time when it comes.
pub record Arrival : Type 0 where
  pub now_ms : ℕ
  pub synchronous : Bool
  pub instruction : Instruction

-- A frame that comes: an instruction that a client lays out, or bytes of no known type.
pub data Incoming : Type 0 where
  arrives : Arrival → Incoming
  strays : ℕ → Text → Incoming

module _ (session_id : List ℕ) where
  unfoldable pub wires : List Incoming → List (ℕ × Text)
  wires [] = []
  wires (arrives a ∷ xs) = (a.now_ms, wire session_id a.synchronous a.instruction) ∷ wires xs
  wires (strays now_ms t ∷ xs) = (now_ms, t) ∷ wires xs

  -- The fields of an instruction fit their places, and its frame has fewer than 2 ^ 32 bytes; the decoder
  -- gives null for a stray frame.
  abbrev pub IsSound : Incoming → Type 0
  IsSound (arrives a) =
      (a.instruction.client_id < 2 ^ 32)
      × (a.instruction.id < 2 ^ 32)
      × IsPayload a.instruction.payload
      × (length (wire session_id a.synchronous a.instruction) < u32_mod)
  IsSound (strays now_ms t) = decode now_ms t ≡ ok none

-- No more frames, or one for which the decoder throws and then any.
abbrev pub IsTail : List (ℕ × Text) → Type 0
IsTail [] = Unit
IsTail ((now_ms, t) ∷ fs) = (e : OverflowException) × (decode now_ms t ≡ err e)

abbrev has_exited : ThreadStatus → Bool
has_exited runs = false
has_exited stops = false
has_exited exits = true

module _ (S : Type 0) (gateway : Gateway S) where
  -- The handler on each instruction in turn, with its receive times.
  pub deliver : List Incoming → S → S
  deliver [] s = s
  deliver (arrives a ∷ xs) s = deliver xs (
      handle_instruction S gateway
        (record a.instruction { payload = received a.now_ms a.instruction.payload }) s)
  deliver (strays now_ms t ∷ xs) s = deliver xs s

  abbrev exited : S → Subscriber S gateway
  exited s = record { status = exits; world = s }

  -- The frames in turn, up to one for which the decoder throws.
  handle_frames : List (ℕ × Text) → Subscriber S gateway → Subscriber S gateway
  handle_frames [] c = c
  handle_frames ((now_ms, t) ∷ fs) c =
      let rest = handle_frames fs (handle_decoded S gateway (decode now_ms t) c) in
      if is_running c.status then rest else c

  handle_frames-exited : (fs : List (ℕ × Text)) (s : S) → handle_frames fs (exited s) ≡ exited s
  unfolding handle_frames
  handle_frames-exited [] s = refl
  handle_frames-exited ((now_ms, t) ∷ fs) s = refl

  -- What a round does to a running thread is what its frames do.
  DoesFrames : List (ℕ × Text) → S → Subscriber S gateway → Type 0
  DoesFrames fs s c =
      ((s' : S) × (c ≡ new_subscriber S gateway s')
        × ((rest : List (ℕ × Text))
            → handle_frames (fs ++ rest) (new_subscriber S gateway s)
              ≡ handle_frames rest (new_subscriber S gateway s')))
      ⊎ ((c ≡ exited s)
          × ((rest : List (ℕ × Text))
              → handle_frames (fs ++ rest) (new_subscriber S gateway s) ≡ exited s))

  decoded-cases :
      (d : Decoded (Option Instruction)) (s : S)
      → ((s' : S) × (handle_decoded S gateway d (new_subscriber S gateway s)
            ≡ new_subscriber S gateway s'))
        ⊎ (handle_decoded S gateway d (new_subscriber S gateway s) ≡ exited s)
  decoded-cases (err e) s = inr refl
  decoded-cases (ok none) s = inl (s, refl)
  decoded-cases (ok (some i)) s = inl (handle_instruction S gateway i s, refl)

  frame-runs :
      (now_ms : ℕ) (request : Received) (s : S)
      → DoesFrames
          (frame_of now_ms request)
          s
          (receive_frame S gateway now_ms request (new_subscriber S gateway s))
  unfolding handle_frames DoesFrames
  frame-runs now_ms idle s = inl (s, refl, λ rest. refl)
  frame-runs now_ms fails s = inl (s, refl, λ rest. refl)
  frame-runs now_ms empty s = inl (s, refl, λ rest. refl)
  frame-runs now_ms (got t) s = elim (decoded-cases (decode now_ms t) s) [
    | inl (s', e) ↦ inl (s', e, λ rest. ap (handle_frames rest) e)
    | inr e ↦ inr (e, λ rest. ap (handle_frames rest) e ∙ handle_frames-exited rest s)
  ]

  round-runs :
      (now_ms : ℕ) (p : Poll) (s : S)
      → shuts_down p ≡ false
      → DoesFrames
          (frames_in now_ms p)
          s
          (subscriber_round S gateway now_ms p (new_subscriber S gateway s))
  unfolding subscriber_round DoesFrames
  round-runs now_ms poll_fails s h = inl (s, refl, λ rest. refl)
  round-runs now_ms (polled idle request) s h = frame-runs now_ms request s
  round-runs now_ms (polled fails request) s h = inl (s, refl, λ rest. refl)
  round-runs now_ms (polled empty request) s h = frame-runs now_ms request s
  round-runs now_ms (polled (got t) request) s h = rw h (frame-runs now_ms request s)

  round-stops :
      (now_ms : ℕ) (p : Poll) (s : S)
      → shuts_down p ≡ true
      → subscriber_round S gateway now_ms p (new_subscriber S gateway s)
        ≡ record { status = stops; world = s }
  unfolding subscriber_round
  round-stops now_ms poll_fails s h = ground arith
  round-stops now_ms (polled idle request) s h = ground arith
  round-stops now_ms (polled fails request) s h = ground arith
  round-stops now_ms (polled empty request) s h = ground arith
  round-stops now_ms (polled (got t) request) s h = rw h refl

  -- What the handlers have done, and whether the process has ended.
  abbrev view : Subscriber S gateway → S × Bool
  view c = (c.world, has_exited c.status)

  loop-frames :
      (ps : List (ℕ × Poll)) (s : S)
      → view (subscriber_loop S gateway ps (new_subscriber S gateway s))
        ≡ view (handle_frames (frames ps) (new_subscriber S gateway s))
  unfolding subscriber_loop handle_frames frames DoesFrames
  loop-frames [] s = refl
  loop-frames ((now_ms, p) ∷ ps) s = elim (Bool-cases (shuts_down p)) [
    | inl e ↦ rw (e, round-stops now_ms p s e) refl
    | inr e ↦ elim (round-runs now_ms p s e) [
      | inl (s', k, f) ↦ rw (e, k) (loop-frames ps s' ∙ ap view (sym (f (frames ps))))
      | inr (k, f) ↦ rw (e, k) (ap view (sym (f (frames ps))))
    ]
  ]

  handle-wires :
      (session_id : List ℕ) (xs : List Incoming) (tail : List (ℕ × Text)) (s : S)
      → length session_id ≡ 16
      → All (IsSound session_id) xs
      → handle_frames (wires session_id xs ++ tail) (new_subscriber S gateway s)
        ≡ handle_frames tail (new_subscriber S gateway (deliver xs s))
  unfolding handle_frames wires deliver
  handle-wires session_id [] tail s n h = refl
  handle-wires session_id (arrives a ∷ xs) tail s n ((c, d, p, k), h) =
      let i = record a.instruction { payload = received a.now_ms a.instruction.payload } in
      ap
        (λ x.
          handle_frames (wires session_id xs ++ tail)
            (handle_decoded S gateway x (new_subscriber S gateway s)))
        (decode-wire a.now_ms session_id a.synchronous a.instruction n c d p k)
      ∙ handle-wires session_id xs tail (handle_instruction S gateway i s) n h
  handle-wires session_id (strays now_ms t ∷ xs) tail s n (e, h) =
      ap
        (λ x.
          handle_frames (wires session_id xs ++ tail)
            (handle_decoded S gateway x (new_subscriber S gateway s)))
        e
      ∙ handle-wires session_id xs tail s n h

  -- The process has ended if there is a frame for which the decoder throws, and has not if there is none.
  pub IsEnd : List (ℕ × Text) → ThreadStatus → Type 0
  IsEnd [] status = status ≢ exits
  IsEnd (_ ∷ _) status = status ≡ exits

  not_exited : (status : ThreadStatus) → has_exited status ≡ false → status ≢ exits
  not_exited runs h = cc
  not_exited stops h = cc
  not_exited exits h = cc

  is_exited : (status : ThreadStatus) → has_exited status ≡ true → status ≡ exits
  is_exited runs h = cc
  is_exited stops h = cc
  is_exited exits h = refl

  handle-tail :
      (tail : List (ℕ × Text)) (s : S) (c : Subscriber S gateway)
      → IsTail tail
      → view c ≡ view (handle_frames tail (new_subscriber S gateway s))
      → (c.world ≡ s) × IsEnd tail c.status
  unfolding handle_frames IsEnd
  handle-tail [] s c h e = (ap (λ x. x.0) e, not_exited c.status (ap (λ x. x.1) e))
  handle-tail ((now_ms, t) ∷ fs) s c (x, d) e =
      let k : handle_frames fs
            (handle_decoded S gateway (decode now_ms t) (new_subscriber S gateway s))
          ≡ exited s =
        rw d (handle_frames-exited fs s) in
      let v : view c ≡ (s, true) = e ∙ ap view k in
      (ap (λ y. y.0) v, is_exited c.status (ap (λ y. y.1) v))

  -- The frames that come before a shutdown are first ones that are either instructions in the layout that
  -- the decoder reads, with a session id of 16 bytes, fields that fit their places and fewer than 2 ^ 32
  -- bytes each, or frames for which the decoder gives null, and then none, or one for which it throws and
  -- any others. Whatever else the polls give, the loop has then handed exactly the instructions among the
  -- first ones to the gateway, each once and in their order, with their receive times; and the process has
  -- ended exactly if there is a frame for which the decoder throws.
  pub subscriber_loop-delivers :
      (session_id : List ℕ) (ps : List (ℕ × Poll)) (xs : List Incoming) (tail : List (ℕ × Text))
      (s : S)
      → length session_id ≡ 16
      → All (IsSound session_id) xs
      → IsTail tail
      → frames ps ≡ wires session_id xs ++ tail
      → let c = subscriber_loop S gateway ps (new_subscriber S gateway s) in
        (c.world ≡ deliver xs s) × IsEnd tail c.status
  subscriber_loop-delivers session_id ps xs tail s n h t e =
      handle-tail tail (deliver xs s) (subscriber_loop S gateway ps (new_subscriber S gateway s)) t
        (loop-frames ps s
          ∙ ap view (
              ap (λ fs. handle_frames fs (new_subscriber S gateway s)) e
              ∙ handle-wires session_id xs tail s n h))
