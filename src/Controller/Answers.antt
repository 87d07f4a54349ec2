-- ===== src/Controller/Answers.antt =====
-- What `handleClientInstructions` does to instructions of known and of unknown clients.
use webx_engine.Common.{
  ℕ, ◌≡◌, refl, ◌∙◌, ap, subst, Bool, true, false, List, [], ◌∷◌, ◌++◌, Option, none, some,
  Bool-cases, Option-cases, inl, inr, if◌then◌else◌,
}
use webx_engine.Common.Floats.{Floats}
use webx_engine.Common.Int.{pos}
use webx_engine.Message.{
  Payload, ScreenMessage, WindowsMessage, ImageMessage, ShapeMessage, CursorImageMessage, screen,
  windows, image, shape, cursor_image,
}
use webx_engine.Instruction.{Instruction, MouseInstruction}
use webx_engine.Instruction
use webx_engine.Quality.{Quality, max_quality, same_quality, quality_for_index}
use webx_engine.Bitrate.{has_value}
use webx_engine.Client.{Client, set_max_quality, on_pong_received, on_data_ack_received}
use webx_engine.Roster.{Member, find}
use webx_engine.Group.{group_with, remove_from_groups, joined_average}
use webx_engine.Registry.{
  Registry, member, members, client_by_id, update_client, set_client_quality,
  set_client_max_quality, not_in_quality, on_pong, on_data_ack,
}
use webx_engine.Registry.Clients.{members-update, members-reset_joined, find-members}
use webx_engine.Registry.Branches.{
  join_lem, move_in, move_here, move_there, set_client_quality_lem, set_max_unknown, set_max_known,
}
use webx_engine.Controller.{Display, ControllerSettings, Controller, send_message}
use webx_engine.Controller.Instructions.{
  on_client_mouse_instruction, same_position, answer_to, answer, send_answer, act, with_layout,
  for_client, handle_instruction, handle_instructions,
}

-- The instruction is of a client.
abbrev pub is_known : List Member → Instruction → Bool
is_known ms i = has_value (find i.client_id ms)

pub only_known : List Member → List Instruction → List Instruction
only_known ms [] = []
only_known ms (i ∷ is) = if is_known ms i then i ∷ only_known ms is else only_known ms is

module _ (fl : Floats) (dp : Display fl) (settings : ControllerSettings) where
  -- An instruction that asks for data does nothing else.
  act-answer :
      (now : ℕ) (p : Instruction.Payload) (c : Client fl) (i : Instruction) (s : Controller fl dp)
      (d : dp.State) (payload : Payload)
      → answer fl dp settings p d ≡ some payload
      → act fl dp settings now p c i s ≡ s
  act-answer now (Instruction.mouse m) c i s d payload a = cc
  act-answer now (Instruction.keyboard k) c i s d payload a = cc
  act-answer now (Instruction.quality q) c i s d payload a = cc
  act-answer now (Instruction.pong p) c i s d payload a = cc
  act-answer now (Instruction.data_ack k) c i s d payload a = cc
  act-answer now (Instruction.clipboard t) c i s d payload a = cc
  act-answer now (Instruction.screen_resize z) c i s d payload a = cc
  act-answer now (Instruction.keyboard_layout k) c i s d payload a = cc
  act-answer now (Instruction.image k) c i s d payload a = refl
  act-answer now (Instruction.shape k) c i s d payload a = refl
  act-answer now (Instruction.cursor k) c i s d payload a = refl
  act-answer now Instruction.screen c i s d payload a = refl
  act-answer now Instruction.windows c i s d payload a = refl

  -- The instructions that ask for data: the screen, the windows, an image, a shape or a cursor.
  unfoldable pub asks_for_data : Instruction.Payload → Bool
  asks_for_data Instruction.screen = true
  asks_for_data Instruction.windows = true
  asks_for_data (Instruction.image _) = true
  asks_for_data (Instruction.shape _) = true
  asks_for_data (Instruction.cursor _) = true
  asks_for_data _ = false

  -- What a client that asks for data is told: what the display has, for an image at the greatest quality
  -- of the settings and of the whole window.
  pub IsTold : Instruction.Payload → dp.State → Payload → Type 0
  IsTold Instruction.screen d p =
      (z : ScreenMessage) × (p ≡ screen z)
      × (z.screen_size ≡ dp.screen_size d)
      × (z.max_quality_index
          ≡ pos (max_quality settings.registry.quality.max_runtime_quality_index).index)
      × (z.engine_version ≡ settings.engine_version)
      × (z.can_resize_screen ≡ dp.can_resize_screen d)
      × (z.keyboard_layout_name ≡ dp.keyboard_layout_name d)
  IsTold Instruction.windows d p =
      (z : WindowsMessage) × (p ≡ windows z) × (z.windows ≡ dp.visible_windows_properties d)
  IsTold (Instruction.image i) d p =
      (z : ImageMessage) × (p ≡ image z)
      × (z.window_id ≡ i.window_id)
      × (z.image
          ≡ dp.image_of i.window_id
              (max_quality settings.registry.quality.max_runtime_quality_index) none d)
  IsTold (Instruction.shape i) d p =
      (z : ShapeMessage) × (p ≡ shape z)
      × (z.window_id ≡ i.window_id)
      × (z.shape ≡ dp.window_shape_mask i.window_id d)
  IsTold (Instruction.cursor i) d p =
      (z : CursorImageMessage) × (p ≡ cursor_image z)
      × (z.x ≡ dp.mouse_x d)
      × (z.y ≡ dp.mouse_y d)
      × (z.xhot ≡ (dp.cursor_of i.cursor_id d).x_hot)
      × (z.yhot ≡ (dp.cursor_of i.cursor_id d).y_hot)
      × (z.cursor_id ≡ (dp.cursor_of i.cursor_id d).id)
      × (z.mouse_cursor_image ≡ (dp.cursor_of i.cursor_id d).image)
  IsTold _ d p = ⊥

  answer-IsTold :
      (p : Instruction.Payload) (d : dp.State)
      → asks_for_data p ≡ true
      → (payload : Payload) × (answer fl dp settings p d ≡ some payload) × IsTold p d payload
  unfolding asks_for_data IsTold
  answer-IsTold Instruction.screen d h = (_, refl, (_, refl, refl, refl, refl, refl, refl))
  answer-IsTold Instruction.windows d h = (_, refl, (_, refl, refl))
  answer-IsTold (Instruction.image i) d h = (_, refl, (_, refl, refl, refl))
  answer-IsTold (Instruction.shape i) d h = (_, refl, (_, refl, refl, refl))
  answer-IsTold (Instruction.cursor i) d h =
      (_, refl, (_, refl, refl, refl, refl, refl, refl, refl))
  answer-IsTold (Instruction.mouse _) d h = cc
  answer-IsTold (Instruction.keyboard _) d h = cc
  answer-IsTold (Instruction.quality _) d h = cc
  answer-IsTold (Instruction.pong _) d h = cc
  answer-IsTold (Instruction.data_ack _) d h = cc
  answer-IsTold (Instruction.clipboard _) d h = cc
  answer-IsTold (Instruction.screen_resize _) d h = cc
  answer-IsTold (Instruction.keyboard_layout _) d h = cc

  -- `handleClientInstructions`, at an instruction of a client of the registry that asks for data, the
  -- screen, the windows, an image, a shape or a cursor: one message is sent, to the index of that client
  -- alone, with the instruction's identifier as its command and what the display has of the data asked for
  -- as its content, and nothing else changes.
  pub handle_instruction-answer :
      (now : ℕ) (i : Instruction) (s : Controller fl dp) (c : Client fl)
      → client_by_id fl i.client_id s.registry.clients ≡ some c
      → asks_for_data i.payload ≡ true
      → (payload : Payload) × IsTold i.payload s.display payload
        × (handle_instruction fl dp settings now i s ≡ record s {
          registry = record s.registry {
            sent =
                s.registry.sent
                ++ (record { client_index_mask = c.index; command_id = i.id; payload = payload })
                  ∷ [];
          };
        })
  unfolding handle_instruction send_message
  handle_instruction-answer now i s c e h =
      let (payload, a, told) = answer-IsTold i.payload s.display h in
      let sent = send_message fl dp (answer_to fl dp settings c i payload) s in
      (payload, told, rw (e, a) (act-answer now i.payload c i sent s.display payload a))

  -- A change of quality keeps the identifiers and indices of the clients.
  members-set_quality :
      (m : Member) (q : Quality) (r : Registry fl)
      → members fl (set_client_quality fl m q r).clients ≡ members fl r.clients
  members-set_quality m q r = elim (Option-cases (group_with fl m.id r.groups)) [
    | inl e ↦
        rw (set_client_quality_lem fl m q r, move_in fl m q r e, join_lem fl q m r)
          (members-reset_joined fl m.id (joined_average fl q m.id r.groups) r.clients)
    | inr (g, e) ↦ elim (Bool-cases (same_quality g.quality q)) [
      | inl z ↦ rw (set_client_quality_lem fl m q r, move_here fl m q r g e z) refl
      | inr z ↦
          let r' = record r { groups = remove_from_groups fl m.id r.groups } in
          rw (set_client_quality_lem fl m q r, move_there fl m q r g e z, join_lem fl q m r')
            (members-reset_joined fl m.id (joined_average fl q m.id r'.groups) r.clients)
    ]
  ]

  members-set_max :
      (i : ℕ) (q : Quality) (r : Registry fl)
      → members fl (set_client_max_quality fl i q r).clients ≡ members fl r.clients
  members-set_max i q r = elim (Option-cases (client_by_id fl i r.clients)) [
    | inl e ↦ rw (set_max_unknown fl i q r e) refl
    | inr (c, e) ↦
        let k : members fl (update_client fl i (set_max_quality fl q) r.clients)
            ≡ members fl r.clients =
          members-update fl i (set_max_quality fl q) r.clients
            (λ d. unfold set_max_quality in refl) in
        let r' = record r { clients = update_client fl i (set_max_quality fl q) r.clients } in
        rw (set_max_known fl i q r c e)
          (elim (Bool-cases (not_in_quality fl q (group_with fl i r.groups))) [
            | inl z ↦ rw z (members-set_quality (member fl c) q r' ∙ k)
            | inr z ↦ rw z k
          ])
  ]

  members-mouse :
      (m : MouseInstruction) (c : Client fl) (s : Controller fl dp)
      → (on_client_mouse_instruction fl dp settings m c s).registry.clients ≡ s.registry.clients
  unfolding on_client_mouse_instruction send_message
  members-mouse m c s = elim (Bool-cases (same_position fl dp settings m s.display)) [
    | inl e ↦ rw e refl
    | inr e ↦ rw e refl
  ]

  members-layout :
      (layout : List ℕ) (r : Bool × dp.State) (s : Controller fl dp)
      → (with_layout fl dp settings layout r s).registry.clients ≡ s.registry.clients
  unfolding send_message
  members-layout layout (true, d) s = refl
  members-layout layout (false, d) s = refl

  abbrev members_of : Controller fl dp → List Member
  members_of s = members fl s.registry.clients

  members-act :
      (now : ℕ) (p : Instruction.Payload) (c : Client fl) (i : Instruction) (s : Controller fl dp)
      → members_of (act fl dp settings now p c i s) ≡ members_of s
  unfolding on_pong on_data_ack on_pong_received on_data_ack_received
  members-act now (Instruction.mouse m) c i s = ap (members fl) (members-mouse m c s)
  members-act now (Instruction.quality q) c i s =
      members-set_max i.client_id
        (quality_for_index settings.registry.quality.max_runtime_quality_index q.quality_index)
        s.registry
  members-act now (Instruction.pong p) c i s =
      members-update fl i.client_id
        (on_pong_received fl now p.send_timestamp_ms p.recv_timestamp_ms) s.registry.clients
        (λ d. refl)
  members-act now (Instruction.data_ack a) c i s =
      members-update fl i.client_id
        (on_data_ack_received fl now a.send_timestamp_ms a.recv_timestamp_ms a.data_length)
        s.registry.clients (λ d. refl)
  members-act now (Instruction.keyboard_layout k) c i s =
      ap (members fl)
        (members-layout k.keyboard_layout (dp.load_keyboard_layout k.keyboard_layout s.display) s)
  members-act now (Instruction.keyboard _) c i s = refl
  members-act now (Instruction.clipboard _) c i s = refl
  members-act now (Instruction.screen_resize _) c i s = refl
  members-act now (Instruction.image _) c i s = refl
  members-act now (Instruction.shape _) c i s = refl
  members-act now (Instruction.cursor _) c i s = refl
  members-act now Instruction.screen c i s = refl
  members-act now Instruction.windows c i s = refl

  members-answer :
      (o : Option Payload) (c : Client fl) (i : Instruction) (s : Controller fl dp)
      → members_of (send_answer fl dp settings o c i s) ≡ members_of s
  unfolding send_message
  members-answer none c i s = refl
  members-answer (some p) c i s = refl

  members-for_client :
      (now : ℕ) (o : Option (Client fl)) (i : Instruction) (s : Controller fl dp)
      → members_of (for_client fl dp settings now o i s) ≡ members_of s
  members-for_client now none i s = refl
  members-for_client now (some c) i s =
      let o = answer fl dp settings i.payload s.display in
      members-act now i.payload c i (send_answer fl dp settings o c i s) ∙ members-answer o c i s

  unknown-ignored :
      (now : ℕ) (i : Instruction) (s : Controller fl dp)
      → is_known (members_of s) i ≡ false
      → handle_instruction fl dp settings now i s ≡ s
  unfolding handle_instruction
  unknown-ignored now i s k = elim (Option-cases (client_by_id fl i.client_id s.registry.clients)) [
    | inl e ↦ rw e refl
    | inr (c, e) ↦ cc (rw (find-members fl i.client_id s.registry.clients c e) at k)
  ]

  members-instructions :
      (now : ℕ) (is : List Instruction) (s : Controller fl dp)
      → members_of (handle_instructions fl dp settings now is s) ≡ members_of s
  unfolding handle_instructions handle_instruction
  members-instructions now [] s = refl
  members-instructions now (i ∷ is) s =
      let o = client_by_id fl i.client_id s.registry.clients in
      members-instructions now is (for_client fl dp settings now o i s)
      ∙ members-for_client now o i s

  instructions-known :
      (now : ℕ) (is : List Instruction) (s : Controller fl dp)
      → handle_instructions fl dp settings now is s
        ≡ handle_instructions fl dp settings now (only_known (members_of s) is) s
  unfolding handle_instructions only_known handle_instruction
  instructions-known now [] s = refl
  instructions-known now (i ∷ is) s =
      let s' = handle_instruction fl dp settings now i s in
      let k = members-for_client now (client_by_id fl i.client_id s.registry.clients) i s in
      let rest = instructions-known now is s' in
      elim (Bool-cases (is_known (members_of s) i)) [
        | inl e ↦ rw e (
            subst
              (λ ms.
                handle_instructions fl dp settings now is s'
                ≡ handle_instructions fl dp settings now (only_known ms is) s')
              k rest)
        | inr e ↦ rw e (
            ap (handle_instructions fl dp settings now is) (unknown-ignored now i s e)
            ∙ instructions-known now is s)
      ]

  -- What `handleClientInstructions` does with any instructions is what it does with those of them alone
  -- that name a client of the registry, and the registry has the same clients after, with their
  -- identifiers and indices and in their order.
  pub handle_instructions-known :
      (now : ℕ) (is : List Instruction) (s : Controller fl dp)
      → (handle_instructions fl dp settings now is s
          ≡ handle_instructions fl dp settings now
              (only_known (members fl s.registry.clients) is)
              s)
        × (members fl (handle_instructions fl dp settings now is s).registry.clients
            ≡ members fl s.registry.clients)
  handle_instructions-known now is s = (instructions-known now is s, members-instructions now is s)
