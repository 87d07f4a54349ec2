-- ===== src/Connector/Registered.antt =====
-- The connector over the client registry, with the functions that src/controller/WebXController.cpp sets
-- in the gateway.
use native.Mathlib.Nat.{pow-le-pow_right}
use webx_engine.Common.{
  All, ℕ, ◌+◌, ◌^◌, ◌<◌, ◌≤◌, ◌≡◌, refl, subst, All, ◌∙◌, ◌≢◌, Bool, false, List, [], ◌∷◌, ◌++◌,
  Option, none, some, Result, ok, err, arith, if◌then◌else◌, inl, inr, ◌==◌,
}
use webx_engine.Common.Bits.{bit_not}
use webx_engine.Common.Floats.{Floats}
use webx_engine.Message.{Version, Message}
use webx_engine.Instruction.{Instruction}
use webx_engine.Roster.{Member, find, find-snoc, count_if, count_if-append, count_if_one}
use webx_engine.Client.{Client}
use webx_engine.Registry.{
  Registry, Settings, RegistryError, no_client_indices, client_id_unknown, add_client,
  remove_client, client_by_id, draw_id, member, members,
}
use webx_engine.Registry.Branches.{add_client_drawn}
use webx_engine.Registry.Clients.{find-members, find-members-none, draw_id-lt}
use webx_engine.Registry.Index.{IsLowestFree}
use webx_engine.Registry.Invariant.{IsRegistry}
use webx_engine.Registry.Calls.{
  add_client-IsAdded, remove_client-IsRemoved, IsRemoved, draw_id-ends,
}
use webx_engine.Gateway.{Gateway, on_client_connect, on_client_disconnect}
use webx_engine.Text.{Text, codes, split}
use webx_engine.Text.Hex.{to_uint32}
use webx_engine.Text.Split.{Lacks}
use webx_engine.Text.Numbers.{print_hex}
use webx_engine.Version.RoundTrip.{IsVersion}
use webx_engine.Connector.{ConnectorSettings, answer_command}
use webx_engine.Connector.Handshake.{connect_request, disconnect_request, handshake, IsHandshake}

abbrev pub error_text : RegistryError → Text
error_text no_client_indices = codes "no client indices available"
error_text client_id_unknown = codes "client id is unknown"

abbrev pub with_text {ℓ} : {A : Type ℓ} → Result RegistryError A → Result Text A
with_text (ok a) = ok a
with_text (err e) = err (error_text e)

module _ (fl : Floats) (registry_settings : Settings) (now : ℕ)
    (publisher : Option (Message → Registry fl → Registry fl))
    (handler : Option (Instruction → Registry fl → Registry fl)) where
  abbrev connected :
      Option (Result RegistryError (ℕ × ℕ) × Registry fl)
      → Option (Result Text (ℕ × ℕ) × Registry fl)
  connected none = none
  connected (some (x, r)) = some (with_text x, r)

  -- The gateway with the calls of the registry.
  abbrev pub registry_gateway : Gateway (Registry fl)
  registry_gateway = record {
    message_publisher_func = publisher;
    instruction_handler_func = handler;
    client_connect_func = some (λ v r. connected (add_client fl registry_settings now v r));
    client_disconnect_func = some (λ i r. let x = remove_client fl i r in (with_text x.0, x.1));
  }

  -- What becomes of the clients of a registry.
  pub record IsSession (describe : Text → Option Text) (settings : ConnectorSettings) (v : Version)
      (r : Registry fl) : Type 0 where
    pub client_id : ℕ
    pub index : ℕ
    pub joined : Registry fl
    pub left : Registry fl
    pub reply : Text
    pub connects :
        answer_command
          (Registry fl)
          registry_gateway
          describe
          settings
          (connect_request settings.session_id v)
          r
        ≡ some (some reply, joined)
    pub parts : split reply b',' ≡ print_hex 8 client_id ∷ print_hex 16 index ∷ []
    pub identifier : to_uint32 describe (print_hex 8 client_id) ≡ some (ok client_id)
    pub new : client_by_id fl client_id r.clients ≡ none
    pub registered :
        members fl joined.clients
        ≡ members fl r.clients ++ (record { id = client_id; index = index }) ∷ []
    pub disconnects :
        answer_command
          (Registry fl)
          registry_gateway
          describe
          settings
          (disconnect_request settings.session_id (print_hex 8 client_id))
          joined
        ≡ some (some (codes "success"), left)
    pub same :
        (P : Member → Bool)
        → count_if P (members fl left.clients) ≡ count_if P (members fl r.clients)
    pub still : IsRegistry fl left

  index-lt : (mask index : ℕ) → IsLowestFree mask index → index < 2 ^ 64
  index-lt mask index l =
      let le : 2 ^ l.position ≤ 2 ^ 63 =
        pow-le-pow_right (omega arith) {j = 63} (omega (arith, l.in_word)) in
      omega (arith, le, l.is_bit)

  drawn-lt :
      (v : Version) (r : Registry fl) (before after : List ℕ) (d i index : ℕ) (joined : Registry fl)
      → bit_not r.client_index_mask ≢ 0
      → r.draws ≡ before ++ d ∷ after
      → client_by_id fl d r.clients ≡ none
      → All (λ n. n < 2 ^ 32) r.draws
      → add_client fl registry_settings now v r ≡ some (ok (i, index), joined)
      → i < 2 ^ 32
  drawn-lt v r before after d i index joined n e fresh below added =
      let some_free : (bit_not r.client_index_mask == 0) ≡ false = ground (arith, n) in
      let (i', ds, p) = draw_id-ends fl before after d r.clients fresh in
      let p' : draw_id fl r.draws r.clients ≡ some (i', ds) = rw e p in
      let same : i' ≡ i =
        cc (add_client_drawn fl registry_settings now v r i' ds some_free p', added) in
      subst (λ x. x < 2 ^ 32) same (draw_id-lt fl (2 ^ 32) r.draws r.clients i' ds below p')

  -- The client that joined is the one that leaves, so that the others stay.
  same_counts :
      (i index : ℕ) (r joined left : Registry fl) (c : Client fl)
      → client_by_id fl i r.clients ≡ none
      → members fl joined.clients ≡ members fl r.clients ++ (record { id = i; index = index }) ∷ []
      → client_by_id fl i joined.clients ≡ some c
      → IsRemoved fl i (member fl c) joined left
      → (P : Member → Bool)
      → count_if P (members fl left.clients) ≡ count_if P (members fl r.clients)
  same_counts i index r joined left c fresh e k removed P =
      let m : Member = record { id = i; index = index } in
      let found : find i (members fl joined.clients) ≡ some (member fl c) =
        find-members fl i joined.clients c k in
      let found' : find i (members fl joined.clients) ≡ some m =
        rw (e, find-snoc i (members fl r.clients) m (find-members-none fl i r.clients fresh))
          (ground arith) in
      let same : member fl c ≡ m = cc (found, found') in
      let all : count_if P (members fl joined.clients)
          ≡ count_if P (members fl r.clients) + (if P m then 1 else 0) =
        rw (e, count_if-append P (members fl r.clients) (m ∷ []), count_if_one P m) refl in
      let others : count_if P (members fl left.clients) + (if P m then 1 else 0)
          ≡ count_if P (members fl joined.clients) =
        subst
          (λ n.
            count_if P (members fl left.clients) + (if P n then 1 else 0)
            ≡ count_if P (members fl joined.clients))
          same (removed.others P) in
      omega (arith, all, others)

  left_by :
      (describe : Text → Option Text) (settings : ConnectorSettings) (v : Version)
      (r joined : Registry fl) (i index : ℕ) (c : Client fl)
      → IsHandshake (Registry fl) registry_gateway describe settings v r i index joined
      → client_by_id fl i r.clients ≡ none
      → members fl joined.clients ≡ members fl r.clients ++ (record { id = i; index = index }) ∷ []
      → client_by_id fl i joined.clients ≡ some c
      → (remove_client fl i joined).0 ≡ ok tt
      → IsRemoved fl i (member fl c) joined (remove_client fl i joined).1
      → IsSession describe settings v r
  unfolding on_client_disconnect
  left_by describe settings v r joined i index c shake fresh e k leaves removed =
      let left = (remove_client fl i joined).1 in
      record {
        client_id = i;
        index = index;
        joined = joined;
        left = left;
        reply = shake.reply;
        connects = shake.connects;
        parts = shake.parts;
        identifier = shake.identifier;
        new = fresh;
        registered = e;
        disconnects = shake.disconnects ∙ (rw leaves refl);
        same = same_counts i index r joined left c fresh e k removed;
        still = removed.still;
      }

  not_known :
      (i index : ℕ) (r joined : Registry fl)
      → client_by_id fl i r.clients ≡ none
      → members fl joined.clients ≡ members fl r.clients ++ (record { id = i; index = index }) ∷ []
      → client_by_id fl i joined.clients ≢ none
  not_known i index r joined fresh e k =
      let m : Member = record { id = i; index = index } in
      let found : find i (members fl joined.clients) ≡ some m =
        rw (e, find-snoc i (members fl r.clients) m (find-members-none fl i r.clients fresh))
          (ground arith) in
      cc (found, find-members-none fl i joined.clients k)

  -- A registry that keeps the invariant, has a free index and draws numbers of 32 bits of which one is
  -- no client's identifier; a session identifier without a comma and a version with components below
  -- 2 ^ 31. A client that sends "connect" is added after the others with an identifier that no client has,
  -- and the reply is that identifier and its index in hexadecimal digits with a comma between them; when
  -- it then sends "disconnect" with the identifier as it is in the reply, the answer is "success", and the
  -- registry has the clients that it had, counted by any test, and keeps the invariant.
  pub registry_gateway-IsSession :
      (describe : Text → Option Text) (settings : ConnectorSettings) (v : Version) (r : Registry fl)
      (before after : List ℕ) (d : ℕ)
      → Lacks b',' settings.session_id
      → IsVersion v
      → IsRegistry fl r
      → bit_not r.client_index_mask ≢ 0
      → r.draws ≡ before ++ d ∷ after
      → client_by_id fl d r.clients ≡ none
      → All (λ n. n < 2 ^ 32) r.draws
      → IsSession describe settings v r
  unfolding on_client_connect
  registry_gateway-IsSession describe settings v r before after d plain h k n e fresh below =
      let (i, index, joined, added, is) =
        add_client-IsAdded fl registry_settings now v r before after d k n e fresh in
      let shake =
        handshake (Registry fl) registry_gateway describe settings plain v r joined i index h
          (drawn-lt v r before after d i index joined n e fresh below added)
          (index-lt r.client_index_mask index is.lowest_free) (rw added refl) in
      elim (remove_client-IsRemoved fl i joined is.still) [
        | inl (u, _) ↦ absurd (not_known i index r joined is.fresh is.clients u)
        | inr (c, u, leaves, removed) ↦
            left_by describe settings v r joined i index c shake is.fresh is.clients u leaves
              removed
      ]
