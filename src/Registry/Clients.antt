-- ===== src/Registry/Clients.antt =====
-- The clients of the registry as their two constant fields, and what the registry's loops do to those.
use webx_engine.Common.{
  All, ◌<◌, ℕ, ◌≡◌, refl, sym, ◌∙◌, ap, List, [], ◌∷◌, ◌++◌, Option, none, some, ◌==◌, Bool-cases,
  Option-cases, inl, inr, arith,
}
use webx_engine.Common.Floats.{Floats}
use webx_engine.Client.{Client, on_ping_sent, perform_quality_verification, reset_bitrate}
use webx_engine.Roster.{Member, find, remove, find-cons, find-nil, remove-nil, remove-cons}
use webx_engine.Group.{Group}
use webx_engine.Registry.{
  member, members, client_by_id, update_client, erase_client, draw_id, reset_joined,
}
use webx_engine.Registry.Rounds.{
  update_all, ping_clients, verify_members, verify_groups, is_requiring_ping,
}

module _ (fl : Floats) where
  pub members-append :
      (cs ds : List (Client fl)) → members fl (cs ++ ds) ≡ members fl cs ++ members fl ds
  unfolding members
  members-append [] ds = refl
  members-append (c ∷ cs) ds = ap (λ r. member fl c ∷ r) (members-append cs ds)

  pub members_one : (c : Client fl) → members fl (c ∷ []) ≡ member fl c ∷ []
  unfolding members
  members_one c = refl

  pub members-cons :
      (c : Client fl) (cs : List (Client fl)) → members fl (c ∷ cs) ≡ member fl c ∷ members fl cs
  unfolding members
  members-cons c cs = refl

  pub members-nil : members fl [] ≡ []
  unfolding members
  members-nil = refl

  pub members-erase :
      (i : ℕ) (cs : List (Client fl)) → members fl (erase_client fl i cs) ≡ remove i (members fl cs)
  unfolding members erase_client
  members-erase i [] = sym (remove-nil i)
  members-erase i (c ∷ cs) = elim (Bool-cases (c.id == i)) [
    | inl e ↦ rw (e, remove-cons i (member fl c) (members fl cs), e) refl
    | inr e ↦ rw (e, remove-cons i (member fl c) (members fl cs), e, members-erase i cs) refl
  ]

  -- A change of one client that keeps its identifier and index.
  pub members-update :
      (i : ℕ) (f : Client fl → Client fl) (cs : List (Client fl))
      → ((c : Client fl) → member fl (f c) ≡ member fl c)
      → members fl (update_client fl i f cs) ≡ members fl cs
  unfolding members update_client
  members-update i f [] k = refl
  members-update i f (c ∷ cs) k = elim (Bool-cases (c.id == i)) [
    | inl e ↦ rw (e, k c) refl
    | inr e ↦ rw (e, members-update i f cs k) refl
  ]

  pub members-update_all :
      (f : Client fl → Client fl) (cs : List (Client fl))
      → ((c : Client fl) → member fl (f c) ≡ member fl c)
      → members fl (update_all fl f cs) ≡ members fl cs
  unfolding members update_all
  members-update_all f [] k = refl
  members-update_all f (c ∷ cs) k = rw (k c, members-update_all f cs k) refl

  pub members-ping_clients :
      (now : ℕ) (cs : List (Client fl)) → members fl (ping_clients fl now cs) ≡ members fl cs
  unfolding members ping_clients on_ping_sent
  members-ping_clients now [] = refl
  members-ping_clients now (c ∷ cs) = elim (Bool-cases (is_requiring_ping fl c.ping_status)) [
    | inl e ↦ rw (e, members-ping_clients now cs) refl
    | inr e ↦ rw (e, members-ping_clients now cs) refl
  ]

  verify_still :
      (now : ℕ) (average : Option fl.Float) (c : Client fl)
      → member fl (perform_quality_verification fl now average c) ≡ member fl c
  unfolding perform_quality_verification
  verify_still now average c = ground arith

  pub members-verify_members :
      (now : ℕ) (average : Option fl.Float) (ms : List Member) (cs : List (Client fl))
      → members fl (verify_members fl now average ms cs) ≡ members fl cs
  unfolding verify_members
  members-verify_members now average [] cs = refl
  members-verify_members now average (m ∷ ms) cs =
      members-verify_members now average ms
        (update_client fl m.id (perform_quality_verification fl now average) cs)
      ∙ members-update m.id (perform_quality_verification fl now average) cs
          (verify_still now average)

  pub members-verify_groups :
      (now : ℕ) (gs : List (Group fl)) (cs : List (Client fl))
      → members fl (verify_groups fl now gs cs) ≡ members fl cs
  unfolding verify_groups
  members-verify_groups now [] cs = refl
  members-verify_groups now (g ∷ gs) cs =
      members-verify_groups now gs (verify_members fl now g.average_image_mbps g.clients cs)
      ∙ members-verify_members now g.average_image_mbps g.clients cs

  pub members-reset_joined :
      (i : ℕ) (average : Option (Option fl.Float)) (cs : List (Client fl))
      → members fl (reset_joined fl i average cs) ≡ members fl cs
  unfolding reset_bitrate
  members-reset_joined i none cs = refl
  members-reset_joined i (some average) cs =
      members-update i (reset_bitrate fl average) cs (λ c. refl)

  -- The registry's lookup and that of the members.
  pub find-members :
      (i : ℕ) (cs : List (Client fl)) (c : Client fl)
      → client_by_id fl i cs ≡ some c
      → find i (members fl cs) ≡ some (member fl c)
  unfolding members client_by_id
  find-members i [] c h = cc
  find-members i (d ∷ cs) c h = elim (Bool-cases (d.id == i)) [
    | inl e ↦
        rw (find-cons i (member fl d) (members fl cs), e)
          (let s : d ≡ c = ground arith in ap (λ x. some (member fl x)) s)
    | inr e ↦ rw (find-cons i (member fl d) (members fl cs), e) (find-members i cs c (ground arith))
  ]

  pub find-members-none :
      (i : ℕ) (cs : List (Client fl)) → client_by_id fl i cs ≡ none → find i (members fl cs) ≡ none
  unfolding members client_by_id
  find-members-none i [] h = find-nil i
  find-members-none i (d ∷ cs) h = elim (Bool-cases (d.id == i)) [
    | inl e ↦ ground arith
    | inr e ↦
        rw (find-cons i (member fl d) (members fl cs), e) (find-members-none i cs (ground arith))
  ]

  pub client_by_id-id :
      (i : ℕ) (cs : List (Client fl)) (c : Client fl) → client_by_id fl i cs ≡ some c → c.id ≡ i
  unfolding client_by_id
  client_by_id-id i [] c h = cc
  client_by_id-id i (d ∷ cs) c h = elim (Bool-cases (d.id == i)) [
    | inl e ↦ ground arith
    | inr e ↦ ground (arith, client_by_id-id i cs c)
  ]

  pub draw_id-fresh :
      (ds : List ℕ) (cs : List (Client fl)) (d : ℕ) (rest : List ℕ)
      → draw_id fl ds cs ≡ some (d, rest)
      → client_by_id fl d cs ≡ none
  unfolding draw_id
  draw_id-fresh [] cs d rest h = cc
  draw_id-fresh (e ∷ ds) cs d rest h = elim (Option-cases (client_by_id fl e cs)) [
    | inl n ↦ ground arith
    | inr (c, n) ↦ draw_id-fresh ds cs d rest (ground arith)
  ]

  pub draw_id-lt :
      (n : ℕ) (ds : List ℕ) (cs : List (Client fl)) (d : ℕ) (rest : List ℕ)
      → All (λ e. e < n) ds
      → draw_id fl ds cs ≡ some (d, rest)
      → d < n
  unfolding draw_id
  draw_id-lt n [] cs d rest b h = cc
  draw_id-lt n (e ∷ ds) cs d rest (b, bs) h = elim (Option-cases (client_by_id fl e cs)) [
    | inl k ↦ ground arith
    | inr (c, k) ↦ draw_id-lt n ds cs d rest bs (ground arith)
  ]
