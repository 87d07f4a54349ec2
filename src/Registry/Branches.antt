-- ===== src/Registry/Branches.antt =====
-- The branches of the registry's calls, as equations that the proofs rewrite by.
use webx_engine.Common.{
  ℕ, ◌≡◌, refl, true, false, List, [], ◌∷◌, ◌++◌, none, some, ◌==◌, if◌then◌else◌, ok, err, ◌⊎◌,
  inl, inr, Bool-cases, Option-cases,
}
use Prim.Native.Nat.{bit_or, bit_and}
use webx_engine.Common.Bits.{bit_not}
use webx_engine.Common.Floats.{Floats}
use webx_engine.Message.{Version, quality}
use webx_engine.Quality.{Quality, same_quality, max_quality, quality_for_index}
use webx_engine.Client.{Client, new_client, set_max_quality}
use webx_engine.Roster.{Member}
use webx_engine.Group.{Group, group_with, remove_from_groups, joined_average, add_to_groups}
use webx_engine.Registry.{
  Registry, Settings, member, client_by_id, update_client, erase_client, draw_id, join, add_client,
  remove_client, move_to_quality, set_client_quality, set_client_max_quality, next_index,
  index_rounds, message_to, send, not_in_quality, no_client_indices, client_id_unknown,
  reset_joined,
}
use webx_engine.Registry.Rounds.{adjust_client, suggested_index}

module _ (fl : Floats) where
  -- The client of `addClient`, and the registry that it joins a group in.
  abbrev pub added_client : Settings → ℕ → Version → Registry fl → ℕ → Client fl
  added_client settings now version r d =
      new_client fl now d (next_index index_rounds 1 r.client_index_mask) version
        (max_quality settings.quality.max_runtime_quality_index)
        settings.client_ping_response_timeout_ms

  abbrev pub with_client : Client fl → List ℕ → Registry fl → Registry fl
  with_client c ds r = record r {
    client_index_mask = bit_or r.client_index_mask c.index;
    clients = r.clients ++ c ∷ [];
    draws = ds;
  }

  pub add_client_full :
      (settings : Settings) (now : ℕ) (version : Version) (r : Registry fl)
      → (bit_not r.client_index_mask == 0) ≡ true
      → add_client fl settings now version r ≡ some (err no_client_indices, r)
  unfolding add_client
  add_client_full settings now version r h = rw (h, add_client)

  pub add_client_undrawn :
      (settings : Settings) (now : ℕ) (version : Version) (r : Registry fl)
      → (bit_not r.client_index_mask == 0) ≡ false
      → draw_id fl r.draws r.clients ≡ none
      → add_client fl settings now version r ≡ none
  unfolding add_client
  add_client_undrawn settings now version r h e = rw (h, e, add_client)

  pub add_client_drawn :
      (settings : Settings) (now : ℕ) (version : Version) (r : Registry fl) (d : ℕ) (ds : List ℕ)
      → (bit_not r.client_index_mask == 0) ≡ false
      → draw_id fl r.draws r.clients ≡ some (d, ds)
      → add_client fl settings now version r
        ≡ some (
          ok (d, next_index index_rounds 1 r.client_index_mask),
          join fl
              (max_quality settings.quality.max_runtime_quality_index)
              (member fl (added_client settings now version r d))
              (with_client (added_client settings now version r d) ds r),
        )
  unfolding add_client new_client
  add_client_drawn settings now version r d ds h e = rw (h, e, add_client)

  pub join_lem :
      (q : Quality) (m : Member) (r : Registry fl)
      → join fl q m r ≡ record r {
        clients = reset_joined fl m.id (joined_average fl q m.id r.groups) r.clients;
        groups = add_to_groups fl q m r.groups;
      }
  unfolding join
  join_lem q m r = refl

  pub remove_client_unknown :
      (i : ℕ) (r : Registry fl)
      → client_by_id fl i r.clients ≡ none
      → remove_client fl i r
        ≡ (err client_id_unknown, record r { groups = remove_from_groups fl i r.groups })
  unfolding remove_client
  remove_client_unknown i r h = rw (h, remove_client)

  pub remove_client_known :
      (i : ℕ) (r : Registry fl) (c : Client fl)
      → client_by_id fl i r.clients ≡ some c
      → remove_client fl i r ≡ (
        ok tt,
        record r {
          client_index_mask = bit_and r.client_index_mask (bit_not c.index);
          clients = erase_client fl i r.clients;
          groups = remove_from_groups fl i r.groups;
        },
      )
  unfolding remove_client
  remove_client_known i r c h = rw (h, remove_client)

  -- The branches of a change of quality.
  pub move_in :
      (m : Member) (q : Quality) (r : Registry fl)
      → group_with fl m.id r.groups ≡ none
      → move_to_quality fl m q r ≡ join fl q m r
  unfolding move_to_quality
  move_in m q r h = rw (h, move_to_quality)

  pub move_here :
      (m : Member) (q : Quality) (r : Registry fl) (g : Group fl)
      → group_with fl m.id r.groups ≡ some g
      → same_quality g.quality q ≡ true
      → move_to_quality fl m q r ≡ r
  unfolding move_to_quality
  move_here m q r g h e = rw (h, e, move_to_quality)

  pub move_there :
      (m : Member) (q : Quality) (r : Registry fl) (g : Group fl)
      → group_with fl m.id r.groups ≡ some g
      → same_quality g.quality q ≡ false
      → move_to_quality fl m q r
        ≡ join fl q m (record r { groups = remove_from_groups fl m.id r.groups })
  unfolding move_to_quality
  move_there m q r g h e = rw (h, e, move_to_quality)

  pub set_client_quality_lem :
      (m : Member) (q : Quality) (r : Registry fl)
      → set_client_quality fl m q r
        ≡ send fl
            (message_to fl m.index (quality (record { quality = q })))
            (move_to_quality fl m q r)
  unfolding set_client_quality
  set_client_quality_lem m q r = refl

  pub set_max_unknown :
      (i : ℕ) (q : Quality) (r : Registry fl)
      → client_by_id fl i r.clients ≡ none
      → set_client_max_quality fl i q r ≡ r
  unfolding set_client_max_quality
  set_max_unknown i q r h = rw (h, set_client_max_quality)

  pub set_max_known :
      (i : ℕ) (q : Quality) (r : Registry fl) (c : Client fl)
      → client_by_id fl i r.clients ≡ some c
      → set_client_max_quality fl i q r ≡ (
          let r' = record r { clients = update_client fl i (set_max_quality fl q) r.clients } in
          if not_in_quality fl q (group_with fl i r.groups)
          then set_client_quality fl (member fl c) q r'
          else r')
  unfolding set_client_max_quality
  set_max_known i q r c h = rw (h, set_client_max_quality)

  -- A round of the second loop of `performQualityVerification` is a change of quality or nothing.
  pub adjust_client_cases :
      (settings : Settings) (i : ℕ) (r : Registry fl)
      → (adjust_client fl settings i r ≡ r)
        ⊎ ((c : Client fl) × (q : Quality) × (client_by_id fl i r.clients ≡ some c)
            × (adjust_client fl settings i r ≡ set_client_quality fl (member fl c) q r))
  unfolding adjust_client
  adjust_client_cases settings i r = elim (Option-cases (client_by_id fl i r.clients)) [
    | inl e ↦ inl (rw (e, adjust_client))
    | inr (c, e) ↦ elim (Option-cases (group_with fl i r.groups)) [
      | inl f ↦ inl (rw (e, f, adjust_client))
      | inr (g, f) ↦ elim (Option-cases c.bitrate_means) [
        | inl b ↦ inl (rw (e, f, b, adjust_client))
        | inr (means, b) ↦
            let q =
              quality_for_index settings.quality.max_runtime_quality_index
                (suggested_index fl g.quality.index c.max_quality.index means.mean_bitrate_ratio) in
            elim (Bool-cases (same_quality q g.quality)) [
              | inl z ↦ inl (rw (e, f, b, z, adjust_client))
              | inr z ↦ inr (c, q, e, rw (e, f, b, z, adjust_client))
            ]
      ]
    ]
  ]
