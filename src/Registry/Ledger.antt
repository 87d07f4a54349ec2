-- ===== src/Registry/Ledger.antt =====
-- The invariant of the registry in terms of its mask, its clients and its groups, and what each change
-- of them does to it.
use Prim.Native.Nat.{bit_or, bit_and}
use webx_engine.Common.{
  ℕ, ◌^◌, ◌≤◌, ◌<◌, ◌≡◌, ap, subst, Bool, true, false, List, [], ◌∷◌, ◌++◌, none, some, Bool-cases,
  inl, inr, arith,
}
use webx_engine.Common.Bits.{bit, bit_not}
use webx_engine.Common.Floats.{Floats}
use webx_engine.Quality.{Quality}
use webx_engine.Roster.{
  Member, has_bit, has_id, is, find, remove, count_if, count_if-append, count_if_one,
  count_if-remove, count_if-find, count_if-nil, count_if-none, find_of_count, find-id, count_if-is,
  find-counted,
}
use webx_engine.Roster.Mask.{IsMask, OneOwner, nil-IsMask, append-IsMask, remove-IsMask, index-lt}
use webx_engine.Group.Kept.{AllKept, all_members-kept, quality_count-kept, kept-AllGroups}
use webx_engine.Group.{Group, remove_from_groups, add_to_groups}
use webx_engine.Group.Members.{
  all_members, quality_count, all_members-nil, quality_count-nil, AllGroups, all_members-add,
  all_members-remove, add_to_groups-AllGroups, remove_from_groups-AllGroups, quality_count-add,
  quality_count-remove, remove_from_groups-none,
}

module _ (fl : Floats) where
  -- Identifiers are unique and no bit is in two indices; the mask has the bits of the clients' indices;
  -- the groups hold each client as often as the registry, so exactly once; each group has a client and
  -- the mask of its clients; and no two groups have one quality.
  pub record IsLedger (mask : ℕ) (ms : List Member) (gs : List (Group fl)) : Type 0 where
    pub unique : (i : ℕ) → count_if (has_id i) ms ≤ 1
    pub owner : OneOwner ms
    pub mask_ok : IsMask mask ms
    pub same : (P : Member → Bool) → count_if P (all_members fl gs) ≡ count_if P ms
    pub groups_ok : AllGroups fl gs
    pub qualities : (j : ℕ) → quality_count fl j gs ≤ 1

  pub nil-IsLedger : IsLedger 0 [] []
  nil-IsLedger = record {
    unique = λ i. omega (arith, count_if-nil (has_id i));
    owner = λ k. omega (arith, count_if-nil (has_bit k));
    mask_ok = nil-IsMask;
    same = λ P. ap (count_if P) (all_members-nil fl);
    groups_ok = tt;
    qualities = λ j. omega (arith, quality_count-nil fl j);
  }

  module _ {mask : ℕ} {ms : List Member} {gs : List (Group fl)} (v : IsLedger mask ms gs) where
    -- A change of the windows of the groups.
    pub kept-IsLedger : {hs : List (Group fl)} → AllKept fl gs hs → IsLedger mask ms hs
    kept-IsLedger {hs} k = record {
      unique = v.unique;
      owner = v.owner;
      mask_ok = v.mask_ok;
      same = λ P. rw (all_members-kept fl gs hs k) (v.same P);
      groups_ok = kept-AllGroups fl gs hs k v.groups_ok;
      qualities = λ j. rw (quality_count-kept fl j gs hs k) (v.qualities j);
    }

    owner_of_groups : OneOwner (all_members fl gs)
    owner_of_groups k = omega (arith, v.same (has_bit k), v.owner k)

    qualities-add :
        (q : Quality) (m : Member) (hs : List (Group fl))
        → ((j : ℕ) → quality_count fl j hs ≤ 1)
        → (j : ℕ) → quality_count fl j (add_to_groups fl q m hs) ≤ 1
    qualities-add q m hs h j = ground (arith, h j, quality_count-add fl j q m hs)

    -- A client of the registry is the one with its identifier in the groups.
    pub found_in_groups :
        (i : ℕ) (m : Member) → find i ms ≡ some m → find i (all_members fl gs) ≡ some m
    found_in_groups i m h =
        let e = find-id i ms m h in
        let c : 1 ≤ count_if (has_id i) ms = count_if-find (has_id i) i ms m h (ground arith) in
        let c' : 1 ≤ count_if (is m) ms = count_if-find (is m) i ms m h (ground arith) in
        let (m', h') = find-counted i (all_members fl gs) (omega (arith, v.same (has_id i))) in
        let s : m' ≡ m =
          count_if-is i (all_members fl gs) m' m h' e (omega (arith, v.same (has_id i), v.unique i))
            (omega (arith, v.same (is m))) in
        rw (← s) h'

    pub not_in_groups : (i : ℕ) → find i ms ≡ none → find i (all_members fl gs) ≡ none
    not_in_groups i h =
        find_of_count i (all_members fl gs) (omega (arith, v.same (has_id i), count_if-none i ms h))

    -- A new client with a free index joins a group.
    pub add-IsLedger :
        (q : Quality) (m : Member)
        → find m.id ms ≡ none
        → m.index < 2 ^ 64
        → ((k : ℕ) → bit m.index k ≡ true → bit mask k ≡ false)
        → IsLedger (bit_or mask m.index) (ms ++ m ∷ []) (add_to_groups fl q m gs)
    add-IsLedger q m h l free =
        let z : count_if (has_id m.id) (all_members fl gs) ≡ 0 =
          omega (arith, v.same (has_id m.id), count_if-none m.id ms h) in
        record {
          unique = λ i. elim (Bool-cases (has_id i m)) [
            | inl e ↦
                let e' : m.id ≡ i = ground arith in
                ground (
                  arith,
                  count_if-append (has_id i) ms (m ∷ []),
                  count_if_one (has_id i) m,
                  subst (λ j. count_if (has_id j) ms ≡ 0) e' (count_if-none m.id ms h),
                )
            | inr e ↦ ground (
              arith,
              count_if-append (has_id i) ms (m ∷ []),
              count_if_one (has_id i) m,
              v.unique i,
            )
          ];
          owner = λ k. ground (
            arith,
            free k,
            v.mask_ok.bits k,
            v.owner k,
            count_if-append (has_bit k) ms (m ∷ []),
            count_if_one (has_bit k) m,
          );
          mask_ok = append-IsMask mask ms m l v.mask_ok;
          same = λ P. omega (
            arith,
            all_members-add fl P q m gs z,
            v.same P,
            count_if-append P ms (m ∷ []),
            count_if_one P m,
          );
          groups_ok = add_to_groups-AllGroups fl q m gs z l v.groups_ok;
          qualities = qualities-add q m gs v.qualities;
        }

    -- A client leaves.
    pub remove-IsLedger :
        (i : ℕ) (m : Member)
        → find i ms ≡ some m
        → IsLedger (bit_and mask (bit_not m.index)) (remove i ms) (remove_from_groups fl i gs)
    remove-IsLedger i m h = record {
      unique = λ j. omega (arith, v.unique j, count_if-remove (has_id j) i ms m h);
      owner = λ k. omega (arith, v.owner k, count_if-remove (has_bit k) i ms m h);
      mask_ok = remove-IsMask mask i ms m v.mask_ok v.owner h;
      same = λ P. omega (
        arith,
        v.same P,
        count_if-remove P i ms m h,
        all_members-remove fl P i gs m (found_in_groups i m h),
      );
      groups_ok = remove_from_groups-AllGroups fl i gs owner_of_groups v.groups_ok;
      qualities = λ j. omega (arith, v.qualities j, quality_count-remove fl j i gs);
    }

    -- Removing a client that is not there changes no group.
    pub remove_unknown : (i : ℕ) → find i ms ≡ none → remove_from_groups fl i gs ≡ gs
    remove_unknown i h = remove_from_groups-none fl i gs (not_in_groups i h)

    -- A client that left its group is in none.
    pub count_if-left :
        (m : Member)
        → find m.id ms ≡ some m
        → count_if (has_id m.id) (all_members fl (remove_from_groups fl m.id gs)) ≡ 0
    count_if-left m h = ground (
      arith,
      all_members-remove fl (has_id m.id) m.id gs m (found_in_groups m.id m h),
      v.same (has_id m.id),
      v.unique m.id,
    )

    -- A client leaves its group and joins that of another quality.
    pub move-IsLedger :
        (q : Quality) (m : Member)
        → find m.id ms ≡ some m
        → IsLedger mask ms (add_to_groups fl q m (remove_from_groups fl m.id gs))
    move-IsLedger q m h =
        let f = found_in_groups m.id m h in
        let rest = remove_from_groups fl m.id gs in
        let z : count_if (has_id m.id) (all_members fl rest) ≡ 0 = count_if-left m h in
        record {
          unique = v.unique;
          owner = v.owner;
          mask_ok = v.mask_ok;
          same = λ P. omega (
            arith,
            v.same P,
            all_members-remove fl P m.id gs m f,
            all_members-add fl P q m rest z,
          );
          groups_ok =
              add_to_groups-AllGroups fl q m rest z (index-lt mask m.id ms m v.mask_ok h)
                (remove_from_groups-AllGroups fl m.id gs owner_of_groups v.groups_ok);
          qualities =
              qualities-add q m rest
                (λ j. omega (arith, v.qualities j, quality_count-remove fl j m.id gs));
        }
