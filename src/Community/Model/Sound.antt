-- ===== src/Community/Model/Sound.antt =====
-- What holds in a community, whatever its members do and whatever a replica merges.
use disquisition.Common.{
  ◌≡◌, inl, inr, refl, sym, ap, subst, Bool, true, false, not, ◌&&◌, some, List, [], ◌∷◌, arith,
  Text, text_eq, nat_eq, codes, ◌==◌, leb, nat_beq, Bool-cases, Option-cases, ◌>>=◌, ◌>>◌, guard,
  length, >>=-eq-some, guard-some,
}
use mathlib.Core.Option.{some-injective}
use disquisition.Common.Maps.{erase}
use disquisition.Common.Sets.{has}
use disquisition.Relay.Router.{is_peer_id}
use disquisition.Community.Model.{Intent, Details, Operation, Toolkit, uuid}
use disquisition.Community.Model.Log.{
  Checked, contains, put, ordered, check_each, check_log, exclude_all, nothing_checked,
}
use disquisition.Community.Model.Authority.{nothing_gathered}
use disquisition.Community.Model.Replay.{Built, nothing_built, expel, expel_all}
use disquisition.Community.Model.State.{
  Model, gathered, replayed, all_banned, settled, finished, rebuild,
}
use disquisition.Community.Model.Merging.{rebuild_parts}
use disquisition.Community.Model.State.{
  Snapshot, put_all, merge_incoming, merge, from_json, read_operations, is_expected, new_model,
  fits,
}
use disquisition.Community.Model.Changes.{
  append, next_operation, change, may_change, if_kind, valid_change, admit, Action, merges, changes,
  admits, act, act_all, accepts_intent, is_member, host,
}
use disquisition.Community.Model.{max_operations, max_metadata_bytes}
use disquisition.Community.Model.Members.{
  contains-erase_self, contains-erase_none, Stays, Apart, expel_all-Stays, expel_ended-Stays,
  GatheredApart, gather_each-Apart, banned_among-Other,
}
use disquisition.Community.Model.Owner.{replay_each-Met}

expel_all_none :
    (peer : Text) (peers : List Text) (b : Built)
    → contains b.members peer ≡ false
    → contains (expel_all peers b).members peer ≡ false
unfolding expel_all
expel_all_none peer [] b h = h
expel_all_none peer (p ∷ peers) b h =
    expel_all_none peer peers (expel p b) (contains-erase_none p peer b.members h)

-- Who is expelled is no member.
expel_all-has :
    (peer : Text) (peers : List Text) (b : Built)
    → has peer peers ≡ true
    → contains (expel_all peers b).members peer ≡ false
unfolding expel_all has
expel_all-has peer [] b h = cc
expel_all-has peer (p ∷ peers) b h = elim (Bool-cases (p == peer)) [
  | inl same ↦ expel_all_none peer peers (expel p b) (
      subst (λ r. contains (erase r b.members) peer ≡ false) (sym ((text_eq.beq_iff p peer).0 same))
        (contains-erase_self peer b.members))
  | inr other ↦ expel_all-has peer peers (expel p b) (rw other at h)
]

-- The owner is a member and is not banned, and no banned peer is a member.
pub record IsSound (m : Model) : Type 0 where
  pub owner : contains m.members m.owner ≡ true
  pub banned : (peer : Text) → has peer m.banned ≡ true → contains m.members peer ≡ false

module _ (q : Toolkit) where
  gathered-Apart : (m : Model) (c : Checked) → GatheredApart m.operations m.owner (gathered q m c)
  unfolding gathered Apart
  gathered-Apart m c =
      gather_each-Apart m.operations m.owner c.owner_roles (ordered m.operations) nothing_gathered
        (record { removals = tt; bans = tt; departures = tt })

  settled-Stays :
      (m : Model) (c : Checked) (b : Built)
      → Stays m.operations m.owner b
      → Stays m.operations m.owner (settled q m c b)
  unfolding settled all_banned
  settled-Stays m c b h =
      let g = gathered q m c in
      let apart = gathered-Apart m c in
      expel_all-Stays m.operations m.owner (all_banned q m c) _
        (banned_among-Other m.operations m.owner g g.bans [] apart.bans tt)
        (expel_ended-Stays m.operations m.owner g.removals _ apart.removals
          (expel_ended-Stays m.operations m.owner g.departures b apart.departures h))

  one_root :
      (ops : List (Text × Operation)) (owner : Text) (c : Checked)
      → check_log ops owner ≡ some c
      → (d : Checked) × (check_each ops owner (ordered ops) nothing_checked ≡ some d)
        × (d.roots ≡ 1)
  unfolding check_log
  one_root ops owner c h =
      let rest = λ (c : Checked).
        (guard (nat_beq c.roots 1)
          >> some (record c { heads = exclude_all c.non_heads c.heads })) in
      let (d, checked, h1) =
        >>=-eq-some (check_each ops owner (ordered ops) nothing_checked) rest h in
      let (_, one, _) =
        >>=-eq-some (guard (nat_beq d.roots 1))
          (λ _. some (record d { heads = exclude_all d.non_heads d.heads })) h1 in
      (d, checked, ground (arith, guard-some (nat_beq d.roots 1) one))

  replayed-Stays :
      (m : Model) (c : Checked) (b : Built)
      → check_log m.operations m.owner ≡ some c
      → replayed q m c ≡ some b
      → Stays m.operations m.owner b
  unfolding replayed
  replayed-Stays m c b checked built =
      let (d, each, one) = one_root m.operations m.owner c checked in
      elim (replay_each-Met q m.id m.operations m.owner c.owner_roles (gathered q m c)
        (ordered m.operations) nothing_checked d nothing_built b each built (inl refl)) [
          | inl none_met ↦ absurd (omega (arith, none_met, one))
          | inr stays ↦ stays
        ]

  -- A model that is rebuilt from its log, which `rebuild` accepts, has its owner as a member, and none of its members is
  -- banned.
  pub rebuild-IsSound : (m r : Model) → rebuild q m ≡ some r → IsSound r
  unfolding finished Stays
  rebuild-IsSound m r h =
      let (c, b, checked, built, e) = rebuild_parts q m r h in
      subst IsSound e (record {
        owner = settled-Stays m c b (replayed-Stays m c b checked built);
        banned = λ peer hit. unfold settled in expel_all-has peer (all_banned q m c) _ hit;
      })

  append-IsSound :
      (author kind : Text) (d : Details) (m r : Model)
      → append q author kind d m ≡ some r
      → IsSound r
  unfolding append
  append-IsSound author kind d m r h =
      let op = next_operation q author kind d m in
      let next = record m { operations = put (q.operation_id op) op m.operations } in
      let (_, _, h1) = >>=-eq-some (guard (fits q next)) (λ _. rebuild q next) h in
      rebuild-IsSound next r h1

  change-IsSound :
      (author kind : Text) (d : Details) (m r : Model)
      → change q author kind d m ≡ some r
      → IsSound r
  unfolding change
  change-IsSound author kind d m r h =
      let tests =
        guard (not m.deleted)
        >> guard (may_change q author kind m)
        >> guard (if_kind q kind (codes "admin") (author == m.owner))
        >> guard (valid_change q kind d m) in
      let (_, _, h1) = >>=-eq-some tests (λ _. append q author kind d m) h in
      append-IsSound author kind d m r h1

  admit-IsSound : (h : Text) (i : Intent) (m r : Model) → admit q h i m ≡ some r → IsSound r
  unfolding admit
  admit-IsSound host i m r h =
      let (_, _, h1) =
        >>=-eq-some (guard (accepts_intent q host i m && not (is_member q m i.peer))) _ h in
      append-IsSound host (codes "admit") _ m r h1

  merge-IsSound :
      (s : Snapshot) (m r : Model) (c : Bool) → IsSound m → merge q s m ≡ some (r, c) → IsSound r
  unfolding merge merge_incoming
  merge-IsSound s m r c v h =
      let (a, _, h1) = >>=-eq-some (from_json q s m.id m.owner) (merge_incoming q m) h in
      let merged = record m { operations = put_all a.operations m.operations } in
      elim (Bool-cases (nat_beq (length merged.operations) (length m.operations))) [
        | inl same ↦
            subst IsSound
              (ap (λ (p : Model × Bool). p.0) (some-injective (m, false) (r, c) (rw same at h1))) v
        | inr grew ↦
            let h2 : (guard (fits q merged) >> rebuild q merged >>= λ t. some (t, true))
                ≡ some (r, c) =
              rw grew at h1 in
            let (t, h3, h4) =
              >>=-eq-some (guard (fits q merged) >> rebuild q merged)
                (λ (t : Model). some (t, true)) h2 in
            let (_, _, h5) = >>=-eq-some (guard (fits q merged)) (λ _. rebuild q merged) h3 in
            subst IsSound (ap (λ (p : Model × Bool). p.0) (some-injective (t, true) (r, c) h4))
              (rebuild-IsSound merged t h5)
      ]

  act-IsSound : (a : Action) (m : Model) → IsSound m → IsSound (act q a m)
  unfolding act
  act-IsSound (merges s) m v = elim (Option-cases (merge q s m)) [
    | inl failed ↦ rw failed v
    | inr ((r, c), done) ↦ rw done (merge-IsSound s m r c v done)
  ]
  act-IsSound (changes author kind d) m v = elim (Option-cases (change q author kind d m)) [
    | inl failed ↦ rw failed v
    | inr (r, done) ↦ rw done (change-IsSound author kind d m r done)
  ]
  act-IsSound (admits host i) m v = elim (Option-cases (admit q host i m)) [
    | inl failed ↦ rw failed v
    | inr (r, done) ↦ rw done (admit-IsSound host i m r done)
  ]

  from_json-IsSound :
      (s : Snapshot) (id owner : Text) (m : Model) → from_json q s id owner ≡ some m → IsSound m
  unfolding from_json
  from_json-IsSound s id owner m h =
      let whose = guard (
        uuid q s.id
        && (is_peer_id s.owner
            && (nat_beq s.version 1 && (is_expected q id s.id && is_expected q owner s.owner)))) in
      let sized = guard (
        not (nat_beq (length s.operations) 0)
        && (leb (length s.operations) max_operations && leb s.size max_metadata_bytes)) in
      let start =
        λ (ops : List (Text × Operation)). record (new_model s.id s.owner) { operations = ops } in
      let (ops, _, h1) =
        >>=-eq-some (whose >> sized >> read_operations q s.id s.operations [])
          (λ ops. (guard (nat_beq (length ops) (length s.operations)) >> rebuild q (start ops)))
          h in
      let (_, _, h2) =
        >>=-eq-some (guard (nat_beq (length ops) (length s.operations)))
          (λ _. rebuild q (start ops)) h1 in
      rebuild-IsSound (start ops) m h2

  act_all-keeps : (acts : List Action) (m : Model) → IsSound m → IsSound (act_all q acts m)
  unfolding act_all
  act_all-keeps [] m v = v
  act_all-keeps (a ∷ acts) m v = act_all-keeps acts (act q a m) (act-IsSound a m v)

  -- Let a community be read from what `fromJson` accepts. Whatever the replica then merges, changes and admits, and
  -- whatever of it is refused, the owner is a member and no banned peer is one.
  pub act_all-IsSound :
      (s : Snapshot) (id owner : Text) (m : Model) (acts : List Action)
      → from_json q s id owner ≡ some m
      → IsSound (act_all q acts m)
  act_all-IsSound s id owner m acts h = act_all-keeps acts m (from_json-IsSound s id owner m h)
