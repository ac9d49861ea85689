-- ===== src/Community/Model/Members.antt =====
-- The owner of a community stays its member, and a peer that is banned is none.
use disquisition.Common.{
  ◌≡◌, refl, ◌∙◌, ap, Bool, true, false, not, ◌&&◌, List, [], ◌∷◌, arith, Text, text_eq, nat_eq,
  codes, ◌==◌, beq_refl, if◌then◌else◌, if_case, All,
}
use disquisition.Common.Maps.{lookup, erase, lookup-erase, Each, Each-insert}
use disquisition.Common.Sets.{has, include}
use disquisition.Relay.Router.{is_peer_id}
use disquisition.Community.Model.{Operation}
use disquisition.Community.Model.Log.{is_some, contains, put, value_of, or_else}
use disquisition.Community.Model.Authority.{
  Gathered, append_to, is_removal, is_kick, authorized, gather_free, gather_revoke, gather_unban,
  gather_removal, gather_one, gather_each, any_standing, banned_among,
}
use disquisition.Community.Model.Replay.{Built, expel, any_after, expel_ended, expel_all}
use disquisition.Community.Model.Union.{lookup-put}

module _ {A : Type 0} where
  pub contains-put :
      (k j : Text) (a : A) (m : List (Text × A))
      → contains m j ≡ true
      → contains (put k a m) j ≡ true
  contains-put k j a m h =
      ap is_some (lookup-put k j a m)
      ∙ if_case (λ o. is_some o ≡ true) (k == j) (λ _. refl) (λ _. h)

  pub contains-put_self : (k : Text) (a : A) (m : List (Text × A)) → contains (put k a m) k ≡ true
  contains-put_self k a m =
      ap is_some (lookup-put k k a m)
      ∙ if_case (λ o. is_some o ≡ true) (k == k) (λ _. refl)
          (λ other. absurd (ground (arith, beq_refl {A = Text} k)))

  contains-erase :
      (k j : Text) (m : List (Text × A)) → (k == j) ≡ false → contains (erase k m) j ≡ contains m j
  contains-erase k j m other =
      ap is_some (lookup-erase k j m)
      ∙ if_case (λ o. is_some o ≡ contains m j) (k == j) (λ same. absurd (ground (arith, other)))
          (λ _. refl)

  pub contains-erase_self : (k : Text) (m : List (Text × A)) → contains (erase k m) k ≡ false
  contains-erase_self k m =
      ap is_some (lookup-erase k k m)
      ∙ if_case (λ o. is_some o ≡ false) (k == k) (λ _. refl)
          (λ other. absurd (ground (arith, beq_refl {A = Text} k)))

  -- A peer that is none stays none when another loses its membership.
  pub contains-erase_none :
      (k j : Text) (m : List (Text × A)) → contains m j ≡ false → contains (erase k m) j ≡ false
  contains-erase_none k j m h =
      ap is_some (lookup-erase k j m)
      ∙ if_case (λ o. is_some o ≡ false) (k == j) (λ _. refl) (λ _. h)

module _ (ops : List (Text × Operation)) (owner : Text) where
  unfoldable pub Stays : Built → Type 0
  Stays b = contains b.members owner ≡ true

  unfoldable pub Other : Text → Type 0
  Other peer = (peer == owner) ≡ false

  pub expel-Stays : (peer : Text) (b : Built) → Other peer → Stays b → Stays (expel peer b)
  unfolding Stays Other
  expel-Stays peer b other h = contains-erase peer owner b.members other ∙ h

  pub expel_all-Stays :
      (peers : List Text) (b : Built) → All Other peers → Stays b → Stays (expel_all peers b)
  unfolding expel_all
  expel_all-Stays [] b others h = h
  expel_all-Stays (peer ∷ peers) b (other, others) h =
      expel_all-Stays peers (expel peer b) others (expel-Stays peer b other h)

  unfoldable pub Apart : List (Text × List Text) → Type 0
  Apart m = Each (λ k _. Other k) m

  pub expel_ended-Stays :
      (m : List (Text × List Text)) (b : Built) → Apart m → Stays b → Stays (expel_ended ops m b)
  unfolding expel_ended Apart
  expel_ended-Stays [] b apart h = h
  expel_ended-Stays ((peer, ends) ∷ m) b (other, apart) h = expel_ended-Stays m _ apart (
      if_case Stays (any_after ops (or_else [] (lookup peer b.admissions)) ends)
        (λ _. expel-Stays peer b other h) (λ _. h))

  -- Nobody removes, bans or lets leave the owner.
  pub record AllApart (rs bs ds : List (Text × List Text)) : Type 0 where
    pub removals : Apart rs
    pub bans : Apart bs
    pub departures : Apart ds

  abbrev pub GatheredApart : Gathered → Type 0
  GatheredApart g = AllApart g.removals g.bans g.departures

  append_to-Apart :
      (peer key : Text) (m : List (Text × List Text))
      → Other peer
      → Apart m
      → Apart (append_to peer key m)
  unfolding Apart
  append_to-Apart peer key m other h = Each-insert (λ k _. Other k) peer _ m h other

  not_owner : (a b : Bool) (peer : Text) → (a && (b && not (peer == owner))) ≡ true → Other peer
  unfolding Other
  not_owner a b peer h = ground arith

  left-Apart :
      (key : Text) (op : Operation) (g : Gathered)
      → GatheredApart g
      → GatheredApart (
          if op.kind == codes "leave" && not (op.author == owner)
          then record g { departures = append_to op.author key g.departures }
          else g)
  unfolding Other
  left-Apart key op g v =
      if_case GatheredApart (op.kind == codes "leave" && not (op.author == owner))
        (λ h. record {
          removals = v.removals;
          bans = v.bans;
          departures = append_to-Apart op.author key g.departures (ground arith) v.departures;
        })
        (λ _. v)

  gather_free-Apart :
      (key : Text) (op : Operation) (g : Gathered)
      → GatheredApart g
      → GatheredApart (gather_free ops owner key op g)
  gather_free-Apart key op g v =
      if_case GatheredApart (op.kind == codes "delete" && op.author == owner)
        (λ _. left-Apart key op g v) (λ _. left-Apart key op g v)

  gather_removal-Apart :
      (key : Text) (op : Operation) (g : Gathered)
      → GatheredApart g
      → GatheredApart (gather_removal ops owner key op g)
  gather_removal-Apart key op g v =
      let peer = op.details.peer in
      if_case GatheredApart (is_removal op.kind && (is_peer_id peer && not (peer == owner)))
        (λ h.
          let other = not_owner (is_removal op.kind) (is_peer_id peer) peer h in
          record {
            removals = append_to-Apart peer key g.removals other v.removals;
            bans =
                if_case Apart (is_kick op.kind) (λ _. append_to-Apart peer key g.bans other v.bans)
                  (λ _. v.bans);
            departures = v.departures;
          })
        (λ _. v)

  gather_marks-Apart :
      (key : Text) (op : Operation) (g : Gathered)
      → GatheredApart g
      → GatheredApart (gather_unban ops owner key op (gather_revoke ops owner key op g))
  gather_marks-Apart key op g v =
      let revoked : GatheredApart (gather_revoke ops owner key op g) =
        if_case GatheredApart (op.kind == codes "revoke" && is_peer_id op.details.hash) (λ _. v)
          (λ _. v) in
      if_case GatheredApart
        (op.kind == codes "unban" && (is_peer_id op.details.peer && not (op.details.peer == owner)))
        (λ _. revoked) (λ _. revoked)

  pub gather_each-Apart :
      (roles ks : List Text) (g : Gathered)
      → GatheredApart g
      → GatheredApart (gather_each ops owner roles ks g)
  unfolding gather_each
  gather_each-Apart roles [] g v = v
  gather_each-Apart roles (key ∷ ks) g v =
      let op = value_of ops key in
      let free = gather_free-Apart key op g v in
      gather_each-Apart roles ks (gather_one ops owner roles key op g) (
        if_case GatheredApart (authorized ops owner roles key)
          (λ _.
            gather_removal-Apart key op _
              (gather_marks-Apart key op (gather_free ops owner key op g) free))
          (λ _. free))

  include-All :
      (peer : Text) (s : List Text) → Other peer → All Other s → All Other (include peer s)
  unfolding include
  include-All peer s other h = if_case (All Other) (has peer s) (λ _. h) (λ _. (other, h))

  pub banned_among-Other :
      (g : Gathered) (m : List (Text × List Text)) (banned : List Text)
      → Apart m
      → All Other banned
      → All Other (banned_among ops owner g m banned)
  unfolding banned_among Apart
  banned_among-Other g [] banned apart h = h
  banned_among-Other g ((peer, bans) ∷ m) banned (other, apart) h = banned_among-Other g m _ apart (
      if_case (All Other) (any_standing ops owner g peer bans)
        (λ _. include-All peer banned other h) (λ _. h))
