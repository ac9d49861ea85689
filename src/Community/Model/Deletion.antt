-- ===== src/Community/Model/Deletion.antt =====
-- A deleted community stays deleted.
use disquisition.Common.{
  ◌≡◌, inl, inr, refl, sym, ◌∙◌, ap, subst, Bool, true, false, not, ◌&&◌, ◌||◌, some, List, [], ◌∷◌,
  arith, Text, text_eq, nat_eq, text_beq, codes, ◌==◌, Bool-cases, Option-cases, if_case,
}
use mathlib.Core.Option.{none-ne-some}
use disquisition.Common.Maps.{lookup, Each, Each-map, Each-lookup}
use disquisition.Common.Sets.{has}
use disquisition.Relay.Router.{is_peer_id}
use disquisition.Community.Model.{Operation, Toolkit}
use disquisition.Community.Model.Log.{
  value_of, or_else, no_operation, put, keys, comes_first, sort_in, sorted_keys, ordered,
}
use disquisition.Community.Model.Authority.{
  Gathered, nothing_gathered, is_removal, authorized, gather_free, gather_revoke, gather_unban,
  gather_one, gather_each,
}
use disquisition.Community.Model.State.{
  Model, Snapshot, put_all, gathered, finished, rebuild, from_json, merge,
}
use disquisition.Community.Model.Union.{Agree, lookup-put}
use disquisition.Community.Model.Merging.{
  IsRebuilt, of_log, merge_incoming-joined, merge_read, rebuild_parts,
}

-- The owner deletes the community.
abbrev is_deletion : Text → Operation → Bool
is_deletion owner op = op.kind == codes "delete" && op.author == owner

any_deletion : List (Text × Operation) → Text → List Text → Bool
any_deletion ops owner [] = false
any_deletion ops owner (k ∷ ks) = is_deletion owner (value_of ops k) || any_deletion ops owner ks

-- Only a deletion deletes.
gather_one-deleted :
    (ops : List (Text × Operation)) (owner : Text) (roles : List Text) (key : Text) (op : Operation)
    (g : Gathered)
    → (gather_one ops owner roles key op g).deleted ≡ (g.deleted || is_deletion owner op)
gather_one-deleted ops owner roles key op g =
    let P = λ (h : Gathered). h.deleted ≡ (g.deleted || is_deletion owner op) in
    let free : P (gather_free ops owner key op g) =
      if_case P (is_deletion owner op) (λ yes_deleted. ground (arith, yes_deleted))
        (λ other.
          if_case P (op.kind == codes "leave" && not (op.author == owner))
            (λ _. ground (arith, other)) (λ _. ground (arith, other))) in
    let h = gather_free ops owner key op g in
    let revoked : P (gather_revoke ops owner key op h) =
      if_case P (op.kind == codes "revoke" && is_peer_id op.details.hash) (λ _. free) (λ _. free) in
    let unbanned : P (gather_unban ops owner key op (gather_revoke ops owner key op h)) =
      if_case P
        (op.kind == codes "unban" && (is_peer_id op.details.peer && not (op.details.peer == owner)))
        (λ _. revoked) (λ _. revoked) in
    if_case P (authorized ops owner roles key)
      (λ _.
        if_case P
          (is_removal op.kind && (is_peer_id op.details.peer && not (op.details.peer == owner)))
          (λ _. unbanned) (λ _. unbanned))
      (λ _. free)

gather_each-deleted :
    (ops : List (Text × Operation)) (owner : Text) (roles ks : List Text) (g : Gathered)
    → (gather_each ops owner roles ks g).deleted ≡ (g.deleted || any_deletion ops owner ks)
unfolding gather_each any_deletion
gather_each-deleted ops owner roles [] g = ground arith
gather_each-deleted ops owner roles (key ∷ ks) g =
    let op = value_of ops key in
    gather_each-deleted ops owner roles ks (gather_one ops owner roles key op g)
    ∙ ground (arith, gather_one-deleted ops owner roles key op g)

any_deletion-sort_in :
    (ops : List (Text × Operation)) (owner k : Text) (ks : List Text)
    → any_deletion ops owner (sort_in ops k ks) ≡ any_deletion ops owner (k ∷ ks)
unfolding any_deletion
any_deletion-sort_in ops owner k [] = refl
any_deletion-sort_in ops owner k (j ∷ ks) =
    if_case (λ l. any_deletion ops owner l ≡ any_deletion ops owner (k ∷ j ∷ ks))
      (comes_first ops j k) (λ _. ground (arith, any_deletion-sort_in ops owner k ks)) (λ _. refl)

any_deletion-sorted_keys :
    (ops : List (Text × Operation)) (owner : Text) (ks : List Text)
    → any_deletion ops owner (sorted_keys ops ks) ≡ any_deletion ops owner ks
unfolding any_deletion
any_deletion-sorted_keys ops owner [] = refl
any_deletion-sorted_keys ops owner (k ∷ ks) =
    any_deletion-sort_in ops owner k (sorted_keys ops ks)
    ∙ ground (arith, any_deletion-sorted_keys ops owner ks)

-- The log has a deletion by the owner.
Deletes : Text → List (Text × Operation) → Type 0
Deletes owner m =
    (k : Text) × (op : Operation) × (lookup k m ≡ some op) × (is_deletion owner op ≡ true)

any_deletion-Deletes :
    (owner : Text) (m : List (Text × Operation)) (ks : List Text)
    → any_deletion m owner ks ≡ true
    → Deletes owner m
unfolding any_deletion Deletes
any_deletion-Deletes owner m [] h = cc
any_deletion-Deletes owner m (k ∷ ks) h = elim (Bool-cases (is_deletion owner (value_of m k))) [
  | inr other ↦ any_deletion-Deletes owner m ks (rw other at h)
  | inl this ↦ elim (Option-cases (lookup k m)) [
    | inr (op, found) ↦
        (k, op, found, subst (λ o. is_deletion owner (or_else no_operation o) ≡ true) found this)
    | inl missing ↦
        let none_deletes : is_deletion owner no_operation ≡ true =
          subst (λ o. is_deletion owner (or_else no_operation o) ≡ true) missing this in
        absurd (unfold text_beq in ground (arith, none_deletes))
  ]
]

has-keys :
    (k : Text) (op : Operation) (m : List (Text × Operation))
    → lookup k m ≡ some op
    → has k (keys m) ≡ true
unfolding lookup has
has-keys k op [] h = absurd (none-ne-some op h)
has-keys k op ((j, b) ∷ m) h = elim (Bool-cases (j == k)) [
  | inl same ↦ rw same refl
  | inr other ↦ ground (arith, has-keys k op m (rw other at h))
]

any_deletion-has :
    (owner k : Text) (m : List (Text × Operation)) (ks : List Text)
    → has k ks ≡ true
    → is_deletion owner (value_of m k) ≡ true
    → any_deletion m owner ks ≡ true
unfolding any_deletion has
any_deletion-has owner k m [] there h = cc
any_deletion-has owner k m (j ∷ ks) there h = elim (Bool-cases (j == k)) [
  | inl same ↦
      let this : is_deletion owner (value_of m j) ≡ true =
        subst (λ r. is_deletion owner (value_of m r) ≡ true) (sym ((text_eq.beq_iff j k).0 same))
          h in
      ground (arith, this)
  | inr other ↦ ground (arith, any_deletion-has owner k m ks (rw other at there) h)
]

Deletes-any_deletion :
    (owner : Text) (m : List (Text × Operation))
    → Deletes owner m
    → any_deletion m owner (keys m) ≡ true
unfolding Deletes
Deletes-any_deletion owner m (k, op, found, d) =
    any_deletion-has owner k m (keys m) (has-keys k op m found)
      (subst (λ o. is_deletion owner (or_else no_operation o) ≡ true) (sym found) d)

-- What a log says under a number, it still says when operations that agree are put into it.
lookup-put_all :
    (k : Text) (op : Operation) (ops m : List (Text × Operation))
    → Each (λ j b. j ≡ k → b ≡ op) ops
    → lookup k m ≡ some op
    → lookup k (put_all ops m) ≡ some op
lookup-put_all k op [] m same h = h
lookup-put_all k op ((j, b) ∷ ops) m (one, same) h = lookup-put_all k op ops (put j b m) same (
    lookup-put j k b m
    ∙ if_case (λ o. o ≡ some op) (j == k) (λ e. ap (λ t. some t) (one ((text_eq.beq_iff j k).0 e)))
        (λ _. h))

put_all-Deletes :
    (owner : Text) (ops m : List (Text × Operation))
    → Agree ops m
    → Deletes owner m
    → Deletes owner (put_all ops m)
unfolding Deletes
put_all-Deletes owner ops m agree (k, op, found, d) =
    let same : Each (λ j b. j ≡ k → b ≡ op) ops =
      Each-map (λ j b. Each (λ i c. j ≡ i → b ≡ c) m) (λ j b. j ≡ k → b ≡ op) ops
        (λ j b each. Each-lookup (λ i c. j ≡ i → b ≡ c) k m each found) agree in
    (k, op, lookup-put_all k op ops m same found, d)

module _ (q : Toolkit) where
  -- Whether a community is deleted is in its log.
  rebuild-deleted :
      (m r : Model)
      → rebuild q m ≡ some r
      → r.deleted ≡ any_deletion m.operations m.owner (keys m.operations)
  unfolding finished gathered ordered
  rebuild-deleted m r h =
      let (c, b, _, _, e) = rebuild_parts q m r h in
      sym (ap (λ (t : Model). t.deleted) e)
      ∙ gather_each-deleted m.operations m.owner c.owner_roles (ordered m.operations)
          nothing_gathered
      ∙ any_deletion-sorted_keys m.operations m.owner (keys m.operations)

  -- Let a replica be as it was rebuilt from its log, and let a snapshot be read and merged, such that an operation that
  -- both have under one number is the same. If the community is deleted for the replica, it is deleted after the merge,
  -- however stale the snapshot.
  pub deleted-merge :
      (s : Snapshot) (m a r : Model) (changed : Bool)
      → IsRebuilt q m
      → from_json q s m.id m.owner ≡ some a
      → Agree a.operations m.operations
      → merge q s m ≡ some (r, changed)
      → m.deleted ≡ true
      → r.deleted ≡ true
  deleted-merge s m a r changed built read agree h gone =
      let log = put_all a.operations m.operations in
      let joins =
        merge_incoming-joined q a m r changed built agree (sym (merge_read q s m a read) ∙ h) in
      let there : Deletes m.owner m.operations =
        any_deletion-Deletes m.owner m.operations (keys m.operations)
          (sym (rebuild-deleted m m built) ∙ gone) in
      rebuild-deleted (of_log m.id m.owner log) r joins
      ∙ Deletes-any_deletion m.owner log
          (put_all-Deletes m.owner a.operations m.operations agree there)
