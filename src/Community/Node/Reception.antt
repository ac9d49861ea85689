-- ===== src/Community/Node/Reception.antt =====
-- Node: a whole snapshot, message by message.
use disquisition.Common.{
  ℕ, ◌+◌, ◌*◌, ◌≤◌, ◌<◌, ◌≡◌, refl, sym, ◌∙◌, ap, ap₂, subst, Bool, true, false, not, ◌&&◌, ◌||◌,
  Option, none, some, List, [], ◌∷◌, ◌++◌, arith, Text, text_eq, nat_eq, codes, length, if_case,
}
use disquisition.Common.Maps.{lookup}
use disquisition.Community.Model.{Operation, Toolkit, max_metadata_bytes, max_operations}
use disquisition.Community.Model.Log.{contains}
use disquisition.Community.Model.State.{Model, Snapshot}
use disquisition.Community.Node.{
  Message, message, Transfer, Link, validates, Node, Network, Outcome, returns, ◌▸◌,
}
use disquisition.Community.Node.Base.{set_link, update_link, begin_synchronization}
use disquisition.Community.Node.Sync.{operation_object, begin_object}
use disquisition.Community.Node.Merging.{merge_snapshot, start_merging}
use disquisition.Community.Node.Transfers.{
  handle_state_begin, expected_owner, new_transfer, set_transfer, counted, with_operation, buffered,
  bytes_among,
}
use disquisition.Community.Node.Handle.{handle}
use disquisition.Community.Node.Connect.{read_messages, is_paused}
use disquisition.Common.{length-append, append_assoc, append-nil}
use disquisition.Common.Maps.{lookup-insert_self, sum_of-insert_old, sum_of-insert_new}
use disquisition.Community.Node.Arrival.{
  size_of_all, update_known, operation_objects, handle_begins, handle_ends, Receiving, transferred,
  within, more_room, operation_arrives,
}

module _ (q : Toolkit) (net : Network) (cid : Text) where
  abbrev pub arrived : Text → List (Option Operation) → Snapshot
  arrived owner ops = record {
    version = 1;
    id = cid;
    owner = owner;
    operations = ops;
    size = net.snapshot_size cid owner ops;
  }

  -- What follows once a message is handled.
  pub read_on_after :
      (now : ℕ) (code : Text) (l : ℕ) (msg : Message) (msgs : List Message) (n k : Node)
      (link : Link)
      → handle q net now code l msg n ≡ returns k
      → lookup l k.links ≡ some link
      → link.merging ≡ false
      → read_messages q net now code l (msg ∷ msgs) n ≡ read_messages q net now code l msgs k
  unfolding read_messages ◌▸◌
  read_on_after now code l msg msgs n k link e f g = rw (e, f, g) refl

  read_last :
      (now : ℕ) (code : Text) (l : ℕ) (msg : Message) (n k : Node)
      → handle q net now code l msg n ≡ returns k
      → read_messages q net now code l (msg ∷ []) n ≡ returns k
  unfolding read_messages ◌▸◌
  read_last now code l msg n k e =
      rw e
        (if_case (λ o. o ≡ returns k) (is_paused q net (lookup l k.links)) (λ _. refl) (λ _. refl))

  end_arrives :
      (now : ℕ) (code : Text) (l : ℕ) (start : Node) (t : Transfer) (n : Node)
      → Receiving q net cid l start t n
      → length t.operations ≡ t.count
      → (k : Node) × (handle q net now code l (message (codes "state-end") cid) n ≡ returns k)
        × (k.out
            ≡ validates l cid (arrived t.owner t.operations) (lookup cid start.models) ∷ start.out)
        × (k.models ≡ start.models)
  unfolding merge_snapshot
  end_arrives now code l start t n r whole =
      let u : Transfer = record t { complete = true } in
      let m : Node = update_link l (set_transfer q net cid u) n in
      let a : Receiving q net cid l start u m = transferred q net cid l start t u n r in
      let x = a.link in
      let y : Node = update_link l (start_merging q net) m in
      let e : y ≡ set_link l (start_merging q net x) m =
        update_known l (start_merging q net) m x a.found in
      (
        merge_snapshot q net l cid (arrived t.owner t.operations) m,
        handle_ends q net cid now code l n r.link r.found r.greeted
            ∙ rw (r.going, (nat_eq.beq_iff (length t.operations) t.count).1 whole) refl,
        ap₂ (λ ms es. validates l cid (arrived t.owner t.operations) (lookup cid ms) ∷ es) a.same
            (ap (λ (z : Node). z.out) e ∙ a.quiet),
        ap (λ (z : Node). z.models) e ∙ a.same,
      )

  -- What the end of a transfer is to show.
  abbrev pub Validates : ℕ → Node → Text → List (Option Operation) → Outcome → Type 0
  Validates l start owner ops o =
      (k : Node) × (o ≡ returns k)
      × (k.out ≡ validates l cid (arrived owner ops) (lookup cid start.models) ∷ start.out)
      × (k.models ≡ start.models)

  pub operations_arrive :
      (now : ℕ) (code : Text) (l : ℕ) (start : Node) (ops : List (Option Operation)) (t : Transfer)
      (n : Node)
      → Receiving q net cid l start t n
      → length t.operations + length ops ≡ t.count
      → t.bytes + size_of_all net ops ≤ max_metadata_bytes
      → buffered start.links + (t.bytes + size_of_all net ops) ≤ 2 * max_metadata_bytes
      → Validates l start t.owner
          (t.operations ++ ops)
          (read_messages q net now code l (operation_objects q net cid ops) n)
  operations_arrive now code l start [] t n r whole small fits =
      let (k, e, f, g) = end_arrives now code l start t n r (omega (arith, whole)) in
      (
        k,
        read_last now code l (message (codes "state-end") cid) n k e,
        subst
            (λ ops.
              k.out ≡ validates l cid (arrived t.owner ops) (lookup cid start.models) ∷ start.out)
            (sym (append-nil t.operations)) f,
        g,
      )
  operations_arrive now code l start (op ∷ ops) t n r whole small fits =
      let (k, e, a) =
        operation_arrives q net cid now code l start t op n r (omega (arith, whole))
          (omega (arith, small)) (omega (arith, fits)) in
      let v = with_operation q net op (counted q net op t) in
      let (z, f, g, h) =
        operations_arrive now code l start ops v k a
          (omega (arith, whole, length-append t.operations (op ∷ []))) (omega (arith, small))
          (omega (arith, fits)) in
      (
        z,
        read_on_after now code l (operation_object q net cid op) (operation_objects q net cid ops) n
              k a.link e a.found a.free
            ∙ f,
        subst
            (λ os.
              z.out ≡ validates l cid (arrived t.owner os) (lookup cid start.models) ∷ start.out)
            (append_assoc t.operations (op ∷ []) ops) g,
        h,
      )

  pub begin_arrives :
      (now : ℕ) (code : Text) (l : ℕ) (m : Model) (n : Node) (link : Link)
      → lookup l n.links ≡ some link
      → link.hello ≡ true
      → link.merging ≡ false
      → (contains n.models cid || contains n.pending cid) ≡ true
      → lookup cid link.snapshots ≡ none
      → length link.snapshots < 64
      → expected_owner q net cid n ≡ m.owner
      → 0 < length m.operations
      → length m.operations ≤ max_operations
      → (k : Node) × (handle q net now code l (begin_object q net cid m) n ≡ returns k)
        × Receiving q net cid l n (new_transfer q net now m.owner (length m.operations)) k
  unfolding handle_state_begin
  begin_arrives now code l m n link found hello free known idle room owner some_ops few =
      let t = new_transfer q net now m.owner (length m.operations) in
      let begun : Node = update_link l (begin_synchronization now cid) n in
      let k : Node = update_link l (set_transfer q net cid t) begun in
      let x : Link = begin_synchronization now cid link in
      let y : Link = set_transfer q net cid t x in
      let e : begun ≡ set_link l x n =
        update_known l (begin_synchronization now cid) n link found in
      let f : lookup l begun.links ≡ some x =
        ap (λ (z : Node). lookup l z.links) e ∙ lookup-insert_self l x n.links in
      let g : k ≡ set_link l y begun = update_known l (set_transfer q net cid t) begun x f in
      let sum = λ (j : ℕ) (z : Link). bytes_among z.snapshots in
      (
        k,
        handle_begins q net cid now code l m n link found hello
            ∙ rw
                (
                  idle_link link idle,
                  more_room q net cid (length link.snapshots) 64 room,
                  known_here (contains n.models cid) (contains n.pending cid) known,
                  within q net cid 1 (length m.operations) some_ops,
                  within q net cid (length m.operations) max_operations few,
                  (text_eq.beq_iff (expected_owner q net cid n) m.owner).1 owner,
                )
                refl,
        record {
          link = y;
          found = ap (λ (z : Node). lookup l z.links) g ∙ lookup-insert_self l y begun.links;
          greeted = hello;
          free = free;
          going = lookup-insert_self cid t link.snapshots;
          total =
              ap (λ (z : Node). buffered z.links) g
              ∙ omega (
                arith,
                ap (λ (z : Node). buffered z.links) e,
                sum_of-insert_old sum l x link n.links found,
                sum_of-insert_old sum l y x begun.links f,
                sum_of-insert_new (λ c (v : Transfer). v.bytes) cid t link.snapshots idle,
              );
          quiet = ap (λ (z : Node). z.out) g ∙ ap (λ (z : Node). z.out) e;
          same = ap (λ (z : Node). z.models) g ∙ ap (λ (z : Node). z.models) e;
        },
      )
    where
      known_here : (a b : Bool) → (a || b) ≡ true → (not a && not b) ≡ false
      known_here a b h = ground arith

      idle_link :
          (link : Link) → lookup cid link.snapshots ≡ none → contains link.snapshots cid ≡ false
      idle_link link h = rw h refl
