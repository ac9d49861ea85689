-- ===== src/Community/Node/Arrival.antt =====
-- Node: a snapshot that is sent arrives whole.
use disquisition.Common.{
  ℕ, ◌+◌, ◌*◌, ◌≤◌, ◌<◌, ◌≡◌, refl, sym, ◌∙◌, subst, true, false, Option, some, List, [], ◌∷◌,
  arith, Text, text_eq, nat_eq, codes, ltb, leb, length,
}
use disquisition.Common.Maps.{lookup, insert}
use disquisition.Community.Model.{Operation, Toolkit, max_metadata_bytes}
use disquisition.Community.Model.State.{Model}
use disquisition.Community.Model.Changes.{all_operations}
use disquisition.Community.Node.{Message, message, Transfer, Link, Node, Network, returns}
use disquisition.Community.Node.Base.{set_link, update_link, begin_synchronization}
use disquisition.Community.Node.Sync.{operation_object, begin_object}
use disquisition.Community.Node.Transfers.{
  handle_state_begin, handle_state_operation, handle_state_end, operation_found, end_found,
  set_transfer, counted, with_operation, buffered, bytes_among,
}
use disquisition.Community.Node.Handle.{handle_sync, handle_greeted, handle}
use disquisition.Common.{text_beq}
use disquisition.Common.Maps.{lookup-insert_self, sum_of-insert_old}

abbrev pub size_of_all : Network → List (Option Operation) → ℕ
size_of_all net [] = 0
size_of_all net (op ∷ ops) = net.operation_size op + size_of_all net ops

pub update_known :
    (l : ℕ) (f : Link → Link) (n : Node) (link : Link)
    → lookup l n.links ≡ some link
    → update_link l f n ≡ set_link l (f link) n
unfolding update_link
update_known l f n link e = rw (e, update_link) refl

module _ (q : Toolkit) (net : Network) (cid : Text) where
  abbrev pub operation_objects : List (Option Operation) → List Message
  operation_objects [] = message (codes "state-end") cid ∷ []
  operation_objects (op ∷ ops) = operation_object q net cid op ∷ operation_objects ops

  -- What `sendState` sends of a community.
  abbrev pub state_objects : Model → List Message
  state_objects m = begin_object q net cid m ∷ operation_objects (all_operations m.operations)

  pub handle_begins :
      (now : ℕ) (code : Text) (l : ℕ) (m : Model) (n : Node) (link : Link)
      → lookup l n.links ≡ some link
      → link.hello ≡ true
      → handle q net now code l (begin_object q net cid m) n
        ≡ handle_state_begin q net now l link (begin_object q net cid m) n
  unfolding handle handle_greeted handle_sync text_beq
  handle_begins now code l m n link e hello = rw (e, hello) refl

  handle_continues :
      (now : ℕ) (code : Text) (l : ℕ) (op : Option Operation) (n : Node) (link : Link)
      → lookup l n.links ≡ some link
      → link.hello ≡ true
      → handle q net now code l (operation_object q net cid op) n
        ≡ operation_found q net now l (operation_object q net cid op) n (lookup cid link.snapshots)
  unfolding handle handle_greeted handle_sync handle_state_operation text_beq
  handle_continues now code l op n link e hello = rw (e, hello) refl

  pub handle_ends :
      (now : ℕ) (code : Text) (l : ℕ) (n : Node) (link : Link)
      → lookup l n.links ≡ some link
      → link.hello ≡ true
      → handle q net now code l (message (codes "state-end") cid) n
        ≡ end_found q net l cid n (lookup cid link.snapshots)
  unfolding handle handle_greeted handle_sync handle_state_end text_beq
  handle_ends now code l n link e hello = rw (e, hello) refl

  -- The node in the middle of a transfer on link `l`: `start` is the node before it.
  pub record Receiving (l : ℕ) (start : Node) (t : Transfer) (n : Node) : Type 0 where
    pub link : Link
    pub found : lookup l n.links ≡ some link
    pub greeted : link.hello ≡ true
    pub free : link.merging ≡ false
    pub going : lookup cid link.snapshots ≡ some t
    pub total : buffered n.links ≡ buffered start.links + t.bytes
    pub quiet : n.out ≡ start.out
    pub same : n.models ≡ start.models

  -- A transfer that a link has changed.
  changed_transfer :
      (l : ℕ) (start : Node) (t u : Transfer) (n : Node) (r : Receiving l start t n)
      → (let k = r.link in
          Receiving l start u (set_link l (record k { snapshots = insert cid u k.snapshots }) n))
  changed_transfer l start t u n r =
      let x = r.link in
      let y : Link = record x { snapshots = insert cid u x.snapshots } in
      record {
        link = y;
        found = lookup-insert_self l y n.links;
        greeted = r.greeted;
        free = r.free;
        going = lookup-insert_self cid u x.snapshots;
        total = omega (
          arith,
          r.total,
          sum_of-insert_old (λ j (link : Link). bytes_among link.snapshots) l y x n.links r.found,
          sum_of-insert_old (λ c (v : Transfer). v.bytes) cid u t x.snapshots r.going,
        );
        quiet = r.quiet;
        same = r.same;
      }

  begun_again :
      (now l : ℕ) (start : Node) (t : Transfer) (n : Node)
      → Receiving l start t n
      → Receiving l start t (update_link l (begin_synchronization now cid) n)
  begun_again now l start t n r =
      let x = r.link in
      let y : Link = begin_synchronization now cid x in
      subst (Receiving l start t) (sym (update_known l (begin_synchronization now cid) n x r.found))
        (record {
          link = y;
          found = lookup-insert_self l y n.links;
          greeted = r.greeted;
          free = r.free;
          going = r.going;
          total = omega (
            arith,
            r.total,
            sum_of-insert_old (λ j (link : Link). bytes_among link.snapshots) l y x n.links r.found,
          );
          quiet = r.quiet;
          same = r.same;
        })

  pub transferred :
      (l : ℕ) (start : Node) (t u : Transfer) (n : Node)
      → Receiving l start t n
      → Receiving l start u (update_link l (set_transfer q net cid u) n)
  transferred l start t u n r =
      subst (Receiving l start u) (sym (update_known l (set_transfer q net cid u) n r.link r.found))
        (changed_transfer l start t u n r)

  pub within : (a b : ℕ) → a ≤ b → ltb b a ≡ false
  within a b h = ground arith

  pub more_room : (a b : ℕ) → a < b → leb b a ≡ false
  more_room a b h = ground arith

  -- One operation.
  pub operation_arrives :
      (now : ℕ) (code : Text) (l : ℕ) (start : Node) (t : Transfer) (op : Option Operation)
      (n : Node)
      → Receiving l start t n
      → length t.operations < t.count
      → t.bytes + net.operation_size op ≤ max_metadata_bytes
      → buffered start.links + (t.bytes + net.operation_size op) ≤ 2 * max_metadata_bytes
      → (k : Node) × (handle q net now code l (operation_object q net cid op) n ≡ returns k)
        × Receiving l start (with_operation q net op (counted q net op t)) k
  operation_arrives now code l start t op n r few small fits =
      let u = counted q net op t in
      let v = with_operation q net op u in
      let noted : Node = update_link l (set_transfer q net cid u) n in
      let a : Receiving l start u noted = transferred l start t u n r in
      let f : ltb (2 * max_metadata_bytes) (buffered noted.links) ≡ false =
        within (buffered noted.links) (2 * max_metadata_bytes) (rw a.total fits) in
      (
        update_link l (begin_synchronization now cid)
            (update_link l (set_transfer q net cid v) noted),
        handle_continues now code l op n r.link r.found r.greeted
            ∙ rw
                (
                  r.going,
                  more_room (length t.operations) t.count few,
                  within (t.bytes + net.operation_size op) max_metadata_bytes small,
                  f,
                )
                refl,
        begun_again now l start v _ (transferred l start u v noted a),
      )
