-- ===== src/Community/Node/Snapshots.antt =====
-- Node: what one node sends of a community is what the other has validated.
use disquisition.Common.{
  ℕ, suc, ◌+◌, ◌*◌, ◌≤◌, ◌<◌, ◌≡◌, refl, sym, ◌∙◌, ap, subst, true, false, not, ◌||◌, Option, none,
  some, List, [], ◌∷◌, arith, Text, text_eq, nat_eq, codes, ltb, nat_beq, length, if_case,
}
use disquisition.Common.Maps.{lookup}
use disquisition.Community.Model.{Operation, Toolkit, max_metadata_bytes, max_operations}
use disquisition.Community.Model.Log.{contains}
use disquisition.Community.Model.State.{Model}
use disquisition.Community.Model.Changes.{all_operations}
use disquisition.Community.Node.{
  Message, message, Link, Effect, sent, Node, Network, Outcome, returns, throws, node_of, ◌▸◌,
  max_packet_bytes,
}
use disquisition.Community.Node.Base.{note, set_link, update_link, begin_synchronization, send}
use disquisition.Community.Node.Sync.{
  send_operations, send_state, operation_object, begin_object, may_send_state,
}
use disquisition.Community.Node.Transfers.{expected_owner, buffered}
use disquisition.Community.Node.Connect.{read_messages}
use disquisition.Common.Maps.{lookup-insert_self}
use disquisition.Community.Node.Arrival.{size_of_all, operation_objects, state_objects}
use disquisition.Community.Node.Reception.{
  Validates, read_on_after, begin_arrives, operations_arrive,
}

-- The messages, sent one after the other.
abbrev pub sent_all : ℕ → List Message → List Effect → List Effect
sent_all l [] out = out
sent_all l (msg ∷ msgs) out = sent_all l msgs (sent l msg ∷ out)

then_returns :
    (o : Outcome) (f : Node → Outcome) (k : Node)
    → (o ▸ f) ≡ returns k
    → (n : Node) × (o ≡ returns n) × (f n ≡ returns k)
unfolding ◌▸◌
then_returns (returns n) f k h = (n, refl, h)
then_returns (throws e n) f k h = cc

then_again :
    (o : Outcome) (f : Node → Outcome) (n k : Node)
    → o ≡ returns n
    → f n ≡ returns k
    → (o ▸ f) ≡ returns k
unfolding ◌▸◌
then_again o f n k e h = rw e h

returned : (n k : Node) → returns n ≡ returns k → n ≡ k
unfolding node_of
returned n k h = ap node_of h

-- A link with TLS on it.
abbrev pub IsSecure : ℕ → Node → Type 0
IsSecure l n = (link : Link) × (lookup l n.links ≡ some link) × (link.tls ≡ true)

module _ (q : Toolkit) (net : Network) where
  send_out :
      (l : ℕ) (msg : Message) (n k : Node)
      → IsSecure l n
      → send q net l msg n ≡ returns k
      → (k.out ≡ sent l msg ∷ n.out) × IsSecure l k
  unfolding send
  send_out l msg n k (x, found, tls) = rw found (
      if_case (λ o. o ≡ returns k → (k.out ≡ sent l msg ∷ n.out) × IsSecure l k) (not x.tls)
        (λ open_link h. absurd (ground (arith, open_link, tls)))
        (λ _.
          if_case (λ o. o ≡ returns k → (k.out ≡ sent l msg ∷ n.out) × IsSecure l k)
            (ltb (2 * max_metadata_bytes) x.backlog) (λ _ h. cc)
            (λ _.
              if_case (λ o. o ≡ returns k → (k.out ≡ sent l msg ∷ n.out) × IsSecure l k)
                (nat_beq (net.frame_size msg) 0 || ltb max_packet_bytes (net.frame_size msg))
                (λ _ h. cc)
                (λ _ h.
                  let y : Link = record x { backlog = x.backlog + (4 + net.frame_size msg) } in
                  let e = returned (note (sent l msg) (set_link l y n)) k h in
                  (
                    sym (ap (λ (z : Node). z.out) e),
                    (
                      y,
                      sym (ap (λ (z : Node). lookup l z.links) e) ∙ lookup-insert_self l y n.links,
                      tls,
                    ),
                  )))))

  begun :
      (now l : ℕ) (cid : Text) (n : Node)
      → IsSecure l n
      → (let k = update_link l (begin_synchronization now cid) n in (k.out ≡ n.out) × IsSecure l k)
  unfolding update_link
  begun now l cid n (x, found, tls) =
      let y : Link = begin_synchronization now cid x in
      rw (found, update_link) (refl, (y, lookup-insert_self l y n.links, tls))

  send_next :
      (now l : ℕ) (cid : Text) (msg : Message) (n k : Node)
      → IsSecure l n
      → send q net l msg (update_link l (begin_synchronization now cid) n) ≡ returns k
      → (k.out ≡ sent l msg ∷ n.out) × IsSecure l k
  send_next now l cid msg n k s h =
      let (same, t) = begun now l cid n s in
      let (e, u) = send_out l msg _ k t h in (e ∙ ap (λ es. sent l msg ∷ es) same, u)

  operations_out :
      (now l : ℕ) (cid : Text) (ops : List (Option Operation)) (n k : Node)
      → IsSecure l n
      → (send_operations q net now l cid ops n ▸ λ n.
          send q net l
            (message (codes "state-end") cid)
            (update_link l (begin_synchronization now cid) n))
        ≡ returns k
      → k.out ≡ sent_all l (operation_objects q net cid ops) n.out
  unfolding send_operations
  operations_out now l cid [] n k s h =
      let (m, e, f) = then_returns (returns n) _ k h in
      (send_next now l cid (message (codes "state-end") cid) n k s (
        subst
          (λ (z : Node).
            send q net l (message (codes "state-end") cid)
              (update_link l (begin_synchronization now cid) z)
            ≡ returns k)
          (sym (returned n m e)) f)).0
  operations_out now l cid (op ∷ ops) n k s h =
      let (m, e, f) = then_returns _ _ k h in
      let (z, d, g) = then_returns _ (send_operations q net now l cid ops) m e in
      let (one, t) = send_next now l cid (operation_object q net cid op) n z s d in
      operations_out now l cid ops z k t
        (then_again (send_operations q net now l cid ops z) _ m k g f)
      ∙ ap (sent_all l (operation_objects q net cid ops)) one

  state_out :
      (now l : ℕ) (cid : Text) (m : Model) (n k : Node)
      → IsSecure l n
      → lookup cid n.models ≡ some m
      → may_send_state q net cid (lookup l n.links) ≡ true
      → send_state q net now l cid n ≡ returns k
      → k.out ≡ sent_all l (state_objects q net cid m) n.out
  unfolding send_state
  state_out now l cid m n k s found may h =
      let whole = rw (may, found) at h in
      let (z, e, f) = then_returns _ _ k whole in
      let (y, d, g) =
        then_returns _ (send_operations q net now l cid (all_operations m.operations)) z e in
      let (one, t) = send_next now l cid (begin_object q net cid m) n y s d in
      operations_out now l cid (all_operations m.operations) y k t
        (then_again (send_operations q net now l cid (all_operations m.operations) y) _ z k g f)
      ∙ ap (sent_all l (operation_objects q net cid (all_operations m.operations))) one

  length-all_operations : (m : List (Text × Operation)) → length (all_operations m) ≡ length m
  length-all_operations [] = refl
  length-all_operations ((k, op) ∷ m) = ap suc (length-all_operations m)

  -- A node that can take a snapshot of the community in on a link.
  pub record Awaits (cid : Text) (m : Model) (l : ℕ) (n : Node) : Type 0 where
    pub link : Link
    pub found : lookup l n.links ≡ some link
    pub greeted : link.hello ≡ true
    pub free : link.merging ≡ false
    pub known : (contains n.models cid || contains n.pending cid) ≡ true
    pub idle : lookup cid link.snapshots ≡ none
    pub room : length link.snapshots < 64
    pub owner : expected_owner q net cid n ≡ m.owner
    pub some_ops : 0 < length m.operations
    pub few : length m.operations ≤ max_operations
    pub small : size_of_all net (all_operations m.operations) ≤ max_metadata_bytes
    pub fits :
        buffered n.links + size_of_all net (all_operations m.operations) ≤ 2 * max_metadata_bytes

  -- If a node sends the state of a community without an error, it has sent certain messages, in order; a node that knows
  -- of the community, with no transfer of it on the link and room for its operations, takes these in without an error,
  -- and then has a snapshot validated that holds exactly the sender's operations, against the model that it has.
  pub send_state-read :
      (now i : ℕ) (cid : Text) (m : Model) (s t : Node)
      → IsSecure i s
      → lookup cid s.models ≡ some m
      → may_send_state q net cid (lookup i s.links) ≡ true
      → send_state q net now i cid s ≡ returns t
      → (later : ℕ) (code : Text) (l : ℕ) (n : Node) → Awaits cid m l n
      → (msgs : List Message) × (t.out ≡ sent_all i msgs s.out)
        × Validates q net cid l n m.owner
            (all_operations m.operations)
            (read_messages q net later code l msgs n)
  send_state-read now i cid m s t secure here may sends later code l n a =
      let ops = all_operations m.operations in
      let count = length-all_operations m.operations in
      let (k, e, r) =
        begin_arrives q net cid later code l m n a.link a.found a.greeted a.free a.known a.idle
          a.room a.owner a.some_ops a.few in
      (
        state_objects q net cid m,
        state_out now i cid m s t secure here may sends,
        subst (Validates q net cid l n m.owner ops)
            (sym (
              read_on_after q net cid later code l (begin_object q net cid m)
                (operation_objects q net cid ops) n k r.link e r.found r.free))
            (operations_arrive q net cid later code l n ops _ k r (omega (arith, count))
              (omega (arith, a.small)) (omega (arith, a.fits))),
      )
