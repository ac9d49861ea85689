-- ===== src/Community/Node/Withdrawal.antt =====
-- Node: after a community is broadcast, the links of those who are not its members have no access to it.
use disquisition.Common.{
  ℕ, ◌*◌, ◌≡◌, inl, inr, refl, sym, ◌∙◌, ap, subst, Bool, true, false, not, ◌&&◌, ◌||◌, Option,
  none, some, List, [], ◌∷◌, Text, text_eq, nat_eq, ◌==◌, beq_refl, ltb, nat_beq, Bool-cases,
  Option-cases, if_case,
}
use disquisition.Common.Maps.{lookup}
use disquisition.Common.Sets.{has, exclude}
use disquisition.Community.Model.{Operation, Toolkit, max_metadata_bytes}
use disquisition.Community.Model.Log.{or_else}
use disquisition.Community.Model.State.{Model}
use disquisition.Community.Model.Changes.{all_operations}
use disquisition.Community.Node.{
  Message, Link, Effect, Node, Network, returns, node_of, max_packet_bytes,
}
use disquisition.Community.Node.Outcomes.{
  node_of-then, Ends, Ends-then, Ends-all, Ends-returns, Ends-next,
}
use disquisition.Community.Node.Base.{
  note, set_link, update_link, allow, begin_synchronization, withdraw, belongs, writable, send,
  each_peer,
}
use disquisition.Community.Node.Sync.{
  send_operations, send_snapshot, send_state, broadcast_to, broadcast_state, may_send_state,
}
use disquisition.Common.Maps.{lookup-insert}
use disquisition.Common.Sets.{has-exclude}
use disquisition.Community.Node.Links.{EveryLink, insert-EveryLink}

-- A predicate that is not broken when a link has more to write, or is marked as exchanging operations.
pub record Local (P : Node → Type 0) : Type 0 where
  pub on_out : (e : Effect) (n : Node) → P n → P (note e n)
  pub on_link :
      (n : Node) (l : ℕ) (link : Link) (b : ℕ) (sy : List (Text × ℕ))
      → lookup l n.links ≡ some link
      → P n
      → P (set_link l (record link { backlog = b; synchronizing = sy }) n)

module _ (q : Toolkit) (net : Network) (P : Node → Type 0) (s : Local P) where
  send_local : (l : ℕ) (msg : Message) (n : Node) → P n → P (node_of (send q net l msg n))
  unfolding send node_of
  send_local l msg n h = elim (Option-cases (lookup l n.links)) [
    | inl e ↦ rw e h
    | inr (link, e) ↦ rw e (
        if_case (λ o. P (node_of o)) (not link.tls) (λ _. h)
          (λ _.
            if_case (λ o. P (node_of o)) (ltb (2 * max_metadata_bytes) link.backlog) (λ _. h)
              (λ _.
                if_case (λ o. P (node_of o))
                  (nat_beq (net.frame_size msg) 0 || ltb max_packet_bytes (net.frame_size msg))
                  (λ _. h) (λ _. s.on_out _ _ (s.on_link n l link _ link.synchronizing e h)))))
  ]

  begin_local :
      (now l : ℕ) (cid : Text) (n : Node)
      → P n
      → P (update_link l (begin_synchronization now cid) n)
  unfolding update_link
  begin_local now l cid n h = elim (Option-cases (lookup l n.links)) [
    | inl e ↦ rw (e, update_link) h
    | inr (link, e) ↦ rw (e, update_link) (s.on_link n l link link.backlog _ e h)
  ]

  operations_local :
      (now l : ℕ) (cid : Text) (ops : List (Option Operation)) (n : Node)
      → P n
      → P (node_of (send_operations q net now l cid ops n))
  unfolding send_operations
  operations_local now l cid [] n h = unfold node_of in h
  operations_local now l cid (op ∷ ops) n h =
      node_of-then P _ (send_operations q net now l cid ops)
        (send_local l _ _ (begin_local now l cid n h)) (operations_local now l cid ops)

  snapshot_local :
      (now l : ℕ) (cid : Text) (o : Option Model) (n : Node)
      → P n
      → P (node_of (send_snapshot q net now l cid o n))
  snapshot_local now l cid none n h = unfold node_of in h
  snapshot_local now l cid (some m) n h =
      node_of-then P _ _
        (node_of-then P _ (send_operations q net now l cid (all_operations m.operations))
          (send_local l _ _ (begin_local now l cid n h)) (operations_local now l cid _))
        (λ k g. send_local l _ _ (begin_local now l cid k g))

  state_local :
      (now l : ℕ) (cid : Text) (n : Node) → P n → P (node_of (send_state q net now l cid n))
  unfolding send_state
  state_local now l cid n h =
      if_case (λ o. P (node_of o)) (may_send_state q net cid (lookup l n.links))
        (λ _. snapshot_local now l cid (lookup cid n.models) n h) (λ _. unfold node_of in h)

-- Access of a link.
abbrev pub IsShut : Text → Link → Type 0
IsShut cid link = (has cid link.allowed ≡ false) × (has cid link.ready ≡ false)

-- Of the links that were looked at, those of others than members are shut.
abbrev ShutAmong : (Text → Bool) → Text → List ℕ → ℕ → Link → Type 0
ShutAmong member cid done j link = has j done ≡ true → member link.peer ≡ false → IsShut cid link

abbrev pub links_of : List (Text × ℕ) → List ℕ
links_of [] = []
links_of ((p, l) ∷ ps) = l ∷ links_of ps

module _ (q : Toolkit) (net : Network) (now : ℕ) (cid : Text) (start : Node) where
  abbrev member : Text → Bool
  member peer = belongs q net cid start.self start && belongs q net cid peer start

  abbrev SoFar : List ℕ → Node → Type 0
  SoFar done n =
      (n.models ≡ start.models) × (n.self ≡ start.self) × EveryLink (ShutAmong member cid done) n

  SoFar-Local : (done : List ℕ) → Local (SoFar done)
  SoFar-Local done = record {
    on_out = λ e n h. h;
    on_link = λ n l link b sy e h.
        (h.0, h.1, insert-EveryLink (ShutAmong member cid done) l _ n h.2 (h.2 l link e));
  }

  -- One more link, that is shut or a member's.
  one_more :
      (done : List ℕ) (l : ℕ) (link : Link) (n : Node)
      → SoFar done n
      → (member link.peer ≡ false → IsShut cid link)
      → SoFar (l ∷ done) (set_link l link n)
  unfolding has
  one_more done l link n h f = (
    h.0,
    h.1,
    λ j x e. elim (Bool-cases (l == j)) [
      | inl same ↦
          let r : some link ≡ some x = rw (lookup-insert l j link n.links, same) at e in
          λ _. subst (λ y. member y.peer ≡ false → IsShut cid y) (ap (or_else link) r) f
      | inr other ↦ λ d. h.2 j x (rw (lookup-insert l j link n.links, other) at e) (rw other at d)
    ],
  )

  no_more :
      (done : List ℕ) (l : ℕ) (n : Node)
      → SoFar done n
      → lookup l n.links ≡ none
      → SoFar (l ∷ done) n
  unfolding has
  no_more done l n h gone = (
    h.0,
    h.1,
    λ j x e d. elim (Bool-cases (l == j)) [
      | inl same ↦ absurd (cc (ap (λ i. lookup i n.links) ((nat_eq.beq_iff l j).0 same)))
      | inr other ↦ h.2 j x e (rw other at d)
    ],
  )

  writable_member :
      (n : Node) (link : Link) (done : List ℕ)
      → SoFar done n
      → writable q net link cid n ≡ member link.peer
  unfolding writable belongs
  writable_member n link done h = rw (h.0, h.1) refl

  excluded : (s : List Text) → has cid (exclude cid s) ≡ false
  excluded s = rw (has-exclude cid cid s, beq_refl cid) refl

  broadcast_one :
      (done : List ℕ) (l : ℕ) (link : Link) (n : Node)
      → lookup l n.links ≡ some link
      → SoFar done n
      → Ends (SoFar (l ∷ done)) (broadcast_to q net now cid l link n)
  unfolding broadcast_to update_link node_of Ends
  broadcast_one done l link n e h =
      if_case (Ends (SoFar (l ∷ done))) (writable q net link cid n)
        (λ yes_member.
          let allowed : SoFar (l ∷ done) (update_link l (allow cid) n) =
            rw (e, update_link)
              (one_more done l _ n h
                (λ none_member. absurd (cc (writable_member n link done h)))) in
          Ends-all (SoFar (l ∷ done)) _
            (state_local q net (SoFar (l ∷ done)) (SoFar-Local (l ∷ done)) now l cid _ allowed))
        (λ _.
          Ends-then (SoFar done) (SoFar (l ∷ done)) _ _
            (if_case (λ o. SoFar done (node_of o)) (has cid link.allowed) {y = returns n}
              (λ _. state_local q net (SoFar done) (SoFar-Local done) now l cid n h) (λ _. h))
            (λ k g. elim (Option-cases (lookup l k.links)) [
              | inl gone ↦ rw (gone, update_link) (no_more done l k g gone)
              | inr (x, found) ↦
                  rw (found, update_link)
                    (one_more done l (withdraw cid x) k g
                      (λ _. (excluded x.allowed, excluded x.ready)))
            ]))

  broadcast_each :
      (ps : List (Text × ℕ)) (done : List ℕ) (n : Node)
      → SoFar done n
      → ((j : ℕ)
          → has j (links_of ps) ≡ false
          → has j (links_of start.peers) ≡ true
          → has j done ≡ true)
      → Ends (SoFar (links_of start.peers)) (each_peer q net (broadcast_to q net now cid) ps n)
  unfolding has Ends
  broadcast_each [] done n h all = (h.0, h.1, λ j x e d. h.2 j x e (all j refl d))
  broadcast_each ((p, l) ∷ ps) done n h all =
      let looked : (j : ℕ)
          → has j (links_of ps) ≡ false
          → has j (links_of start.peers) ≡ true
          → (nat_beq l j || has j done) ≡ true =
        λ j absent present. elim (Bool-cases (nat_beq l j)) [
          | inl same ↦ rw same refl
          | inr other ↦ rw other (all j (rw (other, absent) refl) present)
        ] in
      Ends-next (SoFar (l ∷ done)) (SoFar (links_of start.peers)) _
        (each_peer q net (broadcast_to q net now cid) ps)
        (elim (Option-cases (lookup l n.links)) [
          | inl gone ↦ rw gone (no_more done l n h gone)
          | inr (link, found) ↦ rw found (broadcast_one done l link n found h)
        ])
        (λ k g. broadcast_each ps (l ∷ done) k g looked)

-- Once a community has been broadcast, no link of a peer that is not a member of it is let in any more, or counts as up
-- to date.
pub broadcast_state-IsShut :
    (q : Toolkit) (net : Network) (now : ℕ) (cid : Text) (n k : Node)
    → broadcast_state q net now cid n ≡ returns k
    → (l : ℕ) (link : Link) → has l (links_of n.peers) ≡ true
    → lookup l k.links ≡ some link
    → writable q net link cid k ≡ false
    → IsShut cid link
unfolding broadcast_state has
broadcast_state-IsShut q net now cid n k e l link listed found barred =
    let start : SoFar q net now cid n [] n = (refl, refl, λ j x e d. absurd (cc d)) in
    let done =
      Ends-returns (SoFar q net now cid n (links_of n.peers))
        (each_peer q net (broadcast_to q net now cid) n.peers n) k
        (broadcast_each q net now cid n n.peers [] n start
          (λ j absent present. absurd (cc (sym absent ∙ present))))
        e in
    done.2 l link found listed
      (sym (writable_member q net now cid n k link (links_of n.peers) done) ∙ barred)
