-- ===== src/Community/Node/Sends.antt =====
-- Node: what holds of a node while it sends.
use disquisition.Common.{
  ℕ, ◌*◌, ◌≡◌, inl, inr, refl, Bool, true, false, not, ◌||◌, List, [], ◌∷◌, Text, text_eq, nat_eq,
  ltb, nat_beq, if◌then◌else◌, Option-cases, if_case,
}
use disquisition.Common.Maps.{lookup}
use disquisition.Community.Model.{Toolkit, max_metadata_bytes}
use disquisition.Community.Node.{
  Message, Link, Effect, packet_received, Node, Network, Outcome, returns, throws, node_of, ◌▸◌,
  max_packet_bytes,
}
use disquisition.Community.Node.Outcomes.{node_of-then}
use disquisition.Community.Node.Base.{note, update_link, send, each_peer}

-- A packet that is handed on.
abbrev pub is_delivery : Effect → Bool
is_delivery (packet_received cid channel peer kind d) = true
is_delivery _ = false

-- A predicate that sending does not break.
pub record Sends (P : Node → Type 0) : Type 0 where
  pub on_links : (n : Node) (ls : List (ℕ × Link)) → P n → P (record n { links = ls })
  pub on_note : (e : Effect) (n : Node) → is_delivery e ≡ false → P n → P (note e n)

module _ (q : Toolkit) (net : Network) (P : Node → Type 0) (s : Sends P) where
  pub update_link_keeps : (l : ℕ) (f : Link → Link) (n : Node) → P n → P (update_link l f n)
  unfolding update_link
  update_link_keeps l f n h = elim (Option-cases (lookup l n.links)) [
    | inl e ↦ rw (e, update_link) h
    | inr (link, e) ↦ rw (e, update_link) (s.on_links n _ h)
  ]

  pub send_keeps : (l : ℕ) (msg : Message) (n : Node) → P n → P (node_of (send q net l msg n))
  unfolding send node_of
  send_keeps l msg n h = elim (Option-cases (lookup l n.links)) [
    | inl e ↦ rw e h
    | inr (link, e) ↦ rw e (
        if_case (λ o. P (node_of o)) (not link.tls) (λ _. h)
          (λ _.
            if_case (λ o. P (node_of o)) (ltb (2 * max_metadata_bytes) link.backlog) (λ _. h)
              (λ _.
                if_case (λ o. P (node_of o))
                  (nat_beq (net.frame_size msg) 0 || ltb max_packet_bytes (net.frame_size msg))
                  (λ _. h) (λ _. s.on_note _ _ refl (s.on_links n _ h)))))
  ]

  pub returns_keeps : (n : Node) → P n → P (node_of (returns n))
  unfolding node_of
  returns_keeps n h = h

  pub throws_keeps : (e : Text) (n : Node) → P n → P (node_of (throws e n))
  unfolding node_of
  throws_keeps e n h = h

  pub then_keeps :
      (o : Outcome) (f : Node → Outcome)
      → P (node_of o)
      → ((n : Node) → P n → P (node_of (f n)))
      → P (node_of (o ▸ f))
  then_keeps = node_of-then P

  pub if_keeps :
      (b : Bool) (o p : Outcome) → P (node_of o) → P (node_of p) → P (node_of (if b then o else p))
  if_keeps true o p h k = h
  if_keeps false o p h k = k

  pub each_peer_keeps :
      (f : ℕ → Link → Node → Outcome) (ps : List (Text × ℕ)) (n : Node)
      → ((l : ℕ) (link : Link) (m : Node) → P m → P (node_of (f l link m)))
      → P n
      → P (node_of (each_peer q net f ps n))
  each_peer_keeps f [] n k h = returns_keeps n h
  each_peer_keeps f ((p, l) ∷ ps) n k h =
      then_keeps _ (each_peer q net f ps)
        (elim (Option-cases (lookup l n.links)) [
          | inl e ↦ rw e (returns_keeps n h)
          | inr (link, e) ↦ rw e (k l link n h)
        ])
        (λ m g. each_peer_keeps f ps m k g)
