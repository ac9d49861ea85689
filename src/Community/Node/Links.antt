-- ===== src/Community/Node/Links.antt =====
-- Node: what sending does to links.
use disquisition.Common.{
  ℕ, ◌+◌, ◌*◌, ◌≡◌, inl, inr, sym, ◌∙◌, ap, subst, not, ◌||◌, some, text_eq, nat_eq, ◌==◌, ltb,
  nat_beq, Bool-cases, Option-cases, if_case,
}
use disquisition.Common.Maps.{lookup, insert}
use disquisition.Community.Model.{Toolkit, max_metadata_bytes}
use disquisition.Community.Model.Log.{or_else}
use disquisition.Community.Node.{Message, Link, Node, Network, Outcome, node_of, max_packet_bytes}
use disquisition.Community.Node.Base.{set_link, update_link, send}
use disquisition.Common.Maps.{lookup-insert}

-- A predicate on all links.
abbrev pub EveryLink : (ℕ → Link → Type 0) → Node → Type 0
EveryLink F n = (j : ℕ) (link : Link) → lookup j n.links ≡ some link → F j link

pub insert-EveryLink :
    (F : ℕ → Link → Type 0) (l : ℕ) (link : Link) (n : Node)
    → EveryLink F n
    → F l link
    → EveryLink F (set_link l link n)
insert-EveryLink F l link n h f j x e = elim (Bool-cases (l == j)) [
  | inl same ↦
      let r : some link ≡ some x = rw (lookup-insert l j link n.links, same) at e in
      subst (λ i. F i x) ((nat_eq.beq_iff l j).0 same) (subst (λ y. F l y) (ap (or_else link) r) f)
  | inr other ↦ h j x (rw (lookup-insert l j link n.links, other) at e)
]

module _ (q : Toolkit) (net : Network) where
  pub update_link-EveryLink :
      (F : ℕ → Link → Type 0) (l : ℕ) (f : Link → Link) (n : Node)
      → EveryLink F n
      → ((link : Link) → F l link → F l (f link))
      → EveryLink F (update_link l f n)
  unfolding update_link
  update_link-EveryLink F l f n h k = elim (Option-cases (lookup l n.links)) [
    | inl e ↦ rw (e, update_link) h
    | inr (link, e) ↦ rw (e, update_link) (insert-EveryLink F l (f link) n h (k link (h l link e)))
  ]

  -- Sending only adds to what a link has still to write.
  pub send-EveryLink :
      (F : ℕ → Link → Type 0) (l : ℕ) (msg : Message) (n : Node)
      → EveryLink F n
      → ((j : ℕ) (link : Link) (b : ℕ) → F j link → F j (record link { backlog = b }))
      → EveryLink F (node_of (send q net l msg n))
  unfolding send node_of
  send-EveryLink F l msg n h k = elim (Option-cases (lookup l n.links)) [
    | inl e ↦ rw e h
    | inr (link, e) ↦ rw e (
        if_case (λ o. EveryLink F (node_of o)) (not link.tls) (λ _. h)
          (λ _.
            if_case (λ o. EveryLink F (node_of o)) (ltb (2 * max_metadata_bytes) link.backlog)
              (λ _. h)
              (λ _.
                if_case (λ o. EveryLink F (node_of o))
                  (nat_beq (net.frame_size msg) 0 || ltb max_packet_bytes (net.frame_size msg))
                  (λ _. h) (λ _. insert-EveryLink F l _ n h (k l link _ (h l link e))))))
  ]

  pub send_link :
      (l j : ℕ) (msg : Message) (n : Node) (link : Link)
      → lookup j n.links ≡ some link
      → (b : ℕ) × (let k = node_of (send q net l msg n) in
          lookup j k.links ≡ some (record link { backlog = b }))
  unfolding send node_of
  send_link l j msg n link h =
      let goal : Outcome → Type 0 = λ o.
        (b : ℕ) × (let k = node_of o in lookup j k.links ≡ some (record link { backlog = b })) in
      elim (Option-cases (lookup l n.links)) [
        | inl e ↦ rw e (link.backlog, h)
        | inr (x, e) ↦ rw e (
            if_case goal (not x.tls) (λ _. (link.backlog, h))
              (λ _.
                if_case goal (ltb (2 * max_metadata_bytes) x.backlog) (λ _. (link.backlog, h))
                  (λ _.
                    if_case goal
                      (nat_beq (net.frame_size msg) 0 || ltb max_packet_bytes (net.frame_size msg))
                      (λ _. (link.backlog, h))
                      (λ _. sent_link l j x n link h e (x.backlog + (4 + net.frame_size msg))))))
      ]
    where
      sent_link :
          (l j : ℕ) (x : Link) (n : Node) (link : Link)
          → lookup j n.links ≡ some link
          → lookup l n.links ≡ some x
          → (s : ℕ)
          → (b : ℕ) × (lookup j (insert l (record x { backlog = s }) n.links)
              ≡ some (record link { backlog = b }))
      sent_link l j x n link h e s = elim (Bool-cases (l == j)) [
        | inl same ↦
            let r : some x ≡ some link =
              sym e ∙ ap (λ i. lookup i n.links) ((nat_eq.beq_iff l j).0 same) ∙ h in
            (
              s,
              lookup-insert l j (record x { backlog = s }) n.links
                  ∙ rw same (ap (λ o. some (record (or_else x o) { backlog = s })) r),
            )
        | inr other ↦
            (link.backlog, lookup-insert l j (record x { backlog = s }) n.links ∙ rw other h)
      ]
