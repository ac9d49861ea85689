-- ===== src/Community/Node/Election.antt =====
-- Node: of two connections between the same two peers, both keep the same one.
use disquisition.Common.{
  ℕ, ◌≡◌, inl, inr, refl, ◌∙◌, ap, subst, Bool, true, false, not, ◌&&◌, ◌||◌, some, arith, Text,
  text_eq, nat_eq, ◌==◌, beq_refl, nat_beq, if_case,
}
use disquisition.Common.Maps.{lookup, insert, erase}
use disquisition.Community.Model.{Toolkit, is_empty}
use disquisition.Community.Model.Log.{put}
use disquisition.Community.Node.{Message, Link, aborted, Node, Network, node_of}
use disquisition.Community.Node.Base.{note, set_link, send}
use disquisition.Community.Node.Sends.{send_keeps}
use disquisition.Common.Maps.{lookup-insert}
use disquisition.Community.Model.Union.{lookup-put}
use disquisition.Community.Node.Connect.{
  encrypted, keeps_old, prefers_outgoing, agrees, hello_object,
}
use disquisition.Community.Node.Links.{send_link}
use disquisition.Community.Model.Log.{text_ltb}
use disquisition.Community.Model.Union.{text_ltb_asym, text_cases}

-- Of the two connections, link `old` is the peer's, and TLS has come up on link `l`: one of them was begun here.
pub record Meeting (n : Node) (peer : Text) (l old : ℕ) : Type 0 where
  pub link : Link
  pub existing : Link
  pub found : lookup l n.links ≡ some link
  pub listed : lookup peer n.peers ≡ some old
  pub held : lookup old n.links ≡ some existing
  pub apart : nat_beq l old ≡ false
  pub proven : is_empty peer ≡ false
  pub another : (peer == n.self) ≡ false
  pub wanted : (is_empty link.expected || peer == link.expected) ≡ true
  pub opposite : agrees existing.outgoing link.outgoing ≡ false

-- The node holds the connection to a peer that was begun on the given side.
abbrev pub Holds : Node → Text → Bool → Type 0
Holds n peer outgoing =
    (j : ℕ) × (link : Link) × (lookup peer n.peers ≡ some j)
    × (lookup j n.links ≡ some link)
    × (link.outgoing ≡ outgoing)

module _ (q : Toolkit) (net : Network) where
  send-peers :
      (l : ℕ) (msg : Message) (n : Node)
      → (let k = node_of (send q net l msg n) in k.peers ≡ n.peers)
  send-peers l msg n =
      send_keeps q net (λ k. k.peers ≡ n.peers)
        (record { on_links = λ k ls h. h; on_note = λ e k d h. h }) l msg n refl

  greeted-Holds :
      (n m : Node) (peer : Text) (l : ℕ) (link : Link) (msg : Message)
      → m.links ≡ insert l link n.links
      → m.peers ≡ put peer l n.peers
      → Holds (node_of (send q net l msg m)) peer link.outgoing
  greeted-Holds n m peer l link msg e f =
      let here : lookup l m.links ≡ some link =
        ap (lookup l) e ∙ lookup-insert l l link n.links ∙ rw (beq_refl l) in
      let (b, still) = send_link q net l l msg m link here in
      (
        l,
        record link { backlog = b },
        ap (lookup peer) (send-peers l msg m ∙ f)
            ∙ lookup-put peer peer l n.peers
            ∙ rw (beq_refl peer),
        still,
        refl,
      )

  kept_old : (a b p : Bool) → agrees a b ≡ false → (agrees a p || not (agrees b p)) ≡ true → a ≡ p
  kept_old a b p apart kept = ground arith

  kept_new : (a b p : Bool) → agrees a b ≡ false → (agrees a p || not (agrees b p)) ≡ false → b ≡ p
  kept_new a b p apart kept = ground arith

  encrypted-Holds :
      (n : Node) (peer : Text) (l old : ℕ)
      → Meeting n peer l old
      → Holds (node_of (encrypted q net l peer n)) peer (text_ltb n.self peer)
  unfolding encrypted node_of keeps_old prefers_outgoing
  encrypted-Holds n peer l old m =
      let x = m.link in
      let known : Link = record x { tls = true; peer = peer } in
      let after : Node = set_link l known n in
      let old_link : lookup old after.links ≡ some m.existing =
        lookup-insert l old known n.links ∙ rw (m.apart) m.held in
      let begun : Node =
        note (aborted old)
          (record after { peers = put peer l n.peers; retries = erase known.route n.retries }) in
      rw m.found (
        rw (m.proven, m.another)
          (if_case (λ o. Holds (node_of o) peer (text_ltb n.self peer))
            (not (is_empty x.expected) && not (peer == x.expected))
            (λ bad. absurd (ground (arith, m.wanted, bad)))
            (λ _.
              rw (m.listed, m.held)
                (if_case (λ o. Holds (node_of o) peer (text_ltb n.self peer))
                  (agrees m.existing.outgoing (text_ltb n.self peer)
                    || not (agrees x.outgoing (text_ltb n.self peer)))
                  (λ kept. (old, m.existing, m.listed, old_link, kept_old _ _ _ m.opposite kept))
                  (λ kept.
                    subst
                      (λ b.
                        Holds (node_of (send q net l (hello_object q known begun) begun)) peer b)
                      (kept_new m.existing.outgoing x.outgoing (text_ltb n.self peer) m.opposite
                        kept)
                      (greeted-Holds n begun peer l known (hello_object q known begun) refl
                        refl))))))

  -- Two peers that have each connected to the other, whichever connection is up first on either side: each ends with the
  -- link that belongs to the connection that the peer with the smaller id has begun, so they hold the same one.
  pub encrypted-elects :
      (n m : Node) (l old k former : ℕ)
      → Meeting n m.self l old
      → Meeting m n.self k former
      → (b : Bool) × (b ≡ text_ltb n.self m.self)
        × Holds (node_of (encrypted q net l m.self n)) m.self b
        × Holds (node_of (encrypted q net k n.self m)) n.self (not b)
  encrypted-elects n m l old k former a b = (
    text_ltb n.self m.self,
    refl,
    encrypted-Holds n m.self l old a,
    subst (λ o. Holds (node_of (encrypted q net k n.self m)) n.self o)
        (other_side n.self m.self a.another) (encrypted-Holds m n.self k former b),
  )
    where
      other_side : (s t : Text) → (t == s) ≡ false → text_ltb t s ≡ not (text_ltb s t)
      other_side s t apart = elim (text_cases s t) [
        | inl e ↦ absurd (cc (rw (e, beq_refl t) at apart))
        | inr (inl e) ↦ rw (e, text_ltb_asym s t e) refl
        | inr (inr e) ↦ rw (e, text_ltb_asym t s e) refl
      ]
