-- ===== src/Community/Node/Packing.antt =====
-- Node: what holds of a node through the packets and frames that it sends.
use disquisition.Common.{
  ℕ, zero, suc, ◌+◌, inl, inr, Bool, not, ◌&&◌, ◌||◌, List, [], ◌∷◌, Text, text_eq, nat_eq, ◌==◌,
  if◌then◌else◌, Option-cases, if_case, nat_beq, ltb, length, codes,
}
use disquisition.Common.Maps.{lookup}
use disquisition.Community.Model.{Toolkit}
use disquisition.Community.Node.{
  Message, Link, Packet, Node, Network, Outcome, returns, throws, node_of,
}
use disquisition.Community.Node.Packets.{is_body, max_screen_chunks}
use disquisition.Relay.Router.{is_peer_id}
use disquisition.Community.Node.Sending.{
  send_packet, send_packet_each, send_packet_to, send_chunks, send_screen_frame, queue_video,
  if_sent, stamped, is_sendable, belongs_in_channel, any_bad_chunk,
}
use disquisition.Community.Node.Sends.{
  update_link_keeps, send_keeps, returns_keeps, throws_keeps, then_keeps, if_keeps,
}
use disquisition.Community.Node.Keeps.{Stable}
use disquisition.Community.Node.Connections.{pump_video_keeps}

module _ (q : Toolkit) (net : Network) (P : Node → Type 0) (s : Stable q net P) where
  queue_video_keeps :
      (l : ℕ) (msg : Message) (link : Link) (n : Node)
      → P n
      → P (node_of (queue_video q net l msg link n))
  unfolding queue_video
  queue_video_keeps l msg link n h =
      if_keeps q net P s.sends _ _ _ (returns_keeps q net P s.sends n h) (
        if_keeps q net P s.sends _ _ _ (throws_keeps q net P s.sends _ n h) (
          returns_keeps q net P s.sends _
            (pump_video_keeps q net P s l _ (update_link_keeps q net P s.sends l _ n h))))

  send_packet_to_keeps :
      (cid channel type : Text) (d : Packet) (check : Bool) (l : ℕ) (link : Link) (n : Node)
      → P n
      → P (node_of (send_packet_to q net cid channel type d check l link n))
  unfolding send_packet_to
  send_packet_to_keeps cid channel type d check l link n h =
      if_keeps q net P s.sends _ _ _ (returns_keeps q net P s.sends n h) (
        if_keeps q net P s.sends _ _ _ (queue_video_keeps l _ link n h)
          (send_keeps q net P s.sends l _ n h))

  send_packet_each_keeps :
      (cid channel type : Text) (d : Packet) (check : Bool) (ps : List (Text × ℕ)) (n : Node)
      → P n
      → P (node_of (send_packet_each q net cid channel type d check ps n).0)
  unfolding send_packet_each
  send_packet_each_keeps cid channel type d check [] n h = returns_keeps q net P s.sends n h
  send_packet_each_keeps cid channel type d check ((p, l) ∷ ps) n h =
      elim (Option-cases (lookup l n.links)) [
        | inl e ↦ rw (e, send_packet_each) (send_packet_each_keeps cid channel type d check ps n h)
        | inr (link, e) ↦
            let g = send_packet_to_keeps cid channel type d check l link n h in
            rw (e, send_packet_each)
              (then_keeps q net P s.sends (send_packet_to q net cid channel type d check l link n) _
                g (λ _ _. send_packet_each_keeps cid channel type d check ps _ g))
      ]

  pub send_packet_keeps :
      (now : ℕ) (fresh cid channel type : Text) (d : Packet) (check : Bool) (n : Node)
      → P n
      → P (node_of (send_packet q net now fresh cid channel type d check n).0)
  unfolding send_packet node_of
  send_packet_keeps now fresh cid channel type d check n h =
      let kept : Outcome × ℕ → Type 0 = λ r. P (node_of r.0) in
      if_case kept (not (is_sendable q net cid channel type n)) (λ _. h)
        (λ _.
          if_case kept (not (belongs_in_channel q net cid channel type n)) (λ _. h)
            (λ _.
              if_case kept (type == codes "chat" && not (is_body q net d.body)) (λ _. h)
                (λ _.
                  send_packet_each_keeps cid channel type (stamped q net now fresh d) check n.peers
                    n h)))

  if_sent_keeps :
      (r : Outcome × ℕ) (f : Node → Outcome × Bool)
      → P (node_of r.0)
      → ((n : Node) → P n → P (node_of (f n).0))
      → P (node_of (if_sent q net r f).0)
  unfolding node_of
  if_sent_keeps (throws e n, k) f h g = h
  if_sent_keeps (returns n, zero) f h g = h
  if_sent_keeps (returns n, suc k) f h g = g n h

  send_chunks_keeps :
      (now : ℕ) (ids : List Text) (cid channel type peer : Text) (frame : ℕ) (keyframe : Bool)
      (index count : ℕ) (cs : List Text) (n : Node)
      → P n
      → P (
          node_of
            (send_chunks q net now ids cid channel type peer frame keyframe index count cs n).0)
  unfolding send_chunks
  send_chunks_keeps now ids cid channel type peer frame keyframe index count [] n h =
      returns_keeps q net P s.sends n h
  send_chunks_keeps now ids cid channel type peer frame keyframe index count (c ∷ cs) n h =
      if_sent_keeps _ _ (send_packet_keeps now _ cid channel type _ _ n h)
        (send_chunks_keeps now ids cid channel type peer frame keyframe (index + 1) count cs)

  pub send_screen_frame_keeps :
      (now : ℕ) (ids : List Text) (cid channel peer : Text) (frame : ℕ) (chunks : List Text)
      (keyframe camera : Bool) (n : Node)
      → P n
      → P (
          node_of
            (send_screen_frame q net now ids cid channel peer frame chunks keyframe camera n).0)
  unfolding send_screen_frame node_of
  send_screen_frame_keeps now ids cid channel peer frame chunks keyframe camera n h =
      if_case (λ (r : Outcome × Bool). P (node_of r.0))
        (not (is_peer_id peer)
          || (nat_beq (length chunks) 0
              || (ltb max_screen_chunks (length chunks) || any_bad_chunk q net chunks)))
        (λ _. h)
        (λ _.
          send_chunks_keeps now ids cid channel (if camera then codes "camera" else codes "screen")
            peer frame keyframe 0 (length chunks) chunks n h)
