-- ===== src/Community/Node/Sending.antt =====
-- Node: sending packets, and the queue of video of a link.
use disquisition.Common.{
  ℕ, zero, suc, ◌+◌, ◌-◌, ◌*◌, Bool, true, false, not, ◌&&◌, ◌||◌, Option, none, some, List, [],
  ◌∷◌, ◌++◌, Text, text_eq, nat_eq, codes, ◌==◌, ltb, leb, nat_beq, if◌then◌else◌, length, get_or,
}
use disquisition.Common.Maps.{lookup}
use disquisition.Community.Model.{Toolkit, is_empty}
use disquisition.Community.Model.Log.{or_else, contains}
use disquisition.Community.Model.State.{Model}
use disquisition.Relay.Router.{is_peer_id}
use disquisition.Community.Node.{
  no_presence, Packet, no_packet, Message, message, Link, sent, Node, Network, Outcome, returns,
  throws, node_of, ◌▸◌, max_packet_bytes,
}
use disquisition.Community.Node.Base.{
  note, set_link, update_link, belongs, send, mine_in, is_online,
}
use disquisition.Community.Node.Voice.{has_channel}
use disquisition.Community.Node.Packets.{is_body, screen_chunk_bytes, max_screen_chunks}

module _ (q : Toolkit) (net : Network) where
  -- A frame of video waits in the link's queue, which is written while little is left to write.
  abbrev pub video_pace_bytes : ℕ
  video_pace_bytes = 16 * 1024

  abbrev pub framed_size : Message → ℕ
  framed_size msg = 4 + net.frame_size msg

  unfoldable pub pumped : List Message → Link → List Message × Link
  pumped [] link = ([], record link { video = [] })
  pumped (msg ∷ video) link =
      let rest = pumped video (record link {
        video_bytes = link.video_bytes - framed_size msg;
        backlog = link.backlog + framed_size msg;
      }) in
      if ltb link.backlog video_pace_bytes
      then (msg ∷ rest.0, rest.1)
      else ([], record link { video = msg ∷ video })

  abbrev pub note_sent : ℕ → List Message → Node → Node
  note_sent l [] n = n
  note_sent l (msg ∷ msgs) n = note_sent l msgs (note (sent l msg) n)

  abbrev pub pump_on : ℕ → Node → Option Link → Node
  pump_on l n none = n
  pump_on l n (some link) = let p = pumped link.video link in note_sent l p.0 (set_link l p.1 n)

  unfoldable pub pump_video : ℕ → Node → Node
  pump_video l n = pump_on l n (lookup l n.links)

  abbrev pub enqueue : Message → Link → Link
  enqueue msg link = record link {
    video = link.video ++ msg ∷ [];
    video_bytes = link.video_bytes + framed_size msg;
  }

  unfoldable pub queue_video : ℕ → Message → Link → Node → Outcome
  queue_video l msg link n =
      if not link.tls
      then returns n
      else if nat_beq (net.frame_size msg) 0 || ltb max_packet_bytes (net.frame_size msg)
      then throws (codes "community frame is too large") n
      else returns (pump_video l (update_link l (enqueue msg) n))

  abbrev pub has_any_channel : Option Model → Text → Bool
  has_any_channel none channel = false
  has_any_channel (some m) channel = contains m.channels channel

  abbrev pub belongs_in_channel : Text → Text → Text → Node → Bool
  belongs_in_channel cid channel type n =
      if type == codes "sprite"
      then is_empty channel
      else has_channel q net cid channel
          (if type == codes "chat" || type == codes "image" then codes "text" else codes "voice") n

  abbrev pub is_video : Text → Bool
  is_video type = type == codes "screen" || type == codes "camera"

  abbrev pub is_sound : Text → Bool
  is_sound type = type == codes "audio" || type == codes "screen-audio"

  -- Whether a link is sent a packet.
  unfoldable pub is_recipient : Text → Text → Text → Packet → Bool → Link → Node → Bool
  is_recipient cid channel type d check link n =
      is_online q net cid link n
      && ((is_empty d.target || d.target == link.peer)
          && ((not (has_channel q net cid channel (codes "voice") n)
                || (let local = mine_in q net cid n in
                    let remote =
                      or_else no_presence (lookup link.peer (or_else [] (lookup cid n.presence))) in
                    local.voice_channel == channel && remote.voice_channel == channel))
              && ((not (is_sound type) || leb link.backlog (64 * 1024))
                  && (not (is_video type && check)
                      || leb (link.backlog + link.video_bytes) (64 * 1024)))))

  abbrev pub packet_object : Text → Text → Text → Packet → Message
  packet_object cid channel type d = record (message (codes "packet") cid) {
    channel = channel;
    kind = type;
    packet = d;
  }

  unfoldable pub send_packet_to : Text → Text → Text → Packet → Bool → ℕ → Link → Node → Outcome
  send_packet_to cid channel type d check l link n =
      if not (is_recipient cid channel type d check link n)
      then returns n
      else if is_video type
      then queue_video l (packet_object cid channel type d) link n
      else send q net l (packet_object cid channel type d) n

  -- An id and a time, where the caller gave none.
  abbrev pub stamped : ℕ → Text → Packet → Packet
  stamped now fresh d = record d {
    id = if is_empty d.id then fresh else d.id;
    timestamp = some (or_else now d.timestamp);
  }

  abbrev pub is_sendable : Text → Text → Text → Node → Bool
  is_sendable cid channel type n =
      n.running
      && (belongs q net cid n.self n
          && (type == codes "sprite" || has_any_channel (lookup cid n.models) channel))

  -- To each peer, with the number that it went to.
  unfoldable pub send_packet_each :
      Text → Text → Text → Packet → Bool → List (Text × ℕ) → Node → Outcome × ℕ
  send_packet_each cid channel type d check [] n = (returns n, 0)
  send_packet_each cid channel type d check ((p, l) ∷ ps) n = elim (lookup l n.links) [
    | none ↦ send_packet_each cid channel type d check ps n
    | some link ↦
        let sent_to = send_packet_to cid channel type d check l link n in
        let rest = send_packet_each cid channel type d check ps (node_of sent_to) in
        let here = if is_recipient cid channel type d check link n then 1 else 0 in
        (sent_to ▸ λ _. rest.0, here + rest.1)
  ]

  unfoldable pub send_packet : ℕ → Text → Text → Text → Text → Packet → Bool → Node → Outcome × ℕ
  send_packet now fresh cid channel type d check n =
      if not (is_sendable cid channel type n)
      then (throws (codes "unknown channel") n, 0)
      else if not (belongs_in_channel cid channel type n)
      then (throws (codes "message does not belong in this channel") n, 0)
      else if type == codes "chat" && not (is_body q net d.body)
      then (throws (codes "messages must contain 1 to 2000 bytes") n, 0)
      else send_packet_each cid channel type (stamped now fresh d) check n.peers n

  -- Congestion may skip a frame, but no chunk of it past the first.
  abbrev pub chunk_packet : Text → ℕ → ℕ → ℕ → Bool → Text → Packet
  chunk_packet peer frame index count keyframe chunk = record no_packet {
    target = peer;
    frame = frame;
    index = some index;
    count = some count;
    keyframe = keyframe;
    bytes = some (net.to_base64 chunk);
  }

  abbrev pub any_bad_chunk : List Text → Bool
  any_bad_chunk [] = false
  any_bad_chunk (c ∷ cs) = is_empty c || (ltb screen_chunk_bytes (length c) || any_bad_chunk cs)

  abbrev pub if_sent : Outcome × ℕ → (Node → Outcome × Bool) → Outcome × Bool
  if_sent (throws e n, k) f = (throws e n, false)
  if_sent (returns n, zero) f = (returns n, false)
  if_sent (returns n, suc k) f = f n

  -- The id of each packet is random.
  unfoldable pub send_chunks :
      ℕ
      → List Text
      → Text
      → Text
      → Text
      → Text
      → ℕ
      → Bool
      → ℕ
      → ℕ
      → List Text
      → Node
      → Outcome × Bool
  send_chunks now ids cid channel type peer frame keyframe index count [] n = (returns n, true)
  send_chunks now ids cid channel type peer frame keyframe index count (c ∷ cs) n =
      if_sent
        (send_packet now (get_or ids index []) cid channel type
          (chunk_packet peer frame index count keyframe c) (nat_beq index 0) n)
        (send_chunks now ids cid channel type peer frame keyframe (index + 1) count cs)

  unfoldable pub send_screen_frame :
      ℕ → List Text → Text → Text → Text → ℕ → List Text → Bool → Bool → Node → Outcome × Bool
  send_screen_frame now ids cid channel peer frame chunks keyframe camera n =
      if not (is_peer_id peer)
        || (nat_beq (length chunks) 0
            || (ltb max_screen_chunks (length chunks) || any_bad_chunk chunks))
      then (throws (codes "invalid screen frame") n, false)
      else send_chunks now ids cid channel (if camera then codes "camera" else codes "screen") peer
          frame keyframe 0 (length chunks) chunks n
