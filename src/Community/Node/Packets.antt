-- ===== src/Community/Node/Packets.antt =====
-- Node: the packets that members send one another: chat, images, voice, screens, drawing.
use disquisition.Common.{
  ℕ, zero, suc, ◌-◌, ◌*◌, ◌^◌, Bool, true, false, not, ◌&&◌, ◌||◌, Option, none, some, List, [],
  ◌∷◌, ◌++◌, Text, text_eq, nat_eq, codes, ◌==◌, ltb, leb, nat_beq, if◌then◌else◌, length,
}
use disquisition.Common.Maps.{lookup}
use disquisition.Common.Sets.{has, include, exclude}
use disquisition.Community.Model.{Toolkit, max_members, is_empty}
use disquisition.Community.Model.Log.{or_else, is_some}
use disquisition.Community.Node.{
  Presence, no_presence, Packet, Message, Link, packet_received, Node, Network,
}
use disquisition.Community.Node.Base.{note, belongs, mine_in}
use disquisition.Community.Node.Voice.{has_channel}

abbrev pub image_chunk_size : ℕ
image_chunk_size = 12 * 1024

abbrev pub screen_chunk_bytes : ℕ
screen_chunk_bytes = 16 * 1024 - 256

abbrev pub max_screen_chunks : ℕ
max_screen_chunks = 64

abbrev pub max_screen_audio_bytes : ℕ
max_screen_audio_bytes = 1500

abbrev pub packet_limit : ℕ
packet_limit = 24 * 1024

abbrev pub in_range : ℕ → ℕ → Option ℕ → Bool
in_range low high none = false
in_range low high (some v) = leb low v && leb v high

abbrev pub all_strings : List (Option Text) → Bool
all_strings [] = true
all_strings (p ∷ ps) = is_some p && all_strings ps

-- What keeps a packet from being taken twice: its link, its community and its id.
abbrev pub message_key : Text → Text → Text → Text
message_key peer cid id = peer ++ codes ":" ++ cid ++ codes ":" ++ id

module _ (q : Toolkit) (net : Network) where
  abbrev pub bytes_of : Packet → Text
  bytes_of d = q.from_base64 (or_else [] d.bytes)

  abbrev pub fits_packet : Packet → Bool
  fits_packet d = leb (net.packet_size d) packet_limit

  -- The number of an image of a sprite comes before the count of images.
  abbrev pub valid_index : ℕ → Option ℕ → Bool
  valid_index count none = false
  valid_index count (some i) = ltb i count

  abbrev pub sprite_counted : Option ℕ → Packet → Bool
  sprite_counted none d = false
  sprite_counted (some zero) d = not (is_some d.bytes)
  sprite_counted (some (suc c)) d =
      leb (suc c) 22
      && (valid_index (suc c) d.index
          && (in_range 0 (2 ^ 32 - 1) d.transfer
              && (not (is_empty (bytes_of d)) && leb (length (bytes_of d)) image_chunk_size)))

  unfoldable pub valid_sprite : Text → Packet → Bool
  valid_sprite channel d = is_empty channel && (fits_packet d && sprite_counted d.count d)

  abbrev pub is_body : Text → Bool
  is_body body = not (is_empty (net.trimmed body)) && leb (net.utf8_size body) 2000

  abbrev pub peers_fit : Option (List (Option Text)) → Packet → Bool
  peers_fit none d = false
  peers_fit (some ps) d = leb (length ps) max_members && (all_strings ps && fits_packet d)

  -- The kinds that go round a voice channel.
  unfoldable pub valid_media : Text → Packet → Presence → Presence → Text → Bool
  valid_media type d local remote self =
      let is_ours = d.target == self in
      if type == codes "audio"
      then not local.deafened && (not remote.muted && nat_beq (length (bytes_of d)) 640)
      else if type == codes "watch" || type == codes "watch-camera"
      then is_some d.enabled && is_ours
      else if type == codes "drawing"
      then is_ours && fits_packet d
      else if type == codes "camera"
      then is_ours && (remote.camera && fits_packet d)
      else if type == codes "screen"
      then remote.sharing && fits_packet d
      else if type == codes "viewers"
      then remote.sharing && peers_fit d.peers d
      else type == codes "screen-audio"
        && (remote.sharing
            && (not local.deafened
                && (is_ours
                    && (not (is_empty (bytes_of d))
                        && leb (length (bytes_of d)) max_screen_audio_bytes))))

  unfoldable pub valid_voice : Text → Text → Text → Packet → Text → Node → Bool
  valid_voice cid channel type d peer n =
      let local = mine_in q net cid n in
      let remote = or_else no_presence (lookup peer (or_else [] (lookup cid n.presence))) in
      has_channel q net cid channel (codes "voice") n
      && (local.voice_channel == channel
          && (remote.voice_channel == channel && valid_media type d local remote n.self))

  -- `validPacket` past the checks that every packet passes.
  unfoldable pub valid_kind : Text → Text → Text → Packet → Text → Node → Bool
  valid_kind cid channel type d peer n =
      if type == codes "sprite"
      then valid_sprite channel d
      else if type == codes "chat"
      then has_channel q net cid channel (codes "text") n && is_body d.body
      else if type == codes "image"
      then has_channel q net cid channel (codes "text") n && fits_packet d
      else valid_voice cid channel type d peer n

  unfoldable pub valid_packet : Text → Text → Text → Packet → Text → Node → Bool
  valid_packet cid channel type d peer n =
      belongs q net cid n.self n
      && (belongs q net cid peer n
          && (in_range 1 9007199254740991 d.timestamp
              && ((is_empty d.target || d.target == n.self)
                  && valid_kind cid channel type d peer n)))

  abbrev pub dropped_first : List Text → List Text → List Text × List Text
  dropped_first [] seen = ([], seen)
  dropped_first (k ∷ order) seen = (order, exclude k seen)

  unfoldable pub remember : Text → Node → Node
  remember key n =
      let seen = include key n.seen_messages in
      let order = n.message_order ++ key ∷ [] in
      let kept = if ltb 4096 (length order) then dropped_first order seen else (order, seen) in
      record n { message_order = kept.0; seen_messages = kept.1 }

  unfoldable pub receive_packet : Link → Message → Node → Node
  receive_packet link msg n =
      let key = message_key link.peer msg.community msg.packet.id in
      if leb (length msg.packet.id) 64
        && (not (is_empty msg.packet.id)
            && (not (has key n.seen_messages)
                && valid_packet msg.community msg.channel msg.kind msg.packet link.peer n))
      then note (packet_received msg.community msg.channel link.peer msg.kind msg.packet)
          (remember key n)
      else n
