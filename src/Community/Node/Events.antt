-- ===== src/Community/Node/Events.antt =====
-- Node: what holds of a node through its events.
use disquisition.Common.{ℕ, Bool, Option, List, [], ◌∷◌, Text}
use disquisition.Community.Model.{Details, Toolkit}
use disquisition.Community.Model.State.{Model, Snapshot}
use disquisition.Community.Node.{Message, Invite, Packet, Node, Network, node_of}
use disquisition.Community.Node.Voice.{set_voice, move_voice}
use disquisition.Community.Node.Merging.{merge_finished}
use disquisition.Community.Node.Keeps.{Stable}
use disquisition.Community.Node.Connect.{
  Chance, accept_link, encrypted, disconnected, read, written,
}
use disquisition.Community.Node.Tick.{tick}
use disquisition.Community.Node.Sending.{send_packet, send_screen_frame}
use disquisition.Community.Node.Commands.{edit, create_community, join_community, invite, stop}
use disquisition.Community.Node.Inputs.{read_keeps, merge_finished_keeps, edit_keeps}
use disquisition.Community.Node.Connections.{
  accept_link_keeps, encrypted_keeps, disconnected_keeps, written_keeps,
}
use disquisition.Community.Node.Timer.{tick_keeps}
use disquisition.Community.Node.Packing.{send_packet_keeps, send_screen_frame_keeps}
use disquisition.Community.Node.Calls.{
  create_community_keeps, join_community_keeps, invite_keeps, move_voice_keeps, stop_keeps,
}

-- What happens to a node: of its sockets, one comes in, its TLS is up, it has messages, it has written bytes, or it ends;
-- its timer fires, or the validation of a snapshot ends; or the program makes one of the calls that are modelled.
pub data Event : Type 0 where
  accepts : ℕ → Chance → Bool → Event
  encrypts : ℕ → Text → Event
  reads : ℕ → Text → ℕ → List Message → Event
  writes : ℕ → ℕ → Event
  disconnects : ℕ → Event
  fires : ℕ → Chance → Event
  merges : ℕ → ℕ → Text → Snapshot → Option Model → Event
  creates : ℕ → Text → Text → Text → Text → Event
  joins : ℕ → Chance → Option Invite → Event
  invites : ℕ → Text → Text → Event
  edits : ℕ → Text → Text → Details → Event
  speaks : Text → Text → Bool → Bool → Bool → Bool → Event
  moves : Text → Text → Text → Event
  sends_packet : ℕ → Text → Text → Text → Text → Packet → Bool → Event
  sends_frame : ℕ → List Text → Text → Text → Text → ℕ → List Text → Bool → Bool → Event
  stops : Event

module _ (q : Toolkit) (net : Network) where
  unfoldable pub occur : Event → Node → Node
  occur (accepts now chance has_socket) n = accept_link now chance has_socket n
  occur (encrypts l peer) n = node_of (encrypted q net l peer n)
  occur (reads now code l msgs) n = read q net now code l msgs n
  occur (writes l bytes) n = written q net l bytes n
  occur (disconnects l) n = disconnected q net l n
  occur (fires now chance) n = tick q net now chance n
  occur (merges now l cid s base) n = merge_finished q net now l cid s base n
  occur (creates now name id general lounge) n =
      node_of (create_community q net now name id general lounge n)
  occur (joins now chance link) n = node_of (join_community q net now chance link n)
  occur (invites now cid code) n = node_of (invite q net now cid code n).0
  occur (edits now cid kind details) n = node_of (edit q net now cid kind details n)
  occur (speaks cid channel muted deafened sharing camera) n =
      node_of (set_voice q net cid channel muted deafened sharing camera n)
  occur (moves cid peer channel) n = node_of (move_voice q net cid peer channel n)
  occur (sends_packet now fresh cid channel type d check) n =
      node_of (send_packet q net now fresh cid channel type d check n).0
  occur (sends_frame now ids cid channel peer frame chunks keyframe camera) n =
      node_of (send_screen_frame q net now ids cid channel peer frame chunks keyframe camera n).0
  occur stops n = stop q net n

  unfoldable pub occur_all : List Event → Node → Node
  occur_all [] n = n
  occur_all (e ∷ es) n = occur_all es (occur e n)

module _ (q : Toolkit) (net : Network) (P : Node → Type 0) (s : Stable q net P) where
  occur_keeps : (e : Event) (n : Node) → P n → P (occur q net e n)
  unfolding occur
  occur_keeps (accepts now chance b) n h = accept_link_keeps q net P s now chance b n h
  occur_keeps (encrypts l peer) n h = encrypted_keeps q net P s l peer n h
  occur_keeps (reads now code l msgs) n h = read_keeps q net P s now code l msgs n h
  occur_keeps (writes l bytes) n h = written_keeps q net P s l bytes n h
  occur_keeps (disconnects l) n h = disconnected_keeps q net P s l n h
  occur_keeps (fires now chance) n h = tick_keeps q net P s now chance n h
  occur_keeps (merges now l cid r base) n h = merge_finished_keeps q net P s now l cid r base n h
  occur_keeps (creates now name id a b) n h = create_community_keeps q net P s now name id a b n h
  occur_keeps (joins now chance link) n h = join_community_keeps q net P s now chance link n h
  occur_keeps (invites now cid code) n h = invite_keeps q net P s now cid code n h
  occur_keeps (edits now cid kind d) n h = edit_keeps q net P s now cid kind d n h
  occur_keeps (speaks cid channel a b c d) n h = s.on_voice n cid channel a b c d h
  occur_keeps (moves cid peer channel) n h = move_voice_keeps q net P s cid peer channel n h
  occur_keeps (sends_packet now fresh cid channel type d check) n h =
      send_packet_keeps q net P s now fresh cid channel type d check n h
  occur_keeps (sends_frame now ids cid channel peer frame chunks keyframe camera) n h =
      send_screen_frame_keeps q net P s now ids cid channel peer frame chunks keyframe camera n h
  occur_keeps stops n h = stop_keeps q net P s n h

  pub occur_all_keeps : (es : List Event) (n : Node) → P n → P (occur_all q net es n)
  unfolding occur_all
  occur_all_keeps [] n h = h
  occur_all_keeps (e ∷ es) n h = occur_all_keeps es _ (occur_keeps e n h)
