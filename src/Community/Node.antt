-- ===== src/Community/Node.antt =====
-- community/node.cpp: the peer that holds the communities, its links to other peers, and what it does with their
-- messages. A link is a number that `links` looks up; what a handler does to sockets, to the store and to the program
-- around it is an effect, the newest first. An exception leaves the node as it was when it was thrown.
pub mod Outcomes
pub mod Base
pub mod Sync
pub mod Merging
pub mod Voice
pub mod Packets
pub mod Sending
pub mod Admission
pub mod Transfers
pub mod Invitations
pub mod Handle
pub mod Connect
pub mod Tick
pub mod Commands
pub mod Sends
pub mod Keeps
pub mod Joining
pub mod Messages
pub mod Alone
pub mod Inputs
pub mod Connections
pub mod Timer
pub mod Packing
pub mod Calls
pub mod Events
pub mod Window
pub mod Voices
pub mod Links
pub mod Election
pub mod Withdrawal
pub mod Arrival
pub mod Reception
pub mod Snapshots
pub mod Video
pub mod Routes
pub mod Dialling
mod Tests
use disquisition.Common.{
  ◌≡◌, subst, ℕ, ◌+◌, ◌*◌, Bool, true, false, Option, none, some, List, [], ◌∷◌, Text, text_eq,
  nat_eq, codes, ltb, if◌then◌else◌,
}
use disquisition.Community.Model.{Intent, Operation}
use disquisition.Community.Model.Log.{no_intent}
use disquisition.Community.Model.State.{Model, Snapshot}

pub record Presence : Type 0 where
  pub voice_channel : Text
  pub muted : Bool
  pub deafened : Bool
  pub sharing : Bool
  pub camera : Bool

abbrev pub no_presence : Presence
no_presence = record {
  voice_channel = [];
  muted = false;
  deafened = false;
  sharing = false;
  camera = false;
}

-- The `data` of a packet: `count`, `index` and `transfer` are there if they are whole numbers that are not negative, and
-- `timestamp` if it is a number that is not negative, rounded down; `payload` is what else the sender put in.
pub record Packet : Type 0 where
  pub id : Text
  pub timestamp : Option ℕ
  pub target : Text
  pub count : Option ℕ
  pub index : Option ℕ
  pub transfer : Option ℕ
  pub bytes : Option Text
  pub body : Text
  pub enabled : Option Bool
  pub peers : Option (List (Option Text))
  pub frame : ℕ
  pub keyframe : Bool
  pub payload : Text

abbrev pub no_packet : Packet
no_packet = record {
  id = [];
  timestamp = none;
  target = [];
  count = none;
  index = none;
  transfer = none;
  bytes = none;
  body = [];
  enabled = none;
  peers = none;
  frame = 0;
  keyframe = false;
  payload = [];
}

pub record Message : Type 0 where
  pub type : Text
  pub community : Text
  pub protocol : Text
  pub version : ℕ
  pub peer : Text
  pub nonce : Text
  pub communities : List (Text × Text)
  pub intent : Intent
  pub endpoint : Text
  pub revision : Text
  pub owner : Text
  pub count : ℕ
  pub operation : Option Operation
  pub channel : Text
  pub muted : Bool
  pub deafened : Bool
  pub sharing : Bool
  pub camera : Bool
  pub kind : Text
  pub packet : Packet

abbrev pub message : Text → Text → Message
message type community = record {
  type = type;
  community = community;
  protocol = [];
  version = 0;
  peer = [];
  nonce = [];
  communities = [];
  intent = no_intent;
  endpoint = [];
  revision = [];
  owner = [];
  count = 0;
  operation = none;
  channel = [];
  muted = false;
  deafened = false;
  sharing = false;
  camera = false;
  kind = [];
  packet = no_packet;
}

-- A snapshot that is coming in.
pub record Transfer : Type 0 where
  pub owner : Text
  pub operations : List (Option Operation)
  pub count : ℕ
  pub bytes : ℕ
  pub started : ℕ
  pub complete : Bool

-- `backlog` is what the socket has still to write.
pub record Link : Type 0 where
  pub peer : Text
  pub expected : Text
  pub discover : Text
  pub route : Text
  pub nonce : Text
  pub remote_nonce : Text
  pub outgoing : Bool
  pub tls : Bool
  pub hello : Bool
  pub merging : Bool
  pub started : ℕ
  pub touched : ℕ
  pub backlog : ℕ
  pub video : List Message
  pub video_bytes : ℕ
  pub claimed : List Text
  pub allowed : List Text
  pub ready : List Text
  pub synchronizing : List (Text × ℕ)
  pub admissions : List (Text × Intent)
  pub snapshots : List (Text × Transfer)

pub record Route : Type 0 where
  pub peer : Text
  pub endpoint : Text

pub record Invite : Type 0 where
  pub community : Text
  pub owner : Text
  pub code : Text
  pub seeds : List Route

pub record Retry : Type 0 where
  pub due : ℕ
  pub failures : ℕ

pub record Profile : Type 0 where
  pub name : Text
  pub bio : Text
  pub avatar : Text

pub data Effect : Type 0 where
  changed : Effect
  joined : Text → Effect
  join_rejected : Text → Text → Effect
  packet_received : Text → Text → Text → Text → Packet → Effect
  voice_moved : Text → Text → Effect
  error_occurred : Text → Effect
  saved : Model → Effect
  pending_saved : List (Text × Invite) → Effect
  registered : List Text → Effect
  sent : ℕ → Message → Effect
  aborted : ℕ → Effect
  closed : ℕ → Effect
  dialled : ℕ → Text → Effect
  validates : ℕ → Text → Snapshot → Option Model → Effect
  ticks : Effect

pub record Node : Type 0 where
  pub self : Text
  pub name : Text
  pub endpoint : Text
  pub profile : Profile
  pub running : Bool
  pub recovering_until : ℕ
  pub relay_ready : Bool
  pub models : List (Text × Model)
  pub pending : List (Text × Invite)
  pub joining : List (Text × ℕ)
  pub join_started : List (Text × ℕ)
  pub rejected : List (Text × Text)
  pub links : List (ℕ × Link)
  pub next_link : ℕ
  pub peers : List (Text × ℕ)
  pub retries : List (Text × Retry)
  pub presence : List (Text × List (Text × Presence))
  pub mine : List (Text × Presence)
  pub seen_messages : List Text
  pub message_order : List Text
  pub out : List Effect

-- What Qt does for a node: the sizes of JSON texts and of UTF-8, the ends of a text, digests and signatures.
pub record Network : Type 0 where
  pub frame_size : Message → ℕ
  pub operation_size : Option Operation → ℕ
  pub intent_size : Intent → ℕ
  pub packet_size : Packet → ℕ
  pub snapshot_size : Text → Text → List (Option Operation) → ℕ
  pub utf8_size : Text → ℕ
  pub trimmed : Text → Text
  pub to_hex : Text → Text
  pub to_base64 : Text → Text
  pub sign_intent : Text → Intent → Intent

pub data Outcome : Type 0 where
  returns : Node → Outcome
  throws : Text → Node → Outcome

unfoldable pub node_of : Outcome → Node
node_of (returns n) = n
node_of (throws e n) = n

-- One statement and the next.
infixl 5 ◌▸◌
unfoldable pub ◌▸◌ : Outcome → (Node → Outcome) → Outcome
returns n ▸ f = f n
throws e n ▸ f = throws e n

abbrev pub max_packet_bytes : ℕ
max_packet_bytes = 256 * 1024
