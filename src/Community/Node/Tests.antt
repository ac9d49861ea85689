-- ===== src/Community/Node/Tests.antt =====
-- The theorems on nodes at concrete inputs.
use disquisition.Common.{
  ℕ, zero, suc, sym, ◌∙◌, ◌+◌, ◌≤◌, ◌<◌, ◌≡◌, refl, Bool, true, false, not, some, List, [], ◌∷◌,
  arith, Text, text_eq, nat_eq, codes, length,
}
use disquisition.Common.Maps.{lookup, insert, erase}
use disquisition.Common.Sets.{has, include, exclude}
use disquisition.Community.Model.{valid_endpoint}
use disquisition.Community.Model.Log.{put}
use disquisition.Community.Model.Changes.{is_member, all_operations}
use disquisition.Community.Node.{
  no_packet, Message, message, Link, sent, Node, Network, returns, node_of, ◌▸◌,
}
use disquisition.Community.Node.Base.{update_link, belongs, writable, send}
use disquisition.Community.Node.Sync.{
  send_operations, send_state, broadcast_to, broadcast_state, operation_object, begin_object,
}
use disquisition.Community.Node.Connect.{read_messages, encrypted}
use disquisition.Community.Node.Alone.{IsAlone}
use disquisition.Community.Node.Connect.{Chance, new_link, may_dial, dial, route_key}
use disquisition.Community.Node.Sending.{pumped}
use disquisition.Common.{text_beq, replicate}
use disquisition.Community.Tests.{toolkit, ada, club, origin, replica}
use disquisition.Community.Model.Log.{text_ltb}
use disquisition.Community.Node.Events.{
  Event, accepts, reads, fires, disconnects, speaks, stops, occur_all,
}
use disquisition.Community.Node.Window.{HasMemory, occur_all-HasMemory}
use disquisition.Community.Node.Voices.{occur_all-IsAlone}
use disquisition.Community.Node.Election.{Meeting, Holds, encrypted-elects}
use disquisition.Community.Node.Withdrawal.{IsShut, broadcast_state-IsShut}
use disquisition.Community.Node.Reception.{Validates}
use disquisition.Community.Node.Snapshots.{sent_all, Awaits, send_state-read}
use disquisition.Community.Node.Video.{sizes, IsPumped, pumped-IsPumped}
use disquisition.Community.Node.Routes.{HasRoutes, Dialled, dial-Dialled}
use disquisition.Community.Node.Dialling.{Try, dial_all, dial_paced}

abbrev network : Network
network = record {
  frame_size = λ m. 10;
  operation_size = λ o. 1;
  intent_size = λ i. 1;
  packet_size = λ d. 1;
  snapshot_size = λ id owner ops. length ops;
  utf8_size = λ t. length t;
  trimmed = λ t. t;
  to_hex = λ t. t;
  to_base64 = λ t. t;
  sign_intent = λ self i. i;
}

abbrev bob : Text
bob = replicate 64 98

abbrev node : Text → Node
node self = record {
  self = self;
  name = codes "n";
  endpoint = codes "e";
  profile = record { name = codes "n"; bio = []; avatar = [] };
  running = true;
  recovering_until = 0;
  relay_ready = false;
  models = [];
  pending = [];
  joining = [];
  join_started = [];
  rejected = [];
  links = [];
  next_link = 0;
  peers = [];
  retries = [];
  presence = [];
  mine = [];
  seen_messages = [];
  message_order = [];
  out = [];
}

-- A link that has greeted, to a peer.
abbrev link_to : Text → Bool → Link
link_to peer outgoing = record (new_link 0 (codes "c") outgoing []) {
  peer = peer;
  tls = true;
  hello = true;
}

-- Ada sends the club to bob, who has been let in.
abbrev sending_link : Link
sending_link = record (link_to bob true) { allowed = club ∷ [] }

abbrev sender : Node
sender = record (node ada) { models = (club, replica) ∷ []; links = (0, sending_link) ∷ [] }

abbrev sender_after : Node
sender_after = record sender {
  links = (0, record sending_link { backlog = 42; synchronizing = (club, 7) ∷ [] }) ∷ [];
  out =
      sent 0 (message (codes "state-end") club)
      ∷ sent 0 (operation_object toolkit network club (some origin))
      ∷ sent 0 (begin_object toolkit network club replica)
      ∷ [];
}

abbrev receiver : Node
receiver = record (node bob) { models = (club, replica) ∷ []; links = (3, link_to ada false) ∷ [] }

sender_sends : send_state toolkit network 7 0 club sender ≡ returns sender_after
unfolding send_state send send_operations update_link lookup insert has text_beq ◌▸◌
sender_sends = refl

receiver-Awaits : Awaits toolkit network club replica 3 receiver
unfolding lookup text_beq
receiver-Awaits = record {
  link = link_to ada false;
  found = refl;
  greeted = refl;
  free = refl;
  known = refl;
  idle = refl;
  room = omega arith;
  owner = refl;
  some_ops = omega arith;
  few = omega arith;
  small = omega arith;
  fits = omega arith;
}

send_state-read_example :
    (msgs : List Message) × (sender_after.out ≡ sent_all 0 msgs sender.out)
    × Validates toolkit network club 3 receiver ada
        (all_operations replica.operations)
        (read_messages toolkit network 8 (codes "c") 3 msgs receiver)
unfolding lookup has text_beq
send_state-read_example =
    send_state-read toolkit network 7 0 club replica sender sender_after (sending_link, refl, refl)
      refl refl sender_sends 8 (codes "c") 3 receiver receiver-Awaits

-- What bob hears from ada, twice.
abbrev hello_again : Message
hello_again = record (message (codes "packet") club) {
  channel = codes "g";
  kind = codes "chat";
  packet = record no_packet { id = codes "1"; timestamp = some 5; body = codes "hi" };
}

abbrev chance : Chance
chance = record { code_of = λ l. codes "c"; jitter_of = λ l. 20 }

abbrev heard : List Event
heard =
    reads 5 (codes "c") 3 (hello_again ∷ hello_again ∷ [])
    ∷ accepts 6 chance true
    ∷ fires 7 chance
    ∷ disconnects 3
    ∷ stops
    ∷ []

empty_memory : HasMemory receiver
empty_memory = (refl, λ k. refl, tt, tt)

occur_all-HasMemory_example : HasMemory (occur_all toolkit network heard receiver)
occur_all-HasMemory_example = occur_all-HasMemory toolkit network heard receiver empty_memory

receiver-IsAlone : IsAlone receiver
unfolding lookup
receiver-IsAlone j k a b = cc a

occur_all-IsAlone_example :
    IsAlone
      (occur_all toolkit network (speaks club (codes "v") false false false false ∷ heard) receiver)
occur_all-IsAlone_example =
    occur_all-IsAlone toolkit network (speaks club (codes "v") false false false false ∷ heard)
      receiver receiver-IsAlone

-- Ada and bob dial one another; ada's own connection is up second with her, and first with bob.
abbrev ada_node : Node
ada_node = record (node ada) {
  links = (0, link_to bob false) ∷ (1, link_to [] true) ∷ [];
  peers = (bob, 0) ∷ [];
}

abbrev bob_node : Node
bob_node = record (node bob) {
  links = (0, link_to ada false) ∷ (1, link_to [] true) ∷ [];
  peers = (ada, 0) ∷ [];
}

ada_meets : Meeting ada_node bob 1 0
unfolding lookup text_beq
ada_meets = record {
  link = link_to [] true;
  existing = link_to bob false;
  found = refl;
  listed = refl;
  held = refl;
  apart = refl;
  proven = refl;
  another = refl;
  wanted = refl;
  opposite = refl;
}

bob_meets : Meeting bob_node ada 1 0
unfolding lookup text_beq
bob_meets = record {
  link = link_to [] true;
  existing = link_to ada false;
  found = refl;
  listed = refl;
  held = refl;
  apart = refl;
  proven = refl;
  another = refl;
  wanted = refl;
  opposite = refl;
}

encrypted-elects_example :
    (b : Bool) × (b ≡ text_ltb ada bob)
    × Holds (node_of (encrypted toolkit network 1 bob ada_node)) bob b
    × Holds (node_of (encrypted toolkit network 1 ada bob_node)) ada (not b)
encrypted-elects_example =
    encrypted-elects toolkit network ada_node bob_node 1 0 1 0 ada_meets bob_meets

-- Bob is no member of the club any more.
abbrev ready_link : Link
ready_link = record sending_link { ready = club ∷ [] }

abbrev shut_link : Link
shut_link = record (link_to bob true) { backlog = 42 }

abbrev removing : Node
removing = record sender { links = (0, ready_link) ∷ []; peers = (bob, 0) ∷ [] }

abbrev removed : Node
removed = record sender_after {
  links = (0, shut_link) ∷ [];
  peers = (bob, 0) ∷ [];
  presence = (club, []) ∷ [];
}

removal_ends : broadcast_state toolkit network 7 club removing ≡ returns removed
unfolding broadcast_state broadcast_to writable belongs is_member send_state send send_operations
    update_link lookup insert erase include exclude has text_beq put ◌▸◌
removal_ends = refl

broadcast_state-IsShut_example : IsShut club shut_link
unfolding lookup has text_beq writable belongs is_member
broadcast_state-IsShut_example =
    broadcast_state-IsShut toolkit network 7 club removing removed removal_ends 0 shut_link refl
      refl refl

pumped-IsPumped_example :
    (let link : Link = record (link_to bob true) { backlog = 16383; video_bytes = 28 } in
      let video = hello_again ∷ hello_again ∷ [] in
      let p = pumped toolkit network video link in IsPumped toolkit network video link p.0 p.1)
unfolding sizes
pumped-IsPumped_example =
    pumped-IsPumped toolkit network (hello_again ∷ hello_again ∷ [])
      (record (link_to bob true) { backlog = 16383; video_bytes = 28 }) refl

abbrev carol : Text
carol = replicate 64 99

abbrev dialling : Node
dialling = record (node ada) { links = (0, link_to bob true) ∷ []; next_link = 1 }

the_link : (i : ℕ) (x : Link) → lookup i dialling.links ≡ some x → 0 ≡ i
unfolding lookup
the_link zero x e = refl
the_link (suc i) x e = ground (arith, e)

one_link-HasRoutes : HasRoutes dialling
one_link-HasRoutes = record {
  used = λ j x e. omega (arith, the_link j x e);
  one = λ i j x y e f g h. sym (the_link i x e) ∙ the_link j y f;
}

dial-Dialled_example :
    (let k = dial toolkit 5 chance carol (codes "b") [] dialling in
      Dialled dialling (route_key carol (codes "b") []) carol k)
dial-Dialled_example =
    dial-Dialled toolkit 5 chance carol (codes "b") [] dialling one_link-HasRoutes

abbrev dialled_once : Node
dialled_once = dial toolkit 5 chance bob (codes "b") [] (node ada)

abbrev tries : List Try
tries =
    (record { time = 700; chance = chance; peer = bob; endpoint = codes "b"; discover = [] }) ∷ []

dial_paced_example :
    (900 < 5 + 1000
      → (other : Chance) → dial toolkit 900 other bob (codes "b") [] dialled_once ≡ dialled_once)
    × (5 + 30000 + chance.jitter_of 0 ≤ 900
        → may_dial toolkit 900 bob (codes "b") [] (record dialled_once { retries = [] }) ≡ true
        → may_dial toolkit 900 bob (codes "b") [] dialled_once ≡ true)
    × (let key = route_key bob (codes "b") [] in
        lookup key (dial_all toolkit tries dialled_once).retries ≡ lookup key dialled_once.retries)
unfolding may_dial lookup text_beq valid_endpoint
dial_paced_example =
    dial_paced toolkit 5 chance bob (codes "b") [] (node ada) refl dialled_once refl 900 tries
      (omega arith, tt)
