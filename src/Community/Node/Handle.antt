-- ===== src/Community/Node/Handle.antt =====
-- Node: what it does with the messages of a peer, `handle`.
use disquisition.Common.{
  ℕ, Bool, true, not, ◌&&◌, ◌||◌, Option, none, some, List, [], ◌∷◌, Text, text_eq, nat_eq, codes,
  ◌==◌, ltb, leb, nat_beq, if◌then◌else◌, length,
}
use disquisition.Common.Maps.{lookup}
use disquisition.Common.Sets.{has}
use disquisition.Community.Model.{Intent, Toolkit, is_empty}
use disquisition.Community.Model.Log.{or_else, put, contains}
use disquisition.Community.Model.State.{Model}
use disquisition.Community.Model.Changes.{is_member}
use disquisition.Community.Node.{
  Presence, Message, message, Link, changed, Node, Network, Outcome, returns, throws, ◌▸◌,
}
use disquisition.Community.Node.Base.{
  note, update_link, allow, disallow, mark_ready, end_synchronization, claim, revision, writable,
  revision_of, send, mine_in, presence_object, synced_object,
}
use disquisition.Community.Node.Voice.{has_channel, moved, may_admin}
use disquisition.Community.Node.Sync.{send_state, offer}
use disquisition.Community.Node.Transfers.{
  handle_state_begin, handle_state_operation, handle_state_end,
}
use disquisition.Community.Node.Invitations.{handle_rejected, handle_redirect}
use disquisition.Community.Node.Admission.{process_admissions}
use disquisition.Community.Node.Packets.{receive_packet}

module _ (q : Toolkit) (net : Network) where
  abbrev pub handshake : Text
  handshake = codes "invalid community handshake"

  unfoldable pub valid_hello : Link → Message → Bool
  valid_hello link msg =
      not link.hello
      && (msg.protocol == codes "disquisition-community"
          && (nat_beq msg.version 1
              && (msg.peer == link.peer
                  && (nat_beq (length msg.nonce) 32 && leb (length msg.communities) 64))))

  abbrev pub claim_each : List (Text × Text) → Link → Link
  claim_each [] link = link
  claim_each ((cid, revision) ∷ cs) link = claim_each cs (claim cid link)

  abbrev pub greet : Message → Link → Link
  greet msg link =
      claim_each msg.communities (record link { hello = true; remote_nonce = msg.nonce })

  unfoldable pub handle_hello : ℕ → Text → ℕ → Link → Message → Node → Outcome
  handle_hello now code l link msg n =
      if not (valid_hello link msg)
      then throws handshake n
      else offer q net now code l (update_link l (greet msg) n) ▸ λ n. returns (note changed n)

  abbrev pub admission_of : Text → Intent → Link → Link
  admission_of cid intent link = record link { admissions = put cid intent link.admissions }

  unfoldable pub valid_request : Link → Message → Node → Bool
  valid_request link msg n =
      let intent = msg.intent in
      intent.peer == link.peer
      && (intent.nonce == link.nonce
          && (intent.host == n.self
              && (intent.community == msg.community
                  && (ltb (length link.admissions) 16 && leb (net.intent_size intent) 2048))))

  unfoldable pub handle_join : ℕ → ℕ → Link → Message → Node → Outcome
  handle_join now l link msg n =
      if not (valid_request link msg n)
      then throws (codes "invalid admission request") n
      else process_admissions q net now (update_link l (admission_of msg.community msg.intent) n)

  -- One who was away may have missed that the community ended for it; or we may have missed that it came in.
  abbrev pub offer_unwritable : ℕ → ℕ → Link → Text → Option Model → Node → Outcome
  offer_unwritable now l link cid none n = returns n
  offer_unwritable now l link cid (some m) n =
      if not (is_member q m n.self)
      then if contains m.members link.peer
        then (send_state q net now l cid (update_link l (allow cid) n) ▸ λ n.
            returns (update_link l (end_synchronization cid) (update_link l (disallow cid) n)))
        else returns n
      else send q net l (message (codes "state-request") cid) n

  unfoldable pub handle_offer : ℕ → ℕ → Link → Message → Node → Outcome
  handle_offer now l link msg n =
      let cid = msg.community in
      if not (writable q net link cid n)
      then offer_unwritable now l link cid (lookup cid n.models) n
      else (let known = update_link l (claim cid) (update_link l (allow cid) n) in
          (if msg.revision == revision_of q net cid n
            then (send q net l (synced_object q net cid n) (update_link l (mark_ready cid) known)
                ▸ λ n. send q net l (presence_object q net cid (mine_in q net cid n)) n)
            else send_state q net now l cid known)
          ▸ λ n. returns (note changed n))

  unfoldable pub handle_state_request : ℕ → ℕ → Link → Text → Node → Outcome
  handle_state_request now l link cid n =
      if writable q net link cid n then send_state q net now l cid n else returns n

  unfoldable pub handle_synced : ℕ → Link → Message → Node → Outcome
  handle_synced l link msg n =
      let cid = msg.community in
      if not (writable q net link cid n) || not (msg.revision == revision_of q net cid n)
      then returns n
      else (send q net l (presence_object q net cid (mine_in q net cid n))
            (update_link l (mark_ready cid) (update_link l (allow cid) n))
          ▸ λ n. returns (note changed n))

  unfoldable pub handle_move_voice : Link → Message → Node → Outcome
  handle_move_voice link msg n =
      let cid = msg.community in
      let local = mine_in q net cid n in
      if not (may_admin q net (lookup cid n.models) link.peer)
        || (is_empty local.voice_channel
            || not (has_channel q net cid msg.channel (codes "voice") n))
      then returns n
      else moved q net cid msg.channel n

  abbrev pub presence_of_message : Message → Presence
  presence_of_message msg = record {
    voice_channel = msg.channel;
    muted = msg.muted;
    deafened = msg.deafened;
    sharing = not (is_empty msg.channel) && msg.sharing;
    camera = not (is_empty msg.channel) && msg.camera;
  }

  unfoldable pub handle_presence : Link → Message → Node → Node
  handle_presence link msg n =
      let cid = msg.community in
      if not (is_empty msg.channel) && not (has_channel q net cid msg.channel (codes "voice") n)
      then n
      else note changed (record n {
        presence =
            put cid (put link.peer (presence_of_message msg) (or_else [] (lookup cid n.presence)))
              n.presence;
      })

  -- What only those may send who are members, and up to date.
  unfoldable pub handle_ready : Link → Message → Node → Outcome
  handle_ready link msg n =
      if not (writable q net link msg.community n)
        || (not (has msg.community link.allowed) || not (has msg.community link.ready))
      then returns n
      else if msg.type == codes "move-voice"
      then handle_move_voice link msg n
      else if msg.type == codes "presence"
      then returns (handle_presence link msg n)
      else if msg.type == codes "packet"
      then returns (receive_packet q net link msg n)
      else returns n

  unfoldable pub handle_sync : ℕ → ℕ → Link → Message → Node → Outcome
  handle_sync now l link msg n =
      if msg.type == codes "offer"
      then handle_offer now l link msg n
      else if msg.type == codes "state-request"
      then handle_state_request now l link msg.community n
      else if msg.type == codes "state-begin"
      then handle_state_begin q net now l link msg n
      else if msg.type == codes "state-operation"
      then handle_state_operation q net now l link msg n
      else if msg.type == codes "state-end"
      then handle_state_end q net l link msg n
      else if msg.type == codes "synced"
      then handle_synced l link msg n
      else handle_ready link msg n

  unfoldable pub handle_greeted : ℕ → ℕ → Link → Message → Node → Outcome
  handle_greeted now l link msg n =
      if not link.hello
      then throws (codes "community handshake required") n
      else if msg.type == codes "ping"
      then send q net l (message (codes "pong") []) n
      else if msg.type == codes "pong"
      then returns n
      else if msg.type == codes "join"
      then handle_join now l link msg n
      else if msg.type == codes "rejected"
      then returns (handle_rejected q net l msg.community n)
      else if msg.type == codes "redirect"
      then handle_redirect q net msg n
      else handle_sync now l link msg n

  abbrev pub handle_on : ℕ → Text → ℕ → Message → Node → Option Link → Outcome
  handle_on now code l msg n none = returns n
  handle_on now code l msg n (some link) =
      if msg.type == codes "hello"
      then handle_hello now code l link msg n
      else handle_greeted now l link msg n

  -- A message of link `l`; `code` is random.
  unfoldable pub handle : ℕ → Text → ℕ → Message → Node → Outcome
  handle now code l msg n = handle_on now code l msg n (lookup l n.links)
