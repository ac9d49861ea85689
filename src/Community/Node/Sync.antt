-- ===== src/Community/Node/Sync.antt =====
-- Node: the exchange of a community's operations: profiles, offers, and snapshots in both directions.
use disquisition.Common.{
  ℕ, Bool, false, not, ◌&&◌, ◌||◌, Option, none, some, List, [], ◌∷◌, Text, text_eq, nat_eq, codes,
  ◌==◌, nat_beq, if◌then◌else◌, length,
}
use disquisition.Common.Maps.{lookup, erase}
use disquisition.Common.Sets.{has}
use disquisition.Community.Model.{Member, Intent, Details, Operation, Toolkit, string}
use disquisition.Community.Model.Log.{or_else, put, no_details, no_intent}
use disquisition.Community.Model.State.{Model}
use disquisition.Community.Model.Changes.{is_member, change, all_operations, host}
use disquisition.Community.Node.{
  Message, message, Link, Invite, Profile, Node, Network, Outcome, returns, throws, ◌▸◌,
}
use disquisition.Community.Node.Base.{
  update_link, allow, begin_synchronization, withdraw, writable, revision_of, send, save, each_peer,
}

module _ (q : Toolkit) (net : Network) where
  -- `model.change(...)` and what the callers do with the result; `failed` stands for what it throws.
  abbrev pub failed : Text
  failed = codes "community change rejected"

  -- `sendState`: an operation after the other, between a beginning and an end.
  abbrev pub operation_object : Text → Option Operation → Message
  operation_object cid op = record (message (codes "state-operation") cid) { operation = op }

  abbrev pub begin_object : Text → Model → Message
  begin_object cid m = record (message (codes "state-begin") cid) {
    owner = m.owner;
    count = length m.operations;
  }

  unfoldable pub send_operations : ℕ → ℕ → Text → List (Option Operation) → Node → Outcome
  send_operations now l cid [] n = returns n
  send_operations now l cid (op ∷ ops) n =
      send q net l (operation_object cid op) (update_link l (begin_synchronization now cid) n)
      ▸ send_operations now l cid ops

  abbrev pub send_snapshot : ℕ → ℕ → Text → Option Model → Node → Outcome
  send_snapshot now l cid none n = returns n
  send_snapshot now l cid (some m) n =
      send q net l (begin_object cid m) (update_link l (begin_synchronization now cid) n)
      ▸ send_operations now l cid (all_operations m.operations)
      ▸ λ n.
          send q net l (message (codes "state-end") cid)
            (update_link l (begin_synchronization now cid) n)

  abbrev pub may_send_state : Text → Option Link → Bool
  may_send_state cid none = false
  may_send_state cid (some link) = link.hello && has cid link.allowed

  unfoldable pub send_state : ℕ → ℕ → Text → Node → Outcome
  send_state now l cid n =
      if may_send_state cid (lookup l n.links)
      then send_snapshot now l cid (lookup cid n.models) n
      else returns n

  abbrev pub without_peer : Text → Text → Node → Node
  without_peer cid peer n = record n {
    presence = put cid (erase peer (or_else [] (lookup cid n.presence))) n.presence;
  }

  -- Removals are told of before access is withdrawn.
  unfoldable pub broadcast_to : ℕ → Text → ℕ → Link → Node → Outcome
  broadcast_to now cid l link n =
      if writable q net link cid n
      then send_state now l cid (update_link l (allow cid) n)
      else ((if has cid link.allowed then send_state now l cid n else returns n) ▸ λ n.
          returns (without_peer cid link.peer (update_link l (withdraw cid) n)))

  unfoldable pub broadcast_state : ℕ → Text → Node → Outcome
  broadcast_state now cid n = each_peer q net (broadcast_to now cid) n.peers n

  abbrev pub change_saved : ℕ → Text → Option Model → Node → Outcome
  change_saved now cid none n = throws failed n
  change_saved now cid (some m) n = broadcast_state now cid (save q net m n)

  abbrev pub is_published : Node → Option Member → Bool
  is_published n none = false
  is_published n (some member) =
      member.name == n.name
      && (member.endpoint == n.endpoint
          && (member.bio == n.profile.bio && member.avatar == n.profile.avatar))

  abbrev pub profile_data : Profile → Text → Text → Details
  profile_data p name endpoint = record no_details {
    name = name;
    endpoint = endpoint;
    bio = string p.bio;
    avatar = string (net.to_base64 p.avatar);
  }

  abbrev pub publish_found : ℕ → Text → Option Model → Node → Outcome
  publish_found now cid none n = returns n
  publish_found now cid (some m) n =
      if not (is_member q m n.self) || is_published n (lookup n.self m.members)
      then returns n
      else change_saved now cid
          (change q n.self (codes "profile") (profile_data n.profile n.name n.endpoint) m) n

  unfoldable pub publish_profile : ℕ → Text → Node → Outcome
  publish_profile now cid n = publish_found now cid (lookup cid n.models) n

  abbrev pub authorize_link : ℕ → ℕ → Text → Node → Option Link → Outcome
  authorize_link now l cid n none = returns n
  authorize_link now l cid n (some link) =
      if not (writable q net link cid n)
      then returns n
      else let allowed = update_link l (allow cid) n in
        send q net l (record (message (codes "offer") cid) { revision = revision_of q net cid n })
          (if has cid link.ready
            then allowed
            else update_link l (begin_synchronization now cid) allowed)

  unfoldable pub authorize : ℕ → ℕ → Text → Node → Outcome
  authorize now l cid n = authorize_link now l cid n (lookup l n.links)

  abbrev pub authorize_all : ℕ → ℕ → List (Text × Model) → Node → Outcome
  authorize_all now l [] n = returns n
  authorize_all now l ((k, m) ∷ ms) n = authorize now l m.id n ▸ authorize_all now l ms

  -- `joinIntent`; the random code of the request is given.
  abbrev pub unsigned_intent : Text → Invite → Text → Text → Text → Text → Text → Intent
  unsigned_intent self invite name endpoint host nonce request = record no_intent {
    community = invite.community;
    peer = self;
    name = name;
    endpoint = endpoint;
    invite = q.digest invite.code;
    host = host;
    nonce = nonce;
    request = request;
  }

  unfoldable pub join_intent : Text → Invite → Text → Text → Text → Text → Text → Intent
  join_intent self invite name endpoint host nonce request =
      let i = unsigned_intent self invite name endpoint host nonce request in
      net.sign_intent self (record i { proof = net.to_hex (q.proof_of i invite.code) })

  abbrev pub join_object : Text → Node → Link → Invite → Message
  join_object request n link invite = record (message (codes "join") invite.community) {
    intent = join_intent n.self invite n.name n.endpoint link.peer link.remote_nonce request;
  }

  abbrev pub is_joining : Option ℕ → ℕ → Bool
  is_joining none l = false
  is_joining (some j) l = nat_beq j l

  abbrev pub ask_to_join : Text → ℕ → Link → List (Text × Invite) → Node → Outcome
  ask_to_join request l link [] n = returns n
  ask_to_join request l link ((k, invite) ∷ ps) n =
      (if is_joining (lookup invite.community n.joining) l
        then send q net l (join_object request n link invite) n
        else returns n)
      ▸ ask_to_join request l link ps

  abbrev pub offer_on : ℕ → Text → ℕ → Node → Option Link → Outcome
  offer_on now request l n none = returns n
  offer_on now request l n (some link) =
      if not link.hello
      then returns n
      else authorize_all now l n.models n ▸ ask_to_join request l link n.pending

  unfoldable pub offer : ℕ → Text → ℕ → Node → Outcome
  offer now request l n = offer_on now request l n (lookup l n.links)
