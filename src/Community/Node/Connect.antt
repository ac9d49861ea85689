-- ===== src/Community/Node/Connect.antt =====
-- Node: links that open, end, and are looked after twice a second.
use disquisition.Common.{
  ℕ, ◌+◌, ◌-◌, ◌*◌, ◌^◌, min, Bool, true, false, not, ◌&&◌, ◌||◌, Option, none, some, List, [], ◌∷◌,
  ◌++◌, Text, text_eq, nat_eq, codes, ◌==◌, ltb, leb, nat_beq, if◌then◌else◌, length,
}
use disquisition.Common.Maps.{lookup, insert, erase}
use disquisition.Community.Model.{Toolkit, is_empty, valid_endpoint}
use disquisition.Community.Model.Log.{text_ltb, or_else, put, contains, is_some}
use disquisition.Community.Model.State.{Model}
use disquisition.Community.Model.Changes.{is_member}
use disquisition.Community.Node.{
  Presence, Message, message, Link, Retry, changed, error_occurred, aborted, dialled, Node, Network,
  Outcome, returns, ◌▸◌,
}
use disquisition.Community.Node.Base.{note, set_link, update_link, revision, send}
use disquisition.Community.Node.Merging.{forget_joining, aborts_on_error}
use disquisition.Community.Node.Handle.{handle}
use disquisition.Community.Node.Sending.{pump_video}

abbrev pub agrees : Bool → Bool → Bool
agrees true b = b
agrees false b = not b

-- Random codes and delays, by the number of the link that they are for.
pub record Chance : Type 0 where
  pub code_of : ℕ → Text
  pub jitter_of : ℕ → ℕ

abbrev pub max_links : ℕ
max_links = 256

abbrev pub new_link : ℕ → Text → Bool → Text → Link
new_link now nonce outgoing expected = record {
  peer = [];
  expected = expected;
  discover = [];
  route = [];
  nonce = nonce;
  remote_nonce = [];
  outgoing = outgoing;
  tls = false;
  hello = false;
  merging = false;
  started = now;
  touched = now;
  backlog = 0;
  video = [];
  video_bytes = 0;
  claimed = [];
  allowed = [];
  ready = [];
  synchronizing = [];
  admissions = [];
  snapshots = [];
}

abbrev pub add_link : Link → Node → Node
add_link link n = record n { links = insert n.next_link link n.links; next_link = n.next_link + 1 }

unfoldable pub accept_link : ℕ → Chance → Bool → Node → Node
accept_link now chance has_socket n =
    let l = n.next_link in
    let added = add_link (new_link now (chance.code_of l) false []) n in
    if not has_socket || ltb max_links (length added.links) then note (aborted l) added else added

-- `dial`: what is tried, and when it may be tried again.
abbrev pub route_key : Text → Text → Text → Text
route_key peer endpoint discover = peer ++ codes ":" ++ endpoint ++ codes ":" ++ discover

abbrev pub link_on : Text → List (ℕ × Link) → Option ℕ
link_on key [] = none
link_on key ((l, link) ∷ ls) = if link.route == key then some l else link_on key ls

abbrev pub no_retry : Retry
no_retry = record { due = 0; failures = 0 }

unfoldable pub backed_off : ℕ → ℕ → Retry → Retry
backed_off now jitter r =
    let failures = min 6 (r.failures + 1) in
    record { failures = failures; due = now + min 30000 (500 * 2 ^ failures) + jitter }

module _ (q : Toolkit) where
  unfoldable pub may_dial : ℕ → Text → Text → Text → Node → Bool
  may_dial now peer endpoint discover n =
      let key = route_key peer endpoint discover in
      let retry = or_else no_retry (lookup key n.retries) in
      valid_endpoint q endpoint
      && (not (peer == n.self)
          && (ltb (length n.links) max_links
              && (not (contains n.peers peer)
                  && (not (is_some (link_on key n.links)) && leb retry.due now))))

  unfoldable pub dial : ℕ → Chance → Text → Text → Text → Node → Node
  dial now chance peer endpoint discover n =
      let key = route_key peer endpoint discover in
      let l = n.next_link in
      let retry = backed_off now (chance.jitter_of l) (or_else no_retry (lookup key n.retries)) in
      if may_dial now peer endpoint discover n
      then note (dialled l endpoint) (
          add_link
            (record (new_link now (chance.code_of l) true peer) {
              route = key;
              discover = discover;
            })
            (record n { retries = put key retry n.retries }))
      else n

  abbrev pub shared_communities : Text → Text → List (Text × Model) → List (Text × Text)
  shared_communities self peer [] = []
  shared_communities self peer ((k, m) ∷ ms) =
      let rest = shared_communities self peer ms in
      if is_member q m self && is_member q m peer then (m.id, revision q m) ∷ rest else rest

  abbrev pub hello_object : Link → Node → Message
  hello_object link n = record (message (codes "hello") []) {
    protocol = codes "disquisition-community";
    version = 1;
    peer = n.self;
    nonce = link.nonce;
    communities = shared_communities n.self link.peer n.models;
  }

module _ (q : Toolkit) (net : Network) where
  abbrev pub bad_certificate : Text
  bad_certificate = codes "bad certificate"

  -- Both sides keep the connection that the smaller peer id has begun.
  unfoldable pub prefers_outgoing : Text → Text → Bool
  prefers_outgoing self peer = text_ltb self peer

  unfoldable pub keeps_old : Text → Text → Bool → Bool → Bool
  keeps_old self peer old_outgoing new_outgoing =
      agrees old_outgoing (prefers_outgoing self peer)
      || not (agrees new_outgoing (prefers_outgoing self peer))

  abbrev pub greet_peer : ℕ → Link → Node → Outcome
  greet_peer l link n =
      let rested = record n { retries = erase link.route n.retries } in
      send q net l (hello_object q link rested) rested

  abbrev pub meet : ℕ → Link → Option ℕ → Option Link → Node → Outcome
  meet l link (some old) (some existing) n =
      if keeps_old n.self link.peer existing.outgoing link.outgoing
      then returns (note (aborted l) n)
      else greet_peer l link (note (aborted old) (record n { peers = put link.peer l n.peers }))
  meet l link _ _ n = greet_peer l link (record n { peers = put link.peer l n.peers })

  abbrev pub link_of : Node → Option ℕ → Option Link
  link_of n none = none
  link_of n (some l) = lookup l n.links

  abbrev pub encrypted_on : ℕ → Text → Node → Option Link → Outcome
  encrypted_on l peer n none = returns n
  encrypted_on l peer n (some link) =
      if is_empty peer
        || (peer == n.self || (not (is_empty link.expected) && not (peer == link.expected)))
      then returns (note (aborted l) (note (error_occurred bad_certificate) n))
      else (let known = record link { tls = true; peer = peer } in
          let old = lookup peer n.peers in meet l known old (link_of n old) (set_link l known n))

  -- TLS is up on link `l`; `peer` is who its certificate names, empty if it is not one.
  unfoldable pub encrypted : ℕ → Text → Node → Outcome
  encrypted l peer n = encrypted_on l peer n (lookup l n.links)

  abbrev pub leave_groups :
      Text → List (Text × List (Text × Presence)) → List (Text × List (Text × Presence))
  leave_groups peer [] = []
  leave_groups peer ((cid, group) ∷ gs) = (cid, erase peer group) ∷ leave_groups peer gs

  abbrev pub is_link : ℕ → Option ℕ → Bool
  is_link l none = false
  is_link l (some k) = nat_beq k l

  unfoldable pub leave_peer : ℕ → Text → Node → Node
  leave_peer l peer n =
      if is_link l (lookup peer n.peers)
      then record n { peers = erase peer n.peers; presence = leave_groups peer n.presence }
      else n

  abbrev pub give_up_joining : ℕ → List (Text × ℕ) → Node → Node
  give_up_joining l [] n = n
  give_up_joining l ((cid, k) ∷ js) n =
      give_up_joining l js (if nat_beq k l then forget_joining q net cid n else n)

  abbrev pub disconnected_on : ℕ → Node → Option Link → Node
  disconnected_on l n none = n
  disconnected_on l n (some link) =
      let left = leave_peer l link.peer (record n { links = erase l n.links }) in
      note changed (give_up_joining l left.joining left)

  unfoldable pub disconnected : ℕ → Node → Node
  disconnected l n = disconnected_on l n (lookup l n.links)

  -- The messages that a link has taken from its socket, until one starts a merge or ends the link.
  abbrev pub is_paused : Option Link → Bool
  is_paused none = true
  is_paused (some link) = link.merging

  unfoldable pub read_messages : ℕ → Text → ℕ → List Message → Node → Outcome
  read_messages now code l [] n = returns n
  read_messages now code l (msg ∷ msgs) n = handle q net now code l msg n ▸ λ n.
      if is_paused (lookup l n.links) then returns n else read_messages now code l msgs n

  abbrev pub touch : ℕ → Link → Link
  touch now link = record link { touched = now }

  abbrev pub read_on : ℕ → Text → ℕ → List Message → Node → Option Link → Node
  read_on now code l msgs n none = n
  read_on now code l msgs n (some link) =
      let touched = update_link l (touch now) n in
      if not link.tls || link.merging
      then touched
      else aborts_on_error q net l (read_messages now code l msgs touched)

  unfoldable pub read : ℕ → Text → ℕ → List Message → Node → Node
  read now code l msgs n = read_on now code l msgs n (lookup l n.links)

  -- The socket has written some bytes.
  abbrev pub drain : ℕ → Link → Link
  drain bytes link = record link { backlog = link.backlog - bytes }

  unfoldable pub written : ℕ → ℕ → Node → Node
  written l bytes n = pump_video q net l (update_link l (drain bytes) n)
