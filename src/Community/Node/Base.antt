-- ===== src/Community/Node/Base.antt =====
-- The members of `Node` that everything else uses: links, sending, who may exchange a community, saving.
use disquisition.Common.{
  ℕ, ◌+◌, ◌*◌, Bool, false, not, ◌&&◌, ◌||◌, Option, none, some, List, [], ◌∷◌, ◌++◌, Text, text_eq,
  nat_eq, codes, ltb, nat_beq, if◌then◌else◌,
}
use disquisition.Common.Maps.{lookup, insert, erase}
use disquisition.Common.Sets.{has, include, exclude}
use disquisition.Community.Model.{Toolkit, max_metadata_bytes}
use disquisition.Community.Model.Log.{or_else, put, keys}
use disquisition.Community.Model.State.{Model}
use disquisition.Community.Model.Changes.{is_member}
use disquisition.Community.Node.{
  Presence, no_presence, Message, message, Link, Effect, saved, sent, registered, pending_saved,
  changed, Node, Network, Outcome, returns, throws, ◌▸◌, max_packet_bytes,
}

abbrev pub note : Effect → Node → Node
note e n = record n { out = e ∷ n.out }

abbrev pub set_link : ℕ → Link → Node → Node
set_link l link n = record n { links = insert l link n.links }

-- A change to a link, if it is still there.
unfoldable pub update_link : ℕ → (Link → Link) → Node → Node
update_link l f n = elim (lookup l n.links) [ none ↦ n | some link ↦ set_link l (f link) n ]

abbrev pub allow : Text → Link → Link
allow cid link = record link { allowed = include cid link.allowed }

abbrev pub disallow : Text → Link → Link
disallow cid link = record link { allowed = exclude cid link.allowed }

abbrev pub mark_ready : Text → Link → Link
mark_ready cid link = record link {
  ready = include cid link.ready;
  synchronizing = erase cid link.synchronizing;
}

abbrev pub end_synchronization : Text → Link → Link
end_synchronization cid link = record link { synchronizing = erase cid link.synchronizing }

abbrev pub begin_synchronization : ℕ → Text → Link → Link
begin_synchronization now cid link = record link {
  synchronizing = insert cid now link.synchronizing;
}

abbrev pub claim : Text → Link → Link
claim cid link = record link { claimed = include cid link.claimed }

abbrev pub withdraw : Text → Link → Link
withdraw cid link = record link {
  allowed = exclude cid link.allowed;
  ready = exclude cid link.ready;
  synchronizing = erase cid link.synchronizing;
}

-- `revision()`: a digest of the ids of all operations.
abbrev pub join_keys : List Text → Text
join_keys [] = []
join_keys (k ∷ []) = k
join_keys (k ∷ j ∷ ks) = k ++ codes "," ++ join_keys (j ∷ ks)

unfoldable pub revision : Toolkit → Model → Text
revision q m = q.digest (join_keys (keys m.operations))

module _ (q : Toolkit) (net : Network) where
  unfoldable pub belongs : Text → Text → Node → Bool
  belongs cid peer n = elim (lookup cid n.models) [ none ↦ false | some m ↦ is_member q m peer ]

  -- Both ends are members of the community.
  unfoldable pub writable : Link → Text → Node → Bool
  writable link cid n = belongs cid n.self n && belongs cid link.peer n

  unfoldable pub revision_of : Text → Node → Text
  revision_of cid n = elim (lookup cid n.models) [ none ↦ [] | some m ↦ revision q m ]

  -- What the socket takes: a frame is its length in four bytes and the text.
  abbrev pub send_on : ℕ → Message → Node → Option Link → Outcome
  send_on l msg n none = returns n
  send_on l msg n (some link) =
      if not link.tls
      then returns n
      else if ltb (2 * max_metadata_bytes) link.backlog
      then throws (codes "community connection is backlogged") n
      else if nat_beq (net.frame_size msg) 0 || ltb max_packet_bytes (net.frame_size msg)
      then throws (codes "community frame is too large") n
      else returns (
          note (sent l msg)
            (set_link l (record link { backlog = link.backlog + (4 + net.frame_size msg) }) n))

  unfoldable pub send : ℕ → Message → Node → Outcome
  send l msg n = send_on l msg n (lookup l n.links)

  abbrev pub communities_of : Text → List (Text × Model) → List Text
  communities_of self [] = []
  communities_of self ((k, m) ∷ ms) =
      if is_member q m self then m.id ∷ communities_of self ms else communities_of self ms

  -- The relay is told of the communities once it has answered.
  unfoldable pub register_relay : Node → Node
  register_relay n =
      if n.relay_ready then note (registered (communities_of n.self n.models)) n else n

  -- The store first, then the model.
  unfoldable pub save : Model → Node → Node
  save m n =
      let kept = record (note (saved m) n) { models = put m.id m n.models } in
      let left =
        if is_member q m n.self
        then kept
        else record kept { mine = erase m.id kept.mine; presence = erase m.id kept.presence } in
      note changed (register_relay left)

  unfoldable pub persist_pending : Node → Node
  persist_pending n = note (pending_saved n.pending) n

  unfoldable pub mine_in : Text → Node → Presence
  mine_in cid n = or_else no_presence (lookup cid n.mine)

  abbrev pub presence_object : Text → Presence → Message
  presence_object cid p = record (message (codes "presence") cid) {
    channel = p.voice_channel;
    muted = p.muted;
    deafened = p.deafened;
    sharing = p.sharing;
    camera = p.camera;
  }

  abbrev pub synced_object : Text → Node → Message
  synced_object cid n = record (message (codes "synced") cid) { revision = revision_of cid n }

  -- `for (auto* link : peers_)`
  abbrev pub each_peer : (ℕ → Link → Node → Outcome) → List (Text × ℕ) → Node → Outcome
  each_peer f [] n = returns n
  each_peer f ((p, l) ∷ ps) n =
      (elim (lookup l n.links) [ none ↦ returns n | some link ↦ f l link n ]) ▸ each_peer f ps

  unfoldable pub is_online : Text → Link → Node → Bool
  is_online cid link n = writable link cid n && has cid link.ready
