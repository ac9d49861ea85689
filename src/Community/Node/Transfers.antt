-- ===== src/Community/Node/Transfers.antt =====
-- Node: a snapshot as it comes in, from its beginning over its operations to its end.
use disquisition.Common.{
  ℕ, ◌+◌, ◌*◌, true, false, not, ◌&&◌, ◌||◌, Option, none, some, List, [], ◌∷◌, ◌++◌, Text, text_eq,
  nat_eq, codes, ◌==◌, ltb, leb, nat_beq, if◌then◌else◌, length,
}
use disquisition.Common.Maps.{lookup, insert, sum_of}
use disquisition.Community.Model.{Operation, Toolkit, max_metadata_bytes, max_operations}
use disquisition.Community.Model.Log.{contains}
use disquisition.Community.Node.{
  Message, Transfer, Link, Invite, Node, Network, Outcome, returns, throws,
}
use disquisition.Community.Node.Base.{update_link, begin_synchronization}
use disquisition.Community.Node.Merging.{merge_snapshot}

abbrev pub bytes_among : List (Text × Transfer) → ℕ
bytes_among = sum_of (λ cid (t : Transfer). t.bytes)

-- The bytes of all snapshots that are coming in.
abbrev pub buffered : List (ℕ × Link) → ℕ
buffered = sum_of (λ l (link : Link). bytes_among link.snapshots)

module _ (q : Toolkit) (net : Network) where
  -- The owner that a snapshot has to name.
  abbrev pub owner_of_pending : Option Invite → Text
  owner_of_pending none = []
  owner_of_pending (some invite) = invite.owner

  abbrev pub expected_owner : Text → Node → Text
  expected_owner cid n = elim (lookup cid n.models) [
    | none ↦ owner_of_pending (lookup cid n.pending)
    | some m ↦ m.owner
  ]

  abbrev pub set_transfer : Text → Transfer → Link → Link
  set_transfer cid t link = record link { snapshots = insert cid t link.snapshots }

  abbrev pub new_transfer : ℕ → Text → ℕ → Transfer
  new_transfer now owner count = record {
    owner = owner;
    operations = [];
    count = count;
    bytes = 0;
    started = now;
    complete = false;
  }

  unfoldable pub handle_state_begin : ℕ → ℕ → Link → Message → Node → Outcome
  handle_state_begin now l link msg n =
      let cid = msg.community in
      if (not (contains n.models cid) && not (contains n.pending cid))
        || (contains link.snapshots cid || leb 64 (length link.snapshots))
      then throws (codes "unexpected community snapshot") n
      else if ltb msg.count 1 || ltb max_operations msg.count
      then throws (codes "invalid snapshot count") n
      else if not (expected_owner cid n == msg.owner)
      then throws (codes "community owner mismatch") n
      else returns (
          update_link l (set_transfer cid (new_transfer now msg.owner msg.count))
            (update_link l (begin_synchronization now cid) n))

  abbrev pub counted : Option Operation → Transfer → Transfer
  counted op t = record t { bytes = t.bytes + net.operation_size op }

  abbrev pub with_operation : Option Operation → Transfer → Transfer
  with_operation op t = record t { operations = t.operations ++ op ∷ [] }

  -- Its bytes are counted before the limits are looked at.
  abbrev pub operation_found : ℕ → ℕ → Message → Node → Option Transfer → Outcome
  operation_found now l msg n none = throws (codes "snapshot was not started") n
  operation_found now l msg n (some t) =
      let cid = msg.community in
      let u = counted msg.operation t in
      let noted = update_link l (set_transfer cid u) n in
      if leb u.count (length u.operations) || ltb max_metadata_bytes u.bytes
      then throws (codes "snapshot exceeds its limits") noted
      else if ltb (2 * max_metadata_bytes) (buffered noted.links)
      then throws (codes "too many metadata transfers in progress") noted
      else returns (
          update_link l (begin_synchronization now cid)
            (update_link l (set_transfer cid (with_operation msg.operation u)) noted))

  unfoldable pub handle_state_operation : ℕ → ℕ → Link → Message → Node → Outcome
  handle_state_operation now l link msg n =
      operation_found now l msg n (lookup msg.community link.snapshots)

  abbrev pub end_found : ℕ → Text → Node → Option Transfer → Outcome
  end_found l cid n none = throws (codes "snapshot was not started") n
  end_found l cid n (some t) =
      if not (nat_beq (length t.operations) t.count)
      then throws (codes "incomplete community snapshot") n
      else returns (
          merge_snapshot q net l cid
            (record {
              version = 1;
              id = cid;
              owner = t.owner;
              operations = t.operations;
              size = net.snapshot_size cid t.owner t.operations;
            })
            (update_link l (set_transfer cid (record t { complete = true })) n))

  unfoldable pub handle_state_end : ℕ → Link → Message → Node → Outcome
  handle_state_end l link msg n = end_found l msg.community n (lookup msg.community link.snapshots)
