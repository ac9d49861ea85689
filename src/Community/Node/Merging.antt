-- ===== src/Community/Node/Merging.antt =====
-- Node: validating a snapshot, and what becomes of the candidate.
use disquisition.Common.{
  ℕ, Bool, true, false, not, ◌&&◌, Option, none, some, [], Text, text_eq, nat_eq, codes, ◌==◌,
  if◌then◌else◌,
}
use disquisition.Common.Maps.{lookup, erase}
use disquisition.Common.Sets.{has}
use disquisition.Community.Model.{Toolkit}
use disquisition.Community.Model.Log.{contains, is_some}
use disquisition.Community.Model.State.{Model, Snapshot, from_json, merge}
use disquisition.Community.Model.Changes.{is_member}
use disquisition.Community.Node.{
  Link, changed, joined, error_occurred, aborted, validates, Node, Network, Outcome, returns,
  throws, ◌▸◌,
}
use disquisition.Community.Node.Base.{
  note, update_link, allow, mark_ready, claim, withdraw, revision, writable, send, save,
  persist_pending, mine_in, presence_object, synced_object,
}
use disquisition.Community.Node.Sync.{failed, broadcast_state, publish_profile}

module _ (q : Toolkit) (net : Network) where
  -- A snapshot is validated in another thread against a copy of the model.
  abbrev pub start_merging : Link → Link
  start_merging link = record link { merging = true }

  unfoldable pub merge_snapshot : ℕ → Text → Snapshot → Node → Node
  merge_snapshot l cid s n =
      note (validates l cid s (lookup cid n.models)) (update_link l start_merging n)

  abbrev pub with_change : Option Model → Option (Model × Bool)
  with_change none = none
  with_change (some m) = some (m, true)

  unfoldable pub validated : Text → Snapshot → Option Model → Option (Model × Bool)
  validated cid s none = with_change (from_json q s cid s.owner)
  validated cid s (some m) = merge q s m

  abbrev pub revision_in : Option Model → Text
  revision_in none = []
  revision_in (some m) = revision q m

  abbrev pub forget_joining : Text → Node → Node
  forget_joining cid n = record n {
    joining = erase cid n.joining;
    join_started = erase cid n.join_started;
  }

  abbrev pub end_joining : Text → Node → Node
  end_joining cid n =
      let left = forget_joining cid (record n { pending = erase cid n.pending }) in
      note (joined cid) (persist_pending q net left)

  abbrev pub end_merging : Link → Link
  end_merging link = record link { merging = false }

  abbrev pub drop_transfer : Text → Link → Link
  drop_transfer cid link = record link { snapshots = erase cid link.snapshots }

  -- The rest of the handler, once the candidate is accepted.
  unfoldable pub settle : ℕ → ℕ → Text → Link → Bool → Node → Outcome
  settle now l cid link has_changes n =
      let claimed = update_link l (claim cid) n in
      (if writable q net link cid n
        then (let ready = update_link l (mark_ready cid) (update_link l (allow cid) claimed) in
            send q net l (synced_object q net cid ready) ready ▸ λ n.
            send q net l (presence_object q net cid (mine_in q net cid n)) n)
        else returns (update_link l (withdraw cid) claimed))
      ▸ λ n.
          (if has_changes then broadcast_state q net now cid n else returns n)
          ▸ publish_profile q net now cid
          ▸ λ n. returns (update_link l end_merging (note changed n))

  abbrev pub candidate_found : ℕ → ℕ → Text → Link → Option (Model × Bool) → Node → Outcome
  candidate_found now l cid link none n = throws (failed q net) n
  candidate_found now l cid link (some (candidate, has_changes)) n =
      let received = update_link l (drop_transfer cid) n in
      let joining = contains n.pending cid in
      let admitted = is_member q candidate n.self in
      if not (is_member q candidate link.peer) && not (has cid link.allowed)
      then throws (codes "snapshot sender is not a member") received
      else if joining && (not admitted && not (contains n.models cid))
      then throws (codes "admission proof was not accepted") received
      else let kept = if has_changes then save q net candidate received else received in
        settle now l cid link has_changes
          (if joining && admitted then end_joining cid kept else kept)

  -- What a thrown error does here and in `read`.
  abbrev pub aborts_on_error : ℕ → Outcome → Node
  aborts_on_error l (returns n) = n
  aborts_on_error l (throws e n) =
      let told = note (error_occurred e) n in
      if is_some (lookup l n.links) then note (aborted l) told else told

  abbrev pub merge_finished_on : ℕ → ℕ → Text → Snapshot → Option Model → Node → Option Link → Node
  merge_finished_on now l cid s base n none = n
  merge_finished_on now l cid s base n (some link) =
      if not (revision_in (lookup cid n.models) == revision_in base)
        && is_some (validated cid s base)
      then merge_snapshot l cid s n
      else aborts_on_error l (candidate_found now l cid link (validated cid s base) n)

  -- The validation of a snapshot against `base` is done.
  unfoldable pub merge_finished : ℕ → ℕ → Text → Snapshot → Option Model → Node → Node
  merge_finished now l cid s base n = merge_finished_on now l cid s base n (lookup l n.links)
