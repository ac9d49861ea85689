-- ===== src/Community/Node/Inputs.antt =====
-- Node: what holds of a node through what it reads, the ends of merges and edits.
use disquisition.Common.{
  ℕ, inl, inr, refl, Bool, not, ◌&&◌, ◌||◌, Option, none, some, List, [], ◌∷◌, Text, text_eq,
  nat_eq, ◌==◌, if◌then◌else◌, Option-cases, if_case,
}
use disquisition.Common.Maps.{lookup, erase}
use disquisition.Common.Sets.{has}
use disquisition.Community.Model.{Details, Toolkit}
use disquisition.Community.Model.Log.{contains, is_some}
use disquisition.Community.Model.State.{Model, Snapshot}
use disquisition.Community.Model.Changes.{is_member}
use disquisition.Community.Node.{
  Message, Link, changed, joined, error_occurred, pending_saved, aborted, validates, Node, Network,
  Outcome, returns, throws, node_of,
}
use disquisition.Community.Node.Base.{
  note, update_link, allow, mark_ready, claim, withdraw, writable, save, persist_pending,
}
use disquisition.Community.Node.Sync.{publish_profile}
use disquisition.Community.Node.Merging.{
  merge_snapshot, aborts_on_error, settle, candidate_found, merge_finished, validated, revision_in,
  start_merging, drop_transfer,
}
use disquisition.Community.Node.Handle.{handle}
use disquisition.Community.Node.Sends.{
  update_link_keeps, send_keeps, returns_keeps, throws_keeps, then_keeps, if_keeps,
}
use disquisition.Community.Node.Keeps.{
  Stable, save_keeps, broadcast_state_keeps, change_saved_keeps, publish_profile_keeps,
}
use disquisition.Community.Node.Messages.{handle_keeps}
use disquisition.Community.Node.Connect.{read, read_messages, is_paused, touch}
use disquisition.Community.Node.Commands.{edit}

module _ (q : Toolkit) (net : Network) (P : Node → Type 0) (s : Stable q net P) where
  read_messages_keeps :
      (now : ℕ) (code : Text) (l : ℕ) (msgs : List Message) (n : Node)
      → P n
      → P (node_of (read_messages q net now code l msgs n))
  unfolding read_messages
  read_messages_keeps now code l [] n h = returns_keeps q net P s.sends n h
  read_messages_keeps now code l (msg ∷ msgs) n h =
      then_keeps q net P s.sends (handle q net now code l msg n) _
        (handle_keeps q net P s now code l msg n h)
        (λ m g.
          if_keeps q net P s.sends (is_paused q net (lookup l m.links)) _ _
            (returns_keeps q net P s.sends m g) (read_messages_keeps now code l msgs m g))

  aborts_on_error_keeps : (l : ℕ) (o : Outcome) → P (node_of o) → P (aborts_on_error q net l o)
  unfolding node_of
  aborts_on_error_keeps l (returns n) h = h
  aborts_on_error_keeps l (throws e n) h =
      let told : P (note (error_occurred e) n) = s.sends.on_note (error_occurred e) n refl h in
      if_case P (is_some (lookup l n.links)) (λ _. s.sends.on_note (aborted l) _ refl told)
        (λ _. told)

  pub read_keeps :
      (now : ℕ) (code : Text) (l : ℕ) (msgs : List Message) (n : Node)
      → P n
      → P (read q net now code l msgs n)
  unfolding read
  read_keeps now code l msgs n h = elim (Option-cases (lookup l n.links)) [
    | inl e ↦ rw e h
    | inr (link, e) ↦
        let g = update_link_keeps q net P s.sends l (touch q net now) n h in
        rw e (
          if_case P (not link.tls || link.merging) (λ _. g)
            (λ _. aborts_on_error_keeps l _ (read_messages_keeps now code l msgs _ g)))
  ]

  settle_keeps :
      (now l : ℕ) (cid : Text) (link : Link) (b : Bool) (n : Node)
      → P n
      → P (node_of (settle q net now l cid link b n))
  unfolding settle
  settle_keeps now l cid link b n h =
      let t = s.sends in
      let claimed = update_link l (claim cid) n in
      let g = update_link_keeps q net P t l (claim cid) n h in
      then_keeps q net P t _ _
        (if_keeps q net P t (writable q net link cid n) _ _
          (then_keeps q net P t _ _
            (send_keeps q net P t l _ _ (
              update_link_keeps q net P t l (mark_ready cid) _
                (update_link_keeps q net P t l (allow cid) claimed g)))
            (λ k f. send_keeps q net P t l _ k f))
          (returns_keeps q net P t _ (update_link_keeps q net P t l (withdraw cid) claimed g)))
        (λ m f.
          then_keeps q net P t _ _
            (then_keeps q net P t _ (publish_profile q net now cid)
              (if_keeps q net P t b _ _ (broadcast_state_keeps q net P s now cid m f)
                (returns_keeps q net P t m f))
              (publish_profile_keeps q net P s now cid))
            (λ k d.
              returns_keeps q net P t _
                (update_link_keeps q net P t l _ _ (t.on_note changed k refl d))))

  candidate_found_keeps :
      (now l : ℕ) (cid : Text) (link : Link) (o : Option (Model × Bool)) (n : Node)
      → P n
      → P (node_of (candidate_found q net now l cid link o n))
  unfolding persist_pending
  candidate_found_keeps now l cid link none n h = throws_keeps q net P s.sends _ n h
  candidate_found_keeps now l cid link (some (candidate, has_changes)) n h =
      let t = s.sends in
      let received : Node = update_link l (drop_transfer q net cid) n in
      let g : P received = update_link_keeps q net P t l (drop_transfer q net cid) n h in
      let kept : Node = if has_changes then save q net candidate received else received in
      let f : P kept =
        if_case P has_changes (λ _. save_keeps q net P s candidate received g) (λ _. g) in
      let joining = contains n.pending cid in
      let admitted = is_member q candidate n.self in
      let left : Node = record kept {
        pending = erase cid kept.pending;
        joining = erase cid kept.joining;
        join_started = erase cid kept.join_started;
      } in
      let d : P left = s.on_joins kept _ _ _ kept.rejected f in
      if_keeps q net P t (not (is_member q candidate link.peer) && not (has cid link.allowed)) _ _
        (throws_keeps q net P t _ received g)
        (if_keeps q net P t (joining && (not admitted && not (contains n.models cid))) _ _
          (throws_keeps q net P t _ received g)
          (settle_keeps now l cid link has_changes _ (
            if_case P (joining && admitted)
              (λ _.
                t.on_note (joined cid) _ refl (t.on_note (pending_saved left.pending) left refl d))
              (λ _. f))))

  pub merge_finished_keeps :
      (now l : ℕ) (cid : Text) (r : Snapshot) (base : Option Model) (n : Node)
      → P n
      → P (merge_finished q net now l cid r base n)
  unfolding merge_finished merge_snapshot
  merge_finished_keeps now l cid r base n h = elim (Option-cases (lookup l n.links)) [
    | inl e ↦ rw e h
    | inr (link, e) ↦ rw e (
        if_case P
          (not (revision_in q net (lookup cid n.models) == revision_in q net base)
            && is_some (validated q net cid r base))
          (λ _.
            s.sends.on_note (validates l cid r (lookup cid n.models)) _ refl
              (update_link_keeps q net P s.sends l (start_merging q net) n h))
          (λ _.
            aborts_on_error_keeps l _
              (candidate_found_keeps now l cid link (validated q net cid r base) n h)))
  ]

  pub edit_keeps :
      (now : ℕ) (cid kind : Text) (d : Details) (n : Node)
      → P n
      → P (node_of (edit q net now cid kind d n))
  unfolding edit
  edit_keeps now cid kind d n h = elim (Option-cases (lookup cid n.models)) [
    | inl e ↦ rw (e, edit) (throws_keeps q net P s.sends _ n h)
    | inr (m, e) ↦ rw (e, edit) (change_saved_keeps q net P s now cid _ n h)
  ]
