-- ===== src/Community/Node/Messages.antt =====
-- Node: what holds of a node whatever its peers send, message by message.
use disquisition.Common.{
  ℕ, ◌*◌, inl, inr, refl, false, not, ◌&&◌, ◌||◌, Option, none, some, [], Text, text_eq, nat_eq,
  codes, ◌==◌, ltb, leb, Option-cases, length, if_case,
}
use disquisition.Common.Maps.{lookup}
use disquisition.Common.Sets.{has}
use disquisition.Community.Model.{Toolkit, max_metadata_bytes, max_operations, is_empty}
use disquisition.Community.Model.Log.{or_else, put, contains}
use disquisition.Community.Model.State.{Model}
use disquisition.Community.Node.{
  Message, Transfer, Link, changed, voice_moved, Node, Network, returns, node_of,
}
use disquisition.Community.Node.Base.{
  note, update_link, allow, begin_synchronization, claim, writable, mine_in,
}
use disquisition.Community.Node.Voice.{has_channel, set_voice, may_admin}
use disquisition.Community.Node.Merging.{merge_snapshot}
use disquisition.Community.Node.Transfers.{
  handle_state_begin, handle_state_operation, handle_state_end, operation_found, end_found,
  expected_owner, new_transfer, set_transfer, counted, with_operation, buffered,
}
use disquisition.Community.Node.Handle.{
  handle_hello, handle_join, handle_offer, offer_unwritable, handle_state_request, handle_synced,
  handle_move_voice, handle_presence, handle_ready, handle_sync, handle_greeted, handle,
  admission_of, presence_of_message, valid_request,
}
use disquisition.Community.Node.Keeps.{Stable, send_state_keeps, offer_keeps}
use disquisition.Community.Node.Sends.{
  update_link_keeps, send_keeps, returns_keeps, throws_keeps, then_keeps, if_keeps,
}
use disquisition.Community.Node.Joining.{
  process_admissions_keeps, handle_rejected_keeps, handle_redirect_keeps,
}

module _ (q : Toolkit) (net : Network) (P : Node → Type 0) (s : Stable q net P) where
  offer_unwritable_keeps :
      (now l : ℕ) (link : Link) (cid : Text) (o : Option Model) (n : Node)
      → P n
      → P (node_of (offer_unwritable q net now l link cid o n))
  offer_unwritable_keeps now l link cid none n h = returns_keeps q net P s.sends n h
  offer_unwritable_keeps now l link cid (some m) n h =
      if_keeps q net P s.sends _ _ _
        (if_keeps q net P s.sends _ _ _
          (then_keeps q net P s.sends _ _
            (send_state_keeps q net P s now l cid _ (update_link_keeps q net P s.sends l _ n h))
            (λ k g. returns_keeps q net P s.sends _ (
              update_link_keeps q net P s.sends l _ _ (update_link_keeps q net P s.sends l _ k g))))
          (returns_keeps q net P s.sends n h))
        (send_keeps q net P s.sends l _ n h)

  handle_offer_keeps :
      (now l : ℕ) (link : Link) (msg : Message) (n : Node)
      → P n
      → P (node_of (handle_offer q net now l link msg n))
  unfolding handle_offer
  handle_offer_keeps now l link msg n h =
      let known =
        update_link_keeps q net P s.sends l (claim msg.community) _
          (update_link_keeps q net P s.sends l (allow msg.community) n h) in
      if_keeps q net P s.sends _ _ _ (offer_unwritable_keeps now l link msg.community _ n h) (
        then_keeps q net P s.sends _ _
          (if_keeps q net P s.sends _ _ _
            (then_keeps q net P s.sends _ _
              (send_keeps q net P s.sends l _ _ (update_link_keeps q net P s.sends l _ _ known))
              (λ k g. send_keeps q net P s.sends l _ k g))
            (send_state_keeps q net P s now l msg.community _ known))
          (λ k g. returns_keeps q net P s.sends _ (s.sends.on_note changed k refl g)))

  handle_begin_keeps :
      (now l : ℕ) (link : Link) (msg : Message) (n : Node)
      → P n
      → P (node_of (handle_state_begin q net now l link msg n))
  unfolding handle_state_begin
  handle_begin_keeps now l link msg n h =
      let cid = msg.community in
      if_keeps q net P s.sends
        ((not (contains n.models cid) && not (contains n.pending cid))
          || (contains link.snapshots cid || leb 64 (length link.snapshots)))
        _ _ (throws_keeps q net P s.sends _ n h)
        (if_keeps q net P s.sends (ltb msg.count 1 || ltb max_operations msg.count) _ _
          (throws_keeps q net P s.sends _ n h)
          (if_keeps q net P s.sends (not (expected_owner q net cid n == msg.owner)) _ _
            (throws_keeps q net P s.sends _ n h)
            (returns_keeps q net P s.sends _ (
              update_link_keeps q net P s.sends l
                (set_transfer q net cid (new_transfer q net now msg.owner msg.count)) _
                (update_link_keeps q net P s.sends l (begin_synchronization now cid) n h)))))

  operation_found_keeps :
      (now l : ℕ) (msg : Message) (n : Node) (o : Option Transfer)
      → P n
      → P (node_of (operation_found q net now l msg n o))
  operation_found_keeps now l msg n none h = throws_keeps q net P s.sends _ n h
  operation_found_keeps now l msg n (some t) h =
      let cid = msg.community in
      let u = counted q net msg.operation t in
      let noted : Node = update_link l (set_transfer q net cid u) n in
      let g : P noted = update_link_keeps q net P s.sends l (set_transfer q net cid u) n h in
      if_keeps q net P s.sends (leb u.count (length u.operations) || ltb max_metadata_bytes u.bytes)
        _ _ (throws_keeps q net P s.sends _ noted g)
        (if_keeps q net P s.sends (ltb (2 * max_metadata_bytes) (buffered noted.links)) _ _
          (throws_keeps q net P s.sends _ noted g)
          (returns_keeps q net P s.sends _ (
            update_link_keeps q net P s.sends l (begin_synchronization now cid) _ (
              update_link_keeps q net P s.sends l
                (set_transfer q net cid (with_operation q net msg.operation u)) noted g))))

  end_found_keeps :
      (l : ℕ) (cid : Text) (n : Node) (o : Option Transfer)
      → P n
      → P (node_of (end_found q net l cid n o))
  unfolding merge_snapshot
  end_found_keeps l cid n none h = throws_keeps q net P s.sends _ n h
  end_found_keeps l cid n (some t) h =
      if_keeps q net P s.sends _ _ _ (throws_keeps q net P s.sends _ n h) (
        returns_keeps q net P s.sends _ (
          s.sends.on_note _ _ refl
            (update_link_keeps q net P s.sends l _ _ (update_link_keeps q net P s.sends l _ n h))))

  handle_synced_keeps :
      (l : ℕ) (link : Link) (msg : Message) (n : Node)
      → P n
      → P (node_of (handle_synced q net l link msg n))
  unfolding handle_synced
  handle_synced_keeps l link msg n h =
      if_keeps q net P s.sends _ _ _ (returns_keeps q net P s.sends n h) (
        then_keeps q net P s.sends _ _
          (send_keeps q net P s.sends l _ _
            (update_link_keeps q net P s.sends l _ _ (update_link_keeps q net P s.sends l _ n h)))
          (λ k g. returns_keeps q net P s.sends _ (s.sends.on_note changed k refl g)))

  handle_move_keeps :
      (link : Link) (msg : Message) (n : Node)
      → P n
      → P (node_of (handle_move_voice q net link msg n))
  unfolding handle_move_voice
  handle_move_keeps link msg n h =
      let cid = msg.community in
      let local = mine_in q net cid n in
      if_keeps q net P s.sends
        (not (may_admin q net (lookup cid n.models) link.peer)
          || (is_empty local.voice_channel
              || not (has_channel q net cid msg.channel (codes "voice") n)))
        _ _ (returns_keeps q net P s.sends n h)
        (then_keeps q net P s.sends
          (set_voice q net cid msg.channel local.muted local.deafened false false n)
          (λ k. returns (note (voice_moved cid msg.channel) k))
          (s.on_voice n cid msg.channel local.muted local.deafened false false h)
          (λ k g.
            returns_keeps q net P s.sends _
              (s.sends.on_note (voice_moved cid msg.channel) k refl g)))

  handle_presence_keeps :
      (link : Link) (msg : Message) (n : Node) → P n → P (handle_presence q net link msg n)
  unfolding handle_presence
  handle_presence_keeps link msg n h =
      if_case P
        (not (is_empty msg.channel)
          && not (has_channel q net msg.community msg.channel (codes "voice") n))
        (λ _. h)
        (λ _. s.sends.on_note changed _ refl (
          s.on_presence n
            (put msg.community
              (put link.peer (presence_of_message q net msg)
                (or_else [] (lookup msg.community n.presence)))
              n.presence)
            h))

  handle_ready_keeps :
      (link : Link) (msg : Message) (n : Node) → P n → P (node_of (handle_ready q net link msg n))
  unfolding handle_ready
  handle_ready_keeps link msg n h =
      let same = returns_keeps q net P s.sends n h in
      if_keeps q net P s.sends
        (not (writable q net link msg.community n)
          || (not (has msg.community link.allowed) || not (has msg.community link.ready)))
        _ _ same
        (if_keeps q net P s.sends (msg.type == codes "move-voice") _ _
          (handle_move_keeps link msg n h)
          (if_keeps q net P s.sends (msg.type == codes "presence") _ _
            (returns_keeps q net P s.sends _ (handle_presence_keeps link msg n h))
            (if_keeps q net P s.sends (msg.type == codes "packet") _ _
              (returns_keeps q net P s.sends _ (s.on_packet n link msg h)) same)))

  handle_sync_keeps :
      (now l : ℕ) (link : Link) (msg : Message) (n : Node)
      → P n
      → P (node_of (handle_sync q net now l link msg n))
  unfolding handle_sync handle_state_request handle_state_operation handle_state_end
  handle_sync_keeps now l link msg n h =
      if_keeps q net P s.sends (msg.type == codes "offer") _ _
        (handle_offer_keeps now l link msg n h)
        (if_keeps q net P s.sends (msg.type == codes "state-request") _ _
          (if_keeps q net P s.sends (writable q net link msg.community n) _ _
            (send_state_keeps q net P s now l msg.community n h)
            (returns_keeps q net P s.sends n h))
          (if_keeps q net P s.sends (msg.type == codes "state-begin") _ _
            (handle_begin_keeps now l link msg n h)
            (if_keeps q net P s.sends (msg.type == codes "state-operation") _ _
              (operation_found_keeps now l msg n (lookup msg.community link.snapshots) h)
              (if_keeps q net P s.sends (msg.type == codes "state-end") _ _
                (end_found_keeps l msg.community n (lookup msg.community link.snapshots) h)
                (if_keeps q net P s.sends (msg.type == codes "synced") _ _
                  (handle_synced_keeps l link msg n h) (handle_ready_keeps link msg n h))))))

  handle_join_keeps :
      (now l : ℕ) (link : Link) (msg : Message) (n : Node)
      → P n
      → P (node_of (handle_join q net now l link msg n))
  unfolding handle_join
  handle_join_keeps now l link msg n h =
      if_keeps q net P s.sends (not (valid_request q net link msg n)) _ _
        (throws_keeps q net P s.sends _ n h)
        (process_admissions_keeps q net P s now _
          (update_link_keeps q net P s.sends l (admission_of q net msg.community msg.intent) n h))

  handle_greeted_keeps :
      (now l : ℕ) (link : Link) (msg : Message) (n : Node)
      → P n
      → P (node_of (handle_greeted q net now l link msg n))
  unfolding handle_greeted
  handle_greeted_keeps now l link msg n h =
      if_keeps q net P s.sends (not link.hello) _ _ (throws_keeps q net P s.sends _ n h) (
        if_keeps q net P s.sends (msg.type == codes "ping") _ _ (send_keeps q net P s.sends l _ n h)
          (if_keeps q net P s.sends (msg.type == codes "pong") _ _
            (returns_keeps q net P s.sends n h)
            (if_keeps q net P s.sends (msg.type == codes "join") _ _
              (handle_join_keeps now l link msg n h)
              (if_keeps q net P s.sends (msg.type == codes "rejected") _ _
                (returns_keeps q net P s.sends _
                  (handle_rejected_keeps q net P s l msg.community n h))
                (if_keeps q net P s.sends (msg.type == codes "redirect") _ _
                  (handle_redirect_keeps q net P s msg n h)
                  (handle_sync_keeps now l link msg n h))))))

  pub handle_keeps :
      (now : ℕ) (code : Text) (l : ℕ) (msg : Message) (n : Node)
      → P n
      → P (node_of (handle q net now code l msg n))
  unfolding handle handle_hello
  handle_keeps now code l msg n h = elim (Option-cases (lookup l n.links)) [
    | inl e ↦ rw e (returns_keeps q net P s.sends n h)
    | inr (link, e) ↦ rw e (
        if_keeps q net P s.sends _ _ _
          (if_keeps q net P s.sends _ _ _ (throws_keeps q net P s.sends _ n h) (
            then_keeps q net P s.sends _ _
              (offer_keeps q net P s now code l _ (update_link_keeps q net P s.sends l _ n h))
              (λ k g. returns_keeps q net P s.sends _ (s.sends.on_note changed k refl g))))
          (handle_greeted_keeps now l link msg n h))
  ]
