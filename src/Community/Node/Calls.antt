-- ===== src/Community/Node/Calls.antt =====
-- Node: what holds of a node through what the program asks of it, but for packets.
use disquisition.Common.{
  ℕ, inl, inr, refl, false, not, ◌||◌, Option, none, some, List, [], ◌∷◌, Text, text_eq, nat_eq,
  ◌==◌, Option-cases, leb, length, codes,
}
use disquisition.Common.Maps.{lookup, erase}
use disquisition.Common.Sets.{has}
use disquisition.Community.Model.{Toolkit, is_empty}
use disquisition.Community.Model.Log.{put}
use disquisition.Community.Model.State.{Model}
use disquisition.Community.Model.Changes.{create, issue_invite}
use disquisition.Community.Node.{
  Link, Invite, joined, aborted, voice_moved, pending_saved, Node, Network, Outcome, returns,
  throws, node_of,
}
use disquisition.Community.Node.Base.{belongs, mine_in, persist_pending}
use disquisition.Community.Node.Voice.{
  move_voice, set_voice, may_admin, has_channel, online, presence_of,
}
use disquisition.Community.Node.Commands.{
  created, create_community, join_community, invite, if_returns, shut_links, stop,
}
use disquisition.Community.Node.Connect.{Chance}
use disquisition.Community.Node.Sync.{change_saved}
use disquisition.Community.Node.Sends.{
  send_keeps, returns_keeps, throws_keeps, then_keeps, if_keeps,
}
use disquisition.Community.Node.Keeps.{
  Stable, save_keeps, change_saved_keeps, publish_profile_keeps,
}
use disquisition.Community.Node.Timer.{tick_keeps}

module _ (q : Toolkit) (net : Network) (P : Node → Type 0) (s : Stable q net P) where
  created_keeps :
      (now : ℕ) (o : Option Model) (n : Node) → P n → P (node_of (created q net now o n))
  created_keeps now none n h = throws_keeps q net P s.sends _ n h
  created_keeps now (some m) n h =
      then_keeps q net P s.sends _ _
        (publish_profile_keeps q net P s now m.id _ (save_keeps q net P s m n h))
        (λ k g. returns_keeps q net P s.sends _ (s.sends.on_note (joined m.id) k refl g))

  pub create_community_keeps :
      (now : ℕ) (name id general lounge : Text) (n : Node)
      → P n
      → P (node_of (create_community q net now name id general lounge n))
  unfolding create_community
  create_community_keeps now name id general lounge n h =
      if_keeps q net P s.sends (not n.running) _ _ (throws_keeps q net P s.sends _ n h) (
        if_keeps q net P s.sends (leb 64 (length n.models)) _ _ (throws_keeps q net P s.sends _ n h)
          (created_keeps now
            (create q n.self (net.trimmed name) n.name n.endpoint id general lounge) n h))

  pub join_community_keeps :
      (now : ℕ) (chance : Chance) (o : Option Invite) (n : Node)
      → P n
      → P (node_of (join_community q net now chance o n))
  unfolding join_community persist_pending
  join_community_keeps now chance none n h =
      if_keeps q net P s.sends (not n.running) _ _ (throws_keeps q net P s.sends _ n h)
        (throws_keeps q net P s.sends _ n h)
  join_community_keeps now chance (some i) n h =
      let pending = put i.community i n.pending in
      let tried = erase i.community n.rejected in
      let js = erase i.community n.joining in
      let ss = erase i.community n.join_started in
      if_keeps q net P s.sends (not n.running) _ _ (throws_keeps q net P s.sends _ n h) (
        if_keeps q net P s.sends (belongs q net i.community n.self n) _ _
          (returns_keeps q net P s.sends _ (s.sends.on_note (joined i.community) n refl h))
          (if_keeps q net P s.sends (leb 16 (length n.pending)) _ _
            (throws_keeps q net P s.sends _ n h)
            (returns_keeps q net P s.sends _ (
              tick_keeps q net P s now chance _ (
                s.on_wires _ n.peers [] n.next_link n.recovering_until (
                  s.sends.on_note (pending_saved pending) _ refl
                    (s.on_joins n pending js ss tried h)))))))

  if_returns_keeps :
      (o : Outcome) (f : Node → Outcome × Option Invite)
      → P (node_of o)
      → ((n : Node) → P n → P (node_of (f n).0))
      → P (node_of (if_returns q net o f).0)
  unfolding node_of
  if_returns_keeps (throws e n) f h k = h
  if_returns_keeps (returns n) f h k = k n h

  pub invite_keeps :
      (now : ℕ) (cid code : Text) (n : Node) → P n → P (node_of (invite q net now cid code n).0)
  unfolding invite
  invite_keeps now cid code n h = elim (Option-cases (lookup cid n.models)) [
    | inl e ↦ rw e (throws_keeps q net P s.sends _ n h)
    | inr (m, e) ↦ rw e (
        if_returns_keeps (change_saved q net now cid (issue_invite q n.self code m) n) _
          (change_saved_keeps q net P s now cid _ n h)
          (λ k g. elim (Option-cases (lookup cid k.models)) [
            | inl f ↦ rw f (returns_keeps q net P s.sends k g)
            | inr (m, f) ↦ rw f (returns_keeps q net P s.sends k g)
          ]))
  ]

  pub move_voice_keeps :
      (cid peer channel : Text) (n : Node) → P n → P (node_of (move_voice q net cid peer channel n))
  unfolding move_voice
  move_voice_keeps cid peer channel n h =
      let own = mine_in q net cid n in
      if_keeps q net P s.sends (not n.running || not (may_admin q net (lookup cid n.models) n.self))
        _ _ (throws_keeps q net P s.sends _ n h)
        (if_keeps q net P s.sends (not (has_channel q net cid channel (codes "voice") n)) _ _
          (throws_keeps q net P s.sends _ n h)
          (if_keeps q net P s.sends
            (not (has peer (online q net cid n))
              || (let p = presence_of q net cid peer n in is_empty p.voice_channel))
            _ _ (throws_keeps q net P s.sends _ n h)
            (if_keeps q net P s.sends (peer == n.self) _ _
              (then_keeps q net P s.sends
                (set_voice q net cid channel own.muted own.deafened false false n) _
                (s.on_voice n cid channel own.muted own.deafened false false h)
                (λ k g.
                  returns_keeps q net P s.sends _
                    (s.sends.on_note (voice_moved cid channel) k refl g)))
              (elim (Option-cases (lookup peer n.peers)) [
                | inl e ↦ rw e (returns_keeps q net P s.sends n h)
                | inr (l, e) ↦ rw e (send_keeps q net P s.sends l _ n h)
              ]))))

  shut_links_keeps : (ls : List (ℕ × Link)) (n : Node) → P n → P (shut_links q net ls n)
  shut_links_keeps [] n h = h
  shut_links_keeps ((l, link) ∷ ls) n h =
      s.sends.on_note (aborted l) _ refl (shut_links_keeps ls n h)

  pub stop_keeps : (n : Node) → P n → P (stop q net n)
  unfolding stop
  stop_keeps n h =
      let shut = shut_links q net n.links n in
      s.on_stop _ (
        s.on_presence _ [] (
          s.on_joins _ shut.pending [] [] shut.rejected (
            s.on_wires _ [] shut.retries shut.next_link shut.recovering_until
              (s.sends.on_links _ [] (shut_links_keeps n.links n h)))))
