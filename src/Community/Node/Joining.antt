-- ===== src/Community/Node/Joining.antt =====
-- Node: what holds of a node whatever its peers send, where they ask to join or are asked.
use disquisition.Common.{
  ℕ, inl, inr, refl, Bool, false, not, ◌&&◌, ◌||◌, Option, none, some, List, [], ◌∷◌, Text, text_eq,
  nat_eq, codes, ◌==◌, Option-cases, if_case,
}
use disquisition.Common.Maps.{lookup, erase}
use disquisition.Community.Model.{Intent, Toolkit, is_empty}
use disquisition.Community.Model.Log.{put, keys, contains}
use disquisition.Community.Model.State.{Model}
use disquisition.Community.Model.Changes.{is_member, accepts_intent, host}
use disquisition.Community.Node.{
  Message, message, Link, Route, join_rejected, pending_saved, closed, ticks, Node, Network,
  Outcome, returns, throws, node_of,
}
use disquisition.Community.Node.Base.{note, send, persist_pending}
use disquisition.Community.Node.Voice.{online, synchronizing}
use disquisition.Community.Node.Merging.{forget_joining}
use disquisition.Community.Node.Admission.{
  closes_if_idle, let_in, try_admit_to, or_rejected, admit_from, admit_one, admit_each, admit_on,
  process_admissions, redirect_object, admitted_model, nothing_left,
}
use disquisition.Community.Node.Invitations.{
  handle_rejected, handle_redirect, is_joining_on, refusal, redirected, has_route,
}
use disquisition.Community.Node.Keeps.{Stable, save_keeps, broadcast_state_keeps}
use disquisition.Community.Node.Sends.{
  update_link_keeps, send_keeps, returns_keeps, throws_keeps, then_keeps, if_keeps, each_peer_keeps,
}

module _ (q : Toolkit) (net : Network) (P : Node → Type 0) (s : Stable q net P) where
  closes_if_idle_keeps :
      (l : ℕ) (o : Outcome) → P (node_of o) → P (node_of (closes_if_idle q net l o).0)
  unfolding node_of
  closes_if_idle_keeps l (throws e n) h = h
  closes_if_idle_keeps l (returns n) h =
      if_case (λ (r : Outcome × Bool). P (node_of r.0)) (nothing_left q net (lookup l n.links))
        (λ _. s.sends.on_note (closed l) n refl h) (λ _. h)

  let_in_keeps :
      (now l : ℕ) (cid : Text) (o : Option Model) (n : Node)
      → P n
      → P (node_of (let_in q net now l cid o n))
  let_in_keeps now l cid none n h = throws_keeps q net P s.sends _ n h
  let_in_keeps now l cid (some m) n h = broadcast_state_keeps q net P s now cid _ (
      update_link_keeps q net P s.sends l _ _
        (update_link_keeps q net P s.sends l _ _ (save_keeps q net P s m n h)))

  redirect_keeps :
      (l : ℕ) (o : Outcome)
      → P (node_of o)
      → P (
          node_of
            (elim o as (λ _. Outcome × Bool) [
              | throws e n ↦ (throws e n, false)
              | returns n ↦ closes_if_idle q net l (returns n)
            ]).0)
  redirect_keeps l (throws e n) h = h
  redirect_keeps l (returns n) h = closes_if_idle_keeps l (returns n) h

  try_admit_keeps :
      (now l : ℕ) (cid : Text) (intent : Intent) (link : Link) (o : Option Model) (n : Node)
      → P n
      → P (node_of (try_admit_to q net now l cid intent link o n).0)
  try_admit_keeps now l cid intent link none n h = throws_keeps q net P s.sends _ n h
  try_admit_keeps now l cid intent link (some m) n h =
      let preferred = host (online q net cid n) m in
      if_case (λ (r : Outcome × Bool). P (node_of r.0))
        (not (is_member q m n.self) || not (accepts_intent q n.self intent m))
        (λ _. throws_keeps q net P s.sends _ n h)
        (λ _.
          if_case (λ (r : Outcome × Bool). P (node_of r.0))
            (not (is_empty preferred) && not (preferred == n.self))
            (λ _.
              redirect_keeps l (send q net l (redirect_object q net cid preferred m) n)
                (send_keeps q net P s.sends l _ n h))
            (λ _. let_in_keeps now l cid (admitted_model q net n.self intent link m) n h))

  or_rejected_keeps :
      (l : ℕ) (cid : Text) (r : Outcome × Bool)
      → P (node_of r.0)
      → P (node_of (or_rejected q net l cid r).0)
  unfolding node_of
  or_rejected_keeps l cid (returns n, b) h = h
  or_rejected_keeps l cid (throws e n, b) h =
      closes_if_idle_keeps l (send q net l (message (codes "rejected") cid) n)
        (send_keeps q net P s.sends l (message (codes "rejected") cid) n h)

  admit_from_keeps :
      (now l : ℕ) (cid : Text) (n : Node) (link : Link) (o : Option Intent)
      → P n
      → P (node_of (admit_from q net now l cid n link o).0)
  admit_from_keeps now l cid n link none h = returns_keeps q net P s.sends n h
  admit_from_keeps now l cid n link (some intent) h =
      or_rejected_keeps l cid _
        (try_admit_keeps now l cid intent link _ _ (update_link_keeps q net P s.sends l _ n h))

  admit_one_keeps :
      (now l : ℕ) (cid : Text) (n : Node) → P n → P (node_of (admit_one q net now l cid n).0)
  unfolding admit_one
  admit_one_keeps now l cid n h =
      if_case (λ (r : Outcome × Bool). P (node_of r.0)) (synchronizing q net now cid n)
        (λ _. returns_keeps q net P s.sends n h)
        (λ _. elim (Option-cases (lookup l n.links)) [
          | inl e ↦ rw e (returns_keeps q net P s.sends n h)
          | inr (link, e) ↦ rw e (admit_from_keeps now l cid n link _ h)
        ])

  admit_each_keeps :
      (now l : ℕ) (cids : List Text) (n : Node) → P n → P (node_of (admit_each q net now l cids n))
  unfolding admit_each
  admit_each_keeps now l [] n h = returns_keeps q net P s.sends n h
  admit_each_keeps now l (cid ∷ cids) n h =
      then_keeps q net P s.sends _ _ (admit_one_keeps now l cid n h) (λ m g.
        if_keeps q net P s.sends _ _ _ (returns_keeps q net P s.sends m g)
          (admit_each_keeps now l cids m g))

  pub process_admissions_keeps :
      (now : ℕ) (n : Node) → P n → P (node_of (process_admissions q net now n))
  unfolding process_admissions
  process_admissions_keeps now n h =
      each_peer_keeps q net P s.sends (admit_on q net now) n.peers n
        (λ l link m g. admit_each_keeps now l (keys link.admissions) m g) h

  pub handle_rejected_keeps :
      (l : ℕ) (cid : Text) (n : Node) → P n → P (handle_rejected q net l cid n)
  unfolding handle_rejected persist_pending
  handle_rejected_keeps l cid n h =
      if_case P (is_joining_on q net l (lookup cid n.joining) && contains n.pending cid)
        (λ _.
          let ps = erase cid n.pending in
          let js = erase cid n.joining in
          let ss = erase cid n.join_started in
          let left : Node = record n { pending = ps; joining = js; join_started = ss } in
          s.sends.on_note (join_rejected cid (refusal q net)) _ refl (
            s.on_joins (note (pending_saved ps) left) ps js ss (put cid (refusal q net) n.rejected)
              (s.sends.on_note (pending_saved ps) left refl (s.on_joins n ps js ss n.rejected h))))
        (λ _. h)

  pub handle_redirect_keeps :
      (msg : Message) (n : Node) → P n → P (node_of (handle_redirect q net msg n))
  unfolding handle_redirect persist_pending
  handle_redirect_keeps msg n h = elim (Option-cases (lookup msg.community n.pending)) [
    | inl e ↦ rw e (returns_keeps q net P s.sends n h)
    | inr (i, e) ↦
        let r : Route = record { peer = msg.peer; endpoint = msg.endpoint } in
        let ps = put msg.community (record i { seeds = redirected q net r i.seeds }) n.pending in
        let routed : Node = record n { pending = ps } in
        let g : P routed = s.on_joins n ps n.joining n.join_started n.rejected h in
        rw e (
          if_keeps q net P s.sends _ _ _ (throws_keeps q net P s.sends _ n h) (
            returns_keeps q net P s.sends _ (
              s.sends.on_note ticks _ refl (
                if_case (λ (k : Node). P (forget_joining q net msg.community k))
                  (has_route r i.seeds) (λ _. s.on_joins routed _ _ _ _ g)
                  (λ _.
                    s.on_joins (note (pending_saved ps) routed) _ _ _ _
                      (s.sends.on_note (pending_saved ps) routed refl g))))))
  ]
