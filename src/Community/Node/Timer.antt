-- ===== src/Community/Node/Timer.antt =====
-- Node: what holds of a node through its timer.
use disquisition.Common.{
  ℕ, inl, inr, refl, not, ◌&&◌, ◌||◌, Option, none, some, List, [], ◌∷◌, Text, text_eq, nat_eq,
  ◌==◌, Option-cases, if_case, nat_beq, leb,
}
use disquisition.Common.Maps.{lookup}
use disquisition.Community.Model.{Member, Toolkit}
use disquisition.Community.Model.Log.{contains, put}
use disquisition.Community.Model.State.{Model}
use disquisition.Community.Model.Changes.{is_member}
use disquisition.Community.Node.{
  Link, Route, Invite, changed, error_occurred, aborted, Node, Network, Outcome, returns, throws,
  node_of,
}
use disquisition.Community.Node.Sends.{send_keeps, returns_keeps, then_keeps, if_keeps}
use disquisition.Community.Node.Keeps.{Stable}
use disquisition.Community.Node.Connect.{Chance}
use disquisition.Community.Node.Tick.{
  look_after_each, dial_each, dial_members, select, join_by, go_on, try_seeds, join_each, recovered,
  tick_links, tells_error, tick,
}
use disquisition.Community.Node.Keeps.{offer_keeps}
use disquisition.Community.Node.Joining.{process_admissions_keeps}
use disquisition.Community.Node.Connections.{dial_keeps}

module _ (q : Toolkit) (net : Network) (P : Node → Type 0) (s : Stable q net P) where
  look_after_each_keeps :
      (now : ℕ) (ls : List (ℕ × Link)) (n : Node)
      → P n
      → P (node_of (look_after_each q net now ls n))
  unfolding look_after_each
  look_after_each_keeps now [] n h = returns_keeps q net P s.sends n h
  look_after_each_keeps now ((l, _) ∷ ls) n h =
      then_keeps q net P s.sends _ (look_after_each q net now ls)
        (elim (Option-cases (lookup l n.links)) [
          | inl e ↦ rw e (returns_keeps q net P s.sends n h)
          | inr (link, e) ↦ rw e (
              if_keeps q net P s.sends _ _ _
                (returns_keeps q net P s.sends _ (s.sends.on_note (aborted l) n refl h))
                (if_keeps q net P s.sends _ _ _ (send_keeps q net P s.sends l _ n h)
                  (returns_keeps q net P s.sends n h)))
        ])
        (look_after_each_keeps now ls)

  dial_each_keeps :
      (now : ℕ) (chance : Chance) (ms : List (Text × Member)) (n : Node)
      → P n
      → P (dial_each q net now chance ms n)
  dial_each_keeps now chance [] n h = h
  dial_each_keeps now chance ((k, member) ∷ ms) n h = dial_each_keeps now chance ms _ (
      if_case P (member.id == n.self || contains n.peers member.id) (λ _. h)
        (λ _. dial_keeps q net P s now chance member.id member.endpoint [] n h))

  dial_members_keeps :
      (now : ℕ) (chance : Chance) (ms : List (Text × Model)) (n : Node)
      → P n
      → P (dial_members q net now chance ms n)
  unfolding dial_members
  dial_members_keeps now chance [] n h = h
  dial_members_keeps now chance ((k, m) ∷ ms) n h =
      dial_members_keeps now chance ms _
        (if_case P (is_member q m n.self) (λ _. dial_each_keeps now chance m.members n h) (λ _. h))

  select_keeps :
      (now : ℕ) (chance : Chance) (cid : Text) (seed : Route) (n : Node)
      → P n
      → P (select q net now chance cid seed n).0
  select_keeps now chance cid seed n h = elim (Option-cases (lookup seed.peer n.peers)) [
    | inl e ↦ rw (select, e) (dial_keeps q net P s now chance seed.peer seed.endpoint cid n h)
    | inr (l, e) ↦ rw (select, e) h
  ]

  join_by_keeps :
      (now : ℕ) (chance : Chance) (cid : Text) (l : ℕ) (n : Node)
      → P n
      → P (node_of (join_by q net now chance cid l n))
  join_by_keeps now chance cid l n h =
      let g =
        s.on_joins n n.pending (put cid l n.joining) (put cid now n.join_started) n.rejected h in
      if_keeps q net P s.sends _ _ _ (offer_keeps q net P s now (chance.code_of l) l _ g)
        (returns_keeps q net P s.sends _ g)

  go_on_keeps :
      (next : Node → Outcome) (found : ℕ → Node → Outcome) (r : Node × Option ℕ)
      → ((n : Node) → P n → P (node_of (next n)))
      → ((l : ℕ) (n : Node) → P n → P (node_of (found l n)))
      → P r.0
      → P (node_of (go_on q net next found r))
  go_on_keeps next found (n, none) k g h = k n h
  go_on_keeps next found (n, some l) k g h = g l n h

  try_seeds_keeps :
      (now : ℕ) (chance : Chance) (cid : Text) (seeds : List Route) (n : Node)
      → P n
      → P (node_of (try_seeds q net now chance cid seeds n))
  unfolding try_seeds
  try_seeds_keeps now chance cid [] n h = returns_keeps q net P s.sends n h
  try_seeds_keeps now chance cid (seed ∷ seeds) n h =
      go_on_keeps _ _ (select q net now chance cid seed n) (try_seeds_keeps now chance cid seeds)
        (join_by_keeps now chance cid) (select_keeps now chance cid seed n h)

  join_each_keeps :
      (now : ℕ) (chance : Chance) (ps : List (Text × Invite)) (n : Node)
      → P n
      → P (node_of (join_each q net now chance ps n))
  unfolding join_each
  join_each_keeps now chance [] n h = returns_keeps q net P s.sends n h
  join_each_keeps now chance ((cid, _) ∷ ps) n h =
      then_keeps q net P s.sends _ (join_each q net now chance ps)
        (elim (Option-cases (lookup cid n.pending)) [
          | inl e ↦ rw e (returns_keeps q net P s.sends n h)
          | inr (invite, e) ↦ rw e (
              if_keeps q net P s.sends _ _ _
                (if_keeps q net P s.sends _ _ _ (returns_keeps q net P s.sends n h)
                  (try_seeds_keeps now chance cid _ _ (s.on_joins n _ _ _ n.rejected h)))
                (try_seeds_keeps now chance cid invite.seeds n h))
        ])
        (join_each_keeps now chance ps)

  tells_error_keeps : (o : Outcome) → P (node_of o) → P (tells_error q net o)
  unfolding node_of
  tells_error_keeps (returns n) h = h
  tells_error_keeps (throws e n) h = s.sends.on_note (error_occurred e) n refl h

  recovered_keeps : (now : ℕ) (n : Node) → P n → P (recovered q net now n)
  recovered_keeps now n h =
      if_case P (not (nat_beq n.recovering_until 0) && leb n.recovering_until now)
        (λ _. s.sends.on_note changed _ refl (s.on_wires n n.peers n.retries n.next_link 0 h))
        (λ _. h)

  pub tick_keeps : (now : ℕ) (chance : Chance) (n : Node) → P n → P (tick q net now chance n)
  unfolding tick tick_links
  tick_keeps now chance n h =
      if_case P (not n.running) (λ _. h)
        (λ _.
          let r = recovered q net now n in
          tells_error_keeps _ (
            then_keeps q net P s.sends (look_after_each q net now r.links r) _
              (look_after_each_keeps now r.links r (recovered_keeps now n h))
              (λ m g.
                then_keeps q net P s.sends (returns (dial_members q net now chance m.models m)) _
                  (returns_keeps q net P s.sends _ (dial_members_keeps now chance m.models m g))
                  (λ k d.
                    then_keeps q net P s.sends (join_each q net now chance k.pending k) _
                      (join_each_keeps now chance k.pending k d)
                      (process_admissions_keeps q net P s now)))))
