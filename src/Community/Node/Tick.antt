-- ===== src/Community/Node/Tick.antt =====
-- Node: what it does twice a second.
use disquisition.Common.{
  ℕ, ◌-◌, Bool, false, not, ◌&&◌, ◌||◌, Option, none, some, List, [], ◌∷◌, ◌++◌, Text, text_eq,
  nat_eq, codes, ◌==◌, ltb, leb, nat_beq, if◌then◌else◌, length,
}
use disquisition.Common.Maps.{lookup}
use disquisition.Community.Model.{Member, Toolkit}
use disquisition.Community.Model.Log.{or_else, put, contains}
use disquisition.Community.Model.State.{Model}
use disquisition.Community.Model.Changes.{is_member}
use disquisition.Community.Node.{
  message, Transfer, Link, Route, Invite, changed, error_occurred, aborted, Node, Network, Outcome,
  returns, throws, ◌▸◌,
}
use disquisition.Community.Node.Base.{note, send}
use disquisition.Community.Node.Sync.{offer}
use disquisition.Community.Node.Merging.{forget_joining}
use disquisition.Community.Node.Admission.{process_admissions}
use disquisition.Community.Node.Connect.{Chance, dial, route_key, link_on}

abbrev pub transfer_timeout : ℕ
transfer_timeout = 20000

abbrev pub any_stalled : ℕ → List (Text × Transfer) → Bool
any_stalled now [] = false
any_stalled now ((cid, t) ∷ ts) =
    (not t.complete && ltb transfer_timeout (now - t.started)) || any_stalled now ts

-- A link that has not greeted in time, that is silent, whose transfer stalls, or that serves no community.
unfoldable pub is_dead : ℕ → Link → Bool
is_dead now link =
    (not link.hello && ltb 10000 (now - link.started))
    || ((link.hello && ltb 35000 (now - link.touched))
        || (any_stalled now link.snapshots
            || (link.hello
                && (nat_beq (length link.allowed) 0
                    && (nat_beq (length link.admissions) 0 && ltb 30000 (now - link.started))))))

module _ (q : Toolkit) (net : Network) where
  abbrev pub look_after : ℕ → ℕ → Link → Node → Outcome
  look_after now l link n =
      if is_dead now link
      then returns (note (aborted l) n)
      else if link.hello && ltb 10000 (now - link.touched)
      then send q net l (message (codes "ping") []) n
      else returns n

  unfoldable pub look_after_each : ℕ → List (ℕ × Link) → Node → Outcome
  look_after_each now [] n = returns n
  look_after_each now ((l, _) ∷ ls) n =
      (elim (lookup l n.links) [ none ↦ returns n | some link ↦ look_after now l link n ])
      ▸ look_after_each now ls

  abbrev pub dial_each : ℕ → Chance → List (Text × Member) → Node → Node
  dial_each now chance [] n = n
  dial_each now chance ((k, member) ∷ ms) n = dial_each now chance ms (
      if member.id == n.self || contains n.peers member.id
      then n
      else dial q now chance member.id member.endpoint [] n)

  unfoldable pub dial_members : ℕ → Chance → List (Text × Model) → Node → Node
  dial_members now chance [] n = n
  dial_members now chance ((k, m) ∷ ms) n =
      dial_members now chance ms
        (if is_member q m n.self then dial_each now chance m.members n else n)

  -- The first seed that there is a link to, or that can be dialled.
  abbrev pub select : ℕ → Chance → Text → Route → Node → Node × Option ℕ
  select now chance cid seed n = elim (lookup seed.peer n.peers) [
    | some l ↦ (n, some l)
    | none ↦
        let tried = dial q now chance seed.peer seed.endpoint cid n in
        (tried, link_on (route_key seed.peer seed.endpoint cid) tried.links)
  ]

  abbrev pub greeted : Option Link → Bool
  greeted none = false
  greeted (some link) = link.hello

  abbrev pub join_by : ℕ → Chance → Text → ℕ → Node → Outcome
  join_by now chance cid l n =
      let asked = record n {
        joining = put cid l n.joining;
        join_started = put cid now n.join_started;
      } in
      if greeted (lookup l n.links)
      then offer q net now (chance.code_of l) l asked
      else returns asked

  abbrev pub go_on : (Node → Outcome) → (ℕ → Node → Outcome) → Node × Option ℕ → Outcome
  go_on next found (n, none) = next n
  go_on next found (n, some l) = found l n

  unfoldable pub try_seeds : ℕ → Chance → Text → List Route → Node → Outcome
  try_seeds now chance cid [] n = returns n
  try_seeds now chance cid (seed ∷ seeds) n =
      go_on (try_seeds now chance cid seeds) (join_by now chance cid) (select now chance cid seed n)

  abbrev pub rotated : List Route → List Route
  rotated [] = []
  rotated (r ∷ rs) = rs ++ r ∷ []

  abbrev pub join_again : ℕ → Chance → Text → Invite → Node → Outcome
  join_again now chance cid invite n =
      let seeds = rotated invite.seeds in
      try_seeds now chance cid seeds (record (forget_joining q net cid n) {
        pending = put cid (record invite { seeds = seeds }) n.pending;
      })

  -- An attempt has 20 seconds; then the next seed is the first.
  abbrev pub join_pending : ℕ → Chance → Text → Invite → Node → Outcome
  join_pending now chance cid invite n =
      if contains n.joining cid
      then if leb (now - or_else 0 (lookup cid n.join_started)) 20000
        then returns n
        else join_again now chance cid invite n
      else try_seeds now chance cid invite.seeds n

  unfoldable pub join_each : ℕ → Chance → List (Text × Invite) → Node → Outcome
  join_each now chance [] n = returns n
  join_each now chance ((cid, _) ∷ ps) n =
      (elim (lookup cid n.pending) [
        | none ↦ returns n
        | some invite ↦ join_pending now chance cid invite n
      ])
      ▸ join_each now chance ps

  abbrev pub recovered : ℕ → Node → Node
  recovered now n =
      if not (nat_beq n.recovering_until 0) && leb n.recovering_until now
      then note changed (record n { recovering_until = 0 })
      else n

  unfoldable pub tick_links : ℕ → Chance → Node → Outcome
  tick_links now chance n = look_after_each now n.links n ▸ λ n.
      returns (dial_members now chance n.models n) ▸ λ n.
      join_each now chance n.pending n ▸ process_admissions q net now

  abbrev pub tells_error : Outcome → Node
  tells_error (returns n) = n
  tells_error (throws e n) = note (error_occurred e) n

  unfoldable pub tick : ℕ → Chance → Node → Node
  tick now chance n =
      if not n.running then n else tells_error (tick_links now chance (recovered now n))
