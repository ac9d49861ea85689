-- ===== src/Community/Node/Admission.antt =====
-- Node: letting those in who ask to join.
use disquisition.Common.{
  ℕ, Bool, true, false, not, ◌&&◌, ◌||◌, Option, none, some, List, [], ◌∷◌, Text, text_eq, nat_eq,
  codes, ◌==◌, nat_beq, if◌then◌else◌, length,
}
use disquisition.Common.Maps.{lookup, erase}
use disquisition.Community.Model.{Intent, Toolkit, is_empty}
use disquisition.Community.Model.Log.{keys}
use disquisition.Community.Model.State.{Model}
use disquisition.Community.Model.Changes.{is_member, accepts_intent, admit, host}
use disquisition.Community.Node.{
  Message, message, Link, closed, Node, Network, Outcome, returns, throws, ◌▸◌,
}
use disquisition.Community.Node.Base.{note, update_link, allow, claim, send, save, each_peer}
use disquisition.Community.Node.Voice.{online, synchronizing}
use disquisition.Community.Node.Sync.{broadcast_state}

module _ (q : Toolkit) (net : Network) where
  abbrev pub drop_admission : Text → Link → Link
  drop_admission cid link = record link { admissions = erase cid link.admissions }

  abbrev pub nothing_left : Option Link → Bool
  nothing_left none = false
  nothing_left (some link) = nat_beq (length link.allowed) 0 && nat_beq (length link.admissions) 0

  abbrev pub redirect_object : Text → Text → Model → Message
  redirect_object cid preferred m = record (message (codes "redirect") cid) {
    peer = preferred;
    endpoint = elim (lookup preferred m.members) [ none ↦ [] | some member ↦ member.endpoint ];
  }

  -- A link with nothing else to do is closed, and no more of its requests are looked at.
  abbrev pub closes_if_idle : ℕ → Outcome → Outcome × Bool
  closes_if_idle l (throws e n) = (throws e n, true)
  closes_if_idle l (returns n) =
      if nothing_left (lookup l n.links)
      then (returns (note (closed l) n), true)
      else (returns n, false)

  abbrev pub admission_error : Text
  admission_error = codes "join rejected"

  abbrev pub let_in : ℕ → ℕ → Text → Option Model → Node → Outcome
  let_in now l cid none n = throws admission_error n
  let_in now l cid (some m) n =
      broadcast_state q net now cid
        (update_link l (allow cid) (update_link l (claim cid) (save q net m n)))

  abbrev pub admitted_model : Text → Intent → Link → Model → Option Model
  admitted_model self intent link m =
      if is_member q m link.peer then some m else admit q self intent m

  abbrev pub try_admit_to : ℕ → ℕ → Text → Intent → Link → Option Model → Node → Outcome × Bool
  try_admit_to now l cid intent link none n = (throws admission_error n, false)
  try_admit_to now l cid intent link (some m) n =
      if not (is_member q m n.self) || not (accepts_intent q n.self intent m)
      then (throws admission_error n, false)
      else (let preferred = host (online q net cid n) m in
          if not (is_empty preferred) && not (preferred == n.self)
          then (let o = send q net l (redirect_object cid preferred m) n in
              elim o [
                | throws e n ↦ (throws e n, false)
                | returns n ↦ closes_if_idle l (returns n)
              ])
          else (let_in now l cid (admitted_model n.self intent link m) n, false))

  -- A request that is turned down, for whatever reason, is answered.
  abbrev pub or_rejected : ℕ → Text → Outcome × Bool → Outcome × Bool
  or_rejected l cid (returns n, stops) = (returns n, stops)
  or_rejected l cid (throws e n, stops) =
      closes_if_idle l (send q net l (message (codes "rejected") cid) n)

  abbrev pub admit_from : ℕ → ℕ → Text → Node → Link → Option Intent → Outcome × Bool
  admit_from now l cid n link none = (returns n, false)
  admit_from now l cid n link (some intent) =
      let taken = update_link l (drop_admission cid) n in
      or_rejected l cid (try_admit_to now l cid intent link (lookup cid taken.models) taken)

  unfoldable pub admit_one : ℕ → ℕ → Text → Node → Outcome × Bool
  admit_one now l cid n =
      if synchronizing q net now cid n then (returns n, false) else elim (lookup l n.links) [
        | none ↦ (returns n, true)
        | some link ↦ admit_from now l cid n link (lookup cid link.admissions)
      ]

  unfoldable pub admit_each : ℕ → ℕ → List Text → Node → Outcome
  admit_each now l [] n = returns n
  admit_each now l (cid ∷ cids) n =
      let one = admit_one now l cid n in
      one.0 ▸ λ m. if one.1 then returns m else admit_each now l cids m

  abbrev pub admit_on : ℕ → ℕ → Link → Node → Outcome
  admit_on now l link n = admit_each now l (keys link.admissions) n

  unfoldable pub process_admissions : ℕ → Node → Outcome
  process_admissions now n = each_peer q net (admit_on now) n.peers n
