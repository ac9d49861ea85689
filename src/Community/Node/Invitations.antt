-- ===== src/Community/Node/Invitations.antt =====
-- Node: what becomes of an invitation that it has asked to use: it is refused, or another peer is to be asked.
use disquisition.Common.{
  ℕ, Bool, false, not, ◌&&◌, ◌||◌, Option, none, some, List, [], ◌∷◌, Text, text_eq, nat_eq, codes,
  ◌==◌, leb, nat_beq, if◌then◌else◌, length,
}
use disquisition.Common.Maps.{lookup, erase}
use disquisition.Community.Model.{Toolkit, valid_endpoint}
use disquisition.Community.Model.Log.{put, contains}
use disquisition.Relay.Router.{is_peer_id}
use disquisition.Community.Node.{
  Message, Route, Invite, join_rejected, ticks, Node, Network, Outcome, returns, throws,
}
use disquisition.Community.Node.Base.{note, persist_pending}
use disquisition.Community.Node.Merging.{forget_joining}

abbrev pub max_seeds : ℕ
max_seeds = 8

unfoldable pub route_beq : Route → Route → Bool
route_beq r s = r.peer == s.peer && r.endpoint == s.endpoint

abbrev pub has_route : Route → List Route → Bool
has_route r [] = false
has_route r (s ∷ ss) = route_beq s r || has_route r ss

abbrev pub remove_first : Route → List Route → List Route
remove_first r [] = []
remove_first r (s ∷ ss) = if route_beq s r then ss else s ∷ remove_first r ss

abbrev pub remove_last : List Route → List Route
remove_last [] = []
remove_last (s ∷ []) = []
remove_last (s ∷ t ∷ ss) = s ∷ remove_last (t ∷ ss)

module _ (q : Toolkit) (net : Network) where
  abbrev pub is_joining_on : ℕ → Option ℕ → Bool
  is_joining_on l none = false
  is_joining_on l (some j) = nat_beq j l

  abbrev pub refusal : Text
  refusal = codes "Invite rejected"

  unfoldable pub handle_rejected : ℕ → Text → Node → Node
  handle_rejected l cid n =
      if is_joining_on l (lookup cid n.joining) && contains n.pending cid
      then (let left = forget_joining q net cid (record n { pending = erase cid n.pending }) in
          let saved = persist_pending q net left in
          note (join_rejected cid refusal) (record saved { rejected = put cid refusal n.rejected }))
      else n

  -- A known route moves to the front; a new one takes the place of the last if there are eight.
  abbrev pub redirected : Route → List Route → List Route
  redirected r seeds =
      if has_route r seeds
      then r ∷ remove_first r seeds
      else r ∷ (if leb max_seeds (length seeds) then remove_last seeds else seeds)

  abbrev pub redirect_found : Message → Node → Option Invite → Outcome
  redirect_found msg n none = returns n
  redirect_found msg n (some invite) =
      if not (is_peer_id msg.peer) || (msg.peer == n.self || not (valid_endpoint q msg.endpoint))
      then throws (codes "invalid host redirect") n
      else (let r : Route = record { peer = msg.peer; endpoint = msg.endpoint } in
          let routed = record n {
            pending =
                put msg.community (record invite { seeds = redirected r invite.seeds }) n.pending;
          } in
          let kept = if has_route r invite.seeds then routed else persist_pending q net routed in
          returns (note ticks (forget_joining q net msg.community kept)))

  unfoldable pub handle_redirect : Message → Node → Outcome
  handle_redirect msg n = redirect_found msg n (lookup msg.community n.pending)
