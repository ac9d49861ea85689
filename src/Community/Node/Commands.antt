-- ===== src/Community/Node/Commands.antt =====
-- Node: what the program around it asks of it.
use disquisition.Common.{
  ℕ, false, not, ◌||◌, Option, none, some, List, [], ◌∷◌, ◌++◌, Text, text_eq, nat_eq, codes, ◌==◌,
  leb, if◌then◌else◌, length,
}
use disquisition.Common.Maps.{lookup, erase}
use disquisition.Community.Model.{Member, Details, Toolkit, is_empty}
use disquisition.Community.Model.Log.{put}
use disquisition.Community.Model.State.{Model}
use disquisition.Community.Model.Changes.{change, issue_invite, host}
use disquisition.Community.Node.{
  Link, Route, Invite, joined, aborted, Node, Network, Outcome, returns, throws, ◌▸◌,
}
use disquisition.Community.Node.Base.{note, belongs, save, persist_pending}
use disquisition.Community.Node.Voice.{online}
use disquisition.Community.Node.Sync.{publish_profile}
use disquisition.Community.Node.Merging.{forget_joining}
use disquisition.Community.Node.Connect.{Chance}
use disquisition.Community.Model.Changes.{create}
use disquisition.Community.Node.Sync.{failed, change_saved}
use disquisition.Community.Node.Tick.{tick}

module _ (q : Toolkit) (net : Network) where
  unfoldable pub edit : ℕ → Text → Text → Details → Node → Outcome
  edit now cid kind details n = elim (lookup cid n.models) [
    | none ↦ throws (codes "unknown community") n
    | some m ↦ change_saved q net now cid (change q n.self kind details m) n
  ]

  -- Random ids are given: the community's, and its channels'.
  abbrev pub created : ℕ → Option Model → Node → Outcome
  created now none n = throws (failed q net) n
  created now (some m) n =
      publish_profile q net now m.id (save q net m n) ▸ λ n. returns (note (joined m.id) n)

  unfoldable pub create_community : ℕ → Text → Text → Text → Text → Node → Outcome
  create_community now name id general lounge n =
      if not n.running
      then throws (codes "connect before creating a community") n
      else if leb 64 (length n.models)
      then throws (codes "too many communities") n
      else created now (create q n.self (net.trimmed name) n.name n.endpoint id general lounge) n

  abbrev pub forget_attempt : Text → Node → Node
  forget_attempt cid n = forget_joining q net cid (record n { rejected = erase cid n.rejected })

  -- `invite` is what the link that is given says, if it is one.
  unfoldable pub join_community : ℕ → Chance → Option Invite → Node → Outcome
  join_community now chance invite n =
      if not n.running then throws (codes "connect before joining a community") n else elim invite [
        | none ↦ throws (codes "invalid community invite link") n
        | some i ↦
            if belongs q net i.community n.self n
            then returns (note (joined i.community) n)
            else if leb 16 (length n.pending)
            then throws (codes "too many pending invitations") n
            else (let asked = record n { pending = put i.community i n.pending } in
                let saved = persist_pending q net (forget_attempt i.community asked) in
                returns (tick q net now chance (record saved { retries = [] })))
      ]

  abbrev pub endpoint_of : Text → Model → Text
  endpoint_of peer m = elim (lookup peer m.members) [ none ↦ [] | some member ↦ member.endpoint ]

  abbrev pub own_seed : Model → Node → Route
  own_seed m n = record {
    peer = n.self;
    endpoint = if is_empty n.endpoint then endpoint_of n.self m else n.endpoint;
  }

  abbrev pub host_seed : Text → Model → Node → List Route
  host_seed preferred m n =
      if is_empty preferred || preferred == n.self
      then []
      else (record { peer = preferred; endpoint = endpoint_of preferred m }) ∷ []

  -- The other members, up to eight seeds in all.
  unfoldable pub member_seeds : Text → Text → List (Text × Member) → List Route → List Route
  member_seeds self preferred [] seeds = seeds
  member_seeds self preferred ((k, member) ∷ ms) seeds = member_seeds self preferred ms (
      if member.id == self || (member.id == preferred || leb 8 (length seeds))
      then seeds
      else seeds ++ (record { peer = member.id; endpoint = member.endpoint }) ∷ [])

  abbrev pub invite_of : Text → Text → Text → Model → Node → Invite
  invite_of cid preferred code m n = record {
    community = cid;
    owner = m.owner;
    code = code;
    seeds = member_seeds n.self preferred m.members (own_seed m n ∷ host_seed preferred m n);
  }

  abbrev pub invited_on : Text → Text → Text → Node → Option Model → Outcome × Option Invite
  invited_on cid preferred code n none = (returns n, none)
  invited_on cid preferred code n (some m) = (returns n, some (invite_of cid preferred code m n))

  abbrev pub if_returns : Outcome → (Node → Outcome × Option Invite) → Outcome × Option Invite
  if_returns (throws e n) f = (throws e n, none)
  if_returns (returns n) f = f n

  abbrev pub issue_found : ℕ → Text → Text → Option Model → Node → Outcome × Option Invite
  issue_found now cid code none n = (throws (codes "unknown community") n, none)
  issue_found now cid code (some m) n =
      if_returns (change_saved q net now cid (issue_invite q n.self code m) n)
        (λ k. invited_on cid (host (online q net cid n) m) code k (lookup cid k.models))

  -- The invitation that `toLink` writes out; `code` is random.
  unfoldable pub invite : ℕ → Text → Text → Node → Outcome × Option Invite
  invite now cid code n = issue_found now cid code (lookup cid n.models) n

  abbrev pub shut_links : List (ℕ × Link) → Node → Node
  shut_links [] n = n
  shut_links ((l, link) ∷ ls) n = note (aborted l) (shut_links ls n)

  unfoldable pub stop : Node → Node
  stop n = record (shut_links n.links n) {
    running = false;
    relay_ready = false;
    links = [];
    peers = [];
    joining = [];
    join_started = [];
    presence = [];
    mine = [];
  }
