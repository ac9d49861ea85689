-- ===== src/Community/Node/Voice.antt =====
-- Node: who is online, who is the host, and where members stand in voice.
use disquisition.Common.{
  ℕ, ◌-◌, Bool, false, not, ◌&&◌, ◌||◌, Option, none, some, List, [], ◌∷◌, Text, text_eq, nat_eq,
  codes, ◌==◌, ltb, if◌then◌else◌,
}
use disquisition.Common.Maps.{lookup}
use disquisition.Common.Sets.{has, include}
use disquisition.Community.Model.{Channel, Toolkit, is_empty}
use disquisition.Community.Model.Log.{or_else, put}
use disquisition.Community.Model.State.{Model}
use disquisition.Community.Model.Changes.{can_admin, host}
use disquisition.Community.Node.{
  Presence, no_presence, Message, message, Link, changed, voice_moved, Node, Network, Outcome,
  returns, throws, ◌▸◌,
}
use disquisition.Community.Node.Base.{
  note, belongs, send, mine_in, presence_object, each_peer, is_online,
}

module _ (q : Toolkit) (net : Network) where
  abbrev pub online_peers : Text → List (Text × ℕ) → Node → List Text
  online_peers cid [] n = []
  online_peers cid ((p, l) ∷ ps) n =
      let rest = online_peers cid ps n in
      elim (lookup l n.links) [
        | none ↦ rest
        | some link ↦ if is_online q net cid link n then include link.peer rest else rest
      ]

  unfoldable pub online : Text → Node → List Text
  online cid n =
      if not n.running || not (belongs q net cid n.self n)
      then []
      else include n.self (online_peers cid n.peers n)

  unfoldable pub host_of : Text → Node → Text
  host_of cid n = elim (lookup cid n.models) [ none ↦ [] | some m ↦ host (online cid n) m ]

  unfoldable pub presence_of : Text → Text → Node → Presence
  presence_of cid peer n =
      if peer == n.self
      then mine_in q net cid n
      else or_else no_presence (lookup peer (or_else [] (lookup cid n.presence)))

  -- A transfer that has stalled for 20 seconds holds nobody up.
  abbrev pub is_waiting : ℕ → Bool → Option ℕ → Bool
  is_waiting now ready none = not ready
  is_waiting now ready (some started) = not (ltb 20000 (now - started))

  abbrev pub any_waiting : ℕ → Text → List (ℕ × Link) → Node → Bool
  any_waiting now cid [] n = false
  any_waiting now cid ((l, link) ∷ ls) n =
      (link.hello
        && (belongs q net cid link.peer n
            && is_waiting now (has cid link.ready) (lookup cid link.synchronizing)))
      || any_waiting now cid ls n

  unfoldable pub synchronizing : ℕ → Text → Node → Bool
  synchronizing now cid n =
      n.running && (ltb now n.recovering_until || any_waiting now cid n.links n)

  abbrev pub channel_found : Option Channel → Text → Bool
  channel_found none type = false
  channel_found (some c) type = c.type == type

  -- The community has a channel of this type.
  unfoldable pub has_channel : Text → Text → Text → Node → Bool
  has_channel cid channel type n = elim (lookup cid n.models) [
    | none ↦ false
    | some m ↦ channel_found (lookup channel m.channels) type
  ]

  unfoldable pub tell : Text → Presence → ℕ → Link → Node → Outcome
  tell cid p l link n =
      if is_online q net cid link n then send q net l (presence_object q net cid p) n else returns n

  abbrev pub set_mine : Text → Presence → Node → Node
  set_mine cid p n = record n { mine = put cid p n.mine }

  -- One leaves every other voice channel.
  unfoldable pub leave_others : Text → List (Text × Presence) → Node → Outcome
  leave_others cid [] n = returns n
  leave_others cid ((k, p) ∷ ms) n =
      (if k == cid || is_empty p.voice_channel
        then returns n
        else each_peer q net (tell k no_presence) n.peers (set_mine k no_presence n))
      ▸ leave_others cid ms

  abbrev pub presence_in : Text → Bool → Bool → Bool → Bool → Presence
  presence_in channel muted deafened sharing camera = record {
    voice_channel = channel;
    muted = muted;
    deafened = deafened;
    sharing = not (is_empty channel) && sharing;
    camera = not (is_empty channel) && camera;
  }

  abbrev pub bars_voice : Text → Text → Node → Bool
  bars_voice cid channel n =
      not (is_empty channel)
      && (not (belongs q net cid n.self n) || not (has_channel cid channel (codes "voice") n))

  unfoldable pub set_voice : Text → Text → Bool → Bool → Bool → Bool → Node → Outcome
  set_voice cid channel muted deafened sharing camera n =
      if bars_voice cid channel n
      then throws (codes "unknown voice channel") n
      else (let p = presence_in channel muted deafened sharing camera in
          leave_others cid n.mine n ▸ λ n.
          each_peer q net (tell cid p) n.peers (set_mine cid p n) ▸ λ n. returns (note changed n))

  abbrev pub may_admin : Option Model → Text → Bool
  may_admin none peer = false
  may_admin (some m) peer = can_admin q m peer

  -- `move-voice` for the node itself.
  abbrev pub moved : Text → Text → Node → Outcome
  moved cid channel n =
      let previous = mine_in q net cid n in
      set_voice cid channel previous.muted previous.deafened false false n ▸ λ n.
      returns (note (voice_moved cid channel) n)

  abbrev pub move_object : Text → Text → Message
  move_object cid channel = record (message (codes "move-voice") cid) { channel = channel }

  unfoldable pub move_voice : Text → Text → Text → Node → Outcome
  move_voice cid peer channel n =
      if not n.running || not (may_admin (lookup cid n.models) n.self)
      then throws (codes "only the owner or an admin can move members") n
      else if not (has_channel cid channel (codes "voice") n)
      then throws (codes "unknown voice channel") n
      else if not (has peer (online cid n))
          || (let p = presence_of cid peer n in is_empty p.voice_channel)
      then throws (codes "member is not connected to voice") n
      else if peer == n.self
      then moved cid channel n
      else elim (lookup peer n.peers) [
        | none ↦ returns n
        | some l ↦ send q net l (move_object cid channel) n
      ]
