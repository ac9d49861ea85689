-- ===== src/Community/Node/Voices.antt =====
-- Node: through its events, the voice of at most one community.
use disquisition.Common.{
  ◌≡◌, inl, inr, sym, subst, true, false, List, [], arith, Text, text_eq, nat_eq, ◌==◌, Bool-cases,
}
use disquisition.Common.Maps.{lookup, erase}
use disquisition.Community.Model.{Toolkit}
use disquisition.Community.Node.{Presence, Message, Link, Node, Network}
use disquisition.Community.Node.Packets.{receive_packet, remember}
use disquisition.Community.Node.Keeps.{Stable}
use disquisition.Common.Maps.{lookup-erase}
use disquisition.Community.Node.Alone.{IsAlone, in_voice, set_voice-IsAlone}
use disquisition.Community.Node.Events.{Event, occur_all, occur_all_keeps}

module _ (q : Toolkit) (net : Network) where
  left_voice :
      (n : Node) (cid k : Text)
      → in_voice k (record n { mine = erase cid n.mine }) ≡ true
      → in_voice k n ≡ true
  left_voice n cid k g = elim (Bool-cases (cid == k)) [
    | inl e ↦ absurd (cc (rw (lookup-erase cid k n.mine, e) at g))
    | inr e ↦ rw (lookup-erase cid k n.mine, e) at g
  ]

  receive_packet-mine :
      (n : Node) (link : Link) (msg : Message)
      → (let k = receive_packet q net link msg n in k.mine ≡ n.mine)
  unfolding receive_packet remember
  receive_packet-mine n link msg = ground arith

  silent-IsAlone :
      (n : Node)
      → IsAlone n
      → IsAlone (record n { running = false; relay_ready = false; mine = [] })
  unfolding lookup
  silent-IsAlone n h j k a b = cc a

  IsAlone-Stable : Stable q net IsAlone
  IsAlone-Stable = record {
    sends = record { on_links = λ n ls h. h; on_note = λ e n d h. h };
    on_models = λ n ms h. h;
    on_left = λ n cid h j k a b. h j k (left_voice n cid j a) (left_voice n cid k b);
    on_presence = λ n ps h. h;
    on_joins = λ n ps js ss rs h. h;
    on_voice = set_voice-IsAlone q net;
    on_wires = λ n ps rs next recovering h. h;
    on_stop = silent-IsAlone;
    on_packet = λ n link msg h.
        subst (λ (ms : List (Text × Presence)). IsAlone (record n { mine = ms }))
          (sym (receive_packet-mine n link msg)) h;
  }

  -- A node that is in the voice of at most one community is so after any sequence of these
  -- events: a link comes in, its TLS is up, it has messages, it has been written to, or it ends; the timer fires; the
  -- validation of a snapshot ends; and the program creates or joins a community, asks for an invitation, edits, speaks,
  -- moves a member, sends a packet or a frame, or stops the node. This holds also where
  -- another moves it, where it is removed from a community, and where sending fails halfway.
  pub occur_all-IsAlone : (es : List Event) (n : Node) → IsAlone n → IsAlone (occur_all q net es n)
  occur_all-IsAlone = occur_all_keeps q net IsAlone IsAlone-Stable
