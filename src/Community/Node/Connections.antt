-- ===== src/Community/Node/Connections.antt =====
-- Node: what holds of a node through connections that begin, are chosen between and end.
use disquisition.Common.{
  ℕ, ◌+◌, inl, inr, refl, Bool, true, false, not, ◌||◌, Option, none, some, List, [], ◌∷◌, Text,
  text_eq, nat_eq, Option-cases, if_case, nat_beq, ltb, length,
}
use disquisition.Common.Maps.{lookup, insert, erase}
use disquisition.Community.Model.{Toolkit}
use disquisition.Community.Model.Log.{put}
use disquisition.Community.Node.{Message, Link, changed, aborted, Node, Network, node_of}
use disquisition.Community.Node.Base.{set_link}
use disquisition.Community.Node.Sends.{update_link_keeps, send_keeps, returns_keeps, if_keeps}
use disquisition.Community.Node.Keeps.{Stable}
use disquisition.Community.Node.Connect.{
  Chance, add_link, accept_link, dial, encrypted, meet, greet_peer, keeps_old, disconnected,
  leave_peer, leave_groups, is_link, give_up_joining, written, new_link, max_links, may_dial,
}
use disquisition.Community.Node.Sending.{pump_video, pumped, note_sent}

module _ (q : Toolkit) (net : Network) (P : Node → Type 0) (s : Stable q net P) where
  add_link_keeps : (link : Link) (n : Node) → P n → P (add_link link n)
  add_link_keeps link n h =
      s.on_wires _ n.peers n.retries (n.next_link + 1) n.recovering_until
        (s.sends.on_links n (insert n.next_link link n.links) h)

  pub accept_link_keeps :
      (now : ℕ) (chance : Chance) (has_socket : Bool) (n : Node)
      → P n
      → P (accept_link now chance has_socket n)
  unfolding accept_link
  accept_link_keeps now chance has_socket n h =
      let link = new_link now (chance.code_of n.next_link) false [] in
      let g = add_link_keeps link n h in
      if_case P (not has_socket || ltb max_links (length (add_link link n).links))
        (λ _. s.sends.on_note (aborted n.next_link) _ refl g) (λ _. g)

  pub dial_keeps :
      (now : ℕ) (chance : Chance) (peer endpoint discover : Text) (n : Node)
      → P n
      → P (dial q now chance peer endpoint discover n)
  unfolding dial
  dial_keeps now chance peer endpoint discover n h =
      if_case P (may_dial q now peer endpoint discover n)
        (λ _.
          s.sends.on_note _ _ refl
            (add_link_keeps _ _ (s.on_wires n n.peers _ n.next_link n.recovering_until h)))
        (λ _. h)

  greet_peer_keeps :
      (l : ℕ) (link : Link) (n : Node) → P n → P (node_of (greet_peer q net l link n))
  greet_peer_keeps l link n h =
      send_keeps q net P s.sends l _ _
        (s.on_wires n n.peers (erase link.route n.retries) n.next_link n.recovering_until h)

  meet_keeps :
      (l : ℕ) (link : Link) (old : Option ℕ) (existing : Option Link) (n : Node)
      → P n
      → P (node_of (meet q net l link old existing n))
  unfolding node_of
  meet_keeps l link (some old) (some existing) n h =
      if_keeps q net P s.sends (keeps_old q net n.self link.peer existing.outgoing link.outgoing) _
        _ (s.sends.on_note (aborted l) n refl h)
        (greet_peer_keeps l link _ (
          s.sends.on_note (aborted old) _ refl
            (s.on_wires n (put link.peer l n.peers) n.retries n.next_link n.recovering_until h)))
  meet_keeps l link none existing n h =
      greet_peer_keeps l link _
        (s.on_wires n (put link.peer l n.peers) n.retries n.next_link n.recovering_until h)
  meet_keeps l link (some old) none n h =
      greet_peer_keeps l link _
        (s.on_wires n (put link.peer l n.peers) n.retries n.next_link n.recovering_until h)

  pub encrypted_keeps :
      (l : ℕ) (peer : Text) (n : Node) → P n → P (node_of (encrypted q net l peer n))
  unfolding encrypted
  encrypted_keeps l peer n h = elim (Option-cases (lookup l n.links)) [
    | inl e ↦ rw e (returns_keeps q net P s.sends n h)
    | inr (link, e) ↦
        let known : Link = record link { tls = true; peer = peer } in
        rw e (
          if_keeps q net P s.sends _ _ _
            (returns_keeps q net P s.sends _
              (s.sends.on_note _ _ refl (s.sends.on_note _ n refl h)))
            (meet_keeps l known _ _ _ (s.sends.on_links n _ h)))
  ]

  give_up_joining_keeps :
      (l : ℕ) (js : List (Text × ℕ)) (n : Node) → P n → P (give_up_joining q net l js n)
  give_up_joining_keeps l [] n h = h
  give_up_joining_keeps l ((cid, k) ∷ js) n h =
      give_up_joining_keeps l js _
        (if_case P (nat_beq k l) (λ _. s.on_joins n n.pending _ _ n.rejected h) (λ _. h))

  leave_peer_keeps : (l : ℕ) (peer : Text) (n : Node) → P n → P (leave_peer q net l peer n)
  unfolding leave_peer
  leave_peer_keeps l peer n h =
      if_case P (is_link q net l (lookup peer n.peers))
        (λ _.
          s.on_presence _ (leave_groups q net peer n.presence)
            (s.on_wires n (erase peer n.peers) n.retries n.next_link n.recovering_until h))
        (λ _. h)

  pub disconnected_keeps : (l : ℕ) (n : Node) → P n → P (disconnected q net l n)
  unfolding disconnected
  disconnected_keeps l n h = elim (Option-cases (lookup l n.links)) [
    | inl e ↦ rw e h
    | inr (link, e) ↦
        let ended : Node = record n { links = erase l n.links } in
        let left = leave_peer q net l link.peer ended in
        rw e (
          s.sends.on_note changed _ refl (
            give_up_joining_keeps l left.joining left
              (leave_peer_keeps l link.peer ended (s.sends.on_links n _ h))))
  ]

  note_sent_keeps : (l : ℕ) (msgs : List Message) (n : Node) → P n → P (note_sent q net l msgs n)
  note_sent_keeps l [] n h = h
  note_sent_keeps l (msg ∷ msgs) n h = note_sent_keeps l msgs _ (s.sends.on_note _ n refl h)

  pub pump_video_keeps : (l : ℕ) (n : Node) → P n → P (pump_video q net l n)
  unfolding pump_video
  pump_video_keeps l n h = elim (Option-cases (lookup l n.links)) [
    | inl e ↦ rw e h
    | inr (link, e) ↦
        let p = pumped q net link.video link in
        rw e (note_sent_keeps l p.0 (set_link l p.1 n) (s.sends.on_links n _ h))
  ]

  pub written_keeps : (l bytes : ℕ) (n : Node) → P n → P (written q net l bytes n)
  unfolding written
  written_keeps l bytes n h = pump_video_keeps l _ (update_link_keeps q net P s.sends l _ n h)
