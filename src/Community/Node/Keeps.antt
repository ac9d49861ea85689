-- ===== src/Community/Node/Keeps.antt =====
-- Node: what holds of a node whatever its peers send, if the steps that matter to it keep it.
use disquisition.Common.{
  ℕ, inl, inr, refl, Bool, false, Option, none, some, List, [], ◌∷◌, Text, text_eq, nat_eq,
  Option-cases, if_case,
}
use disquisition.Common.Maps.{lookup, erase}
use disquisition.Common.Sets.{has}
use disquisition.Community.Model.{Operation, Toolkit}
use disquisition.Community.Model.Log.{put}
use disquisition.Community.Model.State.{Model}
use disquisition.Community.Model.Changes.{is_member, all_operations}
use disquisition.Community.Node.{
  Presence, Message, Link, Retry, Invite, changed, saved, Node, Network, node_of,
}
use disquisition.Community.Node.Base.{note, writable, register_relay, save}
use disquisition.Community.Node.Voice.{set_voice}
use disquisition.Community.Node.Sync.{
  send_operations, send_snapshot, send_state, broadcast_to, broadcast_state, change_saved,
  publish_profile, authorize, authorize_all, ask_to_join, offer,
}
use disquisition.Community.Node.Packets.{receive_packet}
use disquisition.Community.Node.Sends.{
  Sends, update_link_keeps, send_keeps, returns_keeps, throws_keeps, then_keeps, if_keeps,
  each_peer_keeps,
}

-- A predicate that no step of an exchange breaks but perhaps a change of voice or a packet, and these keep it too.
pub record Stable (q : Toolkit) (net : Network) (P : Node → Type 0) : Type 0 where
  pub sends : Sends P
  pub on_models : (n : Node) (ms : List (Text × Model)) → P n → P (record n { models = ms })
  pub on_left : (n : Node) (cid : Text) → P n → P (record n { mine = erase cid n.mine })
  pub on_presence :
      (n : Node) (ps : List (Text × List (Text × Presence))) → P n → P (record n { presence = ps })
  pub on_joins :
      (n : Node) (ps : List (Text × Invite)) (js ss : List (Text × ℕ)) (rs : List (Text × Text))
      → P n
      → P (record n { pending = ps; joining = js; join_started = ss; rejected = rs })
  pub on_voice :
      (n : Node) (cid channel : Text) (muted deafened sharing camera : Bool)
      → P n
      → P (node_of (set_voice q net cid channel muted deafened sharing camera n))
  pub on_wires :
      (n : Node) (ps : List (Text × ℕ)) (rs : List (Text × Retry)) (next recovering : ℕ)
      → P n
      → P (record n { peers = ps; retries = rs; next_link = next; recovering_until = recovering })
  pub on_stop : (n : Node) → P n → P (record n { running = false; relay_ready = false; mine = [] })
  pub on_packet :
      (n : Node) (link : Link) (msg : Message) → P n → P (receive_packet q net link msg n)

module _ (q : Toolkit) (net : Network) (P : Node → Type 0) (s : Stable q net P) where
  pub save_keeps : (m : Model) (n : Node) → P n → P (save q net m n)
  unfolding save register_relay
  save_keeps m n h =
      let kept : Node = record (note (saved m) n) { models = put m.id m n.models } in
      let k : P kept = s.on_models _ _ (s.sends.on_note (saved m) n refl h) in
      let left : Node = record kept {
        mine = erase m.id kept.mine;
        presence = erase m.id kept.presence;
      } in
      s.sends.on_note changed _ refl (
        if_case (λ (x : Node). P (register_relay q net x)) (is_member q m n.self)
          (λ _. if_case P kept.relay_ready (λ _. s.sends.on_note _ kept refl k) (λ _. k))
          (λ _.
            let g : P left = s.on_presence _ _ (s.on_left kept m.id k) in
            if_case P kept.relay_ready (λ _. s.sends.on_note _ left refl g) (λ _. g)))

  send_operations_keeps :
      (now l : ℕ) (cid : Text) (ops : List (Option Operation)) (n : Node)
      → P n
      → P (node_of (send_operations q net now l cid ops n))
  unfolding send_operations
  send_operations_keeps now l cid [] n h = returns_keeps q net P s.sends n h
  send_operations_keeps now l cid (op ∷ ops) n h =
      then_keeps q net P s.sends _ (send_operations q net now l cid ops)
        (send_keeps q net P s.sends l _ _ (update_link_keeps q net P s.sends l _ n h))
        (send_operations_keeps now l cid ops)

  send_snapshot_keeps :
      (now l : ℕ) (cid : Text) (o : Option Model) (n : Node)
      → P n
      → P (node_of (send_snapshot q net now l cid o n))
  send_snapshot_keeps now l cid none n h = returns_keeps q net P s.sends n h
  send_snapshot_keeps now l cid (some m) n h =
      then_keeps q net P s.sends _ _
        (then_keeps q net P s.sends _
          (send_operations q net now l cid (all_operations m.operations))
          (send_keeps q net P s.sends l _ _ (update_link_keeps q net P s.sends l _ n h))
          (send_operations_keeps now l cid _))
        (λ k g. send_keeps q net P s.sends l _ _ (update_link_keeps q net P s.sends l _ k g))

  pub send_state_keeps :
      (now l : ℕ) (cid : Text) (n : Node) → P n → P (node_of (send_state q net now l cid n))
  unfolding send_state
  send_state_keeps now l cid n h =
      if_keeps q net P s.sends _ _ _ (send_snapshot_keeps now l cid (lookup cid n.models) n h)
        (returns_keeps q net P s.sends n h)

  pub broadcast_state_keeps :
      (now : ℕ) (cid : Text) (n : Node) → P n → P (node_of (broadcast_state q net now cid n))
  unfolding broadcast_state broadcast_to
  broadcast_state_keeps now cid n h =
      each_peer_keeps q net P s.sends (broadcast_to q net now cid) n.peers n
        (λ l link m g.
          if_keeps q net P s.sends (writable q net link cid m) _ _
            (send_state_keeps now l cid _ (update_link_keeps q net P s.sends l _ m g))
            (then_keeps q net P s.sends _ _
              (if_keeps q net P s.sends _ _ _ (send_state_keeps now l cid m g)
                (returns_keeps q net P s.sends m g))
              (λ k t.
                returns_keeps q net P s.sends _
                  (s.on_presence _ _ (update_link_keeps q net P s.sends l _ k t)))))
        h

  pub change_saved_keeps :
      (now : ℕ) (cid : Text) (o : Option Model) (n : Node)
      → P n
      → P (node_of (change_saved q net now cid o n))
  change_saved_keeps now cid none n h = throws_keeps q net P s.sends _ n h
  change_saved_keeps now cid (some m) n h = broadcast_state_keeps now cid _ (save_keeps m n h)

  pub publish_profile_keeps :
      (now : ℕ) (cid : Text) (n : Node) → P n → P (node_of (publish_profile q net now cid n))
  unfolding publish_profile
  publish_profile_keeps now cid n h = elim (Option-cases (lookup cid n.models)) [
    | inl e ↦ rw e (returns_keeps q net P s.sends n h)
    | inr (m, e) ↦ rw e (
        if_keeps q net P s.sends _ _ _ (returns_keeps q net P s.sends n h)
          (change_saved_keeps now cid _ n h))
  ]

  authorize_all_keeps :
      (now l : ℕ) (ms : List (Text × Model)) (n : Node)
      → P n
      → P (node_of (authorize_all q net now l ms n))
  unfolding authorize
  authorize_all_keeps now l [] n h = returns_keeps q net P s.sends n h
  authorize_all_keeps now l ((k, m) ∷ ms) n h =
      then_keeps q net P s.sends _ (authorize_all q net now l ms)
        (elim (Option-cases (lookup l n.links)) [
          | inl e ↦ rw e (returns_keeps q net P s.sends n h)
          | inr (link, e) ↦ rw e (
              if_keeps q net P s.sends _ _ _ (returns_keeps q net P s.sends n h) (
                send_keeps q net P s.sends l _ _ (
                  if_case P (has m.id link.ready) (λ _. update_link_keeps q net P s.sends l _ n h)
                    (λ _.
                      update_link_keeps q net P s.sends l _ _
                        (update_link_keeps q net P s.sends l _ n h)))))
        ])
        (authorize_all_keeps now l ms)

  ask_to_join_keeps :
      (request : Text) (l : ℕ) (link : Link) (ps : List (Text × Invite)) (n : Node)
      → P n
      → P (node_of (ask_to_join q net request l link ps n))
  ask_to_join_keeps request l link [] n h = returns_keeps q net P s.sends n h
  ask_to_join_keeps request l link ((k, i) ∷ ps) n h =
      then_keeps q net P s.sends _ (ask_to_join q net request l link ps)
        (if_keeps q net P s.sends _ _ _ (send_keeps q net P s.sends l _ n h)
          (returns_keeps q net P s.sends n h))
        (ask_to_join_keeps request l link ps)

  pub offer_keeps :
      (now : ℕ) (request : Text) (l : ℕ) (n : Node)
      → P n
      → P (node_of (offer q net now request l n))
  unfolding offer
  offer_keeps now request l n h = elim (Option-cases (lookup l n.links)) [
    | inl e ↦ rw e (returns_keeps q net P s.sends n h)
    | inr (link, e) ↦ rw e (
        if_keeps q net P s.sends _ _ _ (returns_keeps q net P s.sends n h) (
          then_keeps q net P s.sends _ (ask_to_join q net request l link n.pending)
            (authorize_all_keeps now l n.models n h) (ask_to_join_keeps request l link n.pending)))
  ]
