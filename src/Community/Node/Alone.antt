-- ===== src/Community/Node/Alone.antt =====
-- Node: taking part in the voice of at most one community.
use disquisition.Common.{
  ℕ, ◌≡◌, inl, inr, refl, sym, ◌∙◌, Bool, true, false, not, ◌&&◌, ◌||◌, Option, none, some, List,
  [], ◌∷◌, arith, Text, text_eq, nat_eq, ◌==◌, beq_sym, if◌then◌else◌, Bool-cases, &&_true, if_case,
}
use disquisition.Common.Maps.{lookup}
use disquisition.Community.Model.{Toolkit, is_empty}
use disquisition.Community.Node.{Presence, no_presence, changed, Node, Network, returns, node_of}
use disquisition.Community.Node.Outcomes.{Ends, Ends-then, then_cases}
use disquisition.Community.Node.Base.{note, each_peer, is_online}
use disquisition.Community.Node.Voice.{
  set_voice, set_mine, tell, leave_others, presence_in, bars_voice,
}
use disquisition.Community.Node.Sends.{
  Sends, send_keeps, returns_keeps, throws_keeps, then_keeps, if_keeps, each_peer_keeps,
}
use disquisition.Community.Model.Union.{lookup-put}

-- A predicate that changes of voice do not break.
pub record Vocal (P : Node → Type 0) : Type 0 where
  pub sends : Sends P
  pub on_mine : (n : Node) (ms : List (Text × Presence)) → P n → P (record n { mine = ms })

module _ (q : Toolkit) (net : Network) (P : Node → Type 0) (s : Sends P) where
  pub tell_each_keeps :
      (cid : Text) (p : Presence) (ps : List (Text × ℕ)) (n : Node)
      → P n
      → P (node_of (each_peer q net (tell q net cid p) ps n))
  unfolding tell
  tell_each_keeps cid p ps n h =
      each_peer_keeps q net P s (tell q net cid p) ps n
        (λ l link m g.
          if_keeps q net P s (is_online q net cid link m) _ _ (send_keeps q net P s l _ m g)
            (returns_keeps q net P s m g))
        h

module _ (q : Toolkit) (net : Network) (P : Node → Type 0) (v : Vocal P) where
  leave_others_keeps :
      (cid : Text) (ms : List (Text × Presence)) (n : Node)
      → P n
      → P (node_of (leave_others q net cid ms n))
  unfolding leave_others
  leave_others_keeps cid [] n h = returns_keeps q net P v.sends n h
  leave_others_keeps cid ((k, p) ∷ ms) n h =
      then_keeps q net P v.sends _ (leave_others q net cid ms)
        (if_keeps q net P v.sends (k == cid || is_empty p.voice_channel) _ _
          (returns_keeps q net P v.sends n h)
          (tell_each_keeps q net P v.sends k no_presence n.peers _ (v.on_mine n _ h)))
        (leave_others_keeps cid ms)

  pub set_voice_keeps :
      (n : Node) (cid channel : Text) (muted deafened sharing camera : Bool)
      → P n
      → P (node_of (set_voice q net cid channel muted deafened sharing camera n))
  unfolding set_voice
  set_voice_keeps n cid channel muted deafened sharing camera h =
      let p = presence_in q net channel muted deafened sharing camera in
      if_keeps q net P v.sends (bars_voice q net cid channel n) _ _
        (throws_keeps q net P v.sends _ n h)
        (then_keeps q net P v.sends (leave_others q net cid n.mine n) _
          (leave_others_keeps cid n.mine n h)
          (λ m f.
            then_keeps q net P v.sends
              (each_peer q net (tell q net cid p) m.peers (set_mine q net cid p m))
              (λ k. returns (note changed k))
              (tell_each_keeps q net P v.sends cid p m.peers _ (v.on_mine m _ f))
              (λ k g. returns_keeps q net P v.sends _ (v.sends.on_note changed k refl g))))

-- Whether the node is in a voice channel of the community.
abbrev pub is_voiced : Option Presence → Bool
is_voiced none = false
is_voiced (some p) = not (is_empty p.voice_channel)

abbrev pub in_voice : Text → Node → Bool
in_voice cid n = is_voiced (lookup cid n.mine)

-- The node is in the voice of at most one community.
abbrev pub IsAlone : Node → Type 0
IsAlone n = (j k : Text) → in_voice j n ≡ true → in_voice k n ≡ true → j ≡ k

-- Among the presences that are still to be looked at, or not.
abbrev any_voiced : Text → List (Text × Presence) → Bool
any_voiced k [] = false
any_voiced k ((j, p) ∷ ms) = (j == k && not (is_empty p.voice_channel)) || any_voiced k ms

any_voiced-lookup :
    (k : Text) (ms : List (Text × Presence))
    → is_voiced (lookup k ms) ≡ true
    → any_voiced k ms ≡ true
unfolding lookup
any_voiced-lookup k [] h = h
any_voiced-lookup k ((j, p) ∷ ms) h = elim (Bool-cases (j == k)) [
  | inl e ↦ rw (e, rw e at h) refl
  | inr e ↦ rw (e) (any_voiced-lookup k ms (rw e at h))
]

-- What is still in voice but for one community.
abbrev Rest : Text → List (Text × Presence) → Node → Type 0
Rest cid ms n = (k : Text) → (k == cid) ≡ false → in_voice k n ≡ true → any_voiced k ms ≡ true

abbrev IsLess : Node → Node → Type 0
IsLess n m = (k : Text) → in_voice k m ≡ true → in_voice k n ≡ true

module _ (q : Toolkit) (net : Network) where
  Rest-Sends : (cid : Text) (ms : List (Text × Presence)) → Sends (Rest cid ms)
  Rest-Sends cid ms = record { on_links = λ n ls h. h; on_note = λ e n d h. h }

  IsLess-Sends : (n : Node) → Sends (IsLess n)
  IsLess-Sends n = record { on_links = λ m ls h. h; on_note = λ e m d h. h }

  cleared_voice :
      (n : Node) (j k : Text)
      → in_voice k (set_mine q net j no_presence n) ≡ (not (j == k) && in_voice k n)
  cleared_voice n j k = elim (Bool-cases (j == k)) [
    | inl e ↦ rw (lookup-put j k no_presence n.mine, e) refl
    | inr e ↦ rw (lookup-put j k no_presence n.mine, e) refl
  ]

  left-IsLess :
      (cid : Text) (ms : List (Text × Presence)) (n m : Node)
      → IsLess n m
      → IsLess n (node_of (leave_others q net cid ms m))
  unfolding leave_others
  left-IsLess cid [] n m h = returns_keeps q net (IsLess n) (IsLess-Sends n) m h
  left-IsLess cid ((j, p) ∷ ms) n m h =
      then_keeps q net (IsLess n) (IsLess-Sends n) _ (leave_others q net cid ms)
        (if_keeps q net (IsLess n) (IsLess-Sends n) (j == cid || is_empty p.voice_channel) _ _
          (returns_keeps q net (IsLess n) (IsLess-Sends n) m h)
          (tell_each_keeps q net (IsLess n) (IsLess-Sends n) j no_presence m.peers
            (set_mine q net j no_presence m)
            (λ k g. h k (&&_true (not (j == k)) (in_voice k m) (sym (cleared_voice m j k) ∙ g)).1)))
        (left-IsLess cid ms n)

  kept-Rest :
      (cid j : Text) (p : Presence) (ms : List (Text × Presence)) (m : Node)
      → Rest cid ((j, p) ∷ ms) m
      → (j == cid || is_empty p.voice_channel) ≡ true
      → Rest cid ms m
  kept-Rest cid j p ms m h skip k other g =
      ground (arith, h k other g, text_eq.beq_iff j cid, text_eq.beq_iff j k, text_eq.beq_iff k cid)

  cleared-Rest :
      (cid j : Text) (p : Presence) (ms : List (Text × Presence)) (m : Node)
      → Rest cid ((j, p) ∷ ms) m
      → Rest cid ms (set_mine q net j no_presence m)
  cleared-Rest cid j p ms m h k other g =
      let (apart, voiced) = &&_true (not (j == k)) (in_voice k m) (sym (cleared_voice m j k) ∙ g) in
      ground (arith, h k other voiced, apart)

  left-Rest :
      (cid : Text) (ms : List (Text × Presence)) (m : Node)
      → Rest cid ms m
      → Ends (Rest cid []) (leave_others q net cid ms m)
  unfolding leave_others Ends
  left-Rest cid [] m h = h
  left-Rest cid ((j, p) ∷ ms) m h =
      let test = j == cid || is_empty p.voice_channel in
      Ends-then (Rest cid ms) (Rest cid [])
        (if test
          then returns m
          else each_peer q net (tell q net j no_presence) m.peers (set_mine q net j no_presence m))
        (leave_others q net cid ms)
        (if_case (λ o. Rest cid ms (node_of o)) test
          (λ skip.
            returns_keeps q net (Rest cid ms) (Rest-Sends cid ms) m (kept-Rest cid j p ms m h skip))
          (λ _.
            tell_each_keeps q net (Rest cid ms) (Rest-Sends cid ms) j no_presence m.peers
              (set_mine q net j no_presence m) (cleared-Rest cid j p ms m h)))
        (left-Rest cid ms)

  -- No voice but perhaps that of one community.
  IsOnly : Text → Node → Type 0
  IsOnly cid n = (k : Text) → (k == cid) ≡ false → in_voice k n ≡ false

  IsOnly-IsAlone : (cid : Text) (n : Node) → IsOnly cid n → IsAlone n
  unfolding IsOnly
  IsOnly-IsAlone cid n h j k a b =
      ground (arith, h j, h k, a, b, text_eq.beq_iff j cid, text_eq.beq_iff k cid)

  IsOnly-Sends : (cid : Text) → Sends (IsOnly cid)
  unfolding IsOnly
  IsOnly-Sends cid = record { on_links = λ m ls h. h; on_note = λ e m d h. h }

  set_mine-IsOnly :
      (cid : Text) (p : Presence) (n : Node) → Rest cid [] n → IsOnly cid (set_mine q net cid p n)
  unfolding IsOnly
  set_mine-IsOnly cid p n h k other =
      rw (lookup-put cid k p n.mine, beq_sym {A = Text} k cid, other)
        (elim (Bool-cases (in_voice k n)) [ inl e ↦ absurd (cc (h k other e)) | inr e ↦ e ])

  -- Whatever a change of voice meets, a node that is in the voice of at most one community is so afterwards.
  pub set_voice-IsAlone :
      (n : Node) (cid channel : Text) (muted deafened sharing camera : Bool)
      → IsAlone n
      → IsAlone (node_of (set_voice q net cid channel muted deafened sharing camera n))
  unfolding set_voice
  set_voice-IsAlone n cid channel muted deafened sharing camera h =
      let p = presence_in q net channel muted deafened sharing camera in
      let alone : Sends IsAlone = record { on_links = λ m ls h. h; on_note = λ e m d h. h } in
      if_keeps q net IsAlone alone (bars_voice q net cid channel n) _ _
        (throws_keeps q net IsAlone alone _ n h)
        (then_cases IsAlone (Rest cid []) (IsLess n) (leave_others q net cid n.mine n) _
          (left-IsLess cid n.mine n n (λ k g. g)) (λ m less j k a b. h j k (less j a) (less k b))
          (left-Rest cid n.mine n (λ k other g. any_voiced-lookup k n.mine g))
          (λ m rest.
            then_keeps q net IsAlone alone
              (each_peer q net (tell q net cid p) m.peers (set_mine q net cid p m))
              (λ k. returns (note changed k))
              (IsOnly-IsAlone cid _ (
                tell_each_keeps q net (IsOnly cid) (IsOnly-Sends cid) cid p m.peers _
                  (set_mine-IsOnly cid p m rest)))
              (λ k g. returns_keeps q net IsAlone alone (note changed k) g)))
