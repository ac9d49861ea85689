-- ===== src/Relay/Router/Requests.antt =====
-- Requests keep the router's invariant.
use disquisition.Common.{
  ℕ, ◌-◌, ◌≡◌, inl, inr, ◌∙◌, Bool, true, not, ◌&&◌, ◌||◌, Option, none, some, List, [], ◌∷◌, arith,
  Text, text_eq, nat_eq, codes, ◌==◌, ltb, Option-cases, length, if_case,
}
use disquisition.Common.Maps.{lookup, Each-erase, Each-insert}
use disquisition.Relay.Router.{
  Session, Router, Request, modify, bridge, receiver_of, call, is_other, register, accept_caller,
  accept, route, is_peer_id,
}
use disquisition.Relay.Router.Events.{pass, max_unsent}
use disquisition.Relay.Router.Invariant.{Inv, is_in, is_in-modify, change-Inv, out-Inv, abort-Inv}

bridge-Inv : (a : ℕ) (peer : Text) (b : ℕ) (r : Router) → Inv r → Inv (bridge a peer b r)
unfolding bridge
bridge-Inv a peer b r v =
    out-Inv _ _
      (out-Inv _ _ (change-Inv b _ _ (change-Inv a _ _ (change-Inv b _ _ (change-Inv a _ r v)))))

call-Inv :
    (random_code : ℕ → Text) (i : ℕ) (peer : Text) (o : Option (ℕ × Session)) (r : Router)
    → is_in i r.sessions ≡ true
    → Inv r
    → Inv (call random_code i peer o r)
call-Inv random_code i peer none r here v = out-Inv _ _ (out-Inv _ r v)
call-Inv random_code i peer (some (j, s)) r here v =
    let f = λ (t : Session). record t { peer = s.peer } in
    let w = change-Inv i f r v in
    if_case Inv (s.peer == peer) (λ _. out-Inv _ _ (out-Inv _ r v))
      (λ _. out-Inv _ _ record {
        keys = w.keys;
        few = w.few;
        below = w.below;
        live =
            Each-insert (λ t j. is_in j (modify i f r.sessions) ≡ true) _ i r.waiting w.live
              (is_in-modify i f i r.sessions ∙ here);
      })

register-Inv : (i : ℕ) (q : Request) (r : Router) → Inv r → Inv (register i q r)
unfolding register
register-Inv i q r v =
    let w =
      change-Inv i (λ s. record s { control = true; peer = q.peer; communities = q.communities }) r
        v in
    if_case Inv (is_other i (lookup q.peer r.registered)) (λ _. abort-Inv i r v)
      (λ _.
        if_case Inv (ltb 64 (length q.communities)) (λ _. abort-Inv i r v)
          (λ _. out-Inv _ _ record { keys = w.keys; few = w.few; below = w.below; live = w.live }))

accept_caller-Inv :
    (i : ℕ) (peer : Text) (o : Option (ℕ × Session)) (r : Router)
    → Inv r
    → Inv (accept_caller i peer o r)
accept_caller-Inv i peer none r v = abort-Inv i r v
accept_caller-Inv i peer (some (c, s)) r v =
    if_case Inv (s.peer == peer) (λ _. bridge-Inv c s.peer i r v) (λ _. abort-Inv i r v)

accept-Inv : (i : ℕ) (q : Request) (r : Router) → Inv r → Inv (accept i q r)
unfolding accept
accept-Inv i q r v = accept_caller-Inv i q.peer _ _ record {
  keys = v.keys;
  few = v.few;
  below = v.below;
  live = Each-erase (λ t j. is_in j r.sessions ≡ true) q.ticket r.waiting v.live;
}

pub route-Inv :
    (verify : Request → Text → Bool) (random_code : ℕ → Text) (i : ℕ) (s : Session) (q : Request)
    (r : Router)
    → is_in i r.sessions ≡ true
    → Inv r
    → Inv (route verify random_code i s q r)
unfolding route
route-Inv verify random_code i s q r here v =
    if_case Inv (s.control && q.kind == codes "ping") (λ _. out-Inv _ r v)
      (λ _.
        if_case Inv (not (q.nonce == s.nonce) || (not (is_peer_id q.peer) || not (verify q q.peer)))
          (λ _. abort-Inv i r v)
          (λ _.
            if_case Inv (q.kind == codes "register") (λ _. register-Inv i q r v)
              (λ _.
                if_case Inv (q.kind == codes "dial" && not s.control)
                  (λ _. call-Inv random_code i q.peer (receiver_of r q) r here v)
                  (λ _.
                    if_case Inv (q.kind == codes "accept" && not s.control)
                      (λ _. accept-Inv i q r v) (λ _. abort-Inv i r v)))))

pub lookup-is_in :
    (i : ℕ) (m : List (ℕ × Session)) (s : Session) → lookup i m ≡ some s → is_in i m ≡ true
unfolding lookup
lookup-is_in i [] s h = cc
lookup-is_in i ((j, t) ∷ m) s h = ground (arith, lookup-is_in i m s)

pub pass-Inv : (unsent : ℕ → ℕ) (i : ℕ) (s : Session) (r : Router) → Inv r → Inv (pass unsent i s r)
unfolding pass
pass-Inv unsent i s r v = elim (Option-cases s.paired) [
  | inl alone ↦ rw alone v
  | inr (q, e) ↦
      rw e (
        if_case Inv (ltb 0 (max_unsent - unsent q)) (λ _. out-Inv _ _ (change-Inv i _ r v))
          (λ _. v))
]
