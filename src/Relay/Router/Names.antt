-- ===== src/Relay/Router/Names.antt =====
-- Who is registered under a name.
use disquisition.Common.{
  ℕ, ◌≡◌, ◌⊎◌, inl, inr, sym, ◌∙◌, ap, subst, Bool, true, false, not, ◌&&◌, ◌||◌, Option, none,
  some, List, arith, Text, text_eq, nat_eq, codes, ◌==◌, ltb, nat_beq, Bool-cases, Option-cases,
  length, if_case,
}
use mathlib.Core.Option.{some-injective}
use disquisition.Common.Maps.{lookup, insert, erase, lookup-insert, lookup-erase}
use disquisition.Relay.Router.{
  aborted, Session, Router, Request, out, is_value, forget, unpair, forget_found, forget_other,
  disconnect_found, disconnected, abort, bridge, call, receiver_of, pointed, is_other, register,
  accept_caller, accept, route, is_peer_id,
}

-- What is registered after is registered before.
abbrev Kept : Router → Router → Type 0
Kept r s = (p : Text) (k : ℕ) → lookup p s.registered ≡ some k → lookup p r.registered ≡ some k

forget-Kept : (i : ℕ) (s : Session) (r : Router) → Kept r (forget i s r)
unfolding forget
forget-Kept i s r p k =
    if_case (λ (m : List (Text × ℕ)). lookup p m ≡ some k → lookup p r.registered ≡ some k)
      (is_value i (lookup s.peer r.registered))
      (λ _ h. ground (arith, lookup-erase s.peer p r.registered)) (λ _ h. h)

forget_other-Kept : (q : Option ℕ) (r : Router) → Kept r (forget_other q r)
forget_other-Kept none r = λ p k h. h
forget_other-Kept (some q) r = go (lookup q r.sessions)
  where
    go : (o : Option Session) → Kept r (forget_found q o r)
    go none p k h = h
    go (some s) p k h = forget-Kept q s r p k h

unpair-Kept : (q : Option ℕ) (r : Router) → Kept r (unpair q r)
unpair-Kept none r p k h = h
unpair-Kept (some q) r p k h = h

abort-Kept : (i : ℕ) (r : Router) → Kept r (abort i r)
unfolding abort disconnected
abort-Kept i r = go (lookup i r.sessions)
  where
    go : (o : Option Session) → Kept r (disconnect_found i o (out (aborted i) r))
    go none p k h = h
    go (some s) p k h =
        unpair-Kept s.paired (out (aborted i) r) p k
          (forget-Kept i s _ p k (forget_other-Kept s.paired _ p k h))

call-Kept :
    (random_code : ℕ → Text) (i : ℕ) (peer : Text) (o : Option (ℕ × Session)) (r : Router)
    → Kept r (call random_code i peer o r)
call-Kept random_code i peer none r = λ p k h. h
call-Kept random_code i peer (some (j, s)) r = λ p k.
    if_case (λ (t : Router). lookup p t.registered ≡ some k → lookup p r.registered ≡ some k)
      (s.peer == peer) (λ _ h. h) (λ _ h. h)

accept_caller-Kept :
    (i : ℕ) (peer : Text) (o : Option (ℕ × Session)) (r : Router)
    → Kept r (accept_caller i peer o r)
unfolding bridge
accept_caller-Kept i peer none r = abort-Kept i r
accept_caller-Kept i peer (some (c, s)) r = λ p k.
    if_case (λ (t : Router). lookup p t.registered ≡ some k → lookup p r.registered ≡ some k)
      (s.peer == peer) (λ _ h. h) (λ _. abort-Kept i r p k)

abbrev Registers : ℕ → Request → Router → Text → ℕ → Type 0
Registers i q r p k =
    (lookup p r.registered ≡ some k) ⊎ ((lookup p r.registered ≡ none) × (k ≡ i) × (q.peer ≡ p))

-- A name that is registered was registered before, or is now registered by the session, for the first time,
-- in a request for that name.
register_sound :
    (i : ℕ) (q : Request) (r : Router) (p : Text) (k : ℕ)
    → lookup p (register i q r).registered ≡ some k
    → Registers i q r p k
unfolding register
register_sound i q r p k =
    if_case (λ (t : Router). lookup p t.registered ≡ some k → Registers i q r p k)
      (is_other i (lookup q.peer r.registered)) (λ _ h. inl (abort-Kept i r p k h))
      (λ mine.
        if_case (λ (t : Router). lookup p t.registered ≡ some k → Registers i q r p k)
          (ltb 64 (length q.communities)) (λ _ h. inl (abort-Kept i r p k h))
          (λ _ h. new_name mine h))
  where
    new_name :
        is_other i (lookup q.peer r.registered) ≡ false
        → lookup p (insert q.peer i r.registered) ≡ some k
        → Registers i q r p k
    new_name mine h = elim (Bool-cases (q.peer == p)) [
      | inr other ↦ inl (rw (lookup-insert q.peer p i r.registered, other) at h)
      | inl same ↦
          let e = (text_eq.beq_iff q.peer p).0 same in
          let ki : i ≡ k =
            some-injective i k (rw (lookup-insert q.peer p i r.registered, same) at h) in
          elim (Option-cases (lookup p r.registered)) [
            | inl absent ↦ inr (absent, sym ki, e)
            | inr (j, there) ↦
                let here = subst (λ u. lookup u r.registered ≡ some j) (sym e) there in
                let own : not (nat_beq j i) ≡ false = rw here at mine in
                inl (there ∙ ap some (ground arith))
          ]
    ]

signed :
    (verify : Request → Text → Bool) (i : ℕ) (s : Session) (q : Request) (r : Router) (p : Text)
    (k : ℕ)
    → (not (q.nonce == s.nonce) || (not (is_peer_id q.peer) || not (verify q q.peer))) ≡ false
    → Registers i q r p k
    → (lookup p r.registered ≡ some k)
      ⊎ ((lookup p r.registered ≡ none) × (k ≡ i) × (verify q p ≡ true) × (q.nonce ≡ s.nonce))
signed verify i s q r p k fine (inl old) = inl old
signed verify i s q r p k fine (inr (absent, ki, e)) =
    let holds : verify q q.peer ≡ true = ground arith in
    let same : (q.nonce == s.nonce) ≡ true = ground arith in
    inr
      (absent, ki, subst (λ u. verify q u ≡ true) e holds, (text_eq.beq_iff q.nonce s.nonce).0 same)

-- After a request of the session `i`, whose state is `s`, a name stands for the session that it stood for before,
-- or it was free, and the request carries it, with the session's nonce and a signature that holds for it: no
-- session takes over a name that another holds, and none registers a name without its key.
pub route_sound :
    (verify : Request → Text → Bool) (random_code : ℕ → Text) (i : ℕ) (s : Session) (q : Request)
    (r : Router) (p : Text) (k : ℕ)
    → lookup p (route verify random_code i s q r).registered ≡ some k
    → (lookup p r.registered ≡ some k)
      ⊎ ((lookup p r.registered ≡ none) × (k ≡ i) × (verify q p ≡ true) × (q.nonce ≡ s.nonce))
unfolding route accept
route_sound verify random_code i s q r p k =
    let P : Router → Type 0 = λ t.
      lookup p t.registered ≡ some k
      → (lookup p r.registered ≡ some k)
        ⊎ ((lookup p r.registered ≡ none) × (k ≡ i) × (verify q p ≡ true) × (q.nonce ≡ s.nonce)) in
    let kept : (t : Router) → Kept r t → P t = λ t f h. inl (f p k h) in
    if_case P (s.control && q.kind == codes "ping") (λ _ h. inl h)
      (λ _.
        if_case P (not (q.nonce == s.nonce) || (not (is_peer_id q.peer) || not (verify q q.peer)))
          (λ _. kept (abort i r) (abort-Kept i r))
          (λ fine.
            if_case P (q.kind == codes "register")
              (λ _ h. signed verify i s q r p k fine (register_sound i q r p k h))
              (λ _.
                if_case P (q.kind == codes "dial" && not s.control)
                  (λ _.
                    kept (call random_code i q.peer (receiver_of r q) r)
                      (call-Kept random_code i q.peer (receiver_of r q) r))
                  (λ _.
                    if_case P (q.kind == codes "accept" && not s.control)
                      (λ _. kept (accept i q r) (
                        accept_caller-Kept i q.peer (pointed r (lookup q.ticket r.waiting))
                          (record r { waiting = erase q.ticket r.waiting })))
                      (λ _. kept (abort i r) (abort-Kept i r))))))
