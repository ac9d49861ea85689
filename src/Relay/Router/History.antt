-- ===== src/Relay/Router/History.antt =====
-- Any history of the router.
use disquisition.Common.{
  ℕ, zero, suc, ◌+◌, ◌*◌, ◌≤◌, ◌<◌, ◌≡◌, inl, inr, refl, ◌∙◌, Bool, true, not, Option, none, some,
  List, [], ◌∷◌, ◌++◌, arith, Text, text_eq, nat_eq, ltb, leb, Option-cases, ◌>>=◌, length, take,
  if_case,
}
use disquisition.Common.Maps.{lookup, insert, insert-IsMap, Each, Each-map, Each-insert}
use disquisition.Relay.Wire.{Taken, unfinished, invalid, taken, take_frame, relay_prefix}
use disquisition.Relay.Router.{Session, Router, Request, change, disconnected}
use disquisition.Relay.Router.Events.{
  start, request_taken, request_found, max_sessions, new_session, requests, read_requests,
  read_started, begin_session, read, received, written, adopt, check_found, sweep, timeout,
  starts_with,
}
use disquisition.Relay.Router.Invariant.{
  Inv, is_in, is_in-modify, change-Inv, out-Inv, abort-Inv, disconnected-Inv,
}
use disquisition.Relay.Router.Requests.{route-Inv, lookup-is_in, pass-Inv}

-- A session that is below the next number and not yet there.
absent_above : (n : ℕ) (m : List (ℕ × Session)) → Each (λ i s. i < n) m → lookup n m ≡ none
unfolding lookup
absent_above n [] h = refl
absent_above n ((j, s) ∷ m) (p, h) = ground (arith, absent_above n m h)

length-insert_new :
    (n : ℕ) (s : Session) (m : List (ℕ × Session)) → length (insert n s m) ≤ length m + 1
unfolding insert
length-insert_new n s [] = omega arith
length-insert_new n s ((j, t) ∷ m) = ground (arith, length-insert_new n s m)

is_in-insert :
    (n : ℕ) (s : Session) (j : ℕ) (m : List (ℕ × Session))
    → is_in j m ≡ true
    → is_in j (insert n s m) ≡ true
unfolding insert
is_in-insert n s j [] h = cc
is_in-insert n s j ((k, t) ∷ m) h = ground (arith, is_in-insert n s j m)

module _ (parse : Text → Option Request) (verify : Request → Text → Bool)
    (random_code : ℕ → Text) where
  request_taken-Inv :
      (i : ℕ) (s : Session) (t : Taken Request) (r : Router)
      → is_in i r.sessions ≡ true
      → Inv r
      → Inv (request_taken parse verify random_code i s t r).0
  request_taken-Inv i s unfinished r here v = v
  request_taken-Inv i s invalid r here v = abort-Inv i r v
  request_taken-Inv i s (taken q rest) r here v =
      let g = λ (t : Session). record t { buffer = rest } in
      route-Inv verify random_code i s q (change i g r) (is_in-modify i g i r.sessions ∙ here)
        (change-Inv i g r v)

  requests-Inv : (f i : ℕ) (r : Router) → Inv r → Inv (requests parse verify random_code f i r)
  unfolding requests
  requests-Inv zero i r v = v
  requests-Inv (suc f) i r v =
      let step = request_found parse verify random_code i (lookup i r.sessions) r in
      let w : Inv step.0 = elim (Option-cases (lookup i r.sessions)) [
        | inl gone ↦ rw gone v
        | inr (s, e) ↦
            rw e (
              request_taken-Inv i s (take_frame parse s.buffer) r (lookup-is_in i r.sessions s e) v)
      ] in
      if_case Inv step.1 (λ _. requests-Inv f i step.0 w) (λ _. w)

  read_requests-Inv :
      (i : ℕ) (s : Session) (r : Router)
      → Inv r
      → Inv (read_requests parse verify random_code i s r)
  unfolding read_requests
  read_requests-Inv i s r v =
      let w = change-Inv i (λ t. record t { buffer = s.buffer ++ s.inbox; inbox = [] }) r v in
      if_case Inv (ltb (64 * 1024) (length (s.buffer ++ s.inbox))) (λ _. abort-Inv i _ w)
        (λ _. requests-Inv _ i _ w)

  module _ (unsent : ℕ → ℕ) where
    read_started-Inv :
        (i : ℕ) (r : Router) → Inv r → Inv (read_started parse verify random_code unsent i r)
    unfolding read_started
    read_started-Inv i r v = elim (Option-cases (lookup i r.sessions)) [
      | inl gone ↦ rw gone v
      | inr (s, e) ↦
          rw e
            (if_case Inv s.tunnel (λ _. pass-Inv unsent i s r v) (λ _. read_requests-Inv i s r v))
    ]

    begin_session-Inv :
        (i : ℕ) (s : Session) (r : Router)
        → Inv r
        → Inv (begin_session parse verify random_code unsent i s r)
    unfolding begin_session
    begin_session-Inv i s r v =
        let prefix = take (length relay_prefix) s.inbox in
        if_case Inv (not (starts_with relay_prefix prefix)) (λ _. abort-Inv i r v)
          (λ _.
            if_case Inv (ltb (length prefix) (length relay_prefix)) (λ _. v)
              (λ _. read_started-Inv i _ (out-Inv _ _ (change-Inv i _ r v))))

    read-Inv : (now i : ℕ) (r : Router) → Inv r → Inv (read parse verify random_code unsent now i r)
    unfolding read
    read-Inv now i r v =
        let w = change-Inv i (λ t. record t { touched = now }) r v in
        elim (Option-cases (lookup i r.sessions)) [
          | inl gone ↦ rw gone v
          | inr (s, e) ↦
              rw e (
                if_case Inv s.started (λ _. read_started-Inv i _ w)
                  (λ _. begin_session-Inv i s _ w))
        ]

    adopt-Inv : (now : ℕ) (r : Router) → Inv r → Inv (adopt parse verify random_code unsent now r)
    unfolding adopt
    adopt-Inv now r v =
        if_case Inv (leb max_sessions (length r.sessions)) (λ _. v)
          (λ room. read-Inv now r.fresh _ record {
            keys = insert-IsMap r.fresh _ r.sessions v.keys;
            few = ground (
              arith,
              length-insert_new r.fresh (new_session (random_code r.drawn) now) r.sessions,
            );
            below =
                Each-insert (λ i s. i < r.fresh + 1) r.fresh _ r.sessions
                  (Each-map (λ i s. i < r.fresh) (λ i s. i < r.fresh + 1) r.sessions
                    (λ i s h. omega arith) v.below)
                  (omega arith);
            live =
                Each-map (λ t j. is_in j r.sessions ≡ true)
                  (λ t j. is_in j (insert r.fresh _ r.sessions) ≡ true) r.waiting
                  (λ t j h. is_in-insert r.fresh _ j r.sessions h) v.live;
          })

-- What happens to the router.
pub data Event : Type 0 where
  connected : (ℕ → ℕ) → ℕ → Event
  received_bytes : (ℕ → ℕ) → ℕ → ℕ → Text → Event
  wrote : (ℕ → ℕ) → ℕ → ℕ → Event
  hung_up : ℕ → Event
  ticked : ℕ → Event

sweep-Inv : (now : ℕ) (m : List (ℕ × Session)) (r : Router) → Inv r → Inv (sweep now m r)
unfolding sweep
sweep-Inv now [] r v = v
sweep-Inv now ((i, _) ∷ m) r v = sweep-Inv now m _ (checked (lookup i r.sessions))
  where
    checked : (o : Option Session) → Inv (check_found now i o r)
    checked none = v
    checked (some s) = if_case Inv _ (λ _. abort-Inv i r v) (λ _. v)

module _ (parse : Text → Option Request) (verify : Request → Text → Bool)
    (random_code : ℕ → Text) where
  abbrev pub happen : Event → Router → Router
  happen (connected unsent now) r = adopt parse verify random_code unsent now r
  happen (received_bytes unsent now i bytes) r =
      received parse verify random_code unsent now i bytes r
  happen (wrote unsent now i) r = written parse verify random_code unsent now i r
  happen (hung_up i) r = disconnected i r
  happen (ticked now) r = timeout now r

  abbrev pub history : List Event → Router → Router
  history [] r = r
  history (e ∷ es) r = history es (happen e r)

  happen-Inv : (e : Event) (r : Router) → Inv r → Inv (happen e r)
  unfolding received written timeout
  happen-Inv (connected unsent now) r v = adopt-Inv parse verify random_code unsent now r v
  happen-Inv (received_bytes unsent now i bytes) r v =
      read-Inv parse verify random_code unsent now i _ (change-Inv i _ r v)
  happen-Inv (wrote unsent now i) r v =
      elim (Option-cases (lookup i r.sessions >>= λ s. s.paired)) [
        | inl alone ↦ rw alone v
        | inr (q, e) ↦ rw e (read-Inv parse verify random_code unsent now q r v)
      ]
  happen-Inv (hung_up i) r v = disconnected-Inv i r v
  happen-Inv (ticked now) r v = sweep-Inv now r.sessions r v

  history-keeps : (es : List Event) (r : Router) → Inv r → Inv (history es r)
  history-keeps [] r v = v
  history-keeps (e ∷ es) r v = history-keeps es (happen e r) (happen-Inv e r v)

  -- Whatever sockets connect, send and leave, the router has at most 512 sessions, under distinct numbers
  -- below the next one; and every session that waits for its call to be accepted is still
  -- connected.
  pub history-Inv : (es : List Event) → Inv (history es start)
  history-Inv es =
      history-keeps es start (record { keys = tt; few = omega arith; below = tt; live = tt })
