-- ===== src/Relay/Router.antt =====
-- `CommunityRouter`. A pointer to a session is a number, and the sessions are kept under their numbers; what
-- the source would read through a pointer to a deleted session is read here as nothing. The bytes that a socket
-- has received and the router not read are `inbox`; what the router does to a socket is a list of outputs.
-- `QAbstractSocket::abort` emits `disconnected` before it returns, so that an abort runs that handler.
pub mod Events
pub mod Invariant
pub mod Requests
pub mod History
pub mod Closing
pub mod Names
use disquisition.Common.{
  ℕ, zero, suc, ◌+◌, ◌-◌, ◌*◌, ◌/◌, ◌%◌, ◌^◌, ◌≤◌, ◌<◌, min, max, ◌≡◌, ◌≢◌, ◌↔◌, ◌⊎◌, inl, inr,
  refl, sym, ◌∙◌, ap, ap₂, subst, Bool, true, false, not, ◌&&◌, ◌||◌, Option, none, some, List, [],
  ◌∷◌, ◌++◌, arith, Text, text_eq, nat_eq, text_beq, codes, Eq, ◌==◌, beq_refl, beq_sym, ltb, leb,
  nat_beq, if◌then◌else◌, Bool-cases, Option-cases, ◌>>=◌, ◌>>◌, guard, &&_true, length, take, drop,
}
use mathlib.Core.Option.{some-injective, none-ne-some}
use disquisition.Common.Maps.{lookup, insert, erase}
use disquisition.Protocol.Records.{all_hex}
use disquisition.Relay.Wire.{relay_prefix, Taken, unfinished, invalid, taken, take_frame}

pub record Session : Type 0 where
  pub inbox : Text
  pub buffer : Text
  pub nonce : Text
  pub peer : Text
  pub communities : List Text
  pub paired : Option ℕ
  pub tunnel : Bool
  pub control : Bool
  pub started : Bool
  pub touched : ℕ

abbrev pub any_of : Text → List Text → Bool
any_of t [] = false
any_of t (u ∷ us) = u == t || any_of t us

-- The frames that the router sends.
pub data Reply : Type 0 where
  challenge : Text → Reply
  pong registered_reply unavailable : Reply
  incoming : Text → Text → Reply
  ready : Option Text → Reply

pub data Output : Type 0 where
  sent : ℕ → Reply → Output
  passed : ℕ → Text → Output
  aborted closing : ℕ → Output

-- `fresh` is the number of the next session, `drawn` how many random codes have been drawn.
pub record Router : Type 0 where
  pub sessions : List (ℕ × Session)
  pub registered : List (Text × ℕ)
  pub waiting : List (Text × ℕ)
  pub fresh : ℕ
  pub drawn : ℕ
  pub outputs : List Output

-- A request, as its JSON object reads; an absent value is empty.
pub record Request : Type 0 where
  pub kind : Text
  pub nonce : Text
  pub peer : Text
  pub communities : List Text
  pub target : Text
  pub community : Text
  pub ticket : Text

abbrev pub out : Output → Router → Router
out o r = record r { outputs = r.outputs ++ (o ∷ []) }

-- An assignment through a pointer.
unfoldable pub modify : ℕ → (Session → Session) → List (ℕ × Session) → List (ℕ × Session)
modify i f [] = []
modify i f ((j, s) ∷ m) = if nat_beq j i then (j, f s) ∷ m else (j, s) ∷ modify i f m

abbrev pub change : ℕ → (Session → Session) → Router → Router
change i f r = record r { sessions = modify i f r.sessions }

unfoldable pub erase_value : ℕ → List (Text × ℕ) → List (Text × ℕ)
erase_value i [] = []
erase_value i ((t, j) ∷ m) = if nat_beq j i then erase_value i m else (t, j) ∷ erase_value i m

abbrev pub is_value : ℕ → Option ℕ → Bool
is_value i none = false
is_value i (some j) = nat_beq j i

-- The handler of `disconnected`, but for the abort of the other end.
unfoldable pub forget : ℕ → Session → Router → Router
forget i s r = record r {
  registered =
      if is_value i (lookup s.peer r.registered) then erase s.peer r.registered else r.registered;
  waiting = erase_value i r.waiting;
  sessions = erase i r.sessions;
}

abbrev pub unpair : Option ℕ → Router → Router
unpair none r = r
unpair (some q) r = change q (λ s. record s { paired = none }) r

-- The abort of the other end, whose own pairing was cleared: nothing is left for it to abort.
abbrev pub forget_found : ℕ → Option Session → Router → Router
forget_found i none r = r
forget_found i (some s) r = out (aborted i) (forget i s r)

abbrev pub forget_other : Option ℕ → Router → Router
forget_other none r = r
forget_other (some q) r = forget_found q (lookup q r.sessions) r

abbrev pub disconnect_found : ℕ → Option Session → Router → Router
disconnect_found i none r = r
disconnect_found i (some s) r = forget_other s.paired (forget i s (unpair s.paired r))

unfoldable pub disconnected : ℕ → Router → Router
disconnected i r = disconnect_found i (lookup i r.sessions) r

unfoldable pub abort : ℕ → Router → Router
abort i r = disconnected i (out (aborted i) r)

-- identity.cpp: the expression `^[0-9a-f]{64}$`, whose `$` also matches before a last newline.
unfoldable pub is_peer_id : Text → Bool
is_peer_id t =
    (nat_beq (length t) 64 && all_hex t)
    || (nat_beq (length t) 65 && (all_hex (take 64 t) && (drop 64 t == 10 ∷ [])))

unfoldable pub bridge : ℕ → Text → ℕ → Router → Router
bridge a caller_peer b r =
    let paired =
      change b (λ s. record s { paired = some a })
        (change a (λ s. record s { paired = some b }) r) in
    let tunnels =
      change b (λ s. record s { tunnel = true })
        (change a (λ s. record s { tunnel = true }) paired) in
    out (sent b (ready none)) (out (sent a (ready (some caller_peer))) tunnels)

-- The sessions registered under a name, and the first that hosts a community and is not `peer` itself.
abbrev pub pointed : Router → Option ℕ → Option (ℕ × Session)
pointed r o = o >>= λ i. lookup i r.sessions >>= λ s. some (i, s)

unfoldable pub host_among : Router → Text → Text → List (Text × ℕ) → Option (ℕ × Session)
host_among r peer community [] = none
host_among r peer community ((_, i) ∷ m) =
    let later = host_among r peer community m in
    elim (lookup i r.sessions) [
      | none ↦ later
      | some s ↦
          if not (s.peer == peer) && any_of community s.communities then some (i, s) else later
    ]

unfoldable pub receiver_of : Router → Request → Option (ℕ × Session)
receiver_of r q = elim (pointed r (lookup q.target r.registered)) [
  | some found ↦ some found
  | none ↦
      if nat_beq (length q.community) 0 then none else host_among r q.peer q.community r.registered
]

abbrev pub refuse_call : ℕ → Router → Router
refuse_call i r = out (closing i) (out (sent i unavailable) r)

abbrev pub call : (ℕ → Text) → ℕ → Text → Option (ℕ × Session) → Router → Router
call random_code i peer none r = refuse_call i r
call random_code i peer (some (j, s)) r =
    let ticket = random_code r.drawn in
    if s.peer == peer
    then refuse_call i r
    else out (sent j (incoming ticket peer))
        (record (change i (λ t. record t { peer = s.peer }) r) {
          waiting = insert ticket i r.waiting;
          drawn = r.drawn + 1;
        })

abbrev pub is_other : ℕ → Option ℕ → Bool
is_other i none = false
is_other i (some j) = not (nat_beq j i)

unfoldable pub register : ℕ → Request → Router → Router
register i q r =
    let known =
      change i (λ s. record s { control = true; peer = q.peer; communities = q.communities }) r in
    if is_other i (lookup q.peer r.registered)
    then abort i r
    else if ltb 64 (length q.communities)
    then abort i r
    else out (sent i registered_reply) (record known { registered = insert q.peer i r.registered })

abbrev pub accept_caller : ℕ → Text → Option (ℕ × Session) → Router → Router
accept_caller i peer none r = abort i r
accept_caller i peer (some (c, s)) r = if s.peer == peer then bridge c s.peer i r else abort i r

unfoldable pub accept : ℕ → Request → Router → Router
accept i q r =
    accept_caller i q.peer (pointed r (lookup q.ticket r.waiting))
      (record r { waiting = erase q.ticket r.waiting })

-- A request of the session `i`, whose state is `s`. `verify` is the check of the request's signature.
unfoldable pub route :
    (Request → Text → Bool) → (ℕ → Text) → ℕ → Session → Request → Router → Router
route verify random_code i s q r =
    if s.control && q.kind == codes "ping"
    then out (sent i pong) r
    else if not (q.nonce == s.nonce) || (not (is_peer_id q.peer) || not (verify q q.peer))
    then abort i r
    else if q.kind == codes "register"
    then register i q r
    else if q.kind == codes "dial" && not s.control
    then call random_code i q.peer (receiver_of r q) r
    else if q.kind == codes "accept" && not s.control
    then accept i q r
    else abort i r
