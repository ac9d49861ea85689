-- ===== src/Relay/Router/Events.antt =====
-- What reaches the router: sockets that connect, receive, write and disconnect, and the timer.
use disquisition.Common.{
  ℕ, zero, suc, ◌+◌, ◌-◌, ◌*◌, Bool, true, false, not, ◌&&◌, Option, none, some, List, [], ◌∷◌,
  ◌++◌, Text, text_eq, nat_eq, ltb, leb, nat_beq, if◌then◌else◌, ◌>>=◌, length, take, drop,
}
use disquisition.Common.Maps.{lookup, insert}
use disquisition.Relay.Wire.{relay_prefix, Taken, unfinished, invalid, taken, take_frame}
use disquisition.Relay.Router.{
  Session, Router, Request, challenge, sent, passed, out, change, abort, route,
}

abbrev pub start : Router
start = record { sessions = []; registered = []; waiting = []; fresh = 0; drawn = 0; outputs = [] }

abbrev pub max_sessions : ℕ
max_sessions = 512

abbrev pub new_session : Text → ℕ → Session
new_session nonce now = record {
  inbox = [];
  buffer = [];
  nonce = nonce;
  peer = [];
  communities = [];
  paired = none;
  tunnel = false;
  control = false;
  started = false;
  touched = now;
}

unfoldable pub starts_with : Text → Text → Bool
starts_with s [] = true
starts_with [] (p ∷ ps) = false
starts_with (c ∷ s) (p ∷ ps) = nat_beq c p && starts_with s ps

abbrev pub max_unsent : ℕ
max_unsent = 512 * 1024

-- The bytes of a tunnel go to the other end as they are, as many as its socket has room for.
unfoldable pub pass : (ℕ → ℕ) → ℕ → Session → Router → Router
pass unsent i s r = elim s.paired [
  | none ↦ r
  | some q ↦
      let budget = max_unsent - unsent q in
      if ltb 0 budget
      then out (passed q (take budget s.inbox))
          (change i (λ t. record t { inbox = drop budget s.inbox }) r)
      else r
]

module _ (parse : Text → Option Request) (verify : Request → Text → Bool)
    (random_code : ℕ → Text) where
  -- The session is gone or a tunnel: no more requests are read.
  abbrev pub is_done : Option Session → Bool
  is_done none = true
  is_done (some s) = s.tunnel

  -- What is done with the front of the buffer, and whether to look for another frame.
  abbrev pub request_taken : ℕ → Session → Taken Request → Router → Router × Bool
  request_taken i s unfinished r = (r, false)
  request_taken i s invalid r = (abort i r, false)
  request_taken i s (taken q rest) r =
      let routed = route verify random_code i s q (change i (λ t. record t { buffer = rest }) r) in
      (routed, not (is_done (lookup i routed.sessions)))

  abbrev pub request_found : ℕ → Option Session → Router → Router × Bool
  request_found i none r = (r, false)
  request_found i (some s) r = request_taken i s (take_frame parse s.buffer) r

  -- The requests of the buffer, one after the other, on fuel: each frame takes five bytes at least.
  unfoldable pub requests : ℕ → ℕ → Router → Router
  requests zero i r = r
  requests (suc f) i r =
      let step = request_found i (lookup i r.sessions) r in
      let later = requests f i step.0 in if step.1 then later else step.0

  unfoldable pub read_requests : ℕ → Session → Router → Router
  read_requests i s r =
      let buffer = s.buffer ++ s.inbox in
      let filled = change i (λ t. record t { buffer = buffer; inbox = [] }) r in
      if ltb (64 * 1024) (length buffer) then abort i filled else requests (length buffer) i filled

  -- What follows the prefix.
  abbrev pub started_found : (ℕ → ℕ) → ℕ → Option Session → Router → Router
  started_found unsent i none r = r
  started_found unsent i (some s) r = if s.tunnel then pass unsent i s r else read_requests i s r

  unfoldable pub read_started : (ℕ → ℕ) → ℕ → Router → Router
  read_started unsent i r = started_found unsent i (lookup i r.sessions) r

  unfoldable pub begin_session : (ℕ → ℕ) → ℕ → Session → Router → Router
  begin_session unsent i s r =
      let size = length relay_prefix in
      let prefix = take size s.inbox in
      let begun =
        out (sent i (challenge s.nonce))
          (change i (λ t. record t { inbox = drop size s.inbox; started = true }) r) in
      if not (starts_with relay_prefix prefix)
      then abort i r
      else if ltb (length prefix) size
      then r
      else read_started unsent i begun

  abbrev pub read_found : (ℕ → ℕ) → ℕ → ℕ → Option Session → Router → Router
  read_found unsent now i none r = r
  read_found unsent now i (some s) r =
      let touched = change i (λ t. record t { touched = now }) r in
      if s.started then read_started unsent i touched else begin_session unsent i s touched

  -- `read`. `unsent` is what each socket has yet to write.
  unfoldable pub read : (ℕ → ℕ) → ℕ → ℕ → Router → Router
  read unsent now i r = read_found unsent now i (lookup i r.sessions) r

  -- `readyRead`, when a socket has received bytes.
  unfoldable pub received : (ℕ → ℕ) → ℕ → ℕ → Text → Router → Router
  received unsent now i bytes r =
      read unsent now i (change i (λ t. record t { inbox = t.inbox ++ bytes }) r)

  abbrev pub wake : (ℕ → ℕ) → ℕ → Option ℕ → Router → Router
  wake unsent now none r = r
  wake unsent now (some q) r = read unsent now q r

  -- `bytesWritten`: the other end may have bytes that wait.
  unfoldable pub written : (ℕ → ℕ) → ℕ → ℕ → Router → Router
  written unsent now i r = wake unsent now (lookup i r.sessions >>= λ s. s.paired) r

  unfoldable pub adopt : (ℕ → ℕ) → ℕ → Router → Router
  adopt unsent now r =
      let added = record r {
        sessions = insert r.fresh (new_session (random_code r.drawn) now) r.sessions;
        fresh = r.fresh + 1;
        drawn = r.drawn + 1;
      } in
      let started = read unsent now r.fresh added in
      if leb max_sessions (length r.sessions) then r else started

abbrev pub limit_of : Session → ℕ
limit_of s = if s.control then 40000 else 15000

abbrev pub check_found : ℕ → ℕ → Option Session → Router → Router
check_found now i none r = r
check_found now i (some s) r =
    if not s.tunnel && ltb (limit_of s) (now - s.touched) then abort i r else r

-- The timer's round over the sessions that were there when it began.
unfoldable pub sweep : ℕ → List (ℕ × Session) → Router → Router
sweep now [] r = r
sweep now ((i, _) ∷ m) r = sweep now m (check_found now i (lookup i r.sessions) r)

unfoldable pub timeout : ℕ → Router → Router
timeout now r = sweep now r.sessions r

abbrev pub first_of : List (ℕ × Session) → Option ℕ
first_of [] = none
first_of ((i, s) ∷ m) = some i

abbrev pub abort_first : Option ℕ → Router → Router
abort_first none r = r
abort_first (some i) r = abort i r

-- `while (!sessions_.isEmpty()) sessions_.first()->socket->abort();` on fuel.
unfoldable pub close_all : ℕ → Router → Router
close_all zero r = r
close_all (suc f) r = close_all f (abort_first (first_of r.sessions) r)

unfoldable pub close : Router → Router
close r = close_all (length r.sessions) r
