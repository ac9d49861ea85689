-- ===== src/Relay/Router/Closing.antt =====
-- `close`, and names that no session takes from another.
use disquisition.Common.{
  ℕ, zero, suc, ◌≤◌, ◌<◌, ◌≡◌, ◌⊎◌, inl, inr, refl, ◌∙◌, ap, true, Option, none, some, List, [],
  ◌∷◌, arith, text_eq, nat_eq, beq_refl, length,
}
use disquisition.Common.Maps.{lookup, erase}
use disquisition.Relay.Router.{
  aborted, Session, Router, out, forget, unpair, forget_found, forget_other, disconnected, abort,
}
use disquisition.Relay.Router.Events.{close_all, abort_first, first_of, close}
use disquisition.Relay.Router.Invariant.{is_in, is_in-modify, length-modify, length-erase_le}

length-erase_lt :
    (i : ℕ) (m : List (ℕ × Session)) → is_in i m ≡ true → length (erase i m) < length m
unfolding erase
length-erase_lt i [] h = cc
length-erase_lt i ((j, s) ∷ m) h = ground (arith, length-erase_le i m, length-erase_lt i m)

length-forget_other :
    (p : Option ℕ) (r : Router) → length (forget_other p r).sessions ≤ length r.sessions
unfolding forget
length-forget_other none r = omega arith
length-forget_other (some q) r = go (lookup q r.sessions)
  where
    go : (o : Option Session) → length (forget_found q o r).sessions ≤ length r.sessions
    go none = omega arith
    go (some s) = length-erase_le q r.sessions

length-unpair : (p : Option ℕ) (r : Router) → length (unpair p r).sessions ≡ length r.sessions
length-unpair none r = refl
length-unpair (some q) r = length-modify q _ r.sessions

is_in-unpair :
    (p : Option ℕ) (i : ℕ) (r : Router) → is_in i (unpair p r).sessions ≡ is_in i r.sessions
is_in-unpair none i r = refl
is_in-unpair (some q) i r = is_in-modify q _ i r.sessions

-- The first session goes, with its other end.
length-abort :
    (i : ℕ) (s : Session) (m : List (ℕ × Session)) (r : Router)
    → r.sessions ≡ (i, s) ∷ m
    → length (abort i r).sessions < length r.sessions
unfolding abort disconnected forget
length-abort i s m r e =
    let there : lookup i r.sessions ≡ some s = unfold lookup in rw (e, beq_refl i) refl in
    let first : is_in i r.sessions ≡ true = rw (e, beq_refl i) refl in
    let u = unpair s.paired (out (aborted i) r) in
    rw there (
      omega (
        arith,
        length-forget_other s.paired (forget i s u),
        length-erase_lt i u.sessions (is_in-unpair s.paired i (out (aborted i) r) ∙ first),
        length-unpair s.paired (out (aborted i) r),
      ))

first-cases :
    (m : List (ℕ × Session))
    → (m ≡ []) ⊎ ((i : ℕ) × (s : Session) × (rest : List (ℕ × Session)) × (m ≡ (i, s) ∷ rest))
first-cases [] = inl refl
first-cases ((i, s) ∷ rest) = inr (i, s, rest, refl)

close_all-ends : (f : ℕ) (r : Router) → length r.sessions ≤ f → (close_all f r).sessions ≡ []
unfolding close_all
close_all-ends zero r h = elim (first-cases r.sessions) [
  | inl e ↦ e
  | inr (i, s, m, e) ↦ absurd (omega (arith, ap length e))
]
close_all-ends (suc f) r h = elim (first-cases r.sessions) [
  | inl e ↦
      ap {A = List (ℕ × Session)} (λ l. (close_all f (abort_first (first_of l) r)).sessions) e
      ∙ close_all-ends f r (omega (arith, ap length e))
  | inr (i, s, m, e) ↦
      ap {A = List (ℕ × Session)} (λ l. (close_all f (abort_first (first_of l) r)).sessions) e
      ∙ close_all-ends f (abort i r) (omega (arith, length-abort i s m r e))
]

-- However the sessions are paired, `close` leaves none: a round for each session is enough.
pub sessions-close : (r : Router) → (close r).sessions ≡ []
unfolding close
sessions-close r = close_all-ends (length r.sessions) r (omega arith)
