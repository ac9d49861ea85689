-- ===== src/Relay/Router/Invariant.antt =====
-- What every event of the router keeps.
use disquisition.Common.{
  ℕ, ◌≤◌, ◌<◌, ◌≡◌, refl, ◌∙◌, Bool, true, false, ◌||◌, Option, none, some, List, [], ◌∷◌, arith,
  Text, text_eq, nat_eq, nat_beq, length, if_case,
}
use disquisition.Common.Maps.{lookup, erase, IsMap, erase-IsMap, Each, Each-map, Each-erase}
use disquisition.Relay.Router.{
  Session, Router, Output, out, modify, change, erase_value, forget, unpair, forget_found,
  forget_other, disconnect_found, disconnected, abort,
}
use disquisition.Relay.Router.Events.{max_sessions}

abbrev pub is_in : ℕ → List (ℕ × Session) → Bool
is_in i [] = false
is_in i ((j, s) ∷ m) = nat_beq j i || is_in i m

-- The sessions have distinct numbers, all below the next, and are at most 512; who waits for a call to be
-- accepted is one of them.
pub record Inv (r : Router) : Type 0 where
  pub keys : IsMap r.sessions
  pub few : length r.sessions ≤ max_sessions
  pub below : Each (λ i s. i < r.fresh) r.sessions
  pub live : Each (λ t i. is_in i r.sessions ≡ true) r.waiting

module _ (i : ℕ) (f : Session → Session) where
  pub length-modify : (m : List (ℕ × Session)) → length (modify i f m) ≡ length m
  unfolding modify
  length-modify [] = refl
  length-modify ((j, s) ∷ m) = ground (arith, length-modify m)

  pub is_in-modify : (j : ℕ) (m : List (ℕ × Session)) → is_in j (modify i f m) ≡ is_in j m
  unfolding modify
  is_in-modify j [] = refl
  is_in-modify j ((k, s) ∷ m) = ground (arith, is_in-modify j m)

  modify-absent :
      (j : ℕ) (m : List (ℕ × Session)) → lookup j m ≡ none → lookup j (modify i f m) ≡ none
  unfolding modify lookup
  modify-absent j [] h = refl
  modify-absent j ((k, s) ∷ m) h = ground (arith, modify-absent j m)

  modify-IsMap : (m : List (ℕ × Session)) → IsMap m → IsMap (modify i f m)
  unfolding modify
  modify-IsMap [] h = tt
  modify-IsMap ((k, s) ∷ m) (fresh, h) =
      if_case IsMap (nat_beq k i) (λ _. (fresh, h))
        (λ _. (modify-absent k m fresh, modify-IsMap m h))

  modify-below :
      (n : ℕ) (m : List (ℕ × Session)) → Each (λ i s. i < n) m → Each (λ i s. i < n) (modify i f m)
  unfolding modify
  modify-below n [] h = tt
  modify-below n ((k, s) ∷ m) (p, h) =
      if_case (Each (λ i s. i < n)) (nat_beq k i) (λ _. (p, h)) (λ _. (p, modify-below n m h))

  pub change-Inv : (r : Router) → Inv r → Inv (change i f r)
  change-Inv r v = record {
    keys = modify-IsMap r.sessions v.keys;
    few = omega (arith, length-modify r.sessions, v.few);
    below = modify-below r.fresh r.sessions v.below;
    live =
        Each-map (λ t j. is_in j r.sessions ≡ true) (λ t j. is_in j (modify i f r.sessions) ≡ true)
          r.waiting (λ t j h. is_in-modify j r.sessions ∙ h) v.live;
  }

pub length-erase_le : (i : ℕ) (m : List (ℕ × Session)) → length (erase i m) ≤ length m
unfolding erase
length-erase_le i [] = omega arith
length-erase_le i ((j, s) ∷ m) = ground (arith, length-erase_le i m)

is_in-erase :
    (i j : ℕ) (m : List (ℕ × Session))
    → is_in j m ≡ true
    → nat_beq j i ≡ false
    → is_in j (erase i m) ≡ true
unfolding erase
is_in-erase i j [] h n = h
is_in-erase i j ((k, s) ∷ m) h n = ground (arith, is_in-erase i j m)

-- The calls of a session that goes do not wait on.
live_left :
    (i : ℕ) (m : List (ℕ × Session)) (w : List (Text × ℕ))
    → Each (λ t j. is_in j m ≡ true) w
    → Each (λ t j. is_in j (erase i m) ≡ true) (erase_value i w)
unfolding erase_value
live_left i m [] h = tt
live_left i m ((t, j) ∷ w) (p, h) =
    if_case (Each (λ t j. is_in j (erase i m) ≡ true)) (nat_beq j i) (λ _. live_left i m w h)
      (λ other. (is_in-erase i j m p other, live_left i m w h))

forget-Inv : (i : ℕ) (s : Session) (r : Router) → Inv r → Inv (forget i s r)
unfolding forget
forget-Inv i s r v = record {
  keys = erase-IsMap i r.sessions v.keys;
  few = omega (arith, length-erase_le i r.sessions, v.few);
  below = Each-erase (λ i s. i < r.fresh) i r.sessions v.below;
  live = live_left i r.sessions r.waiting v.live;
}

-- Outputs, registrations and codes do not matter.
pub out-Inv : (o : Output) (r : Router) → Inv r → Inv (out o r)
out-Inv o r v = record { keys = v.keys; few = v.few; below = v.below; live = v.live }

unpair-Inv : (p : Option ℕ) (r : Router) → Inv r → Inv (unpair p r)
unpair-Inv none r v = v
unpair-Inv (some q) r v = change-Inv q _ r v

forget_other-Inv : (p : Option ℕ) (r : Router) → Inv r → Inv (forget_other p r)
forget_other-Inv none r v = v
forget_other-Inv (some q) r v = go (lookup q r.sessions)
  where
    go : (o : Option Session) → Inv (forget_found q o r)
    go none = v
    go (some s) = out-Inv _ _ (forget-Inv q s r v)

pub disconnected-Inv : (i : ℕ) (r : Router) → Inv r → Inv (disconnected i r)
unfolding disconnected
disconnected-Inv i r v = go (lookup i r.sessions)
  where
    go : (o : Option Session) → Inv (disconnect_found i o r)
    go none = v
    go (some s) = forget_other-Inv s.paired _ (forget-Inv i s _ (unpair-Inv s.paired r v))

pub abort-Inv : (i : ℕ) (r : Router) → Inv r → Inv (abort i r)
unfolding abort
abort-Inv i r v = disconnected-Inv i _ (out-Inv _ r v)
