-- ===== src/Community/Node/Dialling.antt =====
-- Node: how often a peer is dialled.
use disquisition.Common.{
  ℕ, zero, suc, ◌+◌, ◌^◌, ◌≤◌, ◌<◌, min, ◌≡◌, inl, inr, refl, sym, ◌∙◌, ap, subst, true, false,
  some, List, [], ◌∷◌, arith, Text, text_eq, nat_eq, ◌==◌, beq_refl, Bool-cases, if_case, All,
  Option,
}
use disquisition.Common.Maps.{lookup}
use disquisition.Community.Model.{Toolkit}
use disquisition.Community.Model.Log.{or_else, put}
use disquisition.Community.Node.{Retry, Node}
use disquisition.Community.Model.Union.{lookup-put}
use disquisition.Community.Node.Connect.{Chance, route_key, no_retry, backed_off, may_dial, dial}

pow_pos : (n : ℕ) → 1 ≤ 2 ^ n
pow_pos zero = omega arith
pow_pos (suc n) = omega (arith, pow_pos n)

pow_two : (n : ℕ) → 1 ≤ n → 2 ≤ 2 ^ n
pow_two zero h = absurd (omega arith)
pow_two (suc n) h = omega (arith, pow_pos n)

-- The wait is between one and thirty seconds, and what is random on top.
pub backed_off-le :
    (now jitter : ℕ) (r : Retry)
    → (let next = backed_off now jitter r in
        (now + 1000 ≤ next.due) × (next.due ≤ now + 30000 + jitter) × (next.failures ≤ 6))
unfolding backed_off
backed_off-le now jitter r =
    let p = pow_two (min 6 (r.failures + 1)) (omega arith) in
    (omega (arith, p), omega arith, omega arith)

-- An attempt to dial.
pub record Try : Type 0 where
  pub time : ℕ
  pub chance : Chance
  pub peer : Text
  pub endpoint : Text
  pub discover : Text

abbrev pub IsBefore : ℕ → Try → Type 0
IsBefore end t = t.time < end

module _ (q : Toolkit) where
  early :
      (later : ℕ) (peer endpoint discover : Text) (m : Node)
      → (let r = or_else no_retry (lookup (route_key peer endpoint discover) m.retries) in
          later < r.due)
      → may_dial q later peer endpoint discover m ≡ false
  unfolding may_dial
  early later peer endpoint discover m h = ground arith

  late :
      (later : ℕ) (peer endpoint discover : Text) (m : Node)
      → may_dial q later peer endpoint discover (record m { retries = [] }) ≡ true
      → (let r = or_else no_retry (lookup (route_key peer endpoint discover) m.retries) in
          r.due ≤ later)
      → may_dial q later peer endpoint discover m ≡ true
  unfolding may_dial lookup
  late later peer endpoint discover m h g = ground arith

  unfoldable pub dial_all : List Try → Node → Node
  dial_all [] n = n
  dial_all (t ∷ ts) n = dial_all ts (dial q t.time t.chance t.peer t.endpoint t.discover n)

  dial_other :
      (key : Text) (t : Try) (m : Node)
      → (let r = or_else no_retry (lookup key m.retries) in t.time < r.due)
      → (let k = dial q t.time t.chance t.peer t.endpoint t.discover m in
          lookup key k.retries ≡ lookup key m.retries)
  unfolding dial
  dial_other key t m h = elim (Bool-cases (route_key t.peer t.endpoint t.discover == key)) [
    | inl same ↦
        let e = sym ((text_eq.beq_iff (route_key t.peer t.endpoint t.discover) key).0 same) in
        rw
          (early t.time t.peer t.endpoint t.discover m
            (subst (λ k. let r = or_else no_retry (lookup k m.retries) in t.time < r.due) e h))
          refl
    | inr other ↦
        if_case (λ (k : Node). lookup key k.retries ≡ lookup key m.retries)
          (may_dial q t.time t.peer t.endpoint t.discover m)
          (λ _.
            rw
              (
                lookup-put (route_key t.peer t.endpoint t.discover) key
                    (backed_off t.time (t.chance.jitter_of m.next_link) (
                      or_else no_retry (lookup (route_key t.peer t.endpoint t.discover) m.retries)))
                    m.retries,
                other,
              )
              refl)
          (λ _. refl)
  ]

  dial_all_other :
      (key : Text) (end : ℕ) (ts : List Try) (m : Node)
      → All (IsBefore end) ts
      → (let r = or_else no_retry (lookup key m.retries) in end ≤ r.due)
      → lookup key (dial_all ts m).retries ≡ lookup key m.retries
  unfolding dial_all
  dial_all_other key end [] m h late = refl
  dial_all_other key end (t ∷ ts) m (soon, h) late =
      let next = dial q t.time t.chance t.peer t.endpoint t.discover m in
      let e = dial_other key t m (omega (arith, soon, late)) in
      dial_all_other key end ts next h
        (subst (λ (o : Option Retry). let r = or_else no_retry o in end ≤ r.due) (sym e) late)
      ∙ e

  -- Once a route has been dialled, then as long as its entry in `retries` stays as the dial has left it, it is not dialled
  -- again for a second, and it may be dialled again after thirty seconds and the random delay, if nothing but the wait
  -- had been in the way; and no attempts to dial within that second, on any routes, change the entry. (TLS coming up on a
  -- route removes its entry, and joining a community or being registered by the relay removes all.)
  pub dial_paced :
      (now : ℕ) (chance : Chance) (peer endpoint discover : Text) (n : Node)
      → may_dial q now peer endpoint discover n ≡ true
      → (m : Node)
      → (let k = dial q now chance peer endpoint discover n in
          let key = route_key peer endpoint discover in lookup key m.retries ≡ lookup key k.retries)
      → (later : ℕ) (tries : List Try) → All (IsBefore (now + 1000)) tries
      → (later < now + 1000 → (other : Chance) → dial q later other peer endpoint discover m ≡ m)
        × (now + 30000 + chance.jitter_of n.next_link ≤ later
            → may_dial q later peer endpoint discover (record m { retries = [] }) ≡ true
            → may_dial q later peer endpoint discover m ≡ true)
        × (let key = route_key peer endpoint discover in
            lookup key (dial_all tries m).retries ≡ lookup key m.retries)
  unfolding dial
  dial_paced now chance peer endpoint discover n may m same later tries soon =
      let key = route_key peer endpoint discover in
      let jitter = chance.jitter_of n.next_link in
      let before = or_else no_retry (lookup key n.retries) in
      let retry = backed_off now jitter before in
      let (low, high, _) = backed_off-le now jitter before in
      let kept : lookup key m.retries ≡ lookup key (put key retry n.retries) = rw (may) at same in
      let found : lookup key (put key retry n.retries) ≡ some retry =
        rw (lookup-put key key retry n.retries, beq_refl key) refl in
      let e : or_else no_retry (lookup key m.retries) ≡ retry =
        ap (λ o. or_else no_retry o) (kept ∙ found) in
      (
        (λ soon other.
            rw (early later peer endpoint discover m (rw e (omega (arith, low, soon)))) refl),
        (λ long free. late later peer endpoint discover m free (rw e (omega (arith, high, long)))),
        dial_all_other key (now + 1000) tries m soon (rw e low),
      )
