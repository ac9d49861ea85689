-- ===== src/Community/Node/Routes.antt =====
-- Node: dialling and the links that there are.
use disquisition.Common.{
  ℕ, ◌<◌, ◌≡◌, inl, inr, refl, sym, ◌∙◌, ap, subst, true, false, some, List, [], ◌∷◌, arith, Text,
  text_eq, nat_eq, ◌==◌, beq_sym, leb, Bool-cases, if_case, ◌⊎◌,
}
use disquisition.Common.Maps.{lookup, insert}
use disquisition.Community.Model.{Toolkit, is_empty}
use disquisition.Community.Model.Log.{or_else, put, is_some}
use disquisition.Community.Node.{Link, Node}
use disquisition.Common.Maps.{lookup-insert}
use disquisition.Community.Node.Connect.{
  Chance, new_link, add_link, route_key, link_on, no_retry, backed_off, may_dial, dial,
}

-- Link numbers are used once, and a route is one link's at most.
pub record HasRoutes (n : Node) : Type 0 where
  pub used : (j : ℕ) (x : Link) → lookup j n.links ≡ some x → j < n.next_link
  pub one :
      (i j : ℕ) (x y : Link)
      → lookup i n.links ≡ some x
      → lookup j n.links ≡ some y
      → is_empty x.route ≡ false
      → (x.route == y.route) ≡ true
      → i ≡ j

link_on_none :
    (key : Text) (ls : List (ℕ × Link)) (j : ℕ) (x : Link)
    → is_some (link_on key ls) ≡ false
    → lookup j ls ≡ some x
    → (x.route == key) ≡ false
unfolding lookup
link_on_none key [] j x h e = cc
link_on_none key ((l, link) ∷ ls) j x h e = elim (Bool-cases (link.route == key)) [
  | inl same ↦ absurd (cc (rw same at h))
  | inr other ↦ elim (Bool-cases (l == j)) [
    | inl here ↦
        let r : some link ≡ some x = rw here at e in
        subst (λ (y : Link). (y.route == key) ≡ false) (ap (or_else link) r) other
    | inr there ↦ link_on_none key ls j x (rw other at h) (rw there at e)
  ]
]

added-HasRoutes :
    (n : Node) (x : Link)
    → HasRoutes n
    → ((j : ℕ) (y : Link) → lookup j n.links ≡ some y → (y.route == x.route) ≡ false)
    → HasRoutes (add_link x n)
added-HasRoutes n x h new = record {
  used = λ j y e. elim (Bool-cases (n.next_link == j)) [
    | inl same ↦ omega (arith, (nat_eq.beq_iff n.next_link j).0 same)
    | inr other ↦ omega (arith, h.used j y (old j y other e))
  ];
  one = λ i j y z e f some_route same_route. elim (Bool-cases (n.next_link == i)) [
    | inl here ↦ elim (Bool-cases (n.next_link == j)) [
      | inl there ↦
          sym ((nat_eq.beq_iff n.next_link i).0 here) ∙ (nat_eq.beq_iff n.next_link j).0 there
      | inr there ↦ absurd (
          cc (
            sym same_route
            ∙ ap (λ t. t == z.route) (ap (λ (w : Link). w.route) (sym (just i y here e)))
            ∙ beq_sym {A = Text} z.route x.route
            ∙ new j z (old j z there f)))
    ]
    | inr here ↦ elim (Bool-cases (n.next_link == j)) [
      | inl there ↦ absurd (
          cc (
            sym same_route
            ∙ ap (λ t. y.route == t) (ap (λ (w : Link). w.route) (sym (just j z there f)))
            ∙ new i y (old i y here e)))
      | inr there ↦ h.one i j y z (old i y here e) (old j z there f) some_route same_route
    ]
  ];
}
  where
    old :
        (j : ℕ) (y : Link)
        → (n.next_link == j) ≡ false
        → lookup j (insert n.next_link x n.links) ≡ some y
        → lookup j n.links ≡ some y
    old j y other e = rw (lookup-insert n.next_link j x n.links, other) at e

    just :
        (j : ℕ) (y : Link)
        → (n.next_link == j) ≡ true
        → lookup j (insert n.next_link x n.links) ≡ some y
        → x ≡ y
    just j y same e =
        let r : some x ≡ some y = rw (lookup-insert n.next_link j x n.links, same) at e in
        ap (or_else x) r

added_keeps :
    (n : Node) (x : Link)
    → HasRoutes n
    → (j : ℕ) (y : Link) → lookup j n.links ≡ some y
    → lookup j (insert n.next_link x n.links) ≡ some y
added_keeps n x h j y e = elim (Bool-cases (n.next_link == j)) [
  | inl same ↦ absurd (omega (arith, h.used j y e, (nat_eq.beq_iff n.next_link j).0 same))
  | inr other ↦ rw (lookup-insert n.next_link j x n.links, other) e
]

added_links :
    (n : Node) (x : Link) (j : ℕ) (y : Link)
    → lookup j (insert n.next_link x n.links) ≡ some y
    → (lookup j n.links ≡ some y) ⊎ (x ≡ y)
added_links n x j y e = elim (Bool-cases (n.next_link == j)) [
  | inl same ↦
      let r : some x ≡ some y = rw (lookup-insert n.next_link j x n.links, same) at e in
      inr (ap (or_else x) r)
  | inr other ↦ inl (rw (lookup-insert n.next_link j x n.links, other) at e)
]

-- A link on a route that no link of the node is on.
abbrev IsNew : Node → Text → Text → Link → Type 0
IsNew n key peer x =
    (x.route ≡ key)
    × (x.expected ≡ peer)
    × (x.outgoing ≡ true)
    × ((j : ℕ) (y : Link) → lookup j n.links ≡ some y → (y.route == key) ≡ false)

-- What dialling does to the links of a node.
pub record Dialled (n : Node) (key peer : Text) (after : Node) : Type 0 where
  pub routes : HasRoutes after
  pub kept : (j : ℕ) (x : Link) → lookup j n.links ≡ some x → lookup j after.links ≡ some x
  pub opened :
      (j : ℕ) (x : Link)
      → lookup j after.links ≡ some x
      → (lookup j n.links ≡ some x) ⊎ IsNew n key peer x

module _ (q : Toolkit) where
  -- The parts of the test.
  may_dial_parts :
      (now : ℕ) (peer endpoint discover : Text) (n : Node)
      → may_dial q now peer endpoint discover n ≡ true
      → (is_some (link_on (route_key peer endpoint discover) n.links) ≡ false)
        × (let r = or_else no_retry (lookup (route_key peer endpoint discover) n.retries) in
            leb r.due now ≡ true)
  unfolding may_dial
  may_dial_parts now peer endpoint discover n h = ground arith

  -- If every link has a number below the next one, and no two links are on one route that is not empty, then this is so
  -- after dialling, which keeps every link as it is; a link that it adds is an outgoing one that expects the dialled
  -- peer, on the dialled route, which no link was on.
  pub dial-Dialled :
      (now : ℕ) (chance : Chance) (peer endpoint discover : Text) (n : Node)
      → HasRoutes n
      → (let k = dial q now chance peer endpoint discover n in
          Dialled n (route_key peer endpoint discover) peer k)
  unfolding dial
  dial-Dialled now chance peer endpoint discover n h =
      let key = route_key peer endpoint discover in
      let l = n.next_link in
      let retry = backed_off now (chance.jitter_of l) (or_else no_retry (lookup key n.retries)) in
      let link : Link = record (new_link now (chance.code_of l) true peer) {
        route = key;
        discover = discover;
      } in
      if_case (Dialled n key peer) (may_dial q now peer endpoint discover n)
        (λ may.
          let kept : HasRoutes (record n { retries = put key retry n.retries }) = record {
            used = h.used;
            one = h.one;
          } in
          let new : (j : ℕ) (y : Link) → lookup j n.links ≡ some y → (y.route == key) ≡ false =
            λ j y e.
              link_on_none key n.links j y (may_dial_parts now peer endpoint discover n may).0 e in
          let added = added-HasRoutes _ link kept new in
          record {
            routes = record { used = added.used; one = added.one };
            kept = λ j x e. added_keeps n link h j x e;
            opened = λ j x e. elim (added_links n link j x e) [
              | inl old ↦ inl old
              | inr same ↦
                  inr (subst (λ (x : Link). IsNew n key peer x) same (refl, refl, refl, new))
            ];
          })
        (λ _. record { routes = h; kept = λ j x e. e; opened = λ j x e. inl e })
