-- ===== src/Community/Model/Rights.antt =====
-- What a change needs, and who the host is.
use disquisition.Common.{
  ◌≡◌, ◌⊎◌, inl, inr, refl, sym, subst, Bool, true, false, not, ◌&&◌, ◌||◌, Option, none, some,
  List, [], ◌∷◌, arith, Text, text_eq, nat_eq, codes, ◌==◌, beq_refl, Bool-cases, Option-cases,
  ◌>>◌, guard, &&_true, if_case, >>=-eq-some, guard-some,
}
use mathlib.Core.Option.{some-injective, none-ne-some}
use disquisition.Common.Maps.{lookup}
use disquisition.Common.Sets.{has}
use disquisition.Community.Model.{Member, Details, Toolkit}
use disquisition.Community.Model.Log.{contains, is_some}
use disquisition.Community.Model.State.{Model}
use disquisition.Community.Model.Changes.{
  append, change, may_change, if_kind, valid_change, is_member, can_admin, is_admin, host,
  host_found, first_online, first_member,
}

change_refused :
    (q : Toolkit) (author kind : Text) (d : Details) (m : Model)
    → may_change q author kind m ≡ false
    → change q author kind d m ≡ none
unfolding change
change_refused q author kind d m h = elim (Option-cases (change q author kind d m)) [
  | inl failed ↦ failed
  | inr (r, e) ↦
      let there = guard (not m.deleted) in
      let may = guard (may_change q author kind m) in
      let owned = guard (if_kind q kind (codes "admin") (author == m.owner)) in
      let (_, e4, _) =
        >>=-eq-some (there >> may >> owned >> guard (valid_change q kind d m))
          (λ _. append q author kind d m) e in
      let (_, e3, _) =
        >>=-eq-some (there >> may >> owned) (λ _. guard (valid_change q kind d m)) e4 in
      let (_, e2, _) = >>=-eq-some (there >> may) (λ _. owned) e3 in
      let (_, _, e1) = >>=-eq-some there (λ _. may) e2 in
      absurd (ground (arith, h, guard-some (may_change q author kind m) e1))
]

-- A peer that is neither the owner nor a member with the rights of an admin changes nothing: whatever it asks for
-- but to leave or to change its profile is refused, and these too if it is no member.
pub change-none :
    (q : Toolkit) (author kind : Text) (d : Details) (m : Model)
    → (author == m.owner) ≡ false
    → is_admin q (lookup author m.members) ≡ false
    → (contains m.members author ≡ false)
      ⊎ (((kind == codes "leave") ≡ false) × ((kind == codes "profile") ≡ false))
    → change q author kind d m ≡ none
unfolding may_change is_member can_admin
change-none q author kind d m other plain unable =
    change_refused q author kind d m (ground (arith, other, plain, unable))

-- One of some peers is online.
abbrev pub any_online : List Text → List (Text × Member) → Bool
any_online online [] = false
any_online online ((p, m) ∷ ms) = has p online || any_online online ms

first_online_sound :
    (online : List Text) (members : List (Text × Member)) (ps : List Text) (p : Text)
    → first_online online members ps ≡ some p
    → (contains members p ≡ true) × (has p online ≡ true)
first_online_sound online members [] p h = absurd (none-ne-some p h)
first_online_sound online members (r ∷ ps) p h =
    elim (Bool-cases (contains members r && has r online)) [
      | inl found ↦
          let e : r ≡ p = some-injective r p (rw found at h) in
          subst (λ t. (contains members t ≡ true) × (has t online ≡ true)) e
            (&&_true (contains members r) (has r online) found)
      | inr other ↦ first_online_sound online members ps p (rw other at h)
    ]

contains_first :
    (p : Text) (m : Member) (ms : List (Text × Member)) → contains ((p, m) ∷ ms) p ≡ true
unfolding lookup
contains_first p m ms = rw (beq_refl {A = Text} p) refl

contains_later :
    (r p : Text) (m : Member) (ms : List (Text × Member))
    → contains ms p ≡ true
    → contains ((r, m) ∷ ms) p ≡ true
unfolding lookup
contains_later r p m ms h =
    if_case (λ (o : Option Member). is_some o ≡ true) (r == p) (λ _. refl) (λ _. h)

first_member_sound :
    (online : List Text) (ms : List (Text × Member))
    → any_online online ms ≡ true
    → (contains ms (first_member online ms) ≡ true) × (has (first_member online ms) online ≡ true)
unfolding first_member
first_member_sound online [] h = cc
first_member_sound online ((p, m) ∷ ms) h = elim (Bool-cases (has p online)) [
  | inl here ↦ rw here (contains_first p m ms, here)
  | inr away ↦
      let (member, there) = first_member_sound online ms (rw away at h) in
      rw away (contains_later p (first_member online ms) m ms member, there)
]

-- In a community that is not deleted and whose owner is a member, as long as some member is online the host is one of the
-- members, and it is online.
pub host_sound :
    (online : List Text) (m : Model)
    → m.deleted ≡ false
    → contains m.members m.owner ≡ true
    → any_online online m.members ≡ true
    → (contains m.members (host online m) ≡ true) × (has (host online m) online ≡ true)
unfolding host
host_sound online m there owner some_online =
    let P = λ (p : Text). (contains m.members p ≡ true) × (has p online ≡ true) in
    if_case P m.deleted (λ gone. absurd (ground (arith, there)))
      (λ _. elim (Option-cases (first_online online m.members m.priority)) [
        | inr (p, found) ↦
            subst (λ o. P (host_found online m o)) (sym found)
              (first_online_sound online m.members m.priority p found)
        | inl not_found ↦
            subst (λ o. P (host_found online m o)) (sym not_found)
              (if_case P (has m.owner online) (λ here. (owner, here))
                (λ _. first_member_sound online m.members some_online))
      ])
