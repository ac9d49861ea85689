-- ===== src/Community/Model/Merging.antt =====
-- Merging: replicas that merge the same snapshots come to the same state.
use disquisition.Common.{
  ◌≡◌, inl, inr, refl, sym, ◌∙◌, ap, subst, Bool, true, false, Option, some, List, arith, Text,
  text_eq, nat_eq, nat_beq, Bool-cases, ◌>>=◌, ◌>>◌, guard, length, >>=-eq-some,
}
use mathlib.Core.Option.{some-injective}
use disquisition.Community.Model.{Operation, Toolkit}
use disquisition.Community.Model.Log.{Checked, check_log}
use disquisition.Community.Model.Replay.{Built}
use disquisition.Community.Model.State.{
  Model, Snapshot, put_all, new_model, gathered, replayed, all_banned, settled, finished, rebuild,
  merge_incoming, merge, from_json, fits,
}
use disquisition.Community.Model.Union.{Agree, put_all_comm, put_all_same, put_all-Agree}

-- Rebuilding depends on the log only.
abbrev pub of_log : Text → Text → List (Text × Operation) → Model
of_log id owner ops = record (new_model id owner) { operations = ops }

module _ (q : Toolkit) where
  rebuild-of_log : (m : Model) → rebuild q m ≡ rebuild q (of_log m.id m.owner m.operations)
  unfolding rebuild replayed settled finished all_banned gathered
  rebuild-of_log m = refl

  -- The passes of a `rebuild` that succeeds.
  pub rebuild_parts :
      (m r : Model)
      → rebuild q m ≡ some r
      → (c : Checked) × (b : Built) × (check_log m.operations m.owner ≡ some c)
        × (replayed q m c ≡ some b)
        × (finished q m c b ≡ r)
  unfolding rebuild
  rebuild_parts m r h =
      let (c, checked, h1) =
        >>=-eq-some (check_log m.operations m.owner)
          (λ c. (replayed q m c >>= λ b. some (finished q m c b))) h in
      let (b, built, h2) = >>=-eq-some (replayed q m c) (λ b. some (finished q m c b)) h1 in
      (c, b, checked, built, some-injective (finished q m c b) r h2)

  -- The log of a rebuilt model is the one that it was rebuilt from.
  pub record SameLog (m r : Model) : Type 0 where
    pub id : r.id ≡ m.id
    pub owner : r.owner ≡ m.owner
    pub operations : r.operations ≡ m.operations

  pub rebuild-SameLog : (m r : Model) → rebuild q m ≡ some r → SameLog m r
  unfolding finished
  rebuild-SameLog m r h =
      let (c, b, _, _, e) = rebuild_parts m r h in
      record {
        id = sym (ap (λ (t : Model). t.id) e);
        owner = sym (ap (λ (t : Model). t.owner) e);
        operations = sym (ap (λ (t : Model). t.operations) e);
      }

  -- A model as `rebuild` leaves it.
  abbrev pub IsRebuilt : Model → Type 0
  IsRebuilt m = rebuild q m ≡ some m

  abbrev pub joined : Model → Model → Option Model
  joined a m = rebuild q (of_log m.id m.owner (put_all a.operations m.operations))

  pub merge_incoming-joined :
      (a m r : Model) (changed : Bool)
      → IsRebuilt m
      → Agree a.operations m.operations
      → merge_incoming q m a ≡ some (r, changed)
      → joined a m ≡ some r
  unfolding merge_incoming
  merge_incoming-joined a m r changed built agree h =
      let ops = put_all a.operations m.operations in
      elim (Bool-cases (nat_beq (length ops) (length m.operations))) [
        | inl same ↦
            let stays : ops ≡ m.operations =
              put_all_same a.operations m.operations (ground arith) agree in
            let e : m ≡ r =
              ap (λ (p : Model × Bool). p.0)
                (some-injective (m, false) (r, changed) (rw same at h)) in
            ap (λ l. rebuild q (of_log m.id m.owner l)) stays
            ∙ (sym (rebuild-of_log m) ∙ built)
            ∙ ap (λ t. some t) e
        | inr grew ↦
            let merged = record m { operations = ops } in
            let h0 : (guard (fits q merged) >> rebuild q merged >>= λ t. some (t, true))
                ≡ some (r, changed) =
              rw grew at h in
            let (t, h1, h2) =
              >>=-eq-some (guard (fits q merged) >> rebuild q merged)
                (λ (t : Model). some (t, true)) h0 in
            let (_, _, h3) = >>=-eq-some (guard (fits q merged)) (λ _. rebuild q merged) h1 in
            sym (rebuild-of_log merged)
            ∙ h3
            ∙ ap (λ t. some t)
                (ap (λ (p : Model × Bool). p.0) (some-injective (t, true) (r, changed) h2))
      ]

  joined-SameLog :
      (a m r : Model)
      → joined a m ≡ some r
      → SameLog (of_log m.id m.owner (put_all a.operations m.operations)) r
  joined-SameLog a m r h =
      rebuild-SameLog (of_log m.id m.owner (put_all a.operations m.operations)) r h

  -- A rebuilt model is as it would be rebuilt again.
  pub rebuild-IsRebuilt : (m r : Model) → rebuild q m ≡ some r → IsRebuilt r
  rebuild-IsRebuilt m r h =
      let s = rebuild-SameLog m r h in
      rebuild-of_log r
      ∙ ap (λ i. rebuild q (of_log i r.owner r.operations)) s.id
      ∙ ap (λ o. rebuild q (of_log m.id o r.operations)) s.owner
      ∙ ap (λ l. rebuild q (of_log m.id m.owner l)) s.operations
      ∙ sym (rebuild-of_log m)
      ∙ h

  -- What two merges in a row rebuild.
  joined_twice :
      (a b m r s : Model)
      → joined a m ≡ some r
      → joined b r ≡ some s
      → rebuild q (of_log m.id m.owner (put_all b.operations (put_all a.operations m.operations)))
        ≡ some s
  joined_twice a b m r s h k =
      let w = joined-SameLog a m r h in
      sym (
        ap (λ i. rebuild q (of_log i r.owner (put_all b.operations r.operations))) w.id
        ∙ ap (λ o. rebuild q (of_log m.id o (put_all b.operations r.operations))) w.owner
        ∙ ap (λ l. rebuild q (of_log m.id m.owner (put_all b.operations l))) w.operations)
      ∙ k

  merge_twice :
      (a b m r s : Model) (c d : Bool)
      → IsRebuilt m
      → Agree a.operations m.operations
      → Agree b.operations m.operations
      → Agree b.operations a.operations
      → merge_incoming q m a ≡ some (r, c)
      → merge_incoming q r b ≡ some (s, d)
      → rebuild q (of_log m.id m.owner (put_all b.operations (put_all a.operations m.operations)))
        ≡ some s
  merge_twice a b m r s c d built am bm ba h k =
      let first = merge_incoming-joined a m r c built am h in
      let w = joined-SameLog a m r first in
      let br : Agree b.operations r.operations =
        subst (Agree b.operations) (sym w.operations)
          (put_all-Agree b.operations a.operations m.operations ba bm) in
      let r_built =
        rebuild-IsRebuilt (of_log m.id m.owner (put_all a.operations m.operations)) r first in
      joined_twice a b m r s first (merge_incoming-joined b r s d r_built br k)

  pub merge_read :
      (s : Snapshot) (m a : Model)
      → from_json q s m.id m.owner ≡ some a
      → merge q s m ≡ merge_incoming q m a
  unfolding merge
  merge_read s m a read = ap (λ o. o >>= merge_incoming q m) read

  merge_snapshots :
      (s t : Snapshot) (m a b r u : Model) (c d : Bool)
      → IsRebuilt m
      → from_json q s m.id m.owner ≡ some a
      → from_json q t m.id m.owner ≡ some b
      → Agree a.operations m.operations
      → Agree b.operations m.operations
      → Agree b.operations a.operations
      → merge q s m ≡ some (r, c)
      → merge q t r ≡ some (u, d)
      → rebuild q (of_log m.id m.owner (put_all b.operations (put_all a.operations m.operations)))
        ≡ some u
  merge_snapshots s t m a b r u c d built sa tb am bm ba h k =
      let h1 : merge_incoming q m a ≡ some (r, c) = sym (merge_read s m a sa) ∙ h in
      let w = joined-SameLog a m r (merge_incoming-joined a m r c built am h1) in
      let tr : from_json q t r.id r.owner ≡ some b =
        ap (λ i. from_json q t i r.owner) w.id ∙ ap (λ o. from_json q t m.id o) w.owner ∙ tb in
      merge_twice a b m r u c d built am bm ba h1 (sym (merge_read t r b tr) ∙ k)

  -- Let a replica be as it was rebuilt from its log, and let two snapshots be read, such that an operation that two of
  -- the three have under one number is the same. If the replica can merge them one after the other in either order,
  -- without a merge being refused, it comes to the same state in both: members, admins, channels, bans, invitations,
  -- deletion and log.
  pub merge_comm :
      (s t : Snapshot) (m a b m1 m2 n1 n2 : Model) (c1 c2 d1 d2 : Bool)
      → IsRebuilt m
      → from_json q s m.id m.owner ≡ some a
      → from_json q t m.id m.owner ≡ some b
      → Agree a.operations m.operations
      → Agree b.operations m.operations
      → Agree a.operations b.operations
      → Agree b.operations a.operations
      → merge q s m ≡ some (m1, c1)
      → merge q t m1 ≡ some (m2, c2)
      → merge q t m ≡ some (n1, d1)
      → merge q s n1 ≡ some (n2, d2)
      → m2 ≡ n2
  merge_comm s t m a b m1 m2 n1 n2 c1 c2 d1 d2 built sa tb am bm ab ba h1 h2 k1 k2 =
      some-injective m2 n2 (
        sym (merge_snapshots s t m a b m1 m2 c1 c2 built sa tb am bm ba h1 h2)
        ∙ ap (λ l. rebuild q (of_log m.id m.owner l))
            (put_all_comm b.operations a.operations m.operations ba)
        ∙ merge_snapshots t s m b a n1 n2 d1 d2 built tb sa bm am ab k1 k2)
