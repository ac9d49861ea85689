-- ===== src/Images/Assembler/Invariant.antt =====
-- Every operation of the assembler keeps its invariant.
use disquisition.Common.{
  ℕ, ◌+◌, ◌-◌, ◌≤◌, ◌<◌, ◌≡◌, refl, sym, subst, Option, none, some, [], arith, Text, text_eq,
  nat_beq, ltb, length, get_or, set, length-set, Bool-cases, inl, inr, ◌∙◌,
}
use disquisition.Common.Maps.{
  lookup, insert, insert-IsMap, Each-insert, Each-lookup, lookup-insert_self, sum_of-insert_old,
  erase-insert,
}
use disquisition.Images.Split.{max_image_chunks, joined}
use disquisition.Images.Assembler.{
  Key, key_eq, Partial, Assembler, max_buffered_bytes, expire, drop, restart, begin, with_chunk,
  store, is_refused, add,
}
use disquisition.Images.Assembler.Drop.{
  Inv, IsPartial, drop-Inv, drop_present, expire_keeps, restart_keeps, is_of,
}
use disquisition.Images.Assembler.Ready.{
  joined-set, filled-set, IsReady, restart_fits, begin-IsReady, accepted,
}

module _ (k : Key) (index count : ℕ) (chunk : Text) (a : Assembler) (p : Partial)
    (ready : IsReady k count a p) (in_range : index < count) (some_bytes : 0 < length chunk)
    (slot_empty : length (get_or p.chunks index []) ≡ 0) where
  pub kept : IsPartial p
  kept = Each-lookup (λ k p. IsPartial p) k a.transfers ready.inv.each ready.present

  with_chunk-IsPartial : p.received + 1 < count → IsPartial (with_chunk p index chunk)
  with_chunk-IsPartial more =
      let inside : index < length p.chunks = omega (arith, ready.size) in
      let size : length (set p.chunks index chunk) ≡ length p.chunks =
        length-set p.chunks index chunk in
      record {
        bytes = omega (arith, kept.bytes, joined-set p.chunks index chunk inside slot_empty);
        received =
            omega
              (arith, kept.received, filled-set p.chunks index chunk inside slot_empty some_bytes);
        unfinished = omega (arith, size, ready.size);
        bounded = omega (arith, size, kept.bounded);
      }

  -- A stored chunk that leaves others missing.
  store_more-Inv :
      p.received + 1 < count
      → a.buffered_bytes + length chunk ≤ max_buffered_bytes
      → Inv (record {
        transfers = insert k (with_chunk p index chunk) a.transfers;
        buffered_bytes = a.buffered_bytes + length chunk;
      })
  store_more-Inv more room = record {
    keys = insert-IsMap k _ a.transfers ready.inv.keys;
    each =
        Each-insert (λ k p. IsPartial p) k _ a.transfers ready.inv.each (with_chunk-IsPartial more);
    total = omega (
      arith,
      ready.inv.total,
      sum_of-insert_old (λ k p. p.bytes) k (with_chunk p index chunk) p a.transfers ready.present,
    );
    bounded = room;
    few = λ s. omega (
      arith,
      ready.inv.few s,
      sum_of-insert_old (is_of s) k (with_chunk p index chunk) p a.transfers ready.present,
    );
  }

-- A finished transfer is dropped as if its last chunk had not been stored.
pub drop-insert :
    (k : Key) (p q : Partial) (n : ℕ) (a : Assembler)
    → lookup k a.transfers ≡ some p
    → q.bytes ≡ p.bytes + n
    → drop k (record { transfers = insert k q a.transfers; buffered_bytes = a.buffered_bytes + n })
      ≡ drop k a
drop-insert k p q n a present size =
    let left : a.buffered_bytes + n - q.bytes ≡ a.buffered_bytes - p.bytes = omega arith in
    drop_present k _ q (lookup-insert_self k q a.transfers)
    ∙ ((λ i. record { transfers = erase-insert k q a.transfers i; buffered_bytes = left i })
        ∙ sym (drop_present k a p present))

-- The state after a chunk is stored.
abbrev pub stored : Key → ℕ → Text → Assembler → Partial → Assembler
stored k index chunk a p = record {
  transfers = insert k (with_chunk p index chunk) a.transfers;
  buffered_bytes = a.buffered_bytes + length chunk;
}

-- The four outcomes of `store`.
pub store_cases {ℓ} :
    (P : Assembler × Option Text → Type ℓ) (k : Key) (index count : ℕ) (chunk : Text)
    (a : Assembler) (p : Partial)
    → (0 < length (get_or p.chunks index []) → P (a, none))
    → (length (get_or p.chunks index []) ≡ 0
        → max_buffered_bytes < a.buffered_bytes + length chunk
        → P (drop k a, none))
    → (length (get_or p.chunks index []) ≡ 0
        → a.buffered_bytes + length chunk ≤ max_buffered_bytes
        → p.received + 1 < count
        → P (stored k index chunk a p, none))
    → (length (get_or p.chunks index []) ≡ 0
        → a.buffered_bytes + length chunk ≤ max_buffered_bytes
        → count ≤ p.received + 1
        → P (drop k (stored k index chunk a p), some (joined (set p.chunks index chunk))))
    → P (store k index count chunk a p)
unfolding store
store_cases P k index count chunk a p again full more last =
    elim (Bool-cases (nat_beq (length (get_or p.chunks index [])) 0)) [
      | inr taken ↦ rw taken (again (ground arith))
      | inl free ↦
          rw free (elim (Bool-cases (ltb max_buffered_bytes (a.buffered_bytes + length chunk))) [
            | inl over ↦ rw over (full (ground arith) (ground arith))
            | inr within ↦ rw within (elim (Bool-cases (ltb (p.received + 1) count)) [
              | inl some_left ↦ rw some_left (more (ground arith) (ground arith) (ground arith))
              | inr none_left ↦ rw none_left (last (ground arith) (ground arith) (ground arith))
            ])
          ])
    ]

pub store-Inv :
    (k : Key) (index count : ℕ) (chunk : Text) (a : Assembler) (p : Partial)
    → IsReady k count a p
    → index < count
    → 0 < length chunk
    → Inv (store k index count chunk a p).0
store-Inv k index count chunk a p ready in_range some_bytes =
    store_cases (λ r. Inv r.0) k index count chunk a p (λ _. ready.inv)
      (λ _ _. drop-Inv k a ready.inv)
      (λ free room more.
        store_more-Inv k index count chunk a p ready in_range some_bytes free more room)
      (λ _ _ _.
        subst Inv
          (sym (drop-insert k p (with_chunk p index chunk) (length chunk) a ready.present refl))
          (drop-Inv k a ready.inv))

-- The state in which the chunk is stored.
abbrev pub prepared : Key → ℕ → ℕ → Assembler → Assembler × Partial
prepared k count now_ms a = begin k count now_ms (restart k count (expire now_ms a))

pub prepared-IsReady :
    (k : Key) (count now_ms : ℕ) (a : Assembler)
    → 0 < count
    → count ≤ max_image_chunks
    → Inv a
    → IsReady k count (prepared k count now_ms a).0 (prepared k count now_ms a).1
prepared-IsReady k count now_ms a pos few v =
    begin-IsReady k count now_ms _ pos few
      (restart_keeps Inv drop-Inv k count _ (expire_keeps Inv drop-Inv now_ms a v))
      (restart_fits k count (expire now_ms a))

-- A chunk that comes, whatever its sender claims about it, keeps the invariant: the bytes held are
-- counted exactly and stay within the limit, no sender has more than two transfers, and each transfer
-- has a chunk missing.
pub add-Inv :
    (sender : Text) (transfer_id index count : ℕ) (chunk : Text) (now_ms : ℕ) (a : Assembler)
    → Inv a
    → Inv (add sender transfer_id index count chunk now_ms a).0
unfolding add
add-Inv sender transfer_id index count chunk now_ms a v =
    elim (Bool-cases (is_refused index count chunk)) [
      | inl refused ↦ rw refused (expire_keeps Inv drop-Inv now_ms a v)
      | inr fine ↦
          let (pos, few, in_range, some_bytes, _, _) = accepted index count chunk fine in
          rw fine (
            store-Inv (sender, transfer_id) index count chunk _ _
              (prepared-IsReady (sender, transfer_id) count now_ms a pos few v) in_range some_bytes)
    ]
