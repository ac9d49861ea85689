-- ===== src/Images/Assembler/Ready.antt =====
-- A transfer that is begun, or found, is ready for its chunk.
use disquisition.Common.{
  ℕ, zero, suc, ◌+◌, ◌≤◌, ◌<◌, ◌≡◌, refl, sym, subst, false, none, some, List, [], ◌∷◌, arith, Text,
  text_eq, ◌==◌, length, length-append, get_or, set, replicate, length-replicate, beq_refl,
  Bool-cases, Option-cases, inl, inr, ap,
}
use disquisition.Common.Maps.{
  lookup, insert, insert-IsMap, Each-insert, lookup-insert_self, sum_of-insert_new,
}
use disquisition.Images.Split.{image_chunk_size, max_image_chunks, joined}
use disquisition.Images.Assembler.{
  Key, key_eq, Partial, Assembler, fresh, make_room, restart, begin, is_refused,
}
use disquisition.Images.Assembler.Drop.{
  Inv, IsPartial, filled, drop-Inv, make_room_keeps, count_of, is_of, lookup-drop,
}
use disquisition.Images.Assembler.Room.{count-make_room, make_room_absent}

-- A chunk put into an empty slot adds its bytes and fills the slot.
pub joined-set :
    (cs : List Text) (i : ℕ) (c : Text)
    → i < length cs
    → length (get_or cs i []) ≡ 0
    → length (joined (set cs i c)) ≡ length (joined cs) + length c
joined-set [] i c h e = elim h [ ]
joined-set (d ∷ cs) zero c h e =
    omega (arith, length-append c (joined cs), length-append d (joined cs))
joined-set (d ∷ cs) (suc i) c h e = omega (
  arith,
  length-append d (joined cs),
  length-append d (joined (set cs i c)),
  joined-set cs i c (omega arith) e,
)

pub filled-set :
    (cs : List Text) (i : ℕ) (c : Text)
    → i < length cs
    → length (get_or cs i []) ≡ 0
    → 0 < length c
    → filled (set cs i c) ≡ suc (filled cs)
filled-set [] i c h e k = elim h [ ]
filled-set ([] ∷ cs) zero [] h e k = elim k [ ]
filled-set ([] ∷ cs) zero (b ∷ c) h e k = refl
filled-set ((b ∷ d) ∷ cs) zero c h e k = absurd (omega arith)
filled-set ([] ∷ cs) (suc i) c h e k = filled-set cs i c (omega arith) e k
filled-set ((b ∷ d) ∷ cs) (suc i) c h e k = ap suc (filled-set cs i c (omega arith) e k)

joined-replicate : (n : ℕ) → joined (replicate n []) ≡ []
joined-replicate zero = refl
joined-replicate (suc n) = joined-replicate n

filled-replicate : (n : ℕ) → filled (replicate n []) ≡ 0
filled-replicate zero = refl
filled-replicate (suc n) = filled-replicate n

fresh-IsPartial :
    (count now_ms : ℕ) → 0 < count → count ≤ max_image_chunks → IsPartial (fresh count now_ms)
fresh-IsPartial count now_ms h k = record {
  bytes = sym (ap length (joined-replicate count));
  received = sym (filled-replicate count);
  unfinished = omega (arith, length-replicate {A = Text} count []);
  bounded = omega (arith, length-replicate {A = Text} count []);
}

-- The room that was made is taken by the new transfer.
count-insert :
    (sender : Text) (k : Key) (p : Partial) (a : Assembler)
    → Inv a
    → count_of k.0 a.transfers ≤ 1
    → lookup k a.transfers ≡ none
    → count_of sender (insert k p a.transfers) ≤ 2
count-insert sender k p a v room absent = elim (Bool-cases (k.0 == sender)) [
  | inl same ↦ ground (
    arith,
    same,
    sum_of-insert_new (is_of sender) k p a.transfers absent,
    subst (λ s. count_of s a.transfers ≤ 1) ((text_eq.beq_iff k.0 sender).0 same) room,
  )
  | inr other ↦
      ground (arith, other, sum_of-insert_new (is_of sender) k p a.transfers absent, v.few sender)
]

insert-fresh-Inv :
    (k : Key) (count now_ms : ℕ) (a : Assembler)
    → 0 < count
    → count ≤ max_image_chunks
    → Inv a
    → count_of k.0 a.transfers ≤ 1
    → lookup k a.transfers ≡ none
    → Inv (record a { transfers = insert k (fresh count now_ms) a.transfers })
insert-fresh-Inv k count now_ms a pos few v room absent = record {
  keys = insert-IsMap k _ a.transfers v.keys;
  each =
      Each-insert (λ k p. IsPartial p) k _ a.transfers v.each
        (fresh-IsPartial count now_ms pos few);
  total = omega (
    arith,
    v.total,
    sum_of-insert_new (λ k p. p.bytes) k (fresh count now_ms) a.transfers absent,
  );
  bounded = v.bounded;
  few = λ s. count-insert s k _ a v room absent;
}

-- A transfer that is ready for chunk after chunk of `count`.
pub record IsReady (k : Key) (count : ℕ) (a : Assembler) (p : Partial) : Type 0 where
  pub inv : Inv a
  pub present : lookup k a.transfers ≡ some p
  pub size : length p.chunks ≡ count

-- A transfer that is left has the count of chunks that was announced.
pub restart_fits :
    (k : Key) (count : ℕ) (a : Assembler) (p : Partial)
    → lookup k (restart k count a).transfers ≡ some p
    → length p.chunks ≡ count
unfolding restart
restart_fits k count a p h = ground (arith, lookup-drop k k a, beq_refl {A = Key} k)

pub begin-IsReady :
    (k : Key) (count now_ms : ℕ) (a : Assembler)
    → 0 < count
    → count ≤ max_image_chunks
    → Inv a
    → ((p : Partial) → lookup k a.transfers ≡ some p → length p.chunks ≡ count)
    → IsReady k count (begin k count now_ms a).0 (begin k count now_ms a).1
unfolding begin
begin-IsReady k count now_ms a pos few v fits = elim (Option-cases (lookup k a.transfers)) [
  | inl absent ↦ rw absent (record {
    inv =
        insert-fresh-Inv k count now_ms (make_room k.0 a) pos few
          (make_room_keeps Inv drop-Inv k.0 a v) (count-make_room k.0 a v)
          (make_room_absent k.0 a k absent);
    present = lookup-insert_self k _ _;
    size = length-replicate count [];
  })
  | inr (p, present) ↦ rw present (record { inv = v; present = present; size = fits p present })
]

-- What the guard lets through.
pub accepted :
    (index count : ℕ) (chunk : Text)
    → is_refused index count chunk ≡ false
    → (0 < count)
      × (count ≤ max_image_chunks)
      × (index < count)
      × (0 < length chunk)
      × (length chunk ≤ image_chunk_size)
      × ((index + 1 < count) → length chunk ≡ image_chunk_size)
unfolding is_refused
accepted index count chunk h = ground arith
