-- ===== src/Images/Assembler/Delivery.antt =====
-- Chunks that arrive one after the other make the image.
use disquisition.Common.{
  ℕ, suc, ◌+◌, ◌-◌, ◌≤◌, ◌<◌, ◌≡◌, refl, sym, ◌∙◌, ap, true, false, Option, none, some, List, [],
  ◌∷◌, ◌++◌, arith, Text, text_eq, beq_refl, ltb, nat_beq, length, length-append, length-replicate,
  replicate, set, get_or, append_assoc, append-nil,
}
use disquisition.Common.Maps.{lookup, insert}
use disquisition.Images.Split.{
  image_chunk_size, max_image_bytes, max_image_chunks, joined, split_image, joined-split_image,
  IsChunked, split_image-IsChunked, split_image-le,
}
use disquisition.Images.Assembler.{
  Key, key_eq, Partial, Assembler, empty, drop, drop_where, expire, mine, by_start, drop_oldest,
  make_room, restart, begin, store, is_refused, add, max_buffered_bytes, transfer_timeout_ms,
}
use disquisition.Images.Assembler.Invariant.{stored}
use disquisition.Images.Assembler.Arrivals.{Arrival, arrive, returned, images}

-- The chunks of one transfer, numbered from `i`, the chunk `i` at the time `at i`.
abbrev pub numbered : Key → ℕ → (ℕ → ℕ) → ℕ → List Text → List Arrival
numbered k count at i [] = []
numbered k count at i (c ∷ cs) =
    (record { key = k; index = i; count = count; chunk = c; now_ms = at i })
    ∷ numbered k count at (suc i) cs

abbrev holding_part : List Text → ℕ → ℕ → Partial
holding_part done left start = record {
  chunks = done ++ replicate left [];
  received = length done;
  bytes = length (joined done);
  started_ms = start;
}

-- An assembler that holds the first chunks of one transfer.
abbrev holding : Key → List Text → ℕ → ℕ → Assembler
holding k done left start = record {
  transfers = (k, holding_part done left start) ∷ [];
  buffered_bytes = length (joined done);
}

get_or-append : (xs ys : List Text) (y : Text) → get_or (xs ++ (y ∷ ys)) (length xs) [] ≡ y
get_or-append [] ys y = refl
get_or-append (x ∷ xs) ys y = get_or-append xs ys y

set-append :
    (xs ys : List Text) (y z : Text) → set (xs ++ (y ∷ ys)) (length xs) z ≡ (xs ++ (z ∷ [])) ++ ys
set-append [] ys y z = refl
set-append (x ∷ xs) ys y z = ap (λ l. x ∷ l) (set-append xs ys y z)

joined-append : (xs ys : List Text) → joined (xs ++ ys) ≡ joined xs ++ joined ys
joined-append [] ys = refl
joined-append (x ∷ xs) ys =
    ap (λ l. x ++ l) (joined-append xs ys) ∙ sym (append_assoc x (joined xs) (joined ys))

length_chunks :
    (done : List Text) (left : ℕ) → length (done ++ replicate left []) ≡ length done + left
length_chunks done left =
    length-append done (replicate left [])
    ∙ ap (λ n. length done + n) (length-replicate {A = Text} left [])

grown :
    (done : List Text) (c : Text)
    → length (joined (done ++ (c ∷ []))) ≡ length (joined done) + length c
grown done c = omega (
  arith,
  ap length (joined-append done (c ∷ [])),
  length-append (joined done) (c ++ []),
  length-append c [],
)

images_step :
    (k : Key) (c : Arrival) (cs : List Arrival) (a b : Assembler) (o : Option Text)
    → arrive c a ≡ (b, o)
    → images k (c ∷ cs) a ≡ returned k c.key o (images k cs b)
unfolding images
images_step k c cs a b o e =
    ap (λ (r : Assembler × Option Text). returned k c.key r.1 (images k cs r.0)) e

unrefused :
    (index count : ℕ) (c : Text)
    → index < count
    → count ≤ max_image_chunks
    → 1 ≤ length c
    → length c ≤ image_chunk_size
    → (index + 1 < count → length c ≡ image_chunk_size)
    → is_refused index count c ≡ false
unfolding is_refused
unrefused index count c h few some_bytes small full = ground arith

chunk_size :
    (c : Text) (rest : List Text)
    → IsChunked (c ∷ rest)
    → (1 ≤ length c)
      × (length c ≤ image_chunk_size)
      × (0 < length rest → length c ≡ image_chunk_size)
chunk_size c [] (low, high) = (low, high, λ h. absurd (omega arith))
chunk_size c (d ∷ rest) (full, _) = (omega (arith, full), omega (arith, full), λ _. full)

module _ (k : Key) where
  -- What the chunk meets: no transfer is dropped, and the transfer is the one held.
  add-holding :
      (done : List Text) (left start now index count : ℕ) (c : Text)
      → now ≤ start + transfer_timeout_ms
      → length done + left ≡ count
      → is_refused index count c ≡ false
      → add k.0 k.1 index count c now (holding k done left start)
        ≡ store k index count c (holding k done left start) (holding_part done left start)
  unfolding add expire drop_where restart begin lookup
  add-holding done left start now index count c h n fine =
      let in_time : ltb transfer_timeout_ms (now - start) ≡ false = ground arith in
      let same_count : nat_beq (length (done ++ replicate left [])) count ≡ true =
        ground (arith, length_chunks done left) in
      rw (fine, in_time, beq_refl {A = Key} k, same_count, beq_refl {A = Key} k) refl

  -- The first chunk begins the transfer.
  add-empty :
      (now index count : ℕ) (c : Text)
      → is_refused index count c ≡ false
      → add k.0 k.1 index count c now empty
        ≡ store k index count c (holding k [] count now) (holding_part [] count now)
  unfolding add expire drop_where restart begin lookup make_room mine by_start drop_oldest insert
  add-empty now index count c fine = rw fine refl

  -- A stored chunk, with others to come.
  store_more :
      (done : List Text) (left start count : ℕ) (c : Text)
      → length (joined done) + length c ≤ max_buffered_bytes
      → length done + 1 < count
      → store k
          (length done)
          count
          c
          (holding k done (suc left) start)
          (holding_part done (suc left) start)
        ≡ (holding k (done ++ (c ∷ [])) left start, none)
  unfolding store insert
  store_more done left start count c room more =
      let within : ltb max_buffered_bytes (length (joined done) + length c) ≡ false =
        ground arith in
      let next : ltb (length done + 1) count ≡ true = ground arith in
      rw
        (
          get_or-append done (replicate left []) [],
          within,
          next,
          beq_refl {A = Key} k,
          set-append done (replicate left []) [] c,
          length-append done (c ∷ []),
          grown done c,
        )
        refl

  -- The last one.
  store_last :
      (done : List Text) (start count : ℕ) (c : Text)
      → length (joined done) + length c ≤ max_buffered_bytes
      → count ≤ length done + 1
      → (a : Assembler) × (store k
            (length done)
            count
            c
            (holding k done 1 start)
            (holding_part done 1 start)
          ≡ (a, some (joined (done ++ (c ∷ [])))))
  unfolding store
  store_last done start count c room last =
      let within : ltb max_buffered_bytes (length (joined done) + length c) ≡ false =
        ground arith in
      let done_now : ltb (length done + 1) count ≡ false = ground arith in
      let full : set (done ++ ([] ∷ [])) (length done) c ≡ done ++ (c ∷ []) =
        set-append done [] [] c ∙ append-nil (done ++ (c ∷ [])) in
      (
        drop k (stored k (length done) c (holding k done 1 start) (holding_part done 1 start)),
        rw (get_or-append done [] [], within, done_now)
            (ap {A = List Text}
              (λ cs. (
                drop k
                    (stored k (length done) c (holding k done 1 start) (holding_part done 1 start)),
                some (joined cs),
              ))
              full),
      )

  module _ (at : ℕ → ℕ) (count : ℕ) (start : ℕ) where
    -- The chunks that are left complete the image.
    deliver_rest :
        (rest done : List Text) (c : Text)
        → IsChunked (c ∷ rest)
        → length done + suc (length rest) ≡ count
        → count ≤ max_image_chunks
        → length (joined done) + length (joined (c ∷ rest)) ≤ max_buffered_bytes
        → ((i : ℕ) → at i ≤ start + transfer_timeout_ms)
        → images k
            (numbered k count at (length done) (c ∷ rest))
            (holding k done (suc (length rest)) start)
          ≡ joined (done ++ (c ∷ rest)) ∷ []
    deliver_rest [] done c sizes n few room times =
        let fine =
          unrefused (length done) count c (omega arith) few sizes.0 sizes.1
            (λ h. absurd (omega arith)) in
        let (a, e) =
          store_last done start count c (omega (arith, length-append c [])) (omega arith) in
        images_step k _ [] _ a _ (add-holding done 1 start _ _ count c (times _) n fine ∙ e)
        ∙ rw (beq_refl {A = Key} k)
            (ap (λ l. joined (done ++ (c ∷ [])) ∷ l) (unfold images in refl))
    deliver_rest (d ∷ rest) done c (full, sizes) n few room times =
        let fine =
          unrefused (length done) count c (omega arith) few (omega (arith, full))
            (omega (arith, full)) (λ h. full) in
        let later =
          deliver_rest rest (done ++ (c ∷ [])) d sizes (omega (arith, length-append done (c ∷ [])))
            few (omega (arith, grown done c, length-append c (joined (d ∷ rest)))) times in
        images_step k _ _ _ _ _ (
          add-holding done (suc (suc (length rest))) start _ _ count c (times _) n fine
          ∙ store_more done (suc (length rest)) start count c
              (omega (arith, length-append c (joined (d ∷ rest)))) (omega arith))
        ∙ (ap
              (λ i.
                images k (numbered k count at i (d ∷ rest))
                  (holding k (done ++ (c ∷ [])) (suc (length rest)) start))
              (sym (length-append done (c ∷ []) ∙ omega arith))
            ∙ (later ∙ ap (λ l. joined l ∷ []) (append_assoc done (c ∷ []) (d ∷ rest))))

  -- From the first chunk on.
  deliver_all :
      (at : ℕ → ℕ) (c : Text) (rest : List Text)
      → IsChunked (c ∷ rest)
      → suc (length rest) ≤ max_image_chunks
      → length (joined (c ∷ rest)) ≤ max_buffered_bytes
      → ((i : ℕ) → at i ≤ at 0 + transfer_timeout_ms)
      → images k (numbered k (suc (length rest)) at 0 (c ∷ rest)) empty ≡ joined (c ∷ rest) ∷ []
  unfolding images
  deliver_all at c rest sizes few room times =
      let n = suc (length rest) in
      let size = chunk_size c rest sizes in
      let fine = unrefused 0 n c (omega arith) few size.0 size.1 (λ h. size.2 (omega arith)) in
      images_step k _ _ _ _ _ (
        add-empty (at 0) 0 n c fine
        ∙ sym (add-holding [] n (at 0) (at 0) 0 n c (times 0) (omega arith) fine))
      ∙ deliver_rest at n (at 0) rest [] c sizes (omega arith) few (omega arith) times

deliver_some :
    (k : Key) (at : ℕ → ℕ) (bytes : Text) (cs : List Text)
    → 0 < length bytes
    → joined cs ≡ bytes
    → IsChunked cs
    → length cs ≤ max_image_chunks
    → length bytes ≤ max_image_bytes
    → ((i : ℕ) → at i ≤ at 0 + transfer_timeout_ms)
    → images k (numbered k (length cs) at 0 cs) empty ≡ bytes ∷ []
deliver_some k at bytes [] h e sizes few room times = absurd (omega (arith, ap length e))
deliver_some k at bytes (c ∷ rest) h e sizes few room times =
    deliver_all k at c rest sizes few (omega (arith, ap length e)) times ∙ ap (λ b. b ∷ []) e

-- To an assembler that holds nothing, and where nothing else arrives among them, the chunks of an image that is not
-- empty and within the limit, arriving in order, none of them more than two minutes after the first, give the image,
-- once.
pub images-numbered :
    (k : Key) (bytes : Text) (at : ℕ → ℕ)
    → 0 < length bytes
    → length bytes ≤ max_image_bytes
    → ((i : ℕ) → at i ≤ at 0 + transfer_timeout_ms)
    → images k (numbered k (length (split_image bytes)) at 0 (split_image bytes)) empty ≡ bytes ∷ []
images-numbered k bytes at h room times =
    deliver_some k at bytes (split_image bytes) h (joined-split_image bytes)
      (split_image-IsChunked bytes) (split_image-le bytes room) room times
