-- ===== src/Drawing/Board/Erasing.antt =====
-- Erasing: what it takes away stays away, and only its author's strokes go.
use disquisition.Common.{
  ℕ, ◌≤◌, ◌≡◌, inl, inr, refl, sym, ◌∙◌, subst, true, false, List, [], ◌∷◌, arith, Text, text_eq,
  nat_eq, ◌==◌, nat_beq, Bool-cases, length, All, map, if_case,
}
use disquisition.Common.Int.{int_eq}
use disquisition.Common.Sets.{has, include, has-include}
use disquisition.Protocol.Records.{ScreenDraw}
use disquisition.Drawing.Board.{
  ScreenDrawing, key_of, screen_stroke_key, is_unwanted, add, kept, note_removed, remove,
}
use disquisition.Drawing.Board.Laws.{Inv, keys_of, IsDistinct, add-Inv}

kept_known :
    (keys : List Text) (k : Text) (ss : List ScreenDraw)
    → has k (keys_of (kept keys ss)) ≡ true
    → has k (keys_of ss) ≡ true
unfolding has
kept_known keys k [] h = h
kept_known keys k (s ∷ ss) h = ground (arith, kept_known keys k ss)

kept_unknown :
    (keys : List Text) (k : Text) (ss : List ScreenDraw)
    → has k (keys_of ss) ≡ false
    → has k (keys_of (kept keys ss)) ≡ false
kept_unknown keys k ss h = elim (Bool-cases (has k (keys_of (kept keys ss)))) [
  | inl there ↦ absurd (ground (arith, kept_known keys k ss there))
  | inr gone ↦ gone
]

kept-IsDistinct :
    (keys : List Text) (ss : List ScreenDraw) → IsDistinct ss → IsDistinct (kept keys ss)
kept-IsDistinct keys [] h = tt
kept-IsDistinct keys (s ∷ ss) (apart, h) =
    if_case IsDistinct (has (screen_stroke_key s) keys) (λ _. kept-IsDistinct keys ss h)
      (λ _. (kept_unknown keys _ ss apart, kept-IsDistinct keys ss h))

All-kept :
    (P : ScreenDraw → Type 0) (keys : List Text) (ss : List ScreenDraw)
    → All P ss
    → All P (kept keys ss)
All-kept P keys [] h = tt
All-kept P keys (s ∷ ss) (p, h) =
    if_case (All P) (has (screen_stroke_key s) keys) (λ _. All-kept P keys ss h)
      (λ _. (p, All-kept P keys ss h))

length-kept_le : (keys : List Text) (ss : List ScreenDraw) → length (kept keys ss) ≤ length ss
length-kept_le keys [] = omega arith
length-kept_le keys (s ∷ ss) = ground (arith, length-kept_le keys ss)

-- Nothing was hit when nothing is gone.
kept_all :
    (keys : List Text) (ss : List ScreenDraw)
    → length (kept keys ss) ≡ length ss
    → kept keys ss ≡ ss
kept_all keys [] h = refl
kept_all keys (s ∷ ss) h = ground (arith, length-kept_le keys ss, kept_all keys ss)

-- Only keys among those that are removed are noted.
note_removed_other :
    (keys : List Text) (k : Text) (ss : List ScreenDraw) (removed : List Text)
    → has k keys ≡ false
    → has k (note_removed keys ss removed) ≡ has k removed
note_removed_other keys k [] removed h = refl
note_removed_other keys k (s ∷ ss) removed h = elim (Bool-cases (has (screen_stroke_key s) keys)) [
  | inr miss ↦ rw miss (note_removed_other keys k ss removed h)
  | inl hit ↦ rw hit (
      note_removed_other keys k ss (include (screen_stroke_key s) removed) h
      ∙ ground (
        arith,
        has-include (screen_stroke_key s) k removed,
        text_eq.beq_iff (screen_stroke_key s) k,
      ))
]

note_removed_keeps :
    (keys : List Text) (k : Text) (ss : List ScreenDraw) (removed : List Text)
    → has k removed ≡ true
    → has k (note_removed keys ss removed) ≡ true
note_removed_keeps keys k [] removed h = h
note_removed_keeps keys k (s ∷ ss) removed h = note_removed_keeps keys k ss _ (
    if_case (λ r. has k r ≡ true) (has (screen_stroke_key s) keys)
      (λ _. ground (arith, has-include (screen_stroke_key s) k removed)) (λ _. h))

-- What is kept is of no noted stroke.
kept_present :
    (keys : List Text) (all : List ScreenDraw) (removed : List Text) (ss : List ScreenDraw)
    → All (λ s. has (screen_stroke_key s) removed ≡ false) ss
    → All (λ s. has (screen_stroke_key s) (note_removed keys all removed) ≡ false) (kept keys ss)
kept_present keys all removed [] h = tt
kept_present keys all removed (s ∷ ss) (p, h) =
    if_case (All (λ s. has (screen_stroke_key s) (note_removed keys all removed) ≡ false))
      (has (screen_stroke_key s) keys) (λ _. kept_present keys all removed ss h)
      (λ miss. (
        note_removed_other keys (screen_stroke_key s) all removed miss ∙ p,
        kept_present keys all removed ss h,
      ))

pub remove-Inv :
    (author : Text) (strokes : List ℕ) (b : ScreenDrawing) → Inv b → Inv (remove author strokes b)
unfolding remove
remove-Inv author strokes b v =
    let keys = map (key_of author) strokes in
    if_case Inv (nat_beq (length (kept keys b.segments)) (length b.segments)) (λ _. v)
      (λ _. record {
        epochs = All-kept (λ s. s.epoch ≡ b.epoch) keys b.segments v.epochs;
        known = λ k h. v.known k (kept_known keys k b.segments h);
        distinct = kept-IsDistinct keys b.segments v.distinct;
        present = kept_present keys b.segments b.removed b.segments v.present;
        few = v.few;
        fits = omega (arith, length-kept_le keys b.segments, v.fits);
        idle = λ off. subst (λ l. kept keys l ≡ []) (sym (v.idle off)) refl;
      })

-- Later changes of a board: segments that are added, and strokes that are erased.
pub data Change : Type 0 where
  adds : ℕ → ScreenDraw → Change
  removes : Text → List ℕ → Change

unfoldable pub change_all : List Change → ScreenDrawing → ScreenDrawing
change_all [] b = b
change_all (adds now s ∷ cs) b = change_all cs (add now s b)
change_all (removes author strokes ∷ cs) b = change_all cs (remove author strokes b)

abbrev pub strokes_on : ScreenDrawing → List Text
strokes_on b = map screen_stroke_key b.segments

-- What a removal hits is noted.
note_removed_hit :
    (keys : List Text) (k : Text) (ss : List ScreenDraw) (removed : List Text)
    → has k keys ≡ true
    → has k (map screen_stroke_key ss) ≡ true
    → has k (note_removed keys ss removed) ≡ true
unfolding has
note_removed_hit keys k [] removed wanted there = cc
note_removed_hit keys k (s ∷ ss) removed wanted there =
    elim (Bool-cases (screen_stroke_key s == k)) [
      | inr other ↦ note_removed_hit keys k ss _ wanted (rw other at there)
      | inl same ↦
          let e = (text_eq.beq_iff (screen_stroke_key s) k).0 same in
          let hit : has (screen_stroke_key s) keys ≡ true =
            subst (λ j. has j keys ≡ true) (sym e) wanted in
          note_removed_keeps keys k ss _
            (rw hit (has-include (screen_stroke_key s) k removed ∙ ground (arith, same)))
    ]

add-removed : (now : ℕ) (s : ScreenDraw) (b : ScreenDrawing) → (add now s b).removed ≡ b.removed
unfolding add
add-removed now s b =
    let same = λ (t : ScreenDrawing). t.removed ≡ b.removed in
    if_case same (is_unwanted s b) (λ _. refl)
      (λ _.
        if_case same (has (key_of s.author s.id) b.received) (λ _. refl)
          (λ _. if_case same (nat_beq (length s.author) 0) (λ _. refl) (λ _. refl)))

remove_keeps :
    (k author : Text) (strokes : List ℕ) (b : ScreenDrawing)
    → has k b.removed ≡ true
    → has k (remove author strokes b).removed ≡ true
unfolding remove
remove_keeps k author strokes b h =
    let keys = map (key_of author) strokes in
    if_case (λ (t : ScreenDrawing). has k t.removed ≡ true)
      (nat_beq (length (kept keys b.segments)) (length b.segments)) (λ _. h)
      (λ _. note_removed_keeps keys k b.segments b.removed h)

-- No segment is of a noted stroke.
absent :
    (k : Text) (removed : List Text) (ss : List ScreenDraw)
    → has k removed ≡ true
    → All (λ s. has (screen_stroke_key s) removed ≡ false) ss
    → has k (map screen_stroke_key ss) ≡ false
unfolding has
absent k removed [] h ps = refl
absent k removed (s ∷ ss) h (p, ps) = elim (Bool-cases (screen_stroke_key s == k)) [
  | inr other ↦ rw other (absent k removed ss h ps)
  | inl same ↦
      let e = (text_eq.beq_iff (screen_stroke_key s) k).0 same in
      absurd (ground (arith, h, subst (λ j. has j removed ≡ false) e p))
]

kept_missed :
    (keys : List Text) (ss : List ScreenDraw)
    → All (λ s. has (screen_stroke_key s) keys ≡ false) (kept keys ss)
kept_missed keys [] = tt
kept_missed keys (s ∷ ss) =
    if_case (All (λ t. has (screen_stroke_key t) keys ≡ false)) (has (screen_stroke_key s) keys)
      (λ _. kept_missed keys ss) (λ miss. (miss, kept_missed keys ss))

-- A removal that hits a stroke notes it.
noted :
    (k author : Text) (strokes : List ℕ) (b : ScreenDrawing)
    → has k (map (key_of author) strokes) ≡ true
    → has k (strokes_on b) ≡ true
    → has k (remove author strokes b).removed ≡ true
unfolding remove
noted k author strokes b wanted there =
    let keys = map (key_of author) strokes in
    let hit = note_removed_hit keys k b.segments b.removed wanted there in
    if_case (λ (t : ScreenDrawing). has k t.removed ≡ true)
      (nat_beq (length (kept keys b.segments)) (length b.segments))
      (λ none_hit.
        let all_kept = kept_all keys b.segments (ground arith) in
        let missed =
          subst (All (λ t. has (screen_stroke_key t) keys ≡ false)) all_kept
            (kept_missed keys b.segments) in
        absurd (ground (arith, there, absent k keys b.segments wanted missed)))
      (λ _. hit)

stays_gone :
    (k : Text) (cs : List Change) (b : ScreenDrawing)
    → Inv b
    → has k b.removed ≡ true
    → has k (strokes_on (change_all cs b)) ≡ false
unfolding change_all
stays_gone k [] b v h = absent k b.removed b.segments h v.present
stays_gone k (adds now s ∷ cs) b v h =
    stays_gone k cs (add now s b) (add-Inv now s b v) (rw (add-removed now s b) h)
stays_gone k (removes author strokes ∷ cs) b v h =
    stays_gone k cs (remove author strokes b) (remove-Inv author strokes b v)
      (remove_keeps k author strokes b h)

-- On a board that holds its invariant, a stroke that is on the board when it is erased is gone, and no segment that comes
-- later, late or repeated, in whatever order with other erasures, brings any of it back.
pub change_all-remove :
    (k author : Text) (strokes : List ℕ) (cs : List Change) (b : ScreenDrawing)
    → Inv b
    → has k (map (key_of author) strokes) ≡ true
    → has k (strokes_on b) ≡ true
    → has k (strokes_on (change_all cs (remove author strokes b))) ≡ false
change_all-remove k author strokes cs b v wanted there =
    stays_gone k cs (remove author strokes b) (remove-Inv author strokes b v)
      (noted k author strokes b wanted there)
