-- ===== src/Drawing/Board/Keys.antt =====
-- The key of a stroke names its author, so that erasing one author's strokes leaves all others.
use disquisition.Common.{
  ℕ, zero, suc, ◌+◌, ◌/◌, ◌%◌, ◌≡◌, inl, inr, refl, sym, ap, true, false, ◌||◌, List, [], ◌∷◌, ◌++◌,
  arith, Text, text_eq, nat_eq, ◌==◌, beq_sym, nat_beq, Bool-cases, length, map, if_case,
}
use disquisition.Common.Sets.{has}
use disquisition.Protocol.Number.{digits, nat_to_string}
use disquisition.Protocol.Records.{ScreenDraw}
use disquisition.Drawing.Board.{
  ScreenDrawing, key_of, stroke_of, screen_stroke_key, is_unwanted, add, kept, remove, drawn_by,
}

has-append : (c : ℕ) (s t : Text) → has c (s ++ t) ≡ (has c s || has c t)
unfolding has
has-append c [] t = refl
has-append c (d ∷ s) t = ground (arith, has-append c s t)

has-digits : (f n : ℕ) → has 58 (digits f n) ≡ false
unfolding digits has
has-digits zero n = refl
has-digits (suc f) n =
    ground (arith, has-digits f (n / 10), has-append 58 (digits f (n / 10)) ((b'0' + n % 10) ∷ []))

-- What stands before the last colon.
before_colon :
    (s t d e : Text) → has 58 d ≡ false → has 58 e ≡ false → s ++ (58 ∷ d) ≡ t ++ (58 ∷ e) → s ≡ t
unfolding has
before_colon [] [] d e hd he h = refl
before_colon [] (c ∷ t) d e hd he h = ground (arith, has-append 58 t (58 ∷ e))
before_colon (c ∷ s) [] d e hd he h = ground (arith, has-append 58 s (58 ∷ d))
before_colon (c ∷ s) (b ∷ t) d e hd he h = ground (arith, before_colon s t d e hd he)

key_of-injective : (a b : Text) (i j : ℕ) → key_of a i ≡ key_of b j → a ≡ b
key_of-injective a b i j =
    before_colon a b (nat_to_string i) (nat_to_string j)
      (unfold nat_to_string in has-digits (suc i) i) (unfold nat_to_string in has-digits (suc j) j)

map_author :
    (a b : Text) (i : ℕ) (ids : List ℕ) → has (key_of a i) (map (key_of b) ids) ≡ true → a ≡ b
unfolding has
map_author a b i [] h = cc
map_author a b i (j ∷ ids) h = elim (Bool-cases (key_of b j == key_of a i)) [
  | inl same ↦ sym (key_of-injective b a j i ((text_eq.beq_iff (key_of b j) (key_of a i)).0 same))
  | inr other ↦ map_author a b i ids (rw other at h)
]

drawn_by-kept :
    (a author : Text) (ids : List ℕ) (ss : List ScreenDraw)
    → (a == author) ≡ false
    → drawn_by a (kept (map (key_of author) ids) ss) ≡ drawn_by a ss
drawn_by-kept a author ids [] other = refl
drawn_by-kept a author ids (s ∷ ss) other =
    let rest = drawn_by-kept a author ids ss other in
    elim (Bool-cases (has (screen_stroke_key s) (map (key_of author) ids))) [
      | inr miss ↦ rw miss (elim (Bool-cases (s.author == a)) [
        | inl mine ↦ rw mine (ap (λ l. s ∷ l) rest)
        | inr not_mine ↦ rw not_mine rest
      ])
      | inl hit ↦
          let gone : s.author ≡ author = map_author s.author author (stroke_of s) ids hit in
          let not_mine : (s.author == a) ≡ false = rw (gone, beq_sym {A = Text} a author) other in
          rw (hit, not_mine) rest
    ]

-- Erasing strokes of one author leaves what the others have drawn.
pub drawn_by-remove :
    (a author : Text) (ids : List ℕ) (b : ScreenDrawing)
    → (a == author) ≡ false
    → drawn_by a (remove author ids b).segments ≡ drawn_by a b.segments
unfolding remove
drawn_by-remove a author ids b other =
    if_case (λ (t : ScreenDrawing). drawn_by a t.segments ≡ drawn_by a b.segments)
      (nat_beq (length (kept (map (key_of author) ids) b.segments)) (length b.segments)) (λ _. refl)
      (λ _. drawn_by-kept a author ids b.segments other)

drawn_by-snoc :
    (a : Text) (ss : List ScreenDraw) (d : ScreenDraw)
    → (a == d.author) ≡ false
    → drawn_by a (ss ++ (d ∷ [])) ≡ drawn_by a ss
drawn_by-snoc a [] d other = rw (beq_sym {A = Text} a d.author, other) refl
drawn_by-snoc a (s ∷ ss) d other = ground (arith, drawn_by-snoc a ss d other)

-- A segment is added to what its author has drawn, and to nothing else.
pub drawn_by-add :
    (a : Text) (now : ℕ) (d : ScreenDraw) (b : ScreenDrawing)
    → (a == d.author) ≡ false
    → drawn_by a (add now d b).segments ≡ drawn_by a b.segments
unfolding add
drawn_by-add a now d b other =
    let same = λ (t : ScreenDrawing). drawn_by a t.segments ≡ drawn_by a b.segments in
    let snoc = drawn_by-snoc a b.segments d other in
    if_case same (is_unwanted d b) (λ _. refl)
      (λ _.
        if_case same (has (key_of d.author d.id) b.received) (λ _. refl)
          (λ _. if_case same (nat_beq (length d.author) 0) (λ _. snoc) (λ _. snoc)))
