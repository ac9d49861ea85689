-- ===== src/Drawing/Board/Laws.antt =====
-- What every operation of the board keeps, and what erasing does.
use disquisition.Common.{
  ℕ, ◌≤◌, ◌≡◌, inl, inr, refl, ◌∙◌, Bool, true, false, ◌||◌, List, [], ◌∷◌, ◌++◌, arith, Text,
  text_eq, nat_eq, ◌==◌, beq_sym, nat_beq, Bool-cases, length, All, if_case, length-append,
}
use disquisition.Common.Int.{ℤ, int_eq}
use disquisition.Common.Sets.{has}
use disquisition.Protocol.Records.{ScreenDraw, max_draw_segments}
use disquisition.Drawing.Board.{
  ScreenDrawing, key_of, screen_stroke_key, set_state, seen_active, is_unwanted, add, set_banned,
}

abbrev pub keys_of : List ScreenDraw → List Text
keys_of [] = []
keys_of (s ∷ ss) = key_of s.author s.id ∷ keys_of ss

-- No two segments have the same author and number.
abbrev pub IsDistinct : List ScreenDraw → Type 0
IsDistinct [] = Unit
IsDistinct (s ∷ ss) = (has (key_of s.author s.id) (keys_of ss) ≡ false) × IsDistinct ss

-- The segments are of the board's epoch, all received and all different, and none is of an erased stroke; at most
-- 4096 have been received. A board that is disabled is empty.
pub record Ink (enabled : Bool) (epoch : ℤ) (segments : List ScreenDraw)
    (received removed : List Text) : Type 0 where
  pub epochs : All (λ s. s.epoch ≡ epoch) segments
  pub known : (k : Text) → has k (keys_of segments) ≡ true → has k received ≡ true
  pub distinct : IsDistinct segments
  pub present : All (λ s. has (screen_stroke_key s) removed ≡ false) segments
  pub few : length received ≤ max_draw_segments
  pub fits : length segments ≤ length received
  pub idle : enabled ≡ false → segments ≡ []

abbrev pub Inv : ScreenDrawing → Type 0
Inv b = Ink b.enabled b.epoch b.segments b.received b.removed

All-snoc {ℓ} :
    {A : Type ℓ} (P : A → Type 0) (xs : List A) (x : A) → All P xs → P x → All P (xs ++ (x ∷ []))
All-snoc P [] x h p = (p, tt)
All-snoc P (y ∷ xs) x (q, h) p = (q, All-snoc P xs x h p)

pub has-keys_of_snoc :
    (k : Text) (ss : List ScreenDraw) (s : ScreenDraw)
    → has k (keys_of (ss ++ (s ∷ []))) ≡ (has k (keys_of ss) || key_of s.author s.id == k)
unfolding has
has-keys_of_snoc k [] s = ground arith
has-keys_of_snoc k (t ∷ ss) s = ground (arith, has-keys_of_snoc k ss s)

IsDistinct-snoc :
    (ss : List ScreenDraw) (s : ScreenDraw)
    → IsDistinct ss
    → has (key_of s.author s.id) (keys_of ss) ≡ false
    → IsDistinct (ss ++ (s ∷ []))
unfolding has
IsDistinct-snoc [] s h new = (refl, tt)
IsDistinct-snoc (t ∷ ss) s (apart, h) new =
    let k = key_of s.author s.id in
    let j = key_of t.author t.id in
    (
      has-keys_of_snoc j ss s ∙ ground (arith, beq_sym {A = Text} k j),
      IsDistinct-snoc ss s h (ground arith),
    )

-- What a segment leaves when it is added.
added-Inv :
    (s : ScreenDraw) (b : ScreenDrawing)
    → is_unwanted s b ≡ false
    → has (key_of s.author s.id) b.received ≡ false
    → Inv b
    → Inv (record b {
      received = key_of s.author s.id ∷ b.received;
      segments = b.segments ++ (s ∷ []);
    })
unfolding has
added-Inv s b wanted new v =
    let k = key_of s.author s.id in
    let not_there : has k (keys_of b.segments) ≡ false =
      elim (Bool-cases (has k (keys_of b.segments))) [
        | inl there ↦ absurd (ground (arith, v.known k there))
        | inr not_there ↦ not_there
      ] in
    record {
      epochs =
          All-snoc (λ s. s.epoch ≡ b.epoch) b.segments s v.epochs
            (ground (arith, int_eq.beq_iff s.epoch b.epoch));
      known = λ j h. ground (arith, has-keys_of_snoc j b.segments s, v.known j);
      distinct = IsDistinct-snoc b.segments s v.distinct not_there;
      present =
          All-snoc (λ s. has (screen_stroke_key s) b.removed ≡ false) b.segments s v.present
            (ground arith);
      few = ground arith;
      fits = omega (arith, length-append b.segments (s ∷ []), v.fits);
      idle = λ off. ground (arith, off);
    }

seen_active-Inv : (now : ℕ) (s : ScreenDraw) (b : ScreenDrawing) → Inv b → Inv (seen_active now s b)
seen_active-Inv now s b v = if_case Inv (nat_beq (length s.author) 0) (λ _. v) (λ _. v)

-- A board of no segments.
pub empty-Ink : (enabled : Bool) (epoch : ℤ) → Ink enabled epoch [] [] []
unfolding has
empty-Ink enabled epoch = record {
  epochs = tt;
  known = λ k h. h;
  distinct = tt;
  present = tt;
  few = omega arith;
  fits = omega arith;
  idle = λ _. refl;
}

pub set_state-Inv :
    (enabled : Bool) (epoch : ℤ) (b : ScreenDrawing) → Inv (set_state enabled epoch b)
unfolding set_state
set_state-Inv enabled epoch b = empty-Ink enabled epoch

pub set_banned-Inv : (banned : Bool) (b : ScreenDrawing) → Inv b → Inv (set_banned banned b)
unfolding set_banned
set_banned-Inv true b v = if_case Inv b.banned (λ _. v) (λ _. v)
set_banned-Inv false b v = v

-- A segment keeps the invariant, wanted or not.
pub add-Inv : (now : ℕ) (s : ScreenDraw) (b : ScreenDrawing) → Inv b → Inv (add now s b)
unfolding add
add-Inv now s b v =
    if_case Inv (is_unwanted s b) (λ _. v)
      (λ wanted.
        if_case Inv (has (key_of s.author s.id) b.received) (λ _. v)
          (λ new. seen_active-Inv now s _ (added-Inv s b wanted new v)))
