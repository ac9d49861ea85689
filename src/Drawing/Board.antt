-- ===== src/Drawing/Board.antt =====
-- `ScreenDrawing`. The signals `changed` and `updated`, which only repaint, the box of a selection, the names of authors
-- and whether the overlay is available are left out; the other signals are results. Times are what the activity clock
-- reads, and a color is its RGB value.
pub mod Colors
pub mod Lasers
pub mod Laws
pub mod Erasing
pub mod Keys
use disquisition.Common.{
  ℕ, zero, suc, ◌+◌, ◌-◌, ◌*◌, ◌/◌, ◌%◌, ◌^◌, ◌≤◌, ◌<◌, min, max, ◌≡◌, ◌≢◌, ◌↔◌, ◌⊎◌, inl, inr,
  refl, sym, ◌∙◌, ap, ap₂, subst, Bool, true, false, not, ◌&&◌, ◌||◌, Option, none, some, List, [],
  ◌∷◌, ◌++◌, arith, Text, text_eq, nat_eq, text_beq, codes, Eq, ◌==◌, beq_refl, beq_sym, ltb, leb,
  nat_beq, if◌then◌else◌, Bool-cases, Option-cases, ◌>>=◌, ◌>>◌, guard, &&_true, length, take, drop,
  map,
}
use mathlib.Core.Option.{some-injective, none-ne-some}
use disquisition.Common.Int.{ℤ, pos, negsuc, ltb_ℤ, int_eq}
use disquisition.Common.Maps.{lookup, insert, erase}
use disquisition.Common.Sets.{has, include, exclude}
use disquisition.Protocol.Number.{nat_to_string}
use disquisition.Protocol.Records.{ScreenDraw, ScreenLaser, max_draw_segments, pen_color_count}

pub data Tool : Type 0 where
  no_tool pen laser eraser selector : Tool

pub record ActiveAuthor : Type 0 where
  pub segment : ScreenDraw
  pub seen : ℕ

pub record LaserSample : Type 0 where
  pub x : ℤ
  pub y : ℤ
  pub seen : ℕ
  pub start : Bool

pub record LaserPointer : Type 0 where
  pub point : ScreenLaser
  pub trail : List LaserSample
  pub seen : ℕ

pub record ScreenDrawing : Type 0 where
  pub enabled : Bool
  pub banned : Bool
  pub tool : Tool
  pub local_name : Text
  pub owner : Bool
  pub chat_color : ℕ
  pub custom_color : Option ℕ
  pub removed : List Text
  pub selected : List Text
  pub active_authors : List (Text × ActiveAuthor)
  pub activity_timer : Bool
  pub lasers : List (Text × LaserPointer)
  pub laser_ids : List (Text × ℕ)
  pub laser_timer : Bool
  pub status : Text
  pub color : ℤ
  pub epoch : ℤ
  pub segments : List ScreenDraw
  pub received : List Text
  pub next_segment_id : ℕ

abbrev pub new_drawing : ScreenDrawing
new_drawing = record {
  enabled = false;
  banned = false;
  tool = no_tool;
  local_name = [];
  owner = false;
  chat_color = 0x87ffaf;
  custom_color = none;
  removed = [];
  selected = [];
  active_authors = [];
  activity_timer = false;
  lasers = [];
  laser_ids = [];
  laser_timer = false;
  status = [];
  color = negsuc 0;
  epoch = pos 0;
  segments = [];
  received = [];
  next_segment_id = 0;
}

-- `author:id`
abbrev pub key_of : Text → ℕ → Text
key_of author id = author ++ (58 ∷ nat_to_string id)

-- The stroke that a segment belongs to; 0 stands for none, and then the segment is its own.
abbrev pub stroke_of : ScreenDraw → ℕ
stroke_of s = if nat_beq s.stroke 0 then s.id else s.stroke

abbrev pub screen_stroke_key : ScreenDraw → Text
screen_stroke_key s = key_of s.author (stroke_of s)

abbrev pub drawing_allowed : ScreenDrawing → Bool
drawing_allowed b = b.enabled && not b.banned

abbrev pub set_identity : Text → Bool → ScreenDrawing → ScreenDrawing
set_identity name owner b = record b { local_name = name; owner = owner }

abbrev pub drawn_by : Text → List ScreenDraw → List ScreenDraw
drawn_by author [] = []
drawn_by author (s ∷ ss) = if s.author == author then s ∷ drawn_by author ss else drawn_by author ss

unfoldable pub can_undo : ScreenDrawing → Bool
can_undo b =
    drawing_allowed b
    && (not (nat_beq (length b.local_name) 0)
        && not (nat_beq (length (drawn_by b.local_name b.segments)) 0))

abbrev pub last_of : List ScreenDraw → Option ScreenDraw
last_of [] = none
last_of (s ∷ []) = some s
last_of (s ∷ t ∷ ss) = last_of (t ∷ ss)

-- What `undo` asks to be erased.
unfoldable pub undo : ScreenDrawing → Option (Text × List ℕ)
undo b =
    if can_undo b
    then (last_of (drawn_by b.local_name b.segments) >>= λ s. some (b.local_name, stroke_of s ∷ []))
    else none

unfoldable pub set_state : Bool → ℤ → ScreenDrawing → ScreenDrawing
set_state enabled epoch b = record b {
  enabled = enabled;
  epoch = epoch;
  segments = [];
  received = [];
  removed = [];
  selected = [];
  active_authors = [];
  activity_timer = false;
  lasers = [];
  laser_ids = [];
  laser_timer = false;
  tool = if enabled then b.tool else no_tool;
}

abbrev pub seen_active : ℕ → ScreenDraw → ScreenDrawing → ScreenDrawing
seen_active now s b = if nat_beq (length s.author) 0 then b else record b {
  active_authors = insert s.author (record { segment = s; seen = now }) b.active_authors;
  activity_timer = true;
}

abbrev pub is_unwanted : ScreenDraw → ScreenDrawing → Bool
is_unwanted s b =
    not b.enabled
    || (not (s.epoch == b.epoch)
        || (leb max_draw_segments (length b.received) || has (screen_stroke_key s) b.removed))

unfoldable pub add : ℕ → ScreenDraw → ScreenDrawing → ScreenDrawing
add now s b =
    let key = key_of s.author s.id in
    let added = record b { received = key ∷ b.received; segments = b.segments ++ (s ∷ []) } in
    if is_unwanted s b then b else if has key b.received then b else seen_active now s added

abbrev pub can_erase : ScreenDrawing → ScreenDraw → Bool
can_erase b s = not b.banned && (b.owner || s.author == b.local_name)

-- The strokes of an author, as a set.
unfoldable pub strokes_of : List ScreenDraw → List ℕ
strokes_of [] = []
strokes_of (s ∷ ss) = include (stroke_of s) (strokes_of ss)

unfoldable pub stroke_ids : Text → ScreenDrawing → List ℕ
stroke_ids author b = strokes_of (drawn_by author b.segments)

abbrev pub kept : List Text → List ScreenDraw → List ScreenDraw
kept keys [] = []
kept keys (s ∷ ss) = if has (screen_stroke_key s) keys then kept keys ss else s ∷ kept keys ss

-- The keys of what a removal hits go to one set and out of another.
abbrev pub note_removed : List Text → List ScreenDraw → List Text → List Text
note_removed keys [] removed = removed
note_removed keys (s ∷ ss) removed =
    note_removed keys ss
      (if has (screen_stroke_key s) keys then include (screen_stroke_key s) removed else removed)

abbrev pub unselect : List Text → List ScreenDraw → List Text → List Text
unselect keys [] selected = selected
unselect keys (s ∷ ss) selected =
    unselect keys ss
      (if has (screen_stroke_key s) keys then exclude (screen_stroke_key s) selected else selected)

abbrev pub forget_active :
    Text → List Text → Option ActiveAuthor → List (Text × ActiveAuthor) → List (Text × ActiveAuthor)
forget_active author keys none m = m
forget_active author keys (some a) m =
    if has (screen_stroke_key a.segment) keys then erase author m else m

unfoldable pub remove : Text → List ℕ → ScreenDrawing → ScreenDrawing
remove author strokes b =
    let keys = map (key_of author) strokes in
    let left = kept keys b.segments in
    if nat_beq (length left) (length b.segments) then b else record b {
      segments = left;
      removed = note_removed keys b.segments b.removed;
      selected = unselect keys b.segments b.selected;
      active_authors = forget_active author keys (lookup author b.active_authors) b.active_authors;
    }

-- The wanted strokes of each author.
abbrev pub add_stroke : Text → ℕ → Option (List ℕ) → List (Text × List ℕ) → List (Text × List ℕ)
add_stroke author id none m = insert author (id ∷ []) m
add_stroke author id (some ids) m = insert author (include id ids) m

abbrev pub by_author :
    ScreenDrawing → List Text → List ScreenDraw → List (Text × List ℕ) → List (Text × List ℕ)
by_author b strokes [] m = m
by_author b strokes (s ∷ ss) m = by_author b strokes ss (
    if can_erase b s && has (screen_stroke_key s) strokes
    then add_stroke s.author (stroke_of s) (lookup s.author m) m
    else m)

-- The requests that are made, one for each author.
unfoldable pub request_erase : List Text → ScreenDrawing → List (Text × List ℕ)
request_erase strokes b = by_author b strokes b.segments []

unfoldable pub select : List Text → ScreenDrawing → ScreenDrawing
select strokes b = record b { selected = if b.owner then strokes else [] }

unfoldable pub delete_selection : ScreenDrawing → List (Text × List ℕ)
delete_selection b = if b.owner && drawing_allowed b then request_erase b.selected b else []

unfoldable pub set_banned : Bool → ScreenDrawing → ScreenDrawing
set_banned true b =
    if b.banned then b else record b { banned = true; tool = no_tool; selected = [] }
set_banned false b = record b { banned = false }

abbrev pub set_status : Text → ScreenDrawing → ScreenDrawing
set_status status b = record b { status = status }

-- `++nextSegmentId_`, on 32 bits.
unfoldable pub bump_segment_id : ScreenDrawing → ScreenDrawing
bump_segment_id b = record b { next_segment_id = (b.next_segment_id + 1) % 2 ^ 32 }
