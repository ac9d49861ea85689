-- ===== src/Drawing/Board/Lasers.antt =====
-- Laser pointers, the tools, and the timers of the board.
use disquisition.Common.{
  ℕ, ◌-◌, Bool, true, false, not, ◌&&◌, ◌||◌, Option, none, some, List, [], ◌∷◌, ◌++◌, Text,
  text_eq, nat_eq, ◌==◌, ltb, leb, nat_beq, if◌then◌else◌, length, drop,
}
use disquisition.Common.Int.{pos, int_eq}
use disquisition.Common.Maps.{lookup, insert}
use disquisition.Protocol.Records.{ScreenDraw, ScreenLaser}
use disquisition.Drawing.Board.{
  Tool, no_tool, laser, selector, ActiveAuthor, LaserSample, LaserPointer, ScreenDrawing,
  drawing_allowed, bump_segment_id,
}

abbrev pub laser_trail_ms : ℕ
laser_trail_ms = 700

abbrev pub laser_timeout_ms : ℕ
laser_timeout_ms = 1500

abbrev pub max_trail : ℕ
max_trail = 64

abbrev pub no_point : ScreenLaser
no_point = record {
  sharer = [];
  author = [];
  epoch = pos 0;
  id = 0;
  x = pos 0;
  y = pos 0;
  rgb = pos 0;
  visible = true;
}

abbrev pub or_default {ℓ} : {A : Type ℓ} → A → Option A → A
or_default d none = d
or_default d (some a) = a

abbrev pub new_pointer : LaserPointer
new_pointer = record { point = no_point; trail = []; seen = 0 }

abbrev pub stays_at : ScreenLaser → Option LaserSample → Bool
stays_at p none = false
stays_at p (some s) = s.x == p.x && s.y == p.y

abbrev pub last_sample : List LaserSample → Option LaserSample
last_sample [] = none
last_sample (s ∷ []) = some s
last_sample (s ∷ t ∷ ss) = last_sample (t ∷ ss)

-- A trail holds 64 samples at most.
abbrev pub bounded_trail : List LaserSample → List LaserSample
bounded_trail t = if ltb max_trail (length t) then drop 1 t else t

unfoldable pub point_to : ℕ → ScreenLaser → LaserPointer → LaserPointer
point_to now p l =
    let start = not l.point.visible || leb laser_trail_ms (now - l.seen) in
    let sample : LaserSample = record { x = p.x; y = p.y; seen = now; start = start } in
    let moved = p.visible && (not (stays_at p (last_sample l.trail)) || not l.point.visible) in
    record {
      point = p;
      trail = if moved then bounded_trail (l.trail ++ (sample ∷ [])) else l.trail;
      seen = now;
    }

unfoldable pub add_laser : ℕ → ScreenLaser → ScreenDrawing → ScreenDrawing × Bool
add_laser now p b =
    let pointed = record b {
      laser_ids = insert p.author p.id b.laser_ids;
      lasers =
          insert p.author (point_to now p (or_default new_pointer (lookup p.author b.lasers)))
            b.lasers;
      laser_timer = true;
    } in
    if not b.enabled
      || (not (p.epoch == b.epoch)
          || (nat_beq (length p.author) 0 || leb p.id (or_default 0 (lookup p.author b.laser_ids))))
    then (b, false)
    else (pointed, true)

abbrev pub fresh_samples : ℕ → List LaserSample → List LaserSample
fresh_samples now [] = []
fresh_samples now (s ∷ ss) =
    if leb laser_trail_ms (now - s.seen) then fresh_samples now ss else s ∷ fresh_samples now ss

abbrev pub faded : ℕ → LaserPointer → LaserPointer
faded now l =
    let p = l.point in
    record l {
      trail = fresh_samples now l.trail;
      point = record p { visible = p.visible && ltb (now - l.seen) laser_timeout_ms };
    }

abbrev pub is_gone : LaserPointer → Bool
is_gone l = not l.point.visible && nat_beq (length l.trail) 0

unfoldable pub fade_all : ℕ → List (Text × LaserPointer) → List (Text × LaserPointer)
fade_all now [] = []
fade_all now ((author, l) ∷ m) =
    if is_gone (faded now l) then fade_all now m else (author, faded now l) ∷ fade_all now m

-- The laser timer.
unfoldable pub laser_timeout : ℕ → ScreenDrawing → ScreenDrawing
laser_timeout now b =
    let left = fade_all now b.lasers in
    record b { lasers = left; laser_timer = b.laser_timer && not (nat_beq (length left) 0) }

abbrev pub activity_ms : ℕ
activity_ms = 1800

unfoldable pub still_active : ℕ → List (Text × ActiveAuthor) → List (Text × ActiveAuthor)
still_active now [] = []
still_active now ((author, a) ∷ m) =
    if leb activity_ms (now - a.seen) then still_active now m else (author, a) ∷ still_active now m

-- The activity timer.
unfoldable pub activity_timeout : ℕ → ScreenDrawing → ScreenDrawing
activity_timeout now b =
    let left = still_active now b.active_authors in
    record b {
      active_authors = left;
      activity_timer = b.activity_timer && not (nat_beq (length left) 0);
    }

abbrev pub segments_of : List (Text × ActiveAuthor) → List ScreenDraw
segments_of [] = []
segments_of ((_, a) ∷ m) = a.segment ∷ segments_of m

unfoldable pub active_segments : ℕ → ScreenDrawing → List ScreenDraw
active_segments now b = segments_of (still_active now b.active_authors)

abbrev pub is_laser : Tool → Bool
is_laser laser = true
is_laser _ = false

abbrev pub is_selector : Tool → Bool
is_selector selector = true
is_selector _ = false

-- The tool that is had when one is asked for.
abbrev pub granted : ScreenDrawing → Tool → Tool
granted b t = if not (drawing_allowed b) || (is_selector t && not b.owner) then no_tool else t

-- When the laser is put away, the point that tells the others, which `laserPointed` carries before the tool changes.
unfoldable pub put_away : Tool → ScreenDrawing → ScreenDrawing × Option ScreenLaser
put_away t b =
    let next = bump_segment_id b in
    let p = no_point in
    if is_laser b.tool && not (is_laser (granted b t))
    then (next, some (record p { id = next.next_segment_id; visible = false }))
    else (b, none)

-- What `setTool` does after.
unfoldable pub take_tool : Tool → ScreenDrawing → ScreenDrawing
take_tool t b = record b { tool = granted b t; selected = [] }
