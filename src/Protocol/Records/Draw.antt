-- ===== src/Protocol/Records/Draw.antt =====
-- `parseScreenDraw` and `screenDrawMessage`.
use disquisition.Common.{ℕ, suc, ◌-◌, ◌≤◌, ◌≡◌, Bool, true, false, some, [], arith, if◌then◌else◌}
use disquisition.Common.Int.{ℤ}
use disquisition.Protocol.Number.{parse_u32, max_u32}
use disquisition.Protocol.Number.RoundTrip.{parse_u32-nat_to_string}
use disquisition.Protocol.Number.Sound.{parse_u32_sound}
use disquisition.Protocol.Frame.{Message}
use disquisition.Protocol.Records.{
  ScreenDraw, draw_coordinate_max, pen_color_count, is_kind, field, drawing_identity, parse_limited,
  parse_epoch, parse_stroke, parse_screen_draw, screen_draw_message,
}
use disquisition.Protocol.Records.Fields.{
  InRange, IsEpoch, IsRgb, parse_limited-to_string, parse_epoch-to_string, parse_rgb-to_string,
  parse_limited_sound, parse_epoch_sound, parse_rgb_sound,
}

-- The values that a segment may have. A segment that is not from the owner carries no author.
pub record IsValid (from_owner : Bool) (d : ScreenDraw) : Type 0 where
  pub sharer : drawing_identity d.sharer ≡ true
  pub author : (if from_owner then drawing_identity d.author ≡ true else d.author ≡ [])
  pub epoch : IsEpoch d.epoch
  pub id : d.id ≤ max_u32
  pub x1 : InRange draw_coordinate_max d.x1
  pub y1 : InRange draw_coordinate_max d.y1
  pub x2 : InRange draw_coordinate_max d.x2
  pub y2 : InRange draw_coordinate_max d.y2
  pub color : InRange (pen_color_count - 1) d.color
  pub stroke : d.stroke ≤ max_u32
  pub rgb : IsRgb d.rgb

-- A valid segment is read back from its message, in either direction of travel, with or without the
-- stroke and color fields.
pub parse-screen_draw_message :
    (from_owner : Bool) (d : ScreenDraw)
    → IsValid from_owner d
    → parse_screen_draw (screen_draw_message d from_owner) from_owner ≡ some d
unfolding parse_screen_draw screen_draw_message is_kind parse_stroke
parse-screen_draw_message true d v = ground (
  arith,
  parse_epoch-to_string d.epoch v.epoch,
  parse_u32-nat_to_string d.id v.id,
  parse_limited-to_string draw_coordinate_max d.x1 (omega arith) v.x1,
  parse_limited-to_string draw_coordinate_max d.y1 (omega arith) v.y1,
  parse_limited-to_string draw_coordinate_max d.x2 (omega arith) v.x2,
  parse_limited-to_string draw_coordinate_max d.y2 (omega arith) v.y2,
  parse_limited-to_string (pen_color_count - 1) d.color (omega arith) v.color,
  parse_u32-nat_to_string d.stroke v.stroke,
  parse_rgb-to_string d.rgb v.rgb,
)
parse-screen_draw_message false d v = ground (
  arith,
  parse_epoch-to_string d.epoch v.epoch,
  parse_u32-nat_to_string d.id v.id,
  parse_limited-to_string draw_coordinate_max d.x1 (omega arith) v.x1,
  parse_limited-to_string draw_coordinate_max d.y1 (omega arith) v.y1,
  parse_limited-to_string draw_coordinate_max d.x2 (omega arith) v.x2,
  parse_limited-to_string draw_coordinate_max d.y2 (omega arith) v.y2,
  parse_limited-to_string (pen_color_count - 1) d.color (omega arith) v.color,
  parse_u32-nat_to_string d.stroke v.stroke,
  parse_rgb-to_string d.rgb v.rgb,
)

-- Where each part of an accepted segment was read.
abbrev Reads : Message → ScreenDraw → ℕ → ℕ → Type 0
Reads m d size k =
    (parse_epoch (field m 1) ≡ some d.epoch)
    × (parse_u32 (field m k) ≡ some d.id)
    × (parse_limited draw_coordinate_max (field m (suc k)) ≡ some d.x1)
    × (parse_limited draw_coordinate_max (field m (suc (suc k))) ≡ some d.y1)
    × (parse_limited draw_coordinate_max (field m (suc (suc (suc k)))) ≡ some d.x2)
    × (parse_limited draw_coordinate_max (field m (suc (suc (suc (suc k))))) ≡ some d.y2)
    × (parse_limited (pen_color_count - 1) (field m (suc (suc (suc (suc (suc k)))))) ≡ some d.color)
    × (parse_stroke m size ≡ some (d.stroke, d.rgb))

parse_screen_draw-Reads :
    (from_owner : Bool) (m : Message) (d : ScreenDraw)
    → parse_screen_draw m from_owner ≡ some d
    → Reads m d (if from_owner then 9 else 8) (if from_owner then 3 else 2)
unfolding parse_screen_draw
parse_screen_draw-Reads true m d h = ground arith
parse_screen_draw-Reads false m d h = ground arith

parse_stroke_sound :
    (m : Message) (k stroke : ℕ) (rgb : ℤ)
    → parse_stroke m k ≡ some (stroke, rgb)
    → (stroke ≤ max_u32) × IsRgb rgb
unfolding parse_stroke
parse_stroke_sound m k stroke rgb h =
    ground (arith, parse_u32_sound (field m k) stroke, parse_rgb_sound (field m (suc k)) rgb)

parse_screen_draw_names :
    (from_owner : Bool) (m : Message) (d : ScreenDraw)
    → parse_screen_draw m from_owner ≡ some d
    → (drawing_identity d.sharer ≡ true)
      × (if from_owner then drawing_identity d.author ≡ true else d.author ≡ [])
unfolding parse_screen_draw
parse_screen_draw_names true m d h = ground arith
parse_screen_draw_names false m d h = ground arith

-- What `parseScreenDraw` accepts has every field in its range: coordinates within the canvas, a known
-- pen color, a positive epoch of at most eighteen digits, a 24-bit color or none, and a well-formed
-- sharer and, from the owner, author.
pub parse_screen_draw_sound :
    (from_owner : Bool) (m : Message) (d : ScreenDraw)
    → parse_screen_draw m from_owner ≡ some d
    → IsValid from_owner d
parse_screen_draw_sound from_owner m d h =
    let (sharer, author) = parse_screen_draw_names from_owner m d h in
    let (epoch, id, x1, y1, x2, y2, color, gesture) = parse_screen_draw-Reads from_owner m d h in
    let (stroke, rgb) = parse_stroke_sound m _ d.stroke d.rgb gesture in
    record {
      sharer = sharer;
      author = author;
      epoch = parse_epoch_sound _ d.epoch epoch;
      id = (parse_u32_sound _ d.id id).2;
      x1 = parse_limited_sound _ _ d.x1 x1;
      y1 = parse_limited_sound _ _ d.y1 y1;
      x2 = parse_limited_sound _ _ d.x2 x2;
      y2 = parse_limited_sound _ _ d.y2 y2;
      color = parse_limited_sound _ _ d.color color;
      stroke = stroke;
      rgb = rgb;
    }
