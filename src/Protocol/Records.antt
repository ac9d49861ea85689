-- ===== src/Protocol/Records.antt =====
-- The drawing messages of common/drawing_protocol.cpp as records: `parseScreenDraw`,
-- `screenDrawMessage` and their likes for erasing and for the laser pointer. A parser's result `false`
-- is `none`. The fields of a message are read by index behind a test of their count.
pub mod Fields
pub mod Draw
pub mod Erase
pub mod Laser
use disquisition.Common.{
  ℕ, suc, ◌+◌, ◌-◌, ◌≡◌, refl, Bool, true, false, not, ◌&&◌, ◌||◌, Option, none, some, List, [],
  ◌∷◌, ◌++◌, map, arith, Text, codes, ltb, leb, nat_beq, ◌==◌, text_eq, text_beq, length, get_or,
  drop, if◌then◌else◌, ◌>>=◌, ◌>>◌, guard,
}
use disquisition.Common.Int.{ℤ, pos, negsuc, ltb_ℤ}
use disquisition.Protocol.Number.{nat_to_string, to_string, parse_int64, parse_u32}
use disquisition.Protocol.Frame.{
  MsgType, screen_draw, screen_draw_erase, screen_laser, Message, type_byte,
}

abbrev pub draw_coordinate_max : ℕ
draw_coordinate_max = 10000

abbrev pub pen_color_count : ℕ
pen_color_count = 6

abbrev pub max_draw_segments : ℕ
max_draw_segments = 4096

abbrev pub max_erase_strokes : ℕ
max_erase_strokes = 128

pub record ScreenDraw : Type 0 where
  pub sharer : Text
  pub author : Text
  pub epoch : ℤ
  pub id : ℕ
  pub x1 : ℤ
  pub y1 : ℤ
  pub x2 : ℤ
  pub y2 : ℤ
  pub color : ℤ
  pub stroke : ℕ
  pub rgb : ℤ

pub record ScreenErase : Type 0 where
  pub sharer : Text
  pub author : Text
  pub epoch : ℤ
  pub strokes : List ℕ

pub record ScreenLaser : Type 0 where
  pub sharer : Text
  pub author : Text
  pub epoch : ℤ
  pub id : ℕ
  pub x : ℤ
  pub y : ℤ
  pub rgb : ℤ
  pub visible : Bool

-- Two enumerators are equal if their values are.
unfoldable pub is_kind : MsgType → MsgType → Bool
unfolding type_byte
is_kind a b = nat_beq (type_byte a) (type_byte b)

abbrev pub field : Message → ℕ → Text
field m i = get_or m.fields i []

unfoldable pub is_hex : ℕ → Bool
is_hex c = (leb b'0' c && leb c b'9') || (leb b'a' c && leb c b'f')

unfoldable pub all_hex : Text → Bool
all_hex [] = true
all_hex (c ∷ s) = is_hex c && all_hex s

-- Local labels, or key fingerprints.
unfoldable pub drawing_identity : Text → Bool
drawing_identity value =
    not (nat_beq (length value) 0)
    && (leb (length value) 20 || (nat_beq (length value) 64 && all_hex value))

-- A uint32 within a limit, stored in an int.
unfoldable pub parse_limited : ℕ → Text → Option ℤ
parse_limited limit s = do value ← parse_u32 s; guard (not (ltb limit value)); some (pos value)

-- An epoch is positive.
unfoldable pub parse_epoch : Text → Option ℤ
parse_epoch s = do epoch ← parse_int64 s; guard (ltb_ℤ (pos 0) epoch); some epoch

-- A 24-bit color, or -1 for the legacy palette.
unfoldable pub parse_rgb : Text → Option ℤ
parse_rgb s = do
  rgb ← parse_int64 s
  guard (not (ltb_ℤ rgb (negsuc 0) || ltb_ℤ (pos 0xffffff) rgb))
  some rgb

-- The stroke and the color that newer messages carry behind the legacy fields.
unfoldable pub parse_stroke : Message → ℕ → Option (ℕ × ℤ)
parse_stroke m legacy_size =
    let both = (do
      stroke ← parse_u32 (field m legacy_size)
      rgb ← parse_rgb (field m (suc legacy_size))
      some (stroke, rgb)) in
    if nat_beq (length m.fields) (legacy_size + 2) then both else some (0, negsuc 0)

unfoldable pub parse_screen_draw : Message → Bool → Option ScreenDraw
parse_screen_draw m from_owner = do
  let legacy_size : ℕ = if from_owner then 9 else 8
  guard (
      is_kind m.kind screen_draw
      && (nat_beq (length m.fields) legacy_size || nat_beq (length m.fields) (legacy_size + 2)))
  let sharer = field m 0
  guard (drawing_identity sharer)
  epoch ← parse_epoch (field m 1)
  let id_index : ℕ = if from_owner then 3 else 2
  id ← parse_u32 (field m id_index)
  let start = suc id_index
  let author = if from_owner then field m 2 else []
  x1 ← parse_limited draw_coordinate_max (field m start)
  y1 ← parse_limited draw_coordinate_max (field m (suc start))
  x2 ← parse_limited draw_coordinate_max (field m (suc (suc start)))
  y2 ← parse_limited draw_coordinate_max (field m (suc (suc (suc start))))
  color ← parse_limited (pen_color_count - 1) (field m (suc (suc (suc (suc start)))))
  guard (not from_owner || drawing_identity author)
  gesture ← parse_stroke m legacy_size
  some (record {
    sharer = sharer;
    author = author;
    epoch = epoch;
    id = id;
    x1 = x1;
    y1 = y1;
    x2 = x2;
    y2 = y2;
    color = color;
    stroke = gesture.0;
    rgb = gesture.1;
  })

unfoldable pub screen_draw_message : ScreenDraw → Bool → Message
screen_draw_message draw from_owner = record {
  kind = screen_draw;
  fields =
      draw.sharer
      ∷ to_string draw.epoch
      ∷ ((if from_owner then draw.author ∷ [] else [])
          ++ nat_to_string draw.id
            ∷ to_string draw.x1
            ∷ to_string draw.y1
            ∷ to_string draw.x2
            ∷ to_string draw.y2
            ∷ to_string draw.color
            ∷ (if not (nat_beq draw.stroke 0) || not (ltb_ℤ draw.rgb (pos 0))
                then nat_to_string draw.stroke ∷ to_string draw.rgb ∷ []
                else []));
}

unfoldable pub parse_strokes : List Text → Option (List ℕ)
parse_strokes [] = some []
parse_strokes (f ∷ fs) = do id ← parse_u32 f; ids ← parse_strokes fs; some (id ∷ ids)

unfoldable pub parse_screen_erase : Message → Option ScreenErase
parse_screen_erase m = do
  guard (
      is_kind m.kind screen_draw_erase
      && not (ltb (length m.fields) 4 || ltb (3 + max_erase_strokes) (length m.fields)))
  let sharer = field m 0
  let author = field m 2
  guard (drawing_identity sharer && drawing_identity author)
  epoch ← parse_epoch (field m 1)
  strokes ← parse_strokes (drop 3 m.fields)
  some (record { sharer = sharer; author = author; epoch = epoch; strokes = strokes })

unfoldable pub screen_erase_message : ScreenErase → Message
screen_erase_message erase = record {
  kind = screen_draw_erase;
  fields = erase.sharer ∷ to_string erase.epoch ∷ erase.author ∷ map nat_to_string erase.strokes;
}

unfoldable pub parse_visible : Text → Option Bool
parse_visible s = if s == codes "1" then some true else if s == codes "0" then some false else none

unfoldable pub parse_screen_laser : Message → Bool → Option ScreenLaser
parse_screen_laser m from_owner = do
  guard (is_kind m.kind screen_laser && nat_beq (length m.fields) (if from_owner then 8 else 7))
  let sharer = field m 0
  guard (drawing_identity sharer)
  epoch ← parse_epoch (field m 1)
  let author = if from_owner then field m 2 else []
  guard (not from_owner || drawing_identity author)
  let start : ℕ = if from_owner then 3 else 2
  id ← parse_u32 (field m start)
  guard (not (nat_beq id 0))
  x ← parse_limited draw_coordinate_max (field m (suc start))
  y ← parse_limited draw_coordinate_max (field m (suc (suc start)))
  rgb ← parse_limited 0xffffff (field m (suc (suc (suc start))))
  visible ← parse_visible (field m (suc (suc (suc (suc start)))))
  some (record {
    sharer = sharer;
    author = author;
    epoch = epoch;
    id = id;
    x = x;
    y = y;
    rgb = rgb;
    visible = visible;
  })

unfoldable pub screen_laser_message : ScreenLaser → Bool → Message
screen_laser_message laser from_owner = record {
  kind = screen_laser;
  fields =
      laser.sharer
      ∷ to_string laser.epoch
      ∷ ((if from_owner then laser.author ∷ [] else [])
          ++ nat_to_string laser.id
            ∷ to_string laser.x
            ∷ to_string laser.y
            ∷ to_string laser.rgb
            ∷ (if laser.visible then codes "1" else codes "0")
            ∷ []);
}
