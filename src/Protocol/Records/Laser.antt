-- ===== src/Protocol/Records/Laser.antt =====
-- `parseScreenLaser` and `screenLaserMessage`.
use disquisition.Common.{
  ◌≤◌, ◌≡◌, refl, Bool, true, false, some, [], arith, codes, if◌then◌else◌, text_beq,
}
use disquisition.Protocol.Number.{max_u32}
use disquisition.Protocol.Number.RoundTrip.{parse_u32-nat_to_string}
use disquisition.Protocol.Number.Sound.{parse_u32_sound}
use disquisition.Protocol.Frame.{Message}
use disquisition.Protocol.Records.{
  ScreenLaser, draw_coordinate_max, field, is_kind, drawing_identity, parse_visible,
  parse_screen_laser, screen_laser_message,
}
use disquisition.Protocol.Records.Fields.{
  InRange, IsEpoch, parse_limited-to_string, parse_epoch-to_string, parse_limited_sound,
  parse_epoch_sound,
}

-- The values that a laser point may have. Its sequence number is positive.
pub record IsValid (from_owner : Bool) (l : ScreenLaser) : Type 0 where
  pub sharer : drawing_identity l.sharer ≡ true
  pub author : (if from_owner then drawing_identity l.author ≡ true else l.author ≡ [])
  pub epoch : IsEpoch l.epoch
  pub id : (1 ≤ l.id) × (l.id ≤ max_u32)
  pub x : InRange draw_coordinate_max l.x
  pub y : InRange draw_coordinate_max l.y
  pub rgb : InRange 0xffffff l.rgb

parse_visible-codes : (b : Bool) → parse_visible (if b then codes "1" else codes "0") ≡ some b
unfolding parse_visible text_beq
parse_visible-codes true = refl
parse_visible-codes false = refl

-- A valid laser point is read back from its message, in either direction of travel.
pub parse-screen_laser_message :
    (from_owner : Bool) (l : ScreenLaser)
    → IsValid from_owner l
    → parse_screen_laser (screen_laser_message l from_owner) from_owner ≡ some l
unfolding parse_screen_laser screen_laser_message is_kind
parse-screen_laser_message true l v = ground (
  arith,
  parse_epoch-to_string l.epoch v.epoch,
  parse_u32-nat_to_string l.id,
  parse_limited-to_string draw_coordinate_max l.x (omega arith) v.x,
  parse_limited-to_string draw_coordinate_max l.y (omega arith) v.y,
  parse_limited-to_string 0xffffff l.rgb (omega arith) v.rgb,
  parse_visible-codes l.visible,
)
parse-screen_laser_message false l v = ground (
  arith,
  parse_epoch-to_string l.epoch v.epoch,
  parse_u32-nat_to_string l.id,
  parse_limited-to_string draw_coordinate_max l.x (omega arith) v.x,
  parse_limited-to_string draw_coordinate_max l.y (omega arith) v.y,
  parse_limited-to_string 0xffffff l.rgb (omega arith) v.rgb,
  parse_visible-codes l.visible,
)

-- What `parseScreenLaser` accepts has every field in its range.
pub parse_screen_laser_sound :
    (from_owner : Bool) (m : Message) (l : ScreenLaser)
    → parse_screen_laser m from_owner ≡ some l
    → IsValid from_owner l
unfolding parse_screen_laser
parse_screen_laser_sound true m l h = ground (
  arith,
  parse_epoch_sound (field m 1) l.epoch,
  parse_u32_sound (field m 3) l.id,
  parse_limited_sound draw_coordinate_max (field m 4) l.x,
  parse_limited_sound draw_coordinate_max (field m 5) l.y,
  parse_limited_sound 0xffffff (field m 6) l.rgb,
)
parse_screen_laser_sound false m l h = ground (
  arith,
  parse_epoch_sound (field m 1) l.epoch,
  parse_u32_sound (field m 2) l.id,
  parse_limited_sound draw_coordinate_max (field m 3) l.x,
  parse_limited_sound draw_coordinate_max (field m 4) l.y,
  parse_limited_sound 0xffffff (field m 5) l.rgb,
)
