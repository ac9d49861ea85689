-- ===== src/Protocol/Tests.antt =====
-- The protocol's theorems at concrete inputs.
use disquisition.Common.{
  ◌≡◌, ◌≤◌, ◌++◌, refl, true, false, some, [], ◌∷◌, arith, Text, codes, length,
}
use disquisition.Common.Int.{pos, negsuc}
use disquisition.Protocol.Frame.{
  MsgType, ok, watch_message, encode, decode, payload_of, append_fields, append_u32, type_byte,
  decode_payload, read_fields, read_u32, msg_type, max_frame_size,
}
use disquisition.Protocol.Frame.RoundTrip.{decode-encode}
use disquisition.Protocol.Frame.Stream.{decode-append, decode_sound, extend}
use disquisition.Protocol.Records.{
  ScreenDraw, ScreenErase, ScreenLaser, drawing_identity, parse_screen_draw, screen_draw_message,
  parse_screen_erase, screen_erase_message, parse_screen_laser, screen_laser_message,
}
use disquisition.Protocol.Records.Draw
use disquisition.Protocol.Records.Draw.{parse-screen_draw_message, parse_screen_draw_sound}
use disquisition.Protocol.Records.Erase
use disquisition.Protocol.Records.Erase.{parse-screen_erase_message, parse_screen_erase_sound}
use disquisition.Protocol.Records.Laser
use disquisition.Protocol.Records.Laser.{parse-screen_laser_message, parse_screen_laser_sound}

watch_payload : length (payload_of watch_message) ≤ max_frame_size
unfolding payload_of append_fields append_u32 type_byte
watch_payload = omega arith

decode-encode_example : decode (encode watch_message ++ 1 ∷ 2 ∷ []) ≡ ok watch_message (1 ∷ 2 ∷ [])
decode-encode_example = decode-encode watch_message (1 ∷ 2 ∷ []) watch_payload

abbrev one_field : Text
one_field = 0 ∷ 0 ∷ 0 ∷ 6 ∷ 33 ∷ 0 ∷ 0 ∷ 0 ∷ 1 ∷ 65 ∷ []

decode-append_example : decode (one_field ++ 9 ∷ []) ≡ extend (decode one_field) (9 ∷ [])
unfolding decode decode_payload read_fields read_u32 msg_type
decode-append_example = decode-append one_field (9 ∷ []) (λ e. cc)

decode_sound_example :
    (one_field ≡ encode (record { kind = MsgType.screen_laser; fields = codes "A" ∷ [] }) ++ [])
    × (length (payload_of (record { kind = MsgType.screen_laser; fields = codes "A" ∷ [] }))
        ≤ max_frame_size)
unfolding decode decode_payload read_fields read_u32 msg_type
decode_sound_example =
    decode_sound one_field [] (record { kind = MsgType.screen_laser; fields = codes "A" ∷ [] })
      (omega arith) refl

abbrev segment : ScreenDraw
segment = record {
  sharer = codes "ann";
  author = codes "bob";
  epoch = pos 1700000000000000;
  id = 3;
  x1 = pos 0;
  y1 = pos 10000;
  x2 = pos 5;
  y2 = pos 6;
  color = pos 5;
  stroke = 2;
  rgb = negsuc 0;
}

segment-IsValid : Draw.IsValid true segment
unfolding drawing_identity
segment-IsValid = record {
  sharer = refl;
  author = refl;
  epoch = omega arith;
  id = omega arith;
  x1 = omega arith;
  y1 = omega arith;
  x2 = omega arith;
  y2 = omega arith;
  color = omega arith;
  stroke = omega arith;
  rgb = omega arith;
}

read_segment : parse_screen_draw (screen_draw_message segment true) true ≡ some segment
read_segment = parse-screen_draw_message true segment segment-IsValid

parse-screen_draw_message_example :
    parse_screen_draw (screen_draw_message segment true) true ≡ some segment
parse-screen_draw_message_example = parse-screen_draw_message true segment segment-IsValid

parse_screen_draw_sound_example : Draw.IsValid true segment
parse_screen_draw_sound_example =
    parse_screen_draw_sound true (screen_draw_message segment true) segment read_segment

abbrev request : ScreenErase
request = record { sharer = codes "ann"; author = codes "bob"; epoch = pos 9; strokes = 4 ∷ 5 ∷ [] }

request-IsValid : Erase.IsValid request
unfolding drawing_identity
request-IsValid = record {
  sharer = refl;
  author = refl;
  epoch = omega arith;
  strokes = omega arith;
  some_strokes = omega arith;
  few_strokes = omega arith;
}

read_request : parse_screen_erase (screen_erase_message request) ≡ some request
read_request = parse-screen_erase_message request request-IsValid

abbrev point : ScreenLaser
point = record {
  sharer = codes "ann";
  author = [];
  epoch = pos 9;
  id = 1;
  x = pos 100;
  y = pos 200;
  rgb = pos 0xff0000;
  visible = true;
}

point-IsValid : Laser.IsValid false point
unfolding drawing_identity
point-IsValid = record {
  sharer = refl;
  author = refl;
  epoch = omega arith;
  id = omega arith;
  x = omega arith;
  y = omega arith;
  rgb = omega arith;
}

read_point : parse_screen_laser (screen_laser_message point false) false ≡ some point
read_point = parse-screen_laser_message false point point-IsValid
