-- ===== src/Protocol/Frame.antt =====
-- The framing of common/drawing_protocol.cpp: a frame is the length of its payload in four bytes, most
-- significant first, and a payload is a type byte and fields, each behind its own length. A byte is a
-- number below 256; the four bytes of a length are disjoint bit ranges, so that `|` is a sum.
pub mod RoundTrip
pub mod Stream
use disquisition.Common.{
  ℕ, zero, suc, ◌+◌, ◌-◌, ◌*◌, ◌/◌, ◌%◌, ◌^◌, ◌≡◌, refl, Bool, true, false, ◌||◌, Option, none,
  some, List, [], ◌∷◌, ◌++◌, arith, Text, codes, ltb, nat_beq, length, take, drop, if◌then◌else◌,
  ◌>>=◌,
}

pub data MsgType : Type 0 where
  screen_draw_state screen_draw screen_draw_watch screen_draw_erase screen_laser : MsgType

pub record Message : Type 0 where
  pub kind : MsgType
  pub fields : List Text

-- The enumerators' values.
unfoldable pub type_byte : MsgType → ℕ
type_byte screen_draw_state = 27
type_byte screen_draw = 28
type_byte screen_draw_watch = 29
type_byte screen_draw_erase = 32
type_byte screen_laser = 33

-- The `switch` of `decode`: `none` is its default case.
unfoldable pub msg_type : ℕ → Option MsgType
msg_type b =
    if nat_beq b 27
    then some screen_draw_state
    else if nat_beq b 28
    then some screen_draw
    else if nat_beq b 29
    then some screen_draw_watch
    else if nat_beq b 32
    then some screen_draw_erase
    else if nat_beq b 33
    then some screen_laser
    else none

abbrev pub length_size : ℕ
length_size = 4

abbrev pub max_frame_size : ℕ
max_frame_size = 16 * 1024

unfoldable pub append_u32 : Text → ℕ → Text
append_u32 out value =
    out
    ++ (value / 2 ^ 24 % 256) ∷ (value / 2 ^ 16 % 256) ∷ (value / 2 ^ 8 % 256) ∷ (value % 256) ∷ []

-- The first four bytes; the callers check that they are there.
unfoldable pub read_u32 : Text → ℕ
read_u32 (a ∷ b ∷ c ∷ d ∷ s) = a * 2 ^ 24 + b * 2 ^ 16 + c * 2 ^ 8 + d
read_u32 _ = 0

-- The loop of `encode` over the fields; a field's size is cast to 32 bits.
unfoldable pub append_fields : Text → List Text → Text
append_fields payload [] = payload
append_fields payload (field ∷ fields) =
    append_fields (append_u32 payload (length field % 2 ^ 32) ++ field) fields

unfoldable pub payload_of : Message → Text
payload_of m = append_fields (type_byte m.kind ∷ []) m.fields

unfoldable pub encode : Message → Text
encode m = append_u32 [] (length (payload_of m) % 2 ^ 32) ++ payload_of m

-- `ok` has the message and what is left of the buffer; on the other two results the buffer stays.
pub data Decoded : Type 0 where
  ok : Message → Text → Decoded
  incomplete malformed : Decoded

-- `while (remaining > 0)`, over the remaining bytes. The first argument is fuel, and one round takes at
-- least four bytes. `none` is a malformed payload.
unfoldable pub read_fields : ℕ → Text → Option (List Text)
read_fields fuel [] = some []
read_fields zero (b ∷ s) = none
read_fields (suc fuel) (b ∷ s) =
    let size = read_u32 (b ∷ s) in
    let rest = drop length_size (b ∷ s) in
    let more = (do fields ← read_fields fuel (drop size rest); some (take size rest ∷ fields)) in
    if ltb (length (b ∷ s)) length_size then none else if ltb (length rest) size then none else more

-- A whole payload, and what follows its frame in the buffer.
unfoldable pub decode_payload : Text → Text → Decoded
decode_payload [] after = malformed
decode_payload (b ∷ s) after = elim (msg_type b) [
  | none ↦ malformed
  | some kind ↦ elim (read_fields (length s) s) [
    | none ↦ malformed
    | some fields ↦ ok (record { kind = kind; fields = fields }) after
  ]
]

unfoldable pub decode : Text → Decoded
decode buffer =
    let size = read_u32 buffer in
    if ltb (length buffer) length_size
    then incomplete
    else if nat_beq size 0 || ltb max_frame_size size
    then malformed
    else if ltb (length buffer) (length_size + size)
    then incomplete
    else decode_payload (take size (drop length_size buffer)) (drop (length_size + size) buffer)

abbrev pub watch_message : Message
watch_message = record { kind = screen_draw_watch; fields = codes "ab" ∷ [] ∷ codes "1" ∷ [] }

encode_watch :
    encode watch_message
    ≡ 0 ∷ 0 ∷ 0 ∷ 16 ∷ 29 ∷ 0 ∷ 0 ∷ 0 ∷ 2 ∷ 97 ∷ 98 ∷ 0 ∷ 0 ∷ 0 ∷ 0 ∷ 0 ∷ 0 ∷ 0 ∷ 1 ∷ 49 ∷ []
unfolding encode payload_of append_fields append_u32 type_byte
encode_watch = refl

decode_watch : decode (encode watch_message ++ 5 ∷ []) ≡ ok watch_message (5 ∷ [])
unfolding encode payload_of append_fields append_u32 type_byte decode decode_payload msg_type
    read_fields read_u32
decode_watch = refl

decode_unknown : decode (0 ∷ 0 ∷ 0 ∷ 1 ∷ 30 ∷ []) ≡ malformed
unfolding decode decode_payload msg_type read_u32
decode_unknown = refl
