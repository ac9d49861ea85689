-- ===== src/Protocol/Frame/RoundTrip.antt =====
-- An encoded message is decoded to itself, whatever follows it in the buffer.
use disquisition.Common.{
  ℕ, zero, suc, ◌+◌, ◌%◌, ◌^◌, ◌≤◌, ◌<◌, ◌≡◌, refl, sym, ap, ◌∙◌, some, List, [], ◌∷◌, ◌++◌,
  append_assoc, append-nil, arith, Text, length, length-append, drop, take-append, drop-append,
  ◌>>=◌,
}
use disquisition.Protocol.Frame.{
  MsgType, screen_draw_state, screen_draw, screen_draw_watch, screen_draw_erase, screen_laser,
  Message, type_byte, msg_type, max_frame_size, append_u32, read_u32, append_fields, payload_of,
  encode, ok, read_fields, decode_payload, decode,
}

pub append_u32-out : (out : Text) (n : ℕ) → append_u32 out n ≡ out ++ append_u32 [] n
unfolding append_u32
append_u32-out out n = refl

pub length-append_u32 : (n : ℕ) → length (append_u32 [] n) ≡ 4
unfolding append_u32
length-append_u32 n = refl

-- Four bytes spell a uint32.
pub read_u32-append_u32 : (n : ℕ) (s : Text) → n < 2 ^ 32 → read_u32 (append_u32 [] n ++ s) ≡ n
unfolding append_u32 read_u32
read_u32-append_u32 n s h = omega arith

pub drop-append_u32 : (n : ℕ) (s : Text) → drop 4 (append_u32 [] n ++ s) ≡ s
unfolding append_u32
drop-append_u32 n s = refl

pub msg_type-type_byte : (k : MsgType) → msg_type (type_byte k) ≡ some k
unfolding msg_type type_byte
msg_type-type_byte screen_draw_state = refl
msg_type-type_byte screen_draw = refl
msg_type-type_byte screen_draw_watch = refl
msg_type-type_byte screen_draw_erase = refl
msg_type-type_byte screen_laser = refl

-- The fields as one text.
unfoldable pub fields_text : List Text → Text
fields_text [] = []
fields_text (f ∷ fs) = append_u32 [] (length f % 2 ^ 32) ++ (f ++ fields_text fs)

pub append_fields-text :
    (out : Text) (fs : List Text) → append_fields out fs ≡ out ++ fields_text fs
unfolding append_fields fields_text
append_fields-text out [] = sym (append-nil out)
append_fields-text out (f ∷ fs) =
    rw (append_fields-text (append_u32 out (length f % 2 ^ 32) ++ f) fs)
      (simp (append_u32-out out, append_assoc))

-- A field's length is kept by its cast to 32 bits.
abbrev pub IsShort : Text → Type 0
IsShort f = length f < 2 ^ 32

-- One round of the loop.
pub read_fields_round :
    (fuel : ℕ) (f s : Text)
    → IsShort f
    → read_fields (suc fuel) (append_u32 [] (length f % 2 ^ 32) ++ (f ++ s))
      ≡ (read_fields fuel s >>= λ fs. some (f ∷ fs))
unfolding read_fields append_u32
read_fields_round fuel f s h = ground (
  arith,
  read_u32-append_u32 (length f % 2 ^ 32) (f ++ s),
  take-append f s,
  drop-append f s,
  length-append f s,
)

pub length-fields_text :
    (f : Text) (fs : List Text)
    → length (fields_text (f ∷ fs)) ≡ 4 + length f + length (fields_text fs)
unfolding fields_text
length-fields_text f fs = omega (
  arith,
  length-append (append_u32 [] (length f % 2 ^ 32)) (f ++ fields_text fs),
  length-append_u32 (length f % 2 ^ 32),
  length-append f (fields_text fs),
)

pub fields_text-cons :
    (f : Text) (fs : List Text)
    → fields_text (f ∷ fs) ≡ append_u32 [] (length f % 2 ^ 32) ++ (f ++ fields_text fs)
unfolding fields_text
fields_text-cons f fs = refl

-- Fuel of as many rounds as there are bytes is enough.
pub read_fields-text :
    (fuel : ℕ) (fs : List Text)
    → length (fields_text fs) < 2 ^ 32
    → length (fields_text fs) ≤ fuel
    → read_fields fuel (fields_text fs) ≡ some fs
read_fields-text fuel [] h k = unfold read_fields fields_text in refl
read_fields-text zero (f ∷ fs) h k = absurd (omega (arith, length-fields_text f fs))
read_fields-text (suc fuel) (f ∷ fs) h k =
    let n = length-fields_text f fs in
    rw (
      fields_text-cons f fs,
      read_fields_round fuel f (fields_text fs) (omega arith),
      read_fields-text fuel fs (omega arith) (omega arith),
    )

pub payload-text : (m : Message) → payload_of m ≡ type_byte m.kind ∷ fields_text m.fields
unfolding payload_of
payload-text m = append_fields-text (type_byte m.kind ∷ []) m.fields

pub drop_four : (n a b c d : ℕ) (s : Text) → drop (4 + n) (a ∷ b ∷ c ∷ d ∷ s) ≡ drop n s
drop_four n a b c d s = let e : 4 + n ≡ suc (suc (suc (suc n))) = omega arith in rw e

-- A frame is cut at its length.
pub decode_frame :
    (p rest : Text)
    → 0 < length p
    → length p ≤ max_frame_size
    → decode (append_u32 [] (length p % 2 ^ 32) ++ (p ++ rest)) ≡ decode_payload p rest
unfolding decode append_u32
decode_frame p rest h k = ground (
  arith,
  read_u32-append_u32 (length p % 2 ^ 32) (p ++ rest),
  drop_four (length p),
  take-append p rest,
  drop-append p rest,
  length-append p rest,
)

decode_payload-text :
    (m : Message) (rest : Text)
    → length (fields_text m.fields) < 2 ^ 32
    → decode_payload (type_byte m.kind ∷ fields_text m.fields) rest ≡ ok m rest
unfolding decode_payload
decode_payload-text m rest h = rw (
  msg_type-type_byte m.kind,
  read_fields-text (length (fields_text m.fields)) m.fields h (omega arith),
  decode_payload,
)

length-payload : (m : Message) → length (payload_of m) ≡ suc (length (fields_text m.fields))
length-payload m = ap length (payload-text m)

-- A message whose payload is within the limit is decoded from what `encode` made of it; the bytes that
-- follow stay in the buffer.
pub decode-encode :
    (m : Message) (rest : Text)
    → length (payload_of m) ≤ max_frame_size
    → decode (encode m ++ rest) ≡ ok m rest
unfolding encode
decode-encode m rest h =
    let n = length-payload m in
    rw append_assoc (
      decode_frame (payload_of m) rest (omega arith) h
      ∙ (ap (λ p. decode_payload p rest) (payload-text m)
          ∙ decode_payload-text m rest (omega arith)))
