-- ===== src/Protocol/Frame/Stream.antt =====
-- `decode` over a growing buffer: what it answers does not depend on how the bytes arrive.
use disquisition.Common.{
  ℕ, zero, suc, ◌%◌, ◌^◌, ◌≤◌, ◌<◌, ◌≡◌, ◌≢◌, refl, sym, ap, ap₂, ◌∙◌, ◌||◌, some, List, [], ◌∷◌,
  ◌++◌, arith, Text, ltb, nat_beq, length, length-append, take, drop, take-append_le,
  drop-append_le, take-append-drop, length-take, All-take, All-drop, if◌then◌else◌, All,
}
use disquisition.Protocol.Frame.{
  MsgType, Message, type_byte, msg_type, max_frame_size, append_u32, read_u32, payload_of, encode,
  Decoded, ok, incomplete, malformed, read_fields, decode_payload, decode,
}
use disquisition.Protocol.Frame.RoundTrip.{drop_four, fields_text, payload-text, fields_text-cons}

-- `decode` behind the four bytes of the length.
decode_body : ℕ → Text → Decoded
decode_body size t =
    if nat_beq size 0 || ltb max_frame_size size
    then malformed
    else if ltb (length t) size
    then incomplete
    else decode_payload (take size t) (drop size t)

decode_four :
    (a b c d : ℕ) (t : Text)
    → decode (a ∷ b ∷ c ∷ d ∷ t) ≡ decode_body (read_u32 (a ∷ b ∷ c ∷ d ∷ [])) t
unfolding decode decode_body read_u32
decode_four a b c d t = ground (arith, drop_four (read_u32 (a ∷ b ∷ c ∷ d ∷ [])) a b c d t)

-- The same result with more bytes behind it.
abbrev pub extend : Decoded → Text → Decoded
extend (ok m rest) more = ok m (rest ++ more)
extend incomplete more = incomplete
extend malformed more = malformed

decode_payload-append :
    (p after more : Text) → decode_payload p (after ++ more) ≡ extend (decode_payload p after) more
unfolding decode_payload
decode_payload-append [] after more = refl
decode_payload-append (b ∷ s) after more = ground arith

decode_body-append :
    (size : ℕ) (t more : Text)
    → decode_body size t ≢ incomplete
    → decode_body size (t ++ more) ≡ extend (decode_body size t) more
unfolding decode_body
decode_body-append size t more h = ground (
  arith,
  length-append t more,
  take-append_le size t more,
  drop-append_le size t more,
  decode_payload-append (take size t) (drop size t) more,
)

-- Once `decode` answers, further bytes only lengthen what it leaves in the buffer: the message, or the
-- refusal, stays the same.
pub decode-append :
    (buffer more : Text)
    → decode buffer ≢ incomplete
    → decode (buffer ++ more) ≡ extend (decode buffer) more
decode-append [] more h = absurd (h (unfold decode in refl))
decode-append (a ∷ []) more h = absurd (h (unfold decode in refl))
decode-append (a ∷ b ∷ []) more h = absurd (h (unfold decode in refl))
decode-append (a ∷ b ∷ c ∷ []) more h = absurd (h (unfold decode in refl))
decode-append (a ∷ b ∷ c ∷ d ∷ t) more h =
    rw (decode_four a b c d t, decode_four a b c d (t ++ more))
      (decode_body-append (read_u32 (a ∷ b ∷ c ∷ d ∷ [])) t more
        (λ e. h (decode_four a b c d t ∙ e)))

-- The bytes of a buffer.
abbrev pub IsByte : ℕ → Type 0
IsByte b = b < 256

append_u32-read_u32 :
    (a b c d : ℕ)
    → All IsByte (a ∷ b ∷ c ∷ d ∷ [])
    → append_u32 [] (read_u32 (a ∷ b ∷ c ∷ d ∷ []) % 2 ^ 32) ≡ a ∷ b ∷ c ∷ d ∷ []
unfolding append_u32 read_u32
append_u32-read_u32 a b c d h = ground arith

type_byte-msg_type : (b : ℕ) (k : MsgType) → msg_type b ≡ some k → type_byte k ≡ b
unfolding msg_type type_byte
type_byte-msg_type b k h = ground arith

-- The fields that one round of the loop and the rounds after it read.
read_fields_split :
    (n a b c d : ℕ) (s : Text) (fs : List Text)
    → read_fields (suc n) (a ∷ b ∷ c ∷ d ∷ s) ≡ some fs
    → (gs : List Text) × (read_fields n (drop (read_u32 (a ∷ b ∷ c ∷ d ∷ [])) s) ≡ some gs)
      × (fs ≡ take (read_u32 (a ∷ b ∷ c ∷ d ∷ [])) s ∷ gs)
      × (read_u32 (a ∷ b ∷ c ∷ d ∷ []) ≤ length s)
unfolding read_fields read_u32
read_fields_split n a b c d s fs h = ground arith

short_payload :
    (n : ℕ) (s : Text) (fs : List Text)
    → 0 < length s
    → length s < 4
    → read_fields n s ≡ some fs
    → ⊥
unfolding read_fields
short_payload zero (a ∷ s) fs h k e = cc
short_payload (suc n) (a ∷ s) fs h k e = ground arith
short_payload n [] fs h k e = absurd (omega arith)

fields_text-join :
    (a b c d : ℕ) (s : Text) (gs : List Text)
    → All IsByte (a ∷ b ∷ c ∷ d ∷ [])
    → let size = read_u32 (a ∷ b ∷ c ∷ d ∷ []) in
      size ≤ length s
      → fields_text gs ≡ drop size s
      → fields_text (take size s ∷ gs) ≡ a ∷ b ∷ c ∷ d ∷ s
fields_text-join a b c d s gs hb fits e =
    let size = read_u32 (a ∷ b ∷ c ∷ d ∷ []) in
    let n : length (take size s) ≡ size = omega (arith, length-take size s) in
    rw (fields_text-cons (take size s) gs, n, append_u32-read_u32 a b c d hb, e)
      (ap (λ t. a ∷ b ∷ c ∷ d ∷ t) (take-append-drop size s))

-- Read fields spell the payload again.
read_fields_sound :
    (fuel : ℕ) (s : Text) (fs : List Text)
    → All IsByte s
    → read_fields fuel s ≡ some fs
    → fields_text fs ≡ s
read_fields_sound fuel [] fs hs h = unfold read_fields fields_text in ground arith
read_fields_sound zero (a ∷ s) fs hs h = unfold read_fields in cc
read_fields_sound (suc n) (a ∷ []) fs hs h =
    absurd (short_payload (suc n) (a ∷ []) fs (omega arith) (omega arith) h)
read_fields_sound (suc n) (a ∷ b ∷ []) fs hs h =
    absurd (short_payload (suc n) (a ∷ b ∷ []) fs (omega arith) (omega arith) h)
read_fields_sound (suc n) (a ∷ b ∷ c ∷ []) fs hs h =
    absurd (short_payload (suc n) (a ∷ b ∷ c ∷ []) fs (omega arith) (omega arith) h)
read_fields_sound (suc n) (a ∷ b ∷ c ∷ d ∷ s) fs (ha, (hb, (hc, (hd, hs)))) h =
    let (gs, e, split, fits) = read_fields_split n a b c d s fs h in
    rw split (
      fields_text-join a b c d s gs (ha, (hb, (hc, (hd, tt)))) fits
        (read_fields_sound n (drop (read_u32 (a ∷ b ∷ c ∷ d ∷ [])) s) gs (All-drop IsByte _ s hs)
          e))

decode_payload_split :
    (b : ℕ) (s after rest : Text) (m : Message)
    → decode_payload (b ∷ s) after ≡ ok m rest
    → (msg_type b ≡ some m.kind) × (read_fields (length s) s ≡ some m.fields) × (after ≡ rest)
unfolding decode_payload
decode_payload_split b s after rest m h = ground arith

decode_payload_sound :
    (p after rest : Text) (m : Message)
    → All IsByte p
    → decode_payload p after ≡ ok m rest
    → (payload_of m ≡ p) × (after ≡ rest)
decode_payload_sound [] after rest m hp h = unfold decode_payload in cc
decode_payload_sound (b ∷ s) after rest m (hb, hs) h =
    let (kind, fields, e) = decode_payload_split b s after rest m h in
    (
      payload-text m
          ∙ ap₂ (λ k t. k ∷ t) (type_byte-msg_type b m.kind kind)
              (read_fields_sound (length s) s m.fields hs fields),
      e,
    )

decode_body_split :
    (size : ℕ) (t rest : Text) (m : Message)
    → decode_body size t ≡ ok m rest
    → (size ≤ max_frame_size)
      × (size ≤ length t)
      × (decode_payload (take size t) (drop size t) ≡ ok m rest)
unfolding decode_body
decode_body_split size t rest m h = ground arith

-- In a buffer of bytes, a decoded message is encoded to the very bytes that it was read from: `decode` accepts one spelling of
-- a message, and what it leaves is the rest of the buffer. The payload is within the limit.
pub decode_sound :
    (buffer rest : Text) (m : Message)
    → All IsByte buffer
    → decode buffer ≡ ok m rest
    → (buffer ≡ encode m ++ rest) × (length (payload_of m) ≤ max_frame_size)
decode_sound [] rest m hb h = unfold decode in cc
decode_sound (a ∷ []) rest m hb h = unfold decode in cc
decode_sound (a ∷ b ∷ []) rest m hb h = unfold decode in cc
decode_sound (a ∷ b ∷ c ∷ []) rest m hb h = unfold decode in cc
decode_sound (a ∷ b ∷ c ∷ d ∷ t) rest m (ha, (hb, (hc, (hd, ht)))) h =
    let size = read_u32 (a ∷ b ∷ c ∷ d ∷ []) in
    let (small, fits, body) = decode_body_split size t rest m (sym (decode_four a b c d t) ∙ h) in
    let (p, e) =
      decode_payload_sound (take size t) (drop size t) rest m (All-take IsByte size t ht) body in
    let n : length (payload_of m) ≡ size = ap length p ∙ omega (arith, length-take size t) in
    (
      sym (
          unfold encode in
          rw (n, append_u32-read_u32 a b c d (ha, (hb, (hc, (hd, tt)))), p, ← e)
            (ap (λ s. a ∷ b ∷ c ∷ d ∷ s) (take-append-drop size t))),
      omega arith,
    )
