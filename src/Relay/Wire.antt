-- ===== src/Relay/Wire.antt =====
-- include/community/wire.h. A JSON object is a value of any type `A`; Qt's reader of JSON is a parameter,
-- which answers `none` for a text that is no object. A frame is built from the text that Qt's writer makes.
use disquisition.Common.{
  ℕ, ◌+◌, ◌*◌, ◌≡◌, inl, inr, refl, sym, ◌∙◌, ap, ap₂, subst, false, ◌||◌, Option, none, some, [],
  ◌++◌, arith, Text, text_eq, codes, ltb, nat_beq, if◌then◌else◌, Bool-cases, length, length-append,
  take, drop, drop-drop, append_assoc,
}
use mathlib.Core.Option.{some-injective, none-ne-some}
use disquisition.Common.{take-append, drop-append}
use disquisition.Protocol.Frame.{append_u32, read_u32}
use disquisition.Protocol.Frame.RoundTrip.{length-append_u32, read_u32-append_u32, drop-append_u32}

abbrev pub relay_prefix : Text
relay_prefix = codes "DQC1\n"

abbrev pub max_packet_bytes : ℕ
max_packet_bytes = 256 * 1024

-- `none` is the exception.
unfoldable pub frame : Text → Option Text
frame payload =
    if nat_beq (length payload) 0 || ltb max_packet_bytes (length payload)
    then none
    else some (append_u32 [] (length payload) ++ payload)

-- What `takeFrame` says: no whole frame yet, an exception, or an object and the bytes that are left.
pub data Taken (A : Type 0) : Type 0 where
  unfinished : Taken A
  invalid : Taken A
  taken : A → Text → Taken A

abbrev taken_object : {A : Type 0} → Option A → Text → Taken A
taken_object none rest = invalid
taken_object (some a) rest = taken a rest

unfoldable pub take_frame : {A : Type 0} → (Text → Option A) → Text → Taken A
take_frame parse bytes =
    let size = read_u32 bytes in
    if ltb (length bytes) 4
    then unfinished
    else if nat_beq size 0 || ltb max_packet_bytes size
    then invalid
    else if ltb (length bytes) (size + 4)
    then unfinished
    else taken_object (parse (take size (drop 4 bytes))) (drop (size + 4) bytes)

left_over :
    (payload rest : Text)
    → drop (length payload + 4) (append_u32 [] (length payload) ++ (payload ++ rest)) ≡ rest
left_over payload rest =
    sym (ap (λ n. drop n (append_u32 [] (length payload) ++ (payload ++ rest))) (omega arith))
    ∙ (sym (drop-drop 4 (length payload) (append_u32 [] (length payload) ++ (payload ++ rest)))
        ∙ (ap (drop (length payload)) (drop-append_u32 (length payload) (payload ++ rest))
            ∙ drop-append payload rest))

taken_whole :
    {A : Type 0} (parse : Text → Option A) (payload rest : Text) (a : A)
    → (nat_beq (length payload) 0 || ltb max_packet_bytes (length payload)) ≡ false
    → parse payload ≡ some a
    → take_frame parse (append_u32 [] (length payload) ++ (payload ++ rest)) ≡ taken a rest
unfolding take_frame
taken_whole parse payload rest a fine p =
    let n = length payload in
    let head = append_u32 [] n in
    let size : read_u32 (head ++ (payload ++ rest)) ≡ n =
      read_u32-append_u32 n (payload ++ rest) (ground arith) in
    let total : length (head ++ (payload ++ rest)) ≡ 4 + (n + length rest) =
      length-append head (payload ++ rest)
      ∙ ap₂ (λ x y. x + y) (length-append_u32 n) (length-append payload rest) in
    let long : ltb (4 + (n + length rest)) 4 ≡ false = ground arith in
    let whole : ltb (4 + (n + length rest)) (n + 4) ≡ false = ground arith in
    rw
      (
        size,
        total,
        long,
        fine,
        whole,
        drop-append_u32 n (payload ++ rest),
        take-append payload rest,
        p,
        left_over payload rest,
      )
      refl

-- A frame is taken whole from the front of what has come, as the object that its payload reads as; the
-- bytes after it are left.
pub take_frame-frame :
    {A : Type 0} (parse : Text → Option A) (payload bytes rest : Text) (a : A)
    → frame payload ≡ some bytes
    → parse payload ≡ some a
    → take_frame parse (bytes ++ rest) ≡ taken a rest
unfolding frame take_frame
take_frame-frame {A} parse payload bytes rest a h p =
    elim (Bool-cases (nat_beq (length payload) 0 || ltb max_packet_bytes (length payload))) [
      | inl refused ↦ absurd (none-ne-some bytes (rw refused at h))
      | inr fine ↦
          let n = length payload in
          let head = append_u32 [] n in
          let e : head ++ (payload ++ rest) ≡ bytes ++ rest =
            sym (append_assoc head payload rest)
            ∙ ap (λ t. t ++ rest) (some-injective _ _ (rw fine at h)) in
          subst (λ t. take_frame parse t ≡ taken a rest) e (taken_whole parse payload rest a fine p)
    ]
