-- ===== src/Images/Split.antt =====
-- `splitImage`, and the limits of common/media_limits.h.
use disquisition.Common.{
  ℕ, zero, suc, ◌+◌, ◌-◌, ◌*◌, ◌/◌, ◌≤◌, ◌≡◌, refl, List, [], ◌∷◌, ◌++◌, arith, Text, ltb, ltb→lt,
  length, take, drop, if◌then◌else◌, take-append-drop, length-take, length-drop, length-append,
  drop_past, drop-drop, Bool-cases, inl, inr, ◌⊎◌, ap, sym, min,
}

abbrev pub image_chunk_size : ℕ
image_chunk_size = 12 * 1024

abbrev pub max_image_bytes : ℕ
max_image_bytes = 4 * 1024 * 1024

-- Rounded up.
abbrev pub max_image_chunks : ℕ
max_image_chunks = (max_image_bytes + image_chunk_size - 1) / image_chunk_size

-- `for (offset = 0; offset < bytes.size(); offset += kChunkSize)`. The first argument is fuel; a round
-- for each byte is more than enough.
split_from : ℕ → Text → ℕ → List Text
split_from zero bytes offset = []
split_from (suc f) bytes offset =
    let rest = split_from f bytes (offset + image_chunk_size) in
    if ltb offset (length bytes) then take image_chunk_size (drop offset bytes) ∷ rest else []

unfoldable pub split_image : Text → List Text
unfolding split_from
split_image bytes = split_from (length bytes) bytes 0

-- The chunks laid end to end.
abbrev pub joined : List Text → Text
joined [] = []
joined (c ∷ cs) = c ++ joined cs

joined-split_from :
    (f : ℕ) (bytes : Text) (offset : ℕ)
    → length bytes ≤ offset + f * image_chunk_size
    → joined (split_from f bytes offset) ≡ drop offset bytes
unfolding split_from
joined-split_from zero bytes offset h = sym (drop_past offset bytes (omega arith))
joined-split_from (suc f) bytes offset h = elim (Bool-cases (ltb offset (length bytes))) [
  | inl more ↦
      rw
        (
          more,
          joined-split_from f bytes (offset + image_chunk_size) (omega arith),
          ← drop-drop offset image_chunk_size bytes,
        )
        (take-append-drop image_chunk_size (drop offset bytes))
  | inr done ↦ rw done (sym (drop_past offset bytes (ground arith)))
]

-- The chunks of an image, laid end to end, are the image.
pub joined-split_image : (bytes : Text) → joined (split_image bytes) ≡ bytes
unfolding split_image
joined-split_image bytes = joined-split_from (length bytes) bytes 0 (omega arith)

-- Every chunk but the last is full, and the last holds a byte at least.
abbrev pub IsChunked : List Text → Type 0
IsChunked [] = Unit
IsChunked (c ∷ []) = (1 ≤ length c) × (length c ≤ image_chunk_size)
IsChunked (c ∷ d ∷ cs) = (length c ≡ image_chunk_size) × IsChunked (d ∷ cs)

length-chunk :
    (bytes : Text) (offset : ℕ)
    → length (take image_chunk_size (drop offset bytes))
      ≡ min image_chunk_size (length bytes - offset)
length-chunk bytes offset =
    omega (arith, length-take image_chunk_size (drop offset bytes), length-drop offset bytes)

split_from_past :
    (f : ℕ) (bytes : Text) (offset : ℕ) → length bytes ≤ offset → split_from f bytes offset ≡ []
unfolding split_from
split_from_past zero bytes offset h = refl
split_from_past (suc f) bytes offset h = ground arith

IsChunked-cons :
    (c : Text) (cs : List Text)
    → (1 ≤ length c) × (length c ≤ image_chunk_size)
    → ((length c ≡ image_chunk_size) ⊎ (cs ≡ []))
    → IsChunked cs
    → IsChunked (c ∷ cs)
IsChunked-cons c [] size full h = size
IsChunked-cons c (d ∷ cs) size (inl full) h = (full, h)
IsChunked-cons c (d ∷ cs) size (inr e) h = cc

full_or_last :
    (f : ℕ) (bytes : Text) (offset : ℕ)
    → (length (take image_chunk_size (drop offset bytes)) ≡ image_chunk_size)
      ⊎ (split_from f bytes (offset + image_chunk_size) ≡ [])
full_or_last f bytes offset = elim (Bool-cases (ltb (offset + image_chunk_size) (length bytes))) [
  | inl more ↦ inl (omega (arith, ltb→lt _ _ more, length-chunk bytes offset))
  | inr done ↦ inr (split_from_past f bytes (offset + image_chunk_size) (ground arith))
]

split_from-IsChunked : (f : ℕ) (bytes : Text) (offset : ℕ) → IsChunked (split_from f bytes offset)
unfolding split_from
split_from-IsChunked zero bytes offset = tt
split_from-IsChunked (suc f) bytes offset = elim (Bool-cases (ltb offset (length bytes))) [
  | inl more ↦ rw more (
      IsChunked-cons _ _ (omega (arith, ltb→lt _ _ more, length-chunk bytes offset))
        (full_or_last f bytes offset) (split_from-IsChunked f bytes (offset + image_chunk_size)))
  | inr done ↦ rw done tt
]

pub split_image-IsChunked : (bytes : Text) → IsChunked (split_image bytes)
unfolding split_image
split_image-IsChunked bytes = split_from-IsChunked (length bytes) bytes 0

-- The count of chunks is the size divided by the size of a chunk, rounded up.
pub length-IsChunked :
    (cs : List Text)
    → IsChunked cs
    → length cs ≡ (length (joined cs) + image_chunk_size - 1) / image_chunk_size
length-IsChunked [] h = omega arith
length-IsChunked (c ∷ []) h = omega (arith, length-append c [])
length-IsChunked (c ∷ d ∷ cs) (full, h) =
    omega (arith, full, length-append c (joined (d ∷ cs)), length-IsChunked (d ∷ cs) h)

-- An image within the limit is cut into at most as many chunks as an assembler takes.
pub split_image-le :
    (bytes : Text) → length bytes ≤ max_image_bytes → length (split_image bytes) ≤ max_image_chunks
split_image-le bytes h = omega (
  arith,
  length-IsChunked (split_image bytes) (split_image-IsChunked bytes),
  ap length (joined-split_image bytes),
)
