-- ===== src/Protocol/Number/Sound.antt =====
-- What the parsers of numbers accept, against an independent reading by place values.
use native.Mathlib.Nat.{pow-suc, pow-le-pow_right}
use disquisition.Common.{
  ℕ, suc, ◌+◌, ◌-◌, ◌*◌, ◌^◌, ◌≤◌, ◌<◌, ◌≡◌, ◌||◌, some, [], ◌∷◌, arith, Text, nat_beq, length,
  if◌then◌else◌, All,
}
use disquisition.Common.Int.{ℤ, pos, neg_ℕ, abs}
use disquisition.Protocol.Number.{scan, magnitude, parse_int64, max_digits, max_u32, parse_u32}

abbrev pub IsDigit : ℕ → Type 0
IsDigit c = (b'0' ≤ c) × (c ≤ b'9')

-- Each digit counts by its place.
abbrev pub place_value : Text → ℕ
place_value [] = 0
place_value (c ∷ s) = (c - b'0') * 10 ^ length s + place_value s

-- One to eighteen digits.
abbrev pub IsNumeral : Text → Type 0
IsNumeral s = All IsDigit s × (1 ≤ length s) × (length s ≤ max_digits)

place_shift : (v d k : ℕ) → (v * 10 + d) * 10 ^ k ≡ v * 10 ^ suc k + d * 10 ^ k
place_shift v d k = rw (pow-suc 10 k) (grind arith)

scan_sound :
    (s : Text) (v n : ℕ)
    → scan s v ≡ some n
    → All IsDigit s × (n ≡ v * 10 ^ length s + place_value s)
unfolding scan
scan_sound [] v n h = (tt, ground arith)
scan_sound (c ∷ s) v n h =
    ground (arith, place_shift v (c - b'0') (length s), scan_sound s (v * 10 + (c - b'0')) n)

scan_complete :
    (s : Text) (v : ℕ) → All IsDigit s → scan s v ≡ some (v * 10 ^ length s + place_value s)
unfolding scan
scan_complete [] v h = ground arith
scan_complete (c ∷ s) v (hc, hs) =
    ground (arith, place_shift v (c - b'0') (length s), scan_complete s (v * 10 + (c - b'0')) hs)

magnitude_sound : (s : Text) (n : ℕ) → magnitude s ≡ some n → IsNumeral s × (n ≡ place_value s)
unfolding magnitude
magnitude_sound s n h = ground (arith, scan_sound s 0 n)

magnitude_complete : (s : Text) → IsNumeral s → magnitude s ≡ some (place_value s)
unfolding magnitude
magnitude_complete s h = ground (arith, scan_complete s 0 h.0)

-- Digits stay below the power of ten that their count gives.
place_value-lt : (s : Text) → All IsDigit s → place_value s < 10 ^ length s
place_value-lt [] h = omega arith
place_value-lt (c ∷ s) (hc, hs) =
    let ih = place_value-lt s hs in rw (pow-suc 10 (length s)) (grind arith)

IsNumeral-bound : (s : Text) → IsNumeral s → place_value s < 10 ^ max_digits
IsNumeral-bound s h = omega (
  arith,
  place_value-lt s h.0,
  pow-le-pow_right {n = 10} (omega arith) {i = length s} {j = max_digits} h.2,
)

-- The text behind its sign, and the number that a whole text spells.
abbrev pub unsigned : Text → Text
unsigned [] = []
unsigned (c ∷ s) = if nat_beq c b'-' || nat_beq c b'+' then s else c ∷ s

abbrev pub spelled : Text → ℤ
spelled [] = pos 0
spelled (c ∷ s) =
    if nat_beq c b'-'
    then neg_ℕ (place_value (unsigned (c ∷ s)))
    else pos (place_value (unsigned (c ∷ s)))

-- An accepted text is an optional sign and one to eighteen digits; the result is the number that
-- they spell by place values, and lies within eighteen digits, so that no int64 overflows.
pub parse_int64_sound :
    (s : Text) (z : ℤ)
    → parse_int64 s ≡ some z
    → IsNumeral (unsigned s) × (z ≡ spelled s) × (abs z < 10 ^ max_digits)
unfolding parse_int64
parse_int64_sound [] z h = cc
parse_int64_sound (c ∷ s) z h = ground (
  arith,
  magnitude_sound s (abs z),
  magnitude_sound (c ∷ s) (abs z),
  IsNumeral-bound (unsigned (c ∷ s)),
)

-- Every text of one to eighteen digits, after an optional sign, is accepted, as the number it spells.
pub parse_int64_complete : (s : Text) → IsNumeral (unsigned s) → parse_int64 s ≡ some (spelled s)
unfolding parse_int64
parse_int64_complete [] h = absurd (omega arith)
parse_int64_complete (c ∷ s) h = ground (arith, magnitude_complete (unsigned (c ∷ s)))

-- A text that is accepted as a uint32 is one to eighteen digits, with no sign, that spell a number
-- within 32 bits; the result is that number.
pub parse_u32_sound :
    (s : Text) (n : ℕ) → parse_u32 s ≡ some n → IsNumeral s × (n ≡ place_value s) × (n ≤ max_u32)
unfolding parse_u32
parse_u32_sound [] n h = cc
parse_u32_sound (c ∷ s) n h = ground (arith, parse_int64_sound (c ∷ s) (pos n))
