-- ===== src/Protocol/Records/Fields.antt =====
-- Single fields, there and back.
use disquisition.Common.{
  ℕ, suc, ◌^◌, ◌≤◌, ◌<◌, ◌≡◌, refl, ap, some, List, [], ◌∷◌, map, arith, Text, length, All,
}
use disquisition.Common.Int.{ℤ, pos, negsuc, abs, ◌≤ℤ◌}
use disquisition.Protocol.Number.{nat_to_string, to_string, parse_u32, max_u32, max_digits}
use disquisition.Protocol.Number.RoundTrip.{parse_u32-nat_to_string, parse_int64-to_string}
use disquisition.Protocol.Number.Sound.{parse_u32_sound, parse_int64_sound}
use disquisition.Protocol.Records.{parse_limited, parse_epoch, parse_rgb, parse_strokes}

-- 0 ≤ z ≤ limit
abbrev pub InRange : ℕ → ℤ → Type 0
InRange limit z = (pos 0 ≤ℤ z) × (z ≤ℤ pos limit)

abbrev pub IsEpoch : ℤ → Type 0
IsEpoch z = (pos 1 ≤ℤ z) × (abs z < 10 ^ max_digits)

abbrev pub IsRgb : ℤ → Type 0
IsRgb z = (negsuc 0 ≤ℤ z) × (z ≤ℤ pos 0xffffff)

pub parse_limited-to_string :
    (limit : ℕ) (z : ℤ)
    → limit ≤ max_u32
    → InRange limit z
    → parse_limited limit (to_string z) ≡ some z
unfolding parse_limited to_string
parse_limited-to_string limit (pos n) h k = ground (arith, parse_u32-nat_to_string n)
parse_limited-to_string limit (negsuc n) h k = absurd (omega arith)

pub parse_epoch-to_string : (z : ℤ) → IsEpoch z → parse_epoch (to_string z) ≡ some z
unfolding parse_epoch
parse_epoch-to_string z h = ground (arith, parse_int64-to_string z)

pub parse_rgb-to_string : (z : ℤ) → IsRgb z → parse_rgb (to_string z) ≡ some z
unfolding parse_rgb
parse_rgb-to_string z h = ground (arith, parse_int64-to_string z)

pub parse_strokes-map :
    (ids : List ℕ) → All (λ n. n ≤ max_u32) ids → parse_strokes (map nat_to_string ids) ≡ some ids
unfolding parse_strokes
parse_strokes-map [] h = refl
parse_strokes-map (n ∷ ids) (hn, hs) = rw (parse_u32-nat_to_string n hn, parse_strokes-map ids hs)

pub parse_limited_sound :
    (limit : ℕ) (s : Text) (z : ℤ) → parse_limited limit s ≡ some z → InRange limit z
unfolding parse_limited
parse_limited_sound limit s z h = ground arith

pub parse_epoch_sound : (s : Text) (z : ℤ) → parse_epoch s ≡ some z → IsEpoch z
unfolding parse_epoch
parse_epoch_sound s z h = ground (arith, parse_int64_sound s z)

pub parse_rgb_sound : (s : Text) (z : ℤ) → parse_rgb s ≡ some z → IsRgb z
unfolding parse_rgb
parse_rgb_sound s z h = ground arith

parse_strokes_split :
    (f : Text) (fs : List Text) (ids : List ℕ)
    → parse_strokes (f ∷ fs) ≡ some ids
    → (n : ℕ) × (rest : List ℕ) × (parse_u32 f ≡ some n)
      × (parse_strokes fs ≡ some rest)
      × (ids ≡ n ∷ rest)
unfolding parse_strokes
parse_strokes_split f fs ids h = ground arith

pub parse_strokes_sound :
    (fs : List Text) (ids : List ℕ)
    → parse_strokes fs ≡ some ids
    → All (λ n. n ≤ max_u32) ids × (length ids ≡ length fs)
parse_strokes_sound [] ids h =
    let e : ids ≡ [] = unfold parse_strokes in ground arith in rw e (tt, refl)
parse_strokes_sound (f ∷ fs) ids h =
    let (n, rest, first, others, e) = parse_strokes_split f fs ids h in
    let (small, count) = parse_strokes_sound fs rest others in
    rw e (((parse_u32_sound f n first).2, small), ap suc count)
