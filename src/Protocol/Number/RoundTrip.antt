-- ===== src/Protocol/Number/RoundTrip.antt =====
-- A printed number is read back.
use disquisition.Common.{
  ℕ, zero, suc, ◌+◌, ◌-◌, ◌*◌, ◌/◌, ◌%◌, ◌^◌, ◌≤◌, ◌<◌, ◌≡◌, ◌≢◌, refl, some, [], ◌∷◌, ◌++◌, arith,
  Text, ltb, length, length-append, ◌>>=◌, Bool-cases, lt→ltb, inl, inr,
}
use native.Mathlib.Nat.{pow-suc}
use disquisition.Common.Int.{ℤ, pos, negsuc, abs}
use disquisition.Protocol.Number.{
  digits, nat_to_string, to_string, max_digits, scan, magnitude, parse_int64, max_u32, parse_u32,
}

scan-append : (s t : Text) (v : ℕ) → scan (s ++ t) v ≡ (scan s v >>= λ w. scan t w)
unfolding scan
scan-append [] t v = refl
scan-append (c ∷ s) t v = ground (arith, scan-append s t (v * 10 + (c - b'0')))

-- Reading the digits of `n` gives `n`, with fuel above `n`.
pub scan-digits : (f n : ℕ) → n < f → scan (digits f n) 0 ≡ some n
unfolding digits scan
scan-digits zero n h = elim h [ ]
scan-digits (suc f) n h = elim (Bool-cases (ltb n 10)) [
  | inl small ↦ rw small (ground arith)
  | inr big ↦
      rw (big, scan-append (digits f (n / 10)), scan-digits f (n / 10) (ground arith))
        (ground arith)
]

-- The count of digits.
length-digits : (k f n : ℕ) → n < 10 ^ suc k → length (digits f n) ≤ suc k
unfolding digits
length-digits k zero n h = omega arith
length-digits zero (suc f) n h = rw (lt→ltb n 10 h) (omega arith)
length-digits (suc k) (suc f) n h = ground (
  arith,
  pow-suc 10 (suc k),
  length-digits k f (n / 10),
  length-append (digits f (n / 10)) ((b'0' + n % 10) ∷ []),
)

length-digits_pos : (f n : ℕ) → 0 < length (digits (suc f) n)
unfolding digits
length-digits_pos f n = ground (arith, length-append (digits f (n / 10)) ((b'0' + n % 10) ∷ []))

-- What a printed number begins with is no sign.
abbrev IsPlain : Text → Type 0
IsPlain [] = Unit
IsPlain (c ∷ s) = (c ≢ b'-') × (c ≢ b'+')

IsPlain-append : (s t : Text) → IsPlain s → IsPlain t → IsPlain (s ++ t)
IsPlain-append [] t hs ht = ht
IsPlain-append (c ∷ s) t hs ht = hs

digits-IsPlain : (f n : ℕ) → IsPlain (digits f n)
unfolding digits
digits-IsPlain zero n = tt
digits-IsPlain (suc f) n = elim (Bool-cases (ltb n 10)) [
  | inl small ↦ rw small (omega arith, omega arith)
  | inr big ↦
      rw big (
        IsPlain-append (digits f (n / 10)) _ (digits-IsPlain f (n / 10)) (omega arith, omega arith))
]

-- The printed number is read by the loop over its digits, at any length that the source accepts.
magnitude-nat_to_string : (n : ℕ) → n < 10 ^ max_digits → magnitude (nat_to_string n) ≡ some n
unfolding magnitude nat_to_string
magnitude-nat_to_string n h =
    ground (arith, length-digits_pos n n, length-digits 17 (suc n) n h, scan-digits (suc n) n)

-- A text that begins with no sign is read as a magnitude.
parse_int64_plain :
    (s : Text) (n : ℕ) → IsPlain s → magnitude s ≡ some n → parse_int64 s ≡ some (pos n)
unfolding parse_int64
parse_int64_plain [] n p h = absurd (unfold magnitude in cc)
parse_int64_plain (c ∷ s) n p h = ground (arith, p.0, p.1)

parse_int64-nat_to_string :
    (n : ℕ) → n < 10 ^ max_digits → parse_int64 (nat_to_string n) ≡ some (pos n)
parse_int64-nat_to_string n h =
    parse_int64_plain (nat_to_string n) n (unfold nat_to_string in digits-IsPlain (suc n) n)
      (magnitude-nat_to_string n h)

-- Every int64 of at most 18 digits is read back from what `std::to_string` prints, with its sign.
pub parse_int64-to_string : (z : ℤ) → abs z < 10 ^ max_digits → parse_int64 (to_string z) ≡ some z
unfolding to_string
parse_int64-to_string (pos n) h = parse_int64-nat_to_string n h
parse_int64-to_string (negsuc n) h =
    unfold parse_int64 in rw (magnitude-nat_to_string (suc n) h) (ground arith)

parse_u32_plain :
    (s : Text) (n : ℕ)
    → IsPlain s
    → parse_int64 s ≡ some (pos n)
    → n ≤ max_u32
    → parse_u32 s ≡ some n
unfolding parse_u32
parse_u32_plain [] n p h k = unfold parse_int64 in cc
parse_u32_plain (c ∷ s) n p h k = ground (arith, p.0, p.1)

-- Every uint32 is read back from what `std::to_string` prints.
pub parse_u32-nat_to_string : (n : ℕ) → n ≤ max_u32 → parse_u32 (nat_to_string n) ≡ some n
parse_u32-nat_to_string n h =
    parse_u32_plain (nat_to_string n) n (unfold nat_to_string in digits-IsPlain (suc n) n)
      (parse_int64-nat_to_string n (omega arith)) h
