-- ===== src/Protocol/Number.antt =====
-- The decimal numbers of common/drawing_protocol.cpp: `parseInt64`, `parseU32`, and `std::to_string`,
-- which the messages are written with.
pub mod RoundTrip
pub mod Sound
use disquisition.Common.{
  ℕ, zero, suc, ◌+◌, ◌-◌, ◌*◌, ◌/◌, ◌%◌, ◌^◌, ◌≡◌, refl, Bool, true, false, ◌||◌, Option, none,
  some, List, [], ◌∷◌, ◌++◌, arith, Text, codes, ltb, nat_beq, length, if◌then◌else◌, ◌>>=◌, ◌>>◌,
  guard,
}
use disquisition.Common.Int.{ℤ, pos, negsuc, neg_ℕ}

-- Digits, most significant first. The first argument is fuel.
unfoldable pub digits : ℕ → ℕ → Text
digits zero n = []
digits (suc f) n =
    let more = digits f (n / 10) ++ (b'0' + n % 10) ∷ [] in
    if ltb n 10 then (b'0' + n) ∷ [] else more

-- `std::to_string` of an unsigned and of a signed number. A number is more than its count of digits.
unfoldable pub nat_to_string : ℕ → Text
unfolding digits
nat_to_string n = digits (suc n) n

unfoldable pub to_string : ℤ → Text
unfolding nat_to_string
to_string (pos n) = nat_to_string n
to_string (negsuc n) = b'-' ∷ nat_to_string (suc n)

abbrev pub max_digits : ℕ
max_digits = 18

-- The loop over the digits, with `value` so far.
unfoldable pub scan : Text → ℕ → Option ℕ
scan [] value = some value
scan (c ∷ s) value = if ltb c b'0' || ltb b'9' c then none else scan s (value * 10 + (c - b'0'))

-- What follows the sign.
unfoldable pub magnitude : Text → Option ℕ
unfolding scan
magnitude s = if nat_beq (length s) 0 || ltb max_digits (length s) then none else scan s 0

-- `none` is the result `false`.
unfoldable pub parse_int64 : Text → Option ℤ
parse_int64 [] = none
parse_int64 (c ∷ s) =
    if nat_beq c b'-'
    then (do value ← magnitude s; some (neg_ℕ value))
    else if nat_beq c b'+'
    then (do value ← magnitude s; some (pos value))
    else (do value ← magnitude (c ∷ s); some (pos value))

abbrev pub max_u32 : ℕ
max_u32 = 2 ^ 32 - 1

-- An integer as a uint32; the text had no minus sign.
unfoldable pub as_u32 : ℤ → Option ℕ
as_u32 (pos n) = if ltb max_u32 n then none else some n
as_u32 (negsuc n) = none

unfoldable pub parse_u32 : Text → Option ℕ
unfolding as_u32
parse_u32 [] = none
parse_u32 (c ∷ s) =
    if nat_beq c b'-' || nat_beq c b'+'
    then none
    else (do value ← parse_int64 (c ∷ s); as_u32 value)

signed_number : parse_int64 (codes "-120") ≡ some (negsuc 119)
unfolding parse_int64 magnitude
signed_number = refl

printed_number : to_string (negsuc 119) ≡ codes "-120"
unfolding to_string
printed_number = refl

signed_u32 : parse_u32 (codes "+7") ≡ none
unfolding parse_u32
signed_u32 = refl
