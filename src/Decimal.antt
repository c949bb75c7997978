-- ===== src/Decimal.antt =====
-- Go's `strconv.Itoa` and `strconv.Atoi`, which write ports into the registry's metadata and read
-- them and the environment's numbers back. An `int` has 64 bits.
pub mod RoundTrip
use Prim.Native.Char.{Char, code}
use lib_service_discovery.Common.{
  ℕ, zero, suc, ◌+◌, ◌-◌, ◌*◌, ◌/◌, ◌%◌, ◌^◌, ◌≤◌, ◌<◌, String, ◌<>◌, ◌≡◌, refl, Bool, true, false,
  ◌&&◌, Option, none, some, ltb, leb, nat_eq, if◌then◌else◌,
}
use lib_service_discovery.Common.Int.{ℤ, pos, negsuc}

-- The character of a text at a place.
char_at : String → ℕ → Char
char_at String.[] n = "0"
char_at (String.◌∷◌ c s) zero = c
char_at (String.◌∷◌ c s) (suc n) = char_at s n

digit : ℕ → Char
unfolding char_at
digit d = char_at "0123456789" d

-- Writes the digits of `n` before `out`. As many rounds as the number itself are always enough.
emit : ℕ → ℕ → String → String
emit zero n out = out
emit (suc f) n out =
    let rest = emit f (n / 10) (String.◌∷◌ (digit (n % 10)) out) in
    if ltb n 10 then String.◌∷◌ (digit n) out else rest

format_nat : ℕ → String
unfolding emit digit
format_nat n = emit (suc n) n ""

-- `strconv.Itoa`
unfoldable pub itoa : ℤ → String
unfolding format_nat
itoa (pos n) = format_nat n
itoa (negsuc n) = String.◌∷◌ "-" (format_nat (suc n))

is_digit : Char → Bool
is_digit c = leb b'0' (code c) && leb (code c) b'9'

scan : String → ℕ → Option ℕ
unfolding is_digit
scan String.[] acc = some acc
scan (String.◌∷◌ c s) acc = if is_digit c then scan s (acc * 10 + (code c - b'0')) else none

-- A sign must be followed by a digit.
digits : String → Option ℕ
unfolding scan
digits String.[] = none
digits (String.◌∷◌ c s) = scan (String.◌∷◌ c s) 0

-- 2 ^ 63, one more than the greatest `int`.
abbrev pub int_limit : ℕ
int_limit = 9223372036854775808

-- The range check: an `int` from its magnitude.
to_int : Bool → Option ℕ → Option ℤ
to_int neg none = none
to_int false (some n) = if ltb n int_limit then some (pos n) else none
to_int true (some zero) = some (pos zero)
to_int true (some (suc n)) = if ltb n int_limit then some (negsuc n) else none

-- `strconv.Atoi`; `none` is its error.
unfoldable pub atoi : String → Option ℤ
unfolding digits to_int
atoi String.[] = none
atoi (String.◌∷◌ c s) =
    if nat_eq (code c) b'-'
    then to_int true (digits s)
    else if nat_eq (code c) b'+'
    then to_int false (digits s)
    else to_int false (digits (String.◌∷◌ c s))

-- The integers that a Go `int` holds.
abbrev pub IsInt : ℤ → Type 0
IsInt (pos n) = n < int_limit
IsInt (negsuc n) = n < int_limit

itoa_samples : (itoa (pos 8443) ≡ "8443") × (itoa (pos 0) ≡ "0") × (itoa (negsuc 9) ≡ "-10")
unfolding itoa
itoa_samples = (refl, refl, refl)

atoi_samples :
    (atoi "+80" ≡ some (pos 80))
    × (atoi "80a" ≡ none)
    × (atoi "-" ≡ none)
    × (atoi "-10" ≡ some (negsuc 9))
unfolding atoi
atoi_samples = (refl, refl, refl, refl)
