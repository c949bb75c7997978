-- ===== src/Platform.antt =====
-- What config.go uses of Go's `time`, `net/url`, `strings` and `strconv`. Durations are read with
-- floating-point fractions, URLs by the grammar of RFC 3986, and letters are folded by Unicode's
-- tables: these are parameters, with the laws that Go documents. The rest is written out.
use Prim.Native.Char.{Char, code}
use lib_service_discovery.Common.{
  ◌≤◌, ◌∙◌, ap, arith, if_false, String, ◌≡◌, refl, Bool, true, false, ◌&&◌, ◌||◌, Option, none,
  some, ◌==◌, is_empty, leb, nat_eq, if◌then◌else◌,
}
use lib_service_discovery.Common.Int.{ℤ}
use lib_service_discovery.Decimal.{IsInt}
use lib_service_discovery.Decimal.RoundTrip.{IsNumeral}

-- `url.URL`, by the answers of the methods that are used.
pub record Url : Type 0 where
  pub scheme : String
  pub host : String
  pub hostname : String
  pub port : String

pub record Platform : Type 0 where
  -- `time.ParseDuration`, in nanoseconds; `none` is its error
  pub parse_duration : String → Option ℤ
  -- `Duration.String`
  pub duration_string : ℤ → String
  -- `url.Parse`
  pub parse_url : String → Option Url
  -- `strings.ToLower`
  pub to_lower : String → String

-- Unicode's white space, as `unicode.IsSpace` has it.
is_space : Char → Bool
is_space c =
    (leb 9 (code c) && leb (code c) 13)
    || (nat_eq (code c) 32)
    || (nat_eq (code c) 0x85)
    || (nat_eq (code c) 0xa0)
    || (nat_eq (code c) 0x1680)
    || (leb 0x2000 (code c) && leb (code c) 0x200a)
    || (leb 0x2028 (code c) && leb (code c) 0x2029)
    || (nat_eq (code c) 0x202f)
    || (nat_eq (code c) 0x205f)
    || (nat_eq (code c) 0x3000)

trim_left : String → String
unfolding is_space
trim_left String.[] = ""
trim_left (String.◌∷◌ c s) = if is_space c then trim_left s else String.◌∷◌ c s

trim_right : String → String
unfolding is_space
trim_right String.[] = ""
trim_right (String.◌∷◌ c s) =
    let rest = trim_right s in if is_space c && is_empty rest then "" else String.◌∷◌ c rest

-- `strings.TrimSpace`
unfoldable pub trim_space : String → String
unfolding trim_left trim_right
trim_space s = trim_right (trim_left s)

-- `strconv.ParseBool`; `none` is its error.
unfoldable pub parse_bool : String → Option Bool
parse_bool s =
    if s == "1" || s == "t" || s == "T" || s == "TRUE" || s == "true" || s == "True"
    then some true
    else if s == "0" || s == "f" || s == "F" || s == "FALSE" || s == "false" || s == "False"
    then some false
    else none

-- A URL that `url.Parse` reads has a host only behind `//`, and a host name holds no slash.
abbrev pub has_host : Option Url → Bool
has_host none = false
has_host (some u) = if is_empty u.scheme || is_empty u.host then false else true

-- What Go documents of the parameters.
pub record IsGo (p : Platform) : Type 0 where
  -- A duration has 64 bits.
  pub parse-IsInt : (s : String) (d : ℤ) → p.parse_duration s ≡ some d → IsInt d
  -- `Duration.String` writes what `ParseDuration` reads.
  pub parse-string : (d : ℤ) → IsInt d → p.parse_duration (p.duration_string d) ≡ some d
  -- It writes no space around it.
  pub trim-string : (d : ℤ) → IsInt d → trim_space (p.duration_string d) ≡ p.duration_string d
  -- The empty text is no duration.
  pub parse_empty : p.parse_duration "" ≡ none
  -- The host name of a URL is not itself a URL with a scheme and a host.
  pub hostname_plain :
      (s : String) (u : Url) → p.parse_url s ≡ some u → has_host (p.parse_url u.hostname) ≡ false

trim_sample : trim_space "  Internal\t " ≡ "Internal"
unfolding trim_space
trim_sample = refl

space-numeral : (c : Char) → b'-' ≤ code c → code c ≤ b'9' → is_space c ≡ false
unfolding is_space
space-numeral c h k = ground arith

trim_left-IsNumeral : (s : String) → IsNumeral s → trim_left s ≡ s
unfolding trim_left
trim_left-IsNumeral String.[] h = refl
trim_left-IsNumeral (String.◌∷◌ c s) h = if_false (is_space c) _ (space-numeral c h.0 h.1)

trim_right-IsNumeral : (s : String) → IsNumeral s → trim_right s ≡ s
unfolding trim_right
trim_right-IsNumeral String.[] h = refl
trim_right-IsNumeral (String.◌∷◌ c s) h =
    ap (λ b. if b && is_empty (trim_right s) then "" else String.◌∷◌ c (trim_right s))
      (space-numeral c h.0 h.1)
    ∙ ap (String.◌∷◌ c) (trim_right-IsNumeral s h.2)

-- No space is trimmed from a number.
pub trim_space-IsNumeral : (s : String) → IsNumeral s → trim_space s ≡ s
unfolding trim_space
trim_space-IsNumeral s h = ap trim_right (trim_left-IsNumeral s h) ∙ trim_right-IsNumeral s h
