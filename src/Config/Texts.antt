-- ===== src/Config/Texts.antt =====
-- What config/config.go uses of Go's strings and strconv packages, on texts as lists of characters.
use Prim.Native.Char.{Char, code}
use Prim.Native.Nat.{◌*◌}
use floodguard_rate_limiter.Prelude.{
  ℕ, zero, suc, ◌+◌, ◌-◌, String, Bool, true, false, Option, none, some, List, [], ◌∷◌, text_eq,
  ◌≡◌, if◌then◌else◌, ◌||◌, ◌&&◌, leb, ◌==◌,
}
use floodguard_rate_limiter.Prelude.Int.{ℤ, pos, negsuc, leb_ℤ}
use floodguard_rate_limiter.Errors.{Result, ok, err, foreign}

-- No character of the text has the code.
abbrev pub Lacks : ℕ → String → Type 0
Lacks n String.[] = Unit {0}
Lacks n (String.◌∷◌ c s) = ((code c == n) ≡ false) × Lacks n s

-- `unicode.IsSpace`
unfoldable pub is_space : Char → Bool
is_space c =
    let n = code c in
    leb 9 n && leb n 13
    || n == 32
    || n == 133
    || n == 160
    || n == 5760
    || leb 8192 n && leb n 8202
    || n == 8232
    || n == 8233
    || n == 8239
    || n == 8287
    || n == 12288

unfoldable pub trim_left : String → String
trim_left String.[] = String.[]
trim_left (String.◌∷◌ c s) = let rest = trim_left s in if is_space c then rest else String.◌∷◌ c s

unfoldable pub trim_right : String → String
trim_right String.[] = String.[]
trim_right (String.◌∷◌ c s) =
    let rest = trim_right s in
    if text_eq rest "" && is_space c then String.[] else String.◌∷◌ c rest

-- `strings.TrimSpace`
unfoldable pub trim_space : String → String
unfolding trim_left trim_right
trim_space s = trim_right (trim_left s)

-- A character before the first of the parts.
unfoldable pub attach : Char → List String → List String
attach c [] = String.◌∷◌ c String.[] ∷ []
attach c (p ∷ ps) = String.◌∷◌ c p ∷ ps

-- `strings.Split` at a separator of one character, given by its code.
unfoldable pub split : ℕ → String → List String
unfolding attach
split sep String.[] = String.[] ∷ []
split sep (String.◌∷◌ c s) =
    let rest = split sep s in if code c == sep then String.[] ∷ rest else attach c rest

abbrev pub before_first : Char → Option (String × String) → Option (String × String)
before_first c none = none
before_first c (some (s, t)) = some (String.◌∷◌ c s, t)

-- `strings.SplitN(s, sep, 2)`: what is before and after the first separator, or no two parts.
unfoldable pub split_two : ℕ → String → Option (String × String)
split_two sep String.[] = none
split_two sep (String.◌∷◌ c s) =
    let rest = split_two sep s in if code c == sep then some (String.[], s) else before_first c rest

-- The number that decimal digits make after those read so far.
unfoldable pub read_digits : ℕ → String → Option ℕ
read_digits n String.[] = some n
read_digits n (String.◌∷◌ c s) =
    let rest = read_digits (n * 10 + (code c - 48)) s in
    if leb 48 (code c) && leb (code c) 57 then rest else none

abbrev pub signed : Bool → ℕ → ℤ
signed false n = pos n
signed true zero = pos 0
signed true (suc n) = negsuc n

-- The value is in the range of an int64.
abbrev pub ranged : ℤ → Result ℤ
ranged v =
    if leb_ℤ v (pos 9223372036854775807) && leb_ℤ (negsuc 9223372036854775807) v
    then ok v
    else err (foreign "value out of range")

abbrev pub read_magnitude : Bool → String → Result ℤ
read_magnitude negative s =
    if text_eq s "" then err (foreign "invalid syntax") else elim (read_digits 0 s) [
      | none ↦ err (foreign "invalid syntax")
      | some n ↦ ranged (signed negative n)
    ]

-- `strconv.ParseInt(s, 10, 64)`, and `strconv.Atoi` on a machine of 64 bits.
unfoldable pub parse_int : String → Result ℤ
unfolding read_digits
parse_int String.[] = err (foreign "invalid syntax")
parse_int (String.◌∷◌ c s) =
    if code c == 45
    then read_magnitude true s
    else if code c == 43
    then read_magnitude false s
    else read_magnitude false (String.◌∷◌ c s)

abbrev one_of : String → List String → Bool
one_of s [] = false
one_of s (t ∷ ts) = text_eq s t || one_of s ts

-- `strconv.ParseBool`
unfoldable pub parse_bool : String → Result Bool
parse_bool s =
    if one_of s ("1" ∷ "t" ∷ "T" ∷ "true" ∷ "TRUE" ∷ "True" ∷ [])
    then ok true
    else if one_of s ("0" ∷ "f" ∷ "F" ∷ "false" ∷ "FALSE" ∷ "False" ∷ [])
    then ok false
    else err (foreign "invalid syntax")
