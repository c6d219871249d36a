-- ===== src/Frontend/Js.antt =====
-- What the pages take from the browser: double-precision numbers and the texts that depend on
-- Unicode tables, the locale or the JSON printer. The numbers are abstract, since a double is not a
-- whole number; a whole number up to 2^53 enters by `integer`.
use Prim.Native.Char.{code}
use Prim.Native.String.{String}
use quark_cache.Common.{
  ℕ, ◌+◌, ◌-◌, ◌*◌, ◌≡◌, Bool, true, false, ◌&&◌, ◌||◌, Option, none, some, ltb, leb, ◌==◌,
  if◌then◌else◌,
}
use quark_cache.Common.Text.{trim_start, is_space}

-- The ASCII capital of an ASCII letter. Capitals are shared with every other text.
abbrev pub is_ascii_text : String → Bool
is_ascii_text String.[] = true
is_ascii_text (String.◌∷◌ c s) = ltb (code c) 128 && is_ascii_text s

abbrev pub no_lower : String → Bool
no_lower String.[] = true
no_lower (String.◌∷◌ c s) = (ltb (code c) b'a' || ltb b'z' (code c)) && no_lower s

pub record Js : Type 1 where
  pub Number : Type 0
  -- ± a whole number, as a double.
  pub integer : Bool → ℕ → Number
  pub nan : Number
  pub add : Number → Number → Number
  pub sub : Number → Number → Number
  pub mul : Number → Number → Number
  pub div : Number → Number → Number
  -- `Math.round`, `Math.floor`.
  pub round : Number → Number
  pub floor : Number → Number
  -- `n.toFixed(d)`, `n.toLocaleString()`, and `${n}`.
  pub to_fixed : Number → ℕ → String
  pub to_locale : Number → String
  pub to_text : Number → String
  -- `s.toUpperCase()`: a text of ASCII characters with no small letter is its own capital form.
  pub to_upper : String → String
  pub to_upper-fixed : (s : String) → (is_ascii_text s && no_lower s) ≡ true → to_upper s ≡ s
  -- `encodeURIComponent`.
  pub encode_uri : String → String
  -- A JSON value, and `JSON.stringify(v, null, 2)`.
  pub Json : Type 0
  pub stringify : Json → String

-- A digit's value in radix 10 or 16.
abbrev digit_value : ℕ → ℕ → Option ℕ
digit_value radix c =
    if leb b'0' c && leb c b'9'
    then some (c - b'0')
    else if radix == 16 && leb b'a' c && leb c b'f'
    then some (c - b'a' + 10)
    else if radix == 16 && leb b'A' c && leb c b'F'
    then some (c - b'A' + 10)
    else none

-- The longest run of digits in front; `none` if there is none.
digits_from : ℕ → Option ℕ → String → Option ℕ
digits_from radix acc String.[] = acc
digits_from radix acc (String.◌∷◌ c s) = elim (digit_value radix (code c)) [
  | none ↦ acc
  | some d ↦ digits_from radix (some ((elim acc [ none ↦ 0 | some a ↦ a * radix ]) + d)) s
]

-- A leading `0x` or `0X`, which `parseInt` reads if it is given no radix.
abbrev hex_tail : String → Option String
hex_tail (String.◌∷◌ z (String.◌∷◌ x s)) =
    if code z == b'0' && (code x == b'x' || code x == b'X') then some s else none
hex_tail _ = none

parse_magnitude : Bool → String → Option ℕ
unfolding digits_from
parse_magnitude auto s = elim (hex_tail s) [
  | none ↦ digits_from 10 none s
  | some t ↦ if auto then digits_from 16 none t else digits_from 10 none s
]

abbrev signed : Bool → Option ℕ → Option (Bool × ℕ)
signed neg none = none
signed neg (some n) = some (neg, n)

-- `parseInt(s)` (`auto`, no radix) and `parseInt(s, 10)`: sign and size, or `none` for NaN.
parse_signed : Bool → String → Option (Bool × ℕ)
unfolding parse_magnitude
parse_signed auto String.[] = none
parse_signed auto (String.◌∷◌ c s) =
    if code c == b'-'
    then signed true (parse_magnitude auto s)
    else if code c == b'+'
    then signed false (parse_magnitude auto s)
    else signed false (parse_magnitude auto (String.◌∷◌ c s))

unfoldable pub parse_int : Bool → String → Option (Bool × ℕ)
unfolding parse_signed trim_start is_space
parse_int auto s = parse_signed auto (trim_start s)

-- The number that `parseInt` returns.
abbrev pub int_number : (js : Js) → Option (Bool × ℕ) → js.Number
int_number js none = js.nan
int_number js (some (neg, n)) = js.integer neg n
