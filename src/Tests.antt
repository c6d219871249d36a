-- ===== src/Tests.antt =====
-- A browser that runs: whole numbers for the numbers, and ASCII for the texts. The tests of the
-- pages and the runs that the theorems are applied to use it.
pub mod Engine
pub mod Server
pub mod Repl
pub mod Visits
pub mod Polling
pub mod Api
pub mod Services
pub mod Program
use Prim.Native.Char.{Char, code}
use Prim.Native.String.{String}
use quark_cache.Common.{
  ℕ, ◌+◌, ◌-◌, ◌*◌, ◌/◌, ◌≡◌, refl, arith, Bool, true, false, ◌&&◌, ◌||◌, ltb, leb, ◌==◌,
  if◌then◌else◌,
}
use quark_cache.Common.Text.{show}
use quark_cache.Common.Text.Ascii.{swap, capitals}
use quark_cache.Frontend.Js.{Js, is_ascii_text, no_lower}

abbrev all_lower : String → Bool
all_lower String.[] = true
all_lower (String.◌∷◌ c s) = (leb b'a' (code c) && leb (code c) b'z') && all_lower s

swap-other :
    (xs ys : String) (c : Char)
    → all_lower xs ≡ true
    → (ltb (code c) b'a' || ltb b'z' (code c)) ≡ true
    → swap xs ys c ≡ c
unfolding swap
swap-other String.[] ys c h k = refl
swap-other (String.◌∷◌ x xs) String.[] c h k = refl
swap-other (String.◌∷◌ x xs) (String.◌∷◌ y ys) c h k = ground (arith, swap-other xs ys c)

pub capitals-fixed : (s : String) → (is_ascii_text s && no_lower s) ≡ true → capitals s ≡ s
unfolding capitals
capitals-fixed String.[] h = refl
capitals-fixed (String.◌∷◌ c s) h =
    let here : (ltb (code c) b'a' || ltb b'z' (code c)) ≡ true = ground arith in
    rw (
      swap-other "abcdefghijklmnopqrstuvwxyz" "ABCDEFGHIJKLMNOPQRSTUVWXYZ" c refl here,
      capitals-fixed s (ground arith),
    )

abbrev pub whole_js : Js
whole_js = record {
  Number = ℕ;
  integer = λ neg n. if neg then 0 else n;
  nan = 0;
  add = ◌+◌;
  sub = ◌-◌;
  mul = ◌*◌;
  div = ◌/◌;
  round = λ n. n;
  floor = λ n. n;
  to_fixed = λ n d. show n;
  to_locale = show;
  to_text = show;
  to_upper = capitals;
  to_upper-fixed = capitals-fixed;
  encode_uri = λ s. s;
  Json = String;
  stringify = λ s. s;
}
