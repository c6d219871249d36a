-- ===== src/Common/Text/Prefix.antt =====
-- Taking a prefix off a text.
use Prim.Native.Char.{code}
use Prim.Native.String.{String}
use text.Mathlib.TextLemmas.{nil-append, cons-append}
use quark_cache.Common.{◌≡◌, Option, none, some, arith, ◌==◌, if◌then◌else◌}
use quark_cache.Common.Text.{◌+++◌}

-- What is left of a text behind a prefix.
unfoldable pub strip_prefix : String → String → Option String
strip_prefix String.[] s = some s
strip_prefix (String.◌∷◌ d t) String.[] = none
strip_prefix (String.◌∷◌ d t) (String.◌∷◌ c s) =
    let rest = strip_prefix t s in if code c == code d then rest else none

pub strip_prefix-append : (p s : String) → strip_prefix p (p +++ s) ≡ some s
unfolding strip_prefix
strip_prefix-append String.[] s = rw nil-append
strip_prefix-append (String.◌∷◌ c p) s = rw cons-append (ground (arith, strip_prefix-append p s))
