-- ===== src/Common/Text/Ascii.antt =====
-- The capitals of the ASCII letters.
use Prim.Native.Char.{Char, code}
use Prim.Native.String.{String}
use quark_cache.Common.{◌==◌, if◌then◌else◌}

-- The character that stands under `c` in a table of two rows, or else `c`.
unfoldable pub swap : String → String → Char → Char
swap String.[] ys c = c
swap (String.◌∷◌ x xs) String.[] c = c
swap (String.◌∷◌ x xs) (String.◌∷◌ y ys) c =
    let rest = swap xs ys c in if code x == code c then y else rest

unfoldable pub capitals : String → String
unfolding swap
capitals String.[] = String.[]
capitals (String.◌∷◌ c s) =
    String.◌∷◌ (swap "abcdefghijklmnopqrstuvwxyz" "ABCDEFGHIJKLMNOPQRSTUVWXYZ" c) (capitals s)
