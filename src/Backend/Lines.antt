-- ===== src/Backend/Lines.antt =====
-- backend/app/services/cache_client.py: what `list_keys` uses of the methods of texts.
use Prim.Native.Char.{Char, code}
use Prim.Native.String.{String}
use text.Mathlib.TextLemmas.{nil-append, append-nil, cons-append}
use quark_cache.Common.{
  Bool, true, false, ◌&&◌, ◌||◌, Option, none, some, List, [], ◌∷◌, ◌≡◌, ◌≢◌, refl, sym, ap, ◌∙◌,
  All, leb, ◌==◌, truthy, if◌then◌else◌,
}
use quark_cache.Common.Text.{◌+++◌, snoc, join}
use quark_cache.Engine.{same-ne}
use quark_cache.Server.Wire.{snoc-append}

-- A line boundary of `str.splitlines`.
unfoldable pub is_boundary : Char → Bool
is_boundary c =
    let n = code c in
    (leb 10 n && leb n 13) || (leb 28 n && leb n 30) || n == 133 || n == 0x2028 || n == 0x2029

-- `s.splitlines()`: `cr` says that the last character was a carriage return, `cur` is the open line.
unfoldable pub splitlines_from : Bool → String → String → List String
splitlines_from cr cur String.[] = if truthy cur then cur ∷ [] else []
splitlines_from cr cur (String.◌∷◌ c s) = elim (cr && code c == 10) [
  | true ↦ splitlines_from false cur s
  | false ↦ elim (is_boundary c) [
    | true ↦ cur ∷ splitlines_from (code c == 13) "" s
    | false ↦ splitlines_from false (snoc cur c) s
  ]
]

unfoldable pub splitlines : String → List String
unfolding splitlines_from is_boundary
splitlines s = splitlines_from false "" s

-- What stands before the first space, and what stands behind it.
unfoldable pub cut_space : String → Option (String × String)
cut_space String.[] = none
cut_space (String.◌∷◌ c s) = elim (code c == 32) [
  | true ↦ some ("", s)
  | false ↦ elim (cut_space s) [ none ↦ none | some (l, r) ↦ some (String.◌∷◌ c l, r) ]
]

-- `s.split(" ", 2)`.
unfoldable pub split_two : String → List String
unfolding cut_space
split_two s = elim (cut_space s) [
  | none ↦ s ∷ []
  | some (a, r) ↦ elim (cut_space r) [ none ↦ a ∷ r ∷ [] | some (b, t) ↦ a ∷ b ∷ t ∷ [] ]
]

-- A text without line boundaries, and one without spaces.
abbrev pub NoBoundary : String → Type 0
NoBoundary String.[] = Unit
NoBoundary (String.◌∷◌ c s) = (is_boundary c ≡ false) × NoBoundary s

abbrev pub NoSpace : String → Type 0
NoSpace String.[] = Unit
NoSpace (String.◌∷◌ c s) = ((code c == 32) ≡ false) × NoSpace s

pub NoBoundary-append : (s t : String) → NoBoundary s → NoBoundary t → NoBoundary (s +++ t)
NoBoundary-append String.[] t h k = rw nil-append k
NoBoundary-append (String.◌∷◌ c s) t (x, h) k = rw cons-append (x, NoBoundary-append s t h k)

pub NoSpace-append : (s t : String) → NoSpace s → NoSpace t → NoSpace (s +++ t)
NoSpace-append String.[] t h k = rw nil-append k
NoSpace-append (String.◌∷◌ c s) t (x, h) k = rw cons-append (x, NoSpace-append s t h k)

splitlines_from-line :
    (cur l s : String)
    → NoBoundary l
    → splitlines_from false cur (l +++ s) ≡ splitlines_from false (cur +++ l) s
unfolding splitlines_from
splitlines_from-line cur String.[] s h = rw (nil-append, append-nil) refl
splitlines_from-line cur (String.◌∷◌ c l) s (x, h) = rw cons-append (
    rw (splitlines_from, x)
      (splitlines_from-line (snoc cur c) l s h
        ∙ ap (λ t. splitlines_from false t s) (snoc-append cur c l)))

splitlines_from-end :
    (l s : String) → splitlines_from false l ("\n" +++ s) ≡ l ∷ splitlines_from false "" s
unfolding splitlines_from is_boundary
splitlines_from-end l s = rw (cons-append, nil-append) refl

splitlines_from-last : (l : String) → l ≢ "" → splitlines_from false l "" ≡ l ∷ []
unfolding splitlines_from
splitlines_from-last l h = rw (same-ne l "" h) refl

-- Lines that are joined by line feeds are split again, if they are not empty and hold no boundary.
pub splitlines-join :
    (ls : List String) → All NoBoundary ls → All (λ l. l ≢ "") ls → splitlines (join "\n" ls) ≡ ls
unfolding splitlines splitlines_from join
splitlines-join [] h k = refl
splitlines-join (l ∷ []) h k =
    ap (splitlines_from false "") (sym (append-nil l))
    ∙ splitlines_from-line "" l "" h.0
    ∙ ap (λ t. splitlines_from false t "") (nil-append l)
    ∙ splitlines_from-last l k.0
splitlines-join (l ∷ m ∷ ls) h k =
    splitlines_from-line "" l ("\n" +++ join "\n" (m ∷ ls)) h.0
    ∙ ap (λ t. splitlines_from false t ("\n" +++ join "\n" (m ∷ ls))) (nil-append l)
    ∙ splitlines_from-end l (join "\n" (m ∷ ls))
    ∙ ap (◌∷◌ l) (splitlines-join (m ∷ ls) h.1 k.1)

pub cut_space-append : (a s : String) → NoSpace a → cut_space (a +++ " " +++ s) ≡ some (a, s)
unfolding cut_space
cut_space-append String.[] s h = rw (nil-append, cons-append, nil-append) refl
cut_space-append (String.◌∷◌ c a) s (x, h) =
    rw (cons-append, cut_space, x, cut_space-append a s h) refl

-- Two words and a text behind them, by single spaces.
pub split_two-words :
    (a b t : String)
    → NoSpace a
    → NoSpace b
    → split_two (a +++ " " +++ b +++ " " +++ t) ≡ a ∷ b ∷ t ∷ []
unfolding split_two
split_two-words a b t h k =
    rw (cut_space-append a (b +++ " " +++ t) h, cut_space-append b t k, split_two) refl
