-- ===== src/Server/Wire.antt =====
-- cpp_core/src/server.cpp: the tokens of a command line, and the commands by their lines.
use Prim.Native.Char.{Char}
use Prim.Native.String.{String}
use text.Mathlib.TextLemmas.{nil-append, append-nil, cons-append, append_assoc, cons-ne-nil}
use quark_cache.Common.{
  ℕ, ◌≡◌, ◌≢◌, refl, sym, ap, ◌∙◌, true, false, some, List, [], ◌∷◌, All, truthy,
}
use quark_cache.Common.Text.{◌+++◌, snoc, join}
use quark_cache.Common.Text.Ascii.{capitals}
use quark_cache.Engine.{same-ne}
use quark_cache.Engine.Store.{KvStore, get, del}
use quark_cache.Server.{
  is_blank, tokens_from, tokenize, set_command, get_reply, del_reply, command, process_command,
}

abbrev pub NoBlank : String → Type 0
NoBlank String.[] = Unit
NoBlank (String.◌∷◌ c s) = (is_blank c ≡ false) × NoBlank s

pub NoBlank-append : (s t : String) → NoBlank s → NoBlank t → NoBlank (s +++ t)
NoBlank-append String.[] t h k = rw nil-append k
NoBlank-append (String.◌∷◌ c s) t (x, h) k = rw cons-append (x, NoBlank-append s t h k)

-- A word: not empty, and without white space.
abbrev pub IsToken : String → Type 0
IsToken s = NoBlank s × (s ≢ "")

truthy-IsToken : (w : String) → IsToken w → truthy w ≡ true
truthy-IsToken w h = rw (same-ne w "" h.1) refl

pub snoc-append : (cur : String) (c : Char) (s : String) → snoc cur c +++ s ≡ cur +++ String.◌∷◌ c s
snoc-append cur c s =
    append_assoc cur (String.◌∷◌ c "") s
    ∙ ap (λ t. cur +++ t) (cons-append c "" s ∙ ap (String.◌∷◌ c) (nil-append s))

tokens_from-word :
    (cur w s : String) → NoBlank w → tokens_from cur (w +++ s) ≡ tokens_from (cur +++ w) s
unfolding tokens_from
tokens_from-word cur String.[] s h = rw (nil-append, append-nil) refl
tokens_from-word cur (String.◌∷◌ c w) s (here, h) = rw cons-append (
    rw here (tokens_from-word (snoc cur c) w s h ∙ ap (λ t. tokens_from t s) (snoc-append cur c w)))

abbrev blank : Char
blank = " "

blank-append : (s : String) → " " +++ s ≡ String.◌∷◌ blank s
blank-append s = cons-append blank "" s ∙ ap (String.◌∷◌ blank) (nil-append s)

tokens_from-gap :
    (w s : String) → truthy w ≡ true → tokens_from w (String.◌∷◌ blank s) ≡ w ∷ tokens_from "" s
unfolding tokens_from is_blank
tokens_from-gap w s h = rw h refl

tokens_from-end : (w : String) → truthy w ≡ true → tokens_from w "" ≡ w ∷ []
unfolding tokens_from
tokens_from-end w h = rw h refl

tokenize-word : (w s : String) → IsToken w → tokenize (w +++ " " +++ s) ≡ w ∷ tokenize s
unfolding tokenize
tokenize-word w s h =
    tokens_from-word "" w (" " +++ s) h.0
    ∙ ap (λ t. tokens_from t (" " +++ s)) (nil-append w)
    ∙ ap (tokens_from w) (blank-append s)
    ∙ tokens_from-gap w s (truthy-IsToken w h)

tokenize-last : (w : String) → IsToken w → tokenize w ≡ w ∷ []
unfolding tokenize
tokenize-last w h =
    ap (tokens_from "") (sym (append-nil w))
    ∙ tokens_from-word "" w "" h.0
    ∙ ap (λ t. tokens_from t "") (nil-append w)
    ∙ tokens_from-end w (truthy-IsToken w h)

-- A line of words that are joined by single spaces is read back as those words.
tokenize-join : (ws : List String) → All IsToken ws → tokenize (join " " ws) ≡ ws
unfolding join tokenize tokens_from
tokenize-join [] h = refl
tokenize-join (w ∷ []) h = tokenize-last w h.0
tokenize-join (w ∷ v ∷ ws) (h, k) =
    tokenize-word w (join " " (v ∷ ws)) h ∙ ap (◌∷◌ w) (tokenize-join (v ∷ ws) k)

abbrev pub join_words : List String → String
join_words ws = join " " ws

set-IsToken : IsToken "SET"
unfolding is_blank
set-IsToken = ((refl, (refl, (refl, tt))), cons-ne-nil _ _)

get-IsToken : IsToken "GET"
unfolding is_blank
get-IsToken = ((refl, (refl, (refl, tt))), cons-ne-nil _ _)

del-IsToken : IsToken "DEL"
unfolding is_blank
del-IsToken = ((refl, (refl, (refl, tt))), cons-ne-nil _ _)

module _ (now : ℕ) (s : KvStore) (key : String) (is_key : IsToken key) where
  -- A `SET` line of words, the key a word, does what `set_command` does with the key, the value and the
  -- words that follow them.
  pub process_command-set :
      (value : String) (ttl : List String)
      → IsToken value
      → All IsToken ttl
      → process_command now (join_words ("SET" ∷ key ∷ value ∷ ttl)) s
        ≡ set_command now key value ttl s
  unfolding process_command command capitals
  process_command-set value ttl h k =
      rw
        (tokenize-join ("SET" ∷ key ∷ value ∷ ttl) (set-IsToken, (is_key, (h, k))), process_command)
        refl

  -- A `GET` line answers what the store does.
  pub process_command-get :
      process_command now (join_words ("GET" ∷ key ∷ [])) s
      ≡ some (get_reply (get now key s).0, (get now key s).1)
  unfolding process_command command capitals
  process_command-get =
      rw (tokenize-join ("GET" ∷ key ∷ []) (get-IsToken, (is_key, tt)), process_command) refl

  pub process_command-del :
      process_command now (join_words ("DEL" ∷ key ∷ [])) s
      ≡ some (del_reply (del key s).0, (del key s).1)
  unfolding process_command command capitals
  process_command-del =
      rw (tokenize-join ("DEL" ∷ key ∷ []) (del-IsToken, (is_key, tt)), process_command) refl
