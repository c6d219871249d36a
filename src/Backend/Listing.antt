-- ===== src/Backend/Listing.antt =====
-- backend/app/services/cache_client.py: `list_keys`, and what `_send_command` reads of a listing.
-- `int(s)` of a text is an argument, `none` where it raises `ValueError`.
pub mod Entries
pub mod Laws
use Prim.Native.Char.{code}
use Prim.Native.String.{String}
use quark_cache.Common.{
  ℕ, Bool, true, false, Option, none, some, List, [], ◌∷◌, ◌==◌, same, truthy, if◌then◌else◌,
}
use quark_cache.Common.Text.{snoc, join}
use quark_cache.Engine.Lru.{Seconds, plus, minus}
use quark_cache.Backend.Client.{rstrip}
use quark_cache.Backend.Lines.{splitlines, split_two}

-- The lines that `reader.readline()` brings until the connection is at its end, without their ends.
-- A line over the limit, for which it raises, is `raised` of the exchange that brings the reply.
unfoldable pub lines_from : String → String → List String
unfolding rstrip
lines_from cur String.[] = if truthy cur then rstrip cur ∷ [] else []
lines_from cur (String.◌∷◌ c s) = elim (code c == 10) [
  | true ↦ rstrip (snoc cur c) ∷ lines_from "" s
  | false ↦ lines_from (snoc cur c) s
]

-- The lines before the sentinel. Without one the loop has no end: on a closed connection `readline`
-- brings an empty line each time.
unfoldable pub until_end : List String → Option (List String)
until_end [] = none
until_end (l ∷ ls) =
    let rest = until_end ls in
    if same l "END" then some [] else elim rest [ none ↦ none | some ms ↦ some (l ∷ ms) ]

-- What `_send_command("KEYS")` returns of a reply.
unfoldable pub read_listing : String → Option String
unfolding lines_from until_end join
read_listing reply = elim (until_end (lines_from "" reply)) [
  | none ↦ none
  | some ls ↦ some (join "\n" ls)
]

pub record Item : Type 0 where
  pub key : String
  pub value : String
  pub ttl_remaining : Option ℕ

-- `None if ttl_val < 0 else ttl_val`, and `None` for what is no number.
unfoldable pub item_ttl : Option Seconds → Option ℕ
item_ttl none = none
item_ttl (some (plus n)) = some n
item_ttl (some (minus n)) = if n == 0 then some 0 else none

module _ (int : String → Option Seconds) where
  -- The item of a line's parts; `none` where the loop goes on with the next line.
  unfoldable pub item : List String → Option Item
  unfolding item_ttl
  item [] = none
  item (key ∷ []) = none
  item (key ∷ value ∷ []) =
      some (record { key = key; value = value; ttl_remaining = item_ttl (int "-1") })
  item (key ∷ value ∷ ttl_str ∷ rest) =
      some (record { key = key; value = value; ttl_remaining = item_ttl (int ttl_str) })

  unfoldable pub items : List String → List Item
  unfolding item split_two
  items [] = []
  items (line ∷ ls) = elim (item (split_two line)) [ none ↦ items ls | some i ↦ i ∷ items ls ]

  -- `list_keys` of the text that `_send_command` returned.
  unfoldable pub list_keys : String → List Item
  unfolding items splitlines
  list_keys response = items (splitlines response)
