-- ===== src/Frontend/Keys/Table.antt =====
-- components/keys/KeyTable.tsx: one row for each key, with a button that deletes it.
use Prim.Native.String.{String}
use quark_cache.Common.{ℕ, Option, none, some, List, [], ◌∷◌, map, is_empty, ltb, if◌then◌else◌}
use quark_cache.Common.Text.{◌+++◌, show}
use quark_cache.Frontend.Api.{KeyListItem}
use quark_cache.Frontend.Html.{Node, el, prop, on, kids, label}

module _ {E : Type 0} where
  -- The chip of a TTL: it warns below ten seconds.
  unfoldable pub ttl_chip : Option ℕ → Node E
  unfolding show
  ttl_chip none = el "Chip" (prop "label" "∞" ∷ prop "variant" "outlined" ∷ []) (kids [])
  ttl_chip (some ttl) =
      el "Chip"
        (prop "label" (show ttl +++ "s")
          ∷ prop "color" (if ltb ttl 10 then "warning" else "default")
          ∷ [])
        (kids [])

  module _ (on_delete : String → E) where
    unfoldable pub key_row : KeyListItem → Node E
    unfolding ttl_chip
    key_row row = el "TableRow" (prop "key" row.key ∷ []) (
        kids (
          el "TableCell" [] (kids (label "Typography" row.key ∷ []))
          ∷ el "TableCell" [] (kids (label "Typography" row.value ∷ []))
          ∷ el "TableCell" [] (kids (ttl_chip row.ttl_remaining ∷ []))
          ∷ el "TableCell" [] (
              kids (
                el "Tooltip" (prop "title" ("Delete \"" +++ row.key +++ "\"") ∷ [])
                  (kids (el "IconButton" (on "click" (on_delete row.key) ∷ []) (kids []) ∷ []))
                ∷ []))
          ∷ []))

    unfoldable pub key_table : List KeyListItem → Node E
    unfolding key_row
    key_table keys =
        if is_empty keys
        then label "Typography" "No keys in the cache."
        else el "TableContainer" [] (
            kids (
              el "TableHead" [] (
                kids (
                  label "TableCell" "Key"
                  ∷ label "TableCell" "Value"
                  ∷ label "TableCell" "TTL"
                  ∷ label "TableCell" "Actions"
                  ∷ []))
              ∷ el "TableBody" [] (kids (map key_row keys))
              ∷ []))
