-- ===== src/Server/Lines.antt =====
-- cpp_core/src/server.cpp, `handle_read`: the bytes of a connection are gathered in its buffer, and
-- every complete line is served by a handler.
use Prim.Native.Char.{code}
use Prim.Native.String.{String}
use quark_cache.Common.{
  ℕ, suc, zero, Option, none, some, List, [], ◌∷◌, same, truthy, ◌==◌, if◌then◌else◌,
}
use quark_cache.Common.Text.{◌+++◌}
use quark_cache.Engine.{size}

-- `buf.find('\n')`, with what stands before it and behind it.
unfoldable pub cut_line : String → Option (String × String)
cut_line String.[] = none
cut_line (String.◌∷◌ c s) =
    let rest = cut_line s in
    if code c == 10
    then some ("", s)
    else elim rest [ none ↦ none | some (l, r) ↦ some (String.◌∷◌ c l, r) ]

-- A carriage return at the end goes.
unfoldable pub chop_cr : String → String
chop_cr String.[] = ""
chop_cr (String.◌∷◌ c s) =
    if same s "" then (if code c == 13 then "" else String.◌∷◌ c s) else String.◌∷◌ c (chop_cr s)

-- What is written comes before what follows; an empty response is not written.
abbrev pub written : {T : Type 0} → String → Option (List String × T) → Option (List String × T)
written response none = none
written response (some (out, end)) = some (if truthy response then response ∷ out else out, end)

module _ {S : Type 0} (process : String → S → Option (String × S)) where
  -- The loop over the complete lines of a buffer, on fuel: what is written, and the buffer and the
  -- server that are left.
  unfoldable pub drain : ℕ → String → S → Option (List String × (String × S))
  unfolding cut_line chop_cr
  drain zero buf s = none
  drain (suc fuel) buf s = elim (cut_line buf) [
    | none ↦ some ([], (buf, s))
    | some (l, r) ↦
        let skipped = drain fuel r s in
        if same (chop_cr l) "" then skipped else elim (process (chop_cr l) s) [
          | none ↦ none
          | some (response, s') ↦ written response (drain fuel r s')
        ]
  ]

  -- What follows a read of some bytes.
  unfoldable pub handle_read : String → String × S → Option (List String × (String × S))
  unfolding drain size
  handle_read bytes (buf, s) =
      if truthy bytes
      then drain (suc (size (buf +++ bytes))) (buf +++ bytes) s
      else some ([], (buf, s))
