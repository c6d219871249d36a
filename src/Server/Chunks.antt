-- ===== src/Server/Chunks.antt =====
-- cpp_core/src/server.cpp, `handle_read`: the loop over the lines against the lines of the bytes.
use Prim.Native.Char.{Char, code}
use Prim.Native.String.{String}
use text.Mathlib.TextLemmas.{nil-append, cons-append, append_assoc, cons-ne-nil}
use quark_cache.Common.{
  ℕ, suc, zero, ◌<◌, ◌≡◌, refl, sym, ap, ◌∙◌, true, false, Option, none, some, List, [], ◌∷◌, ◌++◌,
  same, truthy, ◌==◌, if◌then◌else◌, arith, Bool-cases, Option-cases, inl, inr,
}
use quark_cache.Common.Text.{◌+++◌}
use quark_cache.Engine.{size, same-ne}
use quark_cache.Server.Lines.{cut_line, chop_cr, written, drain, handle_read}

-- The complete lines of a text, and what follows the last of them.
abbrev pub prepend : Char → List String → String → List String × String
prepend c [] r = ([], String.◌∷◌ c r)
prepend c (l ∷ ls) r = (String.◌∷◌ c l ∷ ls, r)

unfoldable pub split_lines : String → List String × String
split_lines String.[] = ([], "")
split_lines (String.◌∷◌ c s) =
    let (ls, r) = split_lines s in if code c == 10 then ("" ∷ ls, r) else prepend c ls r

cut_line-none : (s : String) → cut_line s ≡ none → split_lines s ≡ ([], s)
unfolding cut_line split_lines
cut_line-none String.[] h = refl
cut_line-none (String.◌∷◌ c s) h = ground (arith, cut_line-none s)

cut_line-some :
    (s l r : String)
    → cut_line s ≡ some (l, r)
    → (split_lines s ≡ (l ∷ (split_lines r).0, (split_lines r).1)) × (size r < size s)
unfolding cut_line split_lines size
cut_line-some String.[] l r h = cc
cut_line-some (String.◌∷◌ c s) l r h = elim (Bool-cases (code c == 10)) [
  | inl e ↦
      let k = rw e at h in
      let same_line : "" ≡ l = cc in
      let same_rest : s ≡ r = cc in rw (e, ← same_line, ← same_rest) (refl, omega arith)
  | inr e ↦ elim (Option-cases (cut_line s)) [
    | inl m ↦ let k = rw (e, m) at h in cc
    | inr ((l', r'), m) ↦
        let k = rw (e, m) at h in
        let same_line : String.◌∷◌ c l' ≡ l = cc in
        let same_rest : r' ≡ r = cc in
        let (lines, shorter) = cut_line-some s l' r' m in
        rw (e, ← same_line, ← same_rest) (rw lines refl, omega arith)
  ]
]

-- Bytes behind a text continue its last line.
abbrev joined : List String → List String × String → List String × String
joined ls (ms, r) = (ls ++ ms, r)

prepend-joined :
    (c : Char) (ls : List String) (r t : String)
    → (code c == 10) ≡ false
    → (let (ms, q) = joined ls (split_lines (r +++ t)) in prepend c ms q)
      ≡ joined (prepend c ls r).0 (split_lines ((prepend c ls r).1 +++ t))
unfolding split_lines
prepend-joined c [] r t e = rw (cons-append, e) refl
prepend-joined c (l ∷ ls) r t e = refl

split_lines-append :
    (s t : String)
    → split_lines (s +++ t) ≡ joined (split_lines s).0 (split_lines ((split_lines s).1 +++ t))
unfolding split_lines
split_lines-append String.[] t = rw nil-append refl
split_lines-append (String.◌∷◌ c s) t = elim (Bool-cases (code c == 10)) [
  | inl e ↦ rw (cons-append, e) (ap (λ p. ("" ∷ p.0, p.1)) (split_lines-append s t))
  | inr e ↦
      rw (cons-append, e)
        (ap (λ p. prepend c p.0 p.1) (split_lines-append s t)
          ∙ prepend-joined c (split_lines s).0 (split_lines s).1 t e)
]

truthy-append : (s t : String) → truthy s ≡ true → truthy (s +++ t) ≡ true
truthy-append String.[] t h = cc
truthy-append (String.◌∷◌ c s) t h =
    rw cons-append (rw (same-ne (String.◌∷◌ c (s +++ t)) "" (cons-ne-nil c (s +++ t))) refl)

abbrev pub with_rest :
    {S : Type 0} → String → Option (List String × S) → Option (List String × (String × S))
with_rest r none = none
with_rest r (some (out, s)) = some (out, (r, s))

abbrev prefixed : {T : Type 0} → List String → Option (List String × T) → Option (List String × T)
prefixed out none = none
prefixed out (some (rest, end)) = some (out ++ rest, end)

-- One thing after the other, with what both write.
abbrev pub and_then :
    {S T : Type 0}
    → Option (List String × S)
    → (S → Option (List String × T))
    → Option (List String × T)
and_then none f = none
and_then (some (out, s)) f = prefixed out (f s)

with_rest-written :
    {S : Type 0} (r response : String) (o : Option (List String × S))
    → with_rest r (written response o) ≡ written response (with_rest r o)
with_rest-written r response none = refl
with_rest-written r response (some (out, s)) = refl

prefixed-nil : {T : Type 0} (o : Option (List String × T)) → prefixed [] o ≡ o
prefixed-nil none = refl
prefixed-nil (some (out, end)) = refl

prefixed-written :
    {T : Type 0} (response : String) (out : List String) (o : Option (List String × T))
    → prefixed (if truthy response then response ∷ out else out) o
      ≡ written response (prefixed out o)
prefixed-written response out none = refl
prefixed-written response out (some (rest, end)) = elim (Bool-cases (truthy response)) [
  | inl e ↦ rw e refl
  | inr e ↦ rw e refl
]

prefixed-with_rest :
    {S : Type 0} (out : List String) (r : String) (o : Option (List String × S))
    → prefixed out (with_rest r o) ≡ with_rest r (prefixed out o)
prefixed-with_rest out r none = refl
prefixed-with_rest out r (some (rest, s)) = refl

and_then-written :
    {S T : Type 0} (response : String) (o : Option (List String × S))
    (f : S → Option (List String × T))
    → and_then (written response o) f ≡ written response (and_then o f)
and_then-written response none f = refl
and_then-written response (some (out, s)) f = prefixed-written response out (f s)

module _ {S : Type 0} (process : String → S → Option (String × S)) where
  -- The lines served one after the other.
  unfoldable pub serve_lines : List String → S → Option (List String × S)
  unfolding chop_cr
  serve_lines [] s = some ([], s)
  serve_lines (l ∷ ls) s =
      let skipped = serve_lines ls s in
      if same (chop_cr l) "" then skipped else elim (process (chop_cr l) s) [
        | none ↦ none
        | some (response, s') ↦ written response (serve_lines ls s')
      ]

  -- The loop serves the complete lines and keeps the rest: it has fuel enough.
  drain-lines :
      (fuel : ℕ) (buf : String) (s : S)
      → size buf < fuel
      → drain process fuel buf s ≡ with_rest (split_lines buf).1 (serve_lines (split_lines buf).0 s)
  unfolding drain serve_lines
  drain-lines zero buf s h = absurd (omega arith)
  drain-lines (suc fuel) buf s h = elim (Option-cases (cut_line buf)) [
    | inl e ↦ rw (e, drain, cut_line-none buf e) refl
    | inr ((l, r), e) ↦
        let (lines, shorter) = cut_line-some buf l r e in
        elim (Bool-cases (same (chop_cr l) "")) [
          | inl k ↦ rw (e, drain, lines, k) (drain-lines fuel r s (omega arith))
          | inr k ↦ elim (Option-cases (process (chop_cr l) s)) [
            | inl p ↦ rw (e, drain, lines, k, p, serve_lines) refl
            | inr ((response, s'), p) ↦
                rw (e, drain, lines, k, p, serve_lines)
                  (ap (written response) (drain-lines fuel r s' (omega arith))
                    ∙ sym (
                        with_rest-written (split_lines r).1 response
                          (serve_lines (split_lines r).0 s')))
          ]
        ]
  ]

  serve_lines-append :
      (ls ms : List String) (s : S)
      → serve_lines (ls ++ ms) s ≡ and_then (serve_lines ls s) (serve_lines ms)
  unfolding serve_lines
  serve_lines-append [] ms s = sym (prefixed-nil (serve_lines ms s))
  serve_lines-append (l ∷ ls) ms s = elim (Bool-cases (same (chop_cr l) "")) [
    | inl k ↦ rw k (serve_lines-append ls ms s)
    | inr k ↦ elim (Option-cases (process (chop_cr l) s)) [
      | inl p ↦ rw (k, p, serve_lines) refl
      | inr ((response, s'), p) ↦
          rw (k, p, serve_lines)
            (ap (written response) (serve_lines-append ls ms s')
              ∙ sym (and_then-written response (serve_lines ls s') (serve_lines ms)))
    ]
  ]

  -- A read of some bytes serves the complete lines of the buffer, one after the other, and keeps what
  -- follows them: the loop has fuel enough.
  pub handle_read-lines :
      (bytes buf : String) (s : S)
      → truthy bytes ≡ true
      → handle_read process bytes (buf, s)
        ≡ with_rest (split_lines (buf +++ bytes)).1 (serve_lines (split_lines (buf +++ bytes)).0 s)
  unfolding handle_read
  handle_read-lines bytes buf s h =
      rw h (drain-lines (suc (size (buf +++ bytes))) (buf +++ bytes) s (omega arith))

  handle_read-next :
      (bytes r : String) (o : Option (List String × S))
      → truthy bytes ≡ true
      → and_then (with_rest r o) (handle_read process bytes)
        ≡ with_rest
            (split_lines (r +++ bytes)).1
            (and_then o (serve_lines (split_lines (r +++ bytes)).0))
  handle_read-next bytes r none h = refl
  handle_read-next bytes r (some (out, s)) h =
      ap (prefixed out) (handle_read-lines bytes r s h)
      ∙ prefixed-with_rest out (split_lines (r +++ bytes)).1
          (serve_lines (split_lines (r +++ bytes)).0 s)

  -- Bytes that come in two reads are served as if they came in one: the same responses are written, and
  -- the same buffer and server are left, wherever the bytes are cut.
  pub handle_read-append :
      (a b buf : String) (s : S)
      → truthy a ≡ true
      → truthy b ≡ true
      → and_then (handle_read process a (buf, s)) (handle_read process b)
        ≡ handle_read process (a +++ b) (buf, s)
  handle_read-append a b buf s h k =
      let ls = (split_lines (buf +++ a)).0 in
      let next = split_lines ((split_lines (buf +++ a)).1 +++ b) in
      let whole : split_lines (buf +++ (a +++ b)) ≡ joined ls next =
        ap split_lines (sym (append_assoc buf a b)) ∙ split_lines-append (buf +++ a) b in
      let second : handle_read process (a +++ b) (buf, s)
          ≡ with_rest next.1 (serve_lines (ls ++ next.0) s) =
        handle_read-lines (a +++ b) buf s (truthy-append a b h)
        ∙ ap (λ p. with_rest p.1 (serve_lines p.0 s)) whole in
      ap (λ o. and_then o (handle_read process b)) (handle_read-lines a buf s h)
      ∙ handle_read-next b (split_lines (buf +++ a)).1 (serve_lines ls s) k
      ∙ ap (with_rest next.1) (sym (serve_lines-append ls next.0 s))
      ∙ sym second
