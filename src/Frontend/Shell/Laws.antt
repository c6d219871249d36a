-- ===== src/Frontend/Shell/Laws.antt =====
-- components/layout/AppShell.tsx, lib/apiClient.ts, next.config.ts: the active entry, and a path on its way.
use Prim.Native.Char.{code}
use Prim.Native.String.{String}
use text.Mathlib.TextLemmas.{append_assoc}
use quark_cache.Common.{
  ℕ, zero, suc, ◌≡◌, sym, ap, ◌∙◌, inl, inr, true, Option, none, some, In, arith, ◌==◌,
  if◌then◌else◌,
}
use quark_cache.Common.Text.{◌+++◌}
use quark_cache.Common.Text.Prefix.{strip_prefix, strip_prefix-append}
use quark_cache.Frontend.Shell.{
  NavItem, item, nav_items, is_active, starts_with, request_path, rewrite, destination,
  backend_or_default,
}

-- The code of a character, or none beyond the end.
code_at : String → ℕ → Option ℕ
code_at String.[] i = none
code_at (String.◌∷◌ c s) zero = some (code c)
code_at (String.◌∷◌ c s) (suc i) = code_at s i

starts_with-code_at :
    (s t : String) (i n : ℕ) → starts_with s t ≡ true → code_at t i ≡ some n → code_at s i ≡ some n
unfolding starts_with code_at
starts_with-code_at s String.[] i n h e = cc
starts_with-code_at String.[] (String.◌∷◌ d t) i n h e = cc
starts_with-code_at (String.◌∷◌ c s) (String.◌∷◌ d t) zero n h e = ground arith
starts_with-code_at (String.◌∷◌ c s) (String.◌∷◌ d t) (suc i) n h e =
    starts_with-code_at s t i n (ground arith) e

-- The first letter of a page tells it from the others, but for two, which differ in the second.
page_of : ℕ → ℕ → NavItem
page_of m n =
    if m == b'd'
    then item "Overview" "/dashboard"
    else if m == b'k'
    then item "Explorer" "/keys"
    else if m == b'm'
    then item "Metrics" "/metrics"
    else if m == b'c'
    then (if n == b'l' then item "Clients" "/clients" else item "Commands" "/commands")
    else if m == b'b'
    then item "Benchmarks" "/benchmarks"
    else if m == b'a'
    then record { label = "AI Insights"; href = "/ai"; highlight = true }
    else item "Settings" "/settings"

abbrev HasLetters : NavItem → Type 0
HasLetters i =
    (m : ℕ) × (n : ℕ) × (code_at i.href 1 ≡ some m)
    × (code_at i.href 2 ≡ some n)
    × (i ≡ page_of m n)

nav_items-HasLetters : (i : NavItem) → In i nav_items → HasLetters i
unfolding code_at page_of
nav_items-HasLetters i (inl e) = (b'd', b'a', rw e, rw e, e)
nav_items-HasLetters i (inr (inl e)) = (b'k', b'e', rw e, rw e, e)
nav_items-HasLetters i (inr (inr (inl e))) = (b'm', b'e', rw e, rw e, e)
nav_items-HasLetters i (inr (inr (inr (inl e)))) = (b'c', b'l', rw e, rw e, e)
nav_items-HasLetters i (inr (inr (inr (inr (inl e))))) = (b'c', b'o', rw e, rw e, e)
nav_items-HasLetters i (inr (inr (inr (inr (inr (inl e)))))) = (b'b', b'e', rw e, rw e, e)
nav_items-HasLetters i (inr (inr (inr (inr (inr (inr (inl e))))))) = (b'a', b'i', rw e, rw e, e)
nav_items-HasLetters i (inr (inr (inr (inr (inr (inr (inr (inl e)))))))) =
    (b's', b'e', rw e, rw e, e)
nav_items-HasLetters i (inr (inr (inr (inr (inr (inr (inr (inr e)))))))) = absurd e

-- Whatever the path, at most one entry of the navigation is selected.
nav_items-one_active :
    (path : String) (i j : NavItem)
    → In i nav_items
    → In j nav_items
    → is_active path i ≡ true
    → is_active path j ≡ true
    → i ≡ j
nav_items-one_active path i j x y h k =
    let (m, n, first, second, e) = nav_items-HasLetters i x in
    let (m', n', first', second', e') = nav_items-HasLetters j y in
    let same_first : m ≡ m' = cc (
      starts_with-code_at path i.href 1 m h first,
      starts_with-code_at path j.href 1 m' k first',
    ) in
    let same_second : n ≡ n' = cc (
      starts_with-code_at path i.href 2 n h second,
      starts_with-code_at path j.href 2 n' k second',
    ) in
    cc

-- A call for `/path` arrives at the backend as `/path`: the client puts the base path in front, and
-- the proxy takes it off again and puts there the backend's address, or the default one.
pub rewrite-request_path :
    (backend : Option String) (path : String)
    → rewrite backend (request_path ("/" +++ path))
      ≡ some (backend_or_default backend +++ "/" +++ path)
unfolding rewrite request_path
rewrite-request_path backend path =
    let whole : "/api" +++ ("/" +++ path) ≡ "/api/" +++ path = sym (append_assoc "/api" "/" path) in
    ap (λ t. destination (backend_or_default backend) (strip_prefix "/api/" t)) whole
    ∙ ap (destination (backend_or_default backend)) (strip_prefix-append "/api/" path)
