-- ===== src/Backend/Exchange.antt =====
-- backend/app/services/cache_client.py against cpp_core/src/server.cpp: a command and its reply.
use Prim.Native.Char.{code}
use Prim.Native.String.{String}
use text.Mathlib.TextLemmas.{nil-append, cons-append, append_assoc}
use quark_cache.Common.{
  ℕ, ◌≤◌, ◌<◌, ◌≡◌, refl, sym, ap, ◌∙◌, false, Option, none, some, [], ◌∷◌, ◌==◌, same, arith,
  Bool-cases, inl, inr,
}
use quark_cache.Common.Text.{◌+++◌, join}
use quark_cache.Common.Text.Prefix.{strip_prefix, strip_prefix-append}
use quark_cache.Common.Text.{show}
use quark_cache.Engine.Lru.{Seconds, plus}
use quark_cache.Server.Ttl.{show-IsToken, stoll-show}
use quark_cache.Server.{crlf, get_reply, is_blank, process_command, set_command, stored}
use quark_cache.Engine.Store.{KvStore, set}
use quark_cache.Server.Lines.{cut_line}
use quark_cache.Server.Wire.{NoBlank, IsToken, join_words, process_command-set}
use quark_cache.Backend.Client.{ok, rstrip, read_line, get_result, get_line, set_line}

abbrev pub NoEnd : String → Type 0
NoEnd String.[] = Unit
NoEnd (String.◌∷◌ c s) = ((code c == 13) ≡ false) × ((code c == 10) ≡ false) × NoEnd s

pub NoEnd-NoBlank : (s : String) → NoBlank s → NoEnd s
unfolding is_blank
NoEnd-NoBlank String.[] h = tt
NoEnd-NoBlank (String.◌∷◌ c s) (here, h) = (ground arith, ground arith, NoEnd-NoBlank s h)

pub NoEnd-append : (s t : String) → NoEnd s → NoEnd t → NoEnd (s +++ t)
NoEnd-append String.[] t h k = rw nil-append k
NoEnd-append (String.◌∷◌ c s) t (x, y, h) k = rw cons-append (x, y, NoEnd-append s t h k)

cut_line-crlf : (s : String) → NoEnd s → cut_line (s +++ crlf) ≡ some (s +++ "\r", "")
unfolding cut_line
cut_line-crlf String.[] h = rw nil-append refl
cut_line-crlf (String.◌∷◌ c s) (x, y, h) =
    rw (cons-append, y, cut_line-crlf s h) (ap (λ t. some (t, "")) (sym (cons-append c s "\r")))

rstrip-cr : (s : String) → NoEnd s → rstrip (s +++ "\r") ≡ s
unfolding rstrip
rstrip-cr String.[] h = refl
rstrip-cr (String.◌∷◌ c s) (x, y, h) = elim (Bool-cases (same s "")) [
  | inl e ↦ rw (cons-append, rstrip-cr s h, x, y, e) refl
  | inr e ↦ rw (cons-append, rstrip-cr s h, x, y, e) refl
]

pub rstrip-crlf : (s : String) → NoEnd s → rstrip (s +++ crlf) ≡ s
unfolding rstrip
rstrip-crlf String.[] h = refl
rstrip-crlf (String.◌∷◌ c s) (x, y, h) = elim (Bool-cases (same s "")) [
  | inl e ↦ rw (cons-append, rstrip-crlf s h, x, y, e) refl
  | inr e ↦ rw (cons-append, rstrip-crlf s h, x, y, e) refl
]

pub read_line-crlf : (s : String) → NoEnd s → read_line (s +++ crlf) ≡ s
unfolding read_line
read_line-crlf s h = rw (cut_line-crlf s h, read_line) (rstrip-cr s h)

pub read_line-not_found : read_line "NOT_FOUND\r\n" ≡ "NOT_FOUND"
unfolding read_line
read_line-not_found = refl

pub get_result-not_found : get_result "NOT_FOUND" ≡ ok none
unfolding get_result strip_prefix
get_result-not_found = refl

pub join_words-get_line : (key : String) → join_words ("GET" ∷ key ∷ []) ≡ get_line key
unfolding join
join_words-get_line key = sym (append_assoc "GET" " " key)

-- What the client makes of the server's reply to a `GET` is the store's answer.
pub get_result-get_reply :
    (o : Option String)
    → ((v : String) → o ≡ some v → NoBlank v)
    → get_result (read_line (get_reply o)) ≡ ok o
unfolding get_result
get_result-get_reply none h = ap get_result read_line-not_found ∙ get_result-not_found
get_result-get_reply (some v) h =
    let prefix : NoEnd "VALUE " =
      (refl, refl, (refl, refl, (refl, refl, (refl, refl, (refl, refl, (refl, refl, tt)))))) in
    let line : read_line ("VALUE " +++ v +++ crlf) ≡ "VALUE " +++ v =
      ap read_line (sym (append_assoc "VALUE " v crlf))
      ∙ read_line-crlf ("VALUE " +++ v)
          (NoEnd-append "VALUE " v prefix (NoEnd-NoBlank v (h v refl))) in
    rw (line, strip_prefix-append "VALUE " v, get_result) refl

-- The TTL of a request, as the schema admits it and the server can read it.
abbrev pub IsTtl : Option ℕ → Type 0
IsTtl none = Unit
IsTtl (some n) = (1 ≤ n) × (n < 9223372036854775808)

abbrev pub whole_ttl : Option ℕ → Option Seconds
whole_ttl none = none
whole_ttl (some n) = some (plus n)

-- The client's `SET` line for words, with or without a TTL, is served by a set in the store.
pub process_command-set_line :
    (now : ℕ) (key value : String) (ttl : Option ℕ) (s : KvStore)
    → IsToken key
    → IsToken value
    → IsTtl ttl
    → process_command now (set_line key value ttl) s ≡ stored (set now key value (whole_ttl ttl) s)
unfolding set_command join
process_command-set_line now key value none s h k t =
    ap (λ l. process_command now l s) (append_assoc "SET" " " (key +++ " " +++ value))
    ∙ process_command-set now s key h value [] k tt
process_command-set_line now key value (some n) s h k t =
    ap (λ l. process_command now l s)
      (append_assoc "SET" " " (key +++ " " +++ value +++ " " +++ show n))
    ∙ process_command-set now s key h value (show n ∷ []) k (show-IsToken n, tt)
    ∙ rw (set_command, stoll-show n t.1) refl

pub set_line-NoEnd :
    (key value : String) (ttl : Option ℕ)
    → NoBlank key
    → NoBlank value
    → NoEnd (set_line key value ttl)
set_line-NoEnd key value ttl h k =
    let blank = λ (s : String) (p : NoEnd s). NoEnd-append " " s (refl, refl, tt) p in
    let before = λ (s : String) (p : NoEnd s).
      NoEnd-append "SET " (key +++ s) (refl, refl, (refl, refl, (refl, refl, (refl, refl, tt))))
        (NoEnd-append key s (NoEnd-NoBlank key h) p) in
    elim ttl as (λ o. NoEnd (set_line key value o)) [
      | none ↦ before (" " +++ value) (blank value (NoEnd-NoBlank value k))
      | some n ↦ before (" " +++ value +++ " " +++ show n) (
          blank _ (
            NoEnd-append value _ (NoEnd-NoBlank value k)
              (blank _ (NoEnd-NoBlank (show n) (show-IsToken n).0))))
    ]
