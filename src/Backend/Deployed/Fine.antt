-- ===== src/Backend/Deployed/Fine.antt =====
-- backend/app/services/cache_client.py on the server of cpp_core/src/server.cpp: calls that bring no error.
use Prim.Native.String.{String}
use text.Mathlib.TextLemmas.{nil-append, cons-append}
use quark_cache.Common.{
  ℕ, suc, ◌≡◌, inl, inr, refl, sym, ap, ◌∙◌, subst, false, Option, none, some, same, arith,
  Bool-cases, Option-cases,
}
use quark_cache.Common.Text.{◌+++◌}
use quark_cache.Common.Text.Prefix.{strip_prefix-append}
use quark_cache.Engine.Lru
use quark_cache.Engine.Promise.{Recency, Shows, used, put}
use quark_cache.Engine.Keeps.{get-Shows, set-Shows}
use quark_cache.Engine.Store.{KvStore, set, get, asked, put_back}
use quark_cache.Server.{Server, crlf, get_reply, stored, next_server, serve_line}
use quark_cache.Server.Lines.{cut_line}
use quark_cache.Server.Wire.{IsToken}
use quark_cache.Backend.Client.{set_line, Result, is_error, rstrip, read_line, get_result}
use quark_cache.Backend.Exchange.{
  set_line-NoEnd, NoEnd, process_command-set_line, read_line-not_found, get_result-not_found,
}
use quark_cache.Backend.Service
use quark_cache.Backend.Service.{answered, and_then}
use quark_cache.Backend.Deployed.{deployed, opened}
use quark_cache.Server.Tcp.Active.{decrement_connections-lru}
use quark_cache.Backend.Deployed.Line.{exchange-line}
use quark_cache.Backend.Deployed.Commands.{set_line-ne_nil, set_key-ok, get_key-replied}

rstrip-append : (p t : String) → NoEnd p → rstrip (p +++ t) ≡ p +++ rstrip t
unfolding rstrip
rstrip-append String.[] t h = rw (nil-append, nil-append) refl
rstrip-append (String.◌∷◌ c p) t (x, y, h) = elim (Bool-cases (same (rstrip (p +++ t)) "")) [
  | inl e ↦
      rw (cons-append, rstrip, e, x, y, rstrip-append p t h) (sym (cons-append c p (rstrip t)))
  | inr e ↦ rw (cons-append, rstrip, e, rstrip-append p t h) (sym (cons-append c p (rstrip t)))
]

cut_line-append :
    (p t : String)
    → NoEnd p
    → cut_line (p +++ t) ≡ (elim (cut_line t) [ none ↦ none | some (l, r) ↦ some (p +++ l, r) ])
unfolding cut_line
cut_line-append String.[] t h = elim (Option-cases (cut_line t)) [
  | inl e ↦ rw (nil-append, e) refl
  | inr ((l, r), e) ↦ rw (nil-append, e, nil-append) refl
]
cut_line-append (String.◌∷◌ c p) t (x, y, h) = elim (Option-cases (cut_line t)) [
  | inl e ↦ rw (cons-append, cut_line, y, cut_line-append p t h, e) refl
  | inr ((l, r), e) ↦ rw (cons-append, cut_line, y, cut_line-append p t h, e, cons-append) refl
]

-- A line that begins with `VALUE ` is read as a value, whatever follows.
read_line-append : (p t : String) → NoEnd p → read_line (p +++ t) ≡ p +++ read_line t
unfolding read_line
read_line-append p t h = elim (Option-cases (cut_line t)) [
  | inl e ↦ rw (cut_line-append p t h, e, read_line) (rstrip-append p t h)
  | inr ((l, r), e) ↦ rw (cut_line-append p t h, e, read_line) (rstrip-append p l h)
]

get_result-reply : (o : Option String) → is_error (get_result (read_line (get_reply o))) ≡ false
unfolding get_result
get_result-reply none =
    ap (λ s. is_error (get_result s)) read_line-not_found ∙ ap is_error get_result-not_found
get_result-reply (some v) =
    let prefix : NoEnd "VALUE " =
      (refl, refl, (refl, refl, (refl, refl, (refl, refl, (refl, refl, (refl, refl, tt)))))) in
    rw
      (
        read_line-append "VALUE " (v +++ crlf) prefix,
        strip_prefix-append "VALUE " (read_line (v +++ crlf)),
        get_result,
      )
      refl

-- The server's cache is well-formed.
abbrev pub HasCache : Server → Type 0
HasCache v = (rs : Recency) × Shows v.store.lru rs

get-lru : (now : ℕ) (key : String) (s : KvStore) → (get now key s).1.lru ≡ (Lru.get now key s.lru).1
unfolding get
get-lru now key s = ground arith

-- A call brings no error and leaves the cache well-formed.
abbrev pub IsFine : {A : Type 0} → Result A × Server → Type 0
IsFine (result, v) = (is_error result ≡ false) × HasCache v

pub get_key-IsFine :
    (v : Server) (key : String) → IsToken key → HasCache v → IsFine (Service.get_key deployed key v)
unfolding opened
get_key-IsFine v key h (rs, shows) =
    let now = v.clock v.served in
    let after = (get now key (opened v).store).1 in
    let kept = decrement_connections-lru after ∙ get-lru now key (opened v).store in
    subst IsFine (sym (get_key-replied v key h)) (
      get_result-reply (get now key (opened v).store).0,
      (
        used now key rs,
        subst (λ l. Shows l (used now key rs)) (sym kept)
            (get-Shows now key v.store.lru rs shows).1,
      ),
    )

pub set_key-IsFine :
    (v : Server) (key value : String)
    → IsToken key
    → IsToken value
    → HasCache v
    → IsFine (Service.set_key deployed key value none v)
unfolding opened set serve_line
set_key-IsFine v key value h k (rs, shows) =
    let now = v.clock v.served in
    let (c, e, shown, capacity) = set-Shows now key value none v.store.lru rs shows in
    let after = record (asked (opened v).store) { lru = c } in
    let served = ap (next_server (opened v)) (
      process_command-set_line now key value none (opened v).store h k tt
      ∙ ap stored (ap (put_back (asked (opened v).store)) e)) in
    let now_held = put v.store.lru.capacity key (Lru.new_entry now value none) rs in
    let sent =
      set_key-ok deployed v (record (opened v) { store = after; served = suc v.served }) key value
        none
        (exchange-line (set_line key value none) v _ "OK\r\n"
          (set_line-NoEnd key value none h.0 k.0) (set_line-ne_nil key value none) served refl) in
    subst IsFine (sym sent) (
      refl,
      (now_held, subst (λ l. Shows l now_held) (sym (decrement_connections-lru after)) shown),
    )
