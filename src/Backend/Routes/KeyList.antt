-- ===== src/Backend/Routes/KeyList.antt =====
-- backend/app/routers/keys.py down to cpp_core/src/lru_cache.cpp: the list of the keys.
use Prim.Native.String.{String}
use text.Mathlib.TextLemmas.{cons-ne-nil}
use quark_cache.Common.{
  ℕ, suc, ◌≤◌, ◌<◌, ◌≡◌, refl, ap, ◌∙◌, true, Option, some, List, [], ◌∷◌, map, All, length,
  length-map,
}
use quark_cache.Common.Text.{join}
use quark_cache.Common.Text.Ascii.{capitals}
use quark_cache.Engine.{size}
use quark_cache.Engine.Lru
use quark_cache.Engine.Lru.{Seconds, CacheEntry}
use quark_cache.Engine.Store.{decrement_connections}
use quark_cache.Server.{
  Server, command, process_command, serve_line, tokenize, tokens_from, is_blank, keys_reply,
}
use quark_cache.Backend.Service
use quark_cache.Backend.Listing.Entries.{
  HasPlain, entry_line, entry_line-NoBoundary, NoBoundary-NoEnd, listed,
}
use quark_cache.Backend.Listing.Laws.{
  keys_reply-cons, ReadsInts, list_keys-keys_reply, keys_reply-truthy,
}
use quark_cache.Backend.Deployed.{limited, short_from, opened, closed}
use quark_cache.Backend.Deployed.Limits.{limited-line, delivered-whole, short-line}
use quark_cache.Backend.Routes.{response, list_keys}

serve_line-keys :
    (v : Server)
    → serve_line "KEYS" v
      ≡ some (
        keys_reply (v.clock v.served) (Lru.all_entries (v.clock v.served) v.store.lru),
        record v { served = suc v.served },
      )
unfolding serve_line process_command command capitals tokenize tokens_from is_blank
serve_line-keys v = refl

-- The lines of the listing are within the limit of the client's reader, and the socket has room for it.
abbrev pub IsListable : ℕ → ℕ → List (String × CacheEntry) → Type 0
IsListable room now es =
    All (λ p. size (entry_line now p) < 65536) es × (size (keys_reply now es) ≤ room)

keys_reply-short :
    (now : ℕ) (es : List (String × CacheEntry))
    → All HasPlain es
    → All (λ p. size (entry_line now p) < 65536) es
    → short_from 0 (keys_reply now es) ≡ true
unfolding keys_reply short_from
keys_reply-short now [] h k = refl
keys_reply-short now (p ∷ es) (x, h) (small, k) =
    ap (short_from 0) (keys_reply-cons now p es)
    ∙ short-line (entry_line now p) (keys_reply now es)
        (NoBoundary-NoEnd (entry_line now p) (entry_line-NoBoundary now p x)) small
    ∙ keys_reply-short now es h k

-- If the live keys and values of the cache hold no space and no line boundary, `int` reads the
-- decimals of the protocol, the listing fits the socket and each of its lines the reader: the call
-- returns, `GET /keys` is answered with 200, the list holds the live entries of the cache in its order
-- with the seconds that remain of each, and the count is their number.
pub list_keys-all_entries :
    (room : ℕ) (int : String → Option Seconds) (v : Server)
    → ReadsInts int
    → All HasPlain (Lru.all_entries (v.clock v.served) v.store.lru)
    → IsListable room (v.clock v.served) (Lru.all_entries (v.clock v.served) v.store.lru)
    → (v' : Server) × (list_keys (limited room) int v
        ≡ some (
          response 200 (record {
            keys = map (listed (v.clock v.served)) (Lru.all_entries (v.clock v.served) v.store.lru);
            count = length (Lru.all_entries (v.clock v.served) v.store.lru);
          }),
          v',
        ))
unfolding list_keys closed join opened
list_keys-all_entries room int v reads h (small, fits) =
    let now = v.clock v.served in
    let es = Lru.all_entries now v.store.lru in
    let (text, read, items) = list_keys-keys_reply int reads now es h in
    let sent =
      limited-line room "KEYS" v _ (keys_reply now es)
        (refl, refl, (refl, refl, (refl, refl, (refl, refl, tt)))) (cons-ne-nil _ _)
        (serve_line-keys (opened v)) (keys_reply-truthy now es h)
        (delivered-whole room (keys_reply now es) fits (keys_reply-short now es h small)) in
    (
      record (opened v) { store = decrement_connections (opened v).store; served = suc v.served },
      rw
          (
            list_keys,
            Service.list_keys,
            sent,
            closed,
            read,
            items,
            length-map (listed now) es,
            sent,
            closed,
          )
          refl,
    )
