-- ===== src/Backend/Listing/Laws.antt =====
-- backend/app/services/cache_client.py against cpp_core/src/server.cpp: `KEYS` and its reply.
use Prim.Native.String.{String}
use text.Mathlib.TextLemmas.{append_assoc}
use quark_cache.Common.{
  ℕ, ◌≡◌, ◌≢◌, refl, sym, ap, ◌∙◌, Option, none, some, List, [], ◌∷◌, map, All, truthy, true,
}
use quark_cache.Common.Text.{◌+++◌, join, show}
use quark_cache.Engine.{same-ne}
use quark_cache.Engine.Lru.{CacheEntry, Seconds, plus, minus, ttl_remaining}
use quark_cache.Server.{crlf, ttl_text, keys_reply}
use quark_cache.Backend.Client.{rstrip}
use quark_cache.Backend.Deployed.Line.{append-ne_nil}
use quark_cache.Backend.Lines.{NoBoundary, splitlines-join, split_two-words}
use quark_cache.Backend.Listing.{
  lines_from, until_end, read_listing, item_ttl, item, items, list_keys,
}
use quark_cache.Backend.Listing.Entries.{
  NoBoundary-NoEnd, entry_line, lines_from-crlf, HasPlain, entry_line-NoBoundary, entry_line-ne-end,
  entry_line-ne-nil, ttl_remaining-seconds_left, listed,
}

pub keys_reply-cons :
    (now : ℕ) (p : String × CacheEntry) (es : List (String × CacheEntry))
    → keys_reply now (p ∷ es) ≡ entry_line now p +++ crlf +++ keys_reply now es
unfolding keys_reply entry_line ttl_remaining
keys_reply-cons now (k, e) es =
    let t = ttl_text (ttl_remaining now e) in
    let rest = crlf +++ keys_reply now es in
    ap (λ x. k +++ x)
      (ap (λ x. " " +++ x)
          (sym (
            append_assoc e.value (" " +++ t) rest
            ∙ ap (λ x. e.value +++ x) (append_assoc " " t rest)))
        ∙ sym (append_assoc " " (e.value +++ " " +++ t) rest))
    ∙ sym (append_assoc k (" " +++ e.value +++ " " +++ t) rest)

until_end-keys_reply :
    (now : ℕ) (es : List (String × CacheEntry))
    → All HasPlain es
    → until_end (lines_from "" (keys_reply now es)) ≡ some (map (entry_line now) es)
unfolding until_end lines_from keys_reply rstrip
until_end-keys_reply now [] h = refl
until_end-keys_reply now (p ∷ es) (x, h) =
    let n = same-ne (entry_line now p) "END" (entry_line-ne-end now p x) in
    rw
      (
        keys_reply-cons now p es,
        lines_from-crlf (entry_line now p) (keys_reply now es)
            (NoBoundary-NoEnd _ (entry_line-NoBoundary now p x)),
        until_end,
        n,
        until_end-keys_reply now es h,
      )
      refl

-- `int` reads the decimals of the protocol, and the `-1` that stands for no TTL.
abbrev pub ReadsInts : (String → Option Seconds) → Type 0
ReadsInts int = (int "-1" ≡ some (minus 1)) × ((n : ℕ) → int (show n) ≡ some (plus n))

module _ (int : String → Option Seconds) (reads : ReadsInts int) (now : ℕ) where
  item_ttl-text : (o : Option ℕ) → item_ttl (int (ttl_text o)) ≡ o
  unfolding item_ttl
  item_ttl-text none = rw reads.0 refl
  item_ttl-text (some n) = rw (reads.1 n) refl

  items-lines :
      (es : List (String × CacheEntry))
      → All HasPlain es
      → items int (map (entry_line now) es) ≡ map (listed now) es
  unfolding items item entry_line
  items-lines [] h = refl
  items-lines ((k, e) ∷ es) (x, h) =
      rw
        (
          items,
          entry_line,
          split_two-words k e.value (ttl_text (ttl_remaining now e)) x.0.1 x.1.1,
          item_ttl-text (ttl_remaining now e),
          ttl_remaining-seconds_left now e,
          items-lines es h,
        )
        refl

  list_keys-lines :
      (es : List (String × CacheEntry))
      → All HasPlain es
      → list_keys int (join "\n" (map (entry_line now) es)) ≡ map (listed now) es
  unfolding list_keys
  list_keys-lines es h =
      rw (splitlines-join (map (entry_line now) es) (lines_plain es h) (lines_full es h))
        (items-lines es h)
    where
      lines_plain :
          (es : List (String × CacheEntry))
          → All HasPlain es
          → All NoBoundary (map (entry_line now) es)
      lines_plain [] h = tt
      lines_plain (p ∷ es) (x, h) = (entry_line-NoBoundary now p x, lines_plain es h)

      lines_full :
          (es : List (String × CacheEntry))
          → All HasPlain es
          → All (λ l. l ≢ "") (map (entry_line now) es)
      lines_full [] h = tt
      lines_full (p ∷ es) (x, h) = (entry_line-ne-nil now p x, lines_full es h)

  -- The client's view of a listing: the entries with the seconds that remain, in the server's order.
  pub list_keys-keys_reply :
      (es : List (String × CacheEntry))
      → All HasPlain es
      → (response : String) × (read_listing (keys_reply now es) ≡ some response)
        × (list_keys int response ≡ map (listed now) es)
  unfolding read_listing
  list_keys-keys_reply es h = (
    join "\n" (map (entry_line now) es),
    rw (until_end-keys_reply now es h, read_listing) refl,
    list_keys-lines es h,
  )

pub keys_reply-truthy :
    (now : ℕ) (es : List (String × CacheEntry))
    → All HasPlain es
    → truthy (keys_reply now es) ≡ true
unfolding keys_reply
keys_reply-truthy now [] h = refl
keys_reply-truthy now (p ∷ es) (x, h) =
    rw
      (
        keys_reply-cons now p es,
        same-ne (entry_line now p +++ crlf +++ keys_reply now es) ""
            (append-ne_nil (entry_line now p) _ (entry_line-ne-nil now p x)),
      )
      refl
