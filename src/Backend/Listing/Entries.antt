-- ===== src/Backend/Listing/Entries.antt =====
-- backend/app/services/cache_client.py against cpp_core/src/server.cpp: an entry as a line of the reply to
-- `KEYS`, and as an item.
use Prim.Native.String.{String}
use text.Mathlib.TextLemmas.{nil-append, append-nil, cons-append, append_assoc}
use quark_cache.Common.{
  ℕ, zero, suc, ◌≡◌, ◌≢◌, refl, sym, ap, ◌∙◌, Option, none, some, ◌∷◌, arith, ◌-◌, ◌/◌,
  Option-cases, inl, inr,
}
use quark_cache.Common.Text.{◌+++◌, snoc, digit}
use quark_cache.Common.Text.Decimal.{show-holds}
use quark_cache.Engine.Lru.{CacheEntry, ttl_remaining}
use quark_cache.Server.{crlf, ttl_text}
use quark_cache.Server.Wire.{snoc-append}
use quark_cache.Backend.Client.{rstrip}
use quark_cache.Backend.Exchange.{NoEnd, rstrip-crlf}
use quark_cache.Backend.Lines.{
  is_boundary, NoBoundary, NoSpace, NoBoundary-append, NoSpace-append, cut_space, cut_space-append,
}
use quark_cache.Backend.Listing.{lines_from, Item}

-- A text that a line of the listing gives back: no line boundary, no space.
abbrev pub IsPlain : String → Type 0
IsPlain s = NoBoundary s × NoSpace s

pub NoBoundary-NoEnd : (s : String) → NoBoundary s → NoEnd s
unfolding is_boundary
NoBoundary-NoEnd String.[] h = tt
NoBoundary-NoEnd (String.◌∷◌ c s) (x, h) = (ground arith, ground arith, NoBoundary-NoEnd s h)

IsPlain-append : (s t : String) → IsPlain s → IsPlain t → IsPlain (s +++ t)
IsPlain-append s t (a, b) (c, d) = (NoBoundary-append s t a c, NoSpace-append s t b d)

digit-IsPlain : (n : ℕ) → IsPlain (digit n)
unfolding is_boundary
digit-IsPlain zero = ((refl, tt), (refl, tt))
digit-IsPlain (suc zero) = ((refl, tt), (refl, tt))
digit-IsPlain (suc (suc zero)) = ((refl, tt), (refl, tt))
digit-IsPlain (suc (suc (suc zero))) = ((refl, tt), (refl, tt))
digit-IsPlain (suc (suc (suc (suc zero)))) = ((refl, tt), (refl, tt))
digit-IsPlain (suc (suc (suc (suc (suc zero))))) = ((refl, tt), (refl, tt))
digit-IsPlain (suc (suc (suc (suc (suc (suc zero)))))) = ((refl, tt), (refl, tt))
digit-IsPlain (suc (suc (suc (suc (suc (suc (suc zero))))))) = ((refl, tt), (refl, tt))
digit-IsPlain (suc (suc (suc (suc (suc (suc (suc (suc zero)))))))) = ((refl, tt), (refl, tt))
digit-IsPlain (suc (suc (suc (suc (suc (suc (suc (suc (suc n))))))))) = ((refl, tt), (refl, tt))

ttl_text-IsPlain : (o : Option ℕ) → IsPlain (ttl_text o)
unfolding is_boundary
ttl_text-IsPlain none = ((refl, (refl, tt)), (refl, (refl, tt)))
ttl_text-IsPlain (some n) = show-holds IsPlain digit-IsPlain IsPlain-append n

-- The line of an entry, without its end.
unfoldable pub entry_line : ℕ → String × CacheEntry → String
unfolding ttl_remaining
entry_line now (k, e) = k +++ " " +++ e.value +++ " " +++ ttl_text (ttl_remaining now e)

lines_from-line : (cur l s : String) → NoEnd l → lines_from cur (l +++ s) ≡ lines_from (cur +++ l) s
unfolding lines_from
lines_from-line cur String.[] s h = rw (nil-append, append-nil) refl
lines_from-line cur (String.◌∷◌ c l) s (x, y, h) = rw cons-append (
    rw (lines_from, y)
      (lines_from-line (snoc cur c) l s h ∙ ap (λ t. lines_from t s) (snoc-append cur c l)))

pub lines_from-crlf :
    (l s : String) → NoEnd l → lines_from "" (l +++ crlf +++ s) ≡ l ∷ lines_from "" s
unfolding lines_from
lines_from-crlf l s h =
    lines_from-line "" l (crlf +++ s) h
    ∙ ap (λ t. lines_from t (crlf +++ s)) (nil-append l)
    ∙ rw (cons-append, cons-append, nil-append, lines_from)
        (ap (λ t. rstrip t ∷ lines_from "" s) (append_assoc l "\r" "\n")
          ∙ ap (λ t. t ∷ lines_from "" s) (rstrip-crlf l h))

abbrev pub HasPlain : String × CacheEntry → Type 0
HasPlain (k, e) = IsPlain k × IsPlain e.value

pub entry_line-NoBoundary :
    (now : ℕ) (p : String × CacheEntry) → HasPlain p → NoBoundary (entry_line now p)
unfolding entry_line is_boundary
entry_line-NoBoundary now (k, e) (h, v) =
    let t = ttl_text-IsPlain (ttl_remaining now e) in
    NoBoundary-append k _ h.0 (
      NoBoundary-append " " _ (refl, tt)
        (NoBoundary-append e.value _ v.0 (NoBoundary-append " " _ (refl, tt) t.0)))

spaced-ne-end : (k s : String) → NoSpace k → k +++ " " +++ s ≢ "END"
unfolding cut_space
spaced-ne-end k s h e =
    let q : Path (Option (String × String)) (some (k, s)) none =
      sym (cut_space-append k s h) ∙ ap cut_space e in
    cc

pub entry_line-ne-end : (now : ℕ) (p : String × CacheEntry) → HasPlain p → entry_line now p ≢ "END"
unfolding entry_line
entry_line-ne-end now (k, e) x = spaced-ne-end k _ x.0.1

pub entry_line-ne-nil : (now : ℕ) (p : String × CacheEntry) → HasPlain p → entry_line now p ≢ ""
unfolding entry_line cut_space
entry_line-ne-nil now (k, e) x q =
    let r : Path (Option (String × String)) (some _) none =
      sym (cut_space-append k _ x.0.1) ∙ ap cut_space q in
    cc

-- The whole seconds from now to a time, in nanoseconds; none for no time.
abbrev pub seconds_left : ℕ → Option ℕ → Option ℕ
seconds_left now none = none
seconds_left now (some t) = some ((t - now) / 1000000000)

pub ttl_remaining-seconds_left :
    (now : ℕ) (e : CacheEntry) → ttl_remaining now e ≡ seconds_left now e.expires_at
unfolding ttl_remaining
ttl_remaining-seconds_left now e = elim (Option-cases e.expires_at) [
  | inl h ↦ rw h refl
  | inr (t, h) ↦ rw h refl
]

abbrev pub listed : ℕ → String × CacheEntry → Item
listed now (k, e) = record {
  key = k;
  value = e.value;
  ttl_remaining = seconds_left now e.expires_at;
}
