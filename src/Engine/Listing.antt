-- ===== src/Engine/Listing.antt =====
-- cpp_core/src/lru_cache.cpp: what `all_entries` lists.
use Prim.Native.String.{String}
use quark_cache.Common.{
  ℕ, ◌≡◌, refl, sym, ap, subst, ◌∙◌, ◌↔◌, true, false, Option, none, some, List, [], ◌∷◌, In, inl,
  inr, same, Bool-cases, Option-cases,
}
use quark_cache.Engine.{key_cases, same_refl}
use quark_cache.Engine.Lru.{
  CacheEntry, LruCache, MapValue, is_expired, find, live_entries, all_entries,
}
use quark_cache.Engine.Lru.Map.{UniqueKeys, find-cons_same, find-cons_other}
use quark_cache.Engine.Recency.{held}
use quark_cache.Engine.Promise.{Recency, Shows, entry_of, entry_of-pair, entry_of-pair-none}

module _ (now : ℕ) (key : String) where
  -- The key is in the map with this entry, which has not expired.
  abbrev HasLive : List (String × MapValue) → CacheEntry → Type 0
  HasLive m e =
      (mv : MapValue) × (find key m ≡ some mv) × (mv.entry ≡ e) × (is_expired now e ≡ false)

  HasLive-later :
      (k : String) (w : MapValue) (m : List (String × MapValue)) (e : CacheEntry)
      → find k m ≡ none
      → HasLive m e
      → HasLive ((k, w) ∷ m) e
  HasLive-later k w m e first (mv, there, same_entry, fresh) = elim (key_cases k key) [
    | inl (i, t) ↦ absurd (
        let gone = subst (λ l. find l m ≡ none) i first in
        let q : Path (Option MapValue) none (some mv) = sym gone ∙ there in cc)
    | inr (i, t) ↦ (mv, find-cons_other key k w m t ∙ there, same_entry, fresh)
  ]

  live_entries-HasLive :
      (m : List (String × MapValue)) (e : CacheEntry)
      → UniqueKeys m
      → In (key, e) (live_entries now m)
      → HasLive m e
  unfolding live_entries
  live_entries-HasLive [] e u i = absurd i
  live_entries-HasLive ((k, w) ∷ m) e (first, u) i = elim (Bool-cases (is_expired now w.entry)) [
    | inl old ↦ HasLive-later k w m e first (live_entries-HasLive m e u (rw old at i))
    | inr fresh ↦ elim (rw fresh at i) [
      | inl h ↦
          let same_key : key ≡ k = ap (λ p. p.0) h in
          let same_entry : e ≡ w.entry = ap (λ p. p.1) h in
          (
            w,
            find-cons_same key k w m (subst (λ l. same l key ≡ true) same_key (same_refl key)),
            sym same_entry,
            rw same_entry fresh,
          )
      | inr h ↦ HasLive-later k w m e first (live_entries-HasLive m e u h)
    ]
  ]

  In-live_entries :
      (m : List (String × MapValue)) (mv : MapValue)
      → find key m ≡ some mv
      → is_expired now mv.entry ≡ false
      → In (key, mv.entry) (live_entries now m)
  unfolding live_entries find
  In-live_entries [] mv h fresh = cc
  In-live_entries ((k, w) ∷ m) mv h fresh = elim (key_cases k key) [
    | inl (i, t) ↦
        let same_value : w ≡ mv = let q = rw t at h in cc in
        let live : is_expired now w.entry ≡ false = rw same_value fresh in
        rw live (inl (rw (i, same_value) refl))
    | inr (i, t) ↦
        let later = In-live_entries m mv (rw t at h) fresh in
        elim (Bool-cases (is_expired now w.entry)) [
          | inl old ↦ rw old later
          | inr live ↦ rw live (inr later)
        ]
  ]

  -- `all_entries` lists a key with an entry exactly if the cache holds that entry for the key and it has
  -- not expired.
  pub all_entries-In_iff :
      (c : LruCache) (rs : Recency) (e : CacheEntry)
      → Shows c rs
      → In (key, e) (all_entries now c) ↔ ((entry_of key rs ≡ some e) × (is_expired now e ≡ false))
  unfolding all_entries
  all_entries-In_iff c rs e (ss, r, shown) = (
    λ i.
        let (mv, there, same_entry, fresh) = live_entries-HasLive c.entries e r.unique i in
        let found = entry_of-pair key mv ss (sym (r.finds key) ∙ there) in
        (subst (λ l. entry_of key l ≡ some e) shown (found ∙ ap some same_entry), fresh),
    λ h.
        let (found, fresh) = h in
        elim (Option-cases (held key ss)) [
          | inl k ↦
              let lost = subst (λ l. entry_of key l ≡ none) shown (entry_of-pair-none key ss k) in
              let q : Path (Option CacheEntry) none (some e) = sym lost ∙ found in cc
          | inr (mv, k) ↦
              let held_entry =
                subst (λ l. entry_of key l ≡ some mv.entry) shown (entry_of-pair key mv ss k) in
              let same_entry : mv.entry ≡ e =
                let q : Path (Option CacheEntry) (some mv.entry) (some e) =
                  sym held_entry ∙ found in
                cc in
              subst (λ x. In (key, x) (live_entries now c.entries)) same_entry
                (In-live_entries c.entries mv (r.finds key ∙ k) (rw same_entry fresh))
        ],
  )
