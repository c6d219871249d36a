-- ===== src/Engine/Keeps.antt =====
-- cpp_core/src/lru_cache.cpp: `set`, `get` and `del` against what is promised.
use Prim.Native.String.{String}
use quark_cache.Common.{
  ℕ, ◌≡◌, refl, sym, ap, subst, ◌∙◌, inl, inr, Option, some, List, ◌∷◌, map, length, leb, is_some,
  Bool-cases, Option-cases, if◌then◌else◌, length-map,
}
use quark_cache.Engine.Lru.{
  LruCache, Seconds, is_expired, set, get, del, new_entry, touch, overwrite, push_front, pushed,
}
use quark_cache.Engine.Recency.{Slot, held, remove}
use quark_cache.Engine.Refines.{
  Refines, discard-Refines, touch-Refines, overwrite-Refines, push_front-Refines,
}
use quark_cache.Engine.Refines.Last.{roomy, held-roomy, make_room-HasRoom}
use quark_cache.Engine.Promise.{
  Recency, entry_of, without_key, drop_oldest, put, looked_up, used, pair, Shows,
  entry_of-pair-none, entry_of-pair, without_key-pair, drop_oldest-pair, remove_of_none,
}

del-slots :
    (key : String) (c : LruCache) (ss : List Slot)
    → Refines c ss
    → ((del key c).0 ≡ is_some (entry_of key (map pair ss)))
      × Shows (del key c).1 (without_key key (map pair ss))
unfolding del
del-slots key c ss refines = elim (Option-cases (held key ss)) [
  | inl h ↦
      rw (refines.finds key ∙ h, del, entry_of-pair-none key ss h)
        (
          refl,
          (ss, refines, sym (without_key-pair key ss ∙ ap (map pair) (remove_of_none key ss h))),
        )
  | inr (mv, h) ↦
      rw (refines.finds key ∙ h, del, entry_of-pair key mv ss h)
        (
          refl,
          (remove key ss, discard-Refines key mv c ss refines h, sym (without_key-pair key ss)),
        )
]

-- `del` answers whether the key was there, and takes it away.
pub del-Shows :
    (key : String) (c : LruCache) (rs : Recency)
    → Shows c rs
    → ((del key c).0 ≡ is_some (entry_of key rs)) × Shows (del key c).1 (without_key key rs)
del-Shows key c rs (ss, refines, shown) =
    subst
      (λ r. ((del key c).0 ≡ is_some (entry_of key r)) × Shows (del key c).1 (without_key key r))
      shown (del-slots key c ss refines)

get-slots :
    (now : ℕ) (key : String) (c : LruCache) (ss : List Slot)
    → Refines c ss
    → ((get now key c).0 ≡ looked_up now key (map pair ss))
      × Shows (get now key c).1 (used now key (map pair ss))
unfolding get
get-slots now key c ss refines = elim (Option-cases (held key ss)) [
  | inl h ↦
      rw (refines.finds key ∙ h, get, entry_of-pair-none key ss h, looked_up, used)
        (refl, (ss, refines, refl))
  | inr (mv, h) ↦ elim (Bool-cases (is_expired now mv.entry)) [
    | inl old ↦
        rw (refines.finds key ∙ h, get, entry_of-pair key mv ss h, looked_up, used, old)
          (
            refl,
            (remove key ss, discard-Refines key mv c ss refines h, sym (without_key-pair key ss)),
          )
    | inr fresh ↦
        rw (refines.finds key ∙ h, get, entry_of-pair key mv ss h, looked_up, used, fresh)
          (
            refl,
            (
              _,
              touch-Refines key mv c ss refines h,
              ap (◌∷◌ (key, mv.entry)) (sym (without_key-pair key ss)),
            ),
          )
  ]
]

-- `get` answers the value of a key that is there and has not expired; it moves the entry to the front,
-- or takes an expired one away.
pub get-Shows :
    (now : ℕ) (key : String) (c : LruCache) (rs : Recency)
    → Shows c rs
    → ((get now key c).0 ≡ looked_up now key rs) × Shows (get now key c).1 (used now key rs)
get-Shows now key c rs (ss, refines, shown) =
    subst
      (λ r. ((get now key c).0 ≡ looked_up now key r) × Shows (get now key c).1 (used now key r))
      shown (get-slots now key c ss refines)

roomy-pair :
    (capacity : ℕ) (ss : List Slot)
    → map pair (roomy capacity ss)
      ≡ (if leb capacity (length (map pair ss)) then drop_oldest (map pair ss) else map pair ss)
roomy-pair capacity ss = rw (length-map pair ss) (elim (Bool-cases (leb capacity (length ss))) [
  | inl e ↦ rw e (sym (drop_oldest-pair ss))
  | inr e ↦ rw e refl
])

-- How `set` ends: with a cache that holds what `put` says.
abbrev pub Puts : ℕ → String → String → Option Seconds → LruCache → Recency → Type 0
Puts now key text ttl c rs =
    (c' : LruCache) × (set now key text ttl c ≡ some c')
    × Shows c' (put c.capacity key (new_entry now text ttl) rs)
    × (c'.capacity ≡ c.capacity)

set-slots :
    (now : ℕ) (key text : String) (ttl : Option Seconds) (c : LruCache) (ss : List Slot)
    → Refines c ss
    → Puts now key text ttl c (map pair ss)
unfolding set touch
set-slots now key text ttl c ss refines = elim (Option-cases (held key ss)) [
  | inl h ↦
      let (c', e, (after, fits, capacity, fresh)) = make_room-HasRoom c ss refines in
      (
        push_front key (new_entry now text ttl) c',
        rw (refines.finds key ∙ h, set) (ap (pushed key (new_entry now text ttl)) e),
        rw (entry_of-pair-none key ss h, put)
            (
              _,
              push_front-Refines key (new_entry now text ttl) c' (roomy c.capacity ss) after
                  (held-roomy key c.capacity ss h) fits,
              ap (◌∷◌ (key, new_entry now text ttl)) (roomy-pair c.capacity ss),
            ),
        capacity,
      )
  | inr (mv, h) ↦ (
    touch mv.order_it (overwrite key mv (new_entry now text ttl) c),
    rw (refines.finds key ∙ h, set) refl,
    rw (entry_of-pair key mv ss h, put)
        (
          _,
          overwrite-Refines key mv (new_entry now text ttl) c ss refines h,
          ap (◌∷◌ (key, new_entry now text ttl)) (sym (without_key-pair key ss)),
        ),
    refl,
  )
]

-- `set` ends: it puts the key in front, and a new key in a full cache costs the entry that was used
-- longest ago.
pub set-Shows :
    (now : ℕ) (key text : String) (ttl : Option Seconds) (c : LruCache) (rs : Recency)
    → Shows c rs
    → Puts now key text ttl c rs
set-Shows now key text ttl c rs (ss, refines, shown) =
    subst (Puts now key text ttl c) shown (set-slots now key text ttl c ss refines)
