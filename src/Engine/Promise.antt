-- ===== src/Engine/Promise.antt =====
-- What the cache promises, with no list of nodes and no map: the entries in the order of use, the last
-- used first, and what each operation answers and leaves.
use Prim.Native.String.{String}
use quark_cache.Common.{
  ℕ, ◌+◌, ◌≡◌, refl, ap, Option, none, some, List, [], ◌∷◌, map, length, leb, same, if◌then◌else◌,
  arith,
}
use quark_cache.Engine.Lru.{CacheEntry, LruCache, MapValue, is_expired, entry_bytes}
use quark_cache.Engine.Recency.{Slot, held, remove, total}
use quark_cache.Engine.Refines.{Refines}
use quark_cache.Engine.Refines.Last.{init}

abbrev pub Recency : Type 0
Recency = List (String × CacheEntry)

unfoldable pub entry_of : String → Recency → Option CacheEntry
entry_of key [] = none
entry_of key ((k, e) ∷ rs) = let rest = entry_of key rs in if same k key then some e else rest

unfoldable pub without_key : String → Recency → Recency
without_key key [] = []
without_key key ((k, e) ∷ rs) =
    let rest = without_key key rs in if same k key then rs else (k, e) ∷ rest

abbrev pub drop_oldest : Recency → Recency
drop_oldest [] = []
drop_oldest (r ∷ []) = []
drop_oldest (r ∷ s ∷ rs) = r ∷ drop_oldest (s ∷ rs)

-- A key that is set comes to the front; a new one costs the oldest entry if the cache is full.
abbrev pub put : ℕ → String → CacheEntry → Recency → Recency
put capacity key e rs = (key, e) ∷ elim (entry_of key rs) [
  | some old ↦ without_key key rs
  | none ↦ if leb capacity (length rs) then drop_oldest rs else rs
]

abbrev pub looked_up : ℕ → String → Recency → Option String
looked_up now key rs = elim (entry_of key rs) [
  | none ↦ none
  | some e ↦ if is_expired now e then none else some e.value
]

-- A key that is read comes to the front, or goes if it has expired.
abbrev pub used : ℕ → String → Recency → Recency
used now key rs = elim (entry_of key rs) [
  | none ↦ rs
  | some e ↦ if is_expired now e then without_key key rs else (key, e) ∷ without_key key rs
]

unfoldable pub live : ℕ → Recency → Recency
live now [] = []
live now ((k, e) ∷ rs) = let rest = live now rs in if is_expired now e then rest else (k, e) ∷ rest

unfoldable pub stored_bytes : Recency → ℕ
stored_bytes [] = 0
stored_bytes ((k, e) ∷ rs) = entry_bytes k e + stored_bytes rs

abbrev pub pair : Slot → String × CacheEntry
pair s = (s.key, s.entry)

-- The cache holds these entries, used in this order.
abbrev pub Shows : LruCache → Recency → Type 0
Shows c rs = (ss : List Slot) × Refines c ss × (map pair ss ≡ rs)

module _ (key : String) where
  pub entry_of-pair-none : (ss : List Slot) → held key ss ≡ none → entry_of key (map pair ss) ≡ none
  unfolding entry_of held
  entry_of-pair-none [] h = refl
  entry_of-pair-none (s ∷ ss) h = ground (arith, entry_of-pair-none ss)

  pub entry_of-pair :
      (mv : MapValue) (ss : List Slot)
      → held key ss ≡ some mv
      → entry_of key (map pair ss) ≡ some mv.entry
  unfolding entry_of held
  entry_of-pair mv [] h = cc
  entry_of-pair mv (s ∷ ss) h = ground (arith, entry_of-pair mv ss)

  pub without_key-pair : (ss : List Slot) → without_key key (map pair ss) ≡ map pair (remove key ss)
  unfolding without_key remove
  without_key-pair [] = refl
  without_key-pair (s ∷ ss) = ground (arith, without_key-pair ss)

  pub remove_of_none : (ss : List Slot) → held key ss ≡ none → remove key ss ≡ ss
  unfolding held remove
  remove_of_none [] h = refl
  remove_of_none (s ∷ ss) h = ground (arith, remove_of_none ss)

pub drop_oldest-pair : (ss : List Slot) → drop_oldest (map pair ss) ≡ map pair (init ss)
drop_oldest-pair [] = refl
drop_oldest-pair (s ∷ []) = refl
drop_oldest-pair (s ∷ t ∷ ss) = ap (◌∷◌ (pair s)) (drop_oldest-pair (t ∷ ss))

pub stored_bytes-pair : (ss : List Slot) → stored_bytes (map pair ss) ≡ total ss
unfolding stored_bytes total
stored_bytes-pair [] = refl
stored_bytes-pair (s ∷ ss) = ap (◌+◌ (entry_bytes s.key s.entry)) (stored_bytes-pair ss)
