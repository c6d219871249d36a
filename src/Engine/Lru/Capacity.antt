-- ===== src/Engine/Lru/Capacity.antt =====
-- cpp_core/src/lru_cache.cpp: the capacity across `get`, `del` and `evict_expired`.
use Prim.Native.String.{String}
use quark_cache.Common.{ℕ, ◌≡◌, refl, List, [], ◌∷◌, arith, Bool-cases, inl, inr}
use quark_cache.Engine.Lru.{
  LruCache, MapValue, get, del, touch, discard, is_expired, expire_from, evict_expired,
}

pub get-capacity : (now : ℕ) (key : String) (c : LruCache) → (get now key c).1.capacity ≡ c.capacity
unfolding get touch
get-capacity now key c = ground arith

pub del-capacity : (key : String) (c : LruCache) → (del key c).1.capacity ≡ c.capacity
unfolding del
del-capacity key c = ground arith

expire_from-capacity :
    (now : ℕ) (m : List (String × MapValue)) (c : LruCache)
    → (expire_from now m c).1.capacity ≡ c.capacity
unfolding expire_from
expire_from-capacity now [] c = refl
expire_from-capacity now ((k, mv) ∷ m) c = elim (Bool-cases (is_expired now mv.entry)) [
  | inl old ↦ rw old (expire_from-capacity now m (discard k mv c))
  | inr fresh ↦ rw fresh (expire_from-capacity now m c)
]

pub evict_expired-capacity :
    (now : ℕ) (c : LruCache) → (evict_expired now c).1.capacity ≡ c.capacity
unfolding evict_expired
evict_expired-capacity now c = expire_from-capacity now c.entries c
