-- ===== src/Tests/Engine.antt =====
-- A cache of two entries, and a short run of the store.
use Prim.Native.String.{String}
use quark_cache.Common.{
  In, ◌↔◌, suc, ◌+◌, ◌≡◌, ◌⊎◌, refl, ap, same, true, false, none, some, List, [], ◌∷◌, length,
  is_some, arith, if◌then◌else◌,
}
use quark_cache.Engine.{size}
use quark_cache.Engine.Lru.{
  all_entries, LruCache, plus, CacheEntry, set, get, del, evict_expired, find, is_expired,
  make_room,
}
use quark_cache.Engine.Recency.{Slot, held, total}
use quark_cache.Engine.Refines.{Refines}
use quark_cache.Engine.Refines.Last.{HasRoom, make_room-HasRoom}
use quark_cache.Engine.Promise.{Recency, Shows, looked_up, used, without_key, entry_of, live}
use quark_cache.Engine.Keeps.{Puts, set-Shows, get-Shows, del-Shows}
use quark_cache.Engine.Expiry.{evict_expired-Shows}
use quark_cache.Engine.Answers.{has_passed, IsEvicted, get-set, get-set_other}
use quark_cache.Engine.Listing.{all_entries-In_iff}
use quark_cache.Engine.Store.{Request, set_key, get_key, del_key, sweep, connect}
use quark_cache.Engine.Counters.{Ends, run-Ends, Totals, run-Totals}

-- `b` was used last; `a` expires at 5.
abbrev pub of_b : CacheEntry
of_b = record { value = "beta"; expires_at = none }

abbrev pub of_a : CacheEntry
of_a = record { value = "alpha"; expires_at = some 5 }

abbrev pub cache : LruCache
cache = record {
  capacity = 2;
  bytes_used = 11;
  order = (record { id = 1; key = "b" }) ∷ (record { id = 0; key = "a" }) ∷ [];
  entries =
      ("b", record { order_it = 1; entry = of_b })
      ∷ ("a", record { order_it = 0; entry = of_a })
      ∷ [];
  fresh = 2;
}

abbrev slots : List Slot
slots =
    (record { id = 1; key = "b"; entry = of_b }) ∷ (record { id = 0; key = "a"; entry = of_a }) ∷ []

cache-Refines : Refines cache slots
unfolding find held total size
cache-Refines = record {
  nodes = refl;
  finds = λ key. refl;
  counts = refl;
  unique = (refl, (refl, tt));
  keys = (refl, (refl, tt));
  ids = ((λ e. omega arith, tt), (tt, tt));
  below = (omega arith, (omega arith, tt));
  bytes = refl;
  fits = omega arith;
  room = omega arith;
}

abbrev pub recency : Recency
recency = ("b", of_b) ∷ ("a", of_a) ∷ []

pub cache-Shows : Shows cache recency
cache-Shows = (slots, cache-Refines, refl)

make_room-HasRoom_example :
    (c' : LruCache) × (make_room (suc (length cache.entries)) cache ≡ some c')
    × HasRoom cache slots c'
make_room-HasRoom_example = make_room-HasRoom cache slots cache-Refines

set-Shows_example : Puts 3 "c" "gamma" (some (plus 60)) cache recency
set-Shows_example = set-Shows 3 "c" "gamma" (some (plus 60)) cache recency cache-Shows

get-Shows_example :
    ((get 3 "a" cache).0 ≡ looked_up 3 "a" recency) × Shows (get 3 "a" cache).1 (used 3 "a" recency)
get-Shows_example = get-Shows 3 "a" cache recency cache-Shows

del-Shows_example :
    ((del "a" cache).0 ≡ is_some (entry_of "a" recency))
    × Shows (del "a" cache).1 (without_key "a" recency)
del-Shows_example = del-Shows "a" cache recency cache-Shows

evict_expired-Shows_example :
    ((evict_expired 5 cache).0 + length (live 5 recency) ≡ length recency)
    × Shows (evict_expired 5 cache).1 (live 5 recency)
evict_expired-Shows_example = evict_expired-Shows 5 cache recency cache-Shows

get-set_example :
    (c' : LruCache) × (set 3 "c" "gamma" (some (plus 60)) cache ≡ some c')
    × ((get 9 "c" c').0 ≡ (if has_passed 3 9 (some (plus 60)) then none else some "gamma"))
get-set_example = get-set cache recency cache-Shows 3 9 "c" "gamma" (some (plus 60)) (omega arith)

all_entries-In_iff_example :
    In ("a", of_a) (all_entries 3 cache)
    ↔ ((entry_of "a" recency ≡ some of_a) × (is_expired 3 of_a ≡ false))
all_entries-In_iff_example = all_entries-In_iff 3 "a" cache recency of_a cache-Shows

c-ne-b : (e : Path String "c" "b") → ⊥
c-ne-b e = let k : false ≡ true = ap (λ s. same s "b") e in cc

get-set_other_example :
    (c' : LruCache) × (set 3 "c" "gamma" none cache ≡ some c')
    × (((get 4 "b" c').0 ≡ (get 4 "b" cache).0) ⊎ IsEvicted cache "c" "b")
get-set_other_example = get-set_other cache recency cache-Shows 3 4 "c" "b" "gamma" none c-ne-b

abbrev requests : List Request
requests =
    connect
    ∷ set_key 0 "a" "alpha" (some (plus 1))
    ∷ set_key 1 "b" "beta" none
    ∷ get_key 2 "a"
    ∷ set_key 3 "c" "gamma" none
    ∷ get_key 4 "b"
    ∷ sweep 2000000000
    ∷ del_key "c"
    ∷ []

run-Ends_example : Ends 2 requests
run-Ends_example = run-Ends 2 requests (omega arith)

run-Totals_example : Totals 2 requests (run-Ends 2 requests (omega arith)).end
run-Totals_example = run-Totals 2 requests (run-Ends 2 requests (omega arith)) (omega arith)
