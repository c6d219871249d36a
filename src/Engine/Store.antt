-- ===== src/Engine/Store.antt =====
-- cpp_core/src/kv_store.cpp with its header: the cache behind a lock, with its counters. Each method
-- holds the lock throughout, so a run of the threads is a sequence of calls.
use Prim.Native.String.{String}
use quark_cache.Common.{
  ℕ, ◌+◌, ◌-◌, ◌%◌, Bool, true, false, Option, none, some, List, [], ◌∷◌, is_some, ltb,
  if◌then◌else◌,
}
use quark_cache.Engine.{add_word}
use quark_cache.Engine.Lru
use quark_cache.Engine.Lru.{LruCache, Seconds}

pub record Stats : Type 0 where
  pub total_requests : ℕ
  pub hits : ℕ
  pub misses : ℕ
  pub bytes_used : ℕ
  pub active_connections : ℕ

pub record KvStore : Type 0 where
  pub lru : LruCache
  pub total_requests : ℕ
  pub hits : ℕ
  pub misses : ℕ
  pub active_connections : ℕ

abbrev pub fresh_store : LruCache → KvStore
fresh_store c = record { lru = c; total_requests = 0; hits = 0; misses = 0; active_connections = 0 }

abbrev pub with_cache : Option LruCache → Option KvStore
with_cache none = none
with_cache (some c) = some (fresh_store c)

-- The constructor, which throws what the cache's throws.
unfoldable pub create : ℕ → Option KvStore
unfolding Lru.create
create max_keys = with_cache (Lru.create max_keys)

abbrev pub asked : KvStore → KvStore
asked s = record s { total_requests = add_word s.total_requests 1 }

abbrev pub put_back : KvStore → Option LruCache → Option KvStore
put_back s none = none
put_back s (some c) = some (record s { lru = c })

unfoldable pub set : ℕ → String → String → Option Seconds → KvStore → Option KvStore
unfolding Lru.set
set now key value ttl s = put_back (asked s) (Lru.set now key value ttl s.lru)

abbrev pub tallied : Bool → KvStore → KvStore
tallied true s = record s { hits = add_word s.hits 1 }
tallied false s = record s { misses = add_word s.misses 1 }

unfoldable pub get : ℕ → String → KvStore → Option String × KvStore
unfolding Lru.get
get now key s =
    let (result, c) = Lru.get now key s.lru in
    (result, tallied (is_some result) (record (asked s) { lru = c }))

unfoldable pub del : String → KvStore → Bool × KvStore
unfolding Lru.del
del key s = let (result, c) = Lru.del key s.lru in (result, record (asked s) { lru = c })

unfoldable pub evict_expired : ℕ → KvStore → KvStore
unfolding Lru.evict_expired
evict_expired now s = record s { lru = (Lru.evict_expired now s.lru).1 }

unfoldable pub get_stats : KvStore → Stats
get_stats s = record {
  total_requests = s.total_requests;
  hits = s.hits;
  misses = s.misses;
  bytes_used = s.lru.bytes_used;
  active_connections = s.active_connections;
}

-- A `uint32_t`.
unfoldable pub increment_connections : KvStore → KvStore
increment_connections s = record s { active_connections = (s.active_connections + 1) % 4294967296 }

unfoldable pub decrement_connections : KvStore → KvStore
decrement_connections s =
    if ltb 0 s.active_connections
    then record s { active_connections = s.active_connections - 1 }
    else s

-- A call of the store, with the clock's reading where it matters, and its answer.
pub data Request : Type 0 where
  set_key : (now : ℕ) (key value : String) (ttl : Option Seconds) → Request
  get_key : (now : ℕ) (key : String) → Request
  del_key : (key : String) → Request
  sweep : (now : ℕ) → Request
  connect : Request
  disconnect : Request

pub data Answer : Type 0 where
  done : Answer
  found : Option String → Answer
  deleted : Bool → Answer

abbrev pub answered : Answer → Option KvStore → Option (Answer × KvStore)
answered a none = none
answered a (some s) = some (a, s)

unfoldable pub serve : Request → KvStore → Option (Answer × KvStore)
unfolding set get del evict_expired increment_connections decrement_connections
serve (set_key now key value ttl) s = answered done (set now key value ttl s)
serve (get_key now key) s = let (result, s') = get now key s in some (found result, s')
serve (del_key key) s = let (result, s') = del key s in some (deleted result, s')
serve (sweep now) s = some (done, evict_expired now s)
serve connect s = some (done, increment_connections s)
serve disconnect s = some (done, decrement_connections s)

abbrev pub and_then : Answer → Option (List Answer × KvStore) → Option (List Answer × KvStore)
and_then a none = none
and_then a (some (rest, s)) = some (a ∷ rest, s)

abbrev pub go_on :
    Option (Answer × KvStore)
    → (KvStore → Option (List Answer × KvStore))
    → Option (List Answer × KvStore)
go_on none f = none
go_on (some (a, s)) f = and_then a (f s)

unfoldable pub run : List Request → KvStore → Option (List Answer × KvStore)
unfolding serve
run [] s = some ([], s)
run (q ∷ qs) s = go_on (serve q s) (run qs)
