-- ===== src/Engine/Lru.antt =====
-- cpp_core/src/lru_cache.cpp with its header: `std::list` as a list of nodes that keep their identity,
-- so that an iterator is a node's identity; `std::unordered_map` as a list of pairs, in the order of
-- its iteration; the clock's reading, in nanoseconds, is an argument.
pub mod Map
pub mod Capacity
use Prim.Native.String.{String}
use quark_cache.Common.{
  ℕ, zero, suc, ◌+◌, ◌-◌, ◌*◌, ◌/◌, ◌%◌, Bool, true, false, not, Option, none, some, List, [], ◌∷◌,
  length, map, leb, ltb, same, ◌==◌, if◌then◌else◌,
}
use quark_cache.Engine.{add_word, sub_word, size}

pub record CacheEntry : Type 0 where
  pub value : String
  pub expires_at : Option ℕ

abbrev pub second : ℕ
second = 1000000000

unfoldable pub is_expired : ℕ → CacheEntry → Bool
is_expired now e = elim e.expires_at [ none ↦ false | some t ↦ leb t now ]

-- Seconds, rounded towards zero, and not below zero.
unfoldable pub ttl_remaining : ℕ → CacheEntry → Option ℕ
ttl_remaining now e = elim e.expires_at [ none ↦ none | some t ↦ some ((t - now) / second) ]

pub record OrderNode : Type 0 where
  pub id : ℕ
  pub key : String

pub record MapValue : Type 0 where
  pub order_it : ℕ
  pub entry : CacheEntry

-- `fresh` is the identity of the next node of the list.
pub record LruCache : Type 0 where
  pub capacity : ℕ
  pub bytes_used : ℕ
  pub order : List OrderNode
  pub entries : List (String × MapValue)
  pub fresh : ℕ

abbrev pub empty : ℕ → LruCache
empty capacity = record { capacity = capacity; bytes_used = 0; order = []; entries = []; fresh = 0 }

-- The constructor throws for no capacity.
unfoldable pub create : ℕ → Option LruCache
create capacity = if capacity == 0 then none else some (empty capacity)

-- `map_.find(key)`.
unfoldable pub find : String → List (String × MapValue) → Option MapValue
find key [] = none
find key ((k, mv) ∷ m) = let rest = find key m in if same k key then some mv else rest

-- What is written through an iterator of `map_`.
unfoldable pub update : String → MapValue → List (String × MapValue) → List (String × MapValue)
update key v [] = []
update key v ((k, mv) ∷ m) =
    let rest = update key v m in if same k key then (k, v) ∷ m else (k, mv) ∷ rest

-- `map_.erase(it)`.
unfoldable pub erase : String → List (String × MapValue) → List (String × MapValue)
erase key [] = []
erase key ((k, mv) ∷ m) = let rest = erase key m in if same k key then m else (k, mv) ∷ rest

-- `order_.erase(it)`.
unfoldable pub unlink : ℕ → List OrderNode → List OrderNode
unlink id [] = []
unlink id (n ∷ ns) = let rest = unlink id ns in if n.id == id then ns else n ∷ rest

-- `order_.splice(order_.begin(), order_, it)`.
unfoldable pub node_at : ℕ → List OrderNode → List OrderNode
node_at id [] = []
node_at id (n ∷ ns) = let rest = node_at id ns in if n.id == id then n ∷ [] else rest

abbrev pub append_nodes : List OrderNode → List OrderNode → List OrderNode
append_nodes [] ns = ns
append_nodes (m ∷ ms) ns = m ∷ append_nodes ms ns

-- `touch(it)`: the node moves to the front and keeps its identity, so `order_it` stays the same.
unfoldable pub touch : ℕ → LruCache → LruCache
unfolding node_at unlink
touch id c = record c { order = append_nodes (node_at id c.order) (unlink id c.order) }

-- The bytes of an entry, as they are taken off and put on.
abbrev pub entry_bytes : String → CacheEntry → ℕ
entry_bytes key e = size key + size e.value

abbrev pub back : List OrderNode → Option OrderNode
back [] = none
back (n ∷ []) = some n
back (n ∷ m ∷ ns) = back (m ∷ ns)

abbrev pub pop_back : List OrderNode → List OrderNode
pop_back [] = []
pop_back (n ∷ []) = []
pop_back (n ∷ m ∷ ns) = n ∷ pop_back (m ∷ ns)

-- An entry that goes: its bytes are taken off, and `order` is what is left of the nodes.
abbrev pub without : String → MapValue → List OrderNode → LruCache → LruCache
without key mv order c = record c {
  bytes_used = sub_word c.bytes_used (entry_bytes key mv.entry);
  order = order;
  entries = erase key c.entries;
}

unfoldable pub evict_lru : LruCache → LruCache
unfolding find erase size
evict_lru c = elim (back c.order) [
  | none ↦ c
  | some n ↦ elim (find n.key c.entries) [
    | none ↦ record c { order = pop_back c.order }
    | some mv ↦ without n.key mv (pop_back c.order) c
  ]
]

-- `while (map_.size() >= capacity_) evict_lru();`, on fuel.
unfoldable pub make_room : ℕ → LruCache → Option LruCache
unfolding evict_lru
make_room zero c = none
make_room (suc fuel) c =
    let rest = make_room fuel (evict_lru c) in
    if leb c.capacity (length c.entries) then rest else some c

-- `std::chrono::seconds`, which may be negative.
pub data Seconds : Type 0 where
  plus : ℕ → Seconds
  minus : ℕ → Seconds

-- A time point is an `int64_t` of nanoseconds. C++ leaves its overflow undefined; here it wraps, as it does
-- in two's complement. A time before the clock's start is written as the start: either has passed.
abbrev pub time_point : ℕ → ℕ
time_point t = let r = t % 18446744073709551616 in if ltb r 9223372036854775808 then r else 0

abbrev pub expiry : ℕ → Option Seconds → Option ℕ
expiry now none = none
expiry now (some (plus n)) = some (time_point (now + n * second))
expiry now (some (minus n)) =
    some (time_point (now + (18446744073709551616 - (n * second) % 18446744073709551616)))

abbrev pub new_entry : ℕ → String → Option Seconds → CacheEntry
new_entry now value ttl = record { value = value; expires_at = expiry now ttl }

abbrev pub overwrite : String → MapValue → CacheEntry → LruCache → LruCache
overwrite key mv e c = record c {
  bytes_used = add_word (sub_word c.bytes_used (entry_bytes key mv.entry)) (entry_bytes key e);
  entries = update key (record mv { entry = e }) c.entries;
}

abbrev pub push_front : String → CacheEntry → LruCache → LruCache
push_front key e c = record c {
  order = (record { id = c.fresh; key = key }) ∷ c.order;
  entries = (key, record { order_it = c.fresh; entry = e }) ∷ c.entries;
  bytes_used = add_word c.bytes_used (entry_bytes key e);
  fresh = suc c.fresh;
}

abbrev pub pushed : String → CacheEntry → Option LruCache → Option LruCache
pushed key e none = none
pushed key e (some c) = some (push_front key e c)

-- `set`, which always returns true; `none` would be a loop that does not end.
unfoldable pub set : ℕ → String → String → Option Seconds → LruCache → Option LruCache
unfolding find touch update make_room size
set now key value ttl c =
    let e = new_entry now value ttl in
    elim (find key c.entries) [
      | some mv ↦ some (touch mv.order_it (overwrite key mv e c))
      | none ↦ pushed key e (make_room (suc (length c.entries)) c)
    ]

-- What `get`, `del` and `evict_expired` do with an entry that goes.
abbrev pub discard : String → MapValue → LruCache → LruCache
discard key mv c = without key mv (unlink mv.order_it c.order) c

unfoldable pub get : ℕ → String → LruCache → Option String × LruCache
unfolding find is_expired touch unlink erase size
get now key c = elim (find key c.entries) [
  | none ↦ (none, c)
  | some mv ↦
      if is_expired now mv.entry
      then (none, discard key mv c)
      else (some mv.entry.value, touch mv.order_it c)
]

unfoldable pub del : String → LruCache → Bool × LruCache
unfolding find unlink erase size
del key c = elim (find key c.entries) [ none ↦ (false, c) | some mv ↦ (true, discard key mv c) ]

-- The loop of `evict_expired` over the entries that are left to visit.
unfoldable pub expire_from : ℕ → List (String × MapValue) → LruCache → ℕ × LruCache
unfolding is_expired unlink erase size
expire_from now [] c = (0, c)
expire_from now ((key, mv) ∷ m) c =
    let (n, c') = expire_from now m (discard key mv c) in
    let rest = expire_from now m c in if is_expired now mv.entry then (suc n, c') else rest

unfoldable pub evict_expired : ℕ → LruCache → ℕ × LruCache
unfolding expire_from
evict_expired now c = expire_from now c.entries c

unfoldable pub live_entries : ℕ → List (String × MapValue) → List (String × CacheEntry)
unfolding is_expired
live_entries now [] = []
live_entries now ((key, mv) ∷ m) =
    let rest = live_entries now m in
    if is_expired now mv.entry then rest else (key, mv.entry) ∷ rest

unfoldable pub all_entries : ℕ → LruCache → List (String × CacheEntry)
unfolding live_entries
all_entries now c = live_entries now c.entries
