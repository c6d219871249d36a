-- ===== src/Engine/Runs.antt =====
-- cpp_core/src/kv_store.cpp: runs of calls against what is promised.
use quark_cache.Common.{
  ℕ, ◌≡◌, refl, ap, ◌∙◌, Bool, true, false, some, List, [], ◌∷◌, is_some, ltb, Bool-cases, inl, inr,
}
use quark_cache.Engine.Lru
use quark_cache.Engine.Lru.{LruCache, new_entry}
use quark_cache.Engine.Lru.Capacity.{get-capacity, del-capacity, evict_expired-capacity}
use quark_cache.Engine.Promise.{Recency, entry_of, without_key, put, looked_up, used, live, Shows}
use quark_cache.Engine.Keeps.{set-Shows, get-Shows, del-Shows}
use quark_cache.Engine.Expiry.{evict_expired-Shows}
use quark_cache.Engine.Store.{
  KvStore, Request, set_key, get_key, del_key, sweep, connect, disconnect, Answer, done, found,
  deleted, answered, and_then, go_on, serve, run, set, get, del, evict_expired,
  increment_connections, decrement_connections, put_back, asked, tallied,
}

-- What a call answers, and what it leaves.
abbrev pub answer : Request → Recency → Answer
answer (get_key now key) rs = found (looked_up now key rs)
answer (del_key key) rs = deleted (is_some (entry_of key rs))
answer _ rs = done

abbrev pub after : ℕ → Request → Recency → Recency
after capacity (set_key now key value ttl) rs = put capacity key (new_entry now value ttl) rs
after capacity (get_key now key) rs = used now key rs
after capacity (del_key key) rs = without_key key rs
after capacity (sweep now) rs = live now rs
after capacity connect rs = rs
after capacity disconnect rs = rs

abbrev pub answers : ℕ → List Request → Recency → List Answer
answers capacity [] rs = []
answers capacity (q ∷ qs) rs = answer q rs ∷ answers capacity qs (after capacity q rs)

abbrev pub left : ℕ → List Request → Recency → Recency
left capacity [] rs = rs
left capacity (q ∷ qs) rs = left capacity qs (after capacity q rs)

-- A call ends, answers what is promised and leaves what is promised.
abbrev pub Serves : Request → KvStore → Recency → Type 0
Serves q s rs =
    (s' : KvStore) × (serve q s ≡ some (answer q rs, s'))
    × Shows s'.lru (after s.lru.capacity q rs)
    × (s'.lru.capacity ≡ s.lru.capacity)

tallied-lru : (b : Bool) (s : KvStore) → (tallied b s).lru ≡ s.lru
tallied-lru true s = refl
tallied-lru false s = refl

serve-Serves : (q : Request) (s : KvStore) (rs : Recency) → Shows s.lru rs → Serves q s rs
unfolding serve set get del evict_expired increment_connections decrement_connections
serve-Serves (set_key now key value ttl) s rs h =
    let (c, e, shown, capacity) = set-Shows now key value ttl s.lru rs h in
    (
      record (asked s) { lru = c },
      ap (λ o. answered done (put_back (asked s) o)) e,
      shown,
      capacity,
    )
serve-Serves (get_key now key) s rs h =
    let (e, shown) = get-Shows now key s.lru rs h in
    let s' = (get now key s).1 in
    let cache : s'.lru ≡ (Lru.get now key s.lru).1 =
      tallied-lru (is_some (Lru.get now key s.lru).0)
        (record (asked s) { lru = (Lru.get now key s.lru).1 }) in
    (s', ap (λ o. some (found o, s')) e, rw cache shown, rw cache (get-capacity now key s.lru))
serve-Serves (del_key key) s rs h =
    let (e, shown) = del-Shows key s.lru rs h in
    let s' = (del key s).1 in (s', ap (λ b. some (deleted b, s')) e, shown, del-capacity key s.lru)
serve-Serves (sweep now) s rs h =
    (_, refl, (evict_expired-Shows now s.lru rs h).1, evict_expired-capacity now s.lru)
serve-Serves connect s rs h = (_, refl, h, refl)
serve-Serves disconnect s rs h = elim (Bool-cases (ltb 0 s.active_connections)) [
  | inl e ↦ rw (e, decrement_connections) (_, refl, h, refl)
  | inr e ↦ rw (e, decrement_connections) (_, refl, h, refl)
]

-- A run that has ended, with these answers and these entries.
abbrev pub RunShows : List Request → KvStore → Recency → Type 0
RunShows qs s rs =
    (s' : KvStore) × (run qs s ≡ some (answers s.lru.capacity qs rs, s'))
    × Shows s'.lru (left s.lru.capacity qs rs)

pub run-Shows : (qs : List Request) (s : KvStore) (rs : Recency) → Shows s.lru rs → RunShows qs s rs
unfolding run
run-Shows [] s rs h = (s, refl, h)
run-Shows (q ∷ qs) s rs h =
    let (s', e, shown, capacity) = serve-Serves q s rs h in
    let (s'', e', shown') = run-Shows qs s' (after s.lru.capacity q rs) shown in
    (
      s'',
      ap (λ o. go_on o (run qs)) e ∙ ap (and_then (answer q rs)) (rw capacity at e'),
      rw capacity at shown',
    )
