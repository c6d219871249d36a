-- ===== src/Engine/Counters.antt =====
-- cpp_core/src/kv_store.cpp: the counters over a run of calls, modulo 2^64.
use Prim.Native.String.{String}
use quark_cache.Common.{
  ℕ, ◌+◌, ◌%◌, ◌≤◌, ◌≡◌, refl, sym, ap, subst, ◌∙◌, Option, none, some, List, [], ◌∷◌, ltb, length,
  length-map, arith, Bool-cases, Option-cases, inl, inr,
}
use quark_cache.Engine.{word}
use quark_cache.Engine.Lru
use quark_cache.Engine.Lru.{LruCache}
use quark_cache.Engine.Refines.{empty-Refines}
use quark_cache.Engine.Promise.{Recency, stored_bytes, stored_bytes-pair, pair, Shows}
use quark_cache.Engine.Runs.{answers, left, run-Shows}
use quark_cache.Engine.Store.{
  KvStore, Request, set_key, get_key, del_key, sweep, connect, disconnect, Answer, done, found,
  serve, run, set, get, del, evict_expired, increment_connections, decrement_connections, asked,
  create, fresh_store, get_stats,
}

-- A call that counts as a request; a hit; a miss.
abbrev pub asks : Request → ℕ
asks (set_key now key value ttl) = 1
asks (get_key now key) = 1
asks (del_key key) = 1
asks _ = 0

abbrev pub hit : Answer → ℕ
hit (found (some v)) = 1
hit _ = 0

abbrev pub miss : Answer → ℕ
miss (found none) = 1
miss _ = 0

abbrev pub requests_in : List Request → ℕ
requests_in [] = 0
requests_in (q ∷ qs) = asks q + requests_in qs

abbrev pub hits_in : List Answer → ℕ
hits_in [] = 0
hits_in (a ∷ rest) = hit a + hits_in rest

abbrev pub misses_in : List Answer → ℕ
misses_in [] = 0
misses_in (a ∷ rest) = miss a + misses_in rest

abbrev pub HasCounted : ℕ → ℕ → ℕ → KvStore → Type 0
HasCounted t h m s = (s.total_requests ≡ t % word) × (s.hits ≡ h % word) × (s.misses ≡ m % word)

module _ (t h m : ℕ) where
  get-HasCounted :
      (now : ℕ) (key : String) (s : KvStore)
      → HasCounted t h m s
      → let a = found (get now key s).0 in
        HasCounted (t + 1) (h + hit a) (m + miss a) (get now key s).1
  unfolding get
  get-HasCounted now key s (x, y, z) = elim (Option-cases (Lru.get now key s.lru).0) [
    | inl e ↦ rw (e, get) (omega arith, omega arith, omega arith)
    | inr (v, e) ↦ rw (e, get) (omega arith, omega arith, omega arith)
  ]

  abbrev Tallies : Request → Answer → KvStore → Type 0
  Tallies q a s = HasCounted (t + asks q) (h + hit a) (m + miss a) s

  -- The answer and the store that a call gives are those that it returns.
  Tallies-result :
      (q : Request) (a b : Answer) (s s' : KvStore)
      → Path (Option (Answer × KvStore)) (some (a, s)) (some (b, s'))
      → Tallies q a s
      → Tallies q b s'
  Tallies-result q a b s s' e k =
      let same_answer : a ≡ b = cc in
      let same_store : s ≡ s' = cc in rw (← same_answer, ← same_store) k

  serve-HasCounted :
      (q : Request) (s : KvStore) (a : Answer) (s' : KvStore)
      → serve q s ≡ some (a, s')
      → HasCounted t h m s
      → Tallies q a s'
  unfolding serve set del evict_expired increment_connections decrement_connections
  serve-HasCounted (set_key now key value ttl) s a s' e (x, y, z) =
      elim (Option-cases (Lru.set now key value ttl s.lru)) [
        | inl k ↦ let e' = rw (k, set) at e in cc
        | inr (c, k) ↦
            Tallies-result (set_key now key value ttl) done a (record (asked s) { lru = c }) s'
              (rw (k, set) at e) (omega arith, omega arith, omega arith)
      ]
  serve-HasCounted (get_key now key) s a s' e c =
      Tallies-result (get_key now key) _ a _ s' e (get-HasCounted now key s c)
  serve-HasCounted (del_key key) s a s' e (x, y, z) =
      Tallies-result (del_key key) _ a _ s' e (omega arith, omega arith, omega arith)
  serve-HasCounted (sweep now) s a s' e (x, y, z) =
      Tallies-result (sweep now) _ a _ s' e (omega arith, omega arith, omega arith)
  serve-HasCounted connect s a s' e (x, y, z) =
      Tallies-result connect _ a _ s' e (omega arith, omega arith, omega arith)
  serve-HasCounted disconnect s a s' e (x, y, z) = elim (Bool-cases (ltb 0 s.active_connections)) [
    | inl k ↦
        Tallies-result disconnect done a _ s' (rw (k, decrement_connections) at e)
          (omega arith, omega arith, omega arith)
    | inr k ↦
        Tallies-result disconnect done a s s' (rw (k, decrement_connections) at e)
          (omega arith, omega arith, omega arith)
  ]

run-HasCounted :
    (qs : List Request) (t h m : ℕ) (s : KvStore) (out : List Answer) (s' : KvStore)
    → run qs s ≡ some (out, s')
    → HasCounted t h m s
    → HasCounted (t + requests_in qs) (h + hits_in out) (m + misses_in out) s'
unfolding run
run-HasCounted [] t h m s out s' e (x, y, z) =
    let same_out : [] ≡ out = cc in
    let same_store : s ≡ s' = cc in
    rw (← same_out, ← same_store) (omega arith, omega arith, omega arith)
run-HasCounted (q ∷ qs) t h m s out s' e counted = elim (Option-cases (serve q s)) [
  | inl k ↦ let e' = rw k at e in cc
  | inr ((a, s1), k) ↦
      let e1 = rw k at e in
      elim (Option-cases (run qs s1)) [
        | inl l ↦ let e2 = rw l at e1 in cc
        | inr ((rest, s2), l) ↦
            let e2 = rw l at e1 in
            let same_out : a ∷ rest ≡ out = cc in
            let same_store : s2 ≡ s' = cc in
            let (x, y, z) =
              run-HasCounted qs (t + asks q) (h + hit a) (m + miss a) s1 rest s2 l
                (serve-HasCounted t h m q s a s1 k counted) in
            rw (← same_out, ← same_store) (omega arith, omega arith, omega arith)
      ]
]

-- What a run from a new store comes to.
pub record Ends (capacity : ℕ) (qs : List Request) : Type 0 where
  pub store : KvStore
  pub end : KvStore
  pub created : create capacity ≡ some store
  pub ran : run qs store ≡ some (answers capacity qs [], end)
  pub shows : Shows end.lru (left capacity qs [])

create-some :
    (capacity : ℕ) → 1 ≤ capacity → create capacity ≡ some (fresh_store (Lru.empty capacity))
unfolding create Lru.create
create-some capacity h = ground arith

-- Every run of calls on a new store of non-zero capacity ends, answers each call as the list of entries
-- in the order of use says, and leaves the entries that it says.
pub run-Ends : (capacity : ℕ) (qs : List Request) → 1 ≤ capacity → Ends capacity qs
run-Ends capacity qs h =
    let s = fresh_store (Lru.empty capacity) in
    let (s', e, shown) = run-Shows qs s [] ([], empty-Refines capacity h, refl) in
    record { store = s; end = s'; created = create-some capacity h; ran = e; shows = shown }

bytes-Shows :
    (c : LruCache) (rs : Recency)
    → Shows c rs
    → (c.bytes_used ≡ stored_bytes rs % word)
      × (length c.entries ≡ length rs)
      × (length rs ≤ c.capacity)
bytes-Shows c rs (ss, r, shown) =
    subst
      (λ l.
        (c.bytes_used ≡ stored_bytes l % word)
        × (length c.entries ≡ length l)
        × (length l ≤ c.capacity))
      shown
      (
        r.bytes ∙ ap (λ b. b % word) (sym (stored_bytes-pair ss)),
        r.counts ∙ sym (length-map pair ss),
        rw (length-map pair ss) r.fits,
      )

-- What the statistics and the sizes say after a run.
abbrev pub Totals : (capacity : ℕ) (qs : List Request) → KvStore → Type 0
Totals capacity qs s =
    ((get_stats s).total_requests ≡ requests_in qs % word)
    × ((get_stats s).hits ≡ hits_in (answers capacity qs []) % word)
    × ((get_stats s).misses ≡ misses_in (answers capacity qs []) % word)
    × ((get_stats s).bytes_used ≡ stored_bytes (left capacity qs []) % word)
    × (length s.lru.entries ≤ s.lru.capacity)

-- After a run from a new store the statistics count, modulo 2^64, the calls, the reads that found a
-- value and those that did not, and the bytes of the keys and values that are stored; and no more keys
-- are stored than the capacity.
pub run-Totals :
    (capacity : ℕ) (qs : List Request) (run' : Ends capacity qs)
    → 1 ≤ capacity
    → Totals capacity qs run'.end
unfolding get_stats
run-Totals capacity qs run' h =
    let same_start : fresh_store (Lru.empty capacity) ≡ run'.store =
      let e = sym (create-some capacity h) ∙ run'.created in cc in
    let (x, y, z) =
      run-HasCounted qs 0 0 0 run'.store (answers capacity qs []) run'.end run'.ran
        (rw (← same_start) (refl, refl, refl)) in
    let (bytes, many, fits) = bytes-Shows run'.end.lru (left capacity qs []) run'.shows in
    (omega arith, omega arith, omega arith, bytes, omega arith)
