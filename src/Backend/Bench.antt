-- ===== src/Backend/Bench.antt =====
-- backend/app/services/benchmark_service.py: the operations of a benchmark, their batches, and the
-- statistics of their latencies. Times are readings of the performance counter. The operations of a batch
-- overlap, and the server serves one command at a time, in an order that is an argument. A call that ends
-- with an exception of another kind than the client's, which would end the run, is counted as an error.
pub mod Request
pub mod Bounds
pub mod Batches
pub mod Healthy
use Prim.Native.String.{String}
use quark_cache.Common.{
  ℕ, zero, suc, ◌+◌, ◌-◌, ◌*◌, ◌/◌, Bool, true, false, Option, none, some, List, [], ◌∷◌, ◌++◌, leb,
  ltb, length, drop, get_elem?, is_empty, if◌then◌else◌,
}
use quark_cache.Common.Text.{◌+++◌, show}
use quark_cache.Backend.Client.{Result, is_error}
use quark_cache.Backend.Service.{Network, set_key, get_key}

-- `(key, value, is_read)`.
pub record Op : Type 0 where
  pub key : String
  pub value : String
  pub is_read : Bool

module _ {S : Type 0} (network : Network S) where
  -- `_timed_op`, with the two readings of the counter.
  unfoldable pub timed_op : ℕ → ℕ → Op → S → (ℕ × Bool) × S
  unfolding get_key set_key
  timed_op t0 t1 op s =
      if op.is_read
      then (let (result, s') = get_key network op.key s in ((t1 - t0, is_error result), s'))
      else (let (result, s') = set_key network op.key op.value none s in
          ((t1 - t0, is_error result), s'))

  -- Operations that the server serves in turn, with the readings of each, numbered from `i` on.
  unfoldable pub in_turn : (ℕ → ℕ × ℕ) → ℕ → List Op → S → List (ℕ × Bool) × S
  unfolding timed_op
  in_turn clock i [] s = ([], s)
  in_turn clock i (op ∷ ops) s =
      let (t0, t1) = clock i in
      let (r, s') = timed_op t0 t1 op s in
      let (rs, s'') = in_turn clock (suc i) ops s' in (r ∷ rs, s'')

  -- `asyncio.gather` of a batch: its operations run at the same time, and `order` brings them into the order
  -- in which the server gets them. The results stand in that order: the run counts and sorts them only.
  unfoldable pub gather : (List Op → List Op) → (ℕ → ℕ × ℕ) → ℕ → List Op → S → List (ℕ × Bool) × S
  unfolding in_turn
  gather order clock i ops s = in_turn clock i (order ops) s

-- `f"bench:{i}"`.
abbrev pub bench_key : ℕ → String
bench_key i = "bench:" +++ show i

-- The operations before they are shuffled: the choices of keys and values are arguments.
unfoldable pub writes : ℕ → (ℕ → ℕ × String) → List Op
writes zero choice = []
writes (suc n) choice =
    record { key = bench_key (choice n).0; value = (choice n).1; is_read = false } ∷ writes n choice

unfoldable pub reads : ℕ → (ℕ → ℕ) → List Op
reads zero choice = []
reads (suc n) choice =
    record { key = bench_key (choice n); value = ""; is_read = true } ∷ reads n choice

unfoldable pub operations : ℕ → ℕ → (ℕ → ℕ × String) → (ℕ → ℕ) → List Op
unfolding writes reads
operations num_ops num_read write_choice read_choice =
    writes (num_ops - num_read) write_choice ++ reads num_read read_choice

abbrev pub take : {A : Type 0} → ℕ → List A → List A
take zero xs = []
take (suc n) [] = []
take (suc n) (x ∷ xs) = x ∷ take n xs

-- `ops[i : i + batch_size]` for `i` in `range(0, len(ops), batch_size)`, on fuel.
unfoldable pub batches : {A : Type 0} → ℕ → ℕ → List A → List (List A)
batches zero size ops = []
batches (suc fuel) size ops =
    let rest = batches fuel size (drop size ops) in
    if is_empty ops then [] else take size ops ∷ rest

abbrev pub batch_size : ℕ
batch_size = 64

module _ {S : Type 0} (network : Network S) (order : ℕ → List Op → List Op)
    (clock : ℕ → ℕ × ℕ) where
  -- The loop over the batches, each with an order of its own: the results so far, each a latency and whether there was an error.
  unfoldable pub run_batches : ℕ → List (List Op) → S → List (ℕ × Bool) × S
  unfolding gather
  run_batches i [] s = ([], s)
  run_batches i (batch ∷ rest) s =
      let (results, s') = gather network (order i) clock i batch s in
      let (others, s'') = run_batches (i + length results) rest s' in (results ++ others, s'')

unfoldable pub latencies_of : List (ℕ × Bool) → List ℕ
latencies_of [] = []
latencies_of ((lat, err) ∷ rs) = lat ∷ latencies_of rs

unfoldable pub errors_of : List (ℕ × Bool) → ℕ
errors_of [] = 0
errors_of ((lat, err) ∷ rs) = let n = errors_of rs in if err then suc n else n

-- `sorted(latencies)`.
unfoldable pub insert : ℕ → List ℕ → List ℕ
insert x [] = x ∷ []
insert x (y ∷ ys) = let later = insert x ys in if leb x y then x ∷ y ∷ ys else y ∷ later

unfoldable pub sorted : List ℕ → List ℕ
unfolding insert
sorted [] = []
sorted (x ∷ xs) = insert x (sorted xs)

abbrev pub min : ℕ → ℕ → ℕ
min a b = if leb a b then a else b

abbrev pub max : ℕ → ℕ → ℕ
max a b = if leb a b then b else a

-- `min(l)` and `max(l)` of a list that starts with `x`.
unfoldable pub minimum : ℕ → List ℕ → ℕ
minimum x [] = x
minimum x (y ∷ ys) = minimum (min x y) ys

unfoldable pub maximum : ℕ → List ℕ → ℕ
maximum x [] = x
maximum x (y ∷ ys) = maximum (max x y) ys

-- `l[i]`, for an index in range.
unfoldable pub at : List ℕ → ℕ → ℕ
at l i = elim (get_elem? l i) [ none ↦ 0 | some x ↦ x ]

pub record LatencyPercentiles : Type 0 where
  pub p50_ms : ℕ
  pub p95_ms : ℕ
  pub p99_ms : ℕ
  pub min_ms : ℕ
  pub max_ms : ℕ

pub record BenchmarkResponse : Type 0 where
  pub num_ops : ℕ
  pub latency : LatencyPercentiles
  pub errors : ℕ

module _ (rounded : ℕ → ℕ) where
  -- `pct(p)`: `int(p / 100.0 * n)` is the whole part of p n / 100 for the percents that are asked for.
  unfoldable pub pct : List ℕ → ℕ → ℕ
  unfolding at
  pct l p = let n = length l in if is_empty l then 0 else rounded (at l (min (p * n / 100) (n - 1)))

  unfoldable pub percentiles : List ℕ → LatencyPercentiles
  unfolding pct minimum maximum
  percentiles l = record {
    p50_ms = pct l 50;
    p95_ms = pct l 95;
    p99_ms = pct l 99;
    min_ms = elim l [ [] ↦ 0 | x ∷ xs ↦ rounded (minimum x xs) ];
    max_ms = elim l [ [] ↦ 0 | x ∷ xs ↦ rounded (maximum x xs) ];
  }

  -- `run_benchmark` from the shuffled operations on, without the total time.
  unfoldable pub run_benchmark :
      {S : Type 0}
      → Network S
      → (ℕ → List Op → List Op)
      → (ℕ → ℕ × ℕ)
      → ℕ
      → List Op
      → S
      → BenchmarkResponse × S
  unfolding run_batches batches percentiles latencies_of errors_of sorted
  run_benchmark network order clock num_ops ops s =
      let (results, s') =
        run_batches network order clock 0 (batches (length ops) batch_size ops) s in
      (
        record {
          num_ops = num_ops;
          latency = percentiles (sorted (latencies_of results));
          errors = errors_of results;
        },
        s',
      )
