-- ===== src/Tests/Services.antt =====
-- The API's benchmarks and metrics on the server with two keys.
use Prim.Native.String.{String}
use quark_cache.Common.{
  ℕ, ◌+◌, ◌*◌, ◌/◌, ◌%◌, ◌≡◌, refl, inl, inr, Option, none, some, List, [], ◌∷◌, All-append, All,
  In, arith, leb, same, if◌then◌else◌, ◌++◌,
}
use quark_cache.Common.Text.{show}
use quark_cache.Engine.Store.{get_stats}
use quark_cache.Server.{Server}
use quark_cache.Backend.Metrics.{Raw, MetricsResponse, fresh, record_total, ratio}
use quark_cache.Backend.Bench.{Op, BenchmarkResponse}
use quark_cache.Backend.Bench.Request.{BenchmarkRequest, benchmark_request}
use quark_cache.Backend.Deployed.{deployed, opened}
use quark_cache.Backend.Routes.{response}
use quark_cache.Backend.Routes.Services.{Chances, get_metrics, run_benchmark}
use quark_cache.Backend.Routes.Counters.{stats_json, stats_dict, get_metrics-get_stats}
use quark_cache.Backend.Routes.Benchmark.{run_benchmark-healthy}
use quark_cache.Tests.Engine.{recency, cache-Shows}
use quark_cache.Tests.Server.{server, v-IsToken}

-- `json.loads` on the text of the statistics of the server.
abbrev loads : String → Option Raw
loads text =
    let stats = get_stats (opened server).store in
    if same text (stats_json stats) then some (stats_dict stats) else none

get_metrics-get_stats_example :
    (m : MetricsResponse) × (v' : Server) × (get_metrics deployed loads 7 server fresh
      ≡ (response 200 m, (v', record_total 7 server.store.total_requests fresh)))
    × (m.total_requests ≡ server.store.total_requests)
    × (m.hits ≡ server.store.hits)
    × (m.misses ≡ server.store.misses)
    × (m.hit_ratio ≡ ratio server.store.hits server.store.total_requests)
    × (m.memory_used_bytes ≡ server.store.lru.bytes_used)
    × (m.active_connections ≡ server.store.active_connections + 1)
    × (v'.store ≡ server.store)
unfolding get_stats opened show
get_metrics-get_stats_example = get_metrics-get_stats loads 7 server fresh refl (omega arith)

All-In_cons : (op : Op) (xs ops : List Op) → All (λ x. In x ops) xs → All (λ x. In x (op ∷ ops)) xs
All-In_cons op [] ops h = tt
All-In_cons op (x ∷ xs) ops (i, h) = (inr i, All-In_cons op xs ops h)

All-In_self : (ops : List Op) → All (λ op. In op ops) ops
All-In_self [] = tt
All-In_self (op ∷ ops) = (inl refl, All-In_cons op ops ops (All-In_self ops))

-- The first operation of a batch is served last.
abbrev rotate_one : List Op → List Op
rotate_one [] = []
rotate_one (op ∷ ops) = ops ++ op ∷ []

rotate_one-In : (b : List Op) → All (λ op. In op b) (rotate_one b)
rotate_one-In [] = tt
rotate_one-In (op ∷ ops) =
    All-append (λ x. In x (op ∷ ops)) ops (op ∷ []) (All-In_cons op ops ops (All-In_self ops))
      (inl refl, tt)

-- Ratios in percent, and a shuffle that leaves the order, and batches that are served in another one.
abbrev chances : Chances ℕ
chances = record {
  num_read = λ req. req.num_ops * req.read_ratio / 100;
  write_choice = λ req i. (i % req.key_space, "v");
  read_choice = λ req i. i % req.key_space;
  shuffle = λ ops. ops;
  order = λ i. rotate_one;
  rounded = λ n. n;
  counter = λ i. (10 * i, 10 * i + 7);
}

abbrev body : BenchmarkRequest ℕ
body = record { num_ops = 2; read_ratio = 50; value_size = 1; key_space = 3 }

run_benchmark-healthy_example :
    (r : BenchmarkResponse) × (v' : Server) × (run_benchmark deployed
        (λ n. leb n 100)
        chances
        (some 2)
        50
        1
        3
        server
      ≡ (response 200 r, v'))
    × (r.num_ops ≡ 2)
    × (r.errors ≡ 0)
unfolding benchmark_request
run_benchmark-healthy_example =
    run_benchmark-healthy (λ n. leb n 100) chances (some 2) 50 1 3 body server recency refl
      (λ i. v-IsToken) All-In_self (λ i. rotate_one-In) cache-Shows
