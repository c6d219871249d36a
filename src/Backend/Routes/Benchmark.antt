-- ===== src/Backend/Routes/Benchmark.antt =====
-- backend/app/routers/benchmarks.py down to cpp_core/src/server.cpp: a benchmark that the API runs.
use quark_cache.Common.{ℕ, ◌≡◌, refl, Bool, Option, some, List, In, All}
use quark_cache.Engine.Promise.{Recency, Shows}
use quark_cache.Server.{Server}
use quark_cache.Server.Wire.{IsToken}
use quark_cache.Backend.Deployed.{deployed}
use quark_cache.Backend.Bench.{Op, BenchmarkResponse, operations}
use quark_cache.Backend.Bench
use quark_cache.Backend.Bench.Healthy.{run_benchmark-errors}
use quark_cache.Backend.Bench.Request.{BenchmarkRequest, benchmark_request}
use quark_cache.Backend.Routes.{response}
use quark_cache.Backend.Routes.Services.{Chances, run, run_benchmark}

module _ {Number : Type 0} (in_unit : Number → Bool) (by : Chances Number) where
  -- A body that the schema admits, on a running server with a well-formed cache whose replies come whole,
  -- when the values chosen are words, and the shuffle and the order within a batch bring operations of
  -- their lists alone: `POST /benchmarks/run` is answered with 200, the number of operations of the body,
  -- and no errors.
  pub run_benchmark-healthy :
      (num_ops : Option ℕ) (read_ratio : Number) (value_size key_space : ℕ)
      (body : BenchmarkRequest Number) (v : Server) (rs : Recency)
      → benchmark_request Number in_unit num_ops read_ratio value_size key_space ≡ some body
      → ((i : ℕ) → IsToken (by.write_choice body i).1)
      → ((ops : List Op) → All (λ op. In op ops) (by.shuffle ops))
      → ((i : ℕ) (b : List Op) → All (λ op. In op b) (by.order i b))
      → Shows v.store.lru rs
      → (r : BenchmarkResponse) × (v' : Server) × (run_benchmark deployed in_unit by num_ops
            read_ratio value_size key_space v
          ≡ (response 200 r, v'))
        × (r.num_ops ≡ body.num_ops)
        × (r.errors ≡ 0)
  unfolding run Bench.run_benchmark run_benchmark
  run_benchmark-healthy num_ops read_ratio value_size key_space body v rs e words made kept shows =
      let num_read = by.num_read body in
      let ops = operations body.num_ops num_read (by.write_choice body) (by.read_choice body) in
      let (r, v') = run deployed in_unit by body v in
      (
        r,
        v',
        rw (run_benchmark, e) refl,
        refl,
        run_benchmark-errors by.rounded by.order by.counter body.num_ops num_read
            (by.write_choice body) (by.read_choice body) (by.shuffle ops) v rs words (made ops) kept
            shows,
      )
