-- ===== src/Backend/Routes/Services.antt =====
-- backend/app/routers/metrics.py, benchmarks.py and ai.py, with the root of main.py: the handlers that pass
-- on what a service returns.
use Prim.Native.String.{String}
use quark_cache.Common.{ℕ, Bool, true, false, Option, none, some, List}
use quark_cache.Backend.Service
use quark_cache.Backend.Service.{Network}
use quark_cache.Backend.Metrics
use quark_cache.Backend.Metrics.{Raw, State, MetricsResponse}
use quark_cache.Backend.Bench
use quark_cache.Backend.Bench.{Op, BenchmarkResponse, operations}
use quark_cache.Backend.Bench.Request.{BenchmarkRequest, benchmark_request}
use quark_cache.Backend.Assistant
use quark_cache.Backend.Assistant.{Python, Insights, Message}
use quark_cache.Backend.Routes.{Http, response, unprocessable, internal_error, or_503}

pub record ChatResponse : Type 0 where
  pub reply : String
  pub ai_enhanced : Bool

-- The message of the root.
abbrev pub root : Http String
root = response 200 "QuarkCache API — visit /docs for interactive documentation."

-- `_HAS_OPENAI and _openai_client`: the client, if its package is there and the key is set.
abbrev pub openai_client : {A : Type 0} → Bool → Option A → Option A
openai_client true openai = openai
openai_client false openai = none

-- A reply, with the flag of the environment's key; `none` where the service raised what nobody catches.
abbrev pub chat_response : Bool → Option String → Option (Http ChatResponse)
chat_response has_key none = none
chat_response has_key (some reply) =
    some (response 200 (record { reply = reply; ai_enhanced = has_key }))

abbrev pub insights_response : Option Insights → Http Insights
insights_response none = internal_error
insights_response (some i) = response 200 i

module _ {S : Type 0} (network : Network S) (loads : String → Option Raw) where
  -- `GET /metrics` when the clock reads `now`, with the variables of the metrics service.
  unfoldable pub get_metrics : ℕ → S → State → Http MetricsResponse × (S × State)
  unfolding Service.get_stats Metrics.get_metrics
  get_metrics now s window =
      let (stats, s') = Service.get_stats network loads s in
      let (result, window') = Metrics.get_metrics now stats window in
      (or_503 result (response 200), (s', window'))

  module _ (py : Python) where
    unfoldable pub get_insights : S → Http Insights × S
    unfolding Service.get_stats Assistant.get_insights
    get_insights s =
        let (stats, s') = Service.get_stats network loads s in
        (insights_response (Assistant.get_insights py stats), s')

    -- `POST /ai/chat`: whether the key is set, and the package of OpenAI with the content it answers.
    unfoldable pub chat :
        Bool
        → Option (List Message → Option (Option String))
        → String
        → List Message
        → S
        → Option (Http ChatResponse) × S
    unfolding Service.get_stats Assistant.chat
    chat has_key openai message history s =
        let (stats, s') = Service.get_stats network loads s in
        (
          chat_response has_key
              (Assistant.chat py (openai_client has_key openai) stats message history),
          s',
        )

-- What a benchmark takes from outside: the number of reads of a request, `int(num_ops * read_ratio)`; the
-- choices of keys and values; the shuffle; the order in which the
-- server gets the operations of a batch, by the number of those before it; the rounding of times; the readings of the counter.
pub record Chances (Number : Type 0) : Type 0 where
  pub num_read : BenchmarkRequest Number → ℕ
  pub write_choice : BenchmarkRequest Number → ℕ → ℕ × String
  pub read_choice : BenchmarkRequest Number → ℕ → ℕ
  pub shuffle : List Op → List Op
  pub order : ℕ → List Op → List Op
  pub rounded : ℕ → ℕ
  pub counter : ℕ → ℕ × ℕ

module _ {S Number : Type 0} (network : Network S) (in_unit : Number → Bool)
    (by : Chances Number) where
  -- `run_benchmark` of the service: each call's error is counted there, so that it returns.
  unfoldable pub run : BenchmarkRequest Number → S → BenchmarkResponse × S
  unfolding Bench.run_benchmark operations
  run req s =
      Bench.run_benchmark by.rounded network by.order by.counter req.num_ops
        (by.shuffle
          (operations req.num_ops (by.num_read req) (by.write_choice req) (by.read_choice req)))
        s

  -- `POST /benchmarks/run` of a body with its fields.
  unfoldable pub run_benchmark : Option ℕ → Number → ℕ → ℕ → S → Http BenchmarkResponse × S
  unfolding run benchmark_request
  run_benchmark num_ops read_ratio value_size key_space s =
      elim (benchmark_request Number in_unit num_ops read_ratio value_size key_space) [
        | none ↦ (unprocessable, s)
        | some body ↦ let (r, s') = run body s in (response 200 r, s')
      ]
