-- ===== src/Frontend/Bench.antt =====
-- app/benchmarks/page.tsx with components/benchmarks/: the benchmark's form and its results.
pub mod View
pub mod Flight
pub mod Admitted
use Prim.Native.String.{String}
use quark_cache.Common.{
  ℕ, zero, suc, Bool, true, false, Option, none, some, List, [], ◌∷◌, get_elem?, ltb, ◌==◌,
  if◌then◌else◌,
}
use quark_cache.Frontend.Js.{Js, parse_int}
use quark_cache.Frontend.Api.{Reply, ok, failed, BenchmarkRequest, BenchmarkResponse}

abbrev pub ops_options : List ℕ
ops_options = 100 ∷ 500 ∷ 1000 ∷ 5000 ∷ 10000 ∷ 50000 ∷ 100000 ∷ []

-- `Math.max(1, parseInt(text, 10) || 1)`: NaN and 0 give 1, and so does what is below 1.
unfoldable pub at_least_one : String → ℕ
unfolding parse_int
at_least_one s = elim (parse_int false s) [
  | none ↦ 1
  | some (neg, n) ↦ if neg then 1 else if n == 0 then 1 else n
]

module _ (js : Js) where
  open js use {Number, integer, div}

  -- A ratio in steps of 0.05, as the slider gives it.
  abbrev pub twentieths : ℕ → Number
  twentieths k = div (integer false k) (integer false 20)

  pub record State : Type 0 where
    pub ops_idx : ℕ
    pub read_ratio : Number
    pub value_size : ℕ
    pub key_space : ℕ
    pub loading : Bool
    pub error : Option String
    -- The page's `result`.
    pub result : Option (BenchmarkResponse Number)

  abbrev pub initial : State
  initial = record {
    ops_idx = 2;
    read_ratio = twentieths 16;
    value_size = 64;
    key_space = 500;
    loading = false;
    error = none;
    result = none;
  }

  -- `OPS_OPTIONS[opsIdx]`; `none` stands for `undefined`.
  abbrev pub num_ops : State → Option ℕ
  num_ops s = get_elem? ops_options s.ops_idx

  -- The body of the call. `num_ops` is left out of the JSON text if it is `undefined`.
  pub record Body : Type 0 where
    pub num_ops : Option ℕ
    pub read_ratio : Number
    pub value_size : ℕ
    pub key_space : ℕ

  -- `handleRun`, up to its call.
  unfoldable pub handle_run : State → State × List Body
  handle_run s = (
    record s { loading = true; error = none },
    (record {
      num_ops = num_ops s;
      read_ratio = s.read_ratio;
      value_size = s.value_size;
      key_space = s.key_space;
    })
        ∷ [],
  )

  -- What follows the reply; `onResults` is the page's `setResult`.
  unfoldable pub resume : Reply (BenchmarkResponse Number) → State → State
  resume (ok a) s = record s { result = some a; loading = false }
  resume (failed d) s = record s {
    error = some "Benchmark failed — is the cache server running?";
    loading = false;
  }
