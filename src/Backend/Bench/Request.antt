-- ===== src/Backend/Bench/Request.antt =====
-- backend/app/models/schemas.py: what `BenchmarkRequest` admits. The numbers of JSON that are no whole
-- numbers are an argument, with the test of the schema that they lie between 0 and 1.
use quark_cache.Common.{ℕ, Bool, ◌&&◌, Option, none, some, leb, if◌then◌else◌}

-- A field that is left out has its default.
abbrev pub num_ops_or_default : Option ℕ → ℕ
num_ops_or_default none = 1000
num_ops_or_default (some n) = n

module _ (Number : Type 0) where
  pub record BenchmarkRequest : Type 0 where
    pub num_ops : ℕ
    pub read_ratio : Number
    pub value_size : ℕ
    pub key_space : ℕ

  -- `ge` and `le` of each field; `none` is the answer 422.
  unfoldable pub benchmark_request :
      (Number → Bool) → Option ℕ → Number → ℕ → ℕ → Option BenchmarkRequest
  benchmark_request in_unit num_ops read_ratio value_size key_space =
      let n = num_ops_or_default num_ops in
      if leb 1 n
        && leb n 500000
        && in_unit read_ratio
        && leb 1 value_size
        && leb value_size 4096
        && leb 1 key_space
      then some (record {
        num_ops = n;
        read_ratio = read_ratio;
        value_size = value_size;
        key_space = key_space;
      })
      else none
