-- ===== src/Frontend/Api.antt =====
-- types/index.ts: what the pages exchange with the backend through the client of lib/apiClient.ts,
-- whose own work (the HTTP call) is the environment's: a call goes out, and a reply comes back.
-- Whole numbers of the wire are ℕ; `hit_ratio`, rates and times are the browser's numbers.
use Prim.Native.String.{String}
use quark_cache.Common.{ℕ, Bool, Option, List}

module _ (Number : Type 0) where
  pub record MetricsResponse : Type 0 where
    pub total_requests : ℕ
    pub hits : ℕ
    pub misses : ℕ
    pub hit_ratio : Number
    pub ops_per_sec : Number
    pub memory_used_bytes : ℕ
    pub memory_limit_bytes : ℕ
    pub active_connections : ℕ

  -- `ttl` is left out (`undefined`) or a number, which may be NaN.
  pub record SetKeyRequest : Type 0 where
    pub key : String
    pub value : String
    pub ttl : Option Number

  pub record BenchmarkRequest : Type 0 where
    pub num_ops : ℕ
    pub read_ratio : Number
    pub value_size : ℕ
    pub key_space : ℕ

  pub record LatencyPercentiles : Type 0 where
    pub p50_ms : Number
    pub p95_ms : Number
    pub p99_ms : Number
    pub min_ms : Number
    pub max_ms : Number

  pub record BenchmarkResponse : Type 0 where
    pub num_ops : ℕ
    pub total_time_ms : Number
    pub ops_per_sec : Number
    pub latency : LatencyPercentiles
    pub errors : ℕ

-- `ttl_remaining` is `null` or the seconds left.
pub record KeyListItem : Type 0 where
  pub key : String
  pub value : String
  pub ttl_remaining : Option ℕ

pub record KeyListResponse : Type 0 where
  pub keys : List KeyListItem
  pub count : ℕ

pub record KeyResponse : Type 0 where
  pub key : String
  pub value : String
  pub ttl_remaining : Option ℕ

pub record DeleteResponse : Type 0 where
  pub key : String
  pub deleted : Bool

pub record HealthResponse : Type 0 where
  pub status : String
  pub version : String
  pub cpp_server_reachable : Bool

-- How a call ends: with the answer's body, or rejected, where the error may carry the server's
-- `response.data.detail`.
pub data Reply (A : Type 0) : Type 0 where
  ok : A → Reply A
  failed : Option String → Reply A
