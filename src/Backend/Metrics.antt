-- ===== src/Backend/Metrics.antt =====
-- backend/app/services/metrics_service.py: what is read from the server's statistics, and the rate over
-- a rolling window. Times are readings of the monotonic clock in nanoseconds.
pub mod Window
use Prim.Native.String.{String}
use quark_cache.Common.{
  ℕ, ◌-◌, ◌*◌, Bool, true, false, Option, none, some, List, [], ◌∷◌, leb, ltb, same, push_capped,
  if◌then◌else◌,
}
use quark_cache.Common.Integers.{ℤ, pos, difference, ◌+ℤ◌}
use quark_cache.Backend.Client.{Result, ok, error, raised}

-- The statistics as a dictionary, and `raw.get(name, 0)`.
abbrev pub Raw : Type 0
Raw = List (String × ℕ)

unfoldable pub get_or_zero : String → Raw → ℕ
get_or_zero name [] = 0
get_or_zero name ((k, n) ∷ raw) = let rest = get_or_zero name raw in if same k name then n else rest

abbrev pub second : ℕ
second = 1000000000

-- `_MEMORY_LIMIT_BYTES`.
abbrev pub memory_limit_bytes : ℕ
memory_limit_bytes = 100 * 1024 * 1024

-- The module's variables: `_last_total`, and `_request_history` from the oldest pair on.
pub record State : Type 0 where
  pub last_total : ℕ
  pub request_history : List (ℕ × ℤ)

abbrev pub fresh : State
fresh = record { last_total = 0; request_history = [] }

-- Of a float the parts that it is computed from are kept: `hits / total` is rounded by the caller.
pub record MetricsResponse : Type 0 where
  pub total_requests : ℕ
  pub hits : ℕ
  pub misses : ℕ
  pub hit_ratio : Option (ℕ × ℕ)
  pub ops_per_sec : ℤ
  pub memory_used_bytes : ℕ
  pub memory_limit : ℕ
  pub active_connections : ℕ

-- `hits / total if total > 0 else 0.0`, before the rounding; `none` is 0.0.
abbrev pub ratio : ℕ → ℕ → Option (ℕ × ℕ)
ratio hits total = if ltb 0 total then some (hits, total) else none

-- `sum(count for ts, count in _request_history if now - ts <= 1.0)`.
unfoldable pub recent : ℕ → List (ℕ × ℤ) → ℤ
unfolding ◌+ℤ◌
recent now [] = pos 0
recent now ((ts, count) ∷ h) =
    let rest = recent now h in if leb (now - ts) second then count +ℤ rest else rest

-- `_last_total = total; _request_history.append((now, delta))`, on a deque of 60.
unfoldable pub record_total : ℕ → ℕ → State → State
record_total now total s = record {
  last_total = total;
  request_history = push_capped 60 s.request_history (now, difference total s.last_total);
}

unfoldable pub measured : ℕ → Raw → State → MetricsResponse × State
unfolding recent record_total get_or_zero
measured now raw s =
    let total = get_or_zero "total_requests" raw in
    let s' = record_total now total s in
    (
      record {
        total_requests = total;
        hits = get_or_zero "hits" raw;
        misses = get_or_zero "misses" raw;
        hit_ratio = ratio (get_or_zero "hits" raw) total;
        ops_per_sec = recent now s'.request_history;
        memory_used_bytes = get_or_zero "bytes_used" raw;
        memory_limit = memory_limit_bytes;
        active_connections = get_or_zero "active_connections" raw;
      },
      s',
    )

-- `get_metrics`, with what `get_stats` brought: an error leaves the window as it is.
unfoldable pub get_metrics : ℕ → Result Raw → State → Result MetricsResponse × State
unfolding measured
get_metrics now (error e) s = (error e, s)
get_metrics now raised s = (raised, s)
get_metrics now (ok raw) s = let (m, s') = measured now raw s in (ok m, s')
