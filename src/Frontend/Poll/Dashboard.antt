-- ===== src/Frontend/Poll/Dashboard.antt =====
-- app/dashboard/page.tsx: the overview.
use Prim.Native.String.{String}
use quark_cache.Common.{
  ℕ, suc, ◌+◌, ◌*◌, ◌/◌, ◌%◌, ◌^◌, Bool, true, false, Option, none, some, List, [], ltb,
  push_capped, if◌then◌else◌,
}
use quark_cache.Common.Text.{◌+++◌, show}
use quark_cache.Frontend.Js.{Js}
use quark_cache.Frontend.Api.{Reply, ok, failed, MetricsResponse}

abbrev pub refresh_ms : ℕ
refresh_ms = 2000

abbrev pub max_history : ℕ
max_history = 30

-- `x.toFixed(1)` for `x = n / d` with `d` a power of two, which a double holds exactly: the tenths
-- nearest to it, the larger of two.
unfoldable pub tenths : ℕ → ℕ → ℕ
tenths n d = (20 * n + d) / (2 * d)

unfoldable pub fixed1 : ℕ → String
unfolding show
fixed1 t = show (t / 10) +++ "." +++ show (t % 10)

-- `fmtBytes(b)` for a whole number of bytes.
unfoldable pub fmt_bytes : ℕ → String
fmt_bytes b =
    if ltb b 1024
    then show b +++ " B"
    else if ltb b (1024 ^ 2)
    then fixed1 (tenths b 1024) +++ " KB"
    else fixed1 (tenths b (1024 ^ 2)) +++ " MB"

module _ (js : Js) where
  open js use {Number, integer, mul, round}

  pub record Sample : Type 0 where
    pub time : String
    pub ops : Number

  -- The state, and the rolling histories that the component keeps in refs.
  pub record State : Type 0 where
    pub metrics : Option (MetricsResponse Number)
    pub error : Option String
    pub loading : Bool
    pub ops_history : List Number
    pub hits_history : List Number
    pub mem_history : List ℕ
    pub conns_history : List ℕ
    pub ops_chart : List Sample
    pub renders : ℕ

  abbrev pub initial : State
  initial = record {
    metrics = none;
    error = none;
    loading = true;
    ops_history = [];
    hits_history = [];
    mem_history = [];
    conns_history = [];
    ops_chart = [];
    renders = 0;
  }

  abbrev pub percent : Number → Number
  percent x = mul x (integer false 100)

  -- The `try` branch of `fetchMetrics`.
  unfoldable pub record_sample : MetricsResponse Number → String → State → State
  record_sample m now s = record s {
    metrics = some m;
    error = none;
    ops_history = push_capped max_history s.ops_history m.ops_per_sec;
    hits_history = push_capped max_history s.hits_history (round (percent m.hit_ratio));
    mem_history = push_capped max_history s.mem_history m.memory_used_bytes;
    conns_history = push_capped max_history s.conns_history m.active_connections;
    ops_chart =
        push_capped max_history s.ops_chart (record { time = now; ops = round m.ops_per_sec });
  }

  abbrev pub settled : State → State
  settled s = record s { loading = false; renders = suc s.renders }

  -- `fetchMetrics`, once its reply is there; `now` is `nowLabel()`.
  unfoldable pub fetched : Reply (MetricsResponse Number) → String → State → State
  unfolding record_sample
  fetched (ok m) now s = settled (record_sample m now s)
  fetched (failed d) now s =
      settled
        (record s { error = some "Cache server unreachable. Start the C++ server on port 9000." })
