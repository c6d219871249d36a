-- ===== src/Frontend/Poll/Metrics.antt =====
-- app/metrics/page.tsx: the time series.
use Prim.Native.String.{String}
use quark_cache.Common.{
  ℕ, suc, ◌+◌, ◌/◌, Bool, true, false, Option, none, some, List, [], ◌∷◌, ◌++◌, map, push_capped,
  if◌then◌else◌,
}
use quark_cache.Common.Text.{◌+++◌, show}
use quark_cache.Frontend.Js.{Js}
use quark_cache.Frontend.Api.{Reply, ok, failed, MetricsResponse}
use quark_cache.Frontend.Html.{Node, el, text, prop, kids, when, when_some, label}

abbrev pub max : ℕ
max = 60

abbrev pub refresh_ms : ℕ
refresh_ms = 1500

-- `Math.round(n / 1024)`, where the quotient is exact.
unfoldable pub round_kb : ℕ → ℕ
round_kb n = (n + 512) / 1024

module _ (js : Js) where
  open js use {Number, round, to_text}

  pub record Point : Type 0 where
    pub time : String
    pub ops : Number
    pub hits : ℕ
    pub misses : ℕ
    pub mem : ℕ
    pub conns : ℕ

  pub record State : Type 0 where
    pub history : List Point
    pub error : Option String
    pub loading : Bool
    pub renders : ℕ

  abbrev pub initial : State
  initial = record { history = []; error = none; loading = true; renders = 0 }

  unfoldable pub point : MetricsResponse Number → String → Point
  unfolding round_kb
  point m now = record {
    time = now;
    ops = round m.ops_per_sec;
    hits = m.hits;
    misses = m.misses;
    mem = round_kb m.memory_used_bytes;
    conns = m.active_connections;
  }

  abbrev pub settled : State → State
  settled s = record s { loading = false; renders = suc s.renders }

  -- `fetch`, once its reply is there; `now` is `nowLabel()`.
  unfoldable pub fetched : Reply (MetricsResponse Number) → String → State → State
  unfolding point
  fetched (ok m) now s =
      settled (record s { history = push_capped max s.history (point m now); error = none })
  fetched (failed d) now s = settled (record s { error = some "Cache server unreachable." })

  -- `ChartCard`: its chart is rendered once it is mounted.
  unfoldable pub chart_card : Bool → String → List (Node (Unit {0})) → Node (Unit {0})
  chart_card mounted title children =
      el "Card" [] (kids (label "Typography" title ∷ when mounted children))

  -- A series of a chart: what it plots against the time.
  abbrev series : String → String → (Point → String) → List Point → Node (Unit {0})
  series key name f points =
      el "Series" (prop "dataKey" key ∷ prop "name" name ∷ []) (
        kids
          (map (λ p. el "Point" (prop "time" p.time ∷ prop "value" (f p) ∷ []) (kids [])) points))

  unfoldable pub view : Bool → State → Node (Unit {0})
  unfolding chart_card show
  view mounted s =
      if s.loading
      then el "CircularProgress" [] (kids [])
      else el "Box" [] (
          kids (
            label "Typography" "Metrics"
            ∷ label "Typography" ("Time-series view — last " +++ show max +++ " samples")
            ∷ (when_some s.error
                  (λ e. el "Alert" (prop "severity" "error" ∷ []) (kids (text e ∷ [])) ∷ [])
                ++ chart_card mounted "Throughput — ops/sec"
                    (series "ops" "ops/sec" (λ p. to_text p.ops) s.history ∷ [])
                  ∷ chart_card mounted "Hits vs Misses (cumulative)" (
                      series "hits" "Hits" (λ p. show p.hits) s.history
                      ∷ series "misses" "Misses" (λ p. show p.misses) s.history
                      ∷ [])
                  ∷ chart_card mounted "Memory Used (KB)"
                      (series "mem" "KB" (λ p. show p.mem) s.history ∷ [])
                  ∷ chart_card mounted "Active Connections"
                      (series "conns" "connections" (λ p. show p.conns) s.history ∷ [])
                  ∷ [])))
