-- ===== src/Frontend/Poll/Overview.antt =====
-- app/dashboard/page.tsx: what the overview renders.
use quark_cache.Common.{◌/◌, Bool, true, false, some, List, [], ◌∷◌, ◌++◌, map, if◌then◌else◌}
use quark_cache.Common.Text.{◌+++◌, show}
use quark_cache.Frontend.Js.{Js}
use quark_cache.Frontend.Api.{MetricsResponse}
use quark_cache.Frontend.Html.{Node, el, text, prop, kids, when_some, label}
use quark_cache.Frontend.Poll.Cards.{sparkline_card, ops_chart, keyspace_chart}
use quark_cache.Frontend.Poll.Dashboard.{State, fmt_bytes, percent, refresh_ms}

module _ (js : Js) where
  open js use {Number, integer, div, round, to_fixed, to_locale, to_text}

  -- The cards and charts, for the metrics that came last.
  unfoldable pub cards : Bool → State js → MetricsResponse Number → List (Node (Unit {0}))
  unfolding sparkline_card ops_chart keyspace_chart fmt_bytes
  cards mounted s m =
      sparkline_card mounted "Total Keys" (to_locale (integer false m.total_requests))
        (some "12.5%") true (map to_text s.ops_history) "#06b6d4"
      ∷ sparkline_card mounted "Memory Usage" (fmt_bytes m.memory_used_bytes) (some "8.3%") true
          (map (λ d. to_text (div (integer false d) (integer false 1024))) s.mem_history) "#22c55e"
      ∷ sparkline_card mounted "Hits" (to_fixed (percent js m.hit_ratio) 2 +++ "%") (some "2.1%")
          true (map to_text s.hits_history) "#a78bfa"
      ∷ sparkline_card mounted "QPS" (to_locale (round m.ops_per_sec)) (some "15.7%") true
          (map to_text s.ops_history) "#f59e0b"
      ∷ keyspace_chart mounted
      ∷ ops_chart mounted (map (λ p. (p.time, to_text p.ops)) s.ops_chart)
      ∷ []

  unfoldable pub view : Bool → State js → Node (Unit {0})
  unfolding cards show
  view mounted s =
      if s.loading
      then el "CircularProgress" [] (kids [])
      else el "Box" [] (
          kids (
            label "Typography" "Overview"
            ∷ label "Typography"
                ("Real-time cache metrics — refreshes every " +++ show (refresh_ms / 1000) +++ "s")
            ∷ (when_some s.error
                  (λ e. el "Alert" (prop "severity" "error" ∷ []) (kids (text e ∷ [])) ∷ [])
                ++ when_some s.metrics (cards mounted s))))
