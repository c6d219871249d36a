-- ===== src/Tests/Polling.antt =====
-- Replies to the pages that poll, and what they show of them.
use quark_cache.Common.{ℕ, ◌+◌, ◌*◌, ◌≡◌, ◌≤◌, false, none, some, List, [], ◌∷◌, arith}
use quark_cache.Common.Text.{◌+++◌}
use quark_cache.Tests.{whole_js}
use quark_cache.Frontend.Api.{ok, failed, MetricsResponse}
use quark_cache.Frontend.Poll.Dashboard
use quark_cache.Frontend.Poll.Dashboard.{fmt_bytes, fixed1}
use quark_cache.Frontend.Poll.Clients
use quark_cache.Frontend.Runtime.{World, Reachable, at_start, next, event}
use quark_cache.Frontend.Poll.Pages.{fetch, tick, dashboard, page}
use quark_cache.Frontend.Poll.Settles.{Settles, Reachable-Settles}
use quark_cache.Frontend.Poll.Windows.{Arrival, IsAligned, run_dashboard, run_dashboard-histories}
use quark_cache.Frontend.Poll.Bytes.{fmt_bytes-kb}
use quark_cache.Frontend.Poll.Rows.{RowsOneEach, rows-one_each}

abbrev reply : ℕ → MetricsResponse ℕ
reply n = record {
  total_requests = 10 * n;
  hits = 8 * n;
  misses = 2 * n;
  hit_ratio = 0;
  ops_per_sec = n;
  memory_used_bytes = 1024 * n;
  memory_limit_bytes = 1048576;
  active_connections = 2;
}

-- Two good replies with a failure between them.
abbrev arrivals : List (Arrival whole_js)
arrivals = (ok (reply 3), "12:00:00") ∷ (failed none, "12:00:02") ∷ (ok (reply 4), "12:00:04") ∷ []

run_dashboard-histories_example :
    IsAligned whole_js (run_dashboard whole_js (Dashboard.initial whole_js) arrivals) arrivals
run_dashboard-histories_example = run_dashboard-histories whole_js arrivals

fmt_bytes-kb_example :
    (t : ℕ) × (fmt_bytes 1536 ≡ fixed1 t +++ " KB")
    × (10 ≤ t)
    × (t ≤ 10240)
    × (1024 * t ≤ 10 * 1536 + 512)
    × (10 * 1536 ≤ 1024 * t + 512)
fmt_bytes-kb_example = fmt_bytes-kb 1536 (omega arith) (omega arith)

-- Two connections, and the same two random draws for each row.
abbrev draws : ℕ → ℕ × ℕ
draws i = (0, 1)

abbrev polled : Clients.State whole_js
polled = record { metrics = some (reply 3); error = none; loading = false }

rows-one_each_example : RowsOneEach whole_js draws polled
rows-one_each_example = rows-one_each whole_js draws polled

-- The dashboard after a tick: two calls are in flight.
abbrev ticked : World (page whole_js dashboard)
ticked = record { state = Dashboard.initial whole_js; pending = fetch ∷ fetch ∷ [] }

ticked-Reachable : Reachable (page whole_js dashboard) ticked
ticked-Reachable = next at_start (event tick "12:00:02" tt)

Reachable-Settles_example : Settles whole_js dashboard ticked
Reachable-Settles_example = Reachable-Settles whole_js dashboard ticked ticked-Reachable
