-- ===== src/Frontend/Poll/Windows.antt =====
-- The rolling histories of app/dashboard/page.tsx and app/metrics/page.tsx against the replies.
use Prim.Native.String.{String}
use mathlib.Core.List.{append-nil}
use quark_cache.Common.{
  window-cons, ℕ, ◌≤◌, ◌≡◌, refl, sym, ap, ◌∙◌, List, [], ◌∷◌, ◌++◌, arith, length, last_n,
  last_n_of_le, length-last_n-le, push_capped, push_capped-last_n,
}
use quark_cache.Frontend.Js.{Js}
use quark_cache.Frontend.Api.{Reply, ok, failed, MetricsResponse}
use quark_cache.Frontend.Poll.Dashboard
use quark_cache.Frontend.Poll.Metrics

module _ (js : Js) where
  -- A reply, with the time of day at which it is handled.
  abbrev pub Arrival : Type 0
  Arrival = Reply (MetricsResponse js.Number) × String

  -- What the good replies carry.
  abbrev pub good : {A : Type 0} → (MetricsResponse js.Number → String → A) → List Arrival → List A
  good f [] = []
  good f ((ok m, now) ∷ rs) = f m now ∷ good f rs
  good f ((failed d, now) ∷ rs) = good f rs

  module _ {A : Type 0} (n : ℕ) (f : MetricsResponse js.Number → String → A) where
    -- A history that is pushed to by each good reply.
    abbrev pub pushed : List A → List Arrival → List A
    pushed h [] = h
    pushed h ((ok m, now) ∷ rs) = pushed (push_capped n h (f m now)) rs
    pushed h ((failed d, now) ∷ rs) = pushed h rs

    pushed-window :
        (h : List A) (rs : List Arrival) → length h ≤ n → pushed h rs ≡ last_n n (h ++ good f rs)
    pushed-window h [] k = sym (ap (last_n n) (append-nil h) ∙ last_n_of_le n h k)
    pushed-window h ((failed d, now) ∷ rs) k = pushed-window h rs k
    pushed-window h ((ok m, now) ∷ rs) k =
        let h' = last_n n (h ++ f m now ∷ []) in
        ap (λ g. pushed g rs) (push_capped-last_n n h (f m now) k)
        ∙ pushed-window h' rs (length-last_n-le n (h ++ f m now ∷ []))
        ∙ window-cons n h (f m now) (good f rs)

  -- The replies handled one after the other.
  unfoldable pub run_metrics : Metrics.State js → List Arrival → Metrics.State js
  run_metrics s [] = s
  run_metrics s ((r, now) ∷ rs) = run_metrics (Metrics.fetched js r now s) rs

  unfoldable pub run_dashboard : Dashboard.State js → List Arrival → Dashboard.State js
  run_dashboard s [] = s
  run_dashboard s ((r, now) ∷ rs) = run_dashboard (Dashboard.fetched js r now s) rs

  metrics-pushed :
      (s : Metrics.State js) (rs : List Arrival)
      → (run_metrics s rs).history ≡ pushed Metrics.max (Metrics.point js) s.history rs
  unfolding run_metrics Metrics.fetched
  metrics-pushed s [] = refl
  metrics-pushed s ((ok m, now) ∷ rs) = metrics-pushed (Metrics.fetched js (ok m) now s) rs
  metrics-pushed s ((failed d, now) ∷ rs) = metrics-pushed (Metrics.fetched js (failed d) now s) rs

  -- The metrics page plots the last 60 good replies, oldest first, whatever failures came between.
  run_metrics-history :
      (rs : List Arrival)
      → (run_metrics (Metrics.initial js) rs).history ≡ last_n 60 (good (Metrics.point js) rs)
  run_metrics-history rs =
      metrics-pushed (Metrics.initial js) rs
      ∙ pushed-window 60 (Metrics.point js) [] rs (omega arith)

  -- What the dashboard keeps of a reply, one field for each history.
  abbrev pub sample : MetricsResponse js.Number → String → Dashboard.Sample js
  sample m now = record { time = now; ops = js.round m.ops_per_sec }

  abbrev pub percent_hits : MetricsResponse js.Number → js.Number
  percent_hits m = js.round (Dashboard.percent js m.hit_ratio)

  dashboard-pushed :
      (s : Dashboard.State js) (rs : List Arrival)
      → let t = run_dashboard s rs in
        (t.ops_history ≡ pushed 30 (λ m _. m.ops_per_sec) s.ops_history rs)
        × (t.hits_history ≡ pushed 30 (λ m _. percent_hits m) s.hits_history rs)
        × (t.mem_history ≡ pushed 30 (λ m _. m.memory_used_bytes) s.mem_history rs)
        × (t.conns_history ≡ pushed 30 (λ m _. m.active_connections) s.conns_history rs)
        × (t.ops_chart ≡ pushed 30 sample s.ops_chart rs)
  unfolding run_dashboard Dashboard.fetched
  dashboard-pushed s [] = (refl, refl, refl, refl, refl)
  dashboard-pushed s ((ok m, now) ∷ rs) = dashboard-pushed (Dashboard.fetched js (ok m) now s) rs
  dashboard-pushed s ((failed d, now) ∷ rs) =
      dashboard-pushed (Dashboard.fetched js (failed d) now s) rs

  -- Each history holds what the last 30 of these good replies carried, oldest first.
  abbrev pub IsAligned : Dashboard.State js → List Arrival → Type 0
  IsAligned t rs =
      (t.ops_history ≡ last_n 30 (good (λ m _. m.ops_per_sec) rs))
      × (t.hits_history ≡ last_n 30 (good (λ m _. percent_hits m) rs))
      × (t.mem_history ≡ last_n 30 (good (λ m _. m.memory_used_bytes) rs))
      × (t.conns_history ≡ last_n 30 (good (λ m _. m.active_connections) rs))
      × (t.ops_chart ≡ last_n 30 (good sample rs))

  -- Whatever replies come, failures among them, each history of the dashboard holds what the last 30
  -- good ones carried, oldest first, so the five histories stay aligned.
  pub run_dashboard-histories :
      (rs : List Arrival) → IsAligned (run_dashboard (Dashboard.initial js) rs) rs
  run_dashboard-histories rs =
      let (ops, hits, mem, conns, chart) = dashboard-pushed (Dashboard.initial js) rs in
      (
        ops ∙ pushed-window 30 (λ m _. m.ops_per_sec) [] rs (omega arith),
        hits ∙ pushed-window 30 (λ m _. percent_hits m) [] rs (omega arith),
        mem ∙ pushed-window 30 (λ m _. m.memory_used_bytes) [] rs (omega arith),
        conns ∙ pushed-window 30 (λ m _. m.active_connections) [] rs (omega arith),
        chart ∙ pushed-window 30 sample [] rs (omega arith),
      )
