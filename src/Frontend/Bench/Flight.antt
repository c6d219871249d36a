-- ===== src/Frontend/Bench/Flight.antt =====
-- app/benchmarks/page.tsx as it runs: what its form sends, and when.
use mathlib.Core.List.{append-nil}
use Prim.Native.String.{String}
use quark_cache.Common.{
  ℕ, zero, suc, ◌≤◌, ◌≡◌, refl, false, Option, none, some, List, ◌∷◌, ◌++◌, map, All, arith,
  get_elem?, Option-cases, inl, inr,
}
use quark_cache.Common.Text.{show}
use quark_cache.Frontend.Js.{Js}
use quark_cache.Frontend.Api.{Reply, ok, failed, BenchmarkResponse}
use quark_cache.Frontend.Html.{Offers, OffersAny, kids}
use quark_cache.Frontend.Html.Laws.{OffersAny-map}
use quark_cache.Frontend.Runtime.{
  Flies, Flies-idle, Flies-reply, World, Step, event, reply, Reachable, Reachable-induction,
}
use quark_cache.Frontend.Bench.{State, Body, ops_options, at_least_one, handle_run, resume}
use quark_cache.Frontend.Bench.View.{
  Event, set_ops_idx, set_read_ratio, set_value_size, set_key_space, run_benchmark, form, results,
  stat_box, view, percentiles, percentile_box, handle, page,
}

at_least_one-pos : (s : String) → 1 ≤ at_least_one s
unfolding at_least_one
at_least_one-pos s = ground arith

stat_box-Offers :
    (e : Event) (name value : String) (unit : Option String)
    → Offers e (stat_box name value unit)
    → ⊥
unfolding stat_box
stat_box-Offers e name value unit h = ground arith

module _ (js : Js) (whole : js.Number → String) where
  percentile_box-Offers : (e : Event) (p : String × js.Number) → Offers e (percentile_box js p) → ⊥
  unfolding percentile_box
  percentile_box-Offers e (name, val) h = ground arith

  percentiles-offer :
      (e : Event) (ps : List (String × js.Number))
      → OffersAny e (kids (map (percentile_box js) ps))
      → ⊥
  percentiles-offer e ps h =
      let (p, _, k) = OffersAny-map e (percentile_box js) ps h in percentile_box-Offers e p k

  pub results-Offers :
      (e : Event) (r : BenchmarkResponse js.Number) → Offers e (results js whole r) → ⊥
  unfolding results
  results-Offers e r h = ground (
    arith,
    stat_box-Offers e "Operations" (js.to_locale (js.integer false r.num_ops)) none,
    stat_box-Offers e "Total time" (js.to_fixed r.total_time_ms 0) (some "ms"),
    stat_box-Offers e "Throughput" (whole r.ops_per_sec) (some "ops/s"),
    stat_box-Offers e "Errors" (show r.errors) none,
    percentiles-offer e (percentiles js r.latency),
  )

  form-run : (s : State js) → Offers run_benchmark (form js s) → s.loading ≡ false
  unfolding form
  form-run s h = ground arith

  form-ops : (i : ℕ) (s : State js) → Offers (set_ops_idx i) (form js s) → i ≤ 6
  unfolding form
  form-ops i s h = ground arith

  -- The button runs a benchmark only if none is running; the slider's index is one of the options'.
  view-run : (s : State js) → Offers run_benchmark (view js whole s) → s.loading ≡ false
  unfolding view
  view-run s h = elim (Option-cases s.result) [
    | inl e ↦ ground (arith, form-run s)
    | inr (r, e) ↦ ground (arith, form-run s, results-Offers run_benchmark r)
  ]

  view-ops : (i : ℕ) (s : State js) → Offers (set_ops_idx i) (view js whole s) → i ≤ 6
  unfolding view
  view-ops i s h = elim (Option-cases s.result) [
    | inl e ↦ ground (arith, form-ops i s)
    | inr (r, e) ↦ ground (arith, form-ops i s, results-Offers (set_ops_idx i) r)
  ]

  -- A body that the backend's bounds on the counts admit: `num_ops` is one of the options.
  abbrev pub IsReady : Body js → Type 0
  IsReady b =
      ((n : ℕ) × (b.num_ops ≡ some n) × (100 ≤ n) × (n ≤ 100000))
      × (1 ≤ b.value_size)
      × (1 ≤ b.key_space)

  pub record IsSteady (s : State js) (bs : List (Body js)) : Type 0 where
    pub index : s.ops_idx ≤ 6
    pub sizes : 1 ≤ s.value_size
    pub keys : 1 ≤ s.key_space
    pub flies : Flies s.loading bs
    pub ready : All IsReady bs

  option_bounds :
      (i : ℕ) → i ≤ 6 → (n : ℕ) × (get_elem? ops_options i ≡ some n) × (100 ≤ n) × (n ≤ 100000)
  option_bounds zero h = (100, refl, omega arith, omega arith)
  option_bounds (suc zero) h = (500, refl, omega arith, omega arith)
  option_bounds (suc (suc zero)) h = (1000, refl, omega arith, omega arith)
  option_bounds (suc (suc (suc zero))) h = (5000, refl, omega arith, omega arith)
  option_bounds (suc (suc (suc (suc zero)))) h = (10000, refl, omega arith, omega arith)
  option_bounds (suc (suc (suc (suc (suc zero))))) h = (50000, refl, omega arith, omega arith)
  option_bounds (suc (suc (suc (suc (suc (suc zero)))))) h =
      (100000, refl, omega arith, omega arith)
  option_bounds (suc (suc (suc (suc (suc (suc (suc i))))))) h = absurd (omega arith)

  handle-IsSteady :
      (e : Event) (s : State js) (bs : List (Body js))
      → Offers e (view js whole s)
      → IsSteady s bs
      → IsSteady (handle js e s).0 (bs ++ (handle js e s).1)
  unfolding handle handle_run
  handle-IsSteady (set_ops_idx i) s bs o h = rw append-nil (record {
    index = view-ops i s o;
    sizes = h.sizes;
    keys = h.keys;
    flies = h.flies;
    ready = h.ready;
  })
  handle-IsSteady (set_read_ratio k) s bs o h =
      rw append-nil (record {
        index = h.index;
        sizes = h.sizes;
        keys = h.keys;
        flies = h.flies;
        ready = h.ready;
      })
  handle-IsSteady (set_value_size v) s bs o h = rw append-nil (record {
    index = h.index;
    sizes = at_least_one-pos v;
    keys = h.keys;
    flies = h.flies;
    ready = h.ready;
  })
  handle-IsSteady (set_key_space v) s bs o h = rw append-nil (record {
    index = h.index;
    sizes = h.sizes;
    keys = at_least_one-pos v;
    flies = h.flies;
    ready = h.ready;
  })
  handle-IsSteady run_benchmark s bs o h =
      rw (Flies-idle s.loading bs (view-run s o) h.flies) (record {
        index = h.index;
        sizes = h.sizes;
        keys = h.keys;
        flies = (_, refl);
        ready = ((option_bounds s.ops_idx h.index, h.sizes, h.keys), tt);
      })

  resume-IsSteady :
      (r : Reply (BenchmarkResponse js.Number)) (s : State js) (before after : List (Body js))
      (b : Body js)
      → IsSteady s (before ++ b ∷ after)
      → IsSteady (resume js r s) (before ++ after)
  unfolding resume
  resume-IsSteady (ok a) s before after b h =
      rw (Flies-reply s.loading _ before b after refl h.flies)
        (record { index = h.index; sizes = h.sizes; keys = h.keys; flies = refl; ready = tt })
  resume-IsSteady (failed d) s before after b h =
      rw (Flies-reply s.loading _ before b after refl h.flies)
        (record { index = h.index; sizes = h.sizes; keys = h.keys; flies = refl; ready = tt })

  Step-IsSteady :
      (w v : World (page js whole))
      → Step (page js whole) w v
      → IsSteady w.state w.pending
      → IsSteady v.state v.pending
  Step-IsSteady w _ (event e c o) inv = handle-IsSteady e w.state w.pending o inv
  Step-IsSteady w _ (reply before p after e r c) inv =
      rw append-nil (resume-IsSteady r w.state before after p (rw e at inv))

  -- In every state that the benchmarks page can reach: at most one benchmark is in flight, just
  -- while the form shows that it runs; the number of operations is one of the options, from 100 to
  -- 100,000; and the value size and the key space are at least one, whatever is typed.
  pub Reachable-IsSteady :
      (w : World (page js whole)) → Reachable (page js whole) w → IsSteady w.state w.pending
  Reachable-IsSteady =
      Reachable-induction (page js whole) (λ w. IsSteady w.state w.pending)
        (record {
          index = omega arith;
          sizes = omega arith;
          keys = omega arith;
          flies = refl;
          ready = tt;
        })
        Step-IsSteady
