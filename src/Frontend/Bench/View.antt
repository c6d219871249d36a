-- ===== src/Frontend/Bench/View.antt =====
-- components/benchmarks/: what the form and the results render, and the page as it runs.
use Prim.Native.String.{String}
use quark_cache.Common.{
  ℕ, suc, ◌/◌, false, Option, none, some, List, [], ◌∷◌, ◌++◌, map, ltb, leb, if◌then◌else◌,
}
use quark_cache.Common.Text.{◌+++◌, show}
use quark_cache.Frontend.Js.{Js}
use quark_cache.Frontend.Api.{Reply, BenchmarkResponse, LatencyPercentiles}
use quark_cache.Frontend.Html.{
  Node, el, text, prop, flag, on, on_value, slide, kids, when, when_some, label, Offers,
}
use quark_cache.Frontend.Runtime.{Page}
use quark_cache.Frontend.Bench.{
  State, initial, Body, ops_options, at_least_one, twentieths, num_ops, handle_run, resume,
}

pub data Event : Type 0 where
  set_ops_idx : ℕ → Event
  set_read_ratio : ℕ → Event
  set_value_size : String → Event
  set_key_space : String → Event
  run_benchmark : Event

-- A mark of the slider of operations.
abbrev pub mark_label : ℕ → String
mark_label n = if leb 1000 n then show (n / 1000) +++ "k" else show n

abbrev pub marks_from : ℕ → List ℕ → List (Node Event)
marks_from i [] = []
marks_from i (n ∷ ns) =
    el "Mark" (prop "value" (show i) ∷ prop "label" (mark_label n) ∷ []) (kids [])
    ∷ marks_from (suc i) ns

-- A statistic, with its unit if it has one.
unfoldable pub stat_box : String → String → Option String → Node Event
stat_box name value unit = el "Box" [] (
    kids (
      el "Typography" [] (kids (text value ∷ when_some unit (λ u. label "Typography" u ∷ [])))
      ∷ label "Typography" name
      ∷ []))

module _ (js : Js) where
  open js use {Number, integer, sub, mul, round, to_fixed, to_locale, to_text}

  abbrev locale : ℕ → String
  locale n = to_locale (integer false n)

  abbrev locale_ops : State js → String
  locale_ops s = elim (num_ops js s) [ none ↦ "" | some n ↦ locale n ]

  abbrev percent_of : Number → String
  percent_of x = to_text (round (mul x (integer false 100)))

  unfoldable pub form : State js → Node Event
  unfolding show
  form s = el "Card" [] (
      kids (
        label "Typography" "Configure Benchmark"
        ∷ label "Typography" ("Total Operations: " +++ locale_ops s)
        ∷ el "Slider" (prop "value" (show s.ops_idx) ∷ slide 0 6 set_ops_idx ∷ [])
            (kids (marks_from 0 ops_options))
        ∷ label "Typography" (
            "Read Ratio: "
            +++ percent_of s.read_ratio
            +++ "% GET / "
            +++ percent_of (sub (integer false 1) s.read_ratio)
            +++ "% SET")
        ∷ el "Slider" (prop "value" (to_text s.read_ratio) ∷ slide 0 20 set_read_ratio ∷ [])
            (kids [])
        ∷ el "TextField" (prop "value" (show s.value_size) ∷ on_value "change" set_value_size ∷ [])
            (kids [])
        ∷ el "TextField" (prop "value" (show s.key_space) ∷ on_value "change" set_key_space ∷ [])
            (kids [])
        ∷ (when s.loading (el "LinearProgress" [] (kids []) ∷ [])
            ++ el "Button" (on "click" run_benchmark ∷ flag "disabled" s.loading ∷ []) (
                kids (
                  text
                    (if s.loading then "Running " +++ locale_ops s +++ " ops…" else "Run Benchmark")
                  ∷ []))
              ∷ when_some s.error
                  (λ e. el "Alert" (prop "severity" "error" ∷ []) (kids (text e ∷ [])) ∷ []))))

  abbrev pub percentiles : LatencyPercentiles Number → List (String × Number)
  percentiles l =
      ("Min", l.min_ms)
      ∷ ("p50", l.p50_ms)
      ∷ ("p95", l.p95_ms)
      ∷ ("p99", l.p99_ms)
      ∷ ("Max", l.max_ms)
      ∷ []

  unfoldable pub percentile_box : String × Number → Node Event
  percentile_box (name, val) =
      el "Box" (prop "key" name ∷ [])
        (kids (label "Typography" (to_fixed val 2 +++ "ms") ∷ label "Typography" name ∷ []))

  -- `n.toLocaleString(undefined, { maximumFractionDigits: 0 })` is the argument `whole`.
  unfoldable pub results : (whole : Number → String) → BenchmarkResponse Number → Node Event
  unfolding stat_box percentile_box show
  results whole r = el "Card" [] (
      kids (
        label "Typography" "Results"
        ∷ (when (ltb 0 r.errors)
              (el "Chip" (prop "label" (show r.errors +++ " errors") ∷ []) (kids []) ∷ [])
            ++ stat_box "Operations" (locale r.num_ops) none
              ∷ stat_box "Total time" (to_fixed r.total_time_ms 0) (some "ms")
              ∷ stat_box "Throughput" (whole r.ops_per_sec) (some "ops/s")
              ∷ stat_box "Errors" (show r.errors) none
              ∷ label "Typography" "Latency percentiles"
              ∷ map percentile_box (percentiles r.latency))))

  unfoldable pub view : (whole : Number → String) → State js → Node Event
  unfolding form results
  view whole s = el "Box" [] (
      kids (
        label "Typography" "Benchmarks"
        ∷ label "Typography"
            "Run a workload against the cache and inspect throughput and latency stats"
        ∷ form s
        ∷ when_some s.result (λ r. results whole r ∷ [])))

  unfoldable pub handle : Event → State js → State js × List (Body js)
  unfolding at_least_one
  handle (set_ops_idx i) s = (record s { ops_idx = i }, [])
  handle (set_read_ratio k) s = (record s { read_ratio = twentieths js k }, [])
  handle (set_value_size v) s = (record s { value_size = at_least_one v }, [])
  handle (set_key_space v) s = (record s { key_space = at_least_one v }, [])
  handle run_benchmark s = handle_run js s

  abbrev pub page : (Number → String) → Page
  page whole = record {
    State = State js;
    Event = Event;
    Env = Unit {0};
    Pending = Body js;
    Result = λ b. Reply (BenchmarkResponse Number);
    CanHappen = λ s e. Offers e (view whole s);
    start = initial js;
    mounted = [];
    handle = λ e _ s. handle e s;
    resume = λ b r _ s. (resume js r s, []);
  }
