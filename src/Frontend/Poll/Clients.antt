-- ===== src/Frontend/Poll/Clients.antt =====
-- app/clients/page.tsx: the connections. The rows are made up from their number; the random draws
-- come with the index of their row.
use Prim.Native.String.{String}
use quark_cache.Common.{
  ℕ, zero, suc, ◌+◌, ◌*◌, Bool, true, false, Option, none, some, List, [], ◌∷◌, ◌++◌, map, is_empty,
  if◌then◌else◌,
}
use quark_cache.Common.Text.{◌+++◌, show}
use quark_cache.Frontend.Js.{Js}
use quark_cache.Frontend.Api.{Reply, ok, failed, MetricsResponse}
use quark_cache.Frontend.Html.{Node, el, text, prop, kids, when_some, label}

abbrev pub poll_ms : ℕ
poll_ms = 2000

module _ (js : Js) where
  open js use {Number, integer, add, mul, floor, to_fixed, to_locale, to_text}

  pub record State : Type 0 where
    pub metrics : Option (MetricsResponse Number)
    pub error : Option String
    pub loading : Bool

  abbrev pub initial : State
  initial = record { metrics = none; error = none; loading = true }

  -- `fetch`, once its reply is there.
  unfoldable pub fetched : Reply (MetricsResponse Number) → State → State
  fetched (ok m) s = record s { metrics = some m; error = none; loading = false }
  fetched (failed d) s = record s { error = some "Cache server unreachable."; loading = false }

  pub record Row : Type 0 where
    pub id : String
    pub addr : String
    pub cmds : Number
    pub latency : String
    pub status : String

  abbrev whole : ℕ → Number
  whole n = integer false n

  abbrev pub connections : Option (MetricsResponse Number) → ℕ
  connections none = 0
  connections (some m) = m.active_connections

  -- The row of connection `i`; `draws i` are its two calls of `Math.random()`.
  unfoldable pub row : (ℕ → Number × Number) → ℕ → Row
  unfolding show
  row draws i =
      let (x, y) = draws i in
      record {
        id = "fd-" +++ show (10 + i);
        addr = "127.0.0.1:" +++ show (5000 + i * 7);
        cmds = floor (add (mul x (whole 500)) (whole 50));
        latency = to_fixed (mul y (whole 2)) 2;
        status = "active";
      }

  -- `Array.from({ length }, (_, i) => …)`, from index `i` on.
  unfoldable pub rows_from : (ℕ → Number × Number) → ℕ → ℕ → List Row
  unfolding row
  rows_from draws i zero = []
  rows_from draws i (suc n) = row draws i ∷ rows_from draws (suc i) n

  unfoldable pub rows : (ℕ → Number × Number) → State → List Row
  unfolding rows_from
  rows draws s = rows_from draws 0 (connections s.metrics)

  -- The statistics above the list.
  unfoldable pub stats : State → List (String × String)
  unfolding show
  stats s =
      ("Connected", show (connections s.metrics))
      ∷ ("Total Reqs", elim s.metrics [ none ↦ "0" | some m ↦ to_locale (whole m.total_requests) ])
      ∷ (
        "Hit Ratio",
        to_fixed (mul (elim s.metrics [ none ↦ whole 0 | some m ↦ m.hit_ratio ]) (whole 100)) 1
            +++ "%",
      )
      ∷ []

  unfoldable pub row_view : Row → Node (Unit {0})
  row_view r = el "TableRow" (prop "key" r.id ∷ []) (
      kids (
        label "TableCell" r.id
        ∷ label "TableCell" r.addr
        ∷ label "TableCell" (to_text r.cmds)
        ∷ label "TableCell" (r.latency +++ "ms")
        ∷ el "TableCell" [] (kids (el "Chip" (prop "label" "active" ∷ []) (kids []) ∷ []))
        ∷ []))

  unfoldable pub view : List Row → State → Node (Unit {0})
  unfolding row_view stats
  view rs s =
      if s.loading
      then el "CircularProgress" [] (kids [])
      else el "Box" [] (
          kids (
            label "Typography" "Clients"
            ∷ label "Typography" "Active TCP connections to the cache server"
            ∷ (when_some s.error
                  (λ e. el "Alert" (prop "severity" "error" ∷ []) (kids (text e ∷ [])) ∷ [])
                ++ (map
                      (λ st.
                        el "Card" (prop "key" st.0 ∷ [])
                          (kids (label "Typography" st.0 ∷ label "Typography" st.1 ∷ [])))
                      (stats s)
                    ++ (if is_empty rs
                        then label "Typography"
                            "No clients connected — start the C++ server and connect a client."
                        else el "Table" [] (
                            kids (
                              el "TableHead" [] (
                                kids (
                                  map (label "TableCell") (
                                    "FD" ∷ "Address" ∷ "Commands" ∷ "Avg Latency" ∷ "Status" ∷ [])))
                              ∷ el "TableBody" [] (kids (map row_view rs))
                              ∷ [])))
                      ∷ []))))
