-- ===== src/Frontend/Poll/Cards.antt =====
-- components/overview/: the cards of the overview. A chart's points are written as its children; it
-- is rendered once its card is mounted.
use Prim.Native.String.{String}
use quark_cache.Common.{ℕ, Bool, Option, List, [], ◌∷◌, ◌++◌, map, truthy, if◌then◌else◌}
use quark_cache.Common.Text.{◌+++◌, is_space, show}
use quark_cache.Frontend.Html.{Node, el, text, prop, kids, when, when_some, label}

-- `title.replace(/\s/g, "")`.
unfoldable pub strip_spaces : String → String
unfolding is_space
strip_spaces String.[] = ""
strip_spaces (String.◌∷◌ c s) =
    let rest = strip_spaces s in if is_space c then rest else String.◌∷◌ c rest

-- SparklineCard.tsx: a title, a value, the change beside it and a small chart, whose gradient is
-- found by its identifier.
abbrev pub gradient : String → String
gradient title = "grad-" +++ strip_spaces title

module _ {E : Type 0} where
  unfoldable pub sparkline_card :
      Bool → String → String → Option String → Bool → List String → String → Node E
  unfolding strip_spaces
  sparkline_card mounted title value delta positive points color = el "Card" [] (
      kids (
        label "Typography" title
        ∷ label "Typography" value
        ∷ (when_some delta (λ d. when (truthy d) (
              el "Typography" (prop "color" (if positive then "#22c55e" else "#ef4444") ∷ [])
                (kids (text (if positive then "+" else "") ∷ text d ∷ []))
              ∷ []))
            ++ when mounted (
                el "AreaChart" [] (
                  kids (
                    el "linearGradient" (prop "id" (gradient title) ∷ prop "stopColor" color ∷ [])
                      (kids [])
                    ∷ el "Area"
                        (prop "dataKey" "v"
                          ∷ prop "stroke" color
                          ∷ prop "fill" ("url(#" +++ gradient title +++ ")")
                          ∷ [])
                        (kids (map text points))
                    ∷ []))
                ∷ []))))

  -- OpsChart.tsx: the operations per second over time.
  unfoldable pub ops_chart : Bool → List (String × String) → Node E
  ops_chart mounted points = el "Card" [] (
      kids (
        el "Typography" []
          (kids (text "Operations" ∷ text " " ∷ label "Typography" "(per second)" ∷ []))
        ∷ when mounted (
            el "AreaChart" [] (
              kids (map (λ p. el "Point" (prop "time" p.0 ∷ prop "ops" p.1 ∷ []) (kids [])) points))
            ∷ [])))

-- KeyspaceChart.tsx: a chart of fixed shares.
pub record Share : Type 0 where
  pub name : String
  pub value : ℕ
  pub color : String

abbrev pub keyspace_data : List Share
keyspace_data =
    record { name = "Strings"; value = 65; color = "#06b6d4" }
    ∷ record { name = "Hashes"; value = 20; color = "#22c55e" }
    ∷ record { name = "Lists"; value = 10; color = "#3b82f6" }
    ∷ record { name = "Sets"; value = 5; color = "#f59e0b" }
    ∷ record { name = "ZSets"; value = 0; color = "#8b5cf6" }
    ∷ []

unfoldable pub keyspace_chart : {E : Type 0} → Bool → Node E
unfolding show
keyspace_chart mounted = el "Card" [] (
    kids (
      label "Typography" "Keyspace"
      ∷ (when mounted (
            el "PieChart" []
              (kids (map (λ e. el "Cell" (prop "fill" e.color ∷ []) (kids [])) keyspace_data))
            ∷ [])
          ++ map
              (λ item. el "Box" (prop "key" item.name ∷ []) (
                kids (
                  el "Box" (prop "bgcolor" item.color ∷ []) (kids [])
                  ∷ label "Typography" item.name
                  ∷ label "Typography" (show item.value +++ "%")
                  ∷ [])))
              keyspace_data)))
