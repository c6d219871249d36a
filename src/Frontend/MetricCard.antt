-- ===== src/Frontend/MetricCard.antt =====
-- components/dashboard/MetricCard.tsx: a title, a value and an icon.
use Prim.Native.String.{String}
use quark_cache.Common.{Option, none, some, [], ◌∷◌, truthy}
use quark_cache.Common.Text.{◌+++◌}
use quark_cache.Frontend.Html.{Node, el, prop, kids, when, when_some, label}

-- `value` is a text, or a number as it is rendered.
pub record MetricCardProps (E : Type 0) : Type 0 where
  pub title : String
  pub value : String
  pub subtitle : Option String
  pub icon : Node E
  pub color : Option String

-- `color = "primary.main"`.
abbrev pub color_or_default : Option String → String
color_or_default none = "primary.main"
color_or_default (some c) = c

unfoldable pub metric_card : {E : Type 0} → MetricCardProps E → Node E
metric_card p =
    let color = color_or_default p.color in
    el "Card" [] (
      kids (
        el "Box" [] (
          kids (
            label "Typography" p.title
            ∷ el "Box" (prop "bgcolor" (color +++ "20") ∷ prop "color" color ∷ [])
                (kids (p.icon ∷ []))
            ∷ []))
        ∷ el "Typography" (prop "color" color ∷ []) (kids (Node.text p.value ∷ []))
        ∷ when_some p.subtitle (λ s. when (truthy s) (label "Typography" s ∷ []))))
