-- ===== src/Frontend/Chat/View.antt =====
-- app/ai/page.tsx: what the chat renders, and the page as it runs.
use Prim.Native.String.{String}
use quark_cache.Common.{
  Bool, true, false, not, ◌&&◌, ◌||◌, Option, none, some, List, [], ◌∷◌, ◌++◌, map, is_empty,
  truthy, same, is_some, if◌then◌else◌,
}
use quark_cache.Common.Text.{trim}
use quark_cache.Frontend.Api.{Reply}
use quark_cache.Frontend.Html.{
  KeyPress, Node, el, text, prop, flag, on, on_value, on_key, kids, when, when_some, label, Offers,
}
use quark_cache.Frontend.Runtime.{Page}
use quark_cache.Frontend.Chat.{
  Role, user, assistant, Message, InsightsData, starters, State, Call, Answer, insights, send,
  resume,
}

pub data Event : Type 0 where
  set_input : String → Event
  send_text : Option String → Event

abbrev by_role : Role → String → String → String
by_role user x y = x
by_role assistant x y = y

abbrev pub is_assistant : Role → Bool
is_assistant user = false
is_assistant assistant = true

-- A reply that GPT has enhanced carries a chip.
abbrev pub is_enhanced : Message → Bool
is_enhanced m = is_assistant m.role && (elim m.enhanced [ none ↦ false | some b ↦ b ])

unfoldable pub message_row : Message → Node Event
message_row m = el "Box" (prop "alignItems" (by_role m.role "flex-end" "flex-start") ∷ []) (
    kids (
      el "Box"
        (prop "bgcolor" (by_role m.role "primary.main" "rgba(255,255,255,0.05)")
          ∷ prop "color" (by_role m.role "primary.contrastText" "text.primary")
          ∷ [])
        (kids (label "Typography" m.content ∷ []))
      ∷ when (is_enhanced m) (el "Chip" (prop "label" "GPT-4o" ∷ []) (kids []) ∷ [])))

-- Enter sends, unless Shift is held.
unfoldable pub enter : KeyPress → Option Event
enter k = if same k.key "Enter" && not k.shift then some (send_text none) else none

abbrev pub welcome : List (Node Event)
welcome =
    label "Typography" "Ask me anything about QuarkCache"
    ∷ label "Typography" "Set OPENAI_API_KEY in the backend for GPT-enhanced answers"
    ∷ []

abbrev pub thinking : List (Node Event)
thinking = el "CircularProgress" [] (kids []) ∷ label "Typography" "Thinking…" ∷ []

unfoldable pub chat_panel : State → Node Event
unfolding message_row enter trim
chat_panel s = el "Card" [] (
    kids (
      el "Box" [] (
        kids (
          when (is_empty s.messages) welcome
          ++ (map message_row s.messages ++ when s.loading thinking)))
      ∷ el "TextField" (prop "value" s.input ∷ on_value "change" set_input ∷ on_key enter ∷ [])
          (kids [])
      ∷ el "IconButton"
          (on "click" (send_text none)
            ∷ flag "disabled" (not (truthy (trim s.input)) || s.loading)
            ∷ [])
          (kids [])
      ∷ []))

abbrev pub insight_row : String → Node Event
insight_row ins = el "Box" [] (kids (label "Typography" ins ∷ []))

unfoldable pub insights_panel : Option InsightsData → Option String → Node Event
insights_panel ins err = el "Card" [] (
    kids (
      label "Typography" "Live Insights"
      ∷ (when_some err (λ e. el "Alert" (prop "severity" "error" ∷ []) (kids (text e ∷ [])) ∷ [])
          ++ (when (not (is_some ins) && not (is_some err))
                (el "CircularProgress" [] (kids []) ∷ [])
              ++ when_some ins (λ i. map insight_row i.insights)))))

unfoldable pub starter_row : String → Node Event
starter_row q =
    el "Box" (prop "key" q ∷ on "click" (send_text (some q)) ∷ [])
      (kids (label "Typography" q ∷ []))

unfoldable pub starters_panel : Node Event
unfolding starter_row
starters_panel =
    el "Card" [] (kids (label "Typography" "Suggested Questions" ∷ map starter_row starters))

unfoldable pub view : State → Node Event
unfolding chat_panel insights_panel starters_panel
view s = el "Box" [] (
    kids (
      label "Typography" "AI Insights"
      ∷ label "Typography"
          "Ask anything about your cache — powered by rule-based analysis + optional GPT-4o"
      ∷ el "Chip" (prop "label" "GPT-4o-mini" ∷ []) (kids [])
      ∷ chat_panel s
      ∷ insights_panel s.insights s.insight_err
      ∷ starters_panel
      ∷ []))

unfoldable pub handle : Event → State → State × List Call
handle (set_input v) s = (record s { input = v }, [])
handle (send_text t) s = send t s

abbrev pub initial : State
initial = record { messages = []; input = ""; loading = false; insights = none; insight_err = none }

abbrev pub page : Page
page = record {
  State = State;
  Event = Event;
  Env = Unit {0};
  Pending = Call;
  Result = λ c. Reply (Answer c);
  CanHappen = λ s e. Offers e (view s);
  start = initial;
  mounted = insights ∷ [];
  handle = λ e _ s. handle e s;
  resume = λ c r _ s. (resume c r s, []);
}
