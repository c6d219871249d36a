-- ===== src/Frontend/Commands/View.antt =====
-- app/commands/page.tsx: what the REPL renders, and the page as it runs.
use Prim.Native.Char.{code}
use Prim.Native.String.{String}
use quark_cache.Common.{
  ℕ, ◌+◌, Bool, false, not, ◌&&◌, Option, none, some, List, [], ◌∷◌, ◌++◌, map, is_empty, truthy,
  same, ◌==◌, if◌then◌else◌,
}
use quark_cache.Common.Text.{◌+++◌, snoc, trim, show}
use quark_cache.Frontend.Js.{Js}
use quark_cache.Frontend.Api.{Reply}
use quark_cache.Frontend.Html.{
  KeyPress, Node, el, text, prop, flag, on, on_value, on_key, kids, when, when_some, label, Offers,
}
use quark_cache.Frontend.Runtime.{Page}
use quark_cache.Frontend.Commands.{State, LogEntry, Pending, Answer, run, resume}

pub data Event : Type 0 where
  set_input : String → Event
  run_command : Event

-- `c.split(" ")[0]`.
first_word_from : String → String → String
first_word_from cur String.[] = cur
first_word_from cur (String.◌∷◌ c s) =
    let longer = first_word_from (snoc cur c) s in if code c == 32 then cur else longer

unfoldable pub first_word : String → String
unfolding first_word_from
first_word c = first_word_from "" c

abbrev pub references : List String
references =
    "SET key value [ttl]" ∷ "GET key" ∷ "DEL key" ∷ "KEYS" ∷ "STATS" ∷ "HELP" ∷ "CLEAR" ∷ []

-- A quick-reference chip puts its first word and a space into the input.
unfoldable pub reference_chip : String → Node Event
unfolding first_word
reference_chip c =
    el "Chip" (prop "label" c ∷ on "click" (set_input (first_word c +++ " ")) ∷ []) (kids [])

unfoldable pub reference_card : Node Event
unfolding reference_chip
reference_card =
    el "Card" [] (kids (label "Typography" "Quick Reference" ∷ map reference_chip references))

abbrev pub empty_note : List (Node Event)
empty_note = label "Typography" "> Type a command below. Try: SET name QuarkCache 60" ∷ []

-- Enter runs the command, unless one is running.
unfoldable pub enter : Bool → KeyPress → Option Event
enter loading k = if same k.key "Enter" && not loading then some run_command else none

-- The spinner or the send button.
unfoldable pub send_button : Bool → String → Node Event
unfolding trim
send_button loading input =
    if loading
    then el "CircularProgress" [] (kids [])
    else el "IconButton" (on "click" run_command ∷ flag "disabled" (not (truthy (trim input))) ∷ [])
        (kids [])

module _ (js : Js) where
  open js use {Number, to_text}

  unfoldable pub entry_row : LogEntry js → Node Event
  unfolding show
  entry_row entry = el "Box" (prop "key" (show entry.id) ∷ []) (
      kids (
        label "Typography" "❯"
        ∷ label "Typography" entry.cmd
        ∷ label "Typography" (entry.ts +++ " · " +++ to_text entry.ms +++ "ms")
        ∷ el "Typography" (prop "color" (if entry.ok then "#22c55e" else "#ef4444") ∷ [])
            (kids (text entry.response ∷ []))
        ∷ []))

  unfoldable pub input_field : State js → Node Event
  unfolding enter
  input_field s =
      el "TextField"
        (prop "value" s.input ∷ on_value "change" set_input ∷ on_key (enter s.loading) ∷ [])
        (kids [])

  unfoldable pub log_area : List (LogEntry js) → Node Event
  unfolding entry_row
  log_area log = el "Box" [] (kids (when (is_empty log) empty_note ++ map entry_row log))

  unfoldable pub hint_alert : Option String → Node Event
  hint_alert hint = el "Fragment" [] (
      kids
        (when_some hint (λ h. el "Alert" (prop "severity" "info" ∷ []) (kids (text h ∷ [])) ∷ [])))

  unfoldable pub view : State js → Node Event
  unfolding log_area hint_alert input_field send_button reference_card
  view s = el "Box" [] (
      kids (
        label "Typography" "Commands"
        ∷ label "Typography" "Interactive REPL — type commands like a Redis CLI"
        ∷ el "Card" [] (
            kids (
              log_area s.log
              ∷ hint_alert s.hint
              ∷ input_field s
              ∷ send_button s.loading s.input
              ∷ []))
        ∷ reference_card
        ∷ []))

  -- An environment's share: `performance.now()` before and after, the time of day, and how far runs of
  -- pages that were left have counted the module's `seq` on since the last event.
  pub record Clock : Type 0 where
    pub others : ℕ
    pub t0 : Number
    pub t1 : Number
    pub ts : String

  abbrev pub in_flight : Option (Pending js) → List (Pending js)
  in_flight none = []
  in_flight (some p) = p ∷ []

  abbrev pub counted : ℕ → State js → State js
  counted n s = record s { seq = s.seq + n }

  unfoldable pub handle : Event → Clock → State js → State js × List (Pending js)
  handle (set_input v) c s = (record (counted c.others s) { input = v }, [])
  handle run_command c s =
      let (s', p) = run js c.t0 c.t1 c.ts (counted c.others s) in (s', in_flight p)

  unfoldable pub initial : State js
  initial = record { input = ""; log = []; loading = false; hint = none; seq = 0 }

  abbrev pub page : Page
  page = record {
    State = State js;
    Event = Event;
    Env = Clock;
    Pending = Pending js;
    Result = λ p. Reply (Answer js p.request);
    CanHappen = λ s e. Offers e (view s);
    start = initial;
    mounted = [];
    handle = handle;
    resume = λ p r c s. (resume js p r c.t1 c.ts (counted c.others s), []);
  }
