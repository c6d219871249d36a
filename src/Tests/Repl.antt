-- ===== src/Tests/Repl.antt =====
-- Lines typed into the REPL of app/commands/page.tsx.
use Prim.Native.String.{String}
use text.Mathlib.TextLemmas.{cons-ne-nil}
use quark_cache.Common.{◌≡◌, refl, false, none, some, [], ◌∷◌, inl, inr}
use quark_cache.Common.Text.{is_space, join}
use quark_cache.Common.Text.Words.{IsWord}
use quark_cache.Common.Text.Ascii.{capitals}
use quark_cache.Tests.{whole_js}
use quark_cache.Frontend.Js.{parse_int}
use quark_cache.Frontend.Runtime.{World, Reachable, at_start, next, event}
use quark_cache.Frontend.Commands.{State, Call, begun, run}
use quark_cache.Frontend.Commands.View.{
  view, log_area, hint_alert, input_field, send_button, set_input, run_command, handle, initial,
  page,
}
use quark_cache.Frontend.Commands.Flight.{HasOneFlight, Reachable-HasOneFlight}
use quark_cache.Frontend.Commands.Typed.{Means, sent, set_ttl, run-Means}
use quark_cache.Frontend.Commands.Words.{SendsWords, run-SendsWords}
use quark_cache.Frontend.Commands.Log.{IsLogged, Reachable-IsLogged}

abbrev typed : String → State whole_js
typed line = record { input = line; log = []; loading = false; hint = none; seq = 0 }

abbrev set_name : State whole_js
set_name = typed "SET name quark 60"

name-IsWord : IsWord "name"
unfolding is_space
name-IsWord = ((refl, (refl, (refl, (refl, tt)))), cons-ne-nil _ _)

quark-IsWord : IsWord "quark"
unfolding is_space
quark-IsWord = ((refl, (refl, (refl, (refl, (refl, tt))))), cons-ne-nil _ _)

ttl-IsWord : IsWord "60"
unfolding is_space
ttl-IsWord = ((refl, (refl, tt)), cons-ne-nil _ _)

abbrev set_call : Call whole_js
set_call = Call.set (record { key = "name"; value = "quark"; ttl = some 60 })

set_ttl-Means : Means whole_js 0 5 "12:00" set_name ("SET" ∷ "name" ∷ "quark" ∷ "60" ∷ []) set_call
unfolding parse_int
set_ttl-Means = set_ttl name-IsWord quark-IsWord ttl-IsWord

run-Means_example : run whole_js 0 5 "12:00" set_name ≡ sent whole_js 0 5 "12:00" set_name set_call
unfolding join
run-Means_example = run-Means whole_js 0 5 "12:00" set_name set_ttl-Means refl

run-SendsWords_example : SendsWords whole_js (run whole_js 0 5 "12:00" set_name)
run-SendsWords_example = run-SendsWords whole_js 0 5 "12:00" set_name

-- The page with a command typed, and with the command sent.
abbrev typed_world : World (page whole_js)
typed_world = record { state = set_name; pending = [] }

abbrev sent_world : World (page whole_js)
sent_world = record {
  state = begun whole_js set_name;
  pending = (record { raw = "SET name quark 60"; t0 = 0; request = set_call }) ∷ [];
}

typed_world-Reachable : Reachable (page whole_js) typed_world
unfolding view log_area hint_alert input_field handle initial
typed_world-Reachable = next at_start (
    event (set_input "SET name quark 60") (record { others = 0; t0 = 0; t1 = 0; ts = "" })
      (inr (inr (inr (inl (inr (inr (inr (inl (inl (refl, inl ("SET name quark 60", refl))))))))))))

sent_world-Reachable : Reachable (page whole_js) sent_world
unfolding view log_area hint_alert input_field send_button handle run capitals parse_int
sent_world-Reachable = next typed_world-Reachable (
    event run_command (record { others = 0; t0 = 0; t1 = 5; ts = "12:00" })
      (inr (inr (inr (inl (inr (inr (inr (inr (inl (inl (refl, inl refl))))))))))))

Reachable-HasOneFlight_example : HasOneFlight whole_js sent_world
Reachable-HasOneFlight_example = Reachable-HasOneFlight whole_js sent_world sent_world-Reachable

Reachable-IsLogged_example : IsLogged whole_js [] 0
Reachable-IsLogged_example = Reachable-IsLogged whole_js sent_world sent_world-Reachable
