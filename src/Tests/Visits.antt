-- ===== src/Tests/Visits.antt =====
-- Visits to the other pages: a question to the assistant, a key that is stored, a benchmark, the
-- settings, and the navigation.
use Prim.Native.String.{String}
use quark_cache.Common.{
  All, leb, le→leb, ◌/◌, ℕ, ◌≡◌, refl, true, false, none, some, [], ◌∷◌, ◌↔◌, inl, inr, arith, In,
  truthy,
}
use quark_cache.Common.Text.{trim}
use quark_cache.Tests.{whole_js}
use quark_cache.Frontend.Api.{KeyListItem}
use quark_cache.Frontend.Html.{Offers}
use quark_cache.Frontend.Runtime.{World, Reachable, at_start, next, event}
use quark_cache.Frontend.Chat
use quark_cache.Frontend.Chat.View as ChatView
use quark_cache.Frontend.Chat.Turns.{TakesTurns, Reachable-TakesTurns}
use quark_cache.Frontend.Keys
use quark_cache.Frontend.Keys.Form
use quark_cache.Frontend.Keys.Table.{key_table}
use quark_cache.Frontend.Keys.View as KeysView
use quark_cache.Frontend.Keys.Offers.{key_table-delete_iff, view-submit_set}
use quark_cache.Frontend.Keys.Calls.{IsSound}
use quark_cache.Frontend.Keys.Flight.{Reachable-IsSound}
use quark_cache.Frontend.Bench
use quark_cache.Frontend.Bench.View as BenchView
use quark_cache.Frontend.Bench.Flight.{IsSteady, Reachable-IsSteady}
use quark_cache.Frontend.Bench.Admitted.{admitted, Reachable-admitted}
use quark_cache.Frontend.Settings
use quark_cache.Frontend.Settings.{Reachable-IsSaved}

-- The chat, after a question has been sent.
abbrev question : String
question = "How does LRU eviction work?"

abbrev asked_world : World ChatView.page
asked_world = record {
  state = record (Chat.say Chat.user question none ChatView.initial) { input = ""; loading = true };
  pending = Chat.insights ∷ Chat.chat (record { message = question; history = [] }) ∷ [];
}

asked_world-Reachable : Reachable ChatView.page asked_world
unfolding ChatView.view ChatView.starters_panel ChatView.starter_row ChatView.handle Chat.send trim
asked_world-Reachable = next at_start (
    event (ChatView.send_text (some question)) tt (
      inr (inr (inr (inr (inr (inr (inl (inr (inr (inr (inr (inl (inl (refl, inl refl)))))))))))))))

Reachable-TakesTurns_example : TakesTurns asked_world.state asked_world.pending
Reachable-TakesTurns_example = Reachable-TakesTurns asked_world asked_world-Reachable

-- The key explorer: a list of one key, and a form that is filled.
abbrev row : KeyListItem
row = record { key = "name"; value = "quark"; ttl_remaining = none }

key_table-delete_iff_example :
    Offers (KeysView.delete "name") (key_table KeysView.delete (row ∷ []))
    ↔ ((r : KeyListItem) × In r (row ∷ []) × ("name" ≡ r.key))
key_table-delete_iff_example = key_table-delete_iff "name" (row ∷ [])

abbrev filled : Form.State
filled = record (Form.initial) { set_key = "name"; set_value = "quark" }

filled-Offers : Offers KeysView.submit_set (KeysView.view Keys.initial filled)
unfolding KeysView.view KeysView.set_form
filled-Offers = inr (inr (inr (inr (inl (inl (refl, inl refl))))))

view-submit_set_example :
    (filled.set_loading ≡ false) × (truthy filled.set_key ≡ true) × (truthy filled.set_value ≡ true)
view-submit_set_example = view-submit_set Keys.initial filled filled-Offers

-- A key is typed, a value is typed, and the form is submitted, while the keys are on their way.
abbrev stored_world : World (KeysView.page whole_js)
stored_world = record {
  state = record { list = Keys.initial; form = record filled { set_loading = true } };
  pending =
      KeysView.of_list Keys.fetch
      ∷ KeysView.of_form (Form.Call.set (record { key = "name"; value = "quark"; ttl = none }))
      ∷ [];
}

stored_world-Reachable : Reachable (KeysView.page whole_js) stored_world
unfolding KeysView.view KeysView.set_form KeysView.handle Form.handle_set
stored_world-Reachable =
    next
      (next
        (next at_start (
          event (KeysView.set_key "name") tt
            (inr (inr (inr (inr (inl (inr (inl (inl (refl, inl ("name", refl))))))))))))
        (event (KeysView.set_value "quark") tt
          (inr (inr (inr (inr (inl (inr (inr (inl (inl (refl, inl ("quark", refl)))))))))))))
      (event KeysView.submit_set tt filled-Offers)

Reachable-IsSound_example : IsSound whole_js stored_world.state stored_world.pending
Reachable-IsSound_example = Reachable-IsSound whole_js stored_world stored_world-Reachable

-- A benchmark that runs.
abbrev whole_text : ℕ → String
whole_text n = "n"

abbrev bench_world : World (BenchView.page whole_js whole_text)
bench_world = record {
  state = record (Bench.initial whole_js) { loading = true };
  pending = (record { num_ops = some 1000; read_ratio = 0; value_size = 64; key_space = 500 }) ∷ [];
}

bench_world-Reachable : Reachable (BenchView.page whole_js whole_text) bench_world
unfolding BenchView.view BenchView.form BenchView.handle Bench.handle_run
bench_world-Reachable = next at_start (
    event BenchView.run_benchmark tt (
      inr (
        inr (
          inr (inl (inr (inr (inr (inr (inr (inr (inr (inr (inl (inl (refl, inl refl))))))))))))))))

Reachable-IsSteady_example : IsSteady whole_js whole_text bench_world.state bench_world.pending
Reachable-IsSteady_example =
    Reachable-IsSteady whole_js whole_text bench_world bench_world-Reachable

Reachable-admitted_example :
    All (λ b. admitted whole_js (λ n. leb n 1) b ≡ leb b.value_size 4096) bench_world.pending
Reachable-admitted_example =
    Reachable-admitted whole_js whole_text (λ n. leb n 1) (λ k h. le→leb (k / 20) 1 (omega arith))
      bench_world bench_world-Reachable

-- The slider is moved and the settings are saved.
abbrev saved : Settings.State
saved = record (Settings.initial) { max_keys = 42000; saved = true; timers = 1 }

saved-Reachable : Settings.Reachable whole_js saved
unfolding Settings.view Settings.handle
saved-Reachable =
    Settings.next
      (Settings.next Settings.at_start (Settings.set_max_keys 42) (
        inr (
          inr (
            inr (
              inr
                (inr (inr (inr (inl (inl (refl, inl (42, omega arith, omega arith, refl))))))))))))
      Settings.save
      (inr (
        inr
          (inr (inr (inr (inr (inr (inr (inr (inr (inr (inr (inl (inl (refl, inl refl)))))))))))))))

Reachable-IsSaved_example : Settings.IsSound whole_js saved
Reachable-IsSaved_example = Reachable-IsSaved whole_js saved saved-Reachable
