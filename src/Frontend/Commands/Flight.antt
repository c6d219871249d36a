-- ===== src/Frontend/Commands/Flight.antt =====
-- app/commands/page.tsx as it runs: the spinner and the calls in flight.
use Prim.Native.String.{String}
use quark_cache.Common.{
  ◌≡◌, refl, inl, inr, Bool, true, false, Option, List, ◌++◌, map, arith, Bool-cases, is_empty,
  truthy,
}
use quark_cache.Frontend.Js.{Js}
use quark_cache.Frontend.Html.{when, Offers}
use quark_cache.Frontend.Html.Laws.{OffersAny-append, OffersAny-map, OffersAny-when}
use quark_cache.Frontend.Commands.{
  State, LogEntry, Pending, Plan, Answer, carry_out, run, resume, begun,
}
use quark_cache.Frontend.Commands.View.{
  Event, set_input, run_command, entry_row, reference_chip, input_field, send_button, references,
  reference_card, log_area, empty_note, hint_alert, view, Clock, in_flight, counted, handle,
  initial, page,
}
use quark_cache.Common.Text.{trim}
use quark_cache.Frontend.Api.{Reply, ok, failed}
use quark_cache.Frontend.Runtime.{
  Flies, Flies-event, Flies-same, Flies-reply, World, Step, event, reply, Reachable,
  Reachable-induction,
}

module _ (js : Js) where
  entry_row-Offers-none : (e : Event) (entry : LogEntry js) → Offers e (entry_row js entry) → ⊥
  unfolding entry_row
  entry_row-Offers-none e entry h = ground arith

  input_field-Offers-run :
      (s : State js) → Offers run_command (input_field js s) → s.loading ≡ false
  unfolding input_field
  input_field-Offers-run s h = ground arith

  send_button-Offers-run :
      (loading : Bool) (input : String)
      → Offers run_command (send_button loading input)
      → loading ≡ false
  unfolding send_button
  send_button-Offers-run loading input h = ground arith

  chip-Offers-run : (c : String) → Offers run_command (reference_chip c) → ⊥
  unfolding reference_chip
  chip-Offers-run c h = ground arith

  card-Offers-run : Offers run_command reference_card → ⊥
  unfolding reference_card
  card-Offers-run (inl h) = absurd h.1
  card-Offers-run (inr (inl h)) = ground arith
  card-Offers-run (inr (inr h)) =
      let (c, _, k) = OffersAny-map run_command reference_chip references h in chip-Offers-run c k

  log_area-Offers-none : (e : Event) (log : List (LogEntry js)) → Offers e (log_area js log) → ⊥
  unfolding log_area
  log_area-Offers-none e log (inl h) = absurd h.1
  log_area-Offers-none e log (inr h) =
      elim (OffersAny-append e (when (is_empty log) empty_note) (map (entry_row js) log) h) [
        | inl k ↦ ground (arith, OffersAny-when e (is_empty log) empty_note k)
        | inr k ↦
            let (entry, _, here) = OffersAny-map e (entry_row js) log k in
            entry_row-Offers-none e entry here
      ]

  hint_alert-Offers-none : (e : Event) (hint : Option String) → Offers e (hint_alert js hint) → ⊥
  unfolding hint_alert
  hint_alert-Offers-none e hint h = ground arith

  view-Offers-run : (s : State js) → Offers run_command (view js s) → s.loading ≡ false
  unfolding view
  view-Offers-run s h = ground (
    arith,
    log_area-Offers-none run_command s.log,
    hint_alert-Offers-none run_command s.hint,
    input_field-Offers-run s,
    send_button-Offers-run s.loading s.input,
    card-Offers-run,
  )

  carry_out-Flies :
      (raw : String) (t0 t1 : js.Number) (ts : String) (pl : Plan js) (s : State js)
      → s.loading ≡ true
      → let (s', p) = carry_out js raw t0 t1 ts pl s in Flies s'.loading (in_flight js p)
  unfolding carry_out
  carry_out-Flies raw t0 t1 ts (Plan.call c) s h = rw h (_, refl)
  carry_out-Flies raw t0 t1 ts Plan.clear s h = refl
  carry_out-Flies raw t0 t1 ts (Plan.say response good hint) s h = refl

  -- A run that sends nothing ends idle; one that waits keeps the spinner.
  run-Flies :
      (t0 t1 : js.Number) (ts : String) (s : State js)
      → s.loading ≡ false
      → let (s', p) = run js t0 t1 ts s in Flies s'.loading (in_flight js p)
  unfolding run
  run-Flies t0 t1 ts s h = elim (Bool-cases (truthy (trim s.input))) [
    | inl e ↦ rw (e, run) (carry_out-Flies _ t0 t1 ts _ (begun js s) refl)
    | inr e ↦ rw (e, run) (rw h refl)
  ]

  resume-loading :
      (p : Pending js) (r : Reply (Answer js p.request)) (t1 : js.Number) (ts : String)
      (s : State js)
      → (resume js p r t1 ts s).loading ≡ false
  unfolding resume
  resume-loading p (ok a) t1 ts s = refl
  resume-loading p (failed d) t1 ts s = refl

  abbrev pub HasOneFlight : World (page js) → Type 0
  HasOneFlight w = Flies w.state.loading w.pending

  event-HasOneFlight :
      (e : Event) (c : Clock js) (s : State js) (ps : List (Pending js))
      → Offers e (view js s)
      → Flies s.loading ps
      → let (s', sent) = handle js e c s in Flies s'.loading (ps ++ sent)
  unfolding handle
  event-HasOneFlight (set_input v) c s ps h inv = Flies-same s.loading ps inv
  event-HasOneFlight run_command c s ps h inv =
      let idle = view-Offers-run s h in
      Flies-event s.loading _ ps _ idle inv (run-Flies c.t0 c.t1 c.ts (counted js c.others s) idle)

  Step-HasOneFlight : (w v : World (page js)) → Step (page js) w v → HasOneFlight w → HasOneFlight v
  Step-HasOneFlight w _ (event e c h) inv = event-HasOneFlight e c w.state w.pending h inv
  Step-HasOneFlight w _ (reply before p after e r c) inv = rw (
    resume-loading p r c.t1 c.ts (counted js c.others w.state),
    Flies-reply w.state.loading w.pending before p after e inv,
  )

  -- Whatever the user does and however the replies come, the REPL has no call in flight while it is
  -- idle and exactly one while it shows the spinner: commands never overlap.
  pub Reachable-HasOneFlight : (w : World (page js)) → Reachable (page js) w → HasOneFlight w
  unfolding initial
  Reachable-HasOneFlight = Reachable-induction (page js) HasOneFlight refl Step-HasOneFlight
