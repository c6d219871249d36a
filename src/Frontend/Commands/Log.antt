-- ===== src/Frontend/Commands/Log.antt =====
-- app/commands/page.tsx: the log, its length and the numbers that serve as React keys.
use Prim.Native.String.{String}
use quark_cache.Common.{
  ℕ, zero, suc, ◌+◌, ◌-◌, ◌≤◌, ◌<◌, ◌≡◌, refl, List, [], ◌∷◌, ◌++◌, arith, length, drop, last_n,
  length-append, length-last_n-le, inl, inr, Bool-cases, truthy, Bool,
}
use quark_cache.Common.Text.{trim}
use quark_cache.Frontend.Js.{Js}
use quark_cache.Frontend.Api.{Reply, ok, failed}
use quark_cache.Frontend.Runtime.{World, Step, event, reply, Reachable, Reachable-induction}
use quark_cache.Frontend.Commands.{
  State, LogEntry, Pending, Plan, Answer, add_log, finish, carry_out, run, resume, begun,
}
use quark_cache.Frontend.Commands.View.{
  Event, set_input, run_command, Clock, counted, handle, initial, page,
}

module _ (js : Js) where
  -- The entries carry rising numbers, above `k` and up to `q`.
  abbrev pub Numbered : ℕ → List (LogEntry js) → ℕ → Type 0
  Numbered k [] q = k ≤ q
  Numbered k (e ∷ es) q = (k < e.id) × Numbered e.id es q

  Numbered-append :
      (k : ℕ) (es : List (LogEntry js)) (q : ℕ) (e : LogEntry js)
      → Numbered k es q
      → e.id ≡ suc q
      → Numbered k (es ++ e ∷ []) (suc q)
  Numbered-append k [] q e h i = (omega arith, omega arith)
  Numbered-append k (d ∷ es) q e h i = (h.0, Numbered-append d.id es q e h.1 i)

  Numbered-drop :
      (n k : ℕ) (es : List (LogEntry js)) (q : ℕ)
      → Numbered k es q
      → (j : ℕ) × Numbered j (drop n es) q
  Numbered-drop zero k es q h = (k, h)
  Numbered-drop (suc n) k [] q h = (k, h)
  Numbered-drop (suc n) k (e ∷ es) q h = Numbered-drop n e.id es q h.1

  Numbered-more :
      (k : ℕ) (es : List (LogEntry js)) (q n : ℕ) → Numbered k es q → Numbered k es (q + n)
  Numbered-more k [] q n h = omega arith
  Numbered-more k (e ∷ es) q n h = (h.0, Numbered-more e.id es q n h.1)

  -- At most 200 entries are kept, with rising numbers up to the counter: no two carry the same number.
  abbrev pub IsLogged : List (LogEntry js) → ℕ → Type 0
  IsLogged log seq = (length log ≤ 200) × (k : ℕ) × Numbered k log seq

  add_log-IsLogged :
      (entry : LogEntry js) (s : State js) (q : ℕ)
      → entry.id ≡ suc q
      → IsLogged s.log q
      → IsLogged (add_log js entry s).log (suc q)
  unfolding add_log
  add_log-IsLogged entry s q e (bound, k, h) =
      let (j, kept) = Numbered-drop (length s.log - 199) k s.log q h in
      (
        omega (arith, length-append (last_n 199 s.log) (entry ∷ []), length-last_n-le 199 s.log),
        j,
        Numbered-append j (last_n 199 s.log) q entry kept e,
      )

  abbrev Logged : State js → Type 0
  Logged s = IsLogged s.log s.seq

  finish-Logged :
      (raw : String) (t0 t1 : js.Number) (ts response : String) (good : Bool) (s : State js)
      → Logged s
      → Logged (finish js raw t0 t1 ts response good s)
  unfolding finish
  finish-Logged raw t0 t1 ts response good s h =
      add_log-IsLogged _ (record s { seq = suc s.seq }) s.seq refl h

  carry_out-Logged :
      (raw : String) (t0 t1 : js.Number) (ts : String) (pl : Plan js) (s : State js)
      → Logged s
      → Logged (carry_out js raw t0 t1 ts pl s).0
  unfolding carry_out
  carry_out-Logged raw t0 t1 ts (Plan.call c) s h = h
  carry_out-Logged raw t0 t1 ts Plan.clear s h = (omega arith, s.seq, omega arith)
  carry_out-Logged raw t0 t1 ts (Plan.say response good hint) s h =
      finish-Logged raw t0 t1 ts response good (record s { hint = hint }) h

  counted-Logged : (n : ℕ) (s : State js) → Logged s → Logged (counted js n s)
  counted-Logged n s (bound, k, h) = (bound, k, Numbered-more k s.log s.seq n h)

  handle-Logged : (e : Event) (c : Clock js) (s : State js) → Logged s → Logged (handle js e c s).0
  unfolding handle run
  handle-Logged (set_input v) c s h = counted-Logged c.others s h
  handle-Logged run_command c s h =
      let s0 = counted js c.others s in
      let h0 = counted-Logged c.others s h in
      elim (Bool-cases (truthy (trim s.input))) [
        | inl e ↦ rw (e, run) (carry_out-Logged _ c.t0 c.t1 c.ts _ (begun js s0) h0)
        | inr e ↦ rw (e, run) h0
      ]

  resume-Logged :
      (p : Pending js) (r : Reply (Answer js p.request)) (t1 : js.Number) (ts : String)
      (s : State js)
      → Logged s
      → Logged (resume js p r t1 ts s)
  unfolding resume
  resume-Logged p (ok a) t1 ts s h = finish-Logged p.raw p.t0 t1 ts _ _ s h
  resume-Logged p (failed d) t1 ts s h = finish-Logged p.raw p.t0 t1 ts _ _ s h

  Step-Logged : (w v : World (page js)) → Step (page js) w v → Logged w.state → Logged v.state
  Step-Logged w _ (event e c h) inv = handle-Logged e c w.state inv
  Step-Logged w _ (reply before p after e r c) inv =
      resume-Logged p r c.t1 c.ts (counted js c.others w.state)
        (counted-Logged c.others w.state inv)

  -- In every state that the REPL can reach, whatever runs of pages that were left count on in between, the
  -- log holds at most 200 entries, whose numbers rise and are not above the counter, so that no two rows
  -- share a React key.
  pub Reachable-IsLogged :
      (w : World (page js)) → Reachable (page js) w → IsLogged w.state.log w.state.seq
  unfolding initial
  Reachable-IsLogged =
      Reachable-induction (page js) (λ w. Logged w.state) (omega arith, 0, omega arith) Step-Logged
