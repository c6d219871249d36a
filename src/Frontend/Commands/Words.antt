-- ===== src/Frontend/Commands/Words.antt =====
-- app/commands/page.tsx: what is sent for a `SET`, and its usage line.
use Prim.Native.String.{String}
use quark_cache.Common.{
  ℕ, zero, suc, ◌||◌, ◌≡◌, refl, ◌↔◌, ◌<◌, inl, inr, Bool, true, false, not, Option, none, some,
  List, [], ◌∷◌, All, length, same, truthy, Bool-cases, arith, if◌then◌else◌,
}
use quark_cache.Common.Text.{trim, split_spaces}
use quark_cache.Common.Text.Words.{IsWord, split_spaces-IsWord}
use quark_cache.Frontend.Js.{Js}
use quark_cache.Frontend.Commands.{
  State, Pending, Call, Plan, part, plan_set, plan, carry_out, begun, run,
}
use quark_cache.Frontend.Commands.Typed.{truthy_of_ne, ne-nil_of_truthy}

part-IsWord :
    (i : ℕ) (parts : List String)
    → All IsWord parts
    → truthy (part i parts) ≡ true
    → IsWord (part i parts)
part-IsWord i [] h k = absurd (ne-nil_of_truthy "" k refl)
part-IsWord zero (p ∷ ps) h k = h.0
part-IsWord (suc i) (p ∷ ps) h k = part-IsWord i ps h.1 k

module _ (js : Js) where
  abbrev pub CallHasWords : Call js → Type 0
  CallHasWords (Call.set body) = IsWord body.key × IsWord body.value
  CallHasWords _ = Unit

  abbrev PlanHasWords : Plan js → Type 0
  PlanHasWords (Plan.call c) = CallHasWords c
  PlanHasWords _ = Unit

  -- A key and a value that are sent are words.
  abbrev pub SendsWords : State js × Option (Pending js) → Type 0
  SendsWords (s', none) = Unit
  SendsWords (s', some p) = CallHasWords p.request

  choice-HasWords :
      (b : Bool) (p q : Plan js)
      → (b ≡ true → PlanHasWords p)
      → (b ≡ false → PlanHasWords q)
      → PlanHasWords (if b then p else q)
  choice-HasWords true p q h k = h refl
  choice-HasWords false p q h k = k refl

  plan_set-HasWords : (parts : List String) → All IsWord parts → PlanHasWords (plan_set js parts)
  unfolding plan_set
  plan_set-HasWords parts h =
      choice-HasWords (not (truthy (part 1 parts)) || not (truthy (part 2 parts))) _ _ (λ e. tt)
        (λ e. (part-IsWord 1 parts h (ground arith), part-IsWord 2 parts h (ground arith)))

  plan-HasWords :
      (cmd : String) (parts : List String) → All IsWord parts → PlanHasWords (plan js cmd parts)
  unfolding plan
  plan-HasWords cmd parts h =
      choice-HasWords (same cmd "SET") _ _ (λ e. plan_set-HasWords parts h)
        (λ e.
          choice-HasWords (same cmd "GET") _ _ (λ e. tt)
            (λ e.
              choice-HasWords (same cmd "DEL") _ _ (λ e. tt)
                (λ e.
                  choice-HasWords (same cmd "KEYS") _ _ (λ e. tt)
                    (λ e.
                      choice-HasWords (same cmd "STATS") _ _ (λ e. tt)
                        (λ e.
                          choice-HasWords (same cmd "HELP") _ _ (λ e. tt)
                            (λ e. choice-HasWords (same cmd "CLEAR") _ _ (λ e. tt) (λ e. tt)))))))

  carry_out-SendsWords :
      (raw : String) (t0 t1 : js.Number) (ts : String) (pl : Plan js) (s : State js)
      → PlanHasWords pl
      → SendsWords (carry_out js raw t0 t1 ts pl s)
  unfolding carry_out
  carry_out-SendsWords raw t0 t1 ts (Plan.call c) s h = h
  carry_out-SendsWords raw t0 t1 ts Plan.clear s h = tt
  carry_out-SendsWords raw t0 t1 ts (Plan.say response good hint) s h = tt

  -- Whatever is typed, the key and the value of a SET that the REPL sends are not empty and hold no white
  -- space, so they stay one word each on the server's line protocol.
  pub run-SendsWords :
      (t0 t1 : js.Number) (ts : String) (s : State js) → SendsWords (run js t0 t1 ts s)
  unfolding run
  run-SendsWords t0 t1 ts s = elim (Bool-cases (truthy (trim s.input))) [
    | inl e ↦
        rw (e, run)
          (carry_out-SendsWords _ t0 t1 ts _ (begun js s) (
            plan-HasWords (js.to_upper (part 0 (split_spaces (trim s.input)))) _
              (split_spaces-IsWord s.input (ne-nil_of_truthy _ e))))
    | inr e ↦ rw (e, run) tt
  ]

  -- `SET` answers with its usage, and sends nothing, exactly when fewer than two words follow it.
  plan_set-usage_iff :
      (parts : List String)
      → All IsWord parts
      → (plan_set js parts ≡ Plan.say "Usage: SET <key> <value> [ttl]" false none)
        ↔ (length parts < 3)
  unfolding plan_set
  plan_set-usage_iff [] h = ground arith
  plan_set-usage_iff (c ∷ []) h = ground arith
  plan_set-usage_iff (c ∷ k ∷ []) (hc, (hk, h)) = (λ e. omega arith, λ e. rw (truthy_of_ne k hk.1))
  plan_set-usage_iff (c ∷ k ∷ v ∷ ps) (hc, (hk, (hv, h))) =
      rw (truthy_of_ne k hk.1, truthy_of_ne v hv.1) (ground arith)
