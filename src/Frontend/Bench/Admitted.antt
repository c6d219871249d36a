-- ===== src/Frontend/Bench/Admitted.antt =====
-- app/benchmarks/page.tsx against backend/app/models/schemas.py: the bodies that the page sends, and those
-- that the backend admits.
use Prim.Native.String.{String}
use mathlib.Core.List.{append-nil}
use quark_cache.Common.{
  ℕ, ◌≤◌, ◌≡◌, refl, ap, ◌∙◌, Bool, true, List, [], ◌∷◌, ◌++◌, All, All-append, All-without, arith,
  leb, is_some, le→leb, Option-cases, Bool-cases, inl, inr,
}
use quark_cache.Frontend.Js.{Js}
use quark_cache.Frontend.Api.{Reply, ok, failed, BenchmarkResponse}
use quark_cache.Frontend.Html.{Offers}
use quark_cache.Frontend.Runtime.{World, Step, event, reply, Reachable, Reachable-induction}
use quark_cache.Frontend.Bench.{State, Body, twentieths, handle_run, resume}
use quark_cache.Frontend.Bench.View.{
  Event, set_ops_idx, set_read_ratio, set_value_size, set_key_space, run_benchmark, form, view,
  handle, page,
}
use quark_cache.Frontend.Bench.Flight.{IsReady, results-Offers, Reachable-IsSteady}
use quark_cache.Backend.Bench.Request.{benchmark_request}

-- What the backend makes of a body.
abbrev pub admitted : (js : Js) → (js.Number → Bool) → Body js → Bool
admitted js in_unit b =
    is_some (benchmark_request js.Number in_unit b.num_ops b.read_ratio b.value_size b.key_space)

module _ (js : Js) (whole : js.Number → String) where
  -- A ratio that the slider gives.
  abbrev IsStep : js.Number → Type 0
  IsStep x = (k : ℕ) × (k ≤ 20) × (x ≡ twentieths js k)

  abbrev HasSteps : State js → List (Body js) → Type 0
  HasSteps s bs = IsStep s.read_ratio × All (λ b. IsStep b.read_ratio) bs

  form-ratio : (k : ℕ) (s : State js) → Offers (set_read_ratio k) (form js s) → k ≤ 20
  unfolding form
  form-ratio k s h = ground arith

  view-ratio : (k : ℕ) (s : State js) → Offers (set_read_ratio k) (view js whole s) → k ≤ 20
  unfolding view
  view-ratio k s h = elim (Option-cases s.result) [
    | inl e ↦ ground (arith, form-ratio k s)
    | inr (r, e) ↦ ground (arith, form-ratio k s, results-Offers js whole (set_read_ratio k) r)
  ]

  handle-HasSteps :
      (e : Event) (s : State js) (bs : List (Body js))
      → Offers e (view js whole s)
      → HasSteps s bs
      → HasSteps (handle js e s).0 (bs ++ (handle js e s).1)
  unfolding handle handle_run
  handle-HasSteps (set_ops_idx i) s bs o h = rw append-nil h
  handle-HasSteps (set_read_ratio k) s bs o h = rw append-nil ((k, view-ratio k s o, refl), h.1)
  handle-HasSteps (set_value_size v) s bs o h = rw append-nil h
  handle-HasSteps (set_key_space v) s bs o h = rw append-nil h
  handle-HasSteps run_benchmark s bs o h =
      (h.0, All-append (λ b. IsStep b.read_ratio) bs _ h.1 (h.0, tt))

  resume-ratio :
      (r : Reply (BenchmarkResponse js.Number)) (s : State js)
      → (resume js r s).read_ratio ≡ s.read_ratio
  unfolding resume
  resume-ratio (ok a) s = refl
  resume-ratio (failed d) s = refl

  Step-HasSteps :
      (w v : World (page js whole))
      → Step (page js whole) w v
      → HasSteps w.state w.pending
      → HasSteps v.state v.pending
  Step-HasSteps w _ (event e c o) h = handle-HasSteps e w.state w.pending o h
  Step-HasSteps w _ (reply before p after e r c) h =
      let kept : All (λ b. IsStep b.read_ratio) (before ++ p ∷ after) = rw e at h.1 in
      rw append-nil (
        rw (resume-ratio r w.state) h.0,
        All-without (λ b. IsStep b.read_ratio) before p after kept,
      )

  Reachable-HasSteps :
      (w : World (page js whole)) → Reachable (page js whole) w → HasSteps w.state w.pending
  Reachable-HasSteps =
      Reachable-induction (page js whole) (λ w. HasSteps w.state w.pending)
        ((16, omega arith, refl), tt) Step-HasSteps

  module _ (in_unit : js.Number → Bool)
      (steps : (k : ℕ) → k ≤ 20 → in_unit (twentieths js k) ≡ true) where
    admitted-IsReady :
        (b : Body js)
        → IsReady js whole b
        → IsStep b.read_ratio
        → admitted js in_unit b ≡ leb b.value_size 4096
    unfolding benchmark_request
    admitted-IsReady b ((n, e, low, high), size, keys) (k, few, ratio) =
        let unit : in_unit b.read_ratio ≡ true = ap in_unit ratio ∙ steps k few in
        let least = le→leb 1 n (omega arith) in
        let most = le→leb n 500000 (omega arith) in
        elim (Bool-cases (leb b.value_size 4096)) [
          | inl v ↦
              rw
                (
                  e,
                  benchmark_request,
                  unit,
                  least,
                  most,
                  le→leb 1 b.value_size size,
                  le→leb 1 b.key_space keys,
                  v,
                )
                refl
          | inr v ↦ rw (e, benchmark_request, unit, least, most, le→leb 1 b.value_size size, v) refl
        ]

    All-admitted :
        (bs : List (Body js))
        → All (IsReady js whole) bs
        → All (λ b. IsStep b.read_ratio) bs
        → All (λ b. admitted js in_unit b ≡ leb b.value_size 4096) bs
    All-admitted [] h k = tt
    All-admitted (b ∷ bs) (x, h) (y, k) = (admitted-IsReady b x y, All-admitted bs h k)

    -- If the slider's steps from 0 to 1 are numbers that the schema takes for numbers from 0 to 1: in every
    -- reachable state of the benchmarks page each body in flight is admitted by the schema of the
    -- backend exactly if its value size is 4096 at most.
    pub Reachable-admitted :
        (w : World (page js whole))
        → Reachable (page js whole) w
        → All (λ b. admitted js in_unit b ≡ leb b.value_size 4096) w.pending
    Reachable-admitted w r =
        All-admitted w.pending (Reachable-IsSteady js whole w r).ready (Reachable-HasSteps w r).1
