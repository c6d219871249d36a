-- ===== src/Backend/Metrics/Window.antt =====
-- backend/app/services/metrics_service.py: the rate that `get_metrics` gives, against the polls.
use mathlib.Core.List.{append-nil}
use quark_cache.Common.{
  ℕ, zero, suc, ◌-◌, ◌≤◌, ◌≡◌, refl, sym, ap, ◌∙◌, true, List, [], ◌∷◌, ◌++◌, All, arith, leb,
  if◌then◌else◌, length, drop, last_n, last_n_of_le, window-cons, length-last_n-le,
  push_capped-last_n, Bool-cases, inl, inr,
}
use quark_cache.Common.Integers.{ℤ, difference, difference-chain, difference_self}
use quark_cache.Backend.Client.{ok}
use quark_cache.Backend.Metrics.{
  Raw, State, MetricsResponse, second, fresh, get_or_zero, recent, record_total, measured,
  get_metrics,
}

-- A poll that brought statistics: the clock's reading and the total.
abbrev pub Poll : Type 0
Poll = ℕ × ℕ

-- The state after some polls.
unfoldable pub after : State → List Poll → State
unfolding record_total
after s [] = s
after s ((now, total) ∷ ps) = after (record_total now total s) ps

-- The clock does not run backwards, and does not pass the reading.
abbrev pub IsOrdered : ℕ → List Poll → Type 0
IsOrdered now [] = Unit
IsOrdered now ((ts, total) ∷ ps) = (ts ≤ now) × All (λ p. ts ≤ p.0) ps × IsOrdered now ps

-- The total after the first `k` polls.
unfoldable pub total_after : ℕ → ℕ → List Poll → ℕ
total_after zero total ps = total
total_after (suc k) total [] = total
total_after (suc k) total ((ts, t) ∷ ps) = total_after k t ps

-- The last total that lies more than a second back, or the one that came before.
unfoldable pub total_before : ℕ → ℕ → List Poll → ℕ
total_before now total [] = total
total_before now total ((ts, t) ∷ ps) =
    let rest = total_before now t ps in if leb (now - ts) second then total else rest

-- The total that the rate is counted from: the last one that is more than a second old, or that of the
-- poll before the last 60.
unfoldable pub base : ℕ → List Poll → ℕ
unfolding total_before total_after
base now ps = let k = length ps - 60 in total_before now (total_after k 0 ps) (drop k ps)

deltas : ℕ → List Poll → List (ℕ × ℤ)
deltas last [] = []
deltas last ((ts, t) ∷ ps) = (ts, difference t last) ∷ deltas t ps

final : ℕ → List Poll → ℕ
final last [] = last
final last ((ts, t) ∷ ps) = final t ps

drop-deltas :
    (k last : ℕ) (ps : List Poll)
    → drop k (deltas last ps) ≡ deltas (total_after k last ps) (drop k ps)
unfolding deltas total_after
drop-deltas zero last ps = refl
drop-deltas (suc k) last [] = refl
drop-deltas (suc k) last ((ts, t) ∷ ps) = drop-deltas k t ps

length-deltas : (last : ℕ) (ps : List Poll) → length (deltas last ps) ≡ length ps
unfolding deltas
length-deltas last [] = refl
length-deltas last ((ts, t) ∷ ps) = ap suc (length-deltas t ps)

final-drop :
    (k last : ℕ) (ps : List Poll) → final (total_after k last ps) (drop k ps) ≡ final last ps
unfolding final total_after
final-drop zero last ps = refl
final-drop (suc k) last [] = refl
final-drop (suc k) last ((ts, t) ∷ ps) = final-drop k t ps

-- All polls lie in the last second: the deltas add up to the whole.
recent-all :
    (now last : ℕ) (ps : List Poll)
    → All (λ p. leb (now - p.0) second ≡ true) ps
    → recent now (deltas last ps) ≡ difference (final last ps) last
unfolding recent deltas final
recent-all now last [] h = sym (difference_self last)
recent-all now last ((ts, t) ∷ ps) (x, h) =
    rw (x, recent-all now t ps h) (difference-chain last t (final t ps))

all_recent :
    (now ts : ℕ) (ps : List Poll)
    → leb (now - ts) second ≡ true
    → All (λ p. ts ≤ p.0) ps
    → All (λ p. leb (now - p.0) second ≡ true) ps
all_recent now ts [] e h = tt
all_recent now ts (p ∷ ps) e (x, h) = (ground arith, all_recent now ts ps e h)

recent-deltas :
    (now last : ℕ) (ps : List Poll)
    → IsOrdered now ps
    → recent now (deltas last ps) ≡ difference (final last ps) (total_before now last ps)
unfolding recent deltas final total_before
recent-deltas now last [] h = sym (difference_self last)
recent-deltas now last ((ts, t) ∷ ps) (x, later, h) = elim (Bool-cases (leb (now - ts) second)) [
  | inl e ↦
      rw (e, recent-all now t ps (all_recent now ts ps e later))
        (difference-chain last t (final t ps))
  | inr e ↦ rw e (recent-deltas now t ps h)
]

after-history :
    (s : State) (ps : List Poll)
    → length s.request_history ≤ 60
    → (after s ps).request_history ≡ last_n 60 (s.request_history ++ deltas s.last_total ps)
unfolding after record_total deltas
after-history s [] h =
    sym (ap (last_n 60) (append-nil s.request_history) ∙ last_n_of_le 60 s.request_history h)
after-history s ((now, total) ∷ ps) h =
    let x : ℕ × ℤ = (now, difference total s.last_total) in
    let pushed = push_capped-last_n 60 s.request_history x h in
    let short = length-last_n-le 60 (s.request_history ++ x ∷ []) in
    after-history (record_total now total s) ps (rw pushed short)
    ∙ ap (λ g. last_n 60 (g ++ deltas total ps)) pushed
    ∙ window-cons 60 s.request_history x (deltas total ps)

after-snoc :
    (s : State) (ps : List Poll) (now total : ℕ)
    → record_total now total (after s ps) ≡ after s (ps ++ (now, total) ∷ [])
unfolding after
after-snoc s [] now total = refl
after-snoc s ((ts, t) ∷ ps) now total = after-snoc (record_total ts t s) ps now total

final-snoc :
    (last : ℕ) (ps : List Poll) (now total : ℕ) → final last (ps ++ (now, total) ∷ []) ≡ total
unfolding final
final-snoc last [] now total = refl
final-snoc last ((ts, t) ∷ ps) now total = final-snoc t ps now total

IsOrdered-drop : (k now : ℕ) (ps : List Poll) → IsOrdered now ps → IsOrdered now (drop k ps)
IsOrdered-drop zero now ps h = h
IsOrdered-drop (suc k) now [] h = h
IsOrdered-drop (suc k) now (p ∷ ps) (x, later, h) = IsOrdered-drop k now ps h

recent-after :
    (now : ℕ) (ps : List Poll)
    → IsOrdered now ps
    → recent now (after fresh ps).request_history ≡ difference (final 0 ps) (base now ps)
unfolding base
recent-after now ps h =
    let k = length ps - 60 in
    ap (recent now) (
      after-history fresh ps (omega arith)
      ∙ ap (λ n. drop (n - 60) (deltas 0 ps)) (length-deltas 0 ps)
      ∙ drop-deltas k 0 ps)
    ∙ recent-deltas now (total_after k 0 ps) (drop k ps) (IsOrdered-drop k now ps h)
    ∙ ap (λ n. difference n (base now ps)) (final-drop k 0 ps)

-- After any polls at rising times, a poll that brings statistics gives as its rate the number of requests
-- that the server counted since the last poll that lies more than a second back, or, if more than 60 polls
-- lie within the second, since the one before the last 60; it is negative where the server's count
-- went down.
pub get_metrics-window :
    (ps : List Poll) (now : ℕ) (raw : Raw)
    → let total = get_or_zero "total_requests" raw in
      IsOrdered now (ps ++ (now, total) ∷ [])
      → (m : MetricsResponse) × ((get_metrics now (ok raw) (after fresh ps)).0 ≡ ok m)
        × (m.ops_per_sec ≡ difference total (base now (ps ++ (now, total) ∷ [])))
unfolding get_metrics measured
get_metrics-window ps now raw h =
    let total = get_or_zero "total_requests" raw in
    (
      (measured now raw (after fresh ps)).0,
      refl,
      ap (λ s. recent now s.request_history) (after-snoc fresh ps now total)
          ∙ recent-after now (ps ++ (now, total) ∷ []) h
          ∙ ap (λ n. difference n (base now (ps ++ (now, total) ∷ []))) (final-snoc 0 ps now total),
    )
