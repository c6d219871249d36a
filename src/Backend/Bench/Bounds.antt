-- ===== src/Backend/Bench/Bounds.antt =====
-- backend/app/services/benchmark_service.py: the latencies in order, and what the response reports.
use quark_cache.Common.{
  ℕ, zero, suc, ◌-◌, ◌*◌, ◌/◌, ◌≤◌, ◌<◌, List, [], ◌∷◌, leb, All, arith, length, Bool-cases, inl,
  inr,
}
use quark_cache.Backend.Bench.{
  insert, sorted, min, max, minimum, maximum, at, pct, percentiles, LatencyPercentiles,
}

abbrev IsSorted : List ℕ → Type 0
IsSorted [] = Unit
IsSorted (x ∷ xs) = All (λ y. x ≤ y) xs × IsSorted xs

All-le_trans : (a b : ℕ) (l : List ℕ) → a ≤ b → All (λ y. b ≤ y) l → All (λ y. a ≤ y) l
All-le_trans a b [] h k = tt
All-le_trans a b (x ∷ l) h (y, k) = (omega arith, All-le_trans a b l h k)

All-insert : (a x : ℕ) (l : List ℕ) → a ≤ x → All (λ y. a ≤ y) l → All (λ y. a ≤ y) (insert x l)
unfolding insert
All-insert a x [] h k = (h, tt)
All-insert a x (y ∷ l) h (p, k) = elim (Bool-cases (leb x y)) [
  | inl e ↦ rw e (h, (p, k))
  | inr e ↦ rw e (p, All-insert a x l h k)
]

insert-IsSorted : (x : ℕ) (l : List ℕ) → IsSorted l → IsSorted (insert x l)
unfolding insert
insert-IsSorted x [] h = (tt, tt)
insert-IsSorted x (y ∷ l) (p, h) = elim (Bool-cases (leb x y)) [
  | inl e ↦ let q : x ≤ y = ground arith in rw e ((q, All-le_trans x y l q p), (p, h))
  | inr e ↦ let q : y ≤ x = ground arith in rw e (All-insert y x l q p, insert-IsSorted x l h)
]

pub sorted-IsSorted : (l : List ℕ) → IsSorted (sorted l)
unfolding sorted
sorted-IsSorted [] = tt
sorted-IsSorted (x ∷ l) = insert-IsSorted x (sorted l) (sorted-IsSorted l)

at-All : (P : ℕ → Type 0) (l : List ℕ) (i : ℕ) → All P l → i < length l → P (at l i)
unfolding at
at-All P [] i h k = absurd (omega arith)
at-All P (x ∷ l) zero h k = h.0
at-All P (x ∷ l) (suc i) h k = at-All P l i h.1 (omega arith)

at-le : (l : List ℕ) (i j : ℕ) → IsSorted l → i ≤ j → j < length l → at l i ≤ at l j
unfolding at
at-le [] i j h p k = absurd (omega arith)
at-le (x ∷ l) zero zero h p k = omega arith
at-le (x ∷ l) zero (suc j) h p k = at-All (λ y. x ≤ y) l j h.0 (omega arith)
at-le (x ∷ l) (suc i) zero h p k = absurd (omega arith)
at-le (x ∷ l) (suc i) (suc j) h p k = at-le l i j h.1 (omega arith) (omega arith)

minimum-le : (x : ℕ) (l : List ℕ) → (minimum x l ≤ x) × All (λ y. minimum x l ≤ y) l
unfolding minimum
minimum-le x [] = (omega arith, tt)
minimum-le x (y ∷ l) =
    let (p, q) = minimum-le (min x y) l in
    let below_x : min x y ≤ x = ground arith in
    let below_y : min x y ≤ y = ground arith in
    (omega (arith, p, below_x), (omega (arith, p, below_y), q))

maximum-ge : (x : ℕ) (l : List ℕ) → (x ≤ maximum x l) × All (λ y. y ≤ maximum x l) l
unfolding maximum
maximum-ge x [] = (omega arith, tt)
maximum-ge x (y ∷ l) =
    let (p, q) = maximum-ge (max x y) l in
    let above_x : x ≤ max x y = ground arith in
    let above_y : y ≤ max x y = ground arith in
    (omega (arith, p, above_x), (omega (arith, p, above_y), q))

abbrev rank : ℕ → ℕ → ℕ
rank p n = min (p * n / 100) (n - 1)

rank-lt : (p n : ℕ) → 0 < n → rank p n < n
rank-lt p n h = ground arith

-- The percentiles stand in their order, between the least and the greatest latency.
abbrev pub IsAscending : LatencyPercentiles → Type 0
IsAscending r =
    (r.min_ms ≤ r.p50_ms) × (r.p50_ms ≤ r.p95_ms) × (r.p95_ms ≤ r.p99_ms) × (r.p99_ms ≤ r.max_ms)

module _ (rounded : ℕ → ℕ) (keeps : (a b : ℕ) → a ≤ b → rounded a ≤ rounded b) where
  pct-le :
      (l : List ℕ) (p q : ℕ)
      → IsSorted l
      → rank p (length l) ≤ rank q (length l)
      → pct rounded l p ≤ pct rounded l q
  unfolding pct
  pct-le [] p q h k = omega arith
  pct-le (x ∷ l) p q h k =
      keeps _ _ (at-le (x ∷ l) _ _ h k (rank-lt q (length (x ∷ l)) (omega arith)))

  pub percentiles-IsAscending : (l : List ℕ) → IsSorted l → IsAscending (percentiles rounded l)
  unfolding percentiles
  percentiles-IsAscending [] h = (omega arith, omega arith, omega arith, omega arith)
  percentiles-IsAscending (x ∷ l) h =
      let n = length (x ∷ l) in
      let (low, below) = minimum-le x l in
      let (high, above) = maximum-ge x l in
      (
        keeps _ _ (
            at-All (λ y. minimum x l ≤ y) (x ∷ l) (rank 50 n) (low, below)
              (rank-lt 50 n (omega arith))),
        pct-le (x ∷ l) 50 95 h (ground arith),
        pct-le (x ∷ l) 95 99 h (ground arith),
        keeps _ _ (
            at-All (λ y. y ≤ maximum x l) (x ∷ l) (rank 99 n) (high, above)
              (rank-lt 99 n (omega arith))),
      )
