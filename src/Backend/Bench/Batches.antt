-- ===== src/Backend/Bench/Batches.antt =====
-- backend/app/services/benchmark_service.py: the batches, whose operations overlap, against the operations in
-- the order in which they are served.
use mathlib.Core.List
use mathlib.Core.List.{Perm}
use mathlib.Core.List.Perm
use quark_cache.Common.{
  ℕ, zero, suc, ◌+◌, ◌≡◌, refl, sym, ap, ◌∙◌, subst, All, All-append, All-split, List, [], ◌∷◌,
  ◌++◌, arith, length, drop,
}
use quark_cache.Backend.Service.{Network}
use quark_cache.Backend.Bench.{
  Op, timed_op, in_turn, gather, take, batches, batch_size, run_batches,
}

module _ {S : Type 0} (network : Network S) (clock : ℕ → ℕ × ℕ) where
  in_turn-append :
      (i : ℕ) (xs ys : List Op) (s : S)
      → let (rs, s') = in_turn network clock i xs s in
        let (qs, s'') = in_turn network clock (i + length xs) ys s' in
        in_turn network clock i (xs ++ ys) s ≡ (rs ++ qs, s'')
  unfolding in_turn
  in_turn-append i [] ys s = let e : i + 0 ≡ i = omega arith in rw e refl
  in_turn-append i (x ∷ xs) ys s =
      let e : i + suc (length xs) ≡ suc i + length xs = omega arith in
      let (r, s') = timed_op network (clock i).0 (clock i).1 x s in
      rw e (ap (λ p. (r ∷ p.0, p.1)) (in_turn-append (suc i) xs ys s'))

  length-in_turn :
      (i : ℕ) (ops : List Op) (s : S) → length (in_turn network clock i ops s).0 ≡ length ops
  unfolding in_turn
  length-in_turn i [] s = refl
  length-in_turn i (op ∷ ops) s = ap suc (length-in_turn (suc i) ops _)

  take-append-drop : (n : ℕ) (ops : List Op) → take n ops ++ drop n ops ≡ ops
  take-append-drop zero ops = refl
  take-append-drop (suc n) [] = refl
  take-append-drop (suc n) (x ∷ ops) = ap (◌∷◌ x) (take-append-drop n ops)

  module _ (order : ℕ → List Op → List Op) where
    -- The operations as they are served, batch by batch, the first batch from number `i` on.
    pub served : ℕ → List (List Op) → List Op
    served i [] = []
    served i (b ∷ bs) = order i b ++ served (i + length (order i b)) bs

    pub run_batches-in_turn :
        (i : ℕ) (bs : List (List Op)) (s : S)
        → run_batches network order clock i bs s ≡ in_turn network clock i (served i bs) s
    unfolding run_batches gather in_turn served
    run_batches-in_turn i [] s = refl
    run_batches-in_turn i (b ∷ bs) s =
        let (rs, s') = in_turn network clock i (order i b) s in
        ap (λ p. (rs ++ p.0, p.1))
          (run_batches-in_turn (i + length rs) bs s'
            ∙ ap (λ n. in_turn network clock (i + n) (served (i + n) bs) s')
                (length-in_turn i (order i b) s))
        ∙ sym (in_turn-append i (order i b) (served (i + length (order i b)) bs) s)

    -- What holds of the operations holds of those that are served, if the order keeps it.
    pub served-All :
        (P : Op → Type 0)
        → ((i : ℕ) (b : List Op) → All P b → All P (order i b))
        → (fuel i : ℕ) (ops : List Op) → All P ops
        → All P (served i (batches fuel batch_size ops))
    unfolding served batches
    served-All P keeps zero i ops h = tt
    served-All P keeps (suc fuel) i [] h = tt
    served-All P keeps (suc fuel) i (op ∷ ops) h =
        let all = op ∷ ops in
        let (first, rest) =
          All-split P (take batch_size all) (drop batch_size all)
            (subst (All P) (sym (take-append-drop batch_size all)) h) in
        All-append P (order i (take batch_size all)) _ (keeps i (take batch_size all) first)
          (served-All P keeps fuel _ (drop batch_size all) rest)
