-- ===== src/Frontend/Poll/Rows.antt =====
-- The rows of app/clients/page.tsx.
use text.Mathlib.TextLemmas.{append_cancel_left}
use quark_cache.Common.{
  ℕ, zero, suc, ◌+◌, ◌≡◌, ◌≢◌, ◌<◌, refl, ap, ◌∙◌, length, get_elem?, some, arith,
}
use quark_cache.Common.Text.{show}
use quark_cache.Common.Text.Decimal.{show-injective}
use quark_cache.Frontend.Js.{Js}
use quark_cache.Frontend.Poll.Clients.{State, Row, connections, row, rows_from, rows}

module _ (js : Js) (draws : ℕ → js.Number × js.Number) where
  rows_from-get_elem? :
      (i n j : ℕ) → j < n → get_elem? (rows_from js draws i n) j ≡ some (row js draws (i + j))
  unfolding rows_from
  rows_from-get_elem? i zero j h = absurd (omega arith)
  rows_from-get_elem? i (suc n) zero h =
      let e : i ≡ i + 0 = omega arith in ap (λ k. some (row js draws k)) e
  rows_from-get_elem? i (suc n) (suc j) h =
      let e : suc i + j ≡ i + suc j = omega arith in
      rows_from-get_elem? (suc i) n j (omega arith) ∙ ap (λ k. some (row js draws k)) e

  length-rows_from : (i n : ℕ) → length (rows_from js draws i n) ≡ n
  unfolding rows_from
  length-rows_from i zero = refl
  length-rows_from i (suc n) = ap suc (length-rows_from (suc i) n)

  row_id-injective : (i j : ℕ) → (row js draws i).id ≡ (row js draws j).id → i ≡ j
  unfolding row
  row_id-injective i j e =
      let digits = append_cancel_left "fd-" (show (10 + i)) (show (10 + j)) e in
      omega (arith, show-injective (10 + i) (10 + j) digits)

  -- One row for each connection, and no identifier twice.
  abbrev pub RowsOneEach : State js → Type 0
  RowsOneEach s =
      (length (rows js draws s) ≡ connections js s.metrics)
      × ((i j : ℕ)
          → i < connections js s.metrics
          → j < connections js s.metrics
          → i ≢ j
          → (a : Row js) × (b : Row js) × (get_elem? (rows js draws s) i ≡ some a)
            × (get_elem? (rows js draws s) j ≡ some b)
            × (a.id ≢ b.id))

  -- The list has one row for each connection that the last metrics count, and no two rows share
  -- their identifier, which is their React key.
  pub rows-one_each : (s : State js) → RowsOneEach s
  unfolding rows
  rows-one_each s =
      let n = connections js s.metrics in
      (
        length-rows_from 0 n,
        λ i j hi hj apart. (
          row js draws (0 + i),
          row js draws (0 + j),
          rows_from-get_elem? 0 n i hi,
          rows_from-get_elem? 0 n j hj,
          λ e. apart (omega (arith, row_id-injective (0 + i) (0 + j) e)),
        ),
      )
