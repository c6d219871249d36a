-- ===== src/Common/Text/Decimal.antt =====
-- The decimal digits of a whole number determine it.
use Prim.Native.Char.{code}
use Prim.Native.String.{String}
use mathlib.Core.WellFounded.{Acc}
use mathlib.Core.Logic.{dif_pos, dif_neg}
use native.Mathlib.Bridge.{le_prop}
use native.Mathlib.Decide.{dec_lt}
use text.Mathlib.TextLemmas.{nil-append, cons-append}
use quark_cache.Common.{
  ℕ, zero, suc, ◌+◌, ◌-◌, ◌*◌, ◌/◌, ◌%◌, ◌<◌, ◌≡◌, refl, sym, ap, ◌∙◌, subst, arith,
}
use quark_cache.Common.Text.{◌+++◌, digit, tenth_lt, lt_wf, show_acc, show}

-- The number that a text of digits stands for.
unfoldable pub value_from : ℕ → String → ℕ
value_from acc String.[] = acc
value_from acc (String.◌∷◌ c s) = value_from (acc * 10 + (code c - 48)) s

value_from-digit : (acc d : ℕ) → d < 10 → value_from acc (digit d) ≡ acc * 10 + d
unfolding value_from
value_from-digit acc zero h = refl
value_from-digit acc (suc zero) h = refl
value_from-digit acc (suc (suc zero)) h = refl
value_from-digit acc (suc (suc (suc zero))) h = refl
value_from-digit acc (suc (suc (suc (suc zero)))) h = refl
value_from-digit acc (suc (suc (suc (suc (suc zero))))) h = refl
value_from-digit acc (suc (suc (suc (suc (suc (suc zero)))))) h = refl
value_from-digit acc (suc (suc (suc (suc (suc (suc (suc zero))))))) h = refl
value_from-digit acc (suc (suc (suc (suc (suc (suc (suc (suc zero)))))))) h = refl
value_from-digit acc (suc (suc (suc (suc (suc (suc (suc (suc (suc zero))))))))) h = refl
value_from-digit acc (suc (suc (suc (suc (suc (suc (suc (suc (suc (suc d)))))))))) h =
    absurd (omega arith)

value_from-append :
    (acc : ℕ) (s t : String) → value_from acc (s +++ t) ≡ value_from (value_from acc s) t
unfolding value_from
value_from-append acc String.[] t = rw nil-append
value_from-append acc (String.◌∷◌ c s) t =
    rw cons-append (value_from-append (acc * 10 + (code c - 48)) s t)

value-show_acc : (n : ℕ) (w : Acc ◌<◌ n) → value_from 0 (show_acc n w) ≡ n
unfolding show_acc
value-show_acc n (Acc.intro _ smaller) =
    let ih = λ (p : n / 10 < n). value-show_acc (n / 10) (smaller (n / 10) p) in
    elim (dec_lt 9 n) [
      | yes h ↦
          let front = show_acc (n / 10) (smaller (n / 10) (tenth_lt n h)) in
          rw (dif_pos (dec_lt 9 n) le_prop h) (
            value_from-append 0 front (digit (n % 10))
            ∙ value_from-digit (value_from 0 front) (n % 10) (omega arith)
            ∙ omega (arith, ih (tenth_lt n h)))
      | no h ↦ rw (dif_neg (dec_lt 9 n) h) (value_from-digit 0 n (omega arith) ∙ omega arith)
    ]

pub value-show : (n : ℕ) → value_from 0 (show n) ≡ n
unfolding show
value-show n = value-show_acc n (lt_wf.apply n)

-- The digits of two numbers are the same only if the numbers are.
pub show-injective : (m n : ℕ) → show m ≡ show n → m ≡ n
show-injective m n e = sym (value-show m) ∙ ap (value_from 0) e ∙ value-show n

-- Induction on the digits of a number, from the first one.
module _ (P : ℕ → String → Type 0) (of_digit : (d : ℕ) → d < 10 → P d (digit d))
    (of_append : (n d : ℕ) (s : String) → d < 10 → P n s → P (n * 10 + d) (s +++ digit d)) where
  show_acc-cases : (n : ℕ) (w : Acc ◌<◌ n) → P n (show_acc n w)
  unfolding show_acc
  show_acc-cases n (Acc.intro _ smaller) =
      let ih = λ (p : n / 10 < n). show_acc-cases (n / 10) (smaller (n / 10) p) in
      elim (dec_lt 9 n) [
        | yes h ↦
            let whole : n / 10 * 10 + n % 10 ≡ n = omega arith in
            let front = show_acc (n / 10) (smaller (n / 10) (tenth_lt n h)) in
            rw (dif_pos (dec_lt 9 n) le_prop h) (
              subst (λ m. P m (front +++ digit (n % 10))) whole
                (of_append (n / 10) (n % 10) front (omega arith) (ih (tenth_lt n h))))
        | no h ↦ rw (dif_neg (dec_lt 9 n) h) (of_digit n (omega arith))
      ]

  pub show-cases : (n : ℕ) → P n (show n)
  unfolding show
  show-cases n = show_acc-cases n (lt_wf.apply n)

module _ (P : String → Type 0) (of_digit : (n : ℕ) → P (digit n))
    (of_append : (s t : String) → P s → P t → P (s +++ t)) where
  -- What holds of every digit, and of two texts that are put together, holds of a decimal.
  pub show-holds : (n : ℕ) → P (show n)
  show-holds =
      show-cases (λ n s. P s) (λ d h. of_digit d)
        (λ n d s h p. of_append s (digit d) p (of_digit d))
