-- ===== src/Common/Lists.antt =====
-- Lists measured and indexed by the native numbers, under the library's names.
use Prim.Native.Nat.{ℕ, zero, suc, ◌+◌, ◌-◌, ◌≤◌}
use mathlib.Core.Path.{◌≡◌, refl, ap, sym, ◌∙◌}
use native.Mathlib.Decide.{dec_le}
use quark_cache.Common.Tests.{ltb, lt→ltb, if◌then◌else◌}
use mathlib.Core.Logic.{◌⊎◌, inl, inr}
use mathlib.Core.List.{List, [], ◌∷◌, ◌++◌, map, append_assoc}
use mathlib.Core.Option.{Option, none, some}
use mathlib.Core.Bool.{Bool, true, false}
use native.Mathlib.Omega.{arith}

module _ {ℓ} {A : Type ℓ} where
  abbrev pub length : List A → ℕ
  length [] = 0
  length (x ∷ xs) = suc (length xs)

  -- `xs.length === 0`.
  abbrev pub is_empty : List A → Bool
  is_empty [] = true
  is_empty (x ∷ xs) = false

  abbrev pub drop : ℕ → List A → List A
  drop zero xs = xs
  drop (suc n) [] = []
  drop (suc n) (x ∷ xs) = drop n xs

  abbrev pub get_elem? : List A → ℕ → Option A
  get_elem? [] i = none
  get_elem? (x ∷ xs) zero = some x
  get_elem? (x ∷ xs) (suc i) = get_elem? xs i

  abbrev pub All {κ} : (A → Type κ) → List A → Type κ
  All P [] = Unit
  All P (x ∷ xs) = P x × All P xs

-- `a` stands in the list, with the position kept.
abbrev pub In : {A : Type 0} → A → List A → Type 0
In a [] = ⊥
In a (x ∷ xs) = (a ≡ x) ⊎ In a xs

pub List-cases {ℓ} :
    {A : Type ℓ} (xs : List A) → (xs ≡ []) ⊎ ((x : A) × (ys : List A) × (xs ≡ x ∷ ys))
List-cases [] = inl refl
List-cases (x ∷ xs) = inr (x, xs, refl)

module _ {ℓ} {A : Type ℓ} where
  pub All-append {κ} : (P : A → Type κ) (xs ys : List A) → All P xs → All P ys → All P (xs ++ ys)
  All-append P [] ys h k = k
  All-append P (x ∷ xs) ys (p, h) k = (p, All-append P xs ys h k)

  pub All-split {κ} : (P : A → Type κ) (xs ys : List A) → All P (xs ++ ys) → All P xs × All P ys
  All-split P [] ys h = (tt, h)
  All-split P (x ∷ xs) ys (p, h) = let (k, l) = All-split P xs ys h in ((p, k), l)

  pub All-without {κ} :
      (P : A → Type κ) (before : List A) (x : A) (after : List A)
      → All P (before ++ x ∷ after)
      → All P (before ++ after)
  All-without P [] x after (p, h) = h
  All-without P (y ∷ before) x after (p, h) = (p, All-without P before x after h)

  pub length-append : (xs ys : List A) → length (xs ++ ys) ≡ length xs + length ys
  length-append [] ys = omega arith
  length-append (x ∷ xs) ys = omega (arith, length-append xs ys)

  pub length-drop : (n : ℕ) (xs : List A) → length (drop n xs) ≡ length xs - n
  length-drop zero xs = omega arith
  length-drop (suc n) [] = omega arith
  length-drop (suc n) (x ∷ xs) = omega (arith, length-drop n xs)

  pub length-map {κ} : {B : Type κ} (f : A → B) (xs : List A) → length (map f xs) ≡ length xs
  length-map f [] = refl
  length-map f (x ∷ xs) = ap suc (length-map f xs)

  pub drop-append : (n : ℕ) (xs ys : List A) → n ≤ length xs → drop n (xs ++ ys) ≡ drop n xs ++ ys
  drop-append zero xs ys h = refl
  drop-append (suc n) [] ys h = absurd (omega arith)
  drop-append (suc n) (x ∷ xs) ys h = drop-append n xs ys (omega arith)

  -- `xs.slice(-n)`: the last `n` elements, or all of a shorter list (for `0 < n`).
  abbrev pub last_n : ℕ → List A → List A
  last_n n xs = drop (length xs - n) xs

  -- `xs.push(x); if (xs.length > n) xs.shift()`.
  abbrev pub push_capped : ℕ → List A → A → List A
  push_capped n xs x = let ys = xs ++ x ∷ [] in if ltb n (length ys) then drop 1 ys else ys

  pub length-last_n-le : (n : ℕ) (xs : List A) → length (last_n n xs) ≤ n
  length-last_n-le n xs = omega (arith, length-drop (length xs - n) xs)

  last_n-cons : (n : ℕ) (x : A) (xs : List A) → n ≤ length xs → last_n n (x ∷ xs) ≡ last_n n xs
  last_n-cons n x xs h = let e : suc (length xs) - n ≡ suc (length xs - n) = omega arith in rw e

  pub last_n_of_le : (n : ℕ) (xs : List A) → length xs ≤ n → last_n n xs ≡ xs
  last_n_of_le n xs h = let e : length xs - n ≡ 0 = omega arith in rw e

  -- Of what is pushed onto a window only the last elements matter.
  pub last_n-append : (n : ℕ) (xs ys : List A) → last_n n (last_n n xs ++ ys) ≡ last_n n (xs ++ ys)
  last_n-append n [] ys = ground arith
  last_n-append n (x ∷ xs) ys = elim (dec_le n (length xs)) [
    | yes h ↦ rw (last_n-cons n x xs h) (
        last_n-append n xs ys
        ∙ sym (last_n-cons n x (xs ++ ys) (omega (arith, length-append xs ys))))
    | no h ↦ rw (last_n_of_le n (x ∷ xs) (omega arith))
  ]

  -- A window onto which `x` is pushed and then `ys`.
  pub window-cons :
      (n : ℕ) (xs : List A) (x : A) (ys : List A)
      → last_n n (last_n n (xs ++ x ∷ []) ++ ys) ≡ last_n n (xs ++ x ∷ ys)
  window-cons n xs x ys =
      last_n-append n (xs ++ x ∷ []) ys ∙ ap (last_n n) (append_assoc xs (x ∷ []) ys)

  -- One capped push onto a window that is not over-full keeps the last `n`.
  pub push_capped-last_n :
      (n : ℕ) (xs : List A) (x : A) → length xs ≤ n → push_capped n xs x ≡ last_n n (xs ++ x ∷ [])
  push_capped-last_n n xs x h = elim (dec_le n (length xs)) [
    | yes k ↦
        let e : length (xs ++ x ∷ []) - n ≡ 1 = omega (arith, length-append xs (x ∷ [])) in
        rw (e, lt→ltb n (length (xs ++ x ∷ [])) (omega (arith, length-append xs (x ∷ []))))
    | no k ↦ ground (arith, length-append xs (x ∷ []), last_n_of_le n (xs ++ x ∷ []))
  ]
