-- ===== src/Engine/Lru/Map.antt =====
-- cpp_core/src/lru_cache.cpp: `find`, `update` and `erase` on a map whose keys are distinct.
use Prim.Native.String.{String}
use quark_cache.Common.{
  suc, ◌≡◌, refl, ◌≢◌, ◌∙◌, sym, subst, inl, inr, true, false, none, some, List, [], ◌∷◌, length,
  arith, same,
}
use quark_cache.Engine.{key_cases, same-ne}
use quark_cache.Engine.Lru.{MapValue, find, update, erase}

abbrev pub UniqueKeys : List (String × MapValue) → Type 0
UniqueKeys [] = Unit
UniqueKeys ((k, mv) ∷ m) = (find k m ≡ none) × UniqueKeys m

module _ (key : String) where
  pub find-cons_same :
      (k : String) (mv : MapValue) (m : List (String × MapValue))
      → same k key ≡ true
      → find key ((k, mv) ∷ m) ≡ some mv
  unfolding find
  find-cons_same k mv m e = rw e

  pub find-cons_other :
      (k : String) (mv : MapValue) (m : List (String × MapValue))
      → same k key ≡ false
      → find key ((k, mv) ∷ m) ≡ find key m
  unfolding find
  find-cons_other k mv m e = rw e

  pub find-erase_same :
      (m : List (String × MapValue)) → UniqueKeys m → find key (erase key m) ≡ none
  unfolding find erase
  find-erase_same [] u = refl
  find-erase_same ((k, mv) ∷ m) (first, u) = elim (key_cases k key) [
    | inl (e, t) ↦ rw t (subst (λ l. find l m ≡ none) e first)
    | inr (e, t) ↦ rw (t, find) (rw t (find-erase_same m u))
  ]

  pub find-erase_other :
      (other : String) (m : List (String × MapValue))
      → key ≢ other
      → find other (erase key m) ≡ find other m
  unfolding find erase
  find-erase_other other [] h = refl
  find-erase_other other ((k, mv) ∷ m) h = elim (key_cases k key) [
    | inl (e, t) ↦
        let apart : same k other ≡ false = same-ne k other (λ i. h (sym e ∙ i)) in rw (t, apart)
    | inr (e, t) ↦ ground (arith, find-erase_other other m h)
  ]

  pub find-update_other :
      (other : String) (v : MapValue) (m : List (String × MapValue))
      → key ≢ other
      → find other (update key v m) ≡ find other m
  unfolding find update
  find-update_other other v [] h = refl
  find-update_other other v ((k, mv) ∷ m) h = elim (key_cases k key) [
    | inl (e, t) ↦
        let apart : same k other ≡ false = same-ne k other (λ i. h (sym e ∙ i)) in ground arith
    | inr (e, t) ↦ ground (arith, find-update_other other v m h)
  ]

  pub find-update_same :
      (v mv : MapValue) (m : List (String × MapValue))
      → find key m ≡ some mv
      → find key (update key v m) ≡ some v
  unfolding find update
  find-update_same v mv [] h = cc
  find-update_same v mv ((k, w) ∷ m) h = ground (arith, find-update_same v mv m)

  pub length-erase :
      (mv : MapValue) (m : List (String × MapValue))
      → find key m ≡ some mv
      → suc (length (erase key m)) ≡ length m
  unfolding find erase
  length-erase mv [] h = cc
  length-erase mv ((k, w) ∷ m) h = ground (arith, length-erase mv m)

  pub length-update :
      (v : MapValue) (m : List (String × MapValue)) → length (update key v m) ≡ length m
  unfolding update
  length-update v [] = refl
  length-update v ((k, w) ∷ m) = ground (arith, length-update v m)

  pub UniqueKeys-erase : (m : List (String × MapValue)) → UniqueKeys m → UniqueKeys (erase key m)
  unfolding erase
  UniqueKeys-erase [] u = tt
  UniqueKeys-erase ((k, mv) ∷ m) (first, u) = elim (key_cases k key) [
    | inl (e, t) ↦ rw t u
    | inr (e, t) ↦ rw t ((find-erase_other k m (λ i. e (sym i)) ∙ first, UniqueKeys-erase m u))
  ]

  pub UniqueKeys-update :
      (v : MapValue) (m : List (String × MapValue)) → UniqueKeys m → UniqueKeys (update key v m)
  unfolding update
  UniqueKeys-update v [] u = tt
  UniqueKeys-update v ((k, mv) ∷ m) (first, u) = elim (key_cases k key) [
    | inl (e, t) ↦ rw t (first, u)
    | inr (e, t) ↦
        rw t ((find-update_other k v m (λ i. e (sym i)) ∙ first, UniqueKeys-update v m u))
  ]
