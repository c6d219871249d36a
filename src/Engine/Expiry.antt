-- ===== src/Engine/Expiry.antt =====
-- cpp_core/src/lru_cache.cpp: the loop of `evict_expired` over the entries of the map.
use Prim.Native.String.{String}
use quark_cache.Common.{
  ℕ, ◌+◌, ◌≡◌, refl, sym, ap, subst, ◌∙◌, inl, inr, true, false, none, some, List, [], ◌∷◌, map,
  length, Bool-cases, if◌then◌else◌, arith, length-map,
}
use quark_cache.Engine.{key_cases, same_refl, same-ne}
use quark_cache.Engine.Lru.{
  LruCache, MapValue, is_expired, find, discard, expire_from, evict_expired,
}
use quark_cache.Engine.Lru.Map.{UniqueKeys, find-cons_same, find-cons_other}
use quark_cache.Engine.Recency.{
  Slot, value, held, remove, DistinctKeys, held-remove_same, held-remove_other, length-remove,
  held-cases,
}
use quark_cache.Engine.Refines.{Refines, discard-Refines}
use quark_cache.Engine.Promise.{Recency, live, pair, Shows}

module _ (now : ℕ) where
  unfoldable live_slots : List Slot → List Slot
  live_slots [] = []
  live_slots (s ∷ ss) =
      let rest = live_slots ss in if is_expired now s.entry then rest else s ∷ rest

  live-pair : (ss : List Slot) → live now (map pair ss) ≡ map pair (live_slots ss)
  unfolding live live_slots
  live-pair [] = refl
  live-pair (s ∷ ss) = ground (arith, live-pair ss)

  live_slots-remove :
      (key : String) (mv : MapValue) (ss : List Slot)
      → held key ss ≡ some mv
      → is_expired now mv.entry ≡ true
      → live_slots (remove key ss) ≡ live_slots ss
  unfolding live_slots remove
  live_slots-remove key mv [] h old = refl
  live_slots-remove key mv (s ∷ ss) h old = elim (held-cases key mv s ss h) [
    | inl (e, t, v) ↦
        let gone : is_expired now s.entry ≡ true = rw (← v) at old in rw (t, gone) refl
    | inr (t, k) ↦ ground (arith, live_slots-remove key mv ss k old)
  ]

  -- Every entry that is left to visit is held, and every expired entry that is held is left to visit.
  abbrev AreHeld : List (String × MapValue) → List Slot → Type 0
  AreHeld m ss = (key : String) (w : MapValue) → find key m ≡ some w → held key ss ≡ some w

  abbrev AreVisited : List (String × MapValue) → List Slot → Type 0
  AreVisited m ss =
      (key : String) (w : MapValue)
      → held key ss ≡ some w
      → is_expired now w.entry ≡ true
      → find key m ≡ some w

  some-ne-none :
      (m : List (String × MapValue)) (k : String) (w : MapValue)
      → find k m ≡ none
      → find k m ≡ some w
      → ⊥
  some-ne-none m k w a b = cc

  held-ne-none :
      (ss : List Slot) (k : String) (w : MapValue) → held k ss ≡ none → held k ss ≡ some w → ⊥
  held-ne-none ss k w a b = cc

  live_slots-none_left : (ss : List Slot) → DistinctKeys ss → AreVisited [] ss → live_slots ss ≡ ss
  unfolding live_slots held find
  live_slots-none_left [] d b = refl
  live_slots-none_left (s ∷ ss) (first, d) b = elim (Bool-cases (is_expired now s.entry)) [
    | inl old ↦ let k = b s.key (value s) (rw (same_refl s.key) refl) old in cc
    | inr fresh ↦ rw fresh (
        ap (◌∷◌ s) (
          live_slots-none_left ss d (λ key w h old.
            b key w
              (rw
                (same-ne s.key key
                  (λ e. held-ne-none ss key w (subst (λ k. held k ss ≡ none) e first) h))
                h)
              old)))
  ]

  same_held :
      (ss : List Slot) (v w : MapValue) (k l : String)
      → k ≡ l
      → held k ss ≡ some v
      → held l ss ≡ some w
      → v ≡ w
  same_held ss v w k l e a b = let c = rw e at a in cc

  module _ (k : String) (mv : MapValue) (m : List (String × MapValue))
      (unvisited : find k m ≡ none) where
    later : (key : String) (w : MapValue) → find key m ≡ some w → find key ((k, mv) ∷ m) ≡ some w
    later key w h = elim (key_cases k key) [
      | inl (e, t) ↦ absurd (some-ne-none m key w (subst (λ l. find l m ≡ none) e unvisited) h)
      | inr (e, t) ↦ find-cons_other key k mv m t ∙ h
    ]

    AreHeld-keep : (ss : List Slot) → AreHeld ((k, mv) ∷ m) ss → AreHeld m ss
    AreHeld-keep ss a key w h = a key w (later key w h)

    AreHeld-drop : (ss : List Slot) → AreHeld ((k, mv) ∷ m) ss → AreHeld m (remove k ss)
    AreHeld-drop ss a key w h = elim (key_cases k key) [
      | inl (e, t) ↦ absurd (some-ne-none m key w (subst (λ l. find l m ≡ none) e unvisited) h)
      | inr (e, t) ↦ held-remove_other k key ss e ∙ a key w (later key w h)
    ]

    AreVisited-drop :
        (ss : List Slot)
        → DistinctKeys ss
        → AreVisited ((k, mv) ∷ m) ss
        → AreVisited m (remove k ss)
    AreVisited-drop ss d b key w h old = elim (key_cases k key) [
      | inl (e, t) ↦ absurd (
          held-ne-none (remove k ss) key w
            (subst (λ l. held l (remove k ss) ≡ none) e (held-remove_same k ss d)) h)
      | inr (e, t) ↦
          sym (find-cons_other key k mv m t) ∙ b key w (sym (held-remove_other k key ss e) ∙ h) old
    ]

    AreVisited-keep :
        (ss : List Slot)
        → held k ss ≡ some mv
        → is_expired now mv.entry ≡ false
        → AreVisited ((k, mv) ∷ m) ss
        → AreVisited m ss
    AreVisited-keep ss here fresh b key w h old = elim (key_cases k key) [
      | inl (e, t) ↦
          let same_entry : mv ≡ w = same_held ss mv w k key e here h in
          let k = rw (← same_entry) at old in cc
      | inr (e, t) ↦ sym (find-cons_other key k mv m t) ∙ b key w h old
    ]

  abbrev Expires : ℕ × LruCache → List Slot → Type 0
  Expires (n, c) ss = Refines c (live_slots ss) × (n + length (live_slots ss) ≡ length ss)

  expire_from-Expires :
      (m : List (String × MapValue)) (c : LruCache) (ss : List Slot)
      → UniqueKeys m
      → Refines c ss
      → AreHeld m ss
      → AreVisited m ss
      → Expires (expire_from now m c) ss
  unfolding expire_from
  expire_from-Expires [] c ss u r a b = rw (live_slots-none_left ss r.keys b) (r, omega arith)
  expire_from-Expires ((k, mv) ∷ m) c ss (first, u) r a b =
      let here = a k mv (find-cons_same k k mv m (same_refl k)) in
      elim (Bool-cases (is_expired now mv.entry)) [
        | inl old ↦
            let (after, count) =
              expire_from-Expires m (discard k mv c) (remove k ss) u
                (discard-Refines k mv c ss r here) (AreHeld-drop k mv m first ss a)
                (AreVisited-drop k mv m first ss r.keys b) in
            let rest = live_slots-remove k mv ss here old in
            rw (old, ← rest) (after, omega (arith, length-remove k mv ss here))
        | inr fresh ↦ rw fresh (
            expire_from-Expires m c ss u r (AreHeld-keep k mv m first ss a)
              (AreVisited-keep k mv m first ss here fresh b))
      ]

  -- `evict_expired` leaves the entries that have not expired, in their order, and counts the others.
  pub evict_expired-Shows :
      (c : LruCache) (rs : Recency)
      → Shows c rs
      → ((evict_expired now c).0 + length (live now rs) ≡ length rs)
        × Shows (evict_expired now c).1 (live now rs)
  unfolding evict_expired
  evict_expired-Shows c rs (ss, r, shown) =
      let (after, count) =
        expire_from-Expires c.entries c ss r.unique r (λ key w h. sym (r.finds key) ∙ h)
          (λ key w h old. r.finds key ∙ h) in
      let counted : (expire_from now c.entries c).0 + length (live now (map pair ss))
          ≡ length (map pair ss) =
        rw (live-pair ss, length-map pair ss, length-map pair (live_slots ss)) count in
      subst
        (λ l.
          ((expire_from now c.entries c).0 + length (live now l) ≡ length l)
          × Shows (expire_from now c.entries c).1 (live now l))
        shown (counted, (live_slots ss, after, sym (live-pair ss)))
