-- ===== src/Engine/Recency.antt =====
-- What the cache promises: its entries in the order of use, the last used first, each key once. A slot
-- also carries the identity of the node of `order_` that stands for it.
use Prim.Native.String.{String}
use quark_cache.Common.{
  ℕ, suc, ◌+◌, ◌<◌, ◌≡◌, ◌≢◌, refl, sym, ap, subst, ◌∙◌, inl, inr, ◌⊎◌, true, false, Option, none,
  some, List, [], ◌∷◌, map, length, All, arith, same, ◌==◌, if◌then◌else◌,
}
use quark_cache.Engine.{key_cases, same-ne}
use quark_cache.Engine.Lru.{CacheEntry, OrderNode, MapValue, entry_bytes, unlink, node_at}

pub record Slot : Type 0 where
  pub id : ℕ
  pub key : String
  pub entry : CacheEntry

abbrev pub node : Slot → OrderNode
node s = record { id = s.id; key = s.key }

abbrev pub value : Slot → MapValue
value s = record { order_it = s.id; entry = s.entry }

unfoldable pub held : String → List Slot → Option MapValue
held key [] = none
held key (s ∷ ss) = let rest = held key ss in if same s.key key then some (value s) else rest

unfoldable pub remove : String → List Slot → List Slot
remove key [] = []
remove key (s ∷ ss) = let rest = remove key ss in if same s.key key then ss else s ∷ rest

unfoldable pub total : List Slot → ℕ
total [] = 0
total (s ∷ ss) = entry_bytes s.key s.entry + total ss

abbrev pub DistinctKeys : List Slot → Type 0
DistinctKeys [] = Unit
DistinctKeys (s ∷ ss) = (held s.key ss ≡ none) × DistinctKeys ss

abbrev pub NoId : ℕ → List Slot → Type 0
NoId i ss = All (λ s. s.id ≢ i) ss

abbrev pub DistinctIds : List Slot → Type 0
DistinctIds [] = Unit
DistinctIds (s ∷ ss) = NoId s.id ss × DistinctIds ss

module _ (key : String) where
  pub held-remove_same : (ss : List Slot) → DistinctKeys ss → held key (remove key ss) ≡ none
  unfolding held remove
  held-remove_same [] u = refl
  held-remove_same (s ∷ ss) (first, u) = elim (key_cases s.key key) [
    | inl (e, t) ↦ rw t (subst (λ l. held l ss ≡ none) e first)
    | inr (e, t) ↦ rw (t, held) (rw t (held-remove_same ss u))
  ]

  pub held-remove_other :
      (other : String) (ss : List Slot) → key ≢ other → held other (remove key ss) ≡ held other ss
  unfolding held remove
  held-remove_other other [] h = refl
  held-remove_other other (s ∷ ss) h = elim (key_cases s.key key) [
    | inl (e, t) ↦
        let apart : same s.key other ≡ false = same-ne s.key other (λ i. h (sym e ∙ i)) in
        rw (t, apart)
    | inr (e, t) ↦ ground (arith, held-remove_other other ss h)
  ]

  pub DistinctKeys-remove : (ss : List Slot) → DistinctKeys ss → DistinctKeys (remove key ss)
  unfolding remove
  DistinctKeys-remove [] u = tt
  DistinctKeys-remove (s ∷ ss) (first, u) = elim (key_cases s.key key) [
    | inl (e, t) ↦ rw t u
    | inr (e, t) ↦
        rw t ((held-remove_other s.key ss (λ i. e (sym i)) ∙ first, DistinctKeys-remove ss u))
  ]

  pub All-remove : (P : Slot → Type 0) (ss : List Slot) → All P ss → All P (remove key ss)
  unfolding remove
  All-remove P [] h = tt
  All-remove P (s ∷ ss) (p, h) = elim (key_cases s.key key) [
    | inl (e, t) ↦ rw t h
    | inr (e, t) ↦ rw t ((p, All-remove P ss h))
  ]

  pub DistinctIds-remove : (ss : List Slot) → DistinctIds ss → DistinctIds (remove key ss)
  unfolding remove
  DistinctIds-remove [] h = tt
  DistinctIds-remove (s ∷ ss) (p, h) = elim (key_cases s.key key) [
    | inl (e, t) ↦ rw t h
    | inr (e, t) ↦ rw t ((All-remove (λ r. r.id ≢ s.id) ss p, DistinctIds-remove ss h))
  ]

  module _ (mv : MapValue) where
    held-nil-ne : held key [] ≡ some mv → ⊥
    unfolding held
    held-nil-ne h = cc

    -- The first slot is the one that is held, or another.
    pub held-cases :
        (s : Slot) (ss : List Slot)
        → held key (s ∷ ss) ≡ some mv
        → (((s.key ≡ key) × (same s.key key ≡ true) × (value s ≡ mv))
            ⊎ ((same s.key key ≡ false) × (held key ss ≡ some mv)))
    unfolding held
    held-cases s ss h = elim (key_cases s.key key) [
      | inl (e, t) ↦ inl (e, t, ground arith)
      | inr (e, t) ↦ inr (t, ground arith)
    ]

    pub length-remove :
        (ss : List Slot) → held key ss ≡ some mv → suc (length (remove key ss)) ≡ length ss
    unfolding held remove
    length-remove [] h = cc
    length-remove (s ∷ ss) h = ground (arith, length-remove ss)

    pub total-remove :
        (ss : List Slot)
        → held key ss ≡ some mv
        → entry_bytes key mv.entry + total (remove key ss) ≡ total ss
    unfolding remove total
    total-remove [] h = absurd (held-nil-ne h)
    total-remove (s ∷ ss) h = elim (held-cases s ss h) [
      | inl (e, t, v) ↦ rw (t, ← e, ← v) refl
      | inr (t, k) ↦ rw t (omega (arith, total-remove ss k))
    ]

    held-id-ne : (i : ℕ) (ss : List Slot) → held key ss ≡ some mv → NoId i ss → mv.order_it ≢ i
    held-id-ne i [] h p = absurd (held-nil-ne h)
    held-id-ne i (s ∷ ss) h (q, p) = elim (held-cases s ss h) [
      | inl (e, t, v) ↦ rw (← v) q
      | inr (t, k) ↦ held-id-ne i ss k p
    ]

    pub held-below :
        (n : ℕ) (ss : List Slot) → held key ss ≡ some mv → All (λ s. s.id < n) ss → mv.order_it < n
    held-below n [] h p = absurd (held-nil-ne h)
    held-below n (s ∷ ss) h (q, p) = elim (held-cases s ss h) [
      | inl (e, t, v) ↦ rw (← v) q
      | inr (t, k) ↦ held-below n ss k p
    ]

    -- The identity that the map holds for a key is that of the key's node, and of no other.
    pub NoId-remove :
        (ss : List Slot) → held key ss ≡ some mv → DistinctIds ss → NoId mv.order_it (remove key ss)
    unfolding remove
    NoId-remove [] h d = tt
    NoId-remove (s ∷ ss) h (p, d) = elim (held-cases s ss h) [
      | inl (e, t, v) ↦ rw (t, ← v) p
      | inr (t, k) ↦ rw t ((λ e. held-id-ne s.id ss k p (sym e), NoId-remove ss k d))
    ]

    other_id : (i : ℕ) → mv.order_it ≢ i → (i == mv.order_it) ≡ false
    other_id i h = ground arith

    pub unlink-node :
        (ss : List Slot)
        → held key ss ≡ some mv
        → DistinctIds ss
        → unlink mv.order_it (map node ss) ≡ map node (remove key ss)
    unfolding remove unlink
    unlink-node [] h d = refl
    unlink-node (s ∷ ss) h (p, d) = elim (held-cases s ss h) [
      | inl (e, t, v) ↦ rw (t, ← v) (ground arith)
      | inr (t, k) ↦
          rw (t, other_id s.id (held-id-ne s.id ss k p)) (ap (◌∷◌ (node s)) (unlink-node ss k d))
    ]

    pub node_at-node :
        (ss : List Slot)
        → held key ss ≡ some mv
        → DistinctIds ss
        → node_at mv.order_it (map node ss) ≡ (record { id = mv.order_it; key = key }) ∷ []
    unfolding node_at
    node_at-node [] h d = absurd (held-nil-ne h)
    node_at-node (s ∷ ss) h (p, d) = elim (held-cases s ss h) [
      | inl (e, t, v) ↦ rw (← v, ← e) (ground arith)
      | inr (t, k) ↦ rw (other_id s.id (held-id-ne s.id ss k p)) (node_at-node ss k d)
    ]
