-- ===== src/Engine/Refines/Last.antt =====
-- cpp_core/src/lru_cache.cpp: `evict_lru`, and the loop of `set` that makes room.
use Prim.Native.String.{String}
use quark_cache.Common.{
  ℕ, suc, ◌≤◌, ◌<◌, ◌≡◌, ◌≢◌, refl, sym, ap, subst, ◌∙◌, inl, inr, Option, none, some, List, [],
  ◌∷◌, map, length, arith, leb, le→leb, lt→leb, Bool-cases, if◌then◌else◌,
}
use native.Mathlib.Decide.{dec_le}
use quark_cache.Engine.{same_refl, same-ne}
use quark_cache.Engine.Lru.{LruCache, MapValue, back, pop_back, evict_lru, make_room, without}
use quark_cache.Engine.Recency.{Slot, node, value, held, remove, DistinctKeys}
use quark_cache.Engine.Refines.{Refines, gone-Refines}

-- The slot that was used longest ago, and the others.
abbrev pub last : List Slot → Option Slot
last [] = none
last (s ∷ []) = some s
last (s ∷ t ∷ ss) = last (t ∷ ss)

abbrev pub init : List Slot → List Slot
init [] = []
init (s ∷ []) = []
init (s ∷ t ∷ ss) = s ∷ init (t ∷ ss)

last-cons : (s : Slot) (ss : List Slot) → (r : Slot) × (last (s ∷ ss) ≡ some r)
last-cons s [] = (s, refl)
last-cons s (t ∷ ss) = last-cons t ss

module _ (r : Slot) where
  back-node : (ss : List Slot) → last ss ≡ some r → back (map node ss) ≡ some (node r)
  back-node [] h = cc
  back-node (s ∷ []) h = ground arith
  back-node (s ∷ t ∷ ss) h = back-node (t ∷ ss) h

  first-ne :
      (k l : String) (mv : MapValue) (ss : List Slot)
      → held k ss ≡ none
      → held l ss ≡ some mv
      → k ≢ l
  first-ne k l mv ss a b e = let c = rw e at a in cc

  pub held-last :
      (ss : List Slot) → last ss ≡ some r → DistinctKeys ss → held r.key ss ≡ some (value r)
  unfolding held
  held-last [] h d = cc
  held-last (s ∷ []) h d = let e : s ≡ r = ground arith in rw (← e, same_refl s.key) refl
  held-last (s ∷ t ∷ ss) h (first, d) =
      let later = held-last (t ∷ ss) h d in
      rw (same-ne s.key r.key (first-ne s.key r.key (value r) (t ∷ ss) first later)) later

  remove-last : (ss : List Slot) → last ss ≡ some r → DistinctKeys ss → remove r.key ss ≡ init ss
  unfolding remove
  remove-last [] h d = refl
  remove-last (s ∷ []) h d = let e : s ≡ r = ground arith in rw (← e, same_refl s.key) refl
  remove-last (s ∷ t ∷ ss) h (first, d) =
      let later = held-last (t ∷ ss) h d in
      rw (same-ne s.key r.key (first-ne s.key r.key (value r) (t ∷ ss) first later))
        (ap (◌∷◌ s) (remove-last (t ∷ ss) h d))

pop_back-node : (ss : List Slot) → pop_back (map node ss) ≡ map node (init ss)
pop_back-node [] = refl
pop_back-node (s ∷ []) = refl
pop_back-node (s ∷ t ∷ ss) = ap (◌∷◌ (node s)) (pop_back-node (t ∷ ss))

length-init : (s : Slot) (ss : List Slot) → suc (length (init (s ∷ ss))) ≡ length (s ∷ ss)
length-init s [] = refl
length-init s (t ∷ ss) = ap suc (length-init t ss)

evict_lru-Refines :
    (c : LruCache) (ss : List Slot) (r : Slot)
    → Refines c ss
    → last ss ≡ some r
    → (c' : LruCache) × (evict_lru c ≡ c')
      × Refines c' (init ss)
      × (c'.capacity ≡ c.capacity)
      × (c'.fresh ≡ c.fresh)
unfolding evict_lru
evict_lru-Refines c ss r refines h =
    let there = held-last r ss h refines.keys in
    let same_rest = remove-last r ss h refines.keys in
    let order = ap pop_back refines.nodes ∙ pop_back-node ss ∙ ap (map node) (sym same_rest) in
    let gone = gone-Refines r.key (value r) c ss (pop_back c.order) refines there order in
    (
      without r.key (value r) (pop_back c.order) c,
      rw (ap back refines.nodes ∙ back-node r ss h, refines.finds r.key ∙ there, evict_lru) refl,
      subst (λ rest. Refines (without r.key (value r) (pop_back c.order) c) rest) same_rest gone,
      refl,
      refl,
    )

-- What is left when there is room for one more entry.
abbrev pub roomy : ℕ → List Slot → List Slot
roomy capacity ss = if leb capacity (length ss) then init ss else ss

held-init : (key : String) (ss : List Slot) → held key ss ≡ none → held key (init ss) ≡ none
unfolding held
held-init key [] h = refl
held-init key (s ∷ []) h = refl
held-init key (s ∷ t ∷ ss) h = ground (arith, held-init key (t ∷ ss))

pub held-roomy :
    (key : String) (capacity : ℕ) (ss : List Slot)
    → held key ss ≡ none
    → held key (roomy capacity ss) ≡ none
held-roomy key capacity ss h = elim (Bool-cases (leb capacity (length ss))) [
  | inl e ↦ rw e (held-init key ss h)
  | inr e ↦ rw e h
]

abbrev pub HasRoom : LruCache → List Slot → LruCache → Type 0
HasRoom c ss c' =
    Refines c' (roomy c.capacity ss)
    × (length (roomy c.capacity ss) < c'.capacity)
    × (c'.capacity ≡ c.capacity)
    × (c'.fresh ≡ c.fresh)

make_room-one :
    (n : ℕ) (c c' : LruCache)
    → c.capacity ≤ length c.entries
    → evict_lru c ≡ c'
    → length c'.entries < c'.capacity
    → make_room (suc (suc n)) c ≡ some c'
unfolding make_room
make_room-one n c c' full e fits =
    rw (le→leb c.capacity (length c.entries) full, e, lt→leb c'.capacity (length c'.entries) fits)
      refl

make_room-none :
    (n : ℕ) (c : LruCache) → length c.entries < c.capacity → make_room (suc n) c ≡ some c
unfolding make_room
make_room-none n c few = rw (lt→leb c.capacity (length c.entries) few) refl

-- A full cache has a slot to give up.
make_room-full :
    (c : LruCache) (ss : List Slot)
    → Refines c ss
    → c.capacity ≤ length ss
    → (c' : LruCache) × (make_room (suc (length c.entries)) c ≡ some c')
      × Refines c' (init ss)
      × (length (init ss) < c'.capacity)
      × (c'.capacity ≡ c.capacity)
      × (c'.fresh ≡ c.fresh)
make_room-full c [] refines full = absurd (omega (arith, refines.room))
make_room-full c (s ∷ ss) refines full =
    let (r, h) = last-cons s ss in
    let (c', e, after, capacity, fresh) = evict_lru-Refines c (s ∷ ss) r refines h in
    let shorter = length-init s ss in
    let fits : length (init (s ∷ ss)) < c'.capacity = omega (arith, refines.fits) in
    (
      c',
      ap (λ n. make_room (suc n) c) refines.counts
          ∙ make_room-one (length ss) c c' (omega (arith, refines.counts)) e
              (omega (arith, after.counts)),
      after,
      fits,
      capacity,
      fresh,
    )

-- The loop ends, after one eviction at most.
pub make_room-HasRoom :
    (c : LruCache) (ss : List Slot)
    → Refines c ss
    → (c' : LruCache) × (make_room (suc (length c.entries)) c ≡ some c') × HasRoom c ss c'
make_room-HasRoom c ss refines = elim (dec_le c.capacity (length ss)) [
  | yes full ↦
      let (c', e, after, fits, capacity, fresh) = make_room-full c ss refines full in
      (c', e, rw (le→leb c.capacity (length ss) full) (after, fits, capacity, fresh))
  | no few ↦
      let fits : length ss < c.capacity = omega arith in
      (
        c,
        make_room-none (length c.entries) c (omega (arith, refines.counts)),
        rw (lt→leb c.capacity (length ss) fits) (refines, fits, refl, refl),
      )
]
