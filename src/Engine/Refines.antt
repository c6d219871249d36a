-- ===== src/Engine/Refines.antt =====
-- The cache of cpp_core/src/lru_cache.cpp against the list of its entries in the order of use.
pub mod Last
use Prim.Native.String.{String}
use quark_cache.Common.{
  ℕ, suc, zero, ◌+◌, ◌-◌, ◌%◌, ◌≤◌, ◌<◌, ◌≡◌, ◌≢◌, refl, sym, ap, subst, ◌∙◌, inl, inr, ◌⊎◌, Bool,
  true, false, Option, none, some, List, [], ◌∷◌, map, length, All, arith, same, leb, if◌then◌else◌,
}
use quark_cache.Engine.{
  word, add_word, sub_word, size, add_word-mod, sub_word-mod, key_cases, same_refl, same-ne,
}
use quark_cache.Engine.Lru.{
  CacheEntry, OrderNode, MapValue, LruCache, find, update, erase, unlink, node_at, append_nodes,
  entry_bytes, touch, overwrite, push_front, discard, without, empty,
}
use quark_cache.Engine.Lru.Map.{
  UniqueKeys, find-erase_same, find-erase_other, find-update_same, find-update_other, length-erase,
  length-update, UniqueKeys-erase, UniqueKeys-update,
}
use quark_cache.Engine.Recency.{
  Slot, node, value, held, remove, total, DistinctKeys, NoId, DistinctIds, held-remove_same,
  held-remove_other, DistinctKeys-remove, All-remove, DistinctIds-remove, length-remove,
  total-remove, NoId-remove, held-below, unlink-node, node_at-node,
}

-- The list of nodes and the map agree on the slots, the bytes are counted exactly (on words), and the
-- capacity, which is not zero, is kept.
pub record Refines (c : LruCache) (ss : List Slot) : Type 0 where
  pub nodes : c.order ≡ map node ss
  pub finds : (key : String) → find key c.entries ≡ held key ss
  pub counts : length c.entries ≡ length ss
  pub unique : UniqueKeys c.entries
  pub keys : DistinctKeys ss
  pub ids : DistinctIds ss
  pub below : All (λ s. s.id < c.fresh) ss
  pub bytes : c.bytes_used ≡ total ss % word
  pub fits : length ss ≤ c.capacity
  pub room : 1 ≤ c.capacity

pub empty-Refines : (capacity : ℕ) → 1 ≤ capacity → Refines (empty capacity) []
unfolding find held total
empty-Refines capacity h = record {
  nodes = refl;
  finds = λ key. refl;
  counts = refl;
  unique = tt;
  keys = tt;
  ids = tt;
  below = tt;
  bytes = refl;
  fits = omega arith;
  room = h;
}

added_bytes : (b t s : ℕ) → b ≡ t % word → add_word b s ≡ (s + t) % word
added_bytes b t s h = omega arith

module _ (key : String) (mv : MapValue) where
  bytes_left :
      (c : LruCache) (ss : List Slot)
      → Refines c ss
      → held key ss ≡ some mv
      → sub_word c.bytes_used (entry_bytes key mv.entry) ≡ total (remove key ss) % word
  bytes_left c ss r h =
      let sum = total-remove key mv ss h in
      let left : total ss - entry_bytes key mv.entry ≡ total (remove key ss) = omega (arith, sum) in
      ap (λ b. sub_word b (entry_bytes key mv.entry)) r.bytes
      ∙ sub_word-mod (total ss) (entry_bytes key mv.entry) (omega (arith, sum))
      ∙ ap (λ t. t % word) left

  -- An entry that goes, with its node.
  pub gone-Refines :
      (c : LruCache) (ss : List Slot) (order : List OrderNode)
      → Refines c ss
      → held key ss ≡ some mv
      → order ≡ map node (remove key ss)
      → Refines (without key mv order c) (remove key ss)
  gone-Refines c ss order r h e =
      let there : find key c.entries ≡ some mv = r.finds key ∙ h in
      let shorter = length-remove key mv ss h in
      record {
        nodes = e;
        finds = λ other. elim (key_cases key other) [
          | inl (i, t) ↦
              subst (λ k. find k (erase key c.entries) ≡ held k (remove key ss)) i
                (find-erase_same key c.entries r.unique ∙ sym (held-remove_same key ss r.keys))
          | inr (i, t) ↦
              find-erase_other key other c.entries i
              ∙ r.finds other
              ∙ sym (held-remove_other key other ss i)
        ];
        counts = omega (arith, length-erase key mv c.entries there, shorter, r.counts);
        unique = UniqueKeys-erase key c.entries r.unique;
        keys = DistinctKeys-remove key ss r.keys;
        ids = DistinctIds-remove key ss r.ids;
        below = All-remove key (λ s. s.id < c.fresh) ss r.below;
        bytes = bytes_left c ss r h;
        fits = omega (arith, shorter, r.fits);
        room = r.room;
      }

  pub discard-Refines :
      (c : LruCache) (ss : List Slot)
      → Refines c ss
      → held key ss ≡ some mv
      → Refines (discard key mv c) (remove key ss)
  discard-Refines c ss r h =
      gone-Refines c ss (unlink mv.order_it c.order) r h
        (ap (unlink mv.order_it) r.nodes ∙ unlink-node key mv ss h r.ids)

  -- An entry that is used or written moves to the front, with its node.
  front-Refines :
      (e : CacheEntry) (m : List (String × MapValue)) (b : ℕ) (c : LruCache) (ss : List Slot)
      → let front : Slot = record { id = mv.order_it; key = key; entry = e } in
        Refines c ss
        → held key ss ≡ some mv
        → ((other : String) → find other m ≡ held other (front ∷ remove key ss))
        → length m ≡ length c.entries
        → UniqueKeys m
        → b ≡ total (front ∷ remove key ss) % word
        → Refines
            (touch mv.order_it (record c { bytes_used = b; entries = m }))
            (front ∷ remove key ss)
  unfolding touch
  front-Refines e m b c ss r h finds counts unique bytes =
      let shorter = length-remove key mv ss h in
      record {
        nodes =
            ap (λ o. append_nodes (node_at mv.order_it o) (unlink mv.order_it o)) r.nodes
            ∙ rw (node_at-node key mv ss h r.ids, unlink-node key mv ss h r.ids) refl;
        finds = finds;
        counts = omega (arith, counts, shorter, r.counts);
        unique = unique;
        keys = (held-remove_same key ss r.keys, DistinctKeys-remove key ss r.keys);
        ids = (NoId-remove key mv ss h r.ids, DistinctIds-remove key ss r.ids);
        below = (
          held-below key mv c.fresh ss h r.below,
          All-remove key (λ s. s.id < c.fresh) ss r.below,
        );
        bytes = bytes;
        fits = omega (arith, shorter, r.fits);
        room = r.room;
      }

  pub touch-Refines :
      (c : LruCache) (ss : List Slot)
      → Refines c ss
      → held key ss ≡ some mv
      → Refines
          (touch mv.order_it c)
          ((record { id = mv.order_it; key = key; entry = mv.entry }) ∷ remove key ss)
  unfolding held total
  touch-Refines c ss r h =
      front-Refines mv.entry c.entries c.bytes_used c ss r h
        (λ other. elim (key_cases key other) [
          | inl (i, t) ↦ rw t (subst (λ k. find k c.entries ≡ some mv) i (r.finds key ∙ h))
          | inr (i, t) ↦ rw t (r.finds other ∙ sym (held-remove_other key other ss i))
        ])
        refl r.unique (r.bytes ∙ ap (λ t. t % word) (sym (total-remove key mv ss h)))

  pub overwrite-Refines :
      (e : CacheEntry) (c : LruCache) (ss : List Slot)
      → Refines c ss
      → held key ss ≡ some mv
      → Refines
          (touch mv.order_it (overwrite key mv e c))
          ((record { id = mv.order_it; key = key; entry = e }) ∷ remove key ss)
  unfolding held total
  overwrite-Refines e c ss r h =
      let there : find key c.entries ≡ some mv = r.finds key ∙ h in
      let v : MapValue = record mv { entry = e } in
      front-Refines e (update key v c.entries) _ c ss r h
        (λ other. elim (key_cases key other) [
          | inl (i, t) ↦ rw t (
              subst (λ k. find k (update key v c.entries) ≡ some v) i
                (find-update_same key v mv c.entries there))
          | inr (i, t) ↦ rw t (
              find-update_other key other v c.entries i
              ∙ r.finds other
              ∙ sym (held-remove_other key other ss i))
        ])
        (length-update key v c.entries) (UniqueKeys-update key v c.entries r.unique)
        (added_bytes _ _ (entry_bytes key e) (bytes_left c ss r h))

NoId-below : (n : ℕ) (ss : List Slot) → All (λ s. s.id < n) ss → NoId n ss
NoId-below n [] h = tt
NoId-below n (s ∷ ss) (p, h) = (λ e. omega arith, NoId-below n ss h)

All-below : (n : ℕ) (ss : List Slot) → All (λ s. s.id < n) ss → All (λ s. s.id < suc n) ss
All-below n [] h = tt
All-below n (s ∷ ss) (p, h) = (omega arith, All-below n ss h)

-- A new entry, in front of a cache that has room for it.
pub push_front-Refines :
    (key : String) (e : CacheEntry) (c : LruCache) (ss : List Slot)
    → Refines c ss
    → held key ss ≡ none
    → length ss < c.capacity
    → Refines (push_front key e c) ((record { id = c.fresh; key = key; entry = e }) ∷ ss)
unfolding find held total
push_front-Refines key e c ss r h k = record {
  nodes = ap (◌∷◌ (record { id = c.fresh; key = key })) r.nodes;
  finds = λ other. elim (key_cases key other) [
    | inl (i, t) ↦ rw t refl
    | inr (i, t) ↦ rw t (r.finds other)
  ];
  counts = ap suc r.counts;
  unique = (r.finds key ∙ h, r.unique);
  keys = (h, r.keys);
  ids = (NoId-below c.fresh ss r.below, r.ids);
  below = (omega arith, All-below c.fresh ss r.below);
  bytes = added_bytes c.bytes_used (total ss) (entry_bytes key e) r.bytes;
  fits = omega arith;
  room = r.room;
}
