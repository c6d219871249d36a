-- ===== src/Engine/Answers.antt =====
-- cpp_core/src/lru_cache.cpp as a caller sees it: reads after `set` and `del`.
use Prim.Native.String.{String}
use quark_cache.Common.{
  ℕ, ◌+◌, ◌*◌, ◌%◌, ◌≤◌, ◌<◌, leb, lt→ltb, Bool, ◌≡◌, ◌≢◌, refl, sym, ap, subst, ◌∙◌, false, Option,
  none, some, List, [], ◌∷◌, map, length, length-map, same, if◌then◌else◌, arith, lt→leb, le→leb,
  Option-cases, inl, inr, ◌⊎◌,
}
use native.Mathlib.Decide.{dec_le}
use quark_cache.Engine.{key_cases, same_refl, same-ne}
use quark_cache.Engine.Recency.{Slot, node, held, remove, held-remove_same}
use quark_cache.Engine.Lru.{
  LruCache, Seconds, plus, minus, CacheEntry, back, find, is_expired, set, get, del, new_entry,
}
use quark_cache.Engine.Promise.{
  Recency, entry_of, without_key, drop_oldest, put, looked_up, Shows, pair, without_key-pair,
  entry_of-pair-none, entry_of-pair,
}
use quark_cache.Engine.Keeps.{set-Shows, get-Shows, del-Shows}

module _ (key : String) where
  entry_of-cons_same : (e : CacheEntry) (rs : Recency) → entry_of key ((key, e) ∷ rs) ≡ some e
  unfolding entry_of
  entry_of-cons_same e rs = rw (same_refl key) refl

  entry_of-cons_other :
      (k : String) (e : CacheEntry) (rs : Recency)
      → k ≢ key
      → entry_of key ((k, e) ∷ rs) ≡ entry_of key rs
  unfolding entry_of
  entry_of-cons_other k e rs h = rw (same-ne k key h) refl

  entry_of-without_key_other :
      (k : String) (rs : Recency) → k ≢ key → entry_of key (without_key k rs) ≡ entry_of key rs
  unfolding entry_of without_key
  entry_of-without_key_other k [] h = refl
  entry_of-without_key_other k ((l, e) ∷ rs) h = elim (key_cases l k) [
    | inl (i, t) ↦
        let apart : same l key ≡ false = same-ne l key (λ j. h (sym i ∙ j)) in rw (t, apart)
    | inr (i, t) ↦ ground (arith, entry_of-without_key_other k rs h)
  ]

  looked_up_of :
      (now : ℕ) (rs ts : Recency)
      → entry_of key rs ≡ entry_of key ts
      → looked_up now key rs ≡ looked_up now key ts
  looked_up_of now rs ts e =
      ap (λ o. elim o [ none ↦ none | some x ↦ if is_expired now x then none else some x.value ]) e

-- The key of the entry that was used longest ago.
abbrev oldest_key : Recency → Option String
oldest_key [] = none
oldest_key ((k, e) ∷ []) = some k
oldest_key (r ∷ s ∷ rs) = oldest_key (s ∷ rs)

-- Dropping the oldest entry costs its key only.
entry_of-drop_oldest :
    (key : String) (rs : Recency)
    → (entry_of key (drop_oldest rs) ≡ entry_of key rs) ⊎ (oldest_key rs ≡ some key)
unfolding entry_of
entry_of-drop_oldest key [] = inl refl
entry_of-drop_oldest key ((k, e) ∷ []) = elim (key_cases k key) [
  | inl (i, t) ↦ inr (ap some i)
  | inr (i, t) ↦ inl (rw t refl)
]
entry_of-drop_oldest key ((k, e) ∷ s ∷ rs) = elim (entry_of-drop_oldest key (s ∷ rs)) [
  | inl h ↦ inl (elim (key_cases k key) [ inl (i, t) ↦ rw t refl | inr (i, t) ↦ rw t h ])
  | inr h ↦ inr h
]

back-oldest_key :
    (ss : List Slot) (key : String)
    → oldest_key (map pair ss) ≡ some key
    → (i : ℕ) × (back (map node ss) ≡ some (record { id = i; key = key }))
back-oldest_key [] key h = cc
back-oldest_key (s ∷ []) key h = (s.id, let e : s.key ≡ key = cc in rw e refl)
back-oldest_key (s ∷ t ∷ ss) key h = back-oldest_key (t ∷ ss) key h

-- The other key is at the back of the list, the cache is full, and the key is new.
abbrev pub IsEvicted : LruCache → String → String → Type 0
IsEvicted c key other =
    (find key c.entries ≡ none)
    × (length c.entries ≡ c.capacity)
    × ((i : ℕ) × (back c.order ≡ some (record { id = i; key = other })))

-- Whether a TTL that was given at `now` has passed at `later`, in nanoseconds.
abbrev pub has_passed : ℕ → ℕ → Option Seconds → Bool
has_passed now later none = false
has_passed now later (some (plus n)) = leb (now + n * 1000000000) later
has_passed now later (some (minus n)) = leb now (later + n * 1000000000)

-- The clock's reading, the TTL and the time that it gives are within 64 bits.
abbrev pub IsInTime : ℕ → Option Seconds → Type 0
IsInTime now none = Unit
IsInTime now (some (plus n)) = now + n * 1000000000 < 9223372036854775808
IsInTime now (some (minus n)) = (now < 9223372036854775808) × (n * 1000000000 ≤ 9223372036854775808)

is_expired-has_passed :
    (now later : ℕ) (value : String) (ttl : Option Seconds)
    → IsInTime now ttl
    → is_expired later (new_entry now value ttl) ≡ has_passed now later ttl
unfolding is_expired
is_expired-has_passed now later value none h = refl
is_expired-has_passed now later value (some (plus n)) h =
    let same_time : (now + n * 1000000000) % 18446744073709551616 ≡ now + n * 1000000000 =
      omega arith in
    rw (same_time, lt→ltb _ 9223372036854775808 h) refl
is_expired-has_passed now later value (some (minus n)) (h, k) = ground arith

module _ (c : LruCache) (rs : Recency) (shows : Shows c rs) where
  -- If the times are within 64 bits: a value that was set is read back while fewer nanoseconds have passed
  -- than its TTL has, and from then on it is not; one without a TTL always is.
  pub get-set :
      (now later : ℕ) (key value : String) (ttl : Option Seconds)
      → IsInTime now ttl
      → (c' : LruCache) × (set now key value ttl c ≡ some c')
        × ((get later key c').0 ≡ (if has_passed now later ttl then none else some value))
  get-set now later key value ttl in_time =
      let (c', e, shown, capacity) = set-Shows now key value ttl c rs shows in
      (
        c',
        e,
        (get-Shows later key c' _ shown).0
            ∙ rw (entry_of-cons_same key (new_entry now value ttl) _, looked_up)
                (ap (λ b. if b then none else some value)
                  (is_expired-has_passed now later value ttl in_time)),
      )

  -- A key that was deleted is not found.
  pub get-del : (later : ℕ) (key : String) → (get later key (del key c).1).0 ≡ none
  get-del later key =
      let (ss, r, shown) = shows in
      let absent : entry_of key (without_key key rs) ≡ none =
        subst (λ l. entry_of key (without_key key l) ≡ none) shown
          (ap (entry_of key) (without_key-pair key ss)
            ∙ entry_of-pair-none key (remove key ss) (held-remove_same key ss r.keys)) in
      (get-Shows later key (del key c).1 _ (del-Shows key c rs shows).1).0
      ∙ rw (absent, looked_up) refl

  absent-find : (key : String) → entry_of key rs ≡ none → find key c.entries ≡ none
  absent-find key h =
      let (ss, r, shown) = shows in
      elim (Option-cases (held key ss)) [
        | inl k ↦ r.finds key ∙ k
        | inr (mv, k) ↦
            let there : entry_of key rs ≡ some mv.entry =
              subst (λ l. entry_of key l ≡ some mv.entry) shown (entry_of-pair key mv ss k) in
            cc
      ]

  full-IsEvicted :
      (key other : String)
      → entry_of key rs ≡ none
      → c.capacity ≤ length rs
      → oldest_key rs ≡ some other
      → IsEvicted c key other
  full-IsEvicted key other absent full oldest =
      let (ss, r, shown) = shows in
      let many : c.capacity ≤ length (map pair ss) =
        subst (λ l. c.capacity ≤ length l) (sym shown) full in
      let (i, e) =
        back-oldest_key ss other (subst (λ l. oldest_key l ≡ some other) (sym shown) oldest) in
      (
        absent-find key absent,
        omega (arith, r.counts, r.fits, length-map pair ss),
        (i, ap back r.nodes ∙ e),
      )

  put-other :
      (key other : String) (e : CacheEntry)
      → key ≢ other
      → (entry_of other (put c.capacity key e rs) ≡ entry_of other rs) ⊎ IsEvicted c key other
  put-other key other e apart = elim (Option-cases (entry_of key rs)) [
    | inr (old, h) ↦ inl (
        rw (h, put)
          (entry_of-cons_other other key e _ apart ∙ entry_of-without_key_other other key rs apart))
    | inl h ↦ elim (dec_le c.capacity (length rs)) [
      | no few ↦ inl (
          rw (h, put, lt→leb c.capacity (length rs) (omega arith))
            (entry_of-cons_other other key e rs apart))
      | yes full ↦ elim (entry_of-drop_oldest other rs) [
        | inl k ↦ inl (
            rw (h, put, le→leb c.capacity (length rs) full)
              (entry_of-cons_other other key e _ apart ∙ k))
        | inr k ↦ inr (full-IsEvicted key other h full k)
      ]
    ]
  ]

  -- A set costs no other key its value, but for the one at the back of the list of a full cache, and
  -- only if the key is new.
  pub get-set_other :
      (now later : ℕ) (key other value : String) (ttl : Option Seconds)
      → key ≢ other
      → (c' : LruCache) × (set now key value ttl c ≡ some c')
        × (((get later other c').0 ≡ (get later other c).0) ⊎ IsEvicted c key other)
  get-set_other now later key other value ttl apart =
      let (c', e, shown, capacity) = set-Shows now key value ttl c rs shows in
      let before = (get-Shows later other c rs shows).0 in
      let now_read = (get-Shows later other c' _ shown).0 in
      (
        c',
        e,
        elim (put-other key other (new_entry now value ttl) apart) [
          | inl h ↦ inl (now_read ∙ looked_up_of other later _ rs h ∙ sym before)
          | inr h ↦ inr h
        ],
      )
