-- ===== src/Engine.antt =====
-- cpp_core: the cache engine, from the LRU cache to the store with its counters. A `std::string` is a
-- text of its bytes, the characters 0 to 255; a `size_t` or a `uint64_t` wraps around at 2^64.
pub mod Lru
pub mod Recency
pub mod Refines
pub mod Promise
pub mod Keeps
pub mod Expiry
pub mod Runs
pub mod Store
pub mod Counters
pub mod Answers
pub mod Listing
use Prim.Native.String.{String}
use Prim.Native.Char.{Char}
use text.Mathlib.TextEquality.{eq_iff}
use quark_cache.Common.{
  ℕ, suc, ◌+◌, ◌-◌, ◌%◌, ◌≤◌, ◌≡◌, ◌≢◌, ◌⊎◌, inl, inr, true, false, arith, same, Bool-cases, refl,
}

abbrev pub word : ℕ
word = 18446744073709551616

abbrev pub add_word : ℕ → ℕ → ℕ
add_word a b = (a + b) % word

-- `a - b` on words, for `b` a word.
abbrev pub sub_word : ℕ → ℕ → ℕ
sub_word a b = (a + (word - b % word)) % word

-- `s.size()`.
unfoldable pub size : String → ℕ
size String.[] = 0
size (String.◌∷◌ c s) = suc (size s)

pub add_word-mod : (t s : ℕ) → add_word (t % word) s ≡ (t + s) % word
add_word-mod t s = omega arith

pub sub_word-mod : (t s : ℕ) → s ≤ t → sub_word (t % word) s ≡ (t - s) % word
sub_word-mod t s h = omega arith

pub key_cases : (k l : String) → ((k ≡ l) × (same k l ≡ true)) ⊎ ((k ≢ l) × (same k l ≡ false))
key_cases k l = elim (Bool-cases (same k l)) [
  | inl e ↦ inl ((eq_iff k l).0 e, e)
  | inr e ↦ inr (λ h. let t = (eq_iff k l).1 h in cc, e)
]

pub same_refl : (k : String) → same k k ≡ true
same_refl k = (eq_iff k k).1 refl

pub same-ne : (k l : String) → k ≢ l → same k l ≡ false
same-ne k l h = elim (key_cases k l) [ inl (e, t) ↦ absurd (h e) | inr (e, t) ↦ t ]
