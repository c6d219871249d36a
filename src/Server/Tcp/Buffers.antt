-- ===== src/Server/Tcp/Buffers.antt =====
-- cpp_core/src/server.cpp: the map of the read buffers.
use Prim.Native.Char.{Char, code}
use Prim.Native.String.{String}
use quark_cache.Common.{
  ℕ, suc, ◌≡◌, refl, false, none, some, List, [], ◌∷◌, ◌==◌, All, arith, length, Bool-cases, inl,
  inr,
}
use quark_cache.Server.Chunks.{prepend, split_lines}
use quark_cache.Server.Tcp.{find_buffer, put_buffer, erase_buffer}

-- The buffer that a read leaves holds no line feed.
abbrev pub NoLine : String → Type 0
NoLine String.[] = Unit
NoLine (String.◌∷◌ c s) = ((code c == 10) ≡ false) × NoLine s

prepend-NoLine :
    (c : Char) (ls : List String) (r : String)
    → (code c == 10) ≡ false
    → NoLine r
    → NoLine (prepend c ls r).1
prepend-NoLine c [] r e h = (e, h)
prepend-NoLine c (l ∷ ls) r e h = h

pub split_lines-NoLine : (s : String) → NoLine (split_lines s).1
unfolding split_lines
split_lines-NoLine String.[] = tt
split_lines-NoLine (String.◌∷◌ c s) = elim (Bool-cases (code c == 10)) [
  | inl e ↦ rw e (split_lines-NoLine s)
  | inr e ↦ rw e (prepend-NoLine c (split_lines s).0 (split_lines s).1 e (split_lines-NoLine s))
]

-- How often a descriptor stands in the map, and that none stands there twice.
abbrev pub UniqueFds : List (ℕ × String) → Type 0
UniqueFds [] = Unit
UniqueFds ((k, buf) ∷ m) = (find_buffer k m ≡ none) × UniqueFds m

pub length-put_new :
    (fd : ℕ) (buf : String) (m : List (ℕ × String))
    → find_buffer fd m ≡ none
    → length (put_buffer fd buf m) ≡ suc (length m)
unfolding put_buffer find_buffer
length-put_new fd buf [] h = refl
length-put_new fd buf ((k, old) ∷ m) h = ground (arith, length-put_new fd buf m)

pub length-put_old :
    (fd : ℕ) (buf old : String) (m : List (ℕ × String))
    → find_buffer fd m ≡ some old
    → length (put_buffer fd buf m) ≡ length m
unfolding put_buffer find_buffer
length-put_old fd buf old [] h = cc
length-put_old fd buf old ((k, b) ∷ m) h = ground (arith, length-put_old fd buf old m)

pub length-erase :
    (fd : ℕ) (old : String) (m : List (ℕ × String))
    → find_buffer fd m ≡ some old
    → suc (length (erase_buffer fd m)) ≡ length m
unfolding erase_buffer find_buffer
length-erase fd old [] h = cc
length-erase fd old ((k, b) ∷ m) h = ground (arith, length-erase fd old m)

find-put_other :
    (k fd : ℕ) (buf : String) (m : List (ℕ × String))
    → (k == fd) ≡ false
    → find_buffer k m ≡ none
    → find_buffer k (put_buffer fd buf m) ≡ none
unfolding put_buffer find_buffer
find-put_other k fd buf [] e h = ground arith
find-put_other k fd buf ((j, old) ∷ m) e h = ground (arith, find-put_other k fd buf m)

pub put-UniqueFds :
    (fd : ℕ) (buf : String) (m : List (ℕ × String)) → UniqueFds m → UniqueFds (put_buffer fd buf m)
unfolding put_buffer find_buffer
put-UniqueFds fd buf [] h = (refl, tt)
put-UniqueFds fd buf ((k, old) ∷ m) (x, h) = elim (Bool-cases (k == fd)) [
  | inl e ↦ rw e (x, h)
  | inr e ↦ rw e (find-put_other k fd buf m e x, put-UniqueFds fd buf m h)
]

find-erase :
    (k fd : ℕ) (m : List (ℕ × String))
    → find_buffer k m ≡ none
    → find_buffer k (erase_buffer fd m) ≡ none
unfolding erase_buffer find_buffer
find-erase k fd [] h = refl
find-erase k fd ((j, old) ∷ m) h = ground (arith, find-erase k fd m)

pub erase-UniqueFds : (fd : ℕ) (m : List (ℕ × String)) → UniqueFds m → UniqueFds (erase_buffer fd m)
unfolding erase_buffer
erase-UniqueFds fd [] h = tt
erase-UniqueFds fd ((k, old) ∷ m) (x, h) = elim (Bool-cases (k == fd)) [
  | inl e ↦ rw e h
  | inr e ↦ rw e (find-erase k fd m x, erase-UniqueFds fd m h)
]

pub put-NoLine :
    (fd : ℕ) (buf : String) (m : List (ℕ × String))
    → NoLine buf
    → All (λ p. NoLine p.1) m
    → All (λ p. NoLine p.1) (put_buffer fd buf m)
unfolding put_buffer
put-NoLine fd buf [] h k = (h, tt)
put-NoLine fd buf ((j, old) ∷ m) h (x, k) = elim (Bool-cases (j == fd)) [
  | inl e ↦ rw e (h, k)
  | inr e ↦ rw e (x, put-NoLine fd buf m h k)
]

pub erase-NoLine :
    (fd : ℕ) (m : List (ℕ × String))
    → All (λ p. NoLine p.1) m
    → All (λ p. NoLine p.1) (erase_buffer fd m)
unfolding erase_buffer
erase-NoLine fd [] k = tt
erase-NoLine fd ((j, old) ∷ m) (x, k) = elim (Bool-cases (j == fd)) [
  | inl e ↦ rw e k
  | inr e ↦ rw e (x, erase-NoLine fd m k)
]
