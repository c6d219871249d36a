-- ===== src/Common/Text/Words.antt =====
-- `trim` and `split(/\s+/)`: the parts of a trimmed line are words, and words joined by a space are
-- read back.
use Prim.Native.Char.{Char}
use Prim.Native.String.{String}
use text.Mathlib.TextEquality.{eq_iff}
use text.Mathlib.TextLemmas.{nil-append, cons-append, append-nil, append_assoc, cons-ne-nil}
use quark_cache.Common.{
  ◌≡◌, refl, sym, ap, ◌∙◌, ◌≢◌, inl, inr, Bool, All, true, false, Bool-cases, same,
}
use quark_cache.Common.Text.{
  is_space, ◌+++◌, snoc, trim_start, trim_end, trim, split_from, split_spaces,
}

abbrev pub NoSpace : String → Type 0
NoSpace String.[] = Unit
NoSpace (String.◌∷◌ c s) = (is_space c ≡ false) × NoSpace s

-- A text that is not empty and holds no white space.
abbrev pub IsWord : String → Type 0
IsWord s = NoSpace s × (s ≢ "")

abbrev pub StartsWell : String → Type 0
StartsWell String.[] = Unit
StartsWell (String.◌∷◌ c s) = is_space c ≡ false

abbrev pub EndsWell : String → Type 0
EndsWell String.[] = Unit
EndsWell (String.◌∷◌ c String.[]) = is_space c ≡ false
EndsWell (String.◌∷◌ c (String.◌∷◌ d s)) = EndsWell (String.◌∷◌ d s)

snoc-append : (cur : String) (c : Char) (s : String) → snoc cur c +++ s ≡ cur +++ String.◌∷◌ c s
snoc-append cur c s =
    append_assoc cur (String.◌∷◌ c "") s
    ∙ ap (λ t. cur +++ t) (cons-append c "" s ∙ ap (String.◌∷◌ c) (nil-append s))

snoc-ne-nil : (cur : String) (c : Char) → snoc cur c ≢ ""
snoc-ne-nil String.[] c e = cons-ne-nil c "" (sym (nil-append _) ∙ e)
snoc-ne-nil (String.◌∷◌ d cur) c e = cons-ne-nil d _ (sym (cons-append d cur _) ∙ e)

NoSpace-snoc : (cur : String) (c : Char) → NoSpace cur → is_space c ≡ false → NoSpace (snoc cur c)
NoSpace-snoc String.[] c h k = rw nil-append (k, tt)
NoSpace-snoc (String.◌∷◌ d cur) c h k = rw cons-append (h.0, NoSpace-snoc cur c h.1 k)

pub split_word :
    (cur w s : String) → NoSpace w → split_from false cur (w +++ s) ≡ split_from false (cur +++ w) s
unfolding split_from
split_word cur String.[] s h = rw (nil-append, append-nil)
split_word cur (String.◌∷◌ c w) s h = rw cons-append (
    rw (h.0, split_from)
      (split_word (snoc cur c) w s h.1 ∙ ap (λ t. split_from false t s) (snoc-append cur c w)))

pub split_gap : (s : String) → StartsWell s → s ≢ "" → split_from true "" s ≡ split_from false "" s
unfolding split_from
split_gap String.[] h k = absurd (k refl)
split_gap (String.◌∷◌ c s) h k = rw (h, split_from)

pub StartsWell-append : (w s : String) → IsWord w → StartsWell (w +++ s)
StartsWell-append String.[] s h = absurd (h.1 refl)
StartsWell-append (String.◌∷◌ c w) s h = rw cons-append h.0.0

pub append-ne-nil : (w s : String) → IsWord w → w +++ s ≢ ""
append-ne-nil String.[] s h e = absurd (h.1 refl)
append-ne-nil (String.◌∷◌ c w) s h e = cons-ne-nil c _ (sym (cons-append c w s) ∙ e)

pub EndsWell-word : (w : String) → NoSpace w → EndsWell w
EndsWell-word String.[] h = tt
EndsWell-word (String.◌∷◌ c String.[]) h = h.0
EndsWell-word (String.◌∷◌ c (String.◌∷◌ d s)) h = EndsWell-word (String.◌∷◌ d s) h.1

pub EndsWell-append : (w s : String) → EndsWell s → s ≢ "" → EndsWell (w +++ s)
EndsWell-append String.[] s h k = rw nil-append h
EndsWell-append (String.◌∷◌ c String.[]) String.[] h k = absurd (k refl)
EndsWell-append (String.◌∷◌ c String.[]) (String.◌∷◌ d s) h k = rw (cons-append, nil-append) h
EndsWell-append (String.◌∷◌ c (String.◌∷◌ d w)) s h k =
    rw (cons-append, cons-append) (rw cons-append at (EndsWell-append (String.◌∷◌ d w) s h k))

-- A line that is already trimmed.
pub trim_start_of_StartsWell : (s : String) → StartsWell s → trim_start s ≡ s
unfolding trim_start
trim_start_of_StartsWell String.[] h = refl
trim_start_of_StartsWell (String.◌∷◌ c s) h = rw (h, trim_start)

same-nil_of_ne : (s : String) → s ≢ "" → same s "" ≡ false
same-nil_of_ne s h = elim (Bool-cases (same s "")) [
  | inl e ↦ absurd (h ((eq_iff s "").0 e))
  | inr e ↦ e
]

pub trim_end_of_EndsWell : (s : String) → EndsWell s → trim_end s ≡ s
unfolding trim_end
trim_end_of_EndsWell String.[] h = refl
trim_end_of_EndsWell (String.◌∷◌ c String.[]) h = rw (h, trim_end)
trim_end_of_EndsWell (String.◌∷◌ c (String.◌∷◌ d s)) h =
    rw (trim_end_of_EndsWell (String.◌∷◌ d s) h, same-nil_of_ne (String.◌∷◌ d s) (cons-ne-nil d s))

-- What `trim` leaves begins and ends with no white space.
trim_start-StartsWell : (s : String) → StartsWell (trim_start s)
unfolding trim_start
trim_start-StartsWell String.[] = tt
trim_start-StartsWell (String.◌∷◌ c s) = elim (Bool-cases (is_space c)) [
  | inl e ↦ rw (e, trim_start) (trim_start-StartsWell s)
  | inr e ↦ rw (e, trim_start) e
]

trim_end-StartsWell : (s : String) → StartsWell s → StartsWell (trim_end s)
unfolding trim_end
trim_end-StartsWell String.[] h = tt
trim_end-StartsWell (String.◌∷◌ c s) h = elim (Bool-cases (same (trim_end s) "")) [
  | inl e ↦ rw (e, h) h
  | inr e ↦ rw e h
]

EndsWell-cons : (c : Char) (s : String) → EndsWell s → s ≢ "" → EndsWell (String.◌∷◌ c s)
EndsWell-cons c String.[] h k = absurd (k refl)
EndsWell-cons c (String.◌∷◌ d s) h k = h

trim_end-EndsWell : (s : String) → EndsWell (trim_end s)
unfolding trim_end
trim_end-EndsWell String.[] = tt
trim_end-EndsWell (String.◌∷◌ c s) =
    let ih = trim_end-EndsWell s in
    elim (Bool-cases (same (trim_end s) "")) [
      | inl e ↦ elim (Bool-cases (is_space c)) [
        | inl space ↦ rw (e, space) tt
        | inr other ↦ rw (e, other) (rw ((eq_iff (trim_end s) "").0 e) other)
      ]
      | inr e ↦ rw e (EndsWell-cons c (trim_end s) ih (λ p. cc (e, (eq_iff (trim_end s) "").1 p)))
    ]

-- The open part is empty in a gap, and what follows is not; elsewhere it is a word.
abbrev IsOpen : Bool → String → String → Type 0
IsOpen true cur s = (cur ≡ "") × (s ≢ "")
IsOpen false cur s = IsWord cur

tail-ne-nil : (c : Char) (s : String) → EndsWell (String.◌∷◌ c s) → is_space c ≡ true → s ≢ ""
tail-ne-nil c String.[] h k e = cc
tail-ne-nil c (String.◌∷◌ d s) h k e = cons-ne-nil d s e

EndsWell-tail : (c : Char) (s : String) → EndsWell (String.◌∷◌ c s) → EndsWell s
EndsWell-tail c String.[] h = tt
EndsWell-tail c (String.◌∷◌ d s) h = h

NoSpace-nil : (cur : String) → cur ≡ "" → NoSpace cur
NoSpace-nil cur h = rw h tt

split_from-IsWord :
    (gap : Bool) (cur s : String)
    → IsOpen gap cur s
    → EndsWell s
    → All IsWord (split_from gap cur s)
unfolding split_from
split_from-IsWord true cur String.[] h k = absurd (h.1 refl)
split_from-IsWord false cur String.[] h k = (h, tt)
split_from-IsWord true cur (String.◌∷◌ c s) h k =
    let ends = EndsWell-tail c s k in
    let in_gap : is_space c ≡ true → All IsWord (split_from true cur s) =
      λ e. split_from-IsWord true cur s (h.0, tail-ne-nil c s k e) ends in
    let in_word : is_space c ≡ false → All IsWord (split_from false (snoc cur c) s) = λ e.
      split_from-IsWord false (snoc cur c) s
        (NoSpace-snoc cur c (NoSpace-nil cur h.0) e, snoc-ne-nil cur c) ends in
    elim (Bool-cases (is_space c)) [
      | inl e ↦ rw (e, split_from) (in_gap e)
      | inr e ↦ rw (e, split_from) (in_word e)
    ]
split_from-IsWord false cur (String.◌∷◌ c s) h k =
    let ends = EndsWell-tail c s k in
    let in_gap : is_space c ≡ true → All IsWord (split_from true "" s) =
      λ e. split_from-IsWord true "" s (refl, tail-ne-nil c s k e) ends in
    let in_word : is_space c ≡ false → All IsWord (split_from false (snoc cur c) s) = λ e.
      split_from-IsWord false (snoc cur c) s (NoSpace-snoc cur c h.0 e, snoc-ne-nil cur c) ends in
    elim (Bool-cases (is_space c)) [
      | inl e ↦ rw (e, split_from) (h, in_gap e)
      | inr e ↦ rw (e, split_from) (in_word e)
    ]

-- The parts of a trimmed line that is not empty are words.
pub split_spaces-IsWord : (s : String) → trim s ≢ "" → All IsWord (split_spaces (trim s))
unfolding split_spaces trim
split_spaces-IsWord s h =
    let line = trim_end (trim_start s) in
    rw (← split_gap line (trim_end-StartsWell _ (trim_start-StartsWell s)) h)
      (split_from-IsWord true "" line (refl, h) (trim_end-EndsWell (trim_start s)))
