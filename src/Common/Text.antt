-- ===== src/Common/Text.antt =====
-- Texts as a script reads them: white space, `trim`, `split(/\s+/)`, `join`, and decimals.
pub mod Words
pub mod Lines
pub mod Decimal
pub mod Ascii
pub mod Prefix
use Prim.Native.Char.{Char, code}
use Prim.Native.String
use Prim.Native.String.{String, [], ◌∷◌}
use mathlib.Core.WellFounded.{Acc, WellFounded}
use mathlib.Core.Logic.{dite}
use native.Mathlib.Decide.{dec_lt}
use quark_cache.Common.{
  ℕ, zero, suc, ◌/◌, ◌%◌, ◌<◌, Bool, true, false, ◌&&◌, ◌||◌, List, arith, leb, ◌==◌, same,
  if◌then◌else◌,
}

-- White space and line terminators, which `trim` strips and `\s` matches.
unfoldable pub is_space : Char → Bool
is_space c =
    let n = code c in
    (leb 9 n && leb n 13)
    || n == 32
    || n == 160
    || n == 0x1680
    || (leb 0x2000 n && leb n 0x200a)
    || n == 0x2028
    || n == 0x2029
    || n == 0x202f
    || n == 0x205f
    || n == 0x3000
    || n == 0xfeff

infixr 60 ◌+++◌
abbrev pub ◌+++◌ : String → String → String
s +++ t = String.◌++◌ s t

abbrev pub snoc : String → Char → String
snoc s c = s +++ (c ∷ [])

unfoldable pub trim_start : String → String
trim_start [] = []
trim_start (c ∷ s) = if is_space c then trim_start s else c ∷ s

unfoldable pub trim_end : String → String
trim_end [] = []
trim_end (c ∷ s) = let r = trim_end s in if same r "" && is_space c then "" else c ∷ r

-- `s.trim()`.
unfoldable pub trim : String → String
unfolding trim_start trim_end is_space
trim s = trim_end (trim_start s)

-- `s.split(/\s+/)`: `gap` says that the last character was white space, `cur` is the open part.
unfoldable pub split_from : Bool → String → String → List String
split_from gap cur [] = List.◌∷◌ cur List.[]
split_from gap cur (c ∷ s) = elim (is_space c) [
  | true ↦ elim gap [ true ↦ split_from true cur s | false ↦ List.◌∷◌ cur (split_from true "" s) ]
  | false ↦ split_from false (snoc cur c) s
]

unfoldable pub split_spaces : String → List String
unfolding split_from is_space
split_spaces s = split_from false "" s

-- `parts.join(sep)`.
unfoldable pub join : String → List String → String
join sep List.[] = ""
join sep (List.◌∷◌ s List.[]) = s
join sep (List.◌∷◌ s (List.◌∷◌ t ts)) = s +++ sep +++ join sep (List.◌∷◌ t ts)

abbrev pub digit : ℕ → String
digit zero = "0"
digit (suc zero) = "1"
digit (suc (suc zero)) = "2"
digit (suc (suc (suc zero))) = "3"
digit (suc (suc (suc (suc zero)))) = "4"
digit (suc (suc (suc (suc (suc zero))))) = "5"
digit (suc (suc (suc (suc (suc (suc zero)))))) = "6"
digit (suc (suc (suc (suc (suc (suc (suc zero))))))) = "7"
digit (suc (suc (suc (suc (suc (suc (suc (suc zero)))))))) = "8"
digit _ = "9"

Acc-below : (k n : ℕ) → n < k → Acc ◌<◌ n
Acc-below zero n h = elim h [ ]
Acc-below (suc k) n h = Acc.intro n (λ m hm. Acc-below k m (omega arith))

lt_wf : WellFounded ◌<◌
unfolding Acc-below
lt_wf = record { apply = λ n. Acc-below (suc n) n (omega arith) }

pub tenth_lt : (n : ℕ) → 9 < n → n / 10 < n
tenth_lt n h = omega arith

show_acc : (n : ℕ) → Acc ◌<◌ n → String
show_acc n (Acc.intro _ smaller) =
    dite (dec_lt 9 n) (λ h. show_acc (n / 10) (smaller (n / 10) (tenth_lt n h)) +++ digit (n % 10))
      (λ _. digit n)

-- A whole number in a template literal: its decimal digits.
unfoldable pub show : ℕ → String
unfolding show_acc lt_wf dec_lt
show n = show_acc n (lt_wf.apply n)
