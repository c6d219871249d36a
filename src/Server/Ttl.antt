-- ===== src/Server/Ttl.antt =====
-- cpp_core/src/server.cpp: the TTL of a `SET` line, which `std::stoll` reads.
use Prim.Native.Char.{Char, code}
use Prim.Native.String.{String}
use text.Mathlib.TextLemmas.{nil-append, append-nil, cons-append, append_assoc}
use quark_cache.Common.{
  ℕ, zero, suc, ◌+◌, ◌*◌, ◌<◌, ◌≡◌, ◌≢◌, refl, sym, subst, ap, ◌∙◌, true, false, Option, none, some,
  arith, leb, lt→ltb, ◌-◌, ◌&&◌, ◌==◌,
}
use quark_cache.Common.Text.{◌+++◌, digit, show}
use quark_cache.Common.Text.Decimal.{show-cases, show-holds}
use quark_cache.Engine.Lru.{plus}
use quark_cache.Server.Wire.{NoBlank, NoBlank-append, IsToken}
use quark_cache.Server.{is_blank, decimal_prefix, signed_seconds, stoll}

abbrev so_far : Option ℕ → ℕ
so_far none = 0
so_far (some a) = a * 10

decimal_prefix-cons :
    (acc : Option ℕ) (c : Char) (t : String)
    → (leb b'0' (code c) && leb (code c) b'9') ≡ true
    → decimal_prefix acc (String.◌∷◌ c t) ≡ decimal_prefix (some (so_far acc + (code c - b'0'))) t
unfolding decimal_prefix
decimal_prefix-cons none c t h = rw (decimal_prefix, h) refl
decimal_prefix-cons (some a) c t h = rw (decimal_prefix, h) refl

decimal_prefix-digit :
    (acc : Option ℕ) (d : ℕ) (t : String)
    → d < 10
    → decimal_prefix acc (digit d +++ t) ≡ decimal_prefix (some (so_far acc + d)) t
decimal_prefix-digit acc zero t h =
    rw (cons-append, nil-append) (decimal_prefix-cons acc "0" t refl)
decimal_prefix-digit acc (suc zero) t h =
    rw (cons-append, nil-append) (decimal_prefix-cons acc "1" t refl)
decimal_prefix-digit acc (suc (suc zero)) t h =
    rw (cons-append, nil-append) (decimal_prefix-cons acc "2" t refl)
decimal_prefix-digit acc (suc (suc (suc zero))) t h =
    rw (cons-append, nil-append) (decimal_prefix-cons acc "3" t refl)
decimal_prefix-digit acc (suc (suc (suc (suc zero)))) t h =
    rw (cons-append, nil-append) (decimal_prefix-cons acc "4" t refl)
decimal_prefix-digit acc (suc (suc (suc (suc (suc zero))))) t h =
    rw (cons-append, nil-append) (decimal_prefix-cons acc "5" t refl)
decimal_prefix-digit acc (suc (suc (suc (suc (suc (suc zero)))))) t h =
    rw (cons-append, nil-append) (decimal_prefix-cons acc "6" t refl)
decimal_prefix-digit acc (suc (suc (suc (suc (suc (suc (suc zero))))))) t h =
    rw (cons-append, nil-append) (decimal_prefix-cons acc "7" t refl)
decimal_prefix-digit acc (suc (suc (suc (suc (suc (suc (suc (suc zero)))))))) t h =
    rw (cons-append, nil-append) (decimal_prefix-cons acc "8" t refl)
decimal_prefix-digit acc (suc (suc (suc (suc (suc (suc (suc (suc (suc zero))))))))) t h =
    rw (cons-append, nil-append) (decimal_prefix-cons acc "9" t refl)
decimal_prefix-digit acc (suc (suc (suc (suc (suc (suc (suc (suc (suc (suc d)))))))))) t h =
    absurd (omega arith)

decimal_prefix-show :
    (n : ℕ) (t : String) → decimal_prefix none (show n +++ t) ≡ decimal_prefix (some n) t
decimal_prefix-show =
    show-cases (λ n s. (t : String) → decimal_prefix none (s +++ t) ≡ decimal_prefix (some n) t)
      (λ d h t.
        let e : 0 + d ≡ d = omega arith in
        decimal_prefix-digit none d t h ∙ ap (λ m. decimal_prefix (some m) t) e)
      (λ n d s h ih t.
        ap (decimal_prefix none) (append_assoc s (digit d) t)
        ∙ ih (digit d +++ t)
        ∙ decimal_prefix-digit (some n) d t h)

-- A text that begins with a digit: `stoll` sees no sign.
abbrev Starts : String → Type 0
Starts String.[] = ⊥
Starts (String.◌∷◌ c s) = ((code c == b'-') ≡ false) × ((code c == b'+') ≡ false)

Starts-append : (s t : String) → Starts s → Starts (s +++ t)
Starts-append String.[] t h = absurd h
Starts-append (String.◌∷◌ c s) t h = rw cons-append h

digit-Starts : (d : ℕ) → Starts (digit d)
digit-Starts zero = (refl, refl)
digit-Starts (suc zero) = (refl, refl)
digit-Starts (suc (suc zero)) = (refl, refl)
digit-Starts (suc (suc (suc zero))) = (refl, refl)
digit-Starts (suc (suc (suc (suc zero)))) = (refl, refl)
digit-Starts (suc (suc (suc (suc (suc zero))))) = (refl, refl)
digit-Starts (suc (suc (suc (suc (suc (suc zero)))))) = (refl, refl)
digit-Starts (suc (suc (suc (suc (suc (suc (suc zero))))))) = (refl, refl)
digit-Starts (suc (suc (suc (suc (suc (suc (suc (suc zero)))))))) = (refl, refl)
digit-Starts (suc (suc (suc (suc (suc (suc (suc (suc (suc d))))))))) = (refl, refl)

show-Starts : (n : ℕ) → Starts (show n)
show-Starts =
    show-cases (λ n s. Starts s) (λ d h. digit-Starts d) (λ n d s h p. Starts-append s (digit d) p)

stoll-Starts : (s : String) → Starts s → stoll s ≡ signed_seconds false (decimal_prefix none s)
unfolding stoll
stoll-Starts String.[] h = absurd h
stoll-Starts (String.◌∷◌ c s) (x, y) = rw (stoll, x, y) refl

-- The decimal of a number below 2^63 is read as the number.
pub stoll-show : (n : ℕ) → n < 9223372036854775808 → stoll (show n) ≡ some (plus n)
unfolding decimal_prefix
stoll-show n h =
    let digits = ap (decimal_prefix none) (sym (append-nil (show n))) ∙ decimal_prefix-show n "" in
    stoll-Starts (show n) (show-Starts n) ∙ rw (digits, lt→ltb n 9223372036854775808 h) refl

digit-NoBlank : (d : ℕ) → NoBlank (digit d)
unfolding is_blank
digit-NoBlank zero = (refl, tt)
digit-NoBlank (suc zero) = (refl, tt)
digit-NoBlank (suc (suc zero)) = (refl, tt)
digit-NoBlank (suc (suc (suc zero))) = (refl, tt)
digit-NoBlank (suc (suc (suc (suc zero)))) = (refl, tt)
digit-NoBlank (suc (suc (suc (suc (suc zero))))) = (refl, tt)
digit-NoBlank (suc (suc (suc (suc (suc (suc zero)))))) = (refl, tt)
digit-NoBlank (suc (suc (suc (suc (suc (suc (suc zero))))))) = (refl, tt)
digit-NoBlank (suc (suc (suc (suc (suc (suc (suc (suc zero)))))))) = (refl, tt)
digit-NoBlank (suc (suc (suc (suc (suc (suc (suc (suc (suc d))))))))) = (refl, tt)

Starts-ne_nil : (s : String) → Starts s → s ≢ ""
Starts-ne_nil s h e = subst Starts e h

-- A decimal is a word.
pub show-IsToken : (n : ℕ) → IsToken (show n)
show-IsToken n =
    (show-holds NoBlank digit-NoBlank NoBlank-append n, Starts-ne_nil (show n) (show-Starts n))
