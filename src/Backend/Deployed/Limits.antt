-- ===== src/Backend/Deployed/Limits.antt =====
-- backend/app/services/cache_client.py on the server of cpp_core/src/server.cpp: replies that come whole.
use Prim.Native.String.{String}
use text.Mathlib.TextLemmas.{nil-append, cons-append, append_assoc}
use quark_cache.Common.{
  ℕ, suc, ◌+◌, ◌≤◌, ◌<◌, ◌≡◌, ◌≢◌, refl, sym, ap, ◌∙◌, true, Option, none, some, [], ◌∷◌, leb,
  le→leb, truthy, arith,
}
use quark_cache.Common.Text.{◌+++◌, join}
use quark_cache.Engine.{size}
use quark_cache.Server.{Server, crlf, get_reply, serve_line}
use quark_cache.Server.Wire.{NoBlank}
use quark_cache.Backend.Client.{ok}
use quark_cache.Backend.Exchange.{NoEnd, NoEnd-append, NoEnd-NoBlank}
use quark_cache.Backend.Service.{wire, and_then}
use quark_cache.Backend.Deployed.{limited, delivered, short_from, opened, closed}
use quark_cache.Backend.Deployed.Line.{exchange-line}

pub size-append : (s t : String) → size (s +++ t) ≡ size s + size t
unfolding size
size-append String.[] t = rw nil-append (omega arith)
size-append (String.◌∷◌ c s) t = rw cons-append (omega (arith, size-append s t))

-- A line that is within the limit, before the rest of a reply.
short_from-line :
    (n : ℕ) (l s : String)
    → NoEnd l
    → n + size l < 65536
    → short_from n (l +++ crlf +++ s) ≡ short_from 0 s
unfolding short_from size
short_from-line n String.[] s h k =
    let fits : leb (suc n) 65536 ≡ true = le→leb (suc n) 65536 (omega arith) in
    rw (nil-append, cons-append, cons-append, nil-append, short_from, fits) refl
short_from-line n (String.◌∷◌ c l) s (x, y, h) k =
    rw (cons-append, short_from, y) (short_from-line (suc n) l s h (omega arith))

pub short-line :
    (l s : String) → NoEnd l → size l < 65536 → short_from 0 (l +++ crlf +++ s) ≡ short_from 0 s
short-line l s h k = short_from-line 0 l s h (omega arith)

pub delivered-whole :
    (room : ℕ) (reply : String)
    → size reply ≤ room
    → short_from 0 reply ≡ true
    → delivered room reply ≡ ok reply
unfolding delivered
delivered-whole room reply h k = rw (le→leb (size reply) room h, k) refl

-- What a command line brings back through the socket.
pub limited-line :
    (room : ℕ) (l : String) (v v' : Server) (response : String)
    → NoEnd l
    → l ≢ ""
    → serve_line l (opened v) ≡ some (response, v')
    → truthy response ≡ true
    → delivered room response ≡ ok response
    → (limited room).exchange (wire l) v ≡ closed v (some (response ∷ [], ("", v')))
unfolding limited closed join
limited-line room l v v' response h full e t fits =
    ap (λ p. (and_then p.0 (delivered room), p.1)) (exchange-line l v v' response h full e t)
    ∙ rw fits refl

-- The replies to a look-up, and those of one word.
pub delivered-get_reply :
    (room : ℕ) (o : Option String)
    → ((v : String) → o ≡ some v → NoBlank v × (size v < 65530) × (size v + 8 ≤ room))
    → 11 ≤ room
    → delivered room (get_reply o) ≡ ok (get_reply o)
unfolding short_from size
delivered-get_reply room none h k = delivered-whole room "NOT_FOUND\r\n" k refl
delivered-get_reply room (some v) h k =
    let (plain, small, fits) = h v refl in
    let whole : NoEnd ("VALUE " +++ v) =
      NoEnd-append "VALUE " v
        (refl, refl, (refl, refl, (refl, refl, (refl, refl, (refl, refl, (refl, refl, tt))))))
        (NoEnd-NoBlank v plain) in
    let n = size-append "VALUE " (v +++ crlf) ∙ ap (λ n. 6 + n) (size-append v crlf) in
    delivered-whole room ("VALUE " +++ v +++ crlf) (omega (arith, n)) (
      ap (short_from 0) (sym (append_assoc "VALUE " v crlf))
      ∙ short-line ("VALUE " +++ v) "" whole (omega (arith, size-append "VALUE " v)))
