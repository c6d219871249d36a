-- ===== src/Backend/Deployed/Line.antt =====
-- backend/app/services/cache_client.py on the server of cpp_core/src/server.cpp: one command line.
use Prim.Native.Char.{code}
use Prim.Native.String.{String}
use text.Mathlib.TextLemmas.{nil-append, cons-append, cons-ne-nil}
use quark_cache.Common.{
  ℕ, ◌≡◌, ◌≢◌, refl, sym, ap, ◌∙◌, true, false, Option, some, [], ◌∷◌, truthy, arith,
}
use quark_cache.Common.Text.{◌+++◌}
use quark_cache.Engine.{same-ne}
use quark_cache.Server.{Server, crlf, serve_line}
use quark_cache.Server.Lines.{chop_cr, handle_read}
use quark_cache.Server.Chunks.{split_lines, serve_lines, handle_read-lines}
use quark_cache.Backend.Exchange.{NoEnd}
use quark_cache.Backend.Service.{ends_crlf, wire}
use quark_cache.Backend.Deployed.{deployed, opened, closed}

split_lines-crlf : (l : String) → NoEnd l → split_lines (l +++ crlf) ≡ ((l +++ "\r") ∷ [], "")
unfolding split_lines
split_lines-crlf String.[] h = rw nil-append refl
split_lines-crlf (String.◌∷◌ c l) (x, y, h) =
    rw (cons-append, split_lines, y, split_lines-crlf l h)
      (ap (λ t. (t ∷ [], "")) (sym (cons-append c l "\r")))

append-cr_ne : (l : String) → l +++ "\r" ≢ ""
append-cr_ne String.[] e = cons-ne-nil _ _ e
append-cr_ne (String.◌∷◌ c l) e = cons-ne-nil _ _ (rw cons-append at e)

chop_cr-cr : (l : String) → chop_cr (l +++ "\r") ≡ l
unfolding chop_cr
chop_cr-cr String.[] = refl
chop_cr-cr (String.◌∷◌ c l) =
    rw (cons-append, chop_cr, same-ne (l +++ "\r") "" (append-cr_ne l), chop_cr-cr l) refl

abbrev first : String → ℕ
first String.[] = 0
first (String.◌∷◌ c s) = code c

ends_crlf-NoEnd : (l : String) → NoEnd l → ends_crlf l ≡ false
unfolding ends_crlf
ends_crlf-NoEnd String.[] h = refl
ends_crlf-NoEnd (String.◌∷◌ c l) (x, y, h) =
    let apart : String.◌∷◌ c l ≢ crlf = λ e. (let q : code c ≡ 13 = ap first e in ground arith) in
    rw (ends_crlf, same-ne (String.◌∷◌ c l) crlf apart, ends_crlf-NoEnd l h) refl

pub append-ne_nil : (l s : String) → l ≢ "" → l +++ s ≢ ""
append-ne_nil String.[] s h e = h refl
append-ne_nil (String.◌∷◌ c l) s h e = cons-ne-nil _ _ (rw cons-append at e)

module _ {S : Type 0} (process : String → S → Option (String × S)) where
  -- A line in one read: its response is written, if it is not empty, and nothing is left in the buffer.
  pub handle_read-line :
      (l : String) (s s' : S) (response : String)
      → NoEnd l
      → l ≢ ""
      → process l s ≡ some (response, s')
      → truthy response ≡ true
      → handle_read process (l +++ crlf) ("", s) ≡ some (response ∷ [], ("", s'))
  unfolding serve_lines chop_cr
  handle_read-line l s s' response h full e t =
      let lines = ap split_lines (nil-append (l +++ crlf)) ∙ split_lines-crlf l h in
      handle_read-lines process (l +++ crlf) "" s
        (rw (same-ne (l +++ crlf) "" (append-ne_nil l crlf full)) refl)
      ∙ rw (lines, chop_cr-cr l, same-ne l "" full, e, t) refl

-- What a command line brings back, and the server that it leaves.
pub exchange-line :
    (l : String) (v v' : Server) (response : String)
    → NoEnd l
    → l ≢ ""
    → serve_line l (opened v) ≡ some (response, v')
    → truthy response ≡ true
    → deployed.exchange (wire l) v ≡ closed v (some (response ∷ [], ("", v')))
unfolding deployed wire
exchange-line l v v' response h full e t =
    rw (ends_crlf-NoEnd l h, wire)
      (ap (closed v) (handle_read-line serve_line l (opened v) v' response h full e t))
