-- ===== src/Backend/Routes/Flow.antt =====
-- backend/app/routers/keys.py down to cpp_core/src/lru_cache.cpp: a key that is stored and read through
-- the API.
use Prim.Native.String.{String}
use text.Mathlib.TextLemmas.{cons-ne-nil}
use quark_cache.Common.{
  ℕ, suc, ◌+◌, ◌<◌, ◌≤◌, Bool, ◌≡◌, refl, sym, ap, ◌∙◌, subst, true, false, Option, none, some,
  truthy, if◌then◌else◌, le→leb, arith,
}
use quark_cache.Common.Text.{join}
use quark_cache.Engine.{same-ne}
use quark_cache.Engine.Lru
use quark_cache.Engine.Lru.{Seconds, plus, is_expired, new_entry}
use quark_cache.Engine.Promise.{Recency, Shows}
use quark_cache.Engine.Answers.{has_passed, IsInTime, get-set}
use quark_cache.Engine.Store.{set, get, asked, put_back, decrement_connections}
use quark_cache.Server.{Server, get_reply, stored, next_server, serve_line}
use quark_cache.Server.Wire.{NoBlank, IsToken}
use quark_cache.Backend.Client.{Result, ok, set_line, get_line}
use quark_cache.Backend.Exchange.{
  set_line-NoEnd, get_result-get_reply, IsTtl, whole_ttl, process_command-set_line,
}
use quark_cache.Backend.Service.{answered}
use quark_cache.Backend.Deployed.{limited, delivered, opened, closed}
use quark_cache.Backend.Deployed.Limits.{limited-line, delivered-whole, delivered-get_reply}
use quark_cache.Backend.Deployed.{short_from}
use quark_cache.Engine.{size}
use quark_cache.Server.Tcp.Active.{decrement_connections-lru}
use quark_cache.Backend.Deployed.Commands.{
  now_of, get_line-NoEnd, get_reply-truthy, serve_line-get, set_key-ok, set_line-ne_nil,
}
use quark_cache.Backend.Deployed.Line.{append-ne_nil}
use quark_cache.Backend.Routes.{
  or_503, Http, KeyResponse, response, found_key, set_key, get_key, set_key_request,
}

-- The route of a look-up answers what the store finds.
pub get_key-finds :
    (room : ℕ) (v : Server) (key : String) (o : Option String)
    → IsToken key
    → (get (now_of v) key (opened v).store).0 ≡ o
    → ((w : String) → o ≡ some w → NoBlank w × (size w < 65530) × (size w + 8 ≤ room))
    → 11 ≤ room
    → (get_key (limited room) key v).0 ≡ found_key key o
unfolding get_key answered closed join opened
get_key-finds room v key o h e values wide =
    let found = (get (now_of v) key (opened v).store).0 in
    let fits =
      subst (λ p. delivered room (get_reply p) ≡ ok (get_reply p)) (sym e)
        (delivered-get_reply room o values wide) in
    let sent =
      limited-line room (get_line key) v _ (get_reply found) (get_line-NoEnd key h.0)
        (append-ne_nil "GET " key (cons-ne-nil _ _)) (serve_line-get (opened v) key h)
        (get_reply-truthy found) fits in
    rw (sent, closed, e, answered, get_result-get_reply o (λ w q. (values w q).0)) refl

set_key_request-IsTtl :
    (key value : String) (ttl : Option ℕ)
    → truthy key ≡ true
    → IsTtl ttl
    → set_key_request key value (whole_ttl ttl)
      ≡ some (record { key = key; value = value; ttl = ttl })
unfolding set_key_request
set_key_request-IsTtl key value none t h = rw (set_key_request, t) refl
set_key_request-IsTtl key value (some n) t h = rw (set_key_request, t, le→leb 1 n h.0) refl

choice-value : (b : Bool) (w value : String) → (if b then none else some value) ≡ some w → value ≡ w
choice-value true w value e = cc
choice-value false w value e = cc

-- The answer to a body, by what the client's call gave.
abbrev created : String → String → Option ℕ → Result (Unit {0}) × Server → Http KeyResponse × Server
created key value ttl (result, v) = (
  or_503 result (λ done. response 201 (record { key = key; value = value; ttl_remaining = ttl })),
  v,
)

delivered-ok : (room : ℕ) → 11 ≤ room → delivered room "OK\r\n" ≡ ok "OK\r\n"
unfolding short_from size
delivered-ok room h = delivered-whole room "OK\r\n" (omega arith) refl

-- The room of the socket for the replies of one line, and a value whose line is within the limit.
abbrev pub IsRoom : ℕ → String → Type 0
IsRoom room value = (11 ≤ room) × (size value + 8 ≤ room) × (size value < 65530)

-- A body that the schema admits, whose `SET` line is served with OK, is answered with 201.
set_key-served :
    (room : ℕ) (v v' : Server) (key value : String) (ttl : Option ℕ)
    → IsToken key
    → IsToken value
    → IsTtl ttl
    → serve_line (set_line key value ttl) (opened v) ≡ some ("OK\r\n", v')
    → 11 ≤ room
    → set_key (limited room) key value (whole_ttl ttl) v ≡ (
      response 201 (record { key = key; value = value; ttl_remaining = ttl }),
      record v' { store = decrement_connections v'.store },
    )
unfolding set_key
set_key-served room v v' key value ttl h k t e wide =
    rw (set_key_request-IsTtl key value ttl (rw (same-ne key "" h.1) refl) t, set_key) refl
    ∙ ap (created key value ttl) (
        set_key-ok (limited room) v v' key value ttl (
          limited-line room (set_line key value ttl) v v' "OK\r\n"
            (set_line-NoEnd key value ttl h.0 k.0) (set_line-ne_nil key value ttl) e refl
            (delivered-ok room wide)))

-- A key and a value that are words are stored by `POST /keys` with a TTL that the schema admits, or with
-- none, in a server whose cache is well-formed: the answer is 201 with the body, and `GET` on the key
-- that comes next is answered with 200 and the value while fewer nanoseconds have passed than the TTL has,
-- and then with 404. The times are within 64 bits, the socket has room for the replies, and the line of the
-- value is within the reader's limit.
pub set_key-get_key :
    (room : ℕ) (v : Server) (rs : Recency) (key value : String) (ttl : Option ℕ)
    → Shows v.store.lru rs
    → IsToken key
    → IsToken value
    → IsTtl ttl
    → IsInTime (v.clock v.served) (whole_ttl ttl)
    → IsRoom room value
    → (v' : Server) × (set_key (limited room) key value (whole_ttl ttl) v
        ≡ (response 201 (record { key = key; value = value; ttl_remaining = ttl }), v'))
      × ((get_key (limited room) key v').0
          ≡ found_key key (
              if has_passed (v.clock v.served) (v.clock (suc v.served)) (whole_ttl ttl)
              then none
              else some value))
unfolding opened set get serve_line
set_key-get_key room v rs key value ttl shows h k t in_time (wide, fits, small) =
    let now = v.clock v.served in
    let later = v.clock (suc v.served) in
    let (c, e, found) = get-set v.store.lru rs shows now later key value (whole_ttl ttl) in_time in
    let after = record (asked (opened v).store) { lru = c } in
    let served = ap (next_server (opened v)) (
      process_command-set_line now key value ttl (opened v).store h k t
      ∙ ap stored (ap (put_back (asked (opened v).store)) e)) in
    let v' = record (opened v) { store = decrement_connections after; served = suc v.served } in
    let old = has_passed now later (whole_ttl ttl) in
    (
      v',
      set_key-served room v (record (opened v) { store = after; served = suc v.served }) key value
          ttl h k t served wide,
      get_key-finds room v' key (if old then none else some value) h
          (ap (λ c. (Lru.get later key c).0) (decrement_connections-lru after) ∙ found)
          (λ w q.
            subst (λ x. NoBlank x × (size x < 65530) × (size x + 8 ≤ room))
              (choice-value old w value q) (k.0, small, fits))
          wide,
    )
