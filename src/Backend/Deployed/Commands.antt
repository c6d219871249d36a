-- ===== src/Backend/Deployed/Commands.antt =====
-- backend/app/services/cache_client.py on the server of cpp_core/src/server.cpp: the calls on one key.
use Prim.Native.String.{String}
use text.Mathlib.TextLemmas.{cons-ne-nil}
use quark_cache.Common.{
  ℕ, suc, ◌≡◌, ◌≢◌, refl, sym, ap, ◌∙◌, true, Option, none, some, [], ◌∷◌, truthy,
}
use quark_cache.Common.Text.{◌+++◌, join}
use quark_cache.Engine.{same-ne}
use quark_cache.Engine.Store.{get, decrement_connections}
use quark_cache.Server.{Server, crlf, get_reply, next_server, process_command, serve_line}
use quark_cache.Server.Wire.{NoBlank, IsToken, process_command-get}
use quark_cache.Backend.Client.{get_result, ok, set_line, get_line, set_result, read_line}
use quark_cache.Backend.Exchange.{NoEnd, NoEnd-append, NoEnd-NoBlank, join_words-get_line}
use quark_cache.Backend.Service
use quark_cache.Backend.Service.{Network, and_then, answered, wire}
use quark_cache.Backend.Deployed.{deployed, opened, closed}
use quark_cache.Backend.Deployed.Line.{exchange-line, append-ne_nil}

-- The reading of the clock for the next command.
abbrev pub now_of : Server → ℕ
now_of v = v.clock v.served

pub get_line-NoEnd : (key : String) → NoBlank key → NoEnd (get_line key)
get_line-NoEnd key h =
    NoEnd-append "GET " key (refl, refl, (refl, refl, (refl, refl, (refl, refl, tt))))
      (NoEnd-NoBlank key h)

pub get_reply-truthy : (o : Option String) → truthy (get_reply o) ≡ true
get_reply-truthy none = refl
get_reply-truthy (some v) =
    rw
      (same-ne ("VALUE " +++ v +++ crlf) "" (append-ne_nil "VALUE " (v +++ crlf) (cons-ne-nil _ _)))
      refl

pub serve_line-get :
    (v : Server) (key : String)
    → IsToken key
    → serve_line (get_line key) v
      ≡ some (
        get_reply (get (now_of v) key v.store).0,
        record v { store = (get (now_of v) key v.store).1; served = suc v.served },
      )
unfolding serve_line
serve_line-get v key h = ap (next_server v) (
    ap (λ l. process_command (now_of v) l v.store) (sym (join_words-get_line key))
    ∙ process_command-get (now_of v) v.store key h)

pub set_line-ne_nil : (key value : String) (ttl : Option ℕ) → set_line key value ttl ≢ ""
set_line-ne_nil key value none = append-ne_nil "SET " _ (cons-ne-nil _ _)
set_line-ne_nil key value (some n) = append-ne_nil "SET " _ (cons-ne-nil _ _)

-- The client's call on a line that is answered with OK.
pub set_key-ok :
    (network : Network Server) (v v' : Server) (key value : String) (ttl : Option ℕ)
    → network.exchange (wire (set_line key value ttl)) v ≡ closed v (some ("OK\r\n" ∷ [], ("", v')))
    → Service.set_key network key value ttl v
      ≡ (ok tt, record v' { store = decrement_connections v'.store })
unfolding Service.set_key closed answered read_line set_result join
set_key-ok network v v' key value ttl sent =
    rw (Service.set_key, Service.send_command, sent, closed) refl

-- The client's look-up of a word, whatever the store answers.
pub get_key-replied :
    (v : Server) (key : String)
    → IsToken key
    → Service.get_key deployed key v ≡ (
      get_result (read_line (get_reply (get (now_of v) key (opened v).store).0)),
      record v {
        store = decrement_connections (get (now_of v) key (opened v).store).1;
        served = suc v.served;
      },
    )
unfolding Service.get_key closed answered join opened
get_key-replied v key h =
    let found = (get (now_of v) key (opened v).store).0 in
    let sent =
      exchange-line (get_line key) v _ (get_reply found) (get_line-NoEnd key h.0)
        (append-ne_nil "GET " key (cons-ne-nil _ _)) (serve_line-get (opened v) key h)
        (get_reply-truthy found) in
    rw (Service.get_key, Service.send_command, sent, closed) refl
