-- ===== src/Backend/Routes/Removal.antt =====
-- backend/app/routers/keys.py down to cpp_core/src/lru_cache.cpp: a key that is deleted through the API.
use Prim.Native.String.{String}
use text.Mathlib.TextLemmas.{cons-ne-nil, append_assoc}
use quark_cache.Common.{
  ℕ, suc, arith, ◌≤◌, ◌≡◌, refl, ap, ◌∙◌, Bool, true, false, Option, none, some, is_some, truthy,
}
use quark_cache.Common.Text.{join}
use quark_cache.Engine.Lru
use quark_cache.Engine.Promise.{Recency, Shows, entry_of}
use quark_cache.Engine.Keeps.{del-Shows}
use quark_cache.Engine.Answers.{get-del}
use quark_cache.Engine.Store.{del, get, decrement_connections}
use quark_cache.Server.{Server, del_reply, next_server, process_command, serve_line}
use quark_cache.Server.Wire.{IsToken, process_command-del}
use quark_cache.Backend.Client.{Result, ok, read_line, del_line, del_result}
use quark_cache.Backend.Exchange.{NoEnd-append, NoEnd-NoBlank}
use quark_cache.Backend.Service
use quark_cache.Backend.Service.{answered, and_then}
use quark_cache.Backend.Deployed.{limited, delivered, short_from, opened, closed}
use quark_cache.Backend.Deployed.Limits.{limited-line, delivered-whole}
use quark_cache.Engine.{size}
use quark_cache.Server.Tcp.Active.{decrement_connections-lru}
use quark_cache.Backend.Deployed.Commands.{now_of}
use quark_cache.Backend.Deployed.Line.{append-ne_nil}
use quark_cache.Backend.Routes.{
  Http, response, or_503, DeleteResponse, delete_key, get_key, found_key,
}
use quark_cache.Backend.Routes.Flow.{get_key-finds}

del_reply-read : (b : Bool) → del_result (read_line (del_reply b)) ≡ ok b
unfolding del_result read_line
del_reply-read true = refl
del_reply-read false = refl

del_reply-truthy : (b : Bool) → truthy (del_reply b) ≡ true
del_reply-truthy true = refl
del_reply-truthy false = refl

delivered-del_reply :
    (room : ℕ) (b : Bool) → 11 ≤ room → delivered room (del_reply b) ≡ ok (del_reply b)
unfolding short_from size
delivered-del_reply room true h = delivered-whole room "OK\r\n" (omega arith) refl
delivered-del_reply room false h = delivered-whole room "NOT_FOUND\r\n" h refl

serve_line-del :
    (v : Server) (key : String)
    → IsToken key
    → serve_line (del_line key) v
      ≡ some (
        del_reply (del key v.store).0,
        record v { store = (del key v.store).1; served = suc v.served },
      )
unfolding serve_line join
serve_line-del v key h = ap (next_server v) (
    ap (λ l. process_command (now_of v) l v.store) (append_assoc "DEL" " " key)
    ∙ process_command-del (now_of v) v.store key h)

-- The client's call for a word.
delete_key-del :
    (room : ℕ) (v : Server) (key : String)
    → IsToken key
    → 11 ≤ room
    → Service.delete_key (limited room) key v ≡ (
      ok (del key (opened v).store).0,
      record v {
        store = decrement_connections (del key (opened v).store).1;
        served = suc v.served;
      },
    )
unfolding Service.delete_key closed answered join opened
delete_key-del room v key h wide =
    let gone = (del key (opened v).store).0 in
    let sent =
      limited-line room (del_line key) v _ (del_reply gone)
        (NoEnd-append "DEL " key (refl, refl, (refl, refl, (refl, refl, (refl, refl, tt))))
          (NoEnd-NoBlank key h.0))
        (append-ne_nil "DEL " key (cons-ne-nil _ _)) (serve_line-del (opened v) key h)
        (del_reply-truthy gone) (delivered-del_reply room gone wide) in
    rw (Service.delete_key, Service.send_command, sent, closed, answered, del_reply-read gone) refl

abbrev deletion : String → Result Bool × Server → Http DeleteResponse × Server
deletion key (result, v) =
    (or_503 result (λ gone. response 200 (record { key = key; deleted = gone })), v)

-- On a server whose cache is well-formed, `DELETE` on a key that is a word is answered with 200 and whether
-- the cache held the key; and a `GET` on the key that comes next is answered with 404. The socket has room for the replies.
pub delete_key-get_key :
    (room : ℕ) (v : Server) (rs : Recency) (key : String)
    → Shows v.store.lru rs
    → IsToken key
    → 11 ≤ room
    → (v' : Server) × (delete_key (limited room) key v
        ≡ (response 200 (record { key = key; deleted = is_some (entry_of key rs) }), v'))
      × ((get_key (limited room) key v').0 ≡ found_key key none)
unfolding delete_key opened del get
delete_key-get_key room v rs key shows h wide =
    let gone = (del-Shows key v.store.lru rs shows).0 in
    let after = (del key (opened v).store).1 in
    let v' = record (opened v) { store = decrement_connections after; served = suc v.served } in
    (
      v',
      ap (deletion key) (delete_key-del room v key h wide)
          ∙ ap (λ b. (response 200 (record { key = key; deleted = b }), v')) gone,
      get_key-finds room v' key none h
          (ap (λ c. (Lru.get (v.clock (suc v.served)) key c).0) (decrement_connections-lru after)
            ∙ get-del v.store.lru rs shows (v.clock (suc v.served)) key)
          (λ w q. (let r : Path (Option String) none (some w) = q in cc)) wide,
    )
