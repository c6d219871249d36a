-- ===== src/Server/RoundTrip.antt =====
-- cpp_core/src/server.cpp over the store and the cache: a `SET` line and a `GET` line after it.
use Prim.Native.String.{String}
use quark_cache.Common.{ℕ, ◌≡◌, refl, ap, ◌∙◌, none, some, [], ◌∷◌}
use quark_cache.Common.Text.{◌+++◌}
use quark_cache.Engine.Lru
use quark_cache.Engine.Lru.{LruCache}
use quark_cache.Engine.Promise.{Recency, Shows}
use quark_cache.Engine.Answers.{get-set}
use quark_cache.Engine.Store.{KvStore, set, get, put_back, asked}
use quark_cache.Server.{stored, set_command, get_reply, process_command, crlf}
use quark_cache.Server.Wire.{IsToken, join_words, process_command-set, process_command-get}

-- The store after a set, and what it finds then.
set-found :
    (now later : ℕ) (key value : String) (s : KvStore) (rs : Recency)
    → Shows s.lru rs
    → (s' : KvStore) × (set now key value none s ≡ some s') × ((get later key s').0 ≡ some value)
unfolding set get Lru.is_expired
set-found now later key value s rs shows =
    let (c, e, found) = get-set s.lru rs shows now later key value none tt in
    (record (asked s) { lru = c }, ap (put_back (asked s)) e, found)

set_command-none :
    (now : ℕ) (key value : String) (s : KvStore)
    → set_command now key value [] s ≡ stored (set now key value none s)
unfolding set_command
set_command-none now key value s = refl

-- For a key and a value that are words: on a store whose cache is well-formed a `SET` line without a TTL
-- is answered with OK, and a `GET` line that follows, however late, with the value.
pub process_command-set_get :
    (now later : ℕ) (key value : String) (s : KvStore) (rs : Recency)
    → Shows s.lru rs
    → IsToken key
    → IsToken value
    → (s' : KvStore) × (process_command now (join_words ("SET" ∷ key ∷ value ∷ [])) s
        ≡ some ("OK\r\n", s'))
      × (process_command later (join_words ("GET" ∷ key ∷ [])) s'
          ≡ some ("VALUE " +++ value +++ crlf, (get later key s').1))
process_command-set_get now later key value s rs shows is_key is_value =
    let (s', e, found) = set-found now later key value s rs shows in
    (
      s',
      process_command-set now s key is_key value [] is_value tt
          ∙ set_command-none now key value s
          ∙ ap stored e,
      process_command-get later s' key is_key
          ∙ ap (λ o. some (get_reply o, (get later key s').1)) found,
    )
