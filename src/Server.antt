-- ===== src/Server.antt =====
-- cpp_core/src/server.cpp: the commands, and what a connection does with the bytes that it reads.
-- Sockets and the event loop are the environment's: a read brings some bytes, in order.
pub mod Lines
pub mod Chunks
pub mod Wire
pub mod RoundTrip
pub mod Ttl
pub mod Tcp
use Prim.Native.Char.{Char, code}
use Prim.Native.String.{String}
use quark_cache.Common.{
  ℕ, suc, zero, ◌+◌, ◌-◌, ◌*◌, Bool, true, false, not, ◌&&◌, ◌||◌, Option, none, some, List, [],
  ◌∷◌, ◌++◌, length, leb, ltb, ◌==◌, same, truthy, if◌then◌else◌,
}
use quark_cache.Common.Text.{◌+++◌, snoc, show}
use quark_cache.Common.Text.Ascii.{capitals}
use quark_cache.Engine.Lru
use quark_cache.Engine.Lru.{CacheEntry, Seconds, plus, minus, ttl_remaining}
use quark_cache.Engine.Store.{KvStore, Stats, set, get, del, get_stats}

-- White space of the C locale.
unfoldable pub is_blank : Char → Bool
is_blank c = let n = code c in (leb 9 n && leb n 13) || n == 32

-- `iss >> tok` until it fails: `cur` is the token that is open.
unfoldable pub tokens_from : String → String → List String
tokens_from cur String.[] = if truthy cur then cur ∷ [] else []
tokens_from cur (String.◌∷◌ c s) =
    let closed = tokens_from "" s in
    let longer = tokens_from (snoc cur c) s in
    if is_blank c then (if truthy cur then cur ∷ closed else closed) else longer

unfoldable pub tokenize : String → List String
unfolding tokens_from is_blank
tokenize s = tokens_from "" s

-- The number that a text begins with, if it begins with a digit.
unfoldable pub decimal_prefix : Option ℕ → String → Option ℕ
decimal_prefix acc String.[] = acc
decimal_prefix acc (String.◌∷◌ c s) =
    let n = code c in
    let longer = decimal_prefix (some ((elim acc [ none ↦ 0 | some a ↦ a * 10 ]) + (n - b'0'))) s in
    if leb b'0' n && leb n b'9' then longer else acc

-- An `int64_t`, or out of range.
abbrev pub signed_seconds : Bool → Option ℕ → Option Seconds
signed_seconds neg none = none
signed_seconds true (some n) = if leb n 9223372036854775808 then some (minus n) else none
signed_seconds false (some n) = if ltb n 9223372036854775808 then some (plus n) else none

-- `std::stoll` of a token; `none` where it throws.
unfoldable pub stoll : String → Option Seconds
unfolding decimal_prefix
stoll String.[] = none
stoll (String.◌∷◌ c s) =
    if code c == b'-'
    then signed_seconds true (decimal_prefix none s)
    else if code c == b'+'
    then signed_seconds false (decimal_prefix none s)
    else signed_seconds false (decimal_prefix none (String.◌∷◌ c s))

abbrev pub crlf : String
crlf = "\r\n"

abbrev pub stored : Option KvStore → Option (String × KvStore)
stored none = none
stored (some s) = some ("OK\r\n", s)

-- The branch of `SET` behind its usage check: the key, the value, and what follows them.
unfoldable pub set_command : ℕ → String → String → List String → KvStore → Option (String × KvStore)
unfolding stoll set
set_command now key value [] s = stored (set now key value none s)
set_command now key value (t ∷ ts) s = elim (stoll t) [
  | none ↦ some ("ERROR invalid TTL\r\n", s)
  | some ttl ↦ stored (set now key value (some ttl) s)
]

abbrev pub get_reply : Option String → String
get_reply none = "NOT_FOUND\r\n"
get_reply (some v) = "VALUE " +++ v +++ crlf

abbrev pub del_reply : Bool → String
del_reply true = "OK\r\n"
del_reply false = "NOT_FOUND\r\n"

unfoldable pub stats_reply : Stats → String
unfolding show
stats_reply s =
    "STATS {\"total_requests\":"
    +++ show s.total_requests
    +++ ",\"hits\":"
    +++ show s.hits
    +++ ",\"misses\":"
    +++ show s.misses
    +++ ",\"bytes_used\":"
    +++ show s.bytes_used
    +++ ",\"active_connections\":"
    +++ show s.active_connections
    +++ "}\r\n"

abbrev pub ttl_text : Option ℕ → String
ttl_text none = "-1"
ttl_text (some n) = show n

unfoldable pub keys_reply : ℕ → List (String × CacheEntry) → String
unfolding show ttl_remaining
keys_reply now [] = "END\r\n"
keys_reply now ((k, e) ∷ es) =
    k +++ " " +++ e.value +++ " " +++ ttl_text (ttl_remaining now e) +++ crlf +++ keys_reply now es

-- The commands, by name, with the tokens that follow it.
unfoldable pub command : ℕ → String → List String → KvStore → Option (String × KvStore)
unfolding set_command get del get_stats stats_reply keys_reply Lru.all_entries
command now cmd args s =
    if same cmd "SET"
    then elim args [
      | [] ↦ some ("ERROR SET <key> <value> [<ttl>]\r\n", s)
      | k ∷ r ↦ elim r [
        | [] ↦ some ("ERROR SET <key> <value> [<ttl>]\r\n", s)
        | v ∷ ts ↦ set_command now k v ts s
      ]
    ]
    else if same cmd "GET"
    then elim args [
      | [] ↦ some ("ERROR GET <key>\r\n", s)
      | k ∷ r ↦ let (val, s') = get now k s in some (get_reply val, s')
    ]
    else if same cmd "DEL"
    then elim args [
      | [] ↦ some ("ERROR DEL <key>\r\n", s)
      | k ∷ r ↦ let (gone, s') = del k s in some (del_reply gone, s')
    ]
    else if same cmd "STATS"
    then some (stats_reply (get_stats s), s)
    else if same cmd "KEYS"
    then some (keys_reply now (Lru.all_entries now s.lru), s)
    else some ("ERROR unknown command '" +++ cmd +++ "'\r\n", s)

-- `process_command`; `none` would be a call that does not end.
unfoldable pub process_command : ℕ → String → KvStore → Option (String × KvStore)
unfolding tokenize command capitals
process_command now line s = elim (tokenize line) [
  | [] ↦ some ("ERROR empty command\r\n", s)
  | cmd ∷ args ↦ command now (capitals cmd) args s
]

-- The server with its clock: `clock n` is the reading for the `n`th command.
pub record Server : Type 0 where
  pub store : KvStore
  pub clock : ℕ → ℕ
  pub served : ℕ

abbrev pub next_server : Server → Option (String × KvStore) → Option (String × Server)
next_server v none = none
next_server v (some (response, store)) =
    some (response, record v { store = store; served = suc v.served })

unfoldable pub serve_line : String → Server → Option (String × Server)
unfolding process_command
serve_line line v = next_server v (process_command (v.clock v.served) line v.store)
