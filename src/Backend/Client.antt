-- ===== src/Backend/Client.antt =====
-- backend/app/services/cache_client.py: the command lines that it sends, and what it reads from the
-- replies. The connection is the environment's: a command goes out, and the server's reply comes back.
use Prim.Native.Char.{code}
use Prim.Native.String.{String}
use quark_cache.Common.{
  ℕ, Bool, true, false, ◌&&◌, ◌||◌, Option, none, some, is_some, same, ◌==◌, if◌then◌else◌,
}
use quark_cache.Common.Text.{◌+++◌, show}
use quark_cache.Common.Text.Prefix.{strip_prefix}
use quark_cache.Server.Lines.{cut_line}

-- A result, a `CacheClientError` with its text, or an exception of another kind, such as that of a
-- connection that is reset, or of `readline` on a line beyond its limit.
pub data Result (A : Type 0) : Type 0 where
  ok : A → Result A
  error : String → Result A
  raised : Result A

-- Whether a call ends with an exception.
abbrev pub is_error : {A : Type 0} → Result A → Bool
is_error (ok a) = false
is_error (error e) = true
is_error raised = true

-- `s.rstrip("\r\n")`.
unfoldable pub rstrip : String → String
rstrip String.[] = ""
rstrip (String.◌∷◌ c s) =
    let r = rstrip s in if same r "" && (code c == 13 || code c == 10) then "" else String.◌∷◌ c r

-- `reader.readline()` on the reply: up to the first line feed, or all of it; without its end.
-- A line over the limit, for which it raises, is `raised` of the exchange that brings the reply.
unfoldable pub read_line : String → String
unfolding rstrip cut_line
read_line reply = elim (cut_line reply) [ none ↦ rstrip reply | some (l, r) ↦ rstrip l ]

-- What is sent, before its end of line is added.
abbrev pub set_line : String → String → Option ℕ → String
set_line key value none = "SET " +++ key +++ " " +++ value
set_line key value (some ttl) = "SET " +++ key +++ " " +++ value +++ " " +++ show ttl

abbrev pub get_line : String → String
get_line key = "GET " +++ key

abbrev pub del_line : String → String
del_line key = "DEL " +++ key

unfoldable pub set_result : String → Result (Unit {0})
unfolding strip_prefix
set_result response =
    if is_some (strip_prefix "OK" response) then ok tt else error ("SET failed: " +++ response)

unfoldable pub get_result : String → Result (Option String)
get_result response = elim (strip_prefix "VALUE " response) [
  | some value ↦ ok (some value)
  | none ↦ if same response "NOT_FOUND" then ok none else error ("GET failed: " +++ response)
]

unfoldable pub del_result : String → Result Bool
del_result response =
    if same response "OK"
    then ok true
    else if same response "NOT_FOUND"
    then ok false
    else error ("DEL failed: " +++ response)
