-- ===== src/Backend/Service.antt =====
-- backend/app/services/cache_client.py: its calls over a connection to the cache server.
use Prim.Native.String.{String}
use quark_cache.Common.{ℕ, Bool, true, false, ◌||◌, Option, none, some, List, same, if◌then◌else◌}
use quark_cache.Common.Text.{◌+++◌}
use quark_cache.Common.Text.Prefix.{strip_prefix}
use quark_cache.Server.{crlf}
use quark_cache.Engine.Lru.{Seconds}
use quark_cache.Backend.Client.{
  Result, ok, error, raised, read_line, set_line, get_line, del_line, set_result, get_result,
  del_result,
}
use quark_cache.Backend.Listing
use quark_cache.Backend.Listing.{Item, read_listing}

-- What the network brings: the bytes that `readline` gives of what comes back for the bytes that are sent on a
-- new connection; or the text of the error that the client raises for a connection that is refused, or
-- for a timeout; or an exception that the client does not catch, such as that of a connection that is reset
-- or of `readline` on a line beyond its limit.
pub record Network (S : Type 0) : Type 0 where
  pub exchange : String → S → Result String × S

-- `s.endswith("\r\n")`.
unfoldable pub ends_crlf : String → Bool
ends_crlf String.[] = false
ends_crlf (String.◌∷◌ c s) = let later = ends_crlf s in same (String.◌∷◌ c s) crlf || later

-- The bytes of a command.
unfoldable pub wire : String → String
unfolding ends_crlf
wire command = if ends_crlf command then command else command +++ crlf

-- `_send_command` of a command that is answered with one line.
unfoldable pub answered : Result String → Result String
unfolding read_line
answered (ok reply) = ok (read_line reply)
answered (error e) = error e
answered raised = raised

-- A call that succeeded goes on, and an error passes.
abbrev pub and_then : {A B : Type 0} → Result A → (A → Result B) → Result B
and_then (ok a) f = f a
and_then (error e) f = error e
and_then raised f = raised

module _ {S : Type 0} (network : Network S) where
  unfoldable pub send_command : String → S → Result String × S
  unfolding answered wire
  send_command command s =
      let (reply, s') = network.exchange (wire command) s in (answered reply, s')

  unfoldable pub set_key : String → String → Option ℕ → S → Result (Unit {0}) × S
  unfolding send_command set_result
  set_key key value ttl s =
      let (response, s') = send_command (set_line key value ttl) s in
      (and_then response set_result, s')

  unfoldable pub get_key : String → S → Result (Option String) × S
  unfolding send_command get_result
  get_key key s =
      let (response, s') = send_command (get_line key) s in (and_then response get_result, s')

  unfoldable pub delete_key : String → S → Result Bool × S
  unfolding send_command del_result
  delete_key key s =
      let (response, s') = send_command (del_line key) s in (and_then response del_result, s')

  -- `none` where the listing has no end, so that the call never returns.
  unfoldable pub list_keys : (String → Option Seconds) → S → Option (Result (List Item) × S)
  unfolding wire read_listing Listing.list_keys
  list_keys int s =
      let (reply, s') = network.exchange (wire "KEYS") s in
      elim reply [
        | error e ↦ some (error e, s')
        | raised ↦ some (raised, s')
        | ok r ↦ elim (read_listing r) [
          | none ↦ none
          | some text ↦ some (ok (Listing.list_keys int text), s')
        ]
      ]

  module _ {Raw : Type 0} (loads : String → Option Raw) where
    -- What `get_stats` makes of the response; `loads` is `json.loads`, `none` where it raises an error.
    unfoldable pub stats_result : String → Result Raw
    unfolding strip_prefix
    stats_result response = elim (strip_prefix "STATS " response) [
      | none ↦ error ("STATS failed: " +++ response)
      | some payload ↦ elim (loads payload) [
        | none ↦ error "Could not parse STATS JSON"
        | some raw ↦ ok raw
      ]
    ]

    unfoldable pub get_stats : S → Result Raw × S
    unfolding send_command stats_result
    get_stats s =
        let (response, s') = send_command "STATS" s in (and_then response stats_result, s')

    abbrev pub reached : {A : Type 0} → Result A → Result Bool
    reached (ok a) = ok true
    reached (error e) = ok false
    reached raised = raised

    unfoldable pub is_reachable : S → Result Bool × S
    unfolding get_stats
    is_reachable s = let (stats, s') = get_stats s in (reached stats, s')
