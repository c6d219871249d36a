-- ===== src/Backend/Routes.antt =====
-- backend/app/routers/keys.py and health.py with backend/app/models/schemas.py: the handlers of the API.
pub mod Flow
pub mod KeyList
pub mod Services
pub mod Router
pub mod Removal
pub mod Counters
pub mod Benchmark
use Prim.Native.String.{String}
use quark_cache.Common.{
  ℕ, suc, Bool, true, false, ◌&&◌, ◌||◌, Option, none, some, List, [], ◌∷◌, leb, ltb, length,
  truthy, if◌then◌else◌,
}
use quark_cache.Common.Text.{◌+++◌}
use quark_cache.Engine.Lru.{Seconds, plus, minus}
use quark_cache.Backend.Client.{Result, ok, error, raised}
use quark_cache.Backend.Listing.{Item}
use quark_cache.Backend.Service
use quark_cache.Backend.Service.{Network}

-- A response with its status, an `HTTPException` with its status and detail, or the framework's answer
-- to a body that its schema does not admit, or to an exception that nobody catches.
pub data Http (A : Type 0) : Type 0 where
  response : (status : ℕ) → A → Http A
  http_exception : (status : ℕ) (detail : String) → Http A
  unprocessable : Http A
  internal_error : Http A

pub record SetKeyRequest : Type 0 where
  pub key : String
  pub value : String
  pub ttl : Option ℕ

pub record KeyResponse : Type 0 where
  pub key : String
  pub value : String
  pub ttl_remaining : Option ℕ

pub record DeleteResponse : Type 0 where
  pub key : String
  pub deleted : Bool

pub record KeyListResponse : Type 0 where
  pub keys : List Item
  pub count : ℕ

pub record HealthResponse : Type 0 where
  pub status : String
  pub version : String
  pub cpp_server_reachable : Bool

-- The schema of `SetKeyRequest`, on the fields of a body: `min_length=1` and `ge=1`.
unfoldable pub set_key_request : String → String → Option Seconds → Option SetKeyRequest
set_key_request key value none =
    if truthy key then some (record { key = key; value = value; ttl = none }) else none
set_key_request key value (some (minus n)) = none
set_key_request key value (some (plus n)) =
    if truthy key && leb 1 n then some (record { key = key; value = value; ttl = some n }) else none

-- What a handler answers when a call of the client raises an error, and when it returns.
abbrev pub or_503 : {A B : Type 0} → Result A → (A → Http B) → Http B
or_503 (error e) f = http_exception 503 e
or_503 raised f = internal_error
or_503 (ok a) f = f a

-- What `get_key` answers when the client found, or did not find, the key.
abbrev pub found_key : String → Option String → Http KeyResponse
found_key key none = http_exception 404 ("Key '" +++ key +++ "' not found")
found_key key (some value) =
    response 200 (record { key = key; value = value; ttl_remaining = none })

module _ {S : Type 0} (network : Network S) where
  unfoldable pub set_key : String → String → Option Seconds → S → Http KeyResponse × S
  unfolding set_key_request Service.set_key
  set_key key value ttl s = elim (set_key_request key value ttl) [
    | none ↦ (unprocessable, s)
    | some body ↦
        let (result, s') = Service.set_key network body.key body.value body.ttl s in
        (
          or_503 result (λ done.
              response 201
                (record { key = body.key; value = body.value; ttl_remaining = body.ttl })),
          s',
        )
  ]

  unfoldable pub get_key : String → S → Http KeyResponse × S
  unfolding Service.get_key
  get_key key s =
      let (result, s') = Service.get_key network key s in (or_503 result (found_key key), s')

  unfoldable pub delete_key : String → S → Http DeleteResponse × S
  unfolding Service.delete_key
  delete_key key s =
      let (result, s') = Service.delete_key network key s in
      (or_503 result (λ deleted. response 200 (record { key = key; deleted = deleted })), s')

  -- `none` where the client's call never returns.
  unfoldable pub list_keys : (String → Option Seconds) → S → Option (Http KeyListResponse × S)
  unfolding Service.list_keys
  list_keys int s = elim (Service.list_keys network int s) [
    | none ↦ none
    | some (result, s') ↦
        some (
          or_503 result (λ items. response 200 (record { keys = items; count = length items })),
          s',
        )
  ]

  unfoldable pub health_check : {Raw : Type 0} → (String → Option Raw) → S → Http HealthResponse × S
  unfolding Service.is_reachable
  health_check loads s =
      let (reachable, s') = Service.is_reachable network loads s in
      (
        or_503 reachable (λ r.
            response 200 (record { status = "ok"; version = "1.0.0"; cpp_server_reachable = r })),
        s',
      )
