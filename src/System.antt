-- ===== src/System.antt =====
-- The program put together: the REPL of frontend/app/commands/page.tsx, the client of frontend/lib and the
-- proxy of next.config.ts, the routes of backend/app/routers, and the server of cpp_core. What lies between
-- them (HTTP, JSON, the decoding of paths) is an argument.
pub mod Calls
pub mod Repl
pub mod Keys
pub mod Removal
use Prim.Native.Char.{code}
use Prim.Native.String.{String}
use quark_cache.Common.{
  ℕ, Bool, true, false, not, ◌&&◌, ◌==◌, Option, none, some, List, [], ◌∷◌, map, same, truthy,
  if◌then◌else◌,
}
use quark_cache.Common.Text.{◌+++◌}
use quark_cache.Common.Text.Prefix.{strip_prefix}
use quark_cache.Engine.Lru.{Seconds}
use quark_cache.Server.{Server}
use quark_cache.Backend.Deployed.{limited}
use quark_cache.Backend.Listing.{Item}
use quark_cache.Backend.Metrics.{Raw, MetricsResponse}
use quark_cache.Backend.Metrics
use quark_cache.Backend.Routes
use quark_cache.Backend.Routes.{
  Http, response, http_exception, unprocessable, internal_error, KeyResponse, DeleteResponse,
  KeyListResponse,
}
use quark_cache.Backend.Routes.Services
use quark_cache.Backend.Routes.Router.{
  Method, get, post, delete, Endpoint, list_keys, set_key, get_key, delete_key, get_metrics,
  endpoint,
}
use quark_cache.Frontend.Js.{Js}
use quark_cache.Frontend.Api.{Reply, ok, failed}
use quark_cache.Frontend.Api
use quark_cache.Frontend.Shell.{request_path, rewrite, backend_or_default}
use quark_cache.Frontend.Commands.{State, Call, Answer, Pending, run, resume}

-- The bodies of the answers.
pub data Body : Type 0 where
  key : KeyResponse → Body
  deleted : DeleteResponse → Body
  keys : KeyListResponse → Body
  metrics : MetricsResponse → Body

abbrev pub with_body : {A B : Type 0} → (A → B) → Http A → Http B
with_body f (response status a) = response status (f a)
with_body f (http_exception status detail) = http_exception status detail
with_body f unprocessable = unprocessable
with_body f internal_error = internal_error

-- The cache server, and the variables of the metrics service.
pub record System : Type 0 where
  pub server : Server
  pub window : Metrics.State

abbrev pub then_with :
    {A : Type 0} → (A → Body) → Metrics.State → Http A × Server → Http Body × System
then_with f window (r, v) = (with_body f r, record { server = v; window = window })

-- The listing, unless it never returns.
abbrev pub if_returned :
    Metrics.State → Option (Http KeyListResponse × Server) → Option (Http Body × System)
if_returned window none = none
if_returned window (some result) = some (then_with keys window result)

module _ (js : Js) where
  open js use {Number, Json}

  -- What lies between the parts: the proxy's `BACKEND_URL`; the room in the
  -- socket of the cache server for a reply; the decoding of a path; the number that a TTL
  -- is read as, where JSON has not `null` for it; the text that the errors of a schema are shown as;
  -- `json.loads`, `int`, the reading of the metrics' clock, and their JSON.
  pub record Wire : Type 0 where
    pub backend_url : Option String
    pub room : ℕ
    pub decode : String → String
    pub ttl : Number → Option Seconds
    pub invalid : String
    pub loads : String → Option Raw
    pub int : String → Option Seconds
    pub now : System → ℕ
    pub metrics_json : MetricsResponse → Json

  abbrev pub method_of : Call js → Method
  method_of (Call.set body) = post
  method_of (Call.get path) = get
  method_of (Call.del path) = delete
  method_of Call.keys = get
  method_of Call.stats = get

  abbrev pub path_of : Call js → String
  path_of (Call.set body) = "/keys"
  path_of (Call.get path) = path
  path_of (Call.del path) = path
  path_of Call.keys = "/keys"
  path_of Call.stats = "/metrics"

  abbrev pub body_of : Call js → Option (Api.SetKeyRequest Number)
  body_of (Call.set body) = some body
  body_of (Call.get path) = none
  body_of (Call.del path) = none
  body_of Call.keys = none
  body_of Call.stats = none

  -- A key as JavaScript reads the body: the TTL of the routes is `null` or a number.
  abbrev pub key_answer : KeyResponse → Api.KeyResponse
  key_answer r = record { key = r.key; value = r.value; ttl_remaining = r.ttl_remaining }

  abbrev pub key_names : List Item → List String
  key_names items = map (λ i. i.key) items

  module _ (wire : Wire) where
    -- The path that the backend sees of a call.
    unfoldable pub backend_path : String → Option String
    unfolding request_path rewrite strip_prefix
    backend_path path = elim (rewrite wire.backend_url (request_path path)) [
      | none ↦ none
      | some url ↦ elim (strip_prefix (backend_or_default wire.backend_url) url) [
        | none ↦ none
        | some rest ↦ some (wire.decode rest)
      ]
    ]

    abbrev pub ttl_of : Option Number → Option Seconds
    ttl_of none = none
    ttl_of (some n) = wire.ttl n

    -- `none` where the call never returns.
    unfoldable pub serve_endpoint :
        Endpoint → Option (Api.SetKeyRequest Number) → System → Option (Http Body × System)
    unfolding Routes.list_keys Routes.set_key Routes.get_key Routes.delete_key Services.get_metrics
    serve_endpoint list_keys body sys =
        if_returned sys.window (Routes.list_keys (limited wire.room) wire.int sys.server)
    serve_endpoint set_key none sys = some (unprocessable, sys)
    serve_endpoint set_key (some body) sys = some (
        then_with key sys.window
          (Routes.set_key (limited wire.room) body.key body.value (ttl_of body.ttl) sys.server))
    serve_endpoint (get_key k) body sys =
        some (then_with key sys.window (Routes.get_key (limited wire.room) k sys.server))
    serve_endpoint (delete_key k) body sys =
        some (then_with deleted sys.window (Routes.delete_key (limited wire.room) k sys.server))
    serve_endpoint get_metrics body sys =
        let (r, (v, window)) =
          Services.get_metrics (limited wire.room) wire.loads (wire.now sys) sys.server
            sys.window in
        some (with_body metrics r, record { server = v; window = window })

    -- What the page reads of a body; `none` where the body is not of the call's kind.
    unfoldable pub answer : (c : Call js) → Body → Option (Answer js c)
    answer (Call.set body) b = some tt
    answer (Call.get path) b = elim b [
      | key r ↦ some (key_answer r)
      | deleted d ↦ none
      | keys l ↦ none
      | metrics m ↦ none
    ]
    answer (Call.del path) b = elim b [
      | key r ↦ none
      | deleted d ↦ some d.deleted
      | keys l ↦ none
      | metrics m ↦ none
    ]
    answer Call.keys b = elim b [
      | key r ↦ none
      | deleted d ↦ none
      | keys l ↦ some (key_names l.keys)
      | metrics m ↦ none
    ]
    answer Call.stats b = elim b [
      | key r ↦ none
      | deleted d ↦ none
      | keys l ↦ none
      | metrics m ↦ some (wire.metrics_json m)
    ]

    -- The client resolves a response, and rejects what has an error's status, with its detail.
    unfoldable pub reply : (c : Call js) → Http Body → Option (Reply (Answer js c))
    unfolding answer
    reply c (response status b) = elim (answer c b) [ none ↦ none | some a ↦ some (ok a) ]
    reply c (http_exception status detail) = some (failed (some detail))
    reply c unprocessable = some (failed (some wire.invalid))
    reply c internal_error = some (failed none)

    abbrev pub read :
        (c : Call js) → Option (Http Body × System) → Option (Reply (Answer js c) × System)
    read c none = none
    read c (some (r, sys)) = elim (reply c r) [ none ↦ none | some a ↦ some (a, sys) ]

    -- A call whose endpoint, and whose path at the backend, are looked up.
    abbrev pub dispatched :
        (c : Call js) → System → Option Endpoint → Option (Reply (Answer js c) × System)
    dispatched c sys none = none
    dispatched c sys (some e) = read c (serve_endpoint e (body_of c) sys)

    abbrev pub arrived :
        (c : Call js) → System → Option String → Option (Reply (Answer js c) × System)
    arrived c sys none = none
    arrived c sys (some path) = dispatched c sys (endpoint (method_of c) path)

    -- A call from the page to its reply. `none` is outside of this account: no endpoint takes the call,
    -- it never returns, or its body is not of the call's kind.
    unfoldable pub serve : (c : Call js) → System → Option (Reply (Answer js c) × System)
    unfolding backend_path endpoint serve_endpoint reply
    serve c sys = arrived c sys (backend_path (path_of c))

    abbrev pub resumed :
        (p : Pending js)
        → Number
        → String
        → State js
        → Option (Reply (Answer js p.request) × System)
        → Option (State js × System)
    resumed p t1 ts s none = none
    resumed p t1 ts s (some (r, sys)) = some (resume js p r t1 ts s, sys)

    -- What follows when the line has been looked at.
    abbrev pub proceeded :
        Number → String → System → State js × Option (Pending js) → Option (State js × System)
    proceeded t1 ts sys (s, none) = some (s, sys)
    proceeded t1 ts sys (s, some p) = resumed p t1 ts s (serve p.request sys)

    -- A line that is typed into the REPL and run to its end.
    unfoldable pub enter :
        Number → Number → String → String → State js × System → Option (State js × System)
    unfolding run resume serve
    enter t0 t1 ts line (s, sys) = proceeded t1 ts sys (run js t0 t1 ts (record s { input = line }))
