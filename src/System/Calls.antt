-- ===== src/System/Calls.antt =====
-- The calls of frontend/app/commands/page.tsx on their way through frontend/next.config.ts to the routes of
-- backend/app/routers/keys.py, and the replies.
use Prim.Native.String.{String}
use text.Mathlib.TextLemmas.{append_assoc}
use quark_cache.Common.{◌≡◌, refl, sym, ap, ◌∙◌, true, Option, none, some, arith}
use quark_cache.Common.Text.{◌+++◌, is_space}
use quark_cache.Common.Text.Words.{NoSpace, IsWord}
use quark_cache.Common.Text.Prefix.{strip_prefix, strip_prefix-append}
use quark_cache.Engine.{same-ne}
use quark_cache.Server.{Server, is_blank}
use quark_cache.Server.Wire.{NoBlank, IsToken}
use quark_cache.Backend.Deployed.{limited}
use quark_cache.Backend.Routes
use quark_cache.Backend.Routes.{
  Http, response, KeyResponse, KeyListResponse, DeleteResponse, found_key,
}
use quark_cache.Frontend.Js.{Js}
use quark_cache.Frontend.Api
use quark_cache.Frontend.Api.{Reply, ok, failed}
use quark_cache.Frontend.Shell.{backend_or_default}
use quark_cache.Frontend.Shell.Laws.{rewrite-request_path}
use quark_cache.Frontend.Commands.{Call, key_path}
use quark_cache.Backend.Routes.Router.{Method, Endpoint, endpoint, no_slash}
use quark_cache.System.{
  System, Wire, Body, backend_path, serve_endpoint, reply, answer, read, serve, arrived, dispatched,
  then_with, if_returned, ttl_of, key_names,
}

NoBlank-NoSpace : (s : String) → NoSpace s → NoBlank s
unfolding is_space is_blank
NoBlank-NoSpace String.[] h = tt
NoBlank-NoSpace (String.◌∷◌ c s) (x, h) = (ground arith, NoBlank-NoSpace s h)

-- What JavaScript takes for a word is one for the server.
pub IsToken-IsWord : (s : String) → IsWord s → IsToken s
IsToken-IsWord s (h, k) = (NoBlank-NoSpace s h, k)

endpoint-get_key :
    (key : String)
    → IsWord key
    → no_slash key ≡ true
    → endpoint Method.get ("/keys/" +++ key) ≡ some (Endpoint.get_key key)
unfolding endpoint
endpoint-get_key key h k =
    rw (endpoint, strip_prefix-append "/keys/" key, same-ne key "" h.1, k) refl

endpoint-delete_key :
    (key : String)
    → IsWord key
    → no_slash key ≡ true
    → endpoint Method.delete ("/keys/" +++ key) ≡ some (Endpoint.delete_key key)
unfolding endpoint
endpoint-delete_key key h k =
    rw (endpoint, strip_prefix-append "/keys/" key, same-ne key "" h.1, k) refl

endpoint-set_key : endpoint Method.post "/keys" ≡ some Endpoint.set_key
unfolding endpoint strip_prefix
endpoint-set_key = refl

endpoint-list_keys : endpoint Method.get "/keys" ≡ some Endpoint.list_keys
unfolding endpoint strip_prefix
endpoint-list_keys = refl

module _ (js : Js) (wire : Wire js) where
  open js use {Number, encode_uri}

  -- A call's path comes to the backend as it was, but for the decoding.
  backend_path-decode :
      (p : String) → backend_path js wire ("/" +++ p) ≡ some (wire.decode ("/" +++ p))
  unfolding backend_path
  backend_path-decode p =
      rw
        (
          backend_path,
          rewrite-request_path wire.backend_url p,
          strip_prefix-append (backend_or_default wire.backend_url) ("/" +++ p),
        )
        refl

  abbrev pub set_call : String → String → Option Number → Call js
  set_call key value ttl = Call.set (record { key = key; value = value; ttl = ttl })

  -- A `POST` that the route answers with 201 is resolved.
  pub serve-set :
      (key value : String) (ttl : Option Number) (body : KeyResponse) (sys : System) (v : Server)
      → wire.decode "/keys" ≡ "/keys"
      → Routes.set_key (limited wire.room) key value (ttl_of js wire ttl) sys.server
        ≡ (response 201 body, v)
      → serve js wire (set_call key value ttl) sys
        ≡ some (ok tt, record { server = v; window = sys.window })
  unfolding serve serve_endpoint reply answer
  serve-set key value ttl body sys v plain e =
      let c = set_call key value ttl in
      ap (arrived js wire c sys) (backend_path-decode "keys" ∙ ap some plain)
      ∙ ap (dispatched js wire c sys) endpoint-set_key
      ∙ ap (λ r. read js wire c (some (then_with Body.key sys.window r))) e

  -- What a look-up is shown as.
  abbrev pub looked_up : (key : String) → Option String → Reply (Api.KeyResponse)
  looked_up key none = failed (some ("Key '" +++ key +++ "' not found"))
  looked_up key (some value) = ok (record { key = key; value = value; ttl_remaining = none })

  read-found_key :
      (key : String) (o : Option String) (v : Server) (sys : System)
      → read js wire
          (Call.get (key_path js key))
          (some (then_with Body.key sys.window (found_key key o, v)))
        ≡ some (looked_up key o, record { server = v; window = sys.window })
  unfolding reply answer
  read-found_key key none v sys = refl
  read-found_key key (some value) v sys = refl

  backend_path-key_path :
      (key : String)
      → wire.decode (key_path js key) ≡ "/keys/" +++ key
      → backend_path js wire (key_path js key) ≡ some ("/keys/" +++ key)
  backend_path-key_path key coded =
      ap (backend_path js wire) (append_assoc "/" "keys/" (encode_uri key))
      ∙ backend_path-decode ("keys/" +++ encode_uri key)
      ∙ ap (λ p. some (wire.decode p)) (sym (append_assoc "/" "keys/" (encode_uri key)))
      ∙ ap some coded

  pub serve-get :
      (key : String) (o : Option String) (sys : System)
      → IsWord key
      → no_slash key ≡ true
      → wire.decode (key_path js key) ≡ "/keys/" +++ key
      → (Routes.get_key (limited wire.room) key sys.server).0 ≡ found_key key o
      → serve js wire (Call.get (key_path js key)) sys
        ≡ some (
          looked_up key o,
          record {
            server = (Routes.get_key (limited wire.room) key sys.server).1;
            window = sys.window;
          },
        )
  unfolding serve serve_endpoint
  serve-get key o sys h k coded e =
      let c = Call.get (key_path js key) in
      let (r, v) = Routes.get_key (limited wire.room) key sys.server in
      ap (arrived js wire c sys) (backend_path-key_path key coded)
      ∙ ap (dispatched js wire c sys) (endpoint-get_key key h k)
      ∙ ap (λ r. read js wire c (some (then_with Body.key sys.window (r, v)))) e
      ∙ read-found_key key o v sys

  pub serve-keys :
      (l : KeyListResponse) (sys : System) (v : Server)
      → wire.decode "/keys" ≡ "/keys"
      → Routes.list_keys (limited wire.room) wire.int sys.server ≡ some (response 200 l, v)
      → serve js wire Call.keys sys
        ≡ some (ok (key_names js l.keys), record { server = v; window = sys.window })
  unfolding serve serve_endpoint reply answer
  serve-keys l sys v plain e =
      ap (arrived js wire Call.keys sys) (backend_path-decode "keys" ∙ ap some plain)
      ∙ ap (dispatched js wire Call.keys sys) endpoint-list_keys
      ∙ ap (λ r. read js wire Call.keys (if_returned sys.window r)) e

  pub serve-del :
      (key : String) (body : DeleteResponse) (sys : System) (v : Server)
      → IsWord key
      → no_slash key ≡ true
      → wire.decode (key_path js key) ≡ "/keys/" +++ key
      → Routes.delete_key (limited wire.room) key sys.server ≡ (response 200 body, v)
      → serve js wire (Call.del (key_path js key)) sys
        ≡ some (ok body.deleted, record { server = v; window = sys.window })
  unfolding serve serve_endpoint reply answer
  serve-del key body sys v h k coded e =
      let c = Call.del (key_path js key) in
      ap (arrived js wire c sys) (backend_path-key_path key coded)
      ∙ ap (dispatched js wire c sys) (endpoint-delete_key key h k)
      ∙ ap (λ r. read js wire c (some (then_with Body.deleted sys.window r))) e
