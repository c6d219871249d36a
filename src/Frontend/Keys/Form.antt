-- ===== src/Frontend/Keys/Form.antt =====
-- components/keys/KeyForm.tsx: the two forms, to set a key and to look one up.
use Prim.Native.String.{String}
use quark_cache.Common.{Bool, true, false, Option, none, some, List, [], ◌∷◌, truthy, if◌then◌else◌}
use quark_cache.Common.Text.{◌+++◌}
use quark_cache.Frontend.Js.{Js, parse_int, int_number}
use quark_cache.Frontend.Api.{Reply, ok, failed, KeyResponse, SetKeyRequest}

pub data Severity : Type 0 where
  success error : Severity

pub record Notice : Type 0 where
  pub type : Severity
  pub text : String

pub record State : Type 0 where
  pub set_key : String
  pub set_value : String
  pub set_ttl : String
  pub set_loading : Bool
  pub set_msg : Option Notice
  pub get_key : String
  pub get_loading : Bool
  pub get_result : Option KeyResponse
  pub get_error : Option String

abbrev pub initial : State
initial = record {
  set_key = "";
  set_value = "";
  set_ttl = "";
  set_loading = false;
  set_msg = none;
  get_key = "";
  get_loading = false;
  get_result = none;
  get_error = none;
}

module _ (js : Js) where
  -- A call, with the key that `handleSet` names in its message: the one on the form when it began.
  pub data Call : Type 0 where
    set : SetKeyRequest js.Number → Call
    get : (path : String) → Call

  abbrev pub Answer : Call → Type 0
  Answer (set body) = Unit {0}
  Answer (get path) = KeyResponse

  -- `handleSet`, up to its call: a TTL is sent if the field is not empty.
  unfoldable pub handle_set : State → State × List Call
  handle_set s = (
    record s { set_loading = true; set_msg = none },
    set (record {
      key = s.set_key;
      value = s.set_value;
      ttl = if truthy s.set_ttl then some (int_number js (parse_int false s.set_ttl)) else none;
    })
        ∷ [],
  )

  -- `handleGet`, up to its call.
  unfoldable pub handle_get : State → State × List Call
  handle_get s = (
    record s { get_loading = true; get_result = none; get_error = none },
    get ("/keys/" +++ js.encode_uri s.get_key) ∷ [],
  )

  -- What follows a reply; the flag says that `onKeySet` is called.
  unfoldable pub resume : (c : Call) → Reply (Answer c) → State → State × Bool
  resume (set body) (ok a) s = (
    record s {
      set_msg = some (record { type = success; text = "Key \"" +++ body.key +++ "\" stored." });
      set_loading = false;
    },
    true,
  )
  resume (set body) (failed d) s = (
    record s {
      set_msg = some (record { type = error; text = "Failed to set key." });
      set_loading = false;
    },
    false,
  )
  resume (get path) (ok a) s = (record s { get_result = some a; get_loading = false }, false)
  resume (get path) (failed d) s = (
    record s { get_error = some "Key not found or cache server unreachable."; get_loading = false },
    false,
  )
