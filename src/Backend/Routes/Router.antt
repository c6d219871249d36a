-- ===== src/Backend/Routes/Router.antt =====
-- backend/app/routers/keys.py and metrics.py: the endpoint that takes a request, by its method and path.
use Prim.Native.Char.{code}
use Prim.Native.String.{String}
use quark_cache.Common.{
  Bool, true, not, ◌&&◌, ◌==◌, Option, none, some, same, truthy, if◌then◌else◌,
}
use quark_cache.Common.Text.Prefix.{strip_prefix}

pub data Method : Type 0 where
  get : Method
  post : Method
  delete : Method

-- The endpoints of the routers `/keys` and `/metrics`.
pub data Endpoint : Type 0 where
  list_keys : Endpoint
  set_key : Endpoint
  get_key : (key : String) → Endpoint
  delete_key : (key : String) → Endpoint
  get_metrics : Endpoint

-- A parameter of a path holds no slash.
unfoldable pub no_slash : String → Bool
no_slash String.[] = true
no_slash (String.◌∷◌ c s) = not (code c == b'/') && no_slash s

abbrev pub on_key : Method → String → Option Endpoint
on_key get key = some (get_key key)
on_key post key = none
on_key delete key = some (delete_key key)

abbrev pub on_keys : Method → Option Endpoint
on_keys get = some list_keys
on_keys post = some set_key
on_keys delete = none

abbrev pub on_metrics : Method → Option Endpoint
on_metrics get = some get_metrics
on_metrics post = none
on_metrics delete = none

-- The endpoint of a decoded path; `none` where these routers have none.
unfoldable pub endpoint : Method → String → Option Endpoint
unfolding no_slash strip_prefix
endpoint m path = elim (strip_prefix "/keys/" path) [
  | some key ↦ if truthy key && no_slash key then on_key m key else none
  | none ↦
      if same path "/keys" then on_keys m else if same path "/metrics" then on_metrics m else none
]
