-- ===== src/Frontend/Keys.antt =====
-- The key explorer: app/keys/page.tsx with components/keys/KeyForm.tsx and KeyTable.tsx. Each
-- handler is cut where it waits.
pub mod Form
pub mod Table
pub mod View
pub mod Offers
pub mod Calls
pub mod Flight
use Prim.Native.String.{String}
use quark_cache.Common.{Bool, true, false, Option, none, some, List, [], ◌∷◌}
use quark_cache.Common.Text.{◌+++◌}
use quark_cache.Frontend.Api.{Reply, ok, failed, KeyListItem, KeyListResponse, DeleteResponse}

pub record State : Type 0 where
  pub keys : List KeyListItem
  pub loading : Bool
  pub error : Option String
  pub snack : Option String

-- The calls: `GET /keys`, and `DELETE /keys/…` for a key.
pub data Call : Type 0 where
  fetch : Call
  delete : (key : String) → Call

abbrev pub Answer : Call → Type 0
Answer fetch = KeyListResponse
Answer (delete key) = DeleteResponse

abbrev pub initial : State
initial = record { keys = []; loading = true; error = none; snack = none }

-- `fetchKeys`, up to its call.
unfoldable pub fetch_keys : State → State × List Call
fetch_keys s = (record s { loading = true }, fetch ∷ [])

-- `handleDelete(key)`, up to its call.
unfoldable pub handle_delete : String → State → State × List Call
handle_delete key s = (s, delete key ∷ [])

-- What follows a reply. A key that is deleted makes the page load the keys again.
unfoldable pub resume : (c : Call) → Reply (Answer c) → State → State × List Call
unfolding fetch_keys
resume fetch (ok a) s = (record s { keys = a.keys; error = none; loading = false }, [])
resume fetch (failed d) s = (
  record s { error = some "Could not load keys — is the cache server running?"; loading = false },
  [],
)
resume (delete key) (ok a) s =
    fetch_keys (record s { snack = some ("Deleted \"" +++ key +++ "\"") })
resume (delete key) (failed d) s =
    (record s { snack = some ("Failed to delete \"" +++ key +++ "\"") }, [])
