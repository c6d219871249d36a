-- ===== src/System/Removal.antt =====
-- The command DEL of frontend/app/commands/page.tsx down to cpp_core/src/lru_cache.cpp.
use Prim.Native.String.{String}
use quark_cache.Common.{◌≤◌, ◌≡◌, refl, true, false, none, some, is_some, [], ◌∷◌, if◌then◌else◌}
use quark_cache.Common.Text.{◌+++◌, join}
use quark_cache.Common.Text.Words.{IsWord}
use quark_cache.Engine.Promise.{Recency, Shows, entry_of}
use quark_cache.Backend.Routes.Router.{no_slash}
use quark_cache.Backend.Routes.Removal.{delete_key-get_key}
use quark_cache.Frontend.Js.{Js}
use quark_cache.Frontend.Api.{ok}
use quark_cache.Frontend.Commands.{State, Call, begun, resume, respond, key_path}
use quark_cache.Frontend.Commands.Typed.{Means}
use quark_cache.System.{System, Wire, enter}
use quark_cache.System.Calls.{IsToken-IsWord, looked_up, serve-get, serve-del}
use quark_cache.System.Repl.{Logged, shown, typed, waiting, enter-Means, looked_up-Logged}

module _ (js : Js) (wire : Wire js) where
  open js use {Number}

  -- On a server whose cache is well-formed, the line `DEL key` that is typed into the REPL is logged with 1
  -- if the cache holds the key and with 0 if not; and the line `GET key` that is typed next is logged as
  -- an error that the key was not found. The key is a word without a slash, the decoding of paths
  -- undoes the coding, and the socket has room for the replies.
  pub enter-del_get :
      (t0 t1 t2 t3 : Number) (ts ts' key : String) (s : State js) (sys : System) (rs : Recency)
      → IsWord key
      → no_slash key ≡ true
      → wire.decode (key_path js key) ≡ "/keys/" +++ key
      → Shows sys.server.store.lru rs
      → 11 ≤ wire.room
      → (s1 : State js) × (sys1 : System) × (s2 : State js) × (sys2 : System) × (enter js wire t0 t1
            ts
            (join " " ("DEL" ∷ key ∷ []))
            (s, sys)
          ≡ some (s1, sys1))
        × (enter js wire t2 t3 ts' (join " " ("GET" ∷ key ∷ [])) (s1, sys1) ≡ some (s2, sys2))
        × Logged js wire s s1
            (join " " ("DEL" ∷ key ∷ []))
            (if is_some (entry_of key rs) then "1" else "0")
            true
        × Logged js wire s1 s2 (join " " ("GET" ∷ key ∷ [])) (shown js wire key none) false
  unfolding resume respond
  enter-del_get t0 t1 t2 t3 ts ts' key s sys rs h bare coded shows wide =
      let del_line = join " " ("DEL" ∷ key ∷ []) in
      let get_line = join " " ("GET" ∷ key ∷ []) in
      let (v', deleted, found) =
        delete_key-get_key wire.room sys.server rs key shows (IsToken-IsWord key h) wide in
      let sys1 : System = record { server = v'; window = sys.window } in
      let s1 =
        resume js (waiting js wire del_line t0 (Call.del (key_path js key)))
          (ok (is_some (entry_of key rs))) t1 ts (begun js (typed js wire del_line s)) in
      let s2 =
        resume js (waiting js wire get_line t2 (Call.get (key_path js key)))
          (looked_up js wire key none) t3 ts' (begun js (typed js wire get_line s1)) in
      (
        s1,
        sys1,
        s2,
        _,
        enter-Means js wire t0 t1 ts ("DEL" ∷ key ∷ []) (Call.del (key_path js key)) s sys sys1 _
            (Means.del h) (serve-del js wire key _ sys v' h bare coded deleted),
        enter-Means js wire t2 t3 ts' ("GET" ∷ key ∷ []) (Call.get (key_path js key)) s1 sys1 _
            (looked_up js wire key none) (Means.get h)
            (serve-get js wire key none sys1 h bare coded found),
        (_, refl, refl, refl, refl),
        looked_up-Logged js wire t2 t3 ts' get_line key none s1,
      )
