-- ===== src/System/Keys.antt =====
-- The command KEYS of frontend/app/commands/page.tsx down to the entries of cpp_core/src/lru_cache.cpp.
use Prim.Native.String.{String}
use quark_cache.Common.{
  ℕ, ◌≡◌, refl, ap, true, some, List, [], ◌∷◌, map, All, truthy, if◌then◌else◌,
}
use quark_cache.Common.Text.{join}
use quark_cache.Engine.Lru
use quark_cache.Engine.Lru.{CacheEntry}
use quark_cache.Backend.Listing.Entries.{HasPlain, listed}
use quark_cache.Backend.Listing.Laws.{ReadsInts}
use quark_cache.Backend.Routes.KeyList.{IsListable, list_keys-all_entries}
use quark_cache.Frontend.Js.{Js}
use quark_cache.Frontend.Api.{ok}
use quark_cache.Frontend.Commands.{State, Call, begun, resume, respond, quoted}
use quark_cache.Frontend.Commands.Typed.{Means}
use quark_cache.System.{System, Wire, enter, key_names}
use quark_cache.System.Calls.{serve-keys}
use quark_cache.System.Repl.{Logged, typed, waiting, enter-Means}

-- The keys as the REPL shows them.
abbrev pub key_lines : List (String × CacheEntry) → String
key_lines es =
    let lines = join "\n" (map (λ p. quoted p.0) es) in if truthy lines then lines else "(empty)"

module _ (js : Js) (wire : Wire js) where
  open js use {Number}

  quoted-listed :
      (now : ℕ) (es : List (String × CacheEntry))
      → map quoted (key_names js (map (listed now) es)) ≡ map (λ p. quoted p.0) es
  quoted-listed now [] = refl
  quoted-listed now (e ∷ es) = ap (◌∷◌ (quoted e.0)) (quoted-listed now es)

  -- If the live keys and values of the cache hold no space and no line boundary, `int` reads the
  -- decimals of the protocol, the listing fits the socket and each of its lines the reader: the line
  -- `KEYS` that is typed into the REPL is logged with the live keys of the cache in its order, each in
  -- quotes on a line of its own, or with `(empty)`.
  pub enter-all_entries :
      (t0 t1 : Number) (ts : String) (s : State js) (sys : System)
      → wire.decode "/keys" ≡ "/keys"
      → ReadsInts wire.int
      → (let v = sys.server in All HasPlain (Lru.all_entries (v.clock v.served) v.store.lru))
      → (let v = sys.server in
          IsListable wire.room (v.clock v.served) (Lru.all_entries (v.clock v.served) v.store.lru))
      → (s1 : State js) × (sys1 : System) × (enter js wire t0 t1 ts "KEYS" (s, sys)
          ≡ some (s1, sys1))
        × (let v = sys.server in
            Logged js wire s s1 "KEYS"
              (key_lines (Lru.all_entries (v.clock v.served) v.store.lru))
              true)
  unfolding resume respond join
  enter-all_entries t0 t1 ts s sys plain reads h fits =
      let now = sys.server.clock sys.server.served in
      let es = Lru.all_entries now sys.server.store.lru in
      let (v', listing) = list_keys-all_entries wire.room wire.int sys.server reads h fits in
      let r = ok (key_names js (map (listed now) es)) in
      let s1 =
        resume js (waiting js wire "KEYS" t0 Call.keys) r t1 ts
          (begun js (typed js wire "KEYS" s)) in
      let sys1 : System = record { server = v'; window = sys.window } in
      (
        s1,
        sys1,
        enter-Means js wire t0 t1 ts ("KEYS" ∷ []) Call.keys s sys sys1 r Means.keys
            (serve-keys js wire _ sys v' plain listing),
        (_, refl, refl, rw (quoted-listed now es) refl, refl),
      )
