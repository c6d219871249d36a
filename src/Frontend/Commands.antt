-- ===== src/Frontend/Commands.antt =====
-- app/commands/page.tsx: the REPL. `run` is split where it waits for the server: what it does up
-- to the call, and what it does with the reply. The clock's readings and the time of day come with
-- the event; scrolling is left out.
pub mod View
pub mod Flight
pub mod Typed
pub mod Words
pub mod Log
use Prim.Native.String.{String}
use quark_cache.Common.{
  ℕ, zero, suc, Bool, true, false, not, ◌||◌, Option, none, some, List, [], ◌∷◌, ◌++◌, map, last_n,
  truthy, same, if◌then◌else◌,
}
use quark_cache.Common.Text.{◌+++◌, trim, split_spaces, join, show}
use quark_cache.Frontend.Js.{Js, parse_int, int_number}
use quark_cache.Frontend.Api.{Reply, ok, failed, KeyResponse, SetKeyRequest}

-- `parts[i] ?? ""`.
abbrev pub part : ℕ → List String → String
part i [] = ""
part zero (p ∷ ps) = p
part (suc i) (p ∷ ps) = part i ps

abbrev pub quoted : String → String
quoted s = "\"" +++ s +++ "\""

module _ (js : Js) where
  open js use {Number, sub, round, to_upper, encode_uri, Json, stringify}

  pub record LogEntry : Type 0 where
    pub id : ℕ
    pub cmd : String
    pub response : String
    pub ok : Bool
    pub ms : Number
    pub ts : String

  -- The component's state, and the module's counter `seq`, which runs of pages that were left count on too:
  -- View.Clock says by how much.
  pub record State : Type 0 where
    pub input : String
    pub log : List LogEntry
    pub loading : Bool
    pub hint : Option String
    pub seq : ℕ

  -- The call that a command waits for; `path` is the one that the client is given.
  pub data Call : Type 0 where
    set : SetKeyRequest Number → Call
    get : (path : String) → Call
    del : (path : String) → Call
    keys : Call
    stats : Call

  -- What each call answers: nothing that is read, the key, `deleted`, the listed keys, the metrics.
  abbrev pub Answer : Call → Type 0
  Answer (set body) = Unit {0}
  Answer (get path) = KeyResponse
  Answer (del path) = Bool
  Answer keys = List String
  Answer stats = Json

  -- What `run` decides before it waits.
  pub data Plan : Type 0 where
    call : Call → Plan
    say : (response : String) (ok : Bool) (hint : Option String) → Plan
    clear : Plan

  -- What `run` has kept when it waits: the line, the clock's reading, the call.
  pub record Pending : Type 0 where
    pub raw : String
    pub t0 : Number
    pub request : Call

  abbrev pub key_path : String → String
  key_path key = "/keys/" +++ encode_uri key

  -- The branches `SET`: `key`, `value` and `ttl` are `undefined` where parts are missing.
  unfoldable pub plan_set : List String → Plan
  plan_set parts =
      let key = part 1 parts in
      let value = part 2 parts in
      let ttl = part 3 parts in
      if not (truthy key) || not (truthy value)
      then say "Usage: SET <key> <value> [ttl]" false none
      else call (
          set (record {
            key = key;
            value = value;
            ttl = if truthy ttl then some (int_number js (parse_int true ttl)) else none;
          }))

  unfoldable pub plan : String → List String → Plan
  unfolding plan_set
  plan cmd parts =
      if same cmd "SET"
      then plan_set parts
      else if same cmd "GET"
      then call (get (key_path (part 1 parts)))
      else if same cmd "DEL"
      then call (del (key_path (part 1 parts)))
      else if same cmd "KEYS"
      then call keys
      else if same cmd "STATS"
      then call stats
      else if same cmd "HELP"
      then say
          "Commands: SET <key> <value> [ttl]  |  GET <key>  |  DEL <key>  |  KEYS  |  STATS  |  CLEAR"
          true none
      else if same cmd "CLEAR"
      then clear
      else say ("ERR unknown command '" +++ part 0 parts +++ "'") false
          (some "Try: SET mykey hello 60  |  GET mykey  |  DEL mykey  |  KEYS  |  STATS")

  -- The response to an answer.
  unfoldable pub respond : (c : Call) → Answer c → String
  unfolding join show
  respond (set body) a = "OK"
  respond (get path) a =
      quoted a.value
      +++ (elim a.ttl_remaining [ none ↦ "" | some ttl ↦ " (TTL: " +++ show ttl +++ "s)" ])
  respond (del path) deleted = if deleted then "1" else "0"
  respond keys listed =
      let lines = join "\n" (map quoted listed) in if truthy lines then lines else "(empty)"
  respond stats data' = stringify data'

  -- `addLog`.
  unfoldable pub add_log : LogEntry → State → State
  add_log entry s = record s { log = last_n 199 s.log ++ entry ∷ [] }

  -- The last two lines of `run`.
  unfoldable pub finish : String → Number → Number → String → String → Bool → State → State
  unfolding add_log
  finish raw t0 t1 ts response good s =
      let entry : LogEntry = record {
        id = suc s.seq;
        cmd = raw;
        response = response;
        ok = good;
        ms = round (sub t1 t0);
        ts = ts;
      } in
      let s' = add_log entry (record s { seq = suc s.seq }) in record s' { loading = false }

  -- After the call: the answer, or the `catch` branch.
  unfoldable pub resume : (p : Pending) → Reply (Answer p.request) → Number → String → State → State
  unfolding respond finish
  resume p (ok a) t1 ts s = finish p.raw p.t0 t1 ts (respond p.request a) true s
  resume p (failed detail) t1 ts s =
      finish p.raw p.t0 t1 ts ("ERR " +++ (elim detail [ none ↦ "server error" | some d ↦ d ]))
        false s

  -- The state in which the command is looked at.
  abbrev pub begun : State → State
  begun s = record s { input = ""; loading = true; hint = none }

  -- What follows from a plan, in the same turn of the event loop or by a call that is sent.
  unfoldable pub carry_out :
      String → Number → Number → String → Plan → State → State × Option Pending
  unfolding finish
  carry_out raw t0 t1 ts (call c) s = (s, some (record { raw = raw; t0 = t0; request = c }))
  carry_out raw t0 t1 ts clear s = (record s { log = []; loading = false }, none)
  carry_out raw t0 t1 ts (say response good hint) s =
      (finish raw t0 t1 ts response good (record s { hint = hint }), none)

  -- `run`, up to its first wait.
  unfoldable pub run : Number → Number → String → State → State × Option Pending
  unfolding carry_out plan trim split_spaces
  run t0 t1 ts s =
      let raw = trim s.input in
      let parts = split_spaces raw in
      if truthy raw
      then carry_out raw t0 t1 ts (plan (to_upper (part 0 parts)) parts) (begun s)
      else (s, none)
