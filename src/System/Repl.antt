-- ===== src/System/Repl.antt =====
-- The REPL of frontend/app/commands/page.tsx down to cpp_core/src/lru_cache.cpp: what is typed, and what is
-- shown.
use Prim.Native.String.{String}
use text.Mathlib.TextLemmas.{append-nil}
use quark_cache.Common.{
  ℕ, suc, ◌≡◌, refl, ap, subst, ◌∙◌, Bool, true, false, not, Option, none, some, is_some, List, [],
  ◌∷◌, ◌++◌, last_n, if◌then◌else◌,
}
use quark_cache.Common.Text.{◌+++◌, join}
use quark_cache.Common.Text.Words.{IsWord}
use quark_cache.Engine.Lru.{plus}
use quark_cache.Engine.Answers.{has_passed, IsInTime}
use quark_cache.Engine.Promise.{Recency, Shows}
use quark_cache.Backend.Exchange.{IsTtl, whole_ttl}
use quark_cache.Backend.Deployed.{limited}
use quark_cache.Backend.Routes
use quark_cache.Backend.Routes.{Http, response, KeyResponse, found_key}
use quark_cache.Backend.Routes.Flow.{IsRoom, set_key-get_key}
use quark_cache.Frontend.Js.{Js, parse_int, int_number}
use quark_cache.Frontend.Api.{Reply, ok}
use quark_cache.Frontend.Commands.{
  State, LogEntry, Call, Answer, Pending, begun, resume, key_path, quoted,
}
use quark_cache.Frontend.Commands.Typed.{Means, run-Means}
use quark_cache.Backend.Routes.Router.{no_slash}
use quark_cache.System.{System, Wire, serve, resumed, proceeded, enter, ttl_of}
use quark_cache.System.Calls.{IsToken-IsWord, set_call, looked_up, serve-set, serve-get}

is_some-choice : (b : Bool) (value : String) → is_some (if b then none else some value) ≡ not b
is_some-choice true value = refl
is_some-choice false value = refl

module _ (js : Js) (wire : Wire js) where
  open js use {Number, encode_uri}

  -- The state that a line is typed into, and what the page keeps of a call that the line sends.
  abbrev pub typed : String → State js → State js
  typed line s = record s { input = line }

  abbrev pub waiting : String → Number → Call js → Pending js
  waiting line t0 c = record { raw = line; t0 = t0; request = c }

  -- A line that means a call which is served, is run to its end.
  pub enter-Means :
      (t0 t1 : Number) (ts : String) (ws : List String) (c : Call js) (s : State js)
      (sys sys' : System) (r : Reply (Answer js c))
      → Means js t0 t1 ts (typed (join " " ws) s) ws c
      → serve js wire c sys ≡ some (r, sys')
      → enter js wire t0 t1 ts (join " " ws) (s, sys)
        ≡ some (
          resume js (waiting (join " " ws) t0 c) r t1 ts (begun js (typed (join " " ws) s)),
          sys',
        )
  unfolding enter
  enter-Means t0 t1 ts ws c s sys sys' r means served =
      let line = join " " ws in
      let begins = run-Means js t0 t1 ts (typed line s) means refl in
      ap (proceeded js wire t1 ts sys) begins
      ∙ ap (resumed js wire (waiting line t0 c) t1 ts (begun js (typed line s))) served

  -- A line is logged with its response, behind what the log keeps.
  abbrev pub Logged : State js → State js → String → String → Bool → Type 0
  Logged s s' line text good =
      (e : LogEntry js) × (s'.log ≡ last_n 199 s.log ++ e ∷ [])
      × (e.cmd ≡ line)
      × (e.response ≡ text)
      × (e.ok ≡ good)

  abbrev pub set_words : String → String → Option String → List String
  set_words key value none = "SET" ∷ key ∷ value ∷ []
  set_words key value (some ttl) = "SET" ∷ key ∷ value ∷ ttl ∷ []

  -- The TTL of a line: none, or a word that reaches the backend as a number of seconds that the schema
  -- admits and the server can read.
  abbrev pub Carries : Option String → Option ℕ → Type 0
  Carries none none = Unit
  Carries none (some n) = ⊥
  Carries (some t) none = ⊥
  Carries (some t) (some n) =
      IsWord t × (wire.ttl (int_number js (parse_int true t)) ≡ some (plus n)) × IsTtl (some n)

  set_words-Means :
      (t0 t1 : Number) (ts : String) (key value : String) (t : Option String) (n : Option ℕ)
      (s : State js)
      → IsWord key
      → IsWord value
      → Carries t n
      → (m : Option Number) × (ttl_of js wire m ≡ whole_ttl n)
        × IsTtl n
        × Means js t0 t1 ts s (set_words key value t) (set_call js wire key value m)
  set_words-Means t0 t1 ts key value none none s h k c = (none, refl, tt, Means.set h k)
  set_words-Means t0 t1 ts key value none (some n) s h k c = absurd c
  set_words-Means t0 t1 ts key value (some t) none s h k c = absurd c
  set_words-Means t0 t1 ts key value (some t) (some n) s h k (w, e, i) =
      (some (int_number js (parse_int true t)), e, i, Means.set_ttl h k w)

  -- What the REPL shows of a look-up.
  abbrev pub shown : String → Option String → String
  shown key none = "ERR " +++ "Key '" +++ key +++ "' not found"
  shown key (some value) = quoted value

  pub looked_up-Logged :
      (t0 t1 : Number) (ts line key : String) (o : Option String) (s : State js)
      → Logged s
          (resume js
            (waiting line t0 (Call.get (key_path js key)))
            (looked_up js wire key o)
            t1
            ts
            (begun js (typed line s)))
          line
          (shown key o)
          (is_some o)
  unfolding resume
  looked_up-Logged t0 t1 ts line key none s = (_, refl, refl, refl, refl)
  looked_up-Logged t0 t1 ts line key (some value) s = (_, refl, refl, append-nil _, refl)

  -- On a server whose cache is well-formed, a line `SET key value [ttl]` of words that is typed into the
  -- REPL, its TTL a number that the backend reads and admits, is logged with `OK`; and the line `GET key`
  -- that is typed next is logged with the value in quotes while fewer nanoseconds have passed than the TTL
  -- has, and then as an error that the key was not found. The key holds no slash, the decoding of paths
  -- undoes the coding, the times are within 64 bits, the socket has room for the replies, and the line of the
  -- value is within the reader's limit.
  pub enter-set_get :
      (t0 t1 t2 t3 : Number) (ts ts' key value : String) (t : Option String) (n : Option ℕ)
      (s : State js) (sys : System) (rs : Recency)
      → IsWord key
      → IsWord value
      → Carries t n
      → (let v = sys.server in IsInTime (v.clock v.served) (whole_ttl n))
      → IsRoom wire.room value
      → no_slash key ≡ true
      → wire.decode "/keys" ≡ "/keys"
      → wire.decode (key_path js key) ≡ "/keys/" +++ key
      → Shows sys.server.store.lru rs
      → (s1 : State js) × (sys1 : System) × (s2 : State js) × (sys2 : System) × (enter js wire t0 t1
            ts
            (join " " (set_words key value t))
            (s, sys)
          ≡ some (s1, sys1))
        × (enter js wire t2 t3 ts' (join " " ("GET" ∷ key ∷ [])) (s1, sys1) ≡ some (s2, sys2))
        × Logged s s1 (join " " (set_words key value t)) "OK" true
        × (let v = sys.server in
            let old = has_passed (v.clock v.served) (v.clock (suc v.served)) (whole_ttl n) in
            Logged s1 s2
              (join " " ("GET" ∷ key ∷ []))
              (shown key (if old then none else some value))
              (not old))
  unfolding resume
  enter-set_get t0 t1 t2 t3 ts ts' key value t n s sys rs h k c in_time wide bare plain coded
        shows =
      let v = sys.server in
      let old = has_passed (v.clock v.served) (v.clock (suc v.served)) (whole_ttl n) in
      let line = join " " (set_words key value t) in
      let (m, same_ttl, admitted, means) =
        set_words-Means t0 t1 ts key value t n (typed line s) h k c in
      let (v', stored, found) =
        set_key-get_key wire.room v rs key value n shows (IsToken-IsWord key h)
          (IsToken-IsWord value k) admitted in_time wide in
      let sys1 : System = record { server = v'; window = sys.window } in
      let s1 =
        resume js (waiting line t0 (set_call js wire key value m)) (ok tt) t1 ts
          (begun js (typed line s)) in
      let o = if old then none else some value in
      let get_line = join " " ("GET" ∷ key ∷ []) in
      let s2 =
        resume js (waiting get_line t2 (Call.get (key_path js key))) (looked_up js wire key o) t3
          ts' (begun js (typed get_line s1)) in
      (
        s1,
        sys1,
        s2,
        _,
        enter-Means t0 t1 ts (set_words key value t) (set_call js wire key value m) s sys sys1
            (ok tt) means
            (serve-set js wire key value m _ sys v' plain
              (ap (λ q. Routes.set_key (limited wire.room) key value q v) same_ttl ∙ stored)),
        enter-Means t2 t3 ts' ("GET" ∷ key ∷ []) (Call.get (key_path js key)) s1 sys1 _
            (looked_up js wire key o) (Means.get h)
            (serve-get js wire key o sys1 h bare coded found),
        (_, refl, refl, refl, refl),
        subst (Logged s1 s2 get_line (shown key o)) (is_some-choice old value)
            (looked_up-Logged t2 t3 ts' get_line key o s1),
      )
