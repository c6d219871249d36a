-- ===== src/Tests/Program.antt =====
-- The REPL in a browser, on the server with two keys.
use quark_cache.Common.{
  arith, ◌≡◌, refl, true, false, not, is_some, none, some, [], ◌∷◌, if◌then◌else◌,
}
use quark_cache.Common.Text.{is_space, join}
use quark_cache.Common.Text.Words.{IsWord}
use text.Mathlib.TextLemmas.{cons-ne-nil}
use quark_cache.Engine.Lru.{plus, is_expired, new_entry}
use quark_cache.Backend.Exchange.{whole_ttl}
use quark_cache.Backend.Metrics.{fresh}
use quark_cache.Frontend.Js.{parse_int}
use quark_cache.Frontend.Commands.{State}
use quark_cache.Backend.Routes.Router.{no_slash}
use quark_cache.System.{System, Wire, enter}
use quark_cache.Engine.Lru
use quark_cache.Engine.{size}
use quark_cache.Engine.Answers.{has_passed}
use quark_cache.Engine.Promise.{entry_of}
use quark_cache.System.Keys.{key_lines, enter-all_entries}
use quark_cache.System.Removal.{enter-del_get}
use quark_cache.System.Repl.{Logged, set_words, shown, enter-set_get}
use quark_cache.Tests.{whole_js}
use quark_cache.Tests.Api.{entries-IsListable, int, int-ReadsInts, entries-HasPlain}
use quark_cache.Tests.Engine.{cache, recency, cache-Shows}
use quark_cache.Tests.Server.{server}

abbrev wire : Wire whole_js
wire = record {
  backend_url = some "http://backend:8000";
  room = 4096;
  decode = λ path. path;
  ttl = λ n. some (plus n);
  invalid = "[object Object]";
  loads = λ s. none;
  int = int;
  now = λ sys. sys.server.served;
  metrics_json = λ m. "{}";
}

abbrev blank : State whole_js
blank = record { input = ""; log = []; loading = false; hint = none; seq = 0 }

abbrev sys : System
sys = record { server = server; window = fresh }

k-IsWord : IsWord "k"
unfolding is_space
k-IsWord = ((refl, tt), cons-ne-nil _ _)

v-IsWord : IsWord "v"
unfolding is_space
v-IsWord = ((refl, tt), cons-ne-nil _ _)

ttl-IsWord : IsWord "60"
unfolding is_space
ttl-IsWord = ((refl, (refl, tt)), cons-ne-nil _ _)

enter-set_get_example :
    (s1 : State whole_js) × (sys1 : System) × (s2 : State whole_js) × (sys2 : System) × (enter
        whole_js wire 0 5 "12:00"
        (join " " (set_words whole_js wire "k" "v" (some "60")))
        (blank, sys)
      ≡ some (s1, sys1))
    × (enter whole_js wire 6 9 "12:01" (join " " ("GET" ∷ "k" ∷ [])) (s1, sys1) ≡ some (s2, sys2))
    × Logged whole_js wire blank s1
        (join " " (set_words whole_js wire "k" "v" (some "60")))
        "OK"
        true
    × (let old = has_passed 0 1 (whole_ttl (some 60)) in
        Logged whole_js wire s1 s2
          (join " " ("GET" ∷ "k" ∷ []))
          (shown whole_js wire "k" (if old then none else some "v"))
          (not old))
unfolding parse_int no_slash size
enter-set_get_example =
    enter-set_get whole_js wire 0 5 6 9 "12:00" "12:01" "k" "v" (some "60") (some 60) blank sys
      recency k-IsWord v-IsWord (ttl-IsWord, refl, (omega arith, omega arith)) (omega arith)
      (omega arith, omega arith, omega arith) refl refl refl cache-Shows

enter-all_entries_example :
    (s1 : State whole_js) × (sys1 : System) × (enter whole_js wire 0 5 "12:00" "KEYS" (blank, sys)
      ≡ some (s1, sys1))
    × Logged whole_js wire blank s1 "KEYS" (key_lines (Lru.all_entries 0 cache)) true
enter-all_entries_example =
    enter-all_entries whole_js wire 0 5 "12:00" blank sys refl int-ReadsInts entries-HasPlain
      entries-IsListable

a-IsWord : IsWord "a"
unfolding is_space
a-IsWord = ((refl, tt), cons-ne-nil _ _)

enter-del_get_example :
    (s1 : State whole_js) × (sys1 : System) × (s2 : State whole_js) × (sys2 : System) × (enter
        whole_js wire 0 5 "12:00"
        (join " " ("DEL" ∷ "a" ∷ []))
        (blank, sys)
      ≡ some (s1, sys1))
    × (enter whole_js wire 6 9 "12:01" (join " " ("GET" ∷ "a" ∷ [])) (s1, sys1) ≡ some (s2, sys2))
    × Logged whole_js wire blank s1
        (join " " ("DEL" ∷ "a" ∷ []))
        (if is_some (entry_of "a" recency) then "1" else "0")
        true
    × Logged whole_js wire s1 s2 (join " " ("GET" ∷ "a" ∷ [])) (shown whole_js wire "a" none) false
unfolding no_slash
enter-del_get_example =
    enter-del_get whole_js wire 0 5 6 9 "12:00" "12:01" "a" blank sys recency a-IsWord refl refl
      cache-Shows (omega arith)
