-- ===== src/Tests/Server.antt =====
-- Lines and reads of a connection.
use text.Mathlib.TextLemmas.{cons-ne-nil}
use quark_cache.Common.{arith, true, false, none, ◌≡◌, refl, some, [], ◌∷◌}
use quark_cache.Common.Text.{◌+++◌}
use quark_cache.Engine.Store.{KvStore, fresh_store, get}
use quark_cache.Server.{Server, serve_line, is_blank, process_command, crlf}
use quark_cache.Server.Lines.{handle_read}
use quark_cache.Server.Chunks.{
  split_lines, serve_lines, with_rest, handle_read-lines, and_then, handle_read-append,
}
use quark_cache.Server.Wire.{IsToken, join_words}
use quark_cache.Server.RoundTrip.{process_command-set_get}
use quark_cache.Server.Tcp.{
  TcpServer, accept_client, disconnect, handle_client, Reachable, at_start, next, accepted,
  readable,
}
use quark_cache.Server.Tcp.Serves.{IsWell, Handles, Reachable-Handles}
use quark_cache.Server.Tcp.Connections.{IsCounted, Reachable-IsCounted}
use quark_cache.Tests.Engine.{cache, recency, cache-Shows}

abbrev store : KvStore
store = fresh_store cache

abbrev pub server : Server
server = record { store = store; clock = λ n. n; served = 0 }

-- Two commands whose second is cut in the middle.
handle_read-append_example :
    and_then
      (handle_read serve_line "SET k v\r\nGE" ("", server))
      (handle_read serve_line "T k\r\n")
    ≡ handle_read serve_line ("SET k v\r\nGE" +++ "T k\r\n") ("", server)
handle_read-append_example =
    handle_read-append serve_line "SET k v\r\nGE" "T k\r\n" "" server refl refl

pub k-IsToken : IsToken "k"
unfolding is_blank
k-IsToken = ((refl, tt), cons-ne-nil _ _)

pub v-IsToken : IsToken "v"
unfolding is_blank
v-IsToken = ((refl, tt), cons-ne-nil _ _)

ttl-IsToken : IsToken "60"
unfolding is_blank
ttl-IsToken = ((refl, (refl, tt)), cons-ne-nil _ _)

process_command-set_get_example :
    (s' : KvStore) × (process_command 3 (join_words ("SET" ∷ "k" ∷ "v" ∷ [])) store
      ≡ some ("OK\r\n", s'))
    × (process_command 9 (join_words ("GET" ∷ "k" ∷ [])) s'
        ≡ some ("VALUE " +++ "v" +++ crlf, (get 9 "k" s').1))
process_command-set_get_example =
    process_command-set_get 3 9 "k" "v" store recency cache-Shows k-IsToken v-IsToken

handle_read-lines_example :
    handle_read serve_line "T k\r\nDE" ("GE", server)
    ≡ with_rest
        (split_lines ("GE" +++ "T k\r\nDE")).1
        (serve_lines serve_line (split_lines ("GE" +++ "T k\r\nDE")).0 server)
handle_read-lines_example = handle_read-lines serve_line "T k\r\nDE" "GE" server refl

-- Two connections; one sends a command and half of the next one, and the other one goes.
abbrev idle : TcpServer
idle = record { server = server; read_buffers = [] }

abbrev both : TcpServer
unfolding accept_client
both = accept_client 8 (accept_client 7 idle)

abbrev after_read : TcpServer
unfolding handle_client accept_client
after_read = elim (handle_client 7 "GET a\r\nGE" false both) [ none ↦ idle | some (out, t) ↦ t ]

abbrev one_left : TcpServer
unfolding handle_client accept_client
one_left = disconnect 8 after_read

one_left-Reachable : Reachable store (λ n. n) one_left
unfolding handle_client accept_client
one_left-Reachable =
    next
      (next (next (next at_start (accepted 7 (refl, omega arith))) (accepted 8 (refl, omega arith)))
        (readable 7 "GET a\r\nGE" false ("VALUE alpha\r\n" ∷ []) ("", refl) refl))
      (readable 8 "" true [] ("", refl) refl)

Reachable-IsCounted_example : IsCounted one_left
Reachable-IsCounted_example = Reachable-IsCounted store (λ n. n) one_left refl one_left-Reachable

Reachable-Handles_example :
    IsWell one_left.server.store.lru × Handles (handle_client 7 "T a\r\nSET x y\r\n" false one_left)
Reachable-Handles_example =
    Reachable-Handles store (λ n. n) one_left 7 "T a\r\nSET x y\r\n" false (recency, cache-Shows)
      one_left-Reachable

-- Half a command waits, and one connection is counted.
one_left-buffers : one_left.read_buffers ≡ (7, "GE") ∷ []
unfolding handle_client accept_client
one_left-buffers = refl
