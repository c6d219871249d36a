-- ===== src/Server/Tcp/Serves.antt =====
-- cpp_core/src/server.cpp on cpp_core/src/lru_cache.cpp: whatever bytes come, the server answers, and its
-- cache stays well-formed.
use Prim.Native.String.{String}
use quark_cache.Common.{
  ℕ, ◌≡◌, refl, sym, ap, ◌∙◌, subst, Bool, true, false, Option, none, some, List, [], ◌∷◌, arith,
  same, truthy, Bool-cases, Option-cases, List-cases, inl, inr,
}
use quark_cache.Common.Text.{◌+++◌}
use quark_cache.Common.Text.Ascii.{capitals}
use quark_cache.Engine.Lru
use quark_cache.Engine.Lru.{LruCache, Seconds}
use quark_cache.Engine.Promise.{Recency, Shows, used}
use quark_cache.Engine.Keeps.{set-Shows, get-Shows, del-Shows}
use quark_cache.Engine.Expiry.{evict_expired-Shows}
use quark_cache.Engine.Store.{KvStore, set, get, del, evict_expired}
use quark_cache.Server.{
  Server, serve_line, process_command, command, set_command, stoll, stored, tokenize,
}
use quark_cache.Server.Lines.{written, chop_cr}
use quark_cache.Server.Chunks.{split_lines, serve_lines, with_rest, handle_read-lines}
use quark_cache.Server.Tcp.{
  TcpServer, Step, accepted, readable, swept, Reachable, at_start, next, accept_client, disconnect,
  handle_client, put_back, find_buffer, sweep, buffer_or_empty,
}
use quark_cache.Server.Tcp.Connections.{if_true}
use quark_cache.Server.Tcp.Active.{holds_by_name, decrement_connections-lru}

abbrev pub IsWell : LruCache → Type 0
IsWell c = (rs : Recency) × Shows c rs

-- A command that is answered, and leaves the cache well-formed.
abbrev Serves : Option (String × KvStore) → Type 0
Serves none = ⊥
Serves (some (r, s)) = IsWell s.lru

set-Serves :
    (now : ℕ) (key value : String) (ttl : Option Seconds) (s : KvStore)
    → IsWell s.lru
    → Serves (stored (set now key value ttl s))
unfolding set
set-Serves now key value ttl s (rs, shows) =
    let (c, e, shown, capacity) = set-Shows now key value ttl s.lru rs shows in
    rw (e, set) (_, shown)

set_command-Serves :
    (now : ℕ) (key value : String) (ts : List String) (s : KvStore)
    → IsWell s.lru
    → Serves (set_command now key value ts s)
unfolding set_command
set_command-Serves now key value [] s h = set-Serves now key value none s h
set_command-Serves now key value (t ∷ ts) s h = elim (Option-cases (stoll t)) [
  | inl e ↦ rw (e, set_command) h
  | inr (ttl, e) ↦ rw (e, set_command) (set-Serves now key value (some ttl) s h)
]

get-IsWell : (now : ℕ) (key : String) (s : KvStore) → IsWell s.lru → IsWell (get now key s).1.lru
unfolding get
get-IsWell now key s (rs, shows) =
    let same_lru : (get now key s).1.lru ≡ (Lru.get now key s.lru).1 = ground arith in
    (
      used now key rs,
      subst (λ c. Shows c (used now key rs)) (sym same_lru) (get-Shows now key s.lru rs shows).1,
    )

del-IsWell : (key : String) (s : KvStore) → IsWell s.lru → IsWell (del key s).1.lru
unfolding del
del-IsWell key s (rs, shows) = (_, (del-Shows key s.lru rs shows).1)

command-Serves :
    (now : ℕ) (cmd : String) (args : List String) (s : KvStore)
    → IsWell s.lru
    → Serves (command now cmd args s)
unfolding command
command-Serves now cmd [] s h = holds_by_name Serves cmd _ _ _ _ _ _ h h h (h, h, h)
command-Serves now cmd (k ∷ []) s h =
    holds_by_name Serves cmd _ _ _ _ _ _ h (get-IsWell now k s h) (del-IsWell k s h) (h, h, h)
command-Serves now cmd (k ∷ v ∷ ts) s h =
    holds_by_name Serves cmd _ _ _ _ _ _ (set_command-Serves now k v ts s h) (get-IsWell now k s h)
      (del-IsWell k s h) (h, h, h)

process_command-Serves :
    (now : ℕ) (line : String) (s : KvStore) → IsWell s.lru → Serves (process_command now line s)
unfolding process_command
process_command-Serves now line s h = elim (List-cases (tokenize line)) [
  | inl e ↦ rw (e, process_command) h
  | inr (cmd, args, e) ↦ rw (e, process_command) (command-Serves now (capitals cmd) args s h)
]

-- The same of what a server answers.
abbrev Answers : {A : Type 0} → Option (A × Server) → Type 0
Answers none = ⊥
Answers (some (a, v)) = IsWell v.store.lru

serve_line-Answers : (line : String) (v : Server) → IsWell v.store.lru → Answers (serve_line line v)
unfolding serve_line
serve_line-Answers line v w =
    let h = process_command-Serves (v.clock v.served) line v.store w in
    elim (Option-cases (process_command (v.clock v.served) line v.store)) [
      | inl e ↦ absurd (rw e at h)
      | inr ((r, s), e) ↦ rw e (rw e at h)
    ]

Answers-written :
    (r : String) (o : Option (List String × Server)) → Answers o → Answers (written r o)
Answers-written r none h = h
Answers-written r (some (out, v)) h = h

serve_lines-Answers :
    (ls : List String) (v : Server) → IsWell v.store.lru → Answers (serve_lines serve_line ls v)
unfolding serve_lines
serve_lines-Answers [] v w = w
serve_lines-Answers (l ∷ ls) v w = elim (Bool-cases (same (chop_cr l) "")) [
  | inl k ↦ rw k (serve_lines-Answers ls v w)
  | inr k ↦
      let h = serve_line-Answers (chop_cr l) v w in
      elim (Option-cases (serve_line (chop_cr l) v)) [
        | inl e ↦ absurd (rw e at h)
        | inr ((r, v'), e) ↦
            rw (k, e, serve_lines) (Answers-written r _ (serve_lines-Answers ls v' (rw e at h)))
      ]
]

disconnect-IsWell :
    (fd : ℕ) (t : TcpServer) → IsWell t.server.store.lru → IsWell (disconnect fd t).server.store.lru
unfolding disconnect
disconnect-IsWell fd t (rs, shows) =
    (rs, subst (λ c. Shows c rs) (sym (decrement_connections-lru t.server.store)) shows)

-- A read that is answered, and leaves the cache well-formed.
abbrev pub Handles : Option (List String × TcpServer) → Type 0
Handles o = (out : List String) × (t : TcpServer) × (o ≡ some (out, t)) × IsWell t.server.store.lru

put_back-Handles :
    (fd : ℕ) (rest : String) (t : TcpServer) (o : Option (List String × Server))
    → Answers o
    → Handles (put_back fd t (with_rest rest o))
put_back-Handles fd rest t none h = absurd h
put_back-Handles fd rest t (some (out, v)) h = (out, _, refl, h)

handle_client-Handles :
    (fd : ℕ) (bytes : String) (ended : Bool) (t : TcpServer)
    → IsWell t.server.store.lru
    → Handles (handle_client fd bytes ended t)
unfolding handle_client
handle_client-Handles fd bytes true t h = ([], _, refl, disconnect-IsWell fd t h)
handle_client-Handles fd bytes false t h = elim (Bool-cases (truthy bytes)) [
  | inl b ↦
      let buf = buffer_or_empty (find_buffer fd t.read_buffers) in
      let lines = split_lines (buf +++ bytes) in
      let read = handle_read-lines serve_line bytes buf t.server b in
      subst Handles (sym (if_true (truthy bytes) _ (some ([], t)) b ∙ ap (put_back fd t) read))
        (put_back-Handles fd lines.1 t _ (serve_lines-Answers lines.0 t.server h))
  | inr b ↦ rw (b, handle_client) ([], t, refl, h)
]

Step-IsWell :
    (t t' : TcpServer) → Step t t' → IsWell t.server.store.lru → IsWell t'.server.store.lru
unfolding accept_client sweep evict_expired
Step-IsWell t _ (accepted fd can) h = h
Step-IsWell t t' (readable fd bytes ended out open_fd e) h =
    let (out', a, e', well) = handle_client-Handles fd bytes ended t h in
    let left : a ≡ t' = cc (sym e' ∙ e) in subst (λ x. IsWell x.server.store.lru) left well
Step-IsWell t _ (swept now) (rs, shows) =
    (_, (evict_expired-Shows now t.server.store.lru rs shows).1)

Reachable-IsWell :
    (store : KvStore) (clock : ℕ → ℕ) (t : TcpServer)
    → IsWell store.lru
    → Reachable store clock t
    → IsWell t.server.store.lru
Reachable-IsWell store clock _ h at_start = h
Reachable-IsWell store clock t' h (next {t} r st) =
    Step-IsWell t t' st (Reachable-IsWell store clock t h r)

-- In every state that a server whose cache is well-formed can reach, by accepted connections, reads, ends
-- and sweeps in any order, its cache is well-formed; and a read in that state, whatever its bytes, is
-- handled to its end and leaves the cache well-formed.
pub Reachable-Handles :
    (store : KvStore) (clock : ℕ → ℕ) (t : TcpServer) (fd : ℕ) (bytes : String) (ended : Bool)
    → IsWell store.lru
    → Reachable store clock t
    → IsWell t.server.store.lru × Handles (handle_client fd bytes ended t)
Reachable-Handles store clock t fd bytes ended h r =
    let well = Reachable-IsWell store clock t h r in
    (well, handle_client-Handles fd bytes ended t well)
