-- ===== src/Server/Tcp/Active.antt =====
-- cpp_core/src/server.cpp: commands leave the count of connections as it is.
use Prim.Native.String.{String}
use quark_cache.Common.{
  ℕ, ◌≡◌, refl, subst, Bool, true, false, Option, none, some, List, [], ◌∷◌, arith, same,
  if◌then◌else◌, Bool-cases, Option-cases, List-cases, inl, inr,
}
use quark_cache.Common.Text.Ascii.{capitals}
use quark_cache.Engine.Lru
use quark_cache.Engine.Store.{KvStore, set, get, del, decrement_connections}
use quark_cache.Server.{
  Server, serve_line, process_command, command, set_command, stoll, stored, tokenize,
}
use quark_cache.Server.Lines.{written, chop_cr}
use quark_cache.Server.Chunks.{serve_lines}

-- The count of connections and the cache are apart.
pub decrement_connections-lru : (s : KvStore) → (decrement_connections s).lru ≡ s.lru
unfolding decrement_connections
decrement_connections-lru s = ground arith

-- A result that leaves the count of connections at `n`.
abbrev Leaves : ℕ → Option (String × KvStore) → Type 0
Leaves n none = Unit
Leaves n (some (r, s)) = s.active_connections ≡ n

-- What holds of each of the commands holds of the one that is named.
holds_if :
    (P : Option (String × KvStore) → Type 0) (b : Bool) (x y : Option (String × KvStore))
    → P x
    → P y
    → P (if b then x else y)
holds_if P true x y h k = h
holds_if P false x y h k = k

-- The five commands by name, and all others.
pub holds_by_name :
    (P : Option (String × KvStore) → Type 0) (cmd : String)
    (a b c d e f : Option (String × KvStore))
    → P a
    → P b
    → P c
    → P d × P e × P f
    → P (
        if same cmd "SET"
        then a
        else if same cmd "GET"
        then b
        else if same cmd "DEL"
        then c
        else if same cmd "STATS"
        then d
        else if same cmd "KEYS"
        then e
        else f)
holds_by_name P cmd a b c d e f x y z (u, v, w) = holds_if P (same cmd "SET") a _ x (
    holds_if P (same cmd "GET") b _ y (
      holds_if P (same cmd "DEL") c _ z
        (holds_if P (same cmd "STATS") d _ u (holds_if P (same cmd "KEYS") e f v w))))

set-Leaves :
    (now : ℕ) (key value : String) (ttl : Option Lru.Seconds) (s : KvStore)
    → Leaves s.active_connections (stored (set now key value ttl s))
unfolding set
set-Leaves now key value ttl s = elim (Option-cases (Lru.set now key value ttl s.lru)) [
  | inl e ↦ rw (e, set) tt
  | inr (c, e) ↦ rw (e, set) refl
]

set_command-Leaves :
    (now : ℕ) (key value : String) (ts : List String) (s : KvStore)
    → Leaves s.active_connections (set_command now key value ts s)
unfolding set_command
set_command-Leaves now key value [] s = set-Leaves now key value none s
set_command-Leaves now key value (t ∷ ts) s = elim (Option-cases (stoll t)) [
  | inl e ↦ rw (e, set_command) refl
  | inr (ttl, e) ↦ rw (e, set_command) (set-Leaves now key value (some ttl) s)
]

get-active :
    (now : ℕ) (key : String) (s : KvStore)
    → (get now key s).1.active_connections ≡ s.active_connections
unfolding get
get-active now key s = ground arith

del-active : (key : String) (s : KvStore) → (del key s).1.active_connections ≡ s.active_connections
unfolding del
del-active key s = refl

command-Leaves :
    (now : ℕ) (cmd : String) (args : List String) (s : KvStore)
    → Leaves s.active_connections (command now cmd args s)
unfolding command
command-Leaves now cmd [] s =
    holds_by_name (Leaves s.active_connections) cmd _ _ _ _ _ _ refl refl refl (refl, refl, refl)
command-Leaves now cmd (k ∷ []) s =
    holds_by_name (Leaves s.active_connections) cmd _ _ _ _ _ _ refl (get-active now k s)
      (del-active k s) (refl, refl, refl)
command-Leaves now cmd (k ∷ v ∷ ts) s =
    holds_by_name (Leaves s.active_connections) cmd _ _ _ _ _ _ (set_command-Leaves now k v ts s)
      (get-active now k s) (del-active k s) (refl, refl, refl)

process_command-Leaves :
    (now : ℕ) (line : String) (s : KvStore)
    → Leaves s.active_connections (process_command now line s)
unfolding process_command
process_command-Leaves now line s = elim (List-cases (tokenize line)) [
  | inl e ↦ rw (e, process_command) refl
  | inr (cmd, args, e) ↦ rw (e, process_command) (command-Leaves now (capitals cmd) args s)
]

-- The same of what a server answers.
abbrev pub Counts : {A : Type 0} → ℕ → Option (A × Server) → Type 0
Counts n none = Unit
Counts n (some (a, v)) = v.store.active_connections ≡ n

serve_line-Counts :
    (line : String) (v : Server) → Counts v.store.active_connections (serve_line line v)
unfolding serve_line
serve_line-Counts line v =
    let h = process_command-Leaves (v.clock v.served) line v.store in
    elim (Option-cases (process_command (v.clock v.served) line v.store)) [
      | inl e ↦ rw e tt
      | inr ((r, s), e) ↦ rw e (rw e at h)
    ]

Counts-written :
    (r : String) (n : ℕ) (o : Option (List String × Server)) → Counts n o → Counts n (written r o)
Counts-written r n none h = tt
Counts-written r n (some (out, v)) h = h

pub serve_lines-Counts :
    (ls : List String) (v : Server)
    → Counts v.store.active_connections (serve_lines serve_line ls v)
unfolding serve_lines
serve_lines-Counts [] v = refl
serve_lines-Counts (l ∷ ls) v = elim (Bool-cases (same (chop_cr l) "")) [
  | inl k ↦ rw k (serve_lines-Counts ls v)
  | inr k ↦
      let h = serve_line-Counts (chop_cr l) v in
      elim (Option-cases (serve_line (chop_cr l) v)) [
        | inl e ↦ rw (k, e, serve_lines) tt
        | inr ((r, v'), e) ↦
            let first : v'.store.active_connections ≡ v.store.active_connections = rw e at h in
            rw (k, e, serve_lines)
              (Counts-written r _ _ (
                subst (λ n. Counts n (serve_lines serve_line ls v')) first
                  (serve_lines-Counts ls v')))
      ]
]
