-- ===== src/Server/Tcp/Connections.antt =====
-- cpp_core/src/server.cpp: the count of the connections, and the bytes that wait.
use Prim.Native.String.{String}
use quark_cache.Common.{
  ℕ, suc, ◌≡◌, refl, sym, ap, ◌∙◌, subst, Bool, true, false, Option, some, List, [], All, arith,
  length, truthy, if◌then◌else◌, Bool-cases, Option-cases, inl, inr,
}
use quark_cache.Common.Text.{◌+++◌}
use quark_cache.Engine.Store.{KvStore, evict_expired, increment_connections, decrement_connections}
use quark_cache.Server.{serve_line}
use quark_cache.Server.Chunks.{split_lines, serve_lines, with_rest, handle_read-lines}
use quark_cache.Server.Tcp.{
  TcpServer, put_back, find_buffer, put_buffer, erase_buffer, accept_client, disconnect,
  buffer_or_empty, handle_client, sweep, IsOpen, CanAccept, Step, accepted, readable, swept,
  Reachable, at_start, next,
}
use quark_cache.Server.Tcp.Active.{serve_lines-Counts}
use quark_cache.Server.Tcp.Buffers.{
  NoLine, split_lines-NoLine, UniqueFds, length-put_new, length-put_old, length-erase,
  put-UniqueFds, erase-UniqueFds, put-NoLine, erase-NoLine,
}

-- One entry for each open connection, which the statistics count, and no complete line that waits.
pub record IsCounted (t : TcpServer) : Type 0 where
  pub counts : t.server.store.active_connections ≡ length t.read_buffers
  pub unique : UniqueFds t.read_buffers
  pub no_line : All (λ p. NoLine p.1) t.read_buffers

accept-IsCounted :
    (fd : ℕ) (t : TcpServer) → CanAccept fd t → IsCounted t → IsCounted (accept_client fd t)
unfolding accept_client increment_connections
accept-IsCounted fd t (fresh, few) h = record {
  counts = omega (arith, length-put_new fd "" t.read_buffers fresh, h.counts);
  unique = put-UniqueFds fd "" t.read_buffers h.unique;
  no_line = put-NoLine fd "" t.read_buffers tt h.no_line;
}

decrement-active :
    (s : KvStore) (n : ℕ)
    → s.active_connections ≡ suc n
    → (decrement_connections s).active_connections ≡ n
unfolding decrement_connections
decrement-active s n e = ground arith

disconnect-IsCounted :
    (fd : ℕ) (t : TcpServer) → IsOpen fd t → IsCounted t → IsCounted (disconnect fd t)
unfolding disconnect
disconnect-IsCounted fd t (buf, open_fd) h = record {
  counts =
      decrement-active t.server.store (length (erase_buffer fd t.read_buffers))
        (h.counts ∙ sym (length-erase fd buf t.read_buffers open_fd));
  unique = erase-UniqueFds fd t.read_buffers h.unique;
  no_line = erase-NoLine fd t.read_buffers h.no_line;
}

pub if_true : {A : Type 0} (b : Bool) (x y : A) → b ≡ true → (if b then x else y) ≡ x
if_true b x y e = rw e refl

-- What a read of some bytes leaves.
read-IsCounted :
    (fd : ℕ) (bytes : String) (t t' : TcpServer) (out : List String)
    → truthy bytes ≡ true
    → IsOpen fd t
    → IsCounted t
    → handle_client fd bytes false t ≡ some (out, t')
    → IsCounted t'
unfolding handle_client
read-IsCounted fd bytes t t' out b (buf, open_fd) h e =
    let whole = buffer_or_empty (find_buffer fd t.read_buffers) +++ bytes in
    let lines = (split_lines whole).0 in
    let rest = (split_lines whole).1 in
    let read =
      handle_read-lines serve_line bytes (buffer_or_empty (find_buffer fd t.read_buffers)) t.server
        b in
    let kept = serve_lines-Counts lines t.server in
    let served : handle_client fd bytes false t
        ≡ put_back fd t (with_rest rest (serve_lines serve_line lines t.server)) =
      if_true (truthy bytes) _ (some ([], t)) b ∙ ap (put_back fd t) read in
    let e1 = sym served ∙ e in
    elim (Option-cases (serve_lines serve_line lines t.server)) [
      | inl k ↦ let e2 = rw k at e1 in cc
      | inr ((out', v), k) ↦
          let e2 : Path (Option (List String × TcpServer))
              (put_back fd t (with_rest rest (some (out', v)))) (some (out, t')) =
            rw k at e1 in
          let left : record { server = v; read_buffers = put_buffer fd rest t.read_buffers } ≡ t' =
            cc in
          let active : v.store.active_connections ≡ t.server.store.active_connections =
            rw k at kept in
          subst IsCounted left (record {
            counts = active ∙ h.counts ∙ sym (length-put_old fd rest buf t.read_buffers open_fd);
            unique = put-UniqueFds fd rest t.read_buffers h.unique;
            no_line = put-NoLine fd rest t.read_buffers (split_lines-NoLine whole) h.no_line;
          })
    ]

ended-IsCounted :
    (a t' : TcpServer) (out out' : List String)
    → Path (Option (List String × TcpServer)) (some (out, a)) (some (out', t'))
    → IsCounted a
    → IsCounted t'
ended-IsCounted a t' out out' e h = let q : a ≡ t' = cc in subst IsCounted q h

Step-IsCounted : (t t' : TcpServer) → Step t t' → IsCounted t → IsCounted t'
unfolding sweep evict_expired handle_client
Step-IsCounted t _ (accepted fd can) h = accept-IsCounted fd t can h
Step-IsCounted t t' (readable fd bytes true out open_fd e) h =
    ended-IsCounted (disconnect fd t) t' [] out e (disconnect-IsCounted fd t open_fd h)
Step-IsCounted t t' (readable fd bytes false out open_fd e) h = elim (Bool-cases (truthy bytes)) [
  | inl b ↦ read-IsCounted fd bytes t t' out b open_fd h e
  | inr b ↦ ended-IsCounted t t' [] out (rw (b, handle_client) at e) h
]
Step-IsCounted t _ (swept now) h = record {
  counts = h.counts;
  unique = h.unique;
  no_line = h.no_line;
}

-- In every state that the server can reach from a store without connections, by accepted connections,
-- reads, ends and sweeps in any order: the statistics count the open connections, each of which has one
-- buffer, and no buffer holds a complete line.
pub Reachable-IsCounted :
    (store : KvStore) (clock : ℕ → ℕ) (t : TcpServer)
    → store.active_connections ≡ 0
    → Reachable store clock t
    → IsCounted t
Reachable-IsCounted store clock _ none_yet at_start = record {
  counts = none_yet;
  unique = tt;
  no_line = tt;
}
Reachable-IsCounted store clock t' none_yet (next {t} r st) =
    Step-IsCounted t t' st (Reachable-IsCounted store clock t none_yet r)
