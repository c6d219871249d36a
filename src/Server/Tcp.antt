-- ===== src/Server/Tcp.antt =====
-- cpp_core/src/server.cpp: the event loop of `TcpServer` with all its connections, and the thread of
-- cpp_core/src/main.cpp that sweeps. The kernel's part is in the events: descriptors, the bytes of a read.
pub mod Active
pub mod Buffers
pub mod Connections
pub mod Serves
use Prim.Native.String.{String}
use quark_cache.Common.{
  ℕ, ◌<◌, ◌≡◌, Bool, true, false, Option, none, some, List, [], ◌∷◌, ◌==◌, length, truthy,
  if◌then◌else◌,
}
use quark_cache.Engine.Store.{KvStore, evict_expired, increment_connections, decrement_connections}
use quark_cache.Server.{Server, serve_line}
use quark_cache.Server.Lines.{handle_read}

-- The server, and `read_buffers_` with one entry for each open connection.
pub record TcpServer : Type 0 where
  pub server : Server
  pub read_buffers : List (ℕ × String)

unfoldable pub find_buffer : ℕ → List (ℕ × String) → Option String
find_buffer fd [] = none
find_buffer fd ((k, buf) ∷ m) = let rest = find_buffer fd m in if k == fd then some buf else rest

-- `read_buffers_[fd] = buf`.
unfoldable pub put_buffer : ℕ → String → List (ℕ × String) → List (ℕ × String)
put_buffer fd buf [] = (fd, buf) ∷ []
put_buffer fd buf ((k, old) ∷ m) =
    let rest = put_buffer fd buf m in if k == fd then (k, buf) ∷ m else (k, old) ∷ rest

-- `read_buffers_.erase(fd)`.
unfoldable pub erase_buffer : ℕ → List (ℕ × String) → List (ℕ × String)
erase_buffer fd [] = []
erase_buffer fd ((k, buf) ∷ m) =
    let rest = erase_buffer fd m in if k == fd then m else (k, buf) ∷ rest

abbrev pub with_store : (KvStore → KvStore) → Server → Server
with_store f v = record v { store = f v.store }

-- `accept_client`, for one connection.
unfoldable pub accept_client : ℕ → TcpServer → TcpServer
unfolding increment_connections put_buffer
accept_client fd t = record {
  server = with_store increment_connections t.server;
  read_buffers = put_buffer fd "" t.read_buffers;
}

-- The end of a connection, or an error of its read.
unfoldable pub disconnect : ℕ → TcpServer → TcpServer
unfolding decrement_connections erase_buffer
disconnect fd t = record {
  server = with_store decrement_connections t.server;
  read_buffers = erase_buffer fd t.read_buffers;
}

abbrev pub buffer_or_empty : Option String → String
buffer_or_empty none = ""
buffer_or_empty (some buf) = buf

abbrev pub put_back :
    ℕ → TcpServer → Option (List String × (String × Server)) → Option (List String × TcpServer)
put_back fd t none = none
put_back fd t (some (out, (buf, v))) =
    some (out, record { server = v; read_buffers = put_buffer fd buf t.read_buffers })

-- `handle_read`: the bytes that the reads gave, and whether the last one found the end or an error. In
-- that case what was read before is dropped. Each response is handed to
-- one write, of which the kernel may take a part only; what then reaches the client is in Backend.Deployed.
unfoldable pub handle_client : ℕ → String → Bool → TcpServer → Option (List String × TcpServer)
unfolding disconnect find_buffer put_buffer handle_read serve_line
handle_client fd bytes true t = some ([], disconnect fd t)
handle_client fd bytes false t =
    if truthy bytes
    then put_back fd t
        (handle_read serve_line bytes (buffer_or_empty (find_buffer fd t.read_buffers), t.server))
    else some ([], t)

-- What the thread of `main` does every five seconds.
unfoldable pub sweep : ℕ → TcpServer → TcpServer
unfolding evict_expired
sweep now t = record t { server = with_store (evict_expired now) t.server }

-- The kernel gives a descriptor that is not in use, and fewer than a `uint32_t` can count.
abbrev pub CanAccept : ℕ → TcpServer → Type 0
CanAccept fd t = (find_buffer fd t.read_buffers ≡ none) × (length t.read_buffers < 4294967295)

abbrev pub IsOpen : ℕ → TcpServer → Type 0
IsOpen fd t = (buf : String) × (find_buffer fd t.read_buffers ≡ some buf)

pub data Step : TcpServer → TcpServer → Type 0 where
  accepted : {t : TcpServer} (fd : ℕ) → CanAccept fd t → Step t (accept_client fd t)
  readable :
      {t t' : TcpServer} (fd : ℕ) (bytes : String) (ended : Bool) (out : List String)
      → IsOpen fd t
      → handle_client fd bytes ended t ≡ some (out, t')
      → Step t t'
  swept : {t : TcpServer} (now : ℕ) → Step t (sweep now t)

-- What a run from a server without connections can lead to.
pub data Reachable (store : KvStore) (clock : ℕ → ℕ) : TcpServer → Type 0 where
  at_start :
      Reachable store clock
        (record { server = record { store = store; clock = clock; served = 0 }; read_buffers = [] })
  next : {t t' : TcpServer} → Reachable store clock t → Step t t' → Reachable store clock t'
