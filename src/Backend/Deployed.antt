-- ===== src/Backend/Deployed.antt =====
-- backend/app/services/cache_client.py on the server of cpp_core/src/server.cpp: a connection for each
-- command. Texts are passed as they are: a character of a command is a byte on the wire. A command is served
-- in one piece; of commands at the same time the order is in the calls.
pub mod Line
pub mod Commands
pub mod Fine
pub mod Limits
use Prim.Native.String.{String}
use Prim.Native.Char.{code}
use quark_cache.Common.{
  ℕ, zero, suc, Bool, true, false, ◌&&◌, Option, none, some, List, leb, ◌==◌, if◌then◌else◌,
}
use quark_cache.Common.Text.{join}
use quark_cache.Engine.{size}
use quark_cache.Engine.Store.{increment_connections, decrement_connections}
use quark_cache.Server.{Server, serve_line}
use quark_cache.Server.Lines.{handle_read}
use quark_cache.Backend.Client.{Result, ok, error, raised}
use quark_cache.Backend.Service.{Network, and_then}

-- The connection closes, and what was written comes to the client.
unfoldable pub closed : Server → Option (List String × (String × Server)) → Result String × Server
unfolding join decrement_connections
closed v none = (error "Cache server response timed out", v)
closed v (some (out, (buf, v'))) =
    (ok (join "" out), record v' { store = decrement_connections v'.store })

unfoldable pub opened : Server → Server
unfolding increment_connections
opened v = record v { store = increment_connections v.store }

-- The server behind a socket that takes every reply whole, and a reader with no limit.
unfoldable pub deployed : Network Server
unfolding closed handle_read serve_line opened
deployed = record { exchange = λ bytes v. closed v (handle_read serve_line bytes ("", opened v)) }

-- The lines of a reply are within the limit of `readline`, 64 KiB before the line feed; `n` bytes of the
-- first line have been read.
unfoldable pub short_from : ℕ → String → Bool
short_from n String.[] = leb n 65536
short_from n (String.◌∷◌ c s) =
    let next = short_from 0 s in
    let longer = short_from (suc n) s in if code c == 10 then leb n 65536 && next else longer

abbrev pub first_bytes : ℕ → String → String
first_bytes zero s = ""
first_bytes (suc n) String.[] = ""
first_bytes (suc n) (String.◌∷◌ c s) = String.◌∷◌ c (first_bytes n s)

-- What comes of a reply that is written at once to a socket with room for so many bytes: the rest is lost,
-- and the connection stays open, so that the client waits for the end of the reply until its timeout. A
-- line beyond the limit raises an exception that the client does not catch.
unfoldable pub delivered : ℕ → String → Result String
unfolding short_from size
delivered room reply =
    if leb (size reply) room
    then (if short_from 0 reply then ok reply else raised)
    else if short_from 0 (first_bytes room reply)
    then error "Cache server response timed out"
    else raised

-- The server behind a socket with that room.
unfoldable pub limited : ℕ → Network Server
unfolding deployed delivered
limited room = record {
  exchange = λ bytes v.
      let (reply, v') = deployed.exchange bytes v in (and_then reply (delivered room), v');
}
