-- ===== src/Lib.antt =====
-- QuarkCache: a key-value cache server in C++ (cpp_core), a FastAPI backend that speaks its line
-- protocol (backend), and a Next.js dashboard (frontend). The dashboard's pages call the backend
-- under /api; the proxy of frontend/next.config.ts passes a call on; the backend asks the cache server.
--
-- Engine models the cache of cpp_core.
--   Engine.Lru: LruCache and CacheEntry (cpp_core/src/lru_cache.cpp with its header): the list of use as
--     nodes that keep their identity, so that an iterator is an identity; the hash map as a list of pairs
--     in the order of its iteration; the clock's reading as an argument; time points of 64 bits,
--     which wrap. The loop that makes room runs on fuel, one more than the entries, each of which
--     takes one round at most.
--   Engine.Store: KVStore (cpp_core/src/kv_store.cpp): its calls, one after the other under its lock.
--   Engine.Recency, Refines: the entries in the order of use, and when a cache holds them.
--   Engine.Promise: the same with no list of nodes and no map: what each call answers and leaves.
--   Engine.Keeps, Expiry, Runs, Counters, Answers, Listing: the proofs, from the single operation to whole runs.
--
-- Server models the line protocol of cpp_core/src/server.cpp: Server for process_command, Server.Lines for
-- what handle_read does with the bytes of a connection; its loop over the lines runs on fuel, one more
-- than the bytes of the buffer, of which each round takes one at least. Server.Tcp is
-- its event loop over all connections. Server.Chunks, Wire, RoundTrip and Ttl hold the proofs.
--
-- Backend models the services and the routes of backend/app on the server.
--   Backend.Client, Lines, Listing, Service: services/cache_client.py: the command lines, what is read from the
--     replies, and the calls over a network that brings bytes, an error that the client raises, or an
--     exception that it does not catch.
--   Backend.Exchange: those lines put together with the server's replies; Backend.Listing.Entries and
--     Laws for KEYS.
--   Backend.Deployed: the network that is a connection to the server of Server, for each command: whole
--     (`deployed`), or behind a socket with room for so many bytes of a reply, the rest of which is lost, and
--     with the limit of `readline` on a line (`limited`).
--   Backend.Routes: routers/keys.py, routers/health.py with models/schemas.py. Backend.Routes.Services:
--     routers/metrics.py, benchmarks.py, ai.py and the root of main.py. Backend.Routes.Router:
--     the endpoints of two routers. The other children hold the proofs.
--   Backend.Metrics: services/metrics_service.py. Backend.Bench: services/benchmark_service.py, whose loop over
--     the batches runs on fuel, the number of operations; the order in which the server gets the
--     operations of a batch is an argument. Backend.Assistant: services/ai_service.py.
--
-- System puts them together: a line typed into the REPL, its call through the client and the proxy, the
-- endpoint of backend/app/routers that takes it, the service, the server and the cache, and the reply
-- back to the page. HTTP, JSON, the coding of paths and the room of the socket are arguments
-- (System.Wire).
--
-- Frontend models the dashboard. A page is a state, a document that is rendered from it, handlers that
-- are cut where the code awaits, and the calls in flight.
--   Frontend.Js: what the browser computes that is not written in the repository, as a parameter:
--     numbers, locale texts, capitals, JSON texts. Its one law is of toUpperCase on ASCII texts.
--   Frontend.Html: documents, with the messages that the user can send through them.
--   Frontend.Runtime: pages as step relations: events that the document offers, and replies to calls
--     in flight in any order, any of which may fail.
--   Frontend.Api: frontend/types/index.ts.
--   Frontend.Commands, its children: frontend/app/commands/page.tsx (run, addLog, the document).
--   Frontend.Chat: frontend/app/ai/page.tsx (send, the insights).
--   Frontend.Keys: frontend/app/keys/page.tsx (fetchKeys, handleDelete), with Form for
--     frontend/components/keys/KeyForm.tsx (handleSet, handleGet) and Table for KeyTable.tsx.
--   Frontend.Poll: frontend/app/dashboard, metrics and clients/page.tsx, with the cards of
--     frontend/components/overview.
--   Frontend.Bench: frontend/app/benchmarks/page.tsx and frontend/components/benchmarks.
--   Frontend.Settings: frontend/app/settings/page.tsx. Frontend.Theme: app/ThemeRegistry.tsx, app/layout.tsx.
--   Frontend.MetricCard: frontend/components/dashboard/MetricCard.tsx.
--   Frontend.Shell: frontend/components/layout/AppShell.tsx, lib/apiClient.ts, next.config.ts.
-- Common holds lists, Boolean tests and texts (trim, split, join, decimals); Tests holds a browser that
-- runs and the runs of the pages.
--
-- Whole numbers that stand in JSON are natural numbers; ratios and times are the browser's numbers. But for
-- the loops named above no definition runs on fuel.
-- Not modelled: styles, scrolling, what charts draw beyond their data; HTTP, sockets and the event loop;
-- the registration of routers with FastAPI; the encoding of texts as bytes between backend and server.
pub mod Common
pub mod Engine
pub mod Server
pub mod Backend
pub mod Frontend
pub mod System
pub mod Tests
