-- ===== src/Backend/Routes/Counters.antt =====
-- backend/app/routers/metrics.py down to cpp_core/src/kv_store.cpp: the counters that the API shows.
use Prim.Native.Char.{code}
use Prim.Native.String.{String}
use text.Mathlib.TextLemmas.{cons-ne-nil, append_assoc}
use quark_cache.Common.{
  ℕ, suc, ◌+◌, ◌-◌, ◌%◌, ◌<◌, ltb, ◌≡◌, refl, sym, ap, ◌∙◌, Bool, true, not, ◌&&◌, Option, some, [],
  ◌∷◌, ◌==◌, truthy, arith,
}
use quark_cache.Common.Text.{◌+++◌, show, join}
use quark_cache.Common.Text.Prefix.{strip_prefix-append}
use quark_cache.Common.Text.Ascii.{capitals}
use quark_cache.Engine.{same-ne}
use quark_cache.Engine.Store.{
  KvStore, Stats, get_stats, increment_connections, decrement_connections,
}
use quark_cache.Server.{Server, crlf, stats_reply, tokenize, command, process_command, serve_line}
use quark_cache.Server.Ttl.{show-IsToken}
use quark_cache.Backend.Client.{Result, ok, read_line}
use quark_cache.Backend.Exchange.{NoEnd, NoEnd-append, NoEnd-NoBlank, read_line-crlf}
use quark_cache.Backend.Service
use quark_cache.Backend.Service.{and_then, answered}
use quark_cache.Backend.Metrics
use quark_cache.Backend.Metrics.{
  Raw, State, MetricsResponse, get_or_zero, measured, record_total, ratio,
}
use quark_cache.Backend.Deployed.{deployed, opened, closed}
use quark_cache.Backend.Deployed.Line.{exchange-line, append-ne_nil}
use quark_cache.Backend.Routes.{Http, response, or_503}
use quark_cache.Backend.Routes.Services.{get_metrics}

-- The text of the statistics, and the dictionary that it stands for.
abbrev pub stats_json : Stats → String
stats_json s =
    "{\"total_requests\":"
    +++ show s.total_requests
    +++ ",\"hits\":"
    +++ show s.hits
    +++ ",\"misses\":"
    +++ show s.misses
    +++ ",\"bytes_used\":"
    +++ show s.bytes_used
    +++ ",\"active_connections\":"
    +++ show s.active_connections
    +++ "}"

abbrev pub stats_dict : Stats → Raw
stats_dict s =
    ("total_requests", s.total_requests)
    ∷ ("hits", s.hits)
    ∷ ("misses", s.misses)
    ∷ ("bytes_used", s.bytes_used)
    ∷ ("active_connections", s.active_connections)
    ∷ []

no_end : String → Bool
no_end String.[] = true
no_end (String.◌∷◌ c s) = not (code c == 13) && not (code c == 10) && no_end s

no_end-NoEnd : (s : String) → no_end s ≡ true → NoEnd s
unfolding no_end
no_end-NoEnd String.[] h = tt
no_end-NoEnd (String.◌∷◌ c s) h = (ground arith, ground arith, no_end-NoEnd s (ground arith))

-- A label and a number before the rest of a line.
NoEnd-field :
    (label : String) (n : ℕ) (s : String)
    → no_end label ≡ true
    → NoEnd s
    → NoEnd (label +++ show n +++ s)
NoEnd-field label n s h k =
    NoEnd-append label _ (no_end-NoEnd label h)
      (NoEnd-append (show n) s (NoEnd-NoBlank (show n) (show-IsToken n).0) k)

stats_json-NoEnd : (s : Stats) → NoEnd (stats_json s)
unfolding no_end
stats_json-NoEnd s = NoEnd-field "{\"total_requests\":" s.total_requests _ refl (
    NoEnd-field ",\"hits\":" s.hits _ refl (
      NoEnd-field ",\"misses\":" s.misses _ refl (
        NoEnd-field ",\"bytes_used\":" s.bytes_used _ refl (
          NoEnd-field ",\"active_connections\":" s.active_connections "}" refl
            (no_end-NoEnd "}" refl)))))

stats_reply-stats_json : (s : Stats) → stats_reply s ≡ "STATS " +++ stats_json s +++ crlf
unfolding stats_reply
stats_reply-stats_json s =
    let json : stats_json s +++ crlf
        ≡ "{\"total_requests\":"
          +++ show s.total_requests
          +++ ",\"hits\":"
          +++ show s.hits
          +++ ",\"misses\":"
          +++ show s.misses
          +++ ",\"bytes_used\":"
          +++ show s.bytes_used
          +++ ",\"active_connections\":"
          +++ show s.active_connections
          +++ "}\r\n" =
      simp append_assoc in
    append_assoc "STATS " "{\"total_requests\":" _ ∙ ap (λ t. "STATS " +++ t) (sym json)

stats_reply-read : (s : Stats) → read_line (stats_reply s) ≡ "STATS " +++ stats_json s
unfolding no_end
stats_reply-read s =
    ap read_line (stats_reply-stats_json s ∙ sym (append_assoc "STATS " (stats_json s) crlf))
    ∙ read_line-crlf ("STATS " +++ stats_json s)
        (NoEnd-append "STATS " (stats_json s) (no_end-NoEnd "STATS " refl) (stats_json-NoEnd s))

stats_reply-truthy : (s : Stats) → truthy (stats_reply s) ≡ true
stats_reply-truthy s =
    ap truthy (stats_reply-stats_json s)
    ∙ rw
        (same-ne ("STATS " +++ stats_json s +++ crlf) ""
          (append-ne_nil "STATS " (stats_json s +++ crlf) (cons-ne-nil _ _)))
        refl

serve_line-stats :
    (v : Server)
    → serve_line "STATS" v
      ≡ some (stats_reply (get_stats v.store), record v { served = suc v.served })
unfolding serve_line process_command command tokenize capitals
serve_line-stats v = refl

-- The server's statistics as the client of the API gets them, on a connection of its own.
get_stats-read :
    (loads : String → Option Raw) (v : Server)
    → loads (stats_json (get_stats (opened v).store))
      ≡ some (stats_dict (get_stats (opened v).store))
    → Service.get_stats deployed loads v ≡ (
      ok (stats_dict (get_stats (opened v).store)),
      record v { store = decrement_connections (opened v).store; served = suc v.served },
    )
unfolding Service.get_stats closed answered join opened no_end
get_stats-read loads v reads =
    let stats = get_stats (opened v).store in
    let sent =
      exchange-line "STATS" v _ (stats_reply stats) (no_end-NoEnd "STATS" refl) (cons-ne-nil _ _)
        (serve_line-stats (opened v)) (stats_reply-truthy stats) in
    rw
      (
        Service.get_stats,
        Service.send_command,
        sent,
        closed,
        answered,
        stats_reply-read stats,
        Service.stats_result,
        strip_prefix-append "STATS " (stats_json stats),
        reads,
      )
      refl

opened-closed :
    (s : KvStore)
    → s.active_connections < 4294967295
    → ((increment_connections s).active_connections ≡ s.active_connections + 1)
      × (decrement_connections (increment_connections s) ≡ s)
unfolding increment_connections decrement_connections
opened-closed s h =
    let up : (s.active_connections + 1) % 4294967296 ≡ s.active_connections + 1 = omega arith in
    let positive : ltb 0 (s.active_connections + 1) ≡ true = ground arith in
    let down : s.active_connections + 1 - 1 ≡ s.active_connections = omega arith in
    (up, rw (up, positive, down) refl)

-- The answer of the route by what the client's call gave.
abbrev shown : ℕ → State → Result Raw × Server → Http MetricsResponse × (Server × State)
shown now window (stats, v) =
    let (result, window') = Metrics.get_metrics now stats window in
    (or_503 result (response 200), (v, window'))

-- If `json.loads` reads the text of the server's statistics, which comes whole, and fewer than 2^32 - 1
-- connections are open: `GET /metrics` is answered with 200 and the counters of the store, to whose
-- connections it adds the one of the call; the window of rates grows by the poll, and the store is left as it was.
pub get_metrics-get_stats :
    (loads : String → Option Raw) (now : ℕ) (v : Server) (window : State)
    → loads (stats_json (get_stats (opened v).store))
      ≡ some (stats_dict (get_stats (opened v).store))
    → v.store.active_connections < 4294967295
    → (m : MetricsResponse) × (v' : Server) × (get_metrics deployed loads now v window
        ≡ (response 200 m, (v', record_total now v.store.total_requests window)))
      × (m.total_requests ≡ v.store.total_requests)
      × (m.hits ≡ v.store.hits)
      × (m.misses ≡ v.store.misses)
      × (m.hit_ratio ≡ ratio v.store.hits v.store.total_requests)
      × (m.memory_used_bytes ≡ v.store.lru.bytes_used)
      × (m.active_connections ≡ v.store.active_connections + 1)
      × (v'.store ≡ v.store)
unfolding get_metrics Metrics.get_metrics measured get_or_zero opened get_stats
    increment_connections
get_metrics-get_stats loads now v window reads few =
    let stats = get_stats (opened v).store in
    let (up, down) = opened-closed v.store few in
    (
      (measured now (stats_dict stats) window).0,
      record v { store = decrement_connections (opened v).store; served = suc v.served },
      ap (shown now window) (get_stats-read loads v reads),
      refl,
      refl,
      refl,
      refl,
      refl,
      up,
      down,
    )
