-- ===== src/Backend/Assistant.antt =====
-- backend/app/services/ai_service.py: the insights that rules give, and the answers of the chat.
pub mod Answers
use Prim.Native.String.{String}
use quark_cache.Common.{
  ℕ, zero, suc, ◌*◌, Bool, true, false, ◌&&◌, ◌||◌, Option, none, some, List, [], ◌∷◌, ◌++◌, leb,
  ltb, ◌==◌, is_some, truthy, last_n, if◌then◌else◌,
}
use quark_cache.Common.Text.{◌+++◌, join, show}
use quark_cache.Common.Text.Prefix.{strip_prefix}
use quark_cache.Backend.Client.{Result, ok, error, raised}
use quark_cache.Backend.Metrics.{Raw, get_or_zero}

-- What Python's formats and methods give, as arguments: `percent hits total` is the ratio in percent with
-- one digit behind the point, `kilobytes` likewise, `grouped` is `f"{n:,}"`.
pub record Python : Type 0 where
  pub percent : ℕ → ℕ → String
  pub kilobytes : ℕ → String
  pub grouped : ℕ → String
  pub lower : String → String
  pub dumps : Raw → String

-- `w in msg`.
unfoldable pub within : String → String → Bool
unfolding strip_prefix
within w String.[] = is_some (strip_prefix w "")
within w (String.◌∷◌ c s) =
    let later = within w s in is_some (strip_prefix w (String.◌∷◌ c s)) || later

-- `any(w in msg for w in words)`.
unfoldable pub mentions : List String → String → Bool
unfolding within
mentions [] msg = false
mentions (w ∷ ws) msg = within w msg || mentions ws msg

-- A line that is added under a condition.
abbrev pub when : Bool → String → List String
when true line = line ∷ []
when false line = []

pub record Insights : Type 0 where
  pub insights : List String
  pub stats : Raw
  pub ai_enhanced : Bool

abbrev pub healthy : List String → String
healthy [] = "The cache appears healthy."
healthy (i ∷ is) = join " " (i ∷ is)

-- The answers that read no statistics, by the words of the message.
unfoldable pub general_answer : String → List String → String
unfolding mentions join
general_answer msg insights =
    if mentions ("lru" ∷ "evict" ∷ []) msg
    then "QuarkCache uses an O(1) LRU eviction policy implemented with a doubly-linked list and a hash map. When max_keys is reached, the least-recently-used key is evicted first. Keys with expired TTLs are also lazily evicted on access."
    else if mentions ("ttl" ∷ "expire" ∷ "expir" ∷ []) msg
    then "TTL (time-to-live) is set per key using SET <key> <value> <ttl_seconds>. The C++ server checks expiry lazily on GET and also runs a background sweep every 5 seconds."
    else if mentions ("slow" ∷ "latency" ∷ "fast" ∷ "perf" ∷ []) msg
    then "The C++ TCP server uses a non-blocking epoll/kqueue event loop. For maximum throughput, use pipeline-style batch commands, keep values small, and ensure the client connection pool is sized appropriately."
    else if mentions ("help" ∷ "what" ∷ "how" ∷ []) msg
    then "I can answer questions about: hit/miss ratios, memory usage, LRU eviction, TTL configuration, performance tuning, and architecture. For AI-enhanced responses, set the OPENAI_API_KEY environment variable."
    else "I understand you're asking about the cache. "
      +++ healthy insights
      +++ " For richer AI answers, set OPENAI_API_KEY in the backend environment."

abbrev pub ratio_words : List String
ratio_words = "hit" ∷ "ratio" ∷ "miss" ∷ []

abbrev pub memory_words : List String
memory_words = "memory" ∷ "mem" ∷ "bytes" ∷ []

-- `raw`, which is a variable only if `get_stats` returned.
abbrev pub bound : Result Raw → Option Raw
bound (ok raw) = some raw
bound (error e) = none
bound raised = none

-- `raw if "raw" in dir() else {}`.
abbrev pub raw_or_empty : Option Raw → Raw
raw_or_empty none = []
raw_or_empty (some raw) = raw

pub record Message : Type 0 where
  pub role : String
  pub content : String

abbrev pub system_prompt : String
system_prompt =
    "You are an expert Redis/cache engineer assistant embedded in QuarkCache — a\nRedis-like in-memory key-value store. You help developers understand cache\nperformance, diagnose issues, and optimise configurations. Be concise, practical,\nand technical. Answer in plain text (no markdown headers). Keep replies under\n200 words unless the user asks for detail."

-- `content or "No response."`.
abbrev pub or_no_response : Option String → String
or_no_response none = "No response."
or_no_response (some content) = if truthy content then content else "No response."

module _ (py : Python) where
  -- The line on the hit ratio; the comparisons are of `hits / total` with 0.5 and 0.95.
  unfoldable pub ratio_insight : ℕ → ℕ → String
  ratio_insight hits total =
      if ltb (2 * hits) total
      then "Low hit ratio ("
        +++ py.percent hits total
        +++ "%). Consider increasing TTL values or pre-warming the cache with common keys to reduce misses."
      else if ltb (95 * total) (100 * hits)
      then "Excellent hit ratio ("
        +++ py.percent hits total
        +++ "%). The cache is serving most requests without touching the origin."
      else "Hit ratio is "
        +++ py.percent hits total
        +++ "% — healthy, but there's room to improve with better cache key design."

  unfoldable pub rule_insights : Raw → List String
  unfolding ratio_insight get_or_zero show
  rule_insights raw =
      let total = get_or_zero "total_requests" raw in
      let hits = get_or_zero "hits" raw in
      let misses = get_or_zero "misses" raw in
      let conns = get_or_zero "active_connections" raw in
      if total == 0
      then "No requests recorded yet. Start sending commands to see live metrics." ∷ []
      else (ratio_insight hits total ∷ [])
        ++ when (ltb (80 * 1024 * 1024) (get_or_zero "bytes_used" raw))
            "Memory usage is above 80 MB. Consider reducing max_keys, lowering TTLs, or compressing values to avoid LRU thrashing."
        ++ when (ltb 50 conns) (
            show conns
            +++ " active connections detected. If this is unexpected, check for connection leaks in your client code.")
        ++ when (ltb hits misses && ltb 100 total)
            "More misses than hits. Your workload may have a skewed key distribution — try increasing the key_space or warming hot keys at startup."

  -- `get_insights`, with what `get_stats` brought; `none` where its exception goes through.
  unfoldable pub get_insights : Result Raw → Option Insights
  unfolding rule_insights
  get_insights (ok raw) =
      some (record { insights = rule_insights raw; stats = raw; ai_enhanced = false })
  get_insights (error e) =
      some (record { insights = rule_insights []; stats = []; ai_enhanced = false })
  get_insights raised = none

  -- The answer on the hit ratio, on the statistics and the insights.
  unfoldable pub ratio_answer : Raw → List String → String
  unfolding get_or_zero
  ratio_answer raw insights =
      let total = get_or_zero "total_requests" raw in
      let hits = get_or_zero "hits" raw in
      "Current hit ratio is "
      +++ py.percent hits total
      +++ "% ("
      +++ py.grouped hits
      +++ " hits / "
      +++ py.grouped total
      +++ " total). "
      +++ (elim insights [ [] ↦ "" | i ∷ is ↦ i ])

  unfoldable pub memory_answer : Raw → String
  unfolding get_or_zero
  memory_answer raw =
      let b = get_or_zero "bytes_used" raw in
      "Memory in use: "
      +++ py.kilobytes b
      +++ " KB ("
      +++ py.grouped b
      +++ " bytes). The C++ server uses an approximate byte counter based on key+value string lengths."

  -- The answer by rules; `none` where `raw` is read unbound, an `UnboundLocalError`.
  unfoldable pub rule_answer : Option Raw → String → Option String
  unfolding mentions rule_insights ratio_answer memory_answer general_answer
  rule_answer raw msg =
      let insights = rule_insights (raw_or_empty raw) in
      if mentions ratio_words msg
      then elim raw [ none ↦ none | some r ↦ some (ratio_answer r insights) ]
      else if mentions memory_words msg
      then elim raw [ none ↦ none | some r ↦ some (memory_answer r) ]
      else some (general_answer msg insights)

  abbrev pub context : Result Raw → String
  context (ok raw) = "Current cache stats: " +++ py.dumps raw
  context (error e) = "Cache server is currently unreachable."
  context raised = ""

  -- The messages for the model: the last ten turns between the system's and the user's.
  unfoldable pub messages : Result Raw → String → List Message → List Message
  messages stats message history =
      record { role = "system"; content = system_prompt +++ "\n\n" +++ context stats }
        ∷ last_n 10 history
      ++ record { role = "user"; content = message } ∷ []

  -- The answer when the statistics were read, or could not be.
  unfoldable pub answer :
      Option (List Message → Option (Option String))
      → Result Raw
      → String
      → List Message
      → Option String
  unfolding rule_answer messages
  answer (some model) stats message history = elim (model (messages stats message history)) [
    | none ↦ none
    | some content ↦ some (or_no_response content)
  ]
  answer none stats message history = rule_answer (bound stats) (py.lower message)

  -- `chat`: `model` is the client of OpenAI, if it is configured: whether its call returns, and the content
  -- that it answers. `none` where an exception goes through: that of the call or of the statistics, or an
  -- unbound `raw`.
  unfoldable pub chat :
      Option (List Message → Option (Option String))
      → Result Raw
      → String
      → List Message
      → Option String
  unfolding answer
  chat model (ok raw) message history = answer model (ok raw) message history
  chat model (error e) message history = answer model (error e) message history
  chat model raised message history = none
