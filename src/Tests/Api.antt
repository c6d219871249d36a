-- ===== src/Tests/Api.antt =====
-- The API's services on the server with two keys.
use Prim.Native.String.{String}
use mathlib.Core.List.{Perm}
use mathlib.Core.List.Perm
use quark_cache.Common.{
  ℕ, ◌≡◌, ◌≢◌, refl, sym, ap, ◌∙◌, true, false, Option, none, some, List, [], ◌∷◌, ◌++◌, map, All,
  length, same, arith, is_some, if◌then◌else◌,
}
use quark_cache.Common.Text.{show, ◌+++◌}
use quark_cache.Common.Text.Decimal.{value_from, value-show}
use quark_cache.Common.Integers.{ℤ, pos, difference}
use quark_cache.Engine.{same-ne, size}
use quark_cache.Engine.Answers.{has_passed}
use quark_cache.Engine.Lru
use quark_cache.Engine.Lru.{Seconds, plus, minus, is_expired, new_entry}
use quark_cache.Server
use quark_cache.Server.{Server}
use quark_cache.Backend.Client.{Result, ok, error, raised}
use quark_cache.Backend.Exchange.{whole_ttl}
use quark_cache.Backend.Lines.{is_boundary}
use quark_cache.Backend.Listing.Entries.{entry_line, HasPlain, listed}
use quark_cache.Backend.Listing.Laws.{ReadsInts}
use quark_cache.Backend.Deployed.{limited}
use quark_cache.Backend.Routes.{response, found_key, set_key, get_key, list_keys}
use quark_cache.Backend.Routes.Flow.{set_key-get_key}
use quark_cache.Backend.Routes.KeyList.{IsListable, list_keys-all_entries}
use quark_cache.Backend.Metrics.{Raw, MetricsResponse, fresh, get_or_zero, get_metrics}
use quark_cache.Backend.Metrics.Window.{Poll, after, base, get_metrics-window}
use quark_cache.Backend.Bench.{Op}
use quark_cache.Backend.Assistant.{Python, chat}
use quark_cache.Backend.Assistant.Answers.{chat-is_some}
use quark_cache.Tests.Engine.{cache, recency, cache-Shows}
use quark_cache.Tests.Server.{server, k-IsToken, v-IsToken}

set_key-get_key_example :
    (v' : Server) × (set_key (limited 4096) "k" "v" (whole_ttl (some 60)) server
      ≡ (response 201 (record { key = "k"; value = "v"; ttl_remaining = some 60 }), v'))
    × ((get_key (limited 4096) "k" v').0
        ≡ found_key "k" (if has_passed 0 1 (whole_ttl (some 60)) then none else some "v"))
unfolding size
set_key-get_key_example =
    set_key-get_key 4096 server recency "k" "v" (some 60) cache-Shows k-IsToken v-IsToken
      (omega arith, omega arith) (omega arith) (omega arith, omega arith, omega arith)

-- `int` on the texts of the protocol.
pub int : String → Option Seconds
unfolding value_from
int s = if same s "-1" then some (minus 1) else some (plus (value_from 0 s))

show-ne_minus : (n : ℕ) → show n ≢ "-1"
unfolding value_from show
show-ne_minus n e =
    let one : n ≡ 1 = sym (value-show n) ∙ ap (value_from 0) e in
    let q : "1" ≡ "-1" = sym (ap show one) ∙ e in
    let r : true ≡ false = ap (λ s. same s "1") q in cc

pub int-ReadsInts : ReadsInts int
unfolding int
int-ReadsInts = (refl, λ n. rw (same-ne (show n) "-1" (show-ne_minus n), value-show n) refl)

pub entries-HasPlain : All HasPlain (Lru.all_entries 0 cache)
unfolding Lru.all_entries is_boundary
entries-HasPlain = (
  (
    ((refl, tt), (refl, tt)),
    ((refl, (refl, (refl, (refl, tt)))), (refl, (refl, (refl, (refl, tt))))),
  ),
  (
    (
      ((refl, tt), (refl, tt)),
      ((refl, (refl, (refl, (refl, (refl, tt))))), (refl, (refl, (refl, (refl, (refl, tt)))))),
    ),
    tt,
  ),
)

pub entries-IsListable : IsListable 4096 0 (Lru.all_entries 0 cache)
unfolding Lru.all_entries entry_line Server.keys_reply size show
entries-IsListable = ((omega arith, (omega arith, tt)), omega arith)

list_keys-all_entries_example :
    (v' : Server) × (list_keys (limited 4096) int server
      ≡ some (
        response 200 (record {
          keys = map (listed 0) (Lru.all_entries 0 cache);
          count = length (Lru.all_entries 0 cache);
        }),
        v',
      ))
list_keys-all_entries_example =
    list_keys-all_entries 4096 int server int-ReadsInts entries-HasPlain entries-IsListable

abbrev polls : List Poll
polls = (0, 5) ∷ (2000000000, 9) ∷ []

abbrev raw : Raw
raw = ("total_requests", 12) ∷ ("hits", 3) ∷ []

get_metrics-window_example :
    (m : MetricsResponse) × ((get_metrics 2500000000 (ok raw) (after fresh polls)).0 ≡ ok m)
    × (m.ops_per_sec
        ≡ difference
            (get_or_zero "total_requests" raw)
            (base 2500000000 (polls ++ (2500000000, get_or_zero "total_requests" raw) ∷ [])))
get_metrics-window_example = get_metrics-window polls 2500000000 raw (
  omega arith,
  (omega arith, (omega arith, tt)),
  (omega arith, (omega arith, tt), (omega arith, tt, tt)),
)

abbrev ap_rate : Result MetricsResponse → Option ℤ
ap_rate (ok m) = some m.ops_per_sec
ap_rate (error e) = none
ap_rate raised = none

-- The rate of a first poll is all that the server ever counted.
first_rate : ap_rate (get_metrics 7 (ok raw) fresh).0 ≡ some (pos 12)
unfolding get_metrics
first_rate = refl

abbrev ops : List Op
ops =
    record { key = "k"; value = "v"; is_read = false }
    ∷ record { key = "k"; value = ""; is_read = true }
    ∷ []

abbrev reverse_two : List Op → List Op
reverse_two [] = []
reverse_two (a ∷ []) = a ∷ []
reverse_two (a ∷ b ∷ rest) = b ∷ a ∷ rest

abbrev py : Python
py = record {
  percent = λ h t. show h +++ "/" +++ show t;
  kilobytes = show;
  grouped = show;
  lower = λ s. s;
  dumps = λ r. "{}";
}

chat-is_some_example :
    is_some (chat py (some (λ ms. none)) (ok raw) "what is the hit ratio?" []) ≡ false
chat-is_some_example = chat-is_some py (some (λ ms. none)) (ok raw) "what is the hit ratio?" []

-- Without statistics a question about the hit ratio is not answered.
unanswered : chat py none (error "refused") "what is the hit ratio?" [] ≡ none
unfolding chat
unanswered = refl
