-- ===== src/Frontend/Poll/Pages.antt =====
-- app/dashboard/page.tsx, app/metrics/page.tsx and app/clients/page.tsx as they run: the effect of the
-- first render sends a call and sets an interval; at each tick one more call is sent, whether the
-- last one is answered or not.
use Prim.Native.String.{String}
use quark_cache.Common.{Bool, [], ◌∷◌}
use quark_cache.Frontend.Js.{Js}
use quark_cache.Frontend.Api.{Reply, MetricsResponse}
use quark_cache.Frontend.Runtime.{Page}
use quark_cache.Frontend.Poll.Dashboard
use quark_cache.Frontend.Poll.Metrics
use quark_cache.Frontend.Poll.Clients

-- The call for `/metrics`, and the tick of the interval.
pub data Fetch : Type 0 where
  fetch : Fetch

pub data Event : Type 0 where
  tick : Event

pub data PageName : Type 0 where
  dashboard : PageName
  metrics : PageName
  clients : PageName

module _ (js : Js) where
  -- A page of polls, by its state after a reply; the time of day comes with the reply.
  abbrev pub polling :
      {S : Type 0} → S → (Reply (MetricsResponse js.Number) → String → S → S) → Page
  polling {S} start fetched = record {
    State = S;
    Event = Event;
    Env = String;
    Pending = Fetch;
    Result = λ p. Reply (MetricsResponse js.Number);
    CanHappen = λ s e. Unit;
    start = start;
    mounted = fetch ∷ [];
    handle = λ e now s. (s, fetch ∷ []);
    resume = λ p r now s. (fetched r now s, []);
  }

  abbrev pub PageState : PageName → Type 0
  PageState dashboard = Dashboard.State js
  PageState metrics = Metrics.State js
  PageState clients = Clients.State js

  abbrev pub start : (n : PageName) → PageState n
  start dashboard = Dashboard.initial js
  start metrics = Metrics.initial js
  start clients = Clients.initial js

  unfoldable pub fetched :
      (n : PageName) → Reply (MetricsResponse js.Number) → String → PageState n → PageState n
  unfolding Dashboard.fetched Metrics.fetched Clients.fetched
  fetched dashboard r now s = Dashboard.fetched js r now s
  fetched metrics r now s = Metrics.fetched js r now s
  fetched clients r now s = Clients.fetched js r s

  -- Whether a page shows its spinner.
  abbrev pub loading : (n : PageName) → PageState n → Bool
  loading dashboard s = s.loading
  loading metrics s = s.loading
  loading clients s = s.loading

  abbrev pub page : PageName → Page
  page n = polling (start n) (fetched n)

  -- The effects of the three pages are the same but for their interval.
  abbrev pub dashboard_page : Page
  dashboard_page = page dashboard

  abbrev pub metrics_page : Page
  metrics_page = page metrics

  abbrev pub clients_page : Page
  clients_page = page clients
