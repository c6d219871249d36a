-- ===== src/Frontend/Poll/Settles.antt =====
-- app/dashboard/page.tsx, app/metrics/page.tsx and app/clients/page.tsx: the spinner goes.
use Prim.Native.String.{String}
use quark_cache.Common.{◌≡◌, ◌≢◌, ◌⊎◌, inl, inr, refl, false, List, [], ◌∷◌, ◌++◌}
use quark_cache.Frontend.Js.{Js}
use quark_cache.Frontend.Api.{Reply, ok, failed, MetricsResponse}
use quark_cache.Frontend.Runtime.{
  World, Step, event, reply, Reachable, Reachable-induction, append-ne-nil_right,
}
use quark_cache.Frontend.Poll.Dashboard
use quark_cache.Frontend.Poll.Metrics
use quark_cache.Frontend.Poll.Clients
use quark_cache.Frontend.Poll.Pages.{
  Fetch, fetch, PageName, dashboard, metrics, clients, PageState, fetched, loading, page,
}

module _ (js : Js) (n : PageName) where
  -- While the page shows its spinner a call is in flight; a reply to any call, good or bad, takes the
  -- spinner away; and it never comes back.
  pub record Settles (w : World (page js n)) : Type 0 where
    pub waits : (loading js n w.state ≡ false) ⊎ (w.pending ≢ [])
    pub settles :
        (before : List Fetch) (p : Fetch) (after : List Fetch)
        → w.pending ≡ before ++ p ∷ after
        → (r : Reply (MetricsResponse js.Number)) (now : String)
        → (v : World (page js n)) × Step (page js n) w v × (loading js n v.state ≡ false)
    pub stays :
        (v : World (page js n))
        → Step (page js n) w v
        → loading js n w.state ≡ false
        → loading js n v.state ≡ false

  keeps_waiting :
      (ends : (r : Reply (MetricsResponse js.Number)) (now : String) (s : PageState js n)
        → loading js n (fetched js n r now s) ≡ false)
      (w v : World (page js n))
      → Step (page js n) w v
      → (loading js n w.state ≡ false) ⊎ (w.pending ≢ [])
      → (loading js n v.state ≡ false) ⊎ (v.pending ≢ [])
  keeps_waiting ends w _ (event e now can) h = inr (append-ne-nil_right w.pending fetch)
  keeps_waiting ends w _ (reply before p after e r now) h = inl (ends r now w.state)

  keeps_settled :
      (ends : (r : Reply (MetricsResponse js.Number)) (now : String) (s : PageState js n)
        → loading js n (fetched js n r now s) ≡ false)
      (w v : World (page js n))
      → Step (page js n) w v
      → loading js n w.state ≡ false
      → loading js n v.state ≡ false
  keeps_settled ends w _ (event e now can) h = h
  keeps_settled ends w _ (reply before p after e r now) h = ends r now w.state

fetched-ends :
    (js : Js) (n : PageName) (r : Reply (MetricsResponse js.Number)) (now : String)
    (s : PageState js n)
    → loading js n (fetched js n r now s) ≡ false
unfolding fetched Dashboard.fetched Metrics.fetched Clients.fetched
fetched-ends js dashboard (ok m) now s = refl
fetched-ends js dashboard (failed d) now s = refl
fetched-ends js metrics (ok m) now s = refl
fetched-ends js metrics (failed d) now s = refl
fetched-ends js clients (ok m) now s = refl
fetched-ends js clients (failed d) now s = refl

-- In every reachable state of the dashboard, the metrics page and the clients page, with ticks and
-- replies in any order: while the spinner shows a call is in flight, and a reply to any call in flight,
-- good or bad, takes the spinner away; once away it never comes back.
pub Reachable-Settles :
    (js : Js) (n : PageName) (w : World (page js n)) → Reachable (page js n) w → Settles js n w
unfolding fetched
Reachable-Settles js n w r =
    let ends = fetched-ends js n in
    record {
      waits =
          Reachable-induction (page js n) (λ w. (loading js n w.state ≡ false) ⊎ (w.pending ≢ []))
            (inr (λ e. (let q = e in cc))) (keeps_waiting js n ends) w r;
      settles = λ before p after e r now. (_, reply before p after e r now, ends r now w.state);
      stays = keeps_settled js n ends w;
    }
