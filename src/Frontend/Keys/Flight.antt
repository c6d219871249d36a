-- ===== src/Frontend/Keys/Flight.antt =====
-- app/keys/page.tsx with its form as it runs: the spinners and the calls in flight.
use mathlib.Core.List.{append-nil}
use Prim.Native.String.{String}
use quark_cache.Common.{◌≡◌, refl, ◌≢◌, true, false, Option, List, [], ◌∷◌, ◌++◌}
use quark_cache.Frontend.Js.{Js}
use quark_cache.Frontend.Api.{Reply, ok, failed, SetKeyRequest}
use quark_cache.Frontend.Html.{Offers}
use quark_cache.Frontend.Runtime.{
  pick, pick-others, pick_answered, World, Step, event, reply, Reachable, Reachable-induction,
}
use quark_cache.Frontend.Keys
use quark_cache.Frontend.Keys.Form
use quark_cache.Frontend.Keys.Offers.{view-submit_set, view-submit_get}
use quark_cache.Frontend.Keys.View.{
  Event, submit_set, submit_get, delete, refresh, set_key, set_value, set_ttl, get_key, close_snack,
  view, Explorer, handle, resume, page, Call, Answer, of_list, of_form,
}
use quark_cache.Frontend.Keys.Calls.{
  set_of, get_of, fetch_of, IsSound, IsSound-same, fetch-IsSound, set-IsSound, get-IsSound,
  delete-IsSound,
}

module _ (js : Js) where
  handle-IsSound :
      (e : Event) (x : Explorer) (cs : List (Call js))
      → Offers e (view x.list x.form)
      → IsSound js x cs
      → IsSound js (handle js e x).0 (cs ++ (handle js e x).1)
  unfolding handle Keys.fetch_keys Keys.handle_delete Form.handle_set Form.handle_get
  handle-IsSound (set_key v) x cs o h = IsSound-same js x _ cs refl refl refl h
  handle-IsSound (set_value v) x cs o h = IsSound-same js x _ cs refl refl refl h
  handle-IsSound (set_ttl v) x cs o h = IsSound-same js x _ cs refl refl refl h
  handle-IsSound (get_key v) x cs o h = IsSound-same js x _ cs refl refl refl h
  handle-IsSound submit_set x cs o h =
      let (idle, full_key, full_value) = view-submit_set x.list x.form o in
      set-IsSound js x _ cs _ idle (full_key, full_value) refl refl refl h
  handle-IsSound submit_get x cs o h =
      let (idle, full) = view-submit_get x.list x.form o in
      get-IsSound js x _ cs _ idle refl refl refl h
  handle-IsSound refresh x cs o h = fetch-IsSound js x _ cs refl refl h
  handle-IsSound (delete key) x cs o h = delete-IsSound js x cs key h
  handle-IsSound close_snack x cs o h = IsSound-same js x _ cs refl refl refl h

  -- A call of the page is answered: the forms' calls are as before.
  list_answer-IsSound :
      (x : Explorer) (y : Keys.State) (before after : List (Call js)) (c : Keys.Call)
      → (y.loading ≡ true → pick (fetch_of js) (before ++ after) ≢ [])
      → IsSound js x (before ++ of_list c ∷ after)
      → IsSound js (record x { list = y }) (before ++ after)
  list_answer-IsSound x y before after c k h = record {
    sets = rw (pick-others (set_of js) before (of_list c) after refl) h.sets;
    filled = rw (pick-others (set_of js) before (of_list c) after refl) h.filled;
    gets = rw (pick-others (get_of js) before (of_list c) after refl) h.gets;
    fetches = k;
  }

  delete_answer-IsSound :
      (x : Explorer) (snack : Option String) (before after : List (Call js)) (key : String)
      → IsSound js x (before ++ of_list (Keys.delete key) ∷ after)
      → IsSound js (record x { list = record (x.list) { snack = snack } }) (before ++ after)
  delete_answer-IsSound x snack before after key h =
      list_answer-IsSound x (record (x.list) { snack = snack }) before after (Keys.delete key)
        (λ busy.
          rw (pick-others (fetch_of js) before (of_list (Keys.delete key)) after refl)
            (h.fetches busy))
        h

  set_answer-IsSound :
      (x : Explorer) (f : Form.State) (before after : List (Call js))
      (body : SetKeyRequest js.Number)
      → f.set_loading ≡ false
      → f.get_loading ≡ x.form.get_loading
      → IsSound js x (before ++ of_form (Form.Call.set body) ∷ after)
      → IsSound js (record x { form = f }) (before ++ after)
  set_answer-IsSound x f before after body idle e h =
      let c : Call js = of_form (Form.Call.set body) in
      let gone = pick_answered (set_of js) x.form.set_loading before c after body refl h.sets in
      record {
        sets = rw (idle, gone) refl;
        filled = rw gone tt;
        gets = rw (pick-others (get_of js) before c after refl, e) h.gets;
        fetches = rw (pick-others (fetch_of js) before c after refl) h.fetches;
      }

  get_answer-IsSound :
      (x : Explorer) (f : Form.State) (before after : List (Call js)) (path : String)
      → f.get_loading ≡ false
      → f.set_loading ≡ x.form.set_loading
      → IsSound js x (before ++ of_form (Form.Call.get path) ∷ after)
      → IsSound js (record x { form = f }) (before ++ after)
  get_answer-IsSound x f before after path idle e h =
      let c : Call js = of_form (Form.Call.get path) in
      record {
        sets = rw (pick-others (set_of js) before c after refl, e) h.sets;
        filled = rw (pick-others (set_of js) before c after refl) h.filled;
        gets =
            rw (idle, pick_answered (get_of js) x.form.get_loading before c after path refl h.gets)
              refl;
        fetches = rw (pick-others (fetch_of js) before c after refl) h.fetches;
      }

  resume-IsSound :
      (c : Call js) (r : Reply (Answer js c)) (x : Explorer) (before after : List (Call js))
      → IsSound js x (before ++ c ∷ after)
      → IsSound js (resume js c r x).0 ((before ++ after) ++ (resume js c r x).1)
  unfolding resume Keys.resume Form.resume
  resume-IsSound (of_list Keys.fetch) (ok a) x before after h =
      rw append-nil (list_answer-IsSound x _ before after Keys.fetch (λ e. cc) h)
  resume-IsSound (of_list Keys.fetch) (failed d) x before after h =
      rw append-nil (list_answer-IsSound x _ before after Keys.fetch (λ e. cc) h)
  resume-IsSound (of_list (Keys.delete key)) (ok a) x before after h =
      fetch-IsSound js _ _ (before ++ after) refl refl
        (delete_answer-IsSound x x.list.snack before after key h)
  resume-IsSound (of_list (Keys.delete key)) (failed d) x before after h =
      rw append-nil (delete_answer-IsSound x _ before after key h)
  resume-IsSound (of_form (Form.Call.set body)) (ok a) x before after h =
      fetch-IsSound js _ _ (before ++ after) refl refl (
        set_answer-IsSound x (record (x.form) { set_loading = false }) before after body refl refl
          h)
  resume-IsSound (of_form (Form.Call.set body)) (failed d) x before after h =
      rw append-nil (set_answer-IsSound x _ before after body refl refl h)
  resume-IsSound (of_form (Form.Call.get path)) (ok a) x before after h =
      rw append-nil (get_answer-IsSound x _ before after path refl refl h)
  resume-IsSound (of_form (Form.Call.get path)) (failed d) x before after h =
      rw append-nil (get_answer-IsSound x _ before after path refl refl h)

  Step-IsSound :
      (w v : World (page js))
      → Step (page js) w v
      → IsSound js w.state w.pending
      → IsSound js v.state v.pending
  Step-IsSound w _ (event e c o) inv = handle-IsSound e w.state w.pending o inv
  Step-IsSound w _ (reply before p after e r c) inv =
      resume-IsSound p r w.state before after (rw e at inv)

  -- In every state that the key explorer can reach: each form has exactly one call in flight while
  -- it shows its spinner and none otherwise; a key and a value on their way to be stored are not
  -- empty; and while the list shows its spinner, a fetch of the keys is in flight.
  pub Reachable-IsSound :
      (w : World (page js)) → Reachable (page js) w → IsSound js w.state w.pending
  unfolding pick
  Reachable-IsSound =
      Reachable-induction (page js) (λ w. IsSound js w.state w.pending)
        (record { sets = refl; filled = tt; gets = refl; fetches = λ _ e. cc }) Step-IsSound
