-- ===== src/Frontend/Keys/Calls.antt =====
-- app/keys/page.tsx with its form: the calls in flight by their kinds, and what holds of them together
-- with the state.
use mathlib.Core.List.{append-nil}
use Prim.Native.String.{String}
use quark_cache.Common.{
  ◌≡◌, refl, ap, ◌∙◌, ◌≢◌, true, false, Option, none, some, List, [], ◌∷◌, ◌++◌, All, truthy,
}
use quark_cache.Frontend.Js.{Js}
use quark_cache.Frontend.Api.{SetKeyRequest}
use quark_cache.Frontend.Runtime.{
  Flies, Flies-idle, pick, pick-snoc_some, pick-snoc_none, append-ne-nil_right,
}
use quark_cache.Frontend.Keys
use quark_cache.Frontend.Keys.Form
use quark_cache.Frontend.Keys.View.{Explorer, Call, of_list, of_form}

module _ (js : Js) where
  abbrev pub set_of : Call js → Option (SetKeyRequest js.Number)
  set_of (of_form (Form.Call.set body)) = some body
  set_of _ = none

  abbrev pub get_of : Call js → Option String
  get_of (of_form (Form.Call.get path)) = some path
  get_of _ = none

  abbrev pub fetch_of : Call js → Option (Unit {0})
  fetch_of (of_list Keys.fetch) = some tt
  fetch_of _ = none

  abbrev pub IsFilled : SetKeyRequest js.Number → Type 0
  IsFilled body = (truthy body.key ≡ true) × (truthy body.value ≡ true)

  pub record IsSound (x : Explorer) (cs : List (Call js)) : Type 0 where
    pub sets : Flies x.form.set_loading (pick set_of cs)
    pub filled : All IsFilled (pick set_of cs)
    pub gets : Flies x.form.get_loading (pick get_of cs)
    pub fetches : x.list.loading ≡ true → pick fetch_of cs ≢ []

  -- A step that sends nothing and leaves the three flags.
  pub IsSound-same :
      (x y : Explorer) (cs : List (Call js))
      → x.form.set_loading ≡ y.form.set_loading
      → x.form.get_loading ≡ y.form.get_loading
      → x.list.loading ≡ y.list.loading
      → IsSound x cs
      → IsSound y (cs ++ [])
  IsSound-same x y cs e f g h = rw append-nil (record {
    sets = rw (← e) h.sets;
    filled = h.filled;
    gets = rw (← f) h.gets;
    fetches = rw (← g) h.fetches;
  })

  pub fetch-IsSound :
      (x y : Explorer) (cs : List (Call js))
      → x.form.set_loading ≡ y.form.set_loading
      → x.form.get_loading ≡ y.form.get_loading
      → IsSound x cs
      → IsSound y (cs ++ of_list Keys.fetch ∷ [])
  fetch-IsSound x y cs e f h = record {
    sets = rw (pick-snoc_none set_of cs (of_list Keys.fetch) refl, ← e) h.sets;
    filled = rw (pick-snoc_none set_of cs (of_list Keys.fetch) refl) h.filled;
    gets = rw (pick-snoc_none get_of cs (of_list Keys.fetch) refl, ← f) h.gets;
    fetches = λ _.
        rw (pick-snoc_some fetch_of cs (of_list Keys.fetch) tt refl) (append-ne-nil_right _ tt);
  }

  -- A form that begins to wait: it was idle, so its call is the only one of its kind.
  pub set-IsSound :
      (x y : Explorer) (cs : List (Call js)) (body : SetKeyRequest js.Number)
      → x.form.set_loading ≡ false
      → IsFilled body
      → y.form.set_loading ≡ true
      → x.form.get_loading ≡ y.form.get_loading
      → x.list.loading ≡ y.list.loading
      → IsSound x cs
      → IsSound y (cs ++ of_form (Form.Call.set body) ∷ [])
  set-IsSound x y cs body idle full busy f g h =
      let c : Call js = of_form (Form.Call.set body) in
      let none_yet = Flies-idle x.form.set_loading (pick set_of cs) idle h.sets in
      let only : pick set_of (cs ++ c ∷ []) ≡ body ∷ [] =
        pick-snoc_some set_of cs c body refl ∙ ap (λ bs. bs ++ body ∷ []) none_yet in
      record {
        sets = rw (busy, only) (body, refl);
        filled = rw only (full, tt);
        gets = rw (pick-snoc_none get_of cs c refl, ← f) h.gets;
        fetches = rw (pick-snoc_none fetch_of cs c refl, ← g) h.fetches;
      }

  pub get-IsSound :
      (x y : Explorer) (cs : List (Call js)) (path : String)
      → x.form.get_loading ≡ false
      → y.form.get_loading ≡ true
      → x.form.set_loading ≡ y.form.set_loading
      → x.list.loading ≡ y.list.loading
      → IsSound x cs
      → IsSound y (cs ++ of_form (Form.Call.get path) ∷ [])
  get-IsSound x y cs path idle busy e g h =
      let c : Call js = of_form (Form.Call.get path) in
      let none_yet = Flies-idle x.form.get_loading (pick get_of cs) idle h.gets in
      let only : pick get_of (cs ++ c ∷ []) ≡ path ∷ [] =
        pick-snoc_some get_of cs c path refl ∙ ap (λ bs. bs ++ path ∷ []) none_yet in
      record {
        sets = rw (pick-snoc_none set_of cs c refl, ← e) h.sets;
        filled = rw (pick-snoc_none set_of cs c refl) h.filled;
        gets = rw (busy, only) (path, refl);
        fetches = rw (pick-snoc_none fetch_of cs c refl, ← g) h.fetches;
      }

  pub delete-IsSound :
      (x : Explorer) (cs : List (Call js)) (key : String)
      → IsSound x cs
      → IsSound x (cs ++ of_list (Keys.delete key) ∷ [])
  delete-IsSound x cs key h =
      let c : Call js = of_list (Keys.delete key) in
      record {
        sets = rw (pick-snoc_none set_of cs c refl) h.sets;
        filled = rw (pick-snoc_none set_of cs c refl) h.filled;
        gets = rw (pick-snoc_none get_of cs c refl) h.gets;
        fetches = rw (pick-snoc_none fetch_of cs c refl) h.fetches;
      }
