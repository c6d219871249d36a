-- ===== src/Frontend/Keys/View.antt =====
-- What the key explorer renders (app/keys/page.tsx, components/keys/KeyForm.tsx), and the page, its
-- form's handlers included, as it runs.
use Prim.Native.String.{String}
use quark_cache.Common.{
  Bool, true, false, not, ◌||◌, Option, none, List, [], ◌∷◌, ◌++◌, map, length, truthy, is_some,
  if◌then◌else◌,
}
use quark_cache.Common.Text.{◌+++◌, show}
use quark_cache.Frontend.Js.{Js}
use quark_cache.Frontend.Api.{Reply, KeyResponse}
use quark_cache.Frontend.Html.{
  Node, el, text, prop, flag, on, on_value, kids, when_some, label, Offers,
}
use quark_cache.Frontend.Runtime.{Page}
use quark_cache.Frontend.Keys
use quark_cache.Frontend.Keys.Form
use quark_cache.Frontend.Keys.Form.{Severity, success, error, Notice}
use quark_cache.Frontend.Keys.Table.{key_table}

pub data Event : Type 0 where
  set_key : String → Event
  set_value : String → Event
  set_ttl : String → Event
  get_key : String → Event
  submit_set : Event
  submit_get : Event
  refresh : Event
  delete : String → Event
  close_snack : Event

abbrev severity_text : Severity → String
severity_text success = "success"
severity_text error = "error"

unfoldable pub set_form : Form.State → Node Event
set_form s = el "form" (on "submit" submit_set ∷ []) (
    kids (
      el "TextField" (prop "value" s.set_key ∷ on_value "change" set_key ∷ []) (kids [])
      ∷ el "TextField" (prop "value" s.set_value ∷ on_value "change" set_value ∷ []) (kids [])
      ∷ el "TextField" (prop "value" s.set_ttl ∷ on_value "change" set_ttl ∷ []) (kids [])
      ∷ el "Button"
          (prop "type" "submit"
            ∷ flag "disabled" (s.set_loading || not (truthy s.set_key) || not (truthy s.set_value))
            ∷ [])
          (kids (text (if s.set_loading then "Storing…" else "Set Key") ∷ []))
      ∷ when_some s.set_msg (λ m.
        el "Alert" (prop "severity" (severity_text m.type) ∷ []) (kids (text m.text ∷ [])) ∷ [])))

unfoldable pub ttl_line : KeyResponse → List (Node Event)
unfolding show
ttl_line r =
    when_some r.ttl_remaining
      (λ ttl. label "Typography" ("TTL remaining: " +++ show ttl +++ "s") ∷ [])

unfoldable pub get_form : Form.State → Node Event
unfolding ttl_line
get_form s = el "form" (on "submit" submit_get ∷ []) (
    kids (
      el "TextField" (prop "value" s.get_key ∷ on_value "change" get_key ∷ []) (kids [])
      ∷ el "Button"
          (prop "type" "submit" ∷ flag "disabled" (s.get_loading || not (truthy s.get_key)) ∷ [])
          (kids (text (if s.get_loading then "Looking up…" else "Get Key") ∷ []))
      ∷ (when_some s.get_result (λ r.
            el "Box" []
              (kids (label "Typography" "Value" ∷ label "Typography" r.value ∷ ttl_line r))
            ∷ [])
          ++ when_some s.get_error
              (λ e. el "Alert" (prop "severity" "error" ∷ []) (kids (text e ∷ [])) ∷ []))))

unfoldable pub stored_keys : Keys.State → Node Event
unfolding key_table show
stored_keys s = el "Box" [] (
    kids (
      label "Typography"
        ("Stored Keys " +++ (if s.loading then "" else "(" +++ show (length s.keys) +++ ")"))
      ∷ (when_some s.error
            (λ e. el "Alert" (prop "severity" "error" ∷ []) (kids (text e ∷ [])) ∷ [])
          ++ (if s.loading then el "CircularProgress" [] (kids []) else key_table delete s.keys)
            ∷ [])))

unfoldable pub snackbar : Option String → Node Event
snackbar snack =
    el "Snackbar" (flag "open" (is_some snack) ∷ on "close" close_snack ∷ [])
      (kids (when_some snack (λ t. text t ∷ [])))

unfoldable pub view : Keys.State → Form.State → Node Event
unfolding set_form get_form stored_keys snackbar
view s f = el "Box" [] (
    kids (
      label "Typography" "Key Explorer"
      ∷ label "Typography" "Browse, set, and delete keys in the cache"
      ∷ el "IconButton" (on "click" refresh ∷ []) (kids [])
      ∷ set_form f
      ∷ get_form f
      ∷ stored_keys s
      ∷ snackbar s.snack
      ∷ []))

pub record Explorer : Type 0 where
  pub list : Keys.State
  pub form : Form.State

module _ (js : Js) where
  -- A call of the page, or one of its form.
  pub data Call : Type 0 where
    of_list : Keys.Call → Call
    of_form : Form.Call js → Call

  abbrev pub Answer : Call → Type 0
  Answer (of_list c) = Keys.Answer c
  Answer (of_form c) = Form.Answer js c

  -- The page's share and the form's share of a step, put together.
  abbrev pub by_list : Keys.State × List Keys.Call → Explorer → Explorer × List Call
  by_list (s, cs) x = (record x { list = s }, map of_list cs)

  abbrev pub by_form : Form.State × List (Form.Call js) → Explorer → Explorer × List Call
  by_form (f, cs) x = (record x { form = f }, map of_form cs)

  unfoldable pub handle : Event → Explorer → Explorer × List Call
  handle (set_key v) x = by_form (record (x.form) { set_key = v }, []) x
  handle (set_value v) x = by_form (record (x.form) { set_value = v }, []) x
  handle (set_ttl v) x = by_form (record (x.form) { set_ttl = v }, []) x
  handle (get_key v) x = by_form (record (x.form) { get_key = v }, []) x
  handle submit_set x = by_form (Form.handle_set js x.form) x
  handle submit_get x = by_form (Form.handle_get js x.form) x
  handle refresh x = by_list (Keys.fetch_keys x.list) x
  handle (delete key) x = by_list (Keys.handle_delete key x.list) x
  handle close_snack x = by_list (record (x.list) { snack = none }, []) x

  -- `onKeySet` is `fetchKeys`.
  abbrev pub after_form : Form.State × Bool → Explorer → Explorer × List Call
  after_form (f, true) x = by_list (Keys.fetch_keys x.list) (record x { form = f })
  after_form (f, false) x = (record x { form = f }, [])

  unfoldable pub resume : (c : Call) → Reply (Answer c) → Explorer → Explorer × List Call
  resume (of_list c) r x = by_list (Keys.resume c r x.list) x
  resume (of_form c) r x = after_form (Form.resume js c r x.form) x

  abbrev pub page : Page
  page = record {
    State = Explorer;
    Event = Event;
    Env = Unit {0};
    Pending = Call;
    Result = λ c. Reply (Answer c);
    CanHappen = λ x e. Offers e (view x.list x.form);
    start = record { list = Keys.initial; form = Form.initial };
    mounted = of_list Keys.fetch ∷ [];
    handle = λ e _ x. handle e x;
    resume = λ c r _ x. resume c r x;
  }
