-- ===== src/Frontend/Settings.antt =====
-- app/settings/page.tsx: the settings' form. Saving shows a notice for three seconds; nothing is
-- stored or sent.
use Prim.Native.String.{String}
use quark_cache.Common.{
  ℕ, suc, ◌*◌, ◌-◌, ◌≤◌, ◌<◌, ◌≡◌, refl, arith, Bool, true, false, [], ◌∷◌, ◌++◌,
}
use quark_cache.Frontend.Js.{Js}
use quark_cache.Frontend.Html.{
  Node, el, text, prop, flag, on, on_value, on_flag, slide, kids, when, label, Offers,
}

-- `timers`: the timeouts that are set and have not fired.
pub record State : Type 0 where
  pub host : String
  pub port : String
  pub max_keys : ℕ
  pub ttl_enabled : Bool
  pub saved : Bool
  pub timers : ℕ

abbrev pub initial : State
initial = record {
  host = "127.0.0.1";
  port = "9000";
  max_keys = 100000;
  ttl_enabled = true;
  saved = false;
  timers = 0;
}

pub data Event : Type 0 where
  set_host : String → Event
  set_port : String → Event
  set_max_keys : ℕ → Event
  set_ttl_enabled : Bool → Event
  save : Event
  -- A timeout that `handleSave` has set.
  timeout : Event

unfoldable pub handle : Event → State → State
handle (set_host v) s = record s { host = v }
handle (set_port v) s = record s { port = v }
-- The slider moves in steps of 1000.
handle (set_max_keys k) s = record s { max_keys = 1000 * k }
handle (set_ttl_enabled b) s = record s { ttl_enabled = b }
handle save s = record s { saved = true; timers = suc s.timers }
handle timeout s = record s { saved = false; timers = s.timers - 1 }

module _ (js : Js) where
  unfoldable pub view : State → Node Event
  view s = el "Box" [] (
      kids (
        label "Typography" "Settings"
        ∷ label "Typography" "Configure cache server connection and behaviour"
        ∷ (when s.saved (
              el "Alert" (prop "severity" "success" ∷ [])
                (kids (text "Settings saved successfully." ∷ []))
              ∷ [])
            ++ el "TextField" (prop "value" s.host ∷ on_value "change" set_host ∷ []) (kids [])
              ∷ el "TextField" (prop "value" s.port ∷ on_value "change" set_port ∷ []) (kids [])
              ∷ el "TextField" (prop "defaultValue" "8000" ∷ []) (kids [])
              ∷ label "Typography" (js.to_locale (js.integer false s.max_keys))
              ∷ el "Slider" (slide 1 1000 set_max_keys ∷ []) (kids [])
              ∷ el "Switch" (flag "checked" s.ttl_enabled ∷ on_flag "change" set_ttl_enabled ∷ [])
                  (kids [])
              ∷ el "Switch" (flag "defaultChecked" true ∷ []) (kids [])
              ∷ el "Switch" (flag "defaultChecked" true ∷ []) (kids [])
              ∷ el "TextField" (prop "defaultValue" "2000" ∷ []) (kids [])
              ∷ el "Button" (on "click" save ∷ []) (kids (text "Save Settings" ∷ []))
              ∷ [])))

  -- A timeout fires only if one is set; the rest is the user's.
  abbrev pub CanHappen : State → Event → Type 0
  CanHappen s timeout = 0 < s.timers
  CanHappen s e = Offers e (view s)

  pub data Reachable : State → Type 0 where
    at_start : Reachable initial
    next : {s : State} → Reachable s → (e : Event) → CanHappen s e → Reachable (handle e s)

  -- What the page shows as the limit of keys is a multiple of 1000 from 1000 to 1,000,000, and the
  -- notice that the settings are saved is taken away: while it shows, a timeout is set.
  abbrev pub IsSound : State → Type 0
  IsSound s =
      ((k : ℕ) × (s.max_keys ≡ 1000 * k) × (1 ≤ k) × (k ≤ 1000)) × (s.saved ≡ true → 0 < s.timers)

  slider : (s : State) (k : ℕ) → Offers (set_max_keys k) (view s) → (1 ≤ k) × (k ≤ 1000)
  unfolding view
  slider s k o = ground arith

  handle-IsSound : (e : Event) (s : State) → CanHappen s e → IsSound s → IsSound (handle e s)
  unfolding handle
  handle-IsSound (set_host v) s c h = h
  handle-IsSound (set_port v) s c h = h
  handle-IsSound (set_ttl_enabled b) s c h = h
  handle-IsSound (set_max_keys k) s c h =
      let (low, high) = slider s k c in ((k, refl, low, high), h.1)
  handle-IsSound save s c h = (h.0, λ e. omega arith)
  handle-IsSound timeout s c h = (h.0, λ e. cc)

  -- Whatever the user enters and whenever the timers fire, the limit of keys that the page shows is a
  -- multiple of 1000 from 1000 to 1,000,000, and while the notice shows that the settings are saved,
  -- a timeout is set that takes it away.
  pub Reachable-IsSaved : (s : State) → Reachable s → IsSound s
  Reachable-IsSaved _ at_start = ((100, refl, omega arith, omega arith), λ e. cc)
  Reachable-IsSaved _ (next {s} r e c) = handle-IsSound e s c (Reachable-IsSaved s r)
