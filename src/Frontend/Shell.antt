-- ===== src/Frontend/Shell.antt =====
-- components/layout/AppShell.tsx, app/page.tsx, lib/apiClient.ts and next.config.ts: the frame of
-- every page, the redirect of the root, and the way of a call to the backend.
pub mod Laws
use Prim.Native.Char.{Char, code}
use Prim.Native.String.{String}
use quark_cache.Common.{
  ℕ, Bool, true, false, not, Option, none, some, List, [], ◌∷◌, ◌++◌, map, ◌==◌, ◌&&◌,
  if◌then◌else◌,
}
use quark_cache.Common.Text.{◌+++◌}
use quark_cache.Common.Text.Prefix.{strip_prefix}
use quark_cache.Frontend.Html.{Node, el, text, prop, flag, on, kids, when, label}

pub record NavItem : Type 0 where
  pub label : String
  pub href : String
  pub highlight : Bool

abbrev pub item : String → String → NavItem
item name href = record { label = name; href = href; highlight = false }

abbrev pub nav_items : List NavItem
nav_items =
    item "Overview" "/dashboard"
    ∷ item "Explorer" "/keys"
    ∷ item "Metrics" "/metrics"
    ∷ item "Clients" "/clients"
    ∷ item "Commands" "/commands"
    ∷ item "Benchmarks" "/benchmarks"
    ∷ record { label = "AI Insights"; href = "/ai"; highlight = true }
    ∷ item "Settings" "/settings"
    ∷ []

-- `s.startsWith(t)`.
unfoldable pub starts_with : String → String → Bool
starts_with s String.[] = true
starts_with String.[] (String.◌∷◌ d t) = false
starts_with (String.◌∷◌ c s) (String.◌∷◌ d t) = code c == code d && starts_with s t

pub data Event : Type 0 where
  toggle : Event
  close : Event

-- `open`: whether the drawer of a small screen is out.
unfoldable pub handle : Event → Bool → Bool
handle toggle open' = not open'
handle close open' = false

abbrev pub is_active : String → NavItem → Bool
is_active pathname i = starts_with pathname i.href

abbrev live : Node Event
live = el "Chip" (prop "label" "Live" ∷ []) (kids [])

-- An entry of the navigation: selected on its own pages; a click closes the drawer.
unfoldable pub nav_entry : String → NavItem → Node Event
unfolding starts_with
nav_entry pathname i =
    let active = is_active pathname i in
    el "ListItem" (prop "key" i.href ∷ []) (
      kids (
        el "ListItemButton" (prop "href" i.href ∷ flag "selected" active ∷ on "click" close ∷ []) (
          kids (
            el "ListItemIcon"
              (prop "color" (if active then "primary.main" else "text.secondary") ∷ []) (kids [])
            ∷ label "ListItemText" i.label
            ∷ when i.highlight (el "Chip" (prop "label" "AI" ∷ []) (kids []) ∷ [])))
        ∷ []))

unfoldable pub drawer : String → Node Event
unfolding nav_entry
drawer pathname = el "Box" [] (
    kids (
      label "Typography" "quark cache"
      ∷ el "List" [] (kids (map (nav_entry pathname) nav_items))
      ∷ label "Typography" "QuarkCache v1.0.0"
      ∷ []))

unfoldable pub shell : Bool → Bool → String → Node Event → Node Event
unfolding drawer
shell is_mobile open' pathname children = el "Box" [] (
    kids (
      when is_mobile (
        el "AppBar" [] (
          kids (
            el "IconButton" (on "click" toggle ∷ []) (kids [])
            ∷ label "Typography" "quark cache"
            ∷ live
            ∷ []))
        ∷ [])
      ++ el "Drawer"
          (prop "variant" (if is_mobile then "temporary" else "permanent")
            ∷ flag "open" (if is_mobile then open' else true)
            ∷ on "close" close
            ∷ [])
          (kids (drawer pathname ∷ []))
        ∷ el "main" [] (kids (live ∷ children ∷ []))
        ∷ []))

-- app/page.tsx: where the root page redirects to.
abbrev pub root_redirect : String
root_redirect = "/dashboard"

-- lib/apiClient.ts: the path that a call asks for.
abbrev pub base_url : String
base_url = "/api"

abbrev pub timeout_ms : ℕ
timeout_ms = 30000

unfoldable pub request_path : String → String
request_path path = base_url +++ path

-- next.config.ts: `/api/:path*` is passed on to the backend. `BACKEND_URL` may be unset.
abbrev pub backend_or_default : Option String → String
backend_or_default none = "http://localhost:8000"
backend_or_default (some url) = url

abbrev pub destination : String → Option String → Option String
destination backend none = none
destination backend (some rest) = some (backend +++ "/" +++ rest)

unfoldable pub rewrite : Option String → String → Option String
rewrite backend_url path = destination (backend_or_default backend_url) (strip_prefix "/api/" path)
