-- ===== src/Frontend/Theme.antt =====
-- app/ThemeRegistry.tsx and app/layout.tsx: the theme of the dashboard, and the document around every page.
use Prim.Native.String.{String}
use quark_cache.Common.{ℕ, Bool, List, [], ◌∷◌}
use quark_cache.Frontend.Html.{Node, el, prop, kids}
use quark_cache.Frontend.Shell
use quark_cache.Frontend.Shell.{shell}

-- The argument of `createTheme`: an object of texts, numbers and objects.
mutual
  pub data Value : Type 0 where
    text : String → Value
    number : ℕ → Value
    object : Fields → Value

  pub data Fields : Type 0 where
    nil : Fields
    field : String → Value → Fields → Fields

abbrev pub fields : List (String × Value) → Value
fields fs = object (listed fs)
  where
    listed : List (String × Value) → Fields
    listed [] = nil
    listed ((name, v) ∷ rest) = field name v (listed rest)

abbrev pub main_color : String → Value
main_color c = fields (("main", text c) ∷ [])

abbrev pub palette : Value
palette = fields (
    ("mode", text "light")
    ∷ ("primary", main_color "#5b5bd6")
    ∷ ("secondary", main_color "#0891b2")
    ∷ ("success", main_color "#16a34a")
    ∷ ("warning", main_color "#d97706")
    ∷ ("error", main_color "#dc2626")
    ∷ ("background", fields (("default", text "#f5f7fb") ∷ ("paper", text "#ffffff") ∷ []))
    ∷ ("text", fields (("primary", text "#172033") ∷ ("secondary", text "#667085") ∷ []))
    ∷ ("divider", text "rgba(23,32,51,0.1)")
    ∷ [])

abbrev pub typography : Value
typography = fields (
    ("fontFamily", text "Inter, Arial, Helvetica, sans-serif")
    ∷ ("h5", fields (("letterSpacing", number 0) ∷ []))
    ∷ ("h6", fields (("letterSpacing", number 0) ∷ []))
    ∷ ("button", fields (("textTransform", text "none") ∷ ("fontWeight", number 700) ∷ []))
    ∷ [])

-- `{ styleOverrides: { [slot]: style } }`.
abbrev pub overrides : String → List (String × Value) → Value
overrides slot style = fields (("styleOverrides", fields ((slot, fields style) ∷ [])) ∷ [])

abbrev pub components : Value
components = fields (
    ("MuiCssBaseline", overrides "body" (("backgroundColor", text "#f5f7fb") ∷ []))
    ∷ (
      "MuiCard",
      fields (
          ("defaultProps", fields (("variant", text "outlined") ∷ []))
          ∷ (
            "styleOverrides",
            fields (
                (
                  "root",
                  fields (
                      ("borderColor", text "rgba(23,32,51,0.1)")
                      ∷ ("boxShadow", text "0 12px 30px rgba(18, 27, 54, 0.06)")
                      ∷ []),
                )
                ∷ []),
          )
          ∷ []),
    )
    ∷ ("MuiTableCell", overrides "root" (("borderColor", text "rgba(23,32,51,0.08)") ∷ []))
    ∷ ("MuiButton", overrides "root" (("borderRadius", number 8) ∷ []))
    ∷ [])

abbrev pub theme : Value
theme = fields (
    ("palette", palette)
    ∷ ("shape", fields (("borderRadius", number 8) ∷ []))
    ∷ ("typography", typography)
    ∷ ("components", components)
    ∷ [])

module _ {E : Type 0} where
  -- `ThemeRegistry`, which gives the theme to what stands below it.
  unfoldable pub theme_registry : Node E → Node E
  theme_registry children =
      el "CacheProvider" (prop "key" "mui" ∷ [])
        (kids (el "ThemeProvider" [] (kids (el "CssBaseline" [] (kids []) ∷ children ∷ [])) ∷ []))

abbrev pub title : String
title = "QuarkCache"

abbrev pub description : String
description = "Redis-like in-memory key-value store with real-time dashboard"

-- `RootLayout`: a page in the shell, in the theme, in the document.
unfoldable pub root_layout : Bool → Bool → String → Node Shell.Event → Node Shell.Event
unfolding theme_registry shell
root_layout is_mobile open' pathname children = el "html" (prop "lang" "en" ∷ []) (
    kids (el "body" [] (kids (theme_registry (shell is_mobile open' pathname children) ∷ [])) ∷ []))
