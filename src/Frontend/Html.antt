-- ===== src/Frontend/Html.antt =====
-- The document that a component renders: elements with the attributes that carry data or events.
-- Attributes that only style an element (`sx`, `size`, `variant`, icons' sizes) are left out, but
-- not those whose value depends on the state. An event attribute holds the message that it sends.
pub mod Laws
use Prim.Native.String.{String}
use quark_cache.Common.{
  ℕ, ◌≤◌, ◌≡◌, ◌⊎◌, Bool, true, false, not, ◌&&◌, ◌||◌, Option, some, List, [], ◌∷◌, ◌++◌, same,
  if◌then◌else◌,
}

-- A key press: its name, and the shift key.
pub record KeyPress : Type 0 where
  pub key : String
  pub shift : Bool

pub data Attr (E : Type 0) : Type 0 where
  prop : String → String → Attr E
  flag : String → Bool → Attr E
  num : String → ℕ → Attr E
  on : String → E → Attr E
  on_value : String → (String → E) → Attr E
  -- A slider's message, for the whole numbers from its `min` to its `max`.
  slide : (low high : ℕ) → (ℕ → E) → Attr E
  on_flag : String → (Bool → E) → Attr E
  on_key : (KeyPress → Option E) → Attr E

mutual
  pub data Node (E : Type 0) : Type 0 where
    text : String → Node E
    el : String → List (Attr E) → Nodes E → Node E

  pub data Nodes (E : Type 0) : Type 0 where
    nil : Nodes E
    cons : Node E → Nodes E → Nodes E

abbrev pub kids : {E : Type 0} → List (Node E) → Nodes E
kids [] = nil
kids (n ∷ ns) = cons n (kids ns)

-- `{test && <…/>}`.
abbrev pub when : {E : Type 0} → Bool → List (Node E) → List (Node E)
when true ns = ns
when false ns = []

-- `{value && <…/>}` for a value that is an object or `null`.
abbrev pub when_some : {E A : Type 0} → Option A → (A → List (Node E)) → List (Node E)
when_some Option.none f = []
when_some (some a) f = f a

-- An element that holds one text.
abbrev pub label : {E : Type 0} → String → String → Node E
label tag s = el tag [] (kids (text s ∷ []))

module _ {E : Type 0} where
  abbrev pub is_disabled : List (Attr E) → Bool
  is_disabled [] = false
  is_disabled (flag name b ∷ atts) = (same name "disabled" && b) || is_disabled atts
  is_disabled (_ ∷ atts) = is_disabled atts

  abbrev pub is_submit : List (Attr E) → Bool
  is_submit [] = false
  is_submit (prop name v ∷ atts) = (same name "type" && same v "submit") || is_submit atts
  is_submit (_ ∷ atts) = is_submit atts

  -- A form is submitted only if its submit button is not disabled.
  abbrev mutual
    pub can_submit : Node E → Bool
    can_submit (text s) = false
    can_submit (el tag atts ns) = (is_submit atts && not (is_disabled atts)) || can_submit_any ns

    pub can_submit_any : Nodes E → Bool
    can_submit_any nil = false
    can_submit_any (cons n ns) = can_submit n || can_submit_any ns

  -- The message `e` is one that these attributes can send.
  abbrev pub Sends : E → List (Attr E) → Type 0
  Sends e [] = ⊥
  Sends e (on name e' ∷ atts) = (e ≡ e') ⊎ Sends e atts
  Sends e (on_value name f ∷ atts) = ((v : String) × (e ≡ f v)) ⊎ Sends e atts
  Sends e (slide low high f ∷ atts) = ((v : ℕ) × (low ≤ v) × (v ≤ high) × (e ≡ f v)) ⊎ Sends e atts
  Sends e (on_flag name f ∷ atts) = ((v : Bool) × (e ≡ f v)) ⊎ Sends e atts
  Sends e (on_key f ∷ atts) = ((k : KeyPress) × (f k ≡ some e)) ⊎ Sends e atts
  Sends e (_ ∷ atts) = Sends e atts

  -- The user can send `e` through this document: from an element that is not disabled, or by
  -- submitting a form.
  abbrev mutual
    pub Offers : E → Node E → Type 0
    Offers e (text s) = ⊥
    Offers e (el tag atts ns) =
        ((if same tag "form" then can_submit_any ns else not (is_disabled atts)) ≡ true)
          × Sends e atts
        ⊎ OffersAny e ns

    pub OffersAny : E → Nodes E → Type 0
    OffersAny e nil = ⊥
    OffersAny e (cons n ns) = Offers e n ⊎ OffersAny e ns

  -- All texts of a document, in order.
  abbrev mutual
    pub texts : Node E → List String
    texts (text s) = s ∷ []
    texts (el tag atts ns) = texts_any ns

    pub texts_any : Nodes E → List String
    texts_any nil = []
    texts_any (cons n ns) = texts n ++ texts_any ns
