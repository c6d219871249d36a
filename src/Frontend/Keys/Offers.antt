-- ===== src/Frontend/Keys/Offers.antt =====
-- app/keys/page.tsx with its components: what the documents let the user do.
use Prim.Native.String.{String}
use quark_cache.Common.{
  ◌≡◌, refl, sym, ap, subst, ◌↔◌, inl, inr, true, false, Option, List, [], ◌∷◌, In, truthy, arith,
}
use quark_cache.Frontend.Api.{KeyListItem}
use quark_cache.Frontend.Html.{Offers}
use quark_cache.Frontend.Html.Laws.{OffersAny-map, OffersAny-map_of}
use quark_cache.Frontend.Keys
use quark_cache.Frontend.Keys.Form
use quark_cache.Frontend.Keys.Table.{key_table, key_row, ttl_chip}
use quark_cache.Frontend.Keys.View.{
  Event, submit_set, submit_get, delete, close_snack, set_form, get_form, stored_keys, snackbar,
  view,
}

-- What the documents offer.
set_form-submit :
    (f : Form.State)
    → Offers submit_set (set_form f)
    → (f.set_loading ≡ false) × (truthy f.set_key ≡ true) × (truthy f.set_value ≡ true)
unfolding set_form
set_form-submit f h = ground arith

set_form-get : (f : Form.State) → Offers submit_get (set_form f) → ⊥
unfolding set_form
set_form-get f h = ground arith

get_form-submit :
    (f : Form.State)
    → Offers submit_get (get_form f)
    → (f.get_loading ≡ false) × (truthy f.get_key ≡ true)
unfolding get_form
get_form-submit f h = ground arith

get_form-set : (f : Form.State) → Offers submit_set (get_form f) → ⊥
unfolding get_form
get_form-set f h = ground arith

snackbar-Offers : (e : Event) (snack : Option String) → Offers e (snackbar snack) → e ≡ close_snack
unfolding snackbar
snackbar-Offers e snack h = ground arith

key_row-Offers :
    (e : Event) (row : KeyListItem) → Offers e (key_row delete row) → e ≡ delete row.key
unfolding key_row ttl_chip
key_row-Offers e row h = ground arith

key_row-delete : (row : KeyListItem) → Offers (delete row.key) (key_row delete row)
unfolding key_row ttl_chip
key_row-delete row = inr (inr (inr (inr (inl (inr (inl (inr (inl (inl (refl, inl refl))))))))))

-- The table offers to delete exactly the keys that it lists.
key_table-Offers :
    (e : Event) (rows : List KeyListItem)
    → Offers e (key_table delete rows)
    → (row : KeyListItem) × In row rows × (e ≡ delete row.key)
unfolding key_table
key_table-Offers e [] h = ground arith
key_table-Offers e (r ∷ rows) (inl h) = absurd h.1
key_table-Offers e (r ∷ rows) (inr (inl h)) = ground arith
key_table-Offers e (r ∷ rows) (inr (inr (inr h))) = absurd h
key_table-Offers e (r ∷ rows) (inr (inr (inl (inl h)))) = absurd h.1
key_table-Offers e (r ∷ rows) (inr (inr (inl (inr h)))) =
    let (row, listed, k) = OffersAny-map e (key_row delete) (r ∷ rows) h in
    (row, listed, key_row-Offers e row k)

key_table-delete :
    (row : KeyListItem) (rows : List KeyListItem)
    → In row rows
    → Offers (delete row.key) (key_table delete rows)
unfolding key_table
key_table-delete row [] i = absurd i
key_table-delete row (r ∷ rows) i = inr (
    inr (
      inl (
        inr (
          OffersAny-map_of (delete row.key) (key_row delete) row (r ∷ rows) i
            (key_row-delete row)))))

delete-injective : (k l : String) → delete k ≡ delete l → k ≡ l
delete-injective k l e = ap undo e
  where
    undo : Event → String
    undo (delete k) = k
    undo _ = ""

-- The table offers to delete a key exactly if one of its rows has that key.
pub key_table-delete_iff :
    (key : String) (rows : List KeyListItem)
    → Offers (delete key) (key_table delete rows)
      ↔ ((row : KeyListItem) × In row rows × (key ≡ row.key))
key_table-delete_iff key rows = (
  λ h.
      let (row, listed, e) = key_table-Offers (delete key) rows h in
      (row, listed, delete-injective key row.key e),
  λ h.
      let (row, listed, e) = h in
      subst (λ k. Offers (delete k) (key_table delete rows)) (sym e)
        (key_table-delete row rows listed),
)

-- Nothing but a delete button of the table stands in the list of keys, and only once it is loaded.
stored_keys-Offers :
    (e : Event) (s : Keys.State)
    → Offers e (stored_keys s)
    → (s.loading ≡ false) × Offers e (key_table delete s.keys)
unfolding stored_keys
stored_keys-Offers e s h = ground arith

stored_keys-deletes :
    (e : Event) (s : Keys.State) → Offers e (stored_keys s) → (key : String) × (e ≡ delete key)
stored_keys-deletes e s h =
    let (loaded, k) = stored_keys-Offers e s h in
    let (row, listed, same_event) = key_table-Offers e s.keys k in (row.key, same_event)

-- A form can be submitted only if its fields are filled and it is not waiting.
pub view-submit_set :
    (s : Keys.State) (f : Form.State)
    → Offers submit_set (view s f)
    → (f.set_loading ≡ false) × (truthy f.set_key ≡ true) × (truthy f.set_value ≡ true)
unfolding view
view-submit_set s f h = ground (
  arith,
  set_form-submit f,
  get_form-set f,
  stored_keys-deletes submit_set s,
  snackbar-Offers submit_set s.snack,
)

pub view-submit_get :
    (s : Keys.State) (f : Form.State)
    → Offers submit_get (view s f)
    → (f.get_loading ≡ false) × (truthy f.get_key ≡ true)
unfolding view
view-submit_get s f h = ground (
  arith,
  set_form-get f,
  get_form-submit f,
  stored_keys-deletes submit_get s,
  snackbar-Offers submit_get s.snack,
)
