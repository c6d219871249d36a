-- ===== src/Frontend/Html/Laws.antt =====
-- The messages of lists of documents, as components build them by `map` and `&&`.
use quark_cache.Common.{
  ◌⊎◌, inl, inr, refl, subst, In, Bool, true, false, Option, none, some, List, [], ◌∷◌, ◌++◌, map,
}
use quark_cache.Frontend.Html.{Node, kids, when, when_some, Offers, OffersAny}

module _ {E : Type 0} (e : E) where
  pub OffersAny-append :
      (ms ns : List (Node E))
      → OffersAny e (kids (ms ++ ns))
      → OffersAny e (kids ms) ⊎ OffersAny e (kids ns)
  OffersAny-append [] ns h = inr h
  OffersAny-append (m ∷ ms) ns (inl h) = inl (inl h)
  OffersAny-append (m ∷ ms) ns (inr h) = elim (OffersAny-append ms ns h) [
    | inl k ↦ inl (inr k)
    | inr k ↦ inr k
  ]

  -- A message that a list of rows offers comes from one row, and the other way round.
  pub OffersAny-map :
      {A : Type 0} (row : A → Node E) (xs : List A)
      → OffersAny e (kids (map row xs))
      → (x : A) × In x xs × Offers e (row x)
  OffersAny-map row [] h = absurd h
  OffersAny-map row (x ∷ xs) (inl h) = (x, inl refl, h)
  OffersAny-map row (x ∷ xs) (inr h) =
      let (y, listed, k) = OffersAny-map row xs h in (y, inr listed, k)

  pub OffersAny-map_of :
      {A : Type 0} (row : A → Node E) (x : A) (xs : List A)
      → In x xs
      → Offers e (row x)
      → OffersAny e (kids (map row xs))
  OffersAny-map_of row x [] i h = absurd i
  OffersAny-map_of row x (y ∷ xs) (inl i) h = inl (subst (λ z. Offers e (row z)) i h)
  OffersAny-map_of row x (y ∷ xs) (inr i) h = inr (OffersAny-map_of row x xs i h)

  pub OffersAny-when :
      (b : Bool) (ns : List (Node E)) → OffersAny e (kids (when b ns)) → OffersAny e (kids ns)
  OffersAny-when true ns h = h
  OffersAny-when false ns h = absurd h

  pub OffersAny-when_some :
      {A : Type 0} (o : Option A) (f : A → List (Node E))
      → OffersAny e (kids (when_some o f))
      → (a : A) × OffersAny e (kids (f a))
  OffersAny-when_some none f h = absurd h
  OffersAny-when_some (some a) f h = (a, h)
