-- ===== src/Frontend/Runtime.antt =====
-- How a page runs in the browser: the user acts on what is rendered, timers fire, and the replies to
-- the calls in flight come back in any order. A handler is cut at each `await`; between the cuts
-- anything else may happen.
use mathlib.Core.List.{append-nil}
use quark_cache.Common.{
  List, [], ◌∷◌, ◌++◌, ◌≡◌, ◌≢◌, refl, sym, ap, ◌∙◌, Bool, true, false, Option, none, some, arith,
}

pub record Page : Type 1 where
  pub State : Type 0
  pub Event : Type 0
  -- What the environment adds to an event or a reply: clock readings, random draws.
  pub Env : Type 0
  -- A handler that waits, with what it keeps.
  pub Pending : Type 0
  pub Result : Pending → Type 0
  -- The events that can happen: those that the document offers, and timers.
  pub CanHappen : State → Event → Type 0
  pub start : State
  -- The calls that the effects of the first render send.
  pub mounted : List Pending
  pub handle : Event → Env → State → State × List Pending
  pub resume : (p : Pending) → Result p → Env → State → State × List Pending

module _ (page : Page) where
  open page use {State, Event, Env, Pending, Result, CanHappen, start, mounted, handle, resume}

  pub record World : Type 0 where
    pub state : State
    pub pending : List Pending

  pub data Step : World → World → Type 0 where
    event :
        {w : World} (e : Event) (env : Env)
        → CanHappen w.state e
        → Step w (record {
          state = (handle e env w.state).0;
          pending = w.pending ++ (handle e env w.state).1;
        })
    reply :
        {w : World} (before : List Pending) (p : Pending) (after : List Pending)
        → w.pending ≡ before ++ p ∷ after
        → (r : Result p) (env : Env)
        → Step w (record {
          state = (resume p r env w.state).0;
          pending = (before ++ after) ++ (resume p r env w.state).1;
        })

  -- What a run of the page can lead to.
  pub data Reachable : World → Type 0 where
    at_start : Reachable (record { state = start; pending = mounted })
    next : {w v : World} → Reachable w → Step w v → Reachable v

  -- A property of the start that every step keeps holds throughout.
  pub Reachable-induction :
      (P : World → Type 0)
      → P (record { state = start; pending = mounted })
      → ((w v : World) → Step w v → P w → P v)
      → (w : World) → Reachable w
      → P w
  Reachable-induction P base keep _ at_start = base
  Reachable-induction P base keep v (next {w} r st) =
      keep w v st (Reachable-induction P base keep w r)

-- A handler with a spinner: `busy` is its flag, and the list holds its calls in flight. None while it
-- is idle, and one while it is busy.
abbrev pub Flies : {P : Type 0} → Bool → List P → Type 0
Flies false ps = ps ≡ []
Flies {P} true ps = (p : P) × (ps ≡ p ∷ [])

module _ {P : Type 0} where
  pub Flies-idle : (b : Bool) (ps : List P) → b ≡ false → Flies b ps → ps ≡ []
  Flies-idle true ps e h = cc
  Flies-idle false ps e h = h

  -- An idle handler that runs is idle or busy by what it sent.
  pub Flies-event :
      (b b' : Bool) (ps sent : List P)
      → b ≡ false
      → Flies b ps
      → Flies b' sent
      → Flies b' (ps ++ sent)
  Flies-event b b' ps sent e h k = rw (Flies-idle b ps e h) k

  pub Flies-same : (b : Bool) (ps : List P) → Flies b ps → Flies b (ps ++ [])
  Flies-same b ps h = rw append-nil h

  no_split : (before : List P) (p : P) (after : List P) → [] ≡ before ++ p ∷ after → ⊥
  no_split [] p after e = cc
  no_split (x ∷ before) p after e = cc

  -- A handler that has a call in flight is busy.
  pub Flies-busy :
      (b : Bool) (ps before : List P) (p : P) (after : List P)
      → ps ≡ before ++ p ∷ after
      → Flies b ps
      → b ≡ true
  Flies-busy false ps before p after e h = absurd (no_split before p after (sym h ∙ e))
  Flies-busy true ps before p after e h = refl

  -- When a reply comes, it is to the only call.
  pub Flies-reply :
      (b : Bool) (ps before : List P) (p : P) (after : List P)
      → ps ≡ before ++ p ∷ after
      → Flies b ps
      → before ++ after ≡ []
  Flies-reply false ps before p after e h = absurd (no_split before p after (sym h ∙ e))
  Flies-reply true ps [] p after e (q, h) = ground arith
  Flies-reply true ps (x ∷ before) p after e (q, h) =
      absurd (no_split before p after (ground arith))

-- The calls of one kind among the calls in flight.
unfoldable pub pick : {A P : Type 0} → (P → Option A) → List P → List A
pick f [] = []
pick f (x ∷ xs) = elim (f x) [ none ↦ pick f xs | some a ↦ a ∷ pick f xs ]

module _ {A P : Type 0} (f : P → Option A) where
  pub pick-nil : pick f [] ≡ []
  unfolding pick
  pick-nil = refl

  pub pick-append : (xs ys : List P) → pick f (xs ++ ys) ≡ pick f xs ++ pick f ys
  unfolding pick
  pick-append [] ys = refl
  pick-append (x ∷ xs) ys = ground (arith, pick-append xs ys)

  pub pick-cons_some :
      (x : P) (xs : List P) (a : A) → f x ≡ some a → pick f (x ∷ xs) ≡ a ∷ pick f xs
  unfolding pick
  pick-cons_some x xs a e = ground arith

  pub pick-cons_none : (x : P) (xs : List P) → f x ≡ none → pick f (x ∷ xs) ≡ pick f xs
  unfolding pick
  pick-cons_none x xs e = ground arith

  -- The calls of this kind, after one more call.
  pub pick-snoc_some :
      (xs : List P) (x : P) (a : A) → f x ≡ some a → pick f (xs ++ x ∷ []) ≡ pick f xs ++ a ∷ []
  pick-snoc_some xs x a e =
      pick-append xs (x ∷ [])
      ∙ ap (◌++◌ (pick f xs)) (pick-cons_some x [] a e ∙ ap (◌∷◌ a) pick-nil)

  pub pick-snoc_none : (xs : List P) (x : P) → f x ≡ none → pick f (xs ++ x ∷ []) ≡ pick f xs
  pick-snoc_none xs x e =
      pick-append xs (x ∷ [])
      ∙ ap (◌++◌ (pick f xs)) (pick-cons_none x [] e ∙ pick-nil)
      ∙ append-nil (pick f xs)

  -- A call of another kind that is answered leaves the calls of this kind.
  pub pick-others :
      (before : List P) (x : P) (after : List P)
      → f x ≡ none
      → pick f (before ++ after) ≡ pick f (before ++ x ∷ after)
  pick-others before x after e =
      rw (pick-append before after, pick-append before (x ∷ after), pick-cons_none x after e)

  module _ (b : Bool) (before : List P) (x : P) (after : List P) (a : A) (e : f x ≡ some a)
      (h : Flies b (pick f (before ++ x ∷ after))) where
    split : pick f (before ++ x ∷ after) ≡ pick f before ++ a ∷ pick f after
    split = pick-append before (x ∷ after) ∙ ap (◌++◌ (pick f before)) (pick-cons_some x after a e)

    -- The only call of its kind is answered: the handler was busy, and none is left.
    pub pick_busy : b ≡ true
    pick_busy = Flies-busy b (pick f (before ++ x ∷ after)) (pick f before) a (pick f after) split h

    pub pick_answered : pick f (before ++ after) ≡ []
    pick_answered =
        pick-append before after
        ∙ Flies-reply b (pick f (before ++ x ∷ after)) (pick f before) a (pick f after) split h

pub append-ne-nil_right : {A : Type 0} (xs : List A) (x : A) → xs ++ x ∷ [] ≢ []
append-ne-nil_right [] x e = cc
append-ne-nil_right (y ∷ xs) x e = cc
