-- ===== src/Frontend/Commands/Typed.antt =====
-- app/commands/page.tsx: from the line that is typed to the call that is sent.
use Prim.Native.String.{String}
use text.Mathlib.TextEquality.{eq_iff}
use quark_cache.Common.{
  ◌≡◌, refl, sym, ◌∙◌, ap, ◌≢◌, inl, inr, true, Option, none, some, List, [], ◌∷◌, All, same,
  truthy, Bool-cases,
}
use text.Mathlib.TextLemmas.{cons-ne-nil}
use quark_cache.Common.Text.{is_space, trim, split_spaces, join}
use quark_cache.Common.Text.Words.{IsWord}
use quark_cache.Common.Text.Lines.{trim-join, split_spaces-join, join-ne-nil}
use quark_cache.Frontend.Js.{Js, parse_int, int_number}
use quark_cache.Frontend.Commands.{
  State, Pending, Call, Plan, plan_set, plan, carry_out, begun, run, key_path,
}

pub truthy_of_ne : (s : String) → s ≢ "" → truthy s ≡ true
truthy_of_ne s h = elim (Bool-cases (same s "")) [
  | inl e ↦ absurd (h ((eq_iff s "").0 e))
  | inr e ↦ rw e
]

pub ne-nil_of_truthy : (s : String) → truthy s ≡ true → s ≢ ""
ne-nil_of_truthy s h e = let k = rw e at h in cc

module _ (js : Js) (t0 t1 : js.Number) (ts : String) (s : State js) where
  open js use {to_upper, to_upper-fixed, Number}

  -- A line of words is looked at word by word.
  run-words :
      (w : String) (ws : List String)
      → IsWord w
      → All IsWord ws
      → s.input ≡ join " " (w ∷ ws)
      → run js t0 t1 ts s
        ≡ carry_out js s.input t0 t1 ts (plan js (to_upper w) (w ∷ ws)) (begun js s)
  unfolding run
  run-words w ws h k e =
      let trimmed : trim s.input ≡ s.input = ap trim e ∙ trim-join w ws h k ∙ sym e in
      let parts : split_spaces s.input ≡ w ∷ ws = ap split_spaces e ∙ split_spaces-join w ws h k in
      rw (trimmed, parts, truthy_of_ne s.input (rw e (join-ne-nil w ws h k)))

  -- A word in capitals, such as a command's name, is its own capital form; the call that `run`
  -- sends keeps the line and the clock's reading, and the input is empty while it waits.
  abbrev pub sent : Call js → State js × Option (Pending js)
  sent c = (begun js s, some (record { raw = s.input; t0 = t0; request = c }))

  abbrev pub set_call : String → String → Option Number → Call js
  set_call key value ttl = Call.set (record { key = key; value = value; ttl = ttl })

  plan-set :
      (key value : String)
      → IsWord key
      → IsWord value
      → plan js (to_upper "SET") ("SET" ∷ key ∷ value ∷ []) ≡ Plan.call (set_call key value none)
  unfolding plan plan_set
  plan-set key value h k =
      rw (to_upper-fixed "SET" refl, truthy_of_ne key h.1, truthy_of_ne value k.1)

  plan-set_ttl :
      (key value ttl : String)
      → IsWord key
      → IsWord value
      → IsWord ttl
      → plan js (to_upper "SET") ("SET" ∷ key ∷ value ∷ ttl ∷ [])
        ≡ Plan.call (set_call key value (some (int_number js (parse_int true ttl))))
  unfolding plan plan_set
  plan-set_ttl key value ttl h k l = rw (
    to_upper-fixed "SET" refl,
    truthy_of_ne key h.1,
    truthy_of_ne value k.1,
    truthy_of_ne ttl l.1,
  )

  -- The lines SET, GET, DEL, KEYS and STATS, word by word, and the call that each means.
  pub data Means : List String → Call js → Type 0 where
    set :
        {key value : String}
        → IsWord key
        → IsWord value
        → Means ("SET" ∷ key ∷ value ∷ []) (set_call key value none)
    set_ttl :
        {key value ttl : String}
        → IsWord key
        → IsWord value
        → IsWord ttl
        → Means
            ("SET" ∷ key ∷ value ∷ ttl ∷ [])
            (set_call key value (some (int_number js (parse_int true ttl))))
    get : {key : String} → IsWord key → Means ("GET" ∷ key ∷ []) (Call.get (key_path js key))
    del : {key : String} → IsWord key → Means ("DEL" ∷ key ∷ []) (Call.del (key_path js key))
    keys : Means ("KEYS" ∷ []) Call.keys
    stats : Means ("STATS" ∷ []) Call.stats

  Means-words :
      {ws : List String} {c : Call js}
      → Means ws c
      → (w : String) × (vs : List String) × (ws ≡ w ∷ vs)
        × IsWord w
        × All IsWord vs
        × (plan js (to_upper w) ws ≡ Plan.call c)
  unfolding plan is_space
  Means-words (set {key} {value} h k) = (
    "SET",
    _,
    refl,
    ((refl, (refl, (refl, tt))), cons-ne-nil _ _),
    (h, (k, tt)),
    plan-set key value h k,
  )
  Means-words (set_ttl {key} {value} {ttl} h k l) = (
    "SET",
    _,
    refl,
    ((refl, (refl, (refl, tt))), cons-ne-nil _ _),
    (h, (k, (l, tt))),
    plan-set_ttl key value ttl h k l,
  )
  Means-words (get h) = (
    "GET",
    _,
    refl,
    ((refl, (refl, (refl, tt))), cons-ne-nil _ _),
    (h, tt),
    rw (to_upper-fixed "GET" refl),
  )
  Means-words (del h) = (
    "DEL",
    _,
    refl,
    ((refl, (refl, (refl, tt))), cons-ne-nil _ _),
    (h, tt),
    rw (to_upper-fixed "DEL" refl),
  )
  Means-words keys = (
    "KEYS",
    _,
    refl,
    ((refl, (refl, (refl, (refl, tt)))), cons-ne-nil _ _),
    tt,
    rw (to_upper-fixed "KEYS" refl),
  )
  Means-words stats = (
    "STATS",
    _,
    refl,
    ((refl, (refl, (refl, (refl, (refl, tt))))), cons-ne-nil _ _),
    tt,
    rw (to_upper-fixed "STATS" refl),
  )

  -- A SET, GET, DEL, KEYS or STATS line, its words joined by single spaces, sends exactly the call that
  -- it means: the key and the value are the words typed, and a TTL is sent just if one is typed, which is
  -- what parseInt reads of the word, or NaN.
  -- Meanwhile the input is empty, no hint is shown, and the page waits.
  pub run-Means :
      {ws : List String} {c : Call js}
      → Means ws c
      → s.input ≡ join " " ws
      → run js t0 t1 ts s ≡ sent c
  unfolding carry_out
  run-Means {ws} {c} m e =
      let (w, vs, same_words, h, k, planned) = Means-words m in
      run-words w vs h k (e ∙ ap (join " ") same_words)
      ∙ ap (λ pl. carry_out js s.input t0 t1 ts pl (begun js s))
          (ap (plan js (to_upper w)) (sym same_words) ∙ planned)
