-- ===== src/Backend/Assistant/Answers.antt =====
-- backend/app/services/ai_service.py: when the chat answers.
use Prim.Native.String.{String}
use quark_cache.Common.{
  ◌≡◌, refl, Bool, true, false, not, ◌||◌, Option, none, some, List, arith, is_some, Bool-cases,
  Option-cases, inl, inr,
}
use quark_cache.Backend.Client.{Result, ok, error, raised, is_error}
use quark_cache.Backend.Metrics.{Raw}
use quark_cache.Backend.Assistant.{
  Python, Message, mentions, ratio_words, memory_words, rule_answer, messages, answer, chat,
}

rule_answer-bound :
    (py : Python) (raw : Raw) (msg : String) → is_some (rule_answer py (some raw) msg) ≡ true
unfolding rule_answer
rule_answer-bound py raw msg = ground arith

rule_answer-unbound :
    (py : Python) (msg : String)
    → is_some (rule_answer py none msg)
      ≡ not (mentions ratio_words msg || mentions memory_words msg)
unfolding rule_answer
rule_answer-unbound py msg = elim (Bool-cases (mentions ratio_words msg)) [
  | inl e ↦ rw (e, rule_answer) refl
  | inr e ↦ elim (Bool-cases (mentions memory_words msg)) [
    | inl k ↦ rw (e, k, rule_answer) refl
    | inr k ↦ rw (e, k, rule_answer) refl
  ]
]

-- What the answer hangs on: with a model, whether its call returns; with none, whether there are statistics
-- or the message speaks of neither the ratio nor the memory.
abbrev pub can_answer :
    Python
    → Option (List Message → Option (Option String))
    → Result Raw
    → String
    → List Message
    → Bool
can_answer py (some call) stats message history = is_some (call (messages py stats message history))
can_answer py none stats message history =
    not (is_error stats)
    || not (mentions ratio_words (py.lower message) || mentions memory_words (py.lower message))

answer-is_some :
    (py : Python) (model : Option (List Message → Option (Option String))) (stats : Result Raw)
    (message : String) (history : List Message)
    → is_some (answer py model stats message history) ≡ can_answer py model stats message history
unfolding answer
answer-is_some py (some model) stats message history =
    elim (Option-cases (model (messages py stats message history))) [
      | inl e ↦ rw e refl
      | inr (content, e) ↦ rw e refl
    ]
answer-is_some py none (ok raw) message history = rule_answer-bound py raw (py.lower message)
answer-is_some py none (error e) message history = rule_answer-unbound py (py.lower message)
answer-is_some py none raised message history = rule_answer-unbound py (py.lower message)

-- The chat answers no message if the statistics end with an exception of another kind than the client's.
-- Else, with a model configured, it answers a message exactly if the call of the model returns; with none it
-- answers every message if the statistics were read, and if not, it fails on exactly the messages that
-- speak of the ratio or of the memory.
pub chat-is_some :
    (py : Python) (model : Option (List Message → Option (Option String))) (stats : Result Raw)
    (message : String) (history : List Message)
    → is_some (chat py model stats message history) ≡ (elim stats [
      | ok raw ↦ can_answer py model (ok raw) message history
      | error e ↦ can_answer py model (error e) message history
      | raised ↦ false
    ])
unfolding chat
chat-is_some py model (ok raw) message history = answer-is_some py model (ok raw) message history
chat-is_some py model (error e) message history = answer-is_some py model (error e) message history
chat-is_some py model raised message history = refl
