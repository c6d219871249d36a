-- ===== src/Frontend/Chat.antt =====
-- app/ai/page.tsx: the chat with the assistant, and the insights that the page loads once. `send` is
-- cut where it waits for the reply.
pub mod View
pub mod Turns
use Prim.Native.String.{String}
use quark_cache.Common.{
  Bool, true, false, not, ◌||◌, Option, none, some, List, [], ◌∷◌, ◌++◌, map, truthy, if◌then◌else◌,
}
use quark_cache.Common.Text.{trim}
use quark_cache.Frontend.Api.{Reply, ok, failed}

pub data Role : Type 0 where
  user assistant : Role

-- `enhanced` is left out of the messages that the page makes itself.
pub record Message : Type 0 where
  pub role : Role
  pub content : String
  pub enhanced : Option Bool

pub record InsightsData : Type 0 where
  pub insights : List String
  pub ai_enhanced : Bool

abbrev pub starters : List String
starters =
    "What's my hit ratio and how can I improve it?" ∷ "Why is memory usage increasing?"
    ∷ "How does LRU eviction work?" ∷ "How do I tune TTL for best performance?"
    ∷ "What does ops/sec tell me about my workload?" ∷ "Explain the C++ epoll server architecture"
    ∷ []

pub record State : Type 0 where
  pub messages : List Message
  pub input : String
  pub loading : Bool
  pub insights : Option InsightsData
  pub insight_err : Option String

-- An entry of the history that is posted.
pub record Turn : Type 0 where
  pub role : Role
  pub content : String

pub record ChatRequest : Type 0 where
  pub message : String
  pub history : List Turn

pub record ChatResponse : Type 0 where
  pub reply : String
  pub ai_enhanced : Bool

pub data Call : Type 0 where
  insights : Call
  chat : ChatRequest → Call

abbrev pub Answer : Call → Type 0
Answer insights = InsightsData
Answer (chat body) = ChatResponse

abbrev pub turn : Message → Turn
turn m = record { role = m.role; content = m.content }

abbrev pub say : Role → String → Option Bool → State → State
say role content enhanced s = record s {
  messages = s.messages ++ (record { role = role; content = content; enhanced = enhanced }) ∷ [];
}

-- `send(text)`, up to its call.
unfoldable pub send : Option String → State → State × List Call
unfolding trim
send text s =
    let msg = trim (elim text [ none ↦ s.input | some t ↦ t ]) in
    if not (truthy msg) || s.loading then (s, []) else (
      record (say user msg none s) { input = ""; loading = true },
      chat (record { message = msg; history = map turn s.messages }) ∷ [],
    )

abbrev pub apology : String
apology = "Sorry, I could not connect to the AI service. Make sure the FastAPI backend is running."

-- What follows a reply: the rest of `send`, and the two ends of the effect that loads the insights.
unfoldable pub resume : (c : Call) → Reply (Answer c) → State → State
resume (chat body) (ok a) s = record (say assistant a.reply (some a.ai_enhanced) s) {
  loading = false;
}
resume (chat body) (failed detail) s = record (say assistant apology none s) { loading = false }
resume insights (ok a) s = record s { insights = some a }
resume insights (failed detail) s = record s {
  insight_err = some "Could not load insights — is the cache server running?";
}
