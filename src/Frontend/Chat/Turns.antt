-- ===== src/Frontend/Chat/Turns.antt =====
-- app/ai/page.tsx as it runs: whose turn it is, and the history that is posted.
use mathlib.Core.List.{map-append, append-nil}
use Prim.Native.String.{String}
use quark_cache.Common.{
  ◌≡◌, refl, sym, ap, ◌∙◌, Bool, true, false, not, ◌||◌, Option, none, some, List, [], ◌∷◌, ◌++◌,
  map, All, Bool-cases, inl, inr, truthy, arith,
}
use quark_cache.Common.Text.{trim}
use quark_cache.Frontend.Api.{Reply, ok, failed}
use quark_cache.Frontend.Runtime.{
  Flies, Flies-idle, Flies-busy, Flies-reply, World, Step, event, reply, Reachable,
  Reachable-induction,
}
use quark_cache.Frontend.Chat.{
  Role, user, assistant, Message, Turn, turn, ChatRequest, State, Call, insights, chat, Answer,
  send, resume, say, apology,
}
use quark_cache.Frontend.Chat.View.{Event, set_input, send_text, handle, page}

abbrev pub other : Role → Role
other user = assistant
other assistant = user

-- The messages alternate: the first is by `r`, and after the last it is the turn of `q`.
abbrev pub Alternate : Role → List Role → Role → Type 0
Alternate r [] q = r ≡ q
Alternate r (x ∷ xs) q = (x ≡ r) × Alternate (other r) xs q

Alternate-append :
    (r : Role) (xs : List Role) (q x : Role)
    → Alternate r xs q
    → x ≡ q
    → Alternate r (xs ++ x ∷ []) (other q)
Alternate-append r [] q x h e = (e ∙ sym h, ap other h)
Alternate-append r (y ∷ ys) q x h e = (h.0, Alternate-append (other r) ys q x h.1 e)

abbrev pub roles : List Message → List Role
roles = map (λ m. m.role)

abbrev pub turn_roles : List Turn → List Role
turn_roles = map (λ t. t.role)

-- Whose turn it is: the assistant's while the page waits.
abbrev pub whose : Bool → Role
whose true = assistant
whose false = user

-- The chat calls among the calls in flight.
abbrev pub chats : List Call → List ChatRequest
chats [] = []
chats (insights ∷ cs) = chats cs
chats (chat body ∷ cs) = body ∷ chats cs

chats-append : (cs ds : List Call) → chats (cs ++ ds) ≡ chats cs ++ chats ds
chats-append [] ds = refl
chats-append (insights ∷ cs) ds = chats-append cs ds
chats-append (chat body ∷ cs) ds = ap (◌∷◌ body) (chats-append cs ds)

-- A question that is posted is not empty, and its history is a list of whole turns.
abbrev pub IsQuestion : ChatRequest → Type 0
IsQuestion body = (truthy body.message ≡ true) × Alternate user (turn_roles body.history) user

abbrev pub TakesTurns : State → List Call → Type 0
TakesTurns s cs =
    Alternate user (roles s.messages) (whose s.loading)
    × Flies s.loading (chats cs)
    × All IsQuestion (chats cs)

turn_roles-map : (ms : List Message) → turn_roles (map turn ms) ≡ roles ms
turn_roles-map [] = refl
turn_roles-map (m ∷ ms) = ap (◌∷◌ m.role) (turn_roles-map ms)

say-Alternate :
    (r q : Role) (content : String) (enhanced : Option Bool) (s : State)
    → Alternate user (roles s.messages) q
    → r ≡ q
    → Alternate user (roles (say r content enhanced s).messages) (other q)
say-Alternate r q content enhanced s h e =
    rw map-append (Alternate-append user (roles s.messages) q r h e)

-- A question that is sent: the only call, and the assistant's turn.
ask-TakesTurns :
    (msg : String) (s : State) (cs : List Call)
    → truthy msg ≡ true
    → s.loading ≡ false
    → TakesTurns s cs
    → TakesTurns
        (record (say user msg none s) { input = ""; loading = true })
        (cs ++ chat (record { message = msg; history = map turn s.messages }) ∷ [])
ask-TakesTurns msg s cs full idle (turns, flies, asked) =
    let body : ChatRequest = record { message = msg; history = map turn s.messages } in
    let before : Alternate user (roles s.messages) user = rw idle at turns in
    let only : chats (cs ++ chat body ∷ []) ≡ body ∷ [] =
      chats-append cs (chat body ∷ [])
      ∙ ap (λ bs. bs ++ body ∷ []) (Flies-idle s.loading (chats cs) idle flies) in
    (
      say-Alternate user user msg none s before refl,
      (body, only),
      rw only ((full, rw turn_roles-map before), tt),
    )

passes : (b c : Bool) → not b || c ≡ false → (b ≡ true) × (c ≡ false)
passes b c e = ground arith

send-TakesTurns :
    (t : Option String) (s : State) (cs : List Call)
    → TakesTurns s cs
    → TakesTurns (send t s).0 (cs ++ (send t s).1)
unfolding send
send-TakesTurns t s cs h =
    let msg = trim (elim t [ none ↦ s.input | some u ↦ u ]) in
    elim (Bool-cases (not (truthy msg) || s.loading)) [
      | inl e ↦ rw (e, append-nil) h
      | inr e ↦
          let (full, idle) = passes (truthy msg) s.loading e in
          rw e (ask-TakesTurns msg s cs full idle h)
    ]

handle-TakesTurns :
    (e : Event) (s : State) (cs : List Call)
    → TakesTurns s cs
    → TakesTurns (handle e s).0 (cs ++ (handle e s).1)
unfolding handle
handle-TakesTurns (set_input v) s cs h = rw append-nil h
handle-TakesTurns (send_text t) s cs h = send-TakesTurns t s cs h

-- The call that a reply answers is taken out.
chats-split :
    (before : List Call) (c : Call) (after : List Call)
    → chats (before ++ c ∷ after) ≡ chats before ++ chats (c ∷ after)
chats-split before c after = chats-append before (c ∷ after)

answered-TakesTurns :
    (body : ChatRequest) (content : String) (enhanced : Option Bool) (s : State)
    (before after : List Call)
    → TakesTurns s (before ++ chat body ∷ after)
    → TakesTurns (record (say assistant content enhanced s) { loading = false }) (before ++ after)
answered-TakesTurns body content enhanced s before after (turns, flies, asked) =
    let split = chats-split before (chat body) after in
    let gone : chats (before ++ after) ≡ [] =
      chats-append before after
      ∙ Flies-reply s.loading (chats (before ++ chat body ∷ after)) (chats before) body
          (chats after) split flies in
    let busy : s.loading ≡ true =
      Flies-busy s.loading (chats (before ++ chat body ∷ after)) (chats before) body (chats after)
        split flies in
    (say-Alternate assistant assistant content enhanced s (rw busy at turns) refl, gone, rw gone tt)

resume-TakesTurns :
    (c : Call) (r : Reply (Answer c)) (s : State) (before after : List Call)
    → TakesTurns s (before ++ c ∷ after)
    → TakesTurns (resume c r s) (before ++ after)
unfolding resume
resume-TakesTurns (chat body) (ok a) s before after h =
    answered-TakesTurns body a.reply (some a.ai_enhanced) s before after h
resume-TakesTurns (chat body) (failed d) s before after h =
    answered-TakesTurns body apology none s before after h
resume-TakesTurns insights (ok a) s before after h =
    rw (chats-append before after, ← chats-split before insights after) h
resume-TakesTurns insights (failed d) s before after h =
    rw (chats-append before after, ← chats-split before insights after) h

Step-TakesTurns :
    (w v : World page) → Step page w v → TakesTurns w.state w.pending → TakesTurns v.state v.pending
Step-TakesTurns w _ (event e c h) inv = handle-TakesTurns e w.state w.pending inv
Step-TakesTurns w _ (reply before p after e r c) inv =
    rw append-nil (resume-TakesTurns p r w.state before after (rw e at inv))

-- In every state that the chat can reach, user and assistant alternate and the user began; the
-- assistant is to speak exactly while the page waits, and then one question is in flight; a question
-- is never empty, and the history posted with it is empty or ends with the assistant's answer.
pub Reachable-TakesTurns : (w : World page) → Reachable page w → TakesTurns w.state w.pending
Reachable-TakesTurns =
    Reachable-induction page (λ w. TakesTurns w.state w.pending) (refl, refl, tt) Step-TakesTurns
