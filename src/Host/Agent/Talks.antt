-- ===== src/Host/Agent/Talks.antt =====
-- scripts/atmcp_workbench_host.py: the messages of the agent loop are a conversation that a model server
-- accepts.
use atmcp.Base.{
  ◌≤◌, String, ◌≡◌, Bool, true, false, Option, none, some, List, [], ◌∷◌, ◌==◌, length,
  if◌then◌else◌,
}
use atmcp.Host.Sse.{Slot}
use atmcp.Host.Agent.{Message, system, user, assistant, tool, Setting, Drive, drove, exception}
use atmcp.Host.Agent.Unread.{Unread}

abbrev pub same_id : Option String → Option String → Bool
same_id none none = true
same_id (some a) (some b) = a == b
same_id _ _ = false

-- The calls that are to be answered after one more message; `none` if the message may not stand there.
abbrev pub next_calls : List Slot → Message → Option (List Slot)
next_calls [] (system c) = some []
next_calls [] (user c) = some []
next_calls [] (assistant c calls) = some calls
next_calls [] (tool id c) = none
next_calls (call ∷ calls) (tool id c) = if same_id id call.id then some calls else none
next_calls (call ∷ calls) _ = none

-- The calls that are unanswered at the end; `none` if a message stands where it may not.
abbrev pub unanswered : List Slot → List Message → Option (List Slot)
unanswered calls [] = some calls
unanswered calls (m ∷ ms) = elim (next_calls calls m) [
  | none ↦ none
  | some calls' ↦ unanswered calls' ms
]

-- Every tool message answers a call of the assistant, in the order of the calls and by their ids, and every
-- call is answered before anything else follows.
abbrev pub IsProper : List Message → Type 0
IsProper msgs = unanswered [] msgs ≡ some []

-- How the loop may end, for the conversation: with a proper one, which is what is stored if it has 40
-- messages at most; or by an exception, with a call that is still unanswered and whose arguments the tool
-- cannot read.
abbrev pub Outcome : Setting → Drive → Type 0
Outcome env (drove d) =
    IsProper d.looped.talk.msgs × (length d.looped.talk.msgs ≤ 40 → d.memory ≡ d.looped.talk.msgs)
Outcome env (exception steps t) =
    (call : Slot) × (calls : List Slot) × (unanswered [] t.msgs ≡ some (call ∷ calls))
    × Unread call.name (env.loads (if call.arguments == "" then "{}" else call.arguments))
