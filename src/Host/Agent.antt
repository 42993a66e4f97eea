-- ===== src/Host/Agent.antt =====
-- scripts/atmcp_workbench_host.py, `_drive_openai`: the agent loop over a model server that keeps no state.
pub mod Unread
pub mod Loop
pub mod Effects
pub mod Talks
use atmcp.Base.{
  ℕ, zero, suc, ◌+◌, ◌-◌, String, ◌==◌, Bool, true, false, ◌&&◌, Option, none, some, List, [], ◌∷◌,
  ◌++◌, prefix, strip, coalesce, length, drop, eqb, if◌then◌else◌,
}
use Prim.Native.String.{◌++◌ as ◌<>◌}
use atmcp.Guard.Rules.{Regex}
use atmcp.Host.Sse.{SseLine, Slot, Tokens, ChatRound, openai_stream, round_output}
use atmcp.Host.Tools.{Loaded, ToolArgs, read_args, Effect, World, Tooled, run_tool}

pub data Message : Type 0 where
  system : (content : String) → Message
  user : (content : String) → Message
  assistant : (content : String) (tool_calls : List Slot) → Message
  tool : (tool_call_id : Option String) (content : String) → Message

-- A round ends with its stream, or with an exception, before which a part of the stream may have come.
pub data Reply : Type 0 where
  call_failed : (lines : List SseLine) (error : String) → Reply
  streamed : (lines : List SseLine) → Reply

-- What the loop needs from outside: the tools' world, the worktree, json.loads of the arguments, and the
-- model, which is asked with the messages in each step.
pub record Setting : Type 0 where
  pub world : World
  pub base : String
  pub loads : String → Loaded
  pub model : ℕ → List Message → Reply

pub record Talk : Type 0 where
  pub msgs : List Message
  pub total_in : ℕ
  pub total_out : ℕ
  pub final_text : String
  pub sent : List String
  pub effects : List Effect

-- fn.get("arguments") or "{}", read for the tool; `none` is an exception.
abbrev pub args_of : Setting → Slot → Option ToolArgs
args_of env call =
    read_args call.name (env.loads (if call.arguments == "" then "{}" else call.arguments))

abbrev pub tool_line : String → ToolArgs → String → String
tool_line name a result =
    "🔧 " <> (name <> (" " <> (prefix 160 a.dump <> (" →\n" <> prefix 1000 result))))

abbrev pub answered : Slot → ToolArgs → Tooled → Talk → Talk
answered call a done t = record t {
  msgs = t.msgs ++ tool call.id (prefix 6000 done.result) ∷ [];
  sent = t.sent ++ tool_line call.name a done.result ∷ [];
  effects = done.effects;
}

-- The answer of the model is counted and joins the messages.
abbrev pub heard : ChatRound → List String → Talk → Talk
heard r sent t = record t {
  msgs = t.msgs ++ assistant r.content r.tool_calls ∷ [];
  total_in = t.total_in + r.usage.prompt;
  total_out = t.total_out + r.usage.completion;
  final_text = if r.content == "" then t.final_text else r.content;
  sent = t.sent ++ sent;
}

-- How the loop ended: `ok`, and the number of the steps that were begun.
pub record Looped : Type 0 where
  pub ok : Bool
  pub steps : ℕ
  pub talk : Talk

-- The `else` of the loop.
abbrev pub stopped : ℕ → Talk → Looped
stopped step t = record {
  ok = false;
  steps = step;
  talk = record t { final_text = strip (t.final_text <> "\n[stopped: max steps reached]") };
}

abbrev pub broken : ℕ → List String → String → Talk → Looped
broken step sent e t = record {
  ok = false;
  steps = suc step;
  talk = record t { final_text = "model call failed: " <> e; sent = t.sent ++ sent };
}

-- `OPENAI_SYSTEM`
abbrev pub openai_system : String
openai_system =
    "You are an autonomous coding agent on a team, working inside an isolated git worktree. "
    <> ("Use the provided tools to inspect/modify files and run shell commands to accomplish the "
        <> ("user's request. Work in small, verifiable steps. When finished, reply with a concise "
            <> "summary and DO NOT call a tool."))

-- `loaded or [system]`, and the prompt
abbrev pub with_prompt : List Message → String → List Message
with_prompt [] prompt = system openai_system ∷ user prompt ∷ []
with_prompt (m ∷ ms) prompt = (m ∷ ms) ++ user prompt ∷ []

abbrev pub open_talk : List Message → String → Talk
open_talk loaded prompt = record {
  msgs = with_prompt loaded prompt;
  total_in = 0;
  total_out = 0;
  final_text = "";
  sent = [];
  effects = [];
}

-- msgs[-40:]
abbrev pub last_40 : List Message → List Message
last_40 msgs = drop (length msgs - 40) msgs

pub record AgentUsage : Type 0 where
  pub input_tokens : ℕ
  pub output_tokens : ℕ
  pub num_turns : ℕ

-- The answer of the driver, what it keeps for the next turn of the thread, and what it did.
pub record AgentDriven : Type 0 where
  pub ok : Bool
  pub final_text : String
  pub usage : Option AgentUsage
  pub memory : List Message
  pub looped : Looped

abbrev pub usage_of : Looped → Option AgentUsage
usage_of l =
    if eqb l.talk.total_in 0 && eqb l.talk.total_out 0
    then none
    else some (record {
      input_tokens = l.talk.total_in;
      output_tokens = l.talk.total_out;
      num_turns = l.steps;
    })

abbrev pub driven : Looped → AgentDriven
driven l = record {
  ok = l.ok;
  final_text = prefix 8000 (strip l.talk.final_text);
  usage = usage_of l;
  memory = last_40 l.talk.msgs;
  looped = l;
}

-- An exception leaves the loop, and with it the driver, after the steps that were begun: the conversation
-- is not stored, and there is no answer.
pub data Answering : Type 0 where
  all_answered : Talk → Answering
  broke_off : Talk → Answering

pub data Ran : Type 0 where
  ended : Looped → Ran
  raised_in : (steps : ℕ) → Talk → Ran

pub data Drive : Type 0 where
  drove : AgentDriven → Drive
  exception : (steps : ℕ) → Talk → Drive

abbrev pub driven_of : Ran → Drive
driven_of (ended l) = drove (driven l)
driven_of (raised_in steps t) = exception steps t

abbrev pub is_empty : List Slot → Bool
is_empty [] = true
is_empty (call ∷ calls) = false

module _ (re : Regex) (env : Setting) where
  unfoldable pub answer_calls : List Slot → Talk → Option Answering
  answer_calls [] t = some (all_answered t)
  answer_calls (call ∷ calls) t = elim (args_of env call) [
    | none ↦ some (broke_off t)
    | some a ↦ elim (run_tool re env.world env.base call.name a t.effects) [
      | none ↦ none
      | some done ↦ answer_calls calls (answered call a done t)
    ]
  ]

  -- `left` steps of `range(max_steps)` are left.
  unfoldable pub run_steps : ℕ → ℕ → Talk → Option Ran
  unfolding answer_calls
  run_steps zero step t = some (ended (stopped step t))
  run_steps (suc left) step t = elim (env.model step t.msgs) [
    | call_failed lines e ↦ some (ended (broken step (round_output lines) e t))
    | streamed lines ↦ elim (is_empty (openai_stream lines).tool_calls) [
      | true ↦ some (
          ended (record {
            ok = true;
            steps = suc step;
            talk = heard (openai_stream lines) (round_output lines) t;
          }))
      | false ↦
          elim (answer_calls (openai_stream lines).tool_calls
            (heard (openai_stream lines) (round_output lines) t)) [
              | none ↦ none
              | some (all_answered t') ↦ run_steps left (suc step) t'
              | some (broke_off t') ↦ some (raised_in (suc step) t')
            ]
    ]
  ]

  unfoldable pub drive_openai : ℕ → List Message → String → Option Drive
  unfolding run_steps
  drive_openai max_steps loaded prompt = elim (run_steps max_steps 0 (open_talk loaded prompt)) [
    | none ↦ none
    | some r ↦ some (driven_of r)
  ]
