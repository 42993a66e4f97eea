-- ===== src/Examples/Agents.antt =====
-- The properties of the agent loop at a concrete run: the model calls a tool, then ends.
use atmcp.Base.{concat, ℕ, zero, suc, ◌≤◌, ◌≡◌, refl, none, some, List, [], ◌∷◌, ◌++◌, pos}
use atmcp.Schema.{allow}
use atmcp.Host.Sse.{SseLine, object, done_mark, ToolDelta, openai_stream, round_output}
use atmcp.Host.Sse.Slots.{arguments_at, streamed_at, Ascending}
use atmcp.Host.Sse.Assembled.{openai_stream_lem}
use atmcp.Host.Tools.{World, finished, unreadable, Loaded, absent, text}
use atmcp.Host.Agent.{
  Message, system, user, assistant, tool, streamed, Setting, Drive, drive_openai, last_40,
}
use atmcp.Host.Agent.Effects.{drive_openai-Permitted, AllPermitted, rounds_of, effects_of}
use atmcp.Host.Agent.Talks.{IsProper, unanswered}
use atmcp.Examples.Clients.{plain}

abbrev world : World
world = record {
  verdict = λ effects cmd. some (record {
    ruling = record { decision = allow; reason = none; rule = none };
    request_id = none;
  });
  poll = λ effects t. none;
  ask_timeout = 300;
  bash = λ effects cmd. finished "main.py" (pos 0);
  read = λ effects path. unreadable "no such file";
  write = λ effects path content. none;
}

abbrev listing : ToolDelta
listing = record {
  index = 0;
  id = some "call-1";
  name = some "run_bash";
  arguments = some "{\"command\": \"ls\"}";
}

abbrev env : Setting
env = record {
  world = world;
  base = "/work/w1";
  loads = λ t. Loaded.object (text "ls") absent absent t;
  model = λ step msgs. elim step [
    | zero ↦ streamed (object none none (listing ∷ []) ∷ [])
    | suc n ↦ streamed (object none (some "One file.") [] ∷ [])
  ];
}

drive_openai-Permitted_example :
    (d : Drive) × (drive_openai plain env 8 [] "what is here?" ≡ some d)
    × (rounds_of d ≤ 8)
    × AllPermitted plain world "/work/w1" (effects_of d)
drive_openai-Permitted_example = drive_openai-Permitted plain env 8 [] "what is here?" refl

-- The second call comes first, and the fragments of the first are in two objects.
abbrev interleaved : List SseLine
interleaved =
    object none (some "Let me ")
      (record listing { index = 1; arguments = some "{}" } ∷ listing ∷ [])
    ∷ object none (some "look.")
        (record listing { id = none; name = none; arguments = some "}" } ∷ [])
    ∷ done_mark
    ∷ []

openai_stream_example :
    let r = openai_stream interleaved in
    (concat (round_output interleaved) ≡ r.content)
    × Ascending r.tool_calls
    × ((i : ℕ) → arguments_at i r.tool_calls ≡ streamed_at i interleaved)
openai_stream_example = openai_stream_lem interleaved

-- A conversation with twenty tool calls in twenty rounds.
abbrev rounds : ℕ → List Message
rounds zero = []
rounds (suc n) =
    assistant "" (record { index = 0; id = some "c"; name = "run_bash"; arguments = "{}" } ∷ [])
    ∷ tool (some "c") "ok"
    ∷ rounds n

abbrev long_talk : List Message
long_talk = system "s" ∷ user "u" ∷ rounds 20 ++ assistant "done" [] ∷ []

long_talk-IsProper : IsProper long_talk
long_talk-IsProper = refl

-- What is kept of it begins with the answer to a call that is not kept.
last_40_long : unanswered [] (last_40 long_talk) ≡ none
last_40_long = refl
