-- ===== src/Console.antt =====
-- services/console.py: the commands of the dashboard's console box, run as an agent that is on no roster.
-- The texts for the reader are not modelled: an answer has its kind, and the data behind its text.
pub mod Isolation
use atmcp.Base.{
  ℕ, String, ◌==◌, Bool, false, ◌||◌, Option, none, some, List, [], ◌∷◌, if◌then◌else◌, strip,
  starts_with, text_from, split_once, prefix, pos,
}
use Prim.Native.String.{◌++◌ as ◌<>◌}
use atmcp.Schema.{Settings, Clock, Caller, Directive, Task}
use atmcp.Wire.{Reply}
use atmcp.Server.{Server, Answer}
use atmcp.Identity.{AgentLine, resolve_agent_ref}
use atmcp.Identity.Roster.{list_agents}
use atmcp.Tasks.Board.{list_tasks}
use atmcp.Tasks.Create.{NewTask, create_task}
use atmcp.Directives.{Command, send_directive}
use atmcp.Directives.Finish.{cancel_directive}
use atmcp.Directives.Inbox.{Waiting, Waited, wait_directive, list_directives}
use atmcp.Output.{Tail, get_output}
use atmcp.Status.{TeamStatus, get_team_status}

-- `usage` is the answer to a command without its argument; `unknown` has the verb.
pub data ConsoleReply : Type 0 where
  help : ConsoleReply
  usage : ConsoleReply
  status : TeamStatus → List AgentLine → List Task → ConsoleReply
  todo : List Task → ConsoleReply
  sent dispatched canceled : Answer Reply → ConsoleReply
  watched : Waited → ConsoleReply
  unknown_agent : String → ConsoleReply
  logs : (agent_id : String) → Tail → ConsoleReply
  directives : List Directive → ConsoleReply
  unknown : (verb : String) → ConsoleReply

abbrev pub console_caller : String → String → Caller
console_caller team_id name = record {
  team_id = team_id;
  agent_id = "console:" <> name;
  display_name = name;
  session_id = "rest-console:" <> name;
}

-- What a command reads from its surroundings.
pub record ConsoleEnv : Type 0 where
  pub cfg : Settings
  pub clk : Clock
  pub lower : String → String
  pub new_id : String
  pub waiting : Waiting

abbrev pub without : String → ℕ → String → String
without p n cmd = if starts_with p cmd then strip (text_from n cmd) else cmd

-- The command without "/team" and "/"; "help" if nothing is left.
unfoldable pub command_of : String → String
command_of raw =
    let cmd = without "/" 1 (without "/team" 5 (strip raw)) in if cmd == "" then "help" else cmd

abbrev pub with_reply :
    (Answer Reply → ConsoleReply) → Answer Reply × Server → ConsoleReply × Server
with_reply f (r, s) = (f r, s)

abbrev pub plain_command : String → Command
plain_command instruction = record {
  instruction = instruction;
  headline = prefix 200 instruction;
  payload_json = "{}";
  priority = pos 0;
  session_id = none;
}

abbrev pub plain_task : String → NewTask
plain_task title = record {
  title = title;
  description = none;
  parent_id = none;
  goal_id = none;
  priority = pos 0;
  weight = pos 1;
  depends_on = [];
  lease_ttl_s = none;
}

abbrev pub is_verb : List String → String → Bool
is_verb [] verb = false
is_verb (v ∷ vs) verb = v == verb || is_verb vs verb

module _ (env : ConsoleEnv) (team_id name : String) where
  abbrev pub run_status : Server → ConsoleReply
  run_status s =
      status (get_team_status env.cfg env.clk.now s.redis team_id s.db)
        (list_agents env.cfg env.clk.now s.redis team_id s.db)
        (list_tasks team_id none none none 0 (pos 200) s.db)

  abbrev pub run_send : String × String → Server → ConsoleReply × Server
  run_send (to_agent, instruction) s =
      if instruction == ""
      then (usage, s)
      else with_reply sent (
          send_directive env.clk (console_caller team_id name) env.new_id to_agent
            (plain_command instruction) none s)

  abbrev pub run_dispatch : String → Server → ConsoleReply × Server
  run_dispatch rest s =
      if rest == ""
      then (usage, s)
      else with_reply dispatched (
          create_task env.cfg env.clk env.new_id (console_caller team_id name) (plain_task rest)
            none s)

  abbrev pub run_watch : String → Server → ConsoleReply
  run_watch rest s =
      if rest == ""
      then usage
      else watched (wait_directive (console_caller team_id name) rest (pos 0) env.waiting s)

  abbrev pub run_cancel : String → Server → ConsoleReply × Server
  run_cancel rest s =
      if rest == ""
      then (usage, s)
      else with_reply canceled (cancel_directive env.clk (console_caller team_id name) rest s)

  abbrev pub logs_of : String → Server → Option String → ConsoleReply
  logs_of agent s none = unknown_agent agent
  logs_of agent s (some aid) = logs aid (get_output team_id aid 0 (pos 0) (pos 200) env.waiting s)

  abbrev pub run_logs : String → Server → ConsoleReply
  run_logs agent s =
      if agent == "" then usage else logs_of agent s (resolve_agent_ref team_id agent s.db)

  abbrev pub run_directives : String → Server → ConsoleReply
  run_directives rest s =
      let role = env.lower rest in
      directives (
        list_directives (console_caller team_id name)
          (if is_verb ("sent" ∷ "received" ∷ []) role then some role else none) none (pos 50) s.db)

  abbrev pub run_verb : String → String → Server → ConsoleReply × Server
  run_verb verb rest s =
      if is_verb ("help" ∷ "?" ∷ "h" ∷ []) verb
      then (help, s)
      else if is_verb ("status" ∷ "list" ∷ "agents" ∷ []) verb
      then (run_status s, s)
      else if verb == "todo"
      then (todo (list_tasks team_id none none none 0 (pos 300) s.db), s)
      else if verb == "send"
      then run_send (split_once rest) s
      else if verb == "dispatch"
      then run_dispatch rest s
      else if verb == "watch"
      then (run_watch rest s, s)
      else if verb == "cancel"
      then run_cancel rest s
      else if verb == "logs"
      then (run_logs (split_once rest).0 s, s)
      else if verb == "directives"
      then (run_directives rest s, s)
      else (unknown verb, s)

  unfoldable pub run_command : String → Server → ConsoleReply × Server
  unfolding command_of
  run_command raw s =
      let (word, rest) = split_once (command_of raw) in run_verb (env.lower word) (strip rest) s
