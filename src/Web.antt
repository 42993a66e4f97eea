-- ===== src/Web.antt =====
-- web.py: the REST calls of the workers and of the workbench, which want the join token of their team.
-- A handler draws at most one id, which is an argument; the arguments of an operation are what the
-- handler reads from the path, the query and the body, with the defaults that FastAPI fills in.
pub mod Handlers
pub mod Views
pub mod Gate
pub mod Access
pub mod Delivery
pub mod Isolation
pub mod Outsiders
use atmcp.Base.{
  ℕ, zero, suc, String, ◌==◌, Bool, true, false, not, ◌&&◌, ◌||◌, Option, none, some, List, [], ◌∷◌,
  if◌then◌else◌, coalesce, truthy, strip, text_from, prefix, starts_with, ℤ,
}
use Prim.Native.String
use Prim.Native.String.{◌++◌ as ◌<>◌}
use atmcp.Base.Table.{fetch_one}
use atmcp.Schema.{Team, Session, Directive, GuardRequest, Caller, Clock, Settings}
use atmcp.Wire.{Reply}
use atmcp.Db.{Db, Exn}
use atmcp.Server.{Server, Answer, replied, raised}
use atmcp.Identity.{resolve_agent_ref}
use atmcp.Presence.{heartbeat_named}
use atmcp.Presence
use atmcp.Sessions.{
  SessionReply, create_session, get_session, rename_session, archive_session, set_executor_state,
}
use atmcp.Sessions.Messages.{set_messages, get_messages}
use atmcp.Directives.{Command, send_directive, claim_directive}
use atmcp.Directives.Finish.{report_directive}
use atmcp.Directives.Inbox.{Waiting, inbox}
use atmcp.Guard.{Asked, Verdict, check, get_request, Resolution, resolve_request}
use atmcp.Guard.Rules.{Regex, RuleReply, add_rule, delete_rule}
use atmcp.Output.{Chunk, append_output}
use atmcp.Console.{ConsoleReply}
use atmcp.Usage.{Floats, Recorded, record_usage}
use atmcp.Usage

-- What the handlers take from their surroundings.
pub record Env : Type 0 where
  pub hash_token : String → String
  pub lower : String → String
  pub is_json : String → Bool
  pub re : Regex
  pub floats : Floats
  pub cfg : Settings
  pub clk : Clock
  pub new_id : String
  pub waiting : Waiting

-- A response, with its status code, or an exception that the handler does not catch.
pub data Http : Type 0 where
  http_error : (status_code : ℕ) (detail : String) → Http
  server_error : Exn → Http
  session_made : Session → Http
  session_said : SessionReply → Http
  messages : String → Http
  directive_said : Reply → Http
  directives : List Directive → Http
  judged : Verdict → Http
  request : GuardRequest → Http
  settled : Resolution → Http
  rule_said : RuleReply → Http
  rule_deleted : Bool → Http
  beat : (agent_id : String) → Http
  output_at : ℕ → Http
  recorded : Recorded → Http
  console_said : ConsoleReply → Http

-- The path, the query and the body of each call, without the team and the tokens.
pub data Op : Type 0 where
  create_session_op : (agent title driver created_by : Option String) → Op
  message_op : (session_id : String) (text sender : Option String) (priority : ℤ) → Op
  rename_op : (session_id : String) (title : Option String) → Op
  archive_op : (session_id : String) → Op
  get_memory_op : (session_id : String) → Op
  set_memory_op : (session_id : String) (messages : Option (List String)) → Op
  executor_op : (session_id : String) (cli_session_id worktree : Option String) → Op
  guard_check_op : (command agent tool session_id : Option String) → Op
  guard_request_op : (request_id : ℕ) → Op
  resolve_op : (request_id : ℕ) (approve : Bool) (by : Option String) → Op
  add_rule_op : (kind pattern pattern_type : String) (reason : Option String) → Op
  delete_rule_op : (rule_id : ℕ) → Op
  heartbeat_op :
      (display_name : Option String) (capabilities_json : String) (r : Presence.Report) → Op
  output_op : (agent_ref : String) (text directive_id session_id : Option String) → Op
  usage_op : (agent_ref : String) (r : Usage.Report) → Op
  inbox_op : (agent_ref : String) (wait_ms limit : ℤ) (include_running : Bool) → Op
  console_command_op : (console_name : Option String) (command : String) → Op
  claim_op : (directive_id : String) (agent : Option String) → Op
  report_op : (directive_id : String) (agent status result_summary output : Option String) → Op

-- The name of the team in the path, and the places where a token may stand.
pub record Call : Type 0 where
  pub team_name : String
  pub authorization : Option String
  pub x_atmcp_token : Option String
  pub body_token : Option String

-- `_bearer`
unfoldable pub bearer : (String → String) → Option String → Option String
bearer lower none = none
bearer lower (some v) =
    if starts_with "bearer " (lower v) then some (strip (text_from 7 v)) else none

-- a or b
abbrev pub or_else : Option String → Option String → Option String
or_else a b = elim (truthy a) [ none ↦ b | some t ↦ some t ]

-- token and h and token_matches(token, h)
unfoldable pub token_fits : (String → String) → Option String → String → Bool
token_fits hash_token token h = elim (truthy token) [
  | none ↦ false
  | some t ↦ not (h == "") && hash_token t == h
]

abbrev pub team_by_name : String → Db → Option Team
team_by_name name db = fetch_one (λ t. t.name == name) db.teams

abbrev pub respond : {A : Type 0} → (A → Http) → Answer A × Server → Http × Server
respond f (replied a, s) = (f a, s)
respond f (raised e, s) = (server_error e, s)

-- What goes on with a value, or an error.
abbrev pub or_error :
    {A : Type 0} → ℕ → String → Server → (A → Http × Server) → Option A → Http × Server
or_error status_code detail s go none = (http_error status_code detail, s)
or_error status_code detail s go (some a) = go a

-- The agent that a call names; 404 if the team has none.
abbrev pub with_agent : String → String → Server → (String → Http × Server) → Http × Server
with_agent team_id ref s go = or_error 404 "unknown agent" s go (resolve_agent_ref team_id ref s.db)

-- A field that must be there and not be empty.
abbrev pub required : Option String → String → Server → (String → Http × Server) → Http × Server
required field detail s go = or_error 400 detail s go (truthy field)

abbrev pub worker : String → String → String → Caller
worker team_id aid name = record {
  team_id = team_id;
  agent_id = aid;
  display_name = name;
  session_id = "rest-worker";
}

abbrev pub message_command : String → ℤ → String → Command
message_command text priority session_id = record {
  instruction = text;
  headline = prefix 200 text;
  payload_json = "{}";
  priority = priority;
  session_id = some session_id;
}
