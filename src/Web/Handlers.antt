-- ===== src/Web/Handlers.antt =====
-- web.py: the handlers, behind their gate. `team_id` is the id of the team that was let in.
use atmcp.Base.{ℕ, String, Bool, Option, none, some, List, [], ℤ, coalesce, truthy, strip}
use atmcp.Server.{Server}
use atmcp.Identity.{resolve_agent_ref}
use atmcp.Presence.{heartbeat_named}
use atmcp.Sessions.{
  create_session, get_session, rename_session, archive_session, set_executor_state,
}
use atmcp.Sessions.Messages.{set_messages, get_messages}
use atmcp.Directives.{send_directive, claim_directive}
use atmcp.Directives.Finish.{report_directive}
use atmcp.Directives.Inbox.{inbox}
use atmcp.Guard.{check, get_request, resolve_request}
use atmcp.Guard.Rules.{add_rule, delete_rule}
use atmcp.Output.{append_output}
use atmcp.Console.{console_caller, run_command}
use atmcp.Usage.{record_usage}
use atmcp.Web.{
  Env, Http, http_error, session_made, session_said, messages, directive_said, directives, judged,
  request, settled, rule_said, rule_deleted, beat, output_at, recorded, respond, or_error,
  with_agent, required, worker, message_command, console_said,
}
use atmcp.Presence
use atmcp.Usage

-- resolve_agent_ref(team, agent) if an agent is named
abbrev pub guarded_agent : String → Option String → Server → Option String
guarded_agent team_id agent s = elim (truthy agent) [
  | none ↦ none
  | some a ↦ resolve_agent_ref team_id a s.db
]

unfoldable pub post_session :
    Env
    → String
    → Option String
    → Option String
    → Option String
    → Option String
    → Server
    → Http × Server
post_session env team_id agent title driver created_by s =
    required agent "agent required" s (λ name. with_agent team_id name s (λ aid.
      respond session_made (
        create_session env.clk env.new_id team_id aid title driver
          (some (coalesce (truthy created_by) "workbench")) s)))

unfoldable pub session_message :
    Env → String → String → Option String → Option String → ℤ → Server → Http × Server
session_message env team_id session_id text sender priority s =
    required (some (strip (coalesce text ""))) "text required" s (λ instruction.
      or_error 404 "unknown session" s
        (λ x. respond directive_said (
          send_directive env.clk (console_caller team_id (coalesce (truthy sender) "workbench"))
            env.new_id x.session.agent_id (message_command instruction priority session_id) none s))
        (get_session team_id session_id s.db))

unfoldable pub post_rename : Env → String → String → Option String → Server → Http × Server
post_rename env team_id session_id title s =
    respond session_said (rename_session env.clk team_id session_id title s)

unfoldable pub post_archive : Env → String → String → Server → Http × Server
post_archive env team_id session_id s =
    respond session_said (archive_session env.clk team_id session_id s)

unfoldable pub session_get_memory : Env → String → String → Server → Http × Server
session_get_memory env team_id session_id s =
    or_error 404 "unknown session" s (λ msgs. (messages msgs, s))
      (get_messages env.is_json team_id session_id s.db)

unfoldable pub session_set_memory :
    Env → String → String → Option (List String) → Server → Http × Server
session_set_memory env team_id session_id none s = (http_error 400 "messages (list) required", s)
session_set_memory env team_id session_id (some msgs) s =
    respond session_said (set_messages env.clk team_id session_id msgs s)

unfoldable pub session_executor_state :
    Env → String → String → Option String → Option String → Server → Http × Server
session_executor_state env team_id session_id cli_session_id worktree s =
    respond session_said (set_executor_state env.clk team_id session_id cli_session_id worktree s)

unfoldable pub guard_check :
    Env
    → String
    → Option String
    → Option String
    → Option String
    → Option String
    → Server
    → Http × Server
guard_check env team_id command agent tool session_id s =
    required command "command required" s (λ cmd. respond judged (
      check env.re env.clk team_id
        (record {
          agent_id = guarded_agent team_id agent s;
          command = cmd;
          tool = tool;
          session_id = session_id;
        })
        s.db s))

unfoldable pub guard_request_get : Env → String → ℕ → Server → Http × Server
guard_request_get env team_id request_id s =
    or_error 404 "unknown request" s (λ r. (request r, s)) (get_request team_id request_id s.db)

unfoldable pub guard_request_resolve :
    Env → String → ℕ → Bool → Option String → Server → Http × Server
guard_request_resolve env team_id request_id approve by s =
    respond settled (
      resolve_request env.clk team_id request_id approve (some (coalesce (truthy by) "dashboard"))
        s)

unfoldable pub guard_rules_add :
    Env → String → String → String → String → Option String → Server → Http × Server
guard_rules_add env team_id kind pattern pattern_type reason s =
    respond rule_said (add_rule env.re env.clk team_id kind pattern pattern_type reason s)

unfoldable pub guard_rules_delete : Env → String → ℕ → Server → Http × Server
guard_rules_delete env team_id rule_id s = respond rule_deleted (delete_rule team_id rule_id s)

unfoldable pub rest_heartbeat :
    Env → String → Option String → String → Presence.Report → Server → Http × Server
rest_heartbeat env team_id display_name capabilities_json r s =
    required display_name "display_name required" s (λ name.
      respond beat (heartbeat_named env.cfg env.clk team_id env.new_id name capabilities_json r s))

unfoldable pub rest_output :
    Env → String → String → Option String → Option String → Option String → Server → Http × Server
rest_output env team_id agent_ref text directive_id session_id s =
    with_agent team_id agent_ref s (λ aid. required text "text required" s (λ t. respond output_at (
      append_output env.cfg env.clk team_id aid
        (record {
          text = some t;
          directive_id = directive_id;
          source = "hook";
          session_id = session_id;
        })
        s)))

unfoldable pub rest_usage : Env → String → String → Usage.Report → Server → Http × Server
rest_usage env team_id agent_ref r s =
    with_agent team_id agent_ref s
      (λ aid. respond recorded (record_usage env.floats env.clk team_id aid r s))

unfoldable pub rest_inbox : Env → String → String → ℤ → ℤ → Bool → Server → Http × Server
rest_inbox env team_id agent_ref wait_ms limit include_running s =
    elim (resolve_agent_ref team_id agent_ref s.db) [
      | none ↦ (directives [], s)
      | some aid ↦ (
        directives
            (inbox (worker team_id aid agent_ref) wait_ms limit include_running env.waiting s),
        s,
      )
    ]

unfoldable pub rest_claim : Env → String → String → Option String → Server → Http × Server
rest_claim env team_id directive_id agent s = required agent "agent required" s (λ name.
    with_agent team_id name s (λ aid.
      respond directive_said (claim_directive env.clk (worker team_id aid name) directive_id s)))

unfoldable pub rest_report :
    Env
    → String
    → String
    → Option String
    → Option String
    → Option String
    → Option String
    → Server
    → Http × Server
rest_report env team_id directive_id agent status result_summary output s =
    required agent "agent and status required" s (λ name.
      required status "agent and status required" s (λ st. with_agent team_id name s (λ aid.
        respond directive_said (
          report_directive env.clk (worker team_id aid name) directive_id st result_summary output
            none s))))

unfoldable pub console_command : Env → String → Option String → String → Server → Http × Server
console_command env team_id console_name command s =
    let (r, s') =
      run_command
        (record {
          cfg = env.cfg;
          clk = env.clk;
          lower = env.lower;
          new_id = env.new_id;
          waiting = env.waiting;
        })
        team_id (coalesce (truthy console_name) "dashboard") command s in
    (console_said r, s')
