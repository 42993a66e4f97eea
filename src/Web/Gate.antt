-- ===== src/Web/Gate.antt =====
-- web.py: the two forms of the join gate, and every call that stands behind one of them.
use atmcp.Base.{String, Bool, true, not, ◌==◌, ◌||◌, Option, none, some, truthy, if◌then◌else◌}
use atmcp.Schema.{Team}
use atmcp.Server.{Server}
use atmcp.Web.{
  console_command_op, Env, Http, http_error, Op, create_session_op, message_op, rename_op,
  archive_op, get_memory_op, set_memory_op, executor_op, guard_check_op, guard_request_op,
  resolve_op, add_rule_op, delete_rule_op, heartbeat_op, output_op, usage_op, inbox_op, claim_op,
  report_op, Call, bearer, or_else, or_error, token_fits, team_by_name,
}
use atmcp.Web.Handlers.{
  console_command, post_session, session_message, post_rename, post_archive, session_get_memory,
  session_set_memory, session_executor_state, guard_check, guard_request_get, guard_request_resolve,
  guard_rules_add, guard_rules_delete, rest_heartbeat, rest_output, rest_usage, rest_inbox,
  rest_claim, rest_report,
}

-- The handler of each call.
unfoldable pub act : Env → String → Op → Server → Http × Server
unfolding console_command post_session session_message post_rename post_archive session_get_memory
    session_set_memory session_executor_state guard_check guard_request_get guard_request_resolve
    guard_rules_add guard_rules_delete rest_heartbeat rest_output rest_usage rest_inbox rest_claim
    rest_report
act env team_id (create_session_op agent title driver created_by) s =
    post_session env team_id agent title driver created_by s
act env team_id (message_op session_id text sender priority) s =
    session_message env team_id session_id text sender priority s
act env team_id (rename_op session_id title) s = post_rename env team_id session_id title s
act env team_id (archive_op session_id) s = post_archive env team_id session_id s
act env team_id (get_memory_op session_id) s = session_get_memory env team_id session_id s
act env team_id (set_memory_op session_id msgs) s = session_set_memory env team_id session_id msgs s
act env team_id (executor_op session_id cli_session_id worktree) s =
    session_executor_state env team_id session_id cli_session_id worktree s
act env team_id (guard_check_op command agent tool session_id) s =
    guard_check env team_id command agent tool session_id s
act env team_id (guard_request_op request_id) s = guard_request_get env team_id request_id s
act env team_id (resolve_op request_id approve by) s =
    guard_request_resolve env team_id request_id approve by s
act env team_id (add_rule_op kind pattern pattern_type reason) s =
    guard_rules_add env team_id kind pattern pattern_type reason s
act env team_id (delete_rule_op rule_id) s = guard_rules_delete env team_id rule_id s
act env team_id (heartbeat_op display_name capabilities_json r) s =
    rest_heartbeat env team_id display_name capabilities_json r s
act env team_id (output_op agent_ref text directive_id session_id) s =
    rest_output env team_id agent_ref text directive_id session_id s
act env team_id (usage_op agent_ref r) s = rest_usage env team_id agent_ref r s
act env team_id (inbox_op agent_ref wait_ms limit include_running) s =
    rest_inbox env team_id agent_ref wait_ms limit include_running s
act env team_id (console_command_op console_name command) s =
    console_command env team_id console_name command s
act env team_id (claim_op directive_id agent) s = rest_claim env team_id directive_id agent s
act env team_id (report_op directive_id agent status result_summary output) s =
    rest_report env team_id directive_id agent status result_summary output s

-- _bearer(authorization) or x_atmcp_token
abbrev pub header_token : Env → Call → Option String
header_token env call = or_else (bearer env.lower call.authorization) call.x_atmcp_token

-- ... or body.get("token")
abbrev pub any_token : Env → Call → Option String
any_token env call = or_else (header_token env call) call.body_token

-- `_require_join`
abbrev pub require_join :
    Env → Call → Option String → Server → (Team → Http × Server) → Http × Server
require_join env call token s go =
    or_error 404 "unknown team" s
      (λ t.
        if token_fits env.hash_token token t.join_token_hash
        then go t
        else (http_error 401 "invalid join token", s))
      (team_by_name call.team_name s.db)

-- not token or not join_hash or not token_matches(token, join_hash)
unfoldable pub is_refused : (String → String) → Option String → String → Bool
is_refused hash_token token h = elim (truthy token) [
  | none ↦ true
  | some t ↦ h == "" || not (hash_token t == h)
]

-- The gate as the console, the heartbeat and the output write it out.
abbrev pub inline_join :
    Env → Call → Option String → Server → (Team → Http × Server) → Http × Server
inline_join env call token s go =
    or_error 404 "unknown team" s
      (λ t.
        if is_refused env.hash_token token t.join_token_hash
        then (http_error 401 "invalid join token", s)
        else go t)
      (team_by_name call.team_name s.db)

-- The call of each operation: its own gate, on the token that it reads, and then its handler.
unfoldable pub handle : Env → Call → Op → Server → Http × Server
unfolding console_command post_session session_message post_rename post_archive session_get_memory
    session_set_memory session_executor_state guard_check guard_request_get guard_request_resolve
    guard_rules_add guard_rules_delete rest_heartbeat rest_output rest_usage rest_inbox rest_claim
    rest_report token_fits is_refused bearer
handle env call (console_command_op console_name command) s =
    inline_join env call (any_token env call) s
      (λ t. console_command env t.team_id console_name command s)
handle env call (create_session_op agent title driver created_by) s =
    require_join env call (any_token env call) s
      (λ t. post_session env t.team_id agent title driver created_by s)
handle env call (message_op session_id text sender priority) s =
    require_join env call (any_token env call) s
      (λ t. session_message env t.team_id session_id text sender priority s)
handle env call (rename_op session_id title) s =
    require_join env call (any_token env call) s (λ t. post_rename env t.team_id session_id title s)
handle env call (archive_op session_id) s =
    require_join env call (any_token env call) s (λ t. post_archive env t.team_id session_id s)
handle env call (get_memory_op session_id) s =
    require_join env call (header_token env call) s
      (λ t. session_get_memory env t.team_id session_id s)
handle env call (set_memory_op session_id msgs) s =
    require_join env call (any_token env call) s
      (λ t. session_set_memory env t.team_id session_id msgs s)
handle env call (executor_op session_id cli_session_id worktree) s =
    require_join env call (any_token env call) s
      (λ t. session_executor_state env t.team_id session_id cli_session_id worktree s)
handle env call (guard_check_op command agent tool session_id) s =
    require_join env call (any_token env call) s
      (λ t. guard_check env t.team_id command agent tool session_id s)
handle env call (guard_request_op request_id) s =
    require_join env call (header_token env call) s
      (λ t. guard_request_get env t.team_id request_id s)
handle env call (resolve_op request_id approve by) s =
    require_join env call (any_token env call) s
      (λ t. guard_request_resolve env t.team_id request_id approve by s)
handle env call (add_rule_op kind pattern pattern_type reason) s =
    require_join env call (any_token env call) s
      (λ t. guard_rules_add env t.team_id kind pattern pattern_type reason s)
handle env call (delete_rule_op rule_id) s =
    require_join env call (header_token env call) s
      (λ t. guard_rules_delete env t.team_id rule_id s)
handle env call (heartbeat_op display_name capabilities_json r) s =
    inline_join env call (header_token env call) s
      (λ t. rest_heartbeat env t.team_id display_name capabilities_json r s)
handle env call (output_op agent_ref text directive_id session_id) s =
    inline_join env call (header_token env call) s
      (λ t. rest_output env t.team_id agent_ref text directive_id session_id s)
handle env call (usage_op agent_ref r) s =
    require_join env call (any_token env call) s (λ t. rest_usage env t.team_id agent_ref r s)
handle env call (inbox_op agent_ref wait_ms limit include_running) s =
    require_join env call (header_token env call) s
      (λ t. rest_inbox env t.team_id agent_ref wait_ms limit include_running s)
handle env call (claim_op directive_id agent) s =
    require_join env call (any_token env call) s
      (λ t. rest_claim env t.team_id directive_id agent s)
handle env call (report_op directive_id agent status result_summary output) s =
    require_join env call (any_token env call) s
      (λ t. rest_report env t.team_id directive_id agent status result_summary output s)
