-- ===== src/Web/Isolation.antt =====
-- web.py: what a call that was let in for one team leaves of the rows of another.
use atmcp.Base.{
  ℕ, String, ◌==◌, ◌≡◌, false, Option, none, some, Option-cases, inl, inr, truthy, coalesce, strip,
}
use atmcp.Db.Isolation.{Rows, Untouched}
use atmcp.Server.{Server, Answer, replied, raised}
use atmcp.Identity.{resolve_agent_ref}
use atmcp.Sessions.{get_session}
use atmcp.Sessions.Messages.{get_messages}
use atmcp.Sessions.Isolation.{
  create_session-Untouched, archive_session-Untouched, rename_session-Untouched,
  set_executor_state-Untouched, set_messages-Untouched,
}
use atmcp.Directives.Isolation.{send_directive-Untouched, claim_directive-Untouched}
use atmcp.Directives.Isolation.Settled.{report_directive-Untouched}
use atmcp.Guard.{get_request}
use atmcp.Guard.Isolation.{
  check-Untouched, resolve_request-Untouched, add_rule-Untouched, delete_rule-Untouched,
}
use atmcp.Presence.Isolation.{heartbeat_named-Untouched}
use atmcp.Console.{console_caller}
use atmcp.Console.Isolation.{run_command-Untouched}
use atmcp.Web.{
  Env, Http, Op, create_session_op, message_op, rename_op, archive_op, get_memory_op, set_memory_op,
  executor_op, guard_check_op, guard_request_op, resolve_op, add_rule_op, delete_rule_op,
  heartbeat_op, output_op, usage_op, inbox_op, console_command_op, claim_op, report_op, respond,
  or_error, worker, message_command,
}
use atmcp.Web.Gate.{act}
use atmcp.Web.Handlers.{
  post_session, session_message, rest_claim, rest_report, rest_output, rest_usage, rest_inbox,
  guard_check, guard_request_get, session_get_memory, session_set_memory, rest_heartbeat,
  post_rename, post_archive, session_executor_state, guard_request_resolve, guard_rules_add,
  guard_rules_delete, console_command,
}
use atmcp.Output.Isolation.{append_output-Untouched}
use atmcp.Usage.Isolation.{record_usage-Untouched}

module _ (other team : String) (out : (team == other) ≡ false) (f : Rows) where
  respond-Untouched :
      {A : Type 0} (g : A → Http) (r : Answer A × Server)
      → Untouched other f r.1.db
      → Untouched other f (respond g r).1.db
  respond-Untouched g (replied a, s) h = h
  respond-Untouched g (raised e, s) h = h

  or_error-Untouched :
      {A : Type 0} (code : ℕ) (detail : String) (s : Server) (go : A → Http × Server) (o : Option A)
      → Untouched other f s.db
      → ((a : A) → Untouched other f (go a).1.db)
      → Untouched other f (or_error code detail s go o).1.db
  or_error-Untouched code detail s go none h k = h
  or_error-Untouched code detail s go (some a) h k = k a

  pub act-Untouched :
      (env : Env) (op : Op) (s : Server)
      → Untouched other f s.db
      → Untouched other f (act env team op s).1.db
  unfolding act post_session session_message rest_claim rest_report rest_output rest_usage
      rest_inbox guard_check guard_request_get session_get_memory session_set_memory rest_heartbeat
      post_rename post_archive session_executor_state guard_request_resolve guard_rules_add
      guard_rules_delete console_command
  act-Untouched env (create_session_op agent title driver created_by) s h =
      or_error-Untouched 400 _ s _ (truthy agent) h (λ name.
        or_error-Untouched 404 _ s _ (resolve_agent_ref team name s.db) h (λ aid.
          respond-Untouched _ _
            (create_session-Untouched other team out f env.clk env.new_id aid title driver _ s h)))
  act-Untouched env (message_op session_id text sender priority) s h =
      or_error-Untouched 400 _ s _ (truthy (some (strip (coalesce text "")))) h (λ instruction.
        or_error-Untouched 404 _ s _ (get_session team session_id s.db) h (λ x.
          respond-Untouched _ _ (
            send_directive-Untouched other f env.clk
              (console_caller team (coalesce (truthy sender) "workbench")) out env.new_id
              x.session.agent_id (message_command instruction priority session_id) s h)))
  act-Untouched env (rename_op session_id title) s h =
      respond-Untouched _ _ (rename_session-Untouched other team out f env.clk session_id title s h)
  act-Untouched env (archive_op session_id) s h =
      respond-Untouched _ _ (archive_session-Untouched other team out f env.clk session_id s h)
  act-Untouched env (get_memory_op session_id) s h =
      or_error-Untouched 404 _ s _ (get_messages env.is_json team session_id s.db) h (λ msgs. h)
  act-Untouched env (set_memory_op session_id none) s h = h
  act-Untouched env (set_memory_op session_id (some msgs)) s h =
      respond-Untouched _ _ (set_messages-Untouched other team out f env.clk session_id msgs s h)
  act-Untouched env (executor_op session_id cli_session_id worktree) s h =
      respond-Untouched _ _ (
        set_executor_state-Untouched other team out f env.clk session_id cli_session_id worktree s
          h)
  act-Untouched env (guard_check_op command agent tool session_id) s h =
      or_error-Untouched 400 _ s _ (truthy command) h
        (λ cmd. respond-Untouched _ _ (check-Untouched other team out f env.re env.clk _ s.db s h))
  act-Untouched env (guard_request_op request_id) s h =
      or_error-Untouched 404 _ s _ (get_request team request_id s.db) h (λ r. h)
  act-Untouched env (resolve_op request_id approve by) s h =
      respond-Untouched _ _
        (resolve_request-Untouched other team out f env.clk request_id approve _ s h)
  act-Untouched env (add_rule_op kind pattern pattern_type reason) s h =
      respond-Untouched _ _
        (add_rule-Untouched other team out f env.re env.clk kind pattern pattern_type reason s h)
  act-Untouched env (delete_rule_op rule_id) s h =
      respond-Untouched _ _ (delete_rule-Untouched other team out f rule_id s h)
  act-Untouched env (heartbeat_op display_name capabilities_json r) s h =
      or_error-Untouched 400 _ s _ (truthy display_name) h (λ name. respond-Untouched _ _ (
        heartbeat_named-Untouched other team out f env.cfg env.clk env.new_id name capabilities_json
          r s h))
  act-Untouched env (output_op agent_ref text directive_id session_id) s h =
      or_error-Untouched 404 _ s _ (resolve_agent_ref team agent_ref s.db) h (λ aid.
        or_error-Untouched 400 _ s _ (truthy text) h (λ t.
          respond-Untouched _ _
            (append_output-Untouched other team out f env.cfg env.clk aid _ s h)))
  act-Untouched env (usage_op agent_ref r) s h =
      or_error-Untouched 404 _ s _ (resolve_agent_ref team agent_ref s.db) h (λ aid.
        respond-Untouched _ _
          (record_usage-Untouched other team out f env.floats env.clk aid r s h))
  act-Untouched env (inbox_op agent_ref wait_ms limit include_running) s h =
      elim (Option-cases (resolve_agent_ref team agent_ref s.db)) [
        | inl e ↦ rw (e, rest_inbox) h
        | inr (aid, e) ↦ rw (e, rest_inbox) h
      ]
  act-Untouched env (console_command_op console_name command) s h =
      run_command-Untouched other team out f _ (coalesce (truthy console_name) "dashboard") command
        s h
  act-Untouched env (claim_op directive_id agent) s h =
      or_error-Untouched 400 _ s _ (truthy agent) h (λ name.
        or_error-Untouched 404 _ s _ (resolve_agent_ref team name s.db) h (λ aid.
          respond-Untouched _ _ (
            claim_directive-Untouched other f env.clk (worker team aid name) out directive_id s h)))
  act-Untouched env (report_op directive_id agent status result_summary output) s h =
      or_error-Untouched 400 _ s _ (truthy agent) h (λ name.
        or_error-Untouched 400 _ s _ (truthy status) h (λ st.
          or_error-Untouched 404 _ s _ (resolve_agent_ref team name s.db) h (λ aid.
            respond-Untouched _ _ (
              report_directive-Untouched other f env.clk (worker team aid name) out directive_id st
                result_summary output s h))))
