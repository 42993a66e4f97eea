-- ===== src/Directives/Finish.antt =====
-- services/directives.py: `report_directive` and `cancel_directive`.
use atmcp.Base.{ℕ, String, not, Option, none, some, [], ◌∷◌, ◌==◌, if◌then◌else◌}
use atmcp.Schema.{
  Directive, DirectiveStatus, Caller, Clock, EventKind, directive_done, directive_failed, canceled,
}
use atmcp.Wire.{Reply, bad_status, not_yours, already_final, directive_reported}
use atmcp.Db.{Tx, Turn, returned, result, pure, fetch, execute, ◌>>=◌, ◌>>◌}
use atmcp.Events.{append, opt_str}
use atmcp.Idempotency.{idempotent}
use atmcp.Server.{Server, Answer, replied, serve, no_redis}
use atmcp.Directives.{find_directive, is_terminal, set_directive, touch_session, stamp}

-- The two statuses that a worker may report.
pub data Verdict : Type 0 where
  report_done report_failed : Verdict

-- status not in ("done", "failed")
abbrev pub verdict : String → Option Verdict
verdict s =
    if s == "done" then some report_done else if s == "failed" then some report_failed else none

abbrev pub final_status : Verdict → DirectiveStatus
final_status report_done = DirectiveStatus.done
final_status report_failed = DirectiveStatus.failed

abbrev pub verdict_event : Verdict → EventKind
verdict_event report_done = directive_done
verdict_event report_failed = directive_failed

unfoldable pub report_row :
    ℕ → DirectiveStatus → Option String → Option String → Directive → Directive
report_row now status summary output d = record d {
  status = status;
  result_summary = summary;
  result_output = output;
  updated_at = now;
}

unfoldable pub report_found :
    Clock → Caller → String → Verdict → Option String → Option String → Option Directive → Tx Reply
unfolding report_row set_directive touch_session append
report_found clk c id v summary output none = pure Reply.unknown_directive
report_found clk c id v summary output (some d) =
    if not (d.to_agent == c.agent_id)
    then pure not_yours
    else if is_terminal d.status
    then pure (already_final d.status)
    else do
      execute (set_directive c.team_id id (report_row clk.now (final_status v) summary output))
      execute (touch_session clk.now c.team_id d.session_id)
      eid ←
          append clk c.team_id (verdict_event v) "directive" (some id) (some c.agent_id)
            (("result_summary", opt_str summary) ∷ ("session_id", opt_str d.session_id) ∷ [])
      execute (set_directive c.team_id id (stamp eid))
      pure (directive_reported id (final_status v))

unfoldable pub report_tx :
    Clock → Caller → String → Verdict → Option String → Option String → Tx Turn
unfolding report_found
report_tx clk c id v summary output = do
  d ← fetch (find_directive c.team_id id)
  r ← report_found clk c id v summary output d
  pure (result r)

unfoldable pub report_verdict :
    Clock
    → Caller
    → String
    → Option Verdict
    → Option String
    → Option String
    → Option String
    → Server
    → Answer Reply × Server
unfolding report_tx
report_verdict clk c id none summary output idem_key s = (replied bad_status, s)
report_verdict clk c id (some v) summary output idem_key s =
    serve (idempotent clk c idem_key (report_tx clk c id v summary output)) no_redis s

unfoldable pub report_directive :
    Clock
    → Caller
    → String
    → String
    → Option String
    → Option String
    → Option String
    → Server
    → Answer Reply × Server
unfolding report_verdict
report_directive clk c id status summary output idem_key s =
    report_verdict clk c id (verdict status) summary output idem_key s

unfoldable pub cancel_row : ℕ → Directive → Directive
cancel_row now d = record d { status = canceled; updated_at = now }

unfoldable pub cancel_found : Clock → Caller → String → Option Directive → Tx Turn
unfolding cancel_row set_directive append
cancel_found clk c id none = pure (returned Reply.unknown_directive)
cancel_found clk c id (some d) =
    if not (d.from_agent == c.agent_id)
    then pure (returned not_yours)
    else if is_terminal d.status
    then pure (returned (already_final d.status))
    else do
      execute (set_directive c.team_id id (cancel_row clk.now))
      eid ←
          append clk c.team_id EventKind.directive_canceled "directive" (some id) (some c.agent_id)
            []
      execute (set_directive c.team_id id (stamp eid))
      pure (result (Reply.directive_canceled id))

unfoldable pub cancel_tx : Clock → Caller → String → Tx Turn
unfolding cancel_found
cancel_tx clk c id = do d ← fetch (find_directive c.team_id id); cancel_found clk c id d

unfoldable pub cancel_directive : Clock → Caller → String → Server → Answer Reply × Server
unfolding cancel_tx
cancel_directive clk c id = serve (cancel_tx clk c id) no_redis
