-- ===== src/Directives/Inbox.antt =====
-- services/directives.py: `inbox`, `wait_directive` and the lists. A read takes the server as it is
-- at the read; `later` is what happened while the caller waited.
use atmcp.Base.{
  zero, String, Bool, true, false, not, ◌&&◌, ◌||◌, Option, none, some, List, [], ◌∷◌, ◌==◌, ltb,
  ltb_ℤ, ℤ, pos, negsuc, take, if◌then◌else◌,
}
use atmcp.Base.Table.{select, order_by}
use atmcp.Schema.{Directive, DirectiveStatus, pending, running, canceled, Caller}
use atmcp.Db.{Db}
use atmcp.Hub.{Gen, current_gen, wait_for_change}
use atmcp.Server.{Server}
use atmcp.Tasks.Board.{page_size, passes}
use atmcp.Directives.{find_directive, is_terminal, is_pending, is_running}

-- The text of a status in the table.
unfoldable pub directive_text : DirectiveStatus → String
directive_text pending = "pending"
directive_text running = "running"
directive_text DirectiveStatus.done = "done"
directive_text DirectiveStatus.failed = "failed"
directive_text canceled = "canceled"

-- ORDER BY priority DESC, created_at ASC
abbrev pub inbox_order : Directive → Directive → Bool
inbox_order a b =
    ltb_ℤ b.priority a.priority
    || (not (ltb_ℤ a.priority b.priority) && ltb a.created_at b.created_at)

abbrev pub in_inbox : String → String → Bool → Directive → Bool
in_inbox team_id agent_id include_running d =
    (d.team_id == team_id && d.to_agent == agent_id)
    && (is_pending d.status || (include_running && is_running d.status))

unfoldable pub read_inbox : String → String → Bool → ℤ → Db → List Directive
read_inbox team_id agent_id include_running limit db =
    take (page_size 20 100 limit)
      (order_by inbox_order (select (in_inbox team_id agent_id include_running) db.directives))

-- `wait_ms and wait_ms > 0`
abbrev pub waits : ℤ → Bool
waits (pos zero) = false
waits (pos _) = true
waits (negsuc n) = false

-- How a wait goes: the counters at the first test under the lock, the counters after each
-- notification before the timeout, and the database at the second read.
pub record Waiting : Type 0 where
  pub ahead : List Gen
  pub later : List (List Gen)
  pub db : Db

abbrev pub look_again : Bool → List Directive → List Directive → List Directive
look_again woken [] again = if woken then again else []
look_again woken (d ∷ ds) again = d ∷ ds

unfoldable pub inbox : Caller → ℤ → ℤ → Bool → Waiting → Server → List Directive
unfolding read_inbox
inbox c wait_ms limit include_running w s =
    look_again
      (waits wait_ms && wait_for_change c.team_id (current_gen c.team_id s.gens) w.ahead w.later)
      (read_inbox c.team_id c.agent_id include_running limit s.db)
      (read_inbox c.team_id c.agent_id include_running limit w.db)

-- `{"ok": True, "final": …, "directive": d}`; a directive is never deleted, so the second read
-- finds one, and None there is a TypeError.
pub data Waited : Type 0 where
  unknown : Waited
  seen : (final : Bool) → Directive → Waited
  type_error : Waited

abbrev pub seen_or_error : Option Directive → Waited
seen_or_error none = type_error
seen_or_error (some d) = seen (is_terminal d.status) d

unfoldable pub wait_found : Caller → String → ℤ → Waiting → Server → Option Directive → Waited
wait_found c id wait_ms w s none = unknown
wait_found c id wait_ms w s (some d) =
    if is_terminal d.status || not (waits wait_ms)
    then seen (is_terminal d.status) d
    else if wait_for_change c.team_id (current_gen c.team_id s.gens) w.ahead w.later
    then seen_or_error (find_directive c.team_id id w.db)
    else seen (is_terminal d.status) d

unfoldable pub wait_directive : Caller → String → ℤ → Waiting → Server → Waited
unfolding wait_found
wait_directive c id wait_ms w s = wait_found c id wait_ms w s (find_directive c.team_id id s.db)

-- ORDER BY created_at DESC
abbrev pub newest_first : Directive → Directive → Bool
newest_first a b = ltb b.created_at a.created_at

unfoldable pub list_team : String → Option String → Option String → ℤ → Db → List Directive
unfolding directive_text
list_team team_id status to_agent limit db = take (page_size 100 300 limit) (
    order_by newest_first (
      select
        (λ d.
          d.team_id == team_id
          && (passes status (some (directive_text d.status)) && passes to_agent (some d.to_agent)))
        db.directives))

-- role == "received", role == "sent", or any other value
abbrev pub in_role : Option String → String → Directive → Bool
in_role none agent_id d = true
in_role (some role) agent_id d =
    if role == "received"
    then d.to_agent == agent_id
    else if role == "sent"
    then d.from_agent == agent_id
    else true

unfoldable pub list_directives : Caller → Option String → Option String → ℤ → Db → List Directive
unfolding directive_text
list_directives c role status limit db = take (page_size 50 200 limit) (
    order_by newest_first (
      select
        (λ d.
          d.team_id == c.team_id
          && (in_role role c.agent_id d && passes status (some (directive_text d.status))))
        db.directives))
