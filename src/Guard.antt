-- ===== src/Guard.antt =====
-- services/guard.py: the gate for the commands of the agents, its rules, its audit and the requests
-- for approval by a human.
pub mod Builtin
pub mod Rules
pub mod Decides
pub mod Requests
pub mod Isolation
use atmcp.Base.{
  ℕ, ◌+◌, ◌-◌, String, Bool, true, false, not, ◌&&◌, ◌||◌, str_ℕ, Option, none, some, List, [], ◌∷◌,
  ◌==◌, eqb, ltb, if◌then◌else◌, prefix, ℤ, take, is_some,
}
use atmcp.Base.Table.{fetch_one, select, update, insert, delete, row_count, order_by}
use atmcp.Schema.{
  GuardRule, GuardEvent, GuardRequest, Decision, allow, deny, ask, RequestStatus, pending, allowed,
  denied, Clock, Json, guard_blocked, guard_ask, guard_resolved,
}
use atmcp.Db.{Db, Tx, pure, fetch, execute, ◌>>=◌, ◌>>◌, done, raised}
use atmcp.Events.{append, opt_str}
use atmcp.Server.{Server, Answer, serve}
use atmcp.Tasks.Board.{page_size}
use atmcp.Guard.Rules.{Regex, Ruling, decide}

-- The arguments of `check` after the team.
pub record Asked : Type 0 where
  pub agent_id : Option String
  pub command : String
  pub tool : Option String
  pub session_id : Option String

pub record Verdict : Type 0 where
  pub ruling : Ruling
  pub request_id : Option ℕ

-- WHERE team_id=? AND enabled=1 ORDER BY id
abbrev pub team_rules : String → Db → List GuardRule
team_rules team_id db =
    order_by (λ a b. ltb a.id b.id) (select (λ r. r.team_id == team_id && r.enabled) db.guard_rules)

unfoldable pub event_row : ℕ → String → Asked → Ruling → ℕ → GuardEvent
event_row now team_id q v id = record {
  id = id;
  team_id = team_id;
  agent_id = q.agent_id;
  session_id = q.session_id;
  tool = q.tool;
  command = prefix 2000 q.command;
  decision = v.decision;
  reason = v.reason;
  rule = v.rule;
  ts = now;
}

unfoldable pub audit : ℕ → String → Asked → Ruling → Db → Db
unfolding event_row
audit now team_id q v db = record db {
  guard_events = insert (event_row now team_id q v (db.last_guard_event_id + 1)) db.guard_events;
  last_guard_event_id = db.last_guard_event_id + 1;
}

unfoldable pub request_row : ℕ → String → Asked → Ruling → ℕ → GuardRequest
request_row now team_id q v id = record {
  id = id;
  team_id = team_id;
  agent_id = q.agent_id;
  session_id = q.session_id;
  tool = q.tool;
  command = prefix 2000 q.command;
  status = pending;
  reason = v.reason;
  resolved_by = none;
  created_at = now;
  resolved_at = none;
}

unfoldable pub open_request : ℕ → String → Asked → Ruling → Db → Db
unfolding request_row
open_request now team_id q v db = record db {
  guard_requests = insert (request_row now team_id q v (db.last_request_id + 1)) db.guard_requests;
  last_request_id = db.last_request_id + 1;
}

abbrev pub block_payload : Asked → Ruling → List (String × Json)
block_payload q v =
    ("command", Json.str (prefix 200 q.command))
    ∷ ("reason", opt_str v.reason)
    ∷ ("rule", opt_str v.rule)
    ∷ ("session_id", opt_str q.session_id)
    ∷ []

abbrev pub ask_payload : Asked → Ruling → ℕ → List (String × Json)
ask_payload q v id =
    ("command", Json.str (prefix 200 q.command))
    ∷ ("reason", opt_str v.reason)
    ∷ ("session_id", opt_str q.session_id)
    ∷ ("request_id", Json.num id)
    ∷ []

-- What follows the audit, by the decision.
unfoldable pub follow_up : Clock → String → Asked → Ruling → Decision → Tx Verdict
unfolding open_request append
follow_up clk team_id q v allow = pure (record { ruling = v; request_id = none })
follow_up clk team_id q v deny = do
  append clk team_id guard_blocked "guard" none q.agent_id (block_payload q v)
  pure (record { ruling = v; request_id = none })
follow_up clk team_id q v ask = do
  execute (open_request clk.now team_id q v)
  id ← fetch (λ db. db.last_request_id)
  append clk team_id guard_ask "guard" (some (str_ℕ id)) q.agent_id (ask_payload q v id)
  pure (record { ruling = v; request_id = some id })

unfoldable pub check_tx : Clock → String → Asked → Ruling → Tx Verdict
unfolding audit follow_up
check_tx clk team_id q v = do
  execute (audit clk.now team_id q v)
  follow_up clk team_id q v v.decision

-- `seen` is the database that the query for the rules saw, before the transaction.
unfoldable pub check : Regex → Clock → String → Asked → Db → Server → Answer Verdict × Server
unfolding check_tx decide
check re clk team_id q seen =
    serve (check_tx clk team_id q (decide re (team_rules team_id seen) q.command))
      (λ v redis. (v, redis))

abbrev pub is_request : String → ℕ → GuardRequest → Bool
is_request team_id id r = r.team_id == team_id && eqb r.id id

unfoldable pub get_request : String → ℕ → Db → Option GuardRequest
get_request team_id id db = fetch_one (is_request team_id id) db.guard_requests

abbrev pub is_pending : RequestStatus → Bool
is_pending pending = true
is_pending _ = false

unfoldable pub pending_requests : String → ℤ → Db → List GuardRequest
pending_requests team_id limit db = take (page_size 100 200 limit) (
    order_by (λ a b. ltb b.id a.id)
      (select (λ r. r.team_id == team_id && is_pending r.status) db.guard_requests))

pub data Resolution : Type 0 where
  not_pending_or_unknown : Resolution
  resolved : (request_id : ℕ) → RequestStatus → Resolution

abbrev pub verdict_of : Bool → RequestStatus
verdict_of approve = if approve then allowed else denied

abbrev pub status_name : RequestStatus → String
status_name pending = "pending"
status_name allowed = "allowed"
status_name denied = "denied"

-- WHERE team_id=? AND id=? AND status='pending'
abbrev pub is_open : String → ℕ → GuardRequest → Bool
is_open team_id id r = is_request team_id id r && is_pending r.status

abbrev pub resolved_row : ℕ → RequestStatus → Option String → GuardRequest → GuardRequest
resolved_row now status by r = record r {
  status = status;
  resolved_by = by;
  resolved_at = some now;
}

unfoldable pub announce : Clock → String → ℕ → Bool → Option String → Tx Resolution
unfolding append
announce clk team_id id approve by = do
  append clk team_id guard_resolved "guard" (some (str_ℕ id)) by
      (("status", Json.str (status_name (verdict_of approve))) ∷ ("request_id", Json.num id) ∷ [])
  pure (resolved id (verdict_of approve))

unfoldable pub resolve_tx : Clock → String → ℕ → Bool → Option String → Tx Resolution
unfolding announce
resolve_tx clk team_id id approve by = do
  changed ← fetch (λ db. row_count (is_open team_id id) db.guard_requests)
  execute (λ db. record db {
    guard_requests =
        update (is_open team_id id) (resolved_row clk.now (verdict_of approve) by)
          db.guard_requests;
  })
  if not (eqb changed 1) then pure not_pending_or_unknown else announce clk team_id id approve by

unfoldable pub resolve_request :
    Clock → String → ℕ → Bool → Option String → Server → Answer Resolution × Server
unfolding resolve_tx
resolve_request clk team_id id approve by =
    serve (resolve_tx clk team_id id approve by) (λ r redis. (r, redis))

abbrev pub is_checked : Option Decision → Decision → Bool
is_checked none d = true
is_checked (some allow) allow = true
is_checked (some deny) deny = true
is_checked (some ask) d = true
is_checked _ _ = false

-- A filter by any other decision than allow and deny is passed over.
unfoldable pub recent_events : String → ℤ → Option Decision → Db → List GuardEvent
recent_events team_id limit decision db = take (page_size 100 500 limit) (
    order_by (λ a b. ltb b.id a.id)
      (select (λ e. e.team_id == team_id && is_checked decision e.decision) db.guard_events))

abbrev pub before : ℕ → Option ℕ → Bool
before cutoff none = false
before cutoff (some at) = ltb at cutoff

-- Resolved before the cutoff, or pending since before it.
abbrev pub is_stale : ℕ → GuardRequest → Bool
is_stale cutoff r = before cutoff r.resolved_at || is_pending r.status && ltb r.created_at cutoff

-- `prune_expired`: how many events of the audit were deleted.
unfoldable pub prune_guard : ℕ → ℕ → Db → ℕ × Db
prune_guard now retention_ms db =
    let cutoff = now - retention_ms in
    (
      row_count (λ e. ltb e.ts cutoff) db.guard_events,
      record db {
        guard_events = delete (λ e. ltb e.ts cutoff) db.guard_events;
        guard_requests = delete (is_stale cutoff) db.guard_requests;
      },
    )
