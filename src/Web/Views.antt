-- ===== src/Web/Views.antt =====
-- web.py: the reading views of the dashboard, and `_check_dashboard`. A view changes nothing.
use atmcp.Base.{
  ℕ, String, ◌==◌, Bool, false, not, ◌&&◌, ◌||◌, Option, none, some, List, if◌then◌else◌, truthy,
  take, ltb, ℤ, pos,
}
use atmcp.Base.Table.{fetch_one, select, order_by}
use atmcp.Schema.{
  Team, Task, Goal, Knowledge, Directive, Event, GuardEvent, GuardRequest, GuardRule, Decision,
  allow, deny,
}
use atmcp.Db.{Db}
use atmcp.Server.{Server}
use atmcp.Identity.{AgentLine, resolve_agent_ref}
use atmcp.Identity.Roster.{list_agents}
use atmcp.Tasks.Board.{Rollup, list_tasks, goal_rollup}
use atmcp.Directives.Inbox.{list_team}
use atmcp.Sessions.{SessionView, get_session, list_sessions}
use atmcp.Sessions.Messages.{Transcript, transcript, session_output}
use atmcp.Output.{Tail, get_output}
use atmcp.Guard.{recent_events, pending_requests}
use atmcp.Guard.Rules.{list_rules}
use atmcp.Usage.Meters.{TeamUsage, team_usage}
use atmcp.Status.{TeamStatus, get_team_status, head_event_id}
use atmcp.Status
use atmcp.Web.{Env, token_fits, team_by_name}

pub record Snapshot : Type 0 where
  pub team : Team
  pub status : TeamStatus
  pub rollup : Rollup
  pub agents : List AgentLine
  pub tasks : List Task
  pub goals : List Goal
  pub knowledge : List Knowledge
  pub usage : TeamUsage
  pub events : List Event

pub record AgentDetail : Type 0 where
  pub agent : Option AgentLine
  pub agent_id : String
  pub directives : List Directive
  pub tasks : List Task
  pub tail : Tail

-- The count that goes with a list is its length.
pub data Page : Type 0 where
  page_error : (status_code : ℕ) (detail : String) → Page
  snapshot_page : Snapshot → Page
  status_page : TeamStatus → Page
  usage_page : TeamUsage → Page
  directives_page : List Directive → Page
  detail_page : AgentDetail → Page
  output_page : Tail → Page
  sessions_page : List SessionView → Page
  session_page : SessionView → Transcript → Page
  guard_events_page : List GuardEvent → Page
  guard_requests_page : List GuardRequest → Page
  guard_rules_page : List GuardRule → Page

-- The path and the query of each view, without the team and the token.
pub data View : Type 0 where
  snapshot_view status_view usage_view guard_requests_view guard_rules_view : View
  directives_view : (status agent : Option String) (limit : ℤ) → View
  detail_view : (agent_ref : String) → View
  output_view : (agent_ref : String) (since_seq : ℕ) (limit : ℤ) → View
  sessions_view : (agent : Option String) (include_archived : Bool) → View
  session_view : (session_id : String) → View
  session_output_view : (session_id : String) (since_seq : ℕ) (wait_ms limit : ℤ) → View
  guard_events_view : (decision : Option String) (limit : ℤ) → View

-- `_snapshot`
unfoldable pub snapshot : Env → Team → Server → Snapshot
snapshot env t s =
    let team_id = t.team_id in
    record {
      team = t;
      status = get_team_status env.cfg env.clk.now s.redis team_id s.db;
      rollup = goal_rollup team_id none s.db;
      agents = list_agents env.cfg env.clk.now s.redis team_id s.db;
      tasks = list_tasks team_id none none none 0 (pos 500) s.db;
      goals =
          order_by (λ a b. ltb a.created_at b.created_at)
            (select (λ g. g.team_id == team_id) s.db.goals);
      knowledge = take 50 (
          order_by (λ a b. ltb b.last_seen_at a.last_seen_at)
            (select (λ k. k.team_id == team_id && k.present) s.db.knowledge_current));
      usage = team_usage env.floats env.clk.now team_id s.db;
      events = Status.recent_events team_id (pos 80) s.db;
    }

-- A value that a page needs, or 404.
abbrev pub or_404 : {A : Type 0} → String → (A → Page) → Option A → Page
or_404 detail go none = page_error 404 detail
or_404 detail go (some a) = go a

-- The filter by an agent, if one is named.
abbrev pub filter_agent : String → Option String → Db → (Option String → Page) → Page
filter_agent team_id agent db go = elim (truthy agent) [
  | none ↦ go none
  | some a ↦ or_404 "unknown agent" (λ aid. go (some aid)) (resolve_agent_ref team_id a db)
]

unfoldable pub agent_detail : Env → String → String → Server → AgentDetail
agent_detail env team_id aid s = record {
  agent =
      fetch_one (λ (l : AgentLine). l.agent.agent_id == aid)
        (list_agents env.cfg env.clk.now s.redis team_id s.db);
  agent_id = aid;
  directives = list_team team_id none (some aid) (pos 50) s.db;
  tasks = list_tasks team_id none (some aid) none 0 (pos 100) s.db;
  tail = get_output team_id aid 0 (pos 0) (pos 300) env.waiting s;
}

-- decision in ("allow", "deny")
abbrev pub decision_of : Option String → Option Decision
decision_of none = none
decision_of (some d) = if d == "allow" then some allow else if d == "deny" then some deny else none

unfoldable pub show : Env → Team → View → Server → Page
unfolding snapshot agent_detail
show env t snapshot_view s = snapshot_page (snapshot env t s)
show env t status_view s = status_page (get_team_status env.cfg env.clk.now s.redis t.team_id s.db)
show env t usage_view s = usage_page (team_usage env.floats env.clk.now t.team_id s.db)
show env t (directives_view status agent limit) s =
    filter_agent t.team_id agent s.db
      (λ to_agent. directives_page (list_team t.team_id status to_agent limit s.db))
show env t (detail_view agent_ref) s =
    or_404 "unknown agent" (λ aid. detail_page (agent_detail env t.team_id aid s))
      (resolve_agent_ref t.team_id agent_ref s.db)
show env t (output_view agent_ref since_seq limit) s =
    or_404 "unknown agent"
      (λ aid. output_page (get_output t.team_id aid since_seq (pos 0) limit env.waiting s))
      (resolve_agent_ref t.team_id agent_ref s.db)
show env t (sessions_view agent include_archived) s =
    filter_agent t.team_id agent s.db
      (λ aid. sessions_page (list_sessions t.team_id aid include_archived (pos 200) s.db))
show env t (session_view session_id) s =
    or_404 "unknown session" (λ x. session_page x (transcript t.team_id session_id env.waiting s))
      (get_session t.team_id session_id s.db)
show env t (session_output_view session_id since_seq wait_ms limit) s =
    output_page (session_output t.team_id session_id since_seq wait_ms limit env.waiting s)
show env t (guard_events_view decision limit) s =
    guard_events_page (recent_events t.team_id limit (decision_of decision) s.db)
show env t guard_requests_view s = guard_requests_page (pending_requests t.team_id (pos 100) s.db)
show env t guard_rules_view s = guard_rules_page (list_rules t.team_id s.db)

-- `_check_dashboard`: whether the view is open, or the token is the team's.
unfoldable pub check_dashboard : Env → Bool → Option String → Team → Bool
check_dashboard env dashboard_auth token t =
    not dashboard_auth
    || elim t.dashboard_token_hash [ none ↦ false | some h ↦ token_fits env.hash_token token h ]

abbrev pub open_view : Env → Bool → Option String → View → Server → Option Team → Page
open_view env dashboard_auth token v s none = page_error 404 "unknown team"
open_view env dashboard_auth token v s (some t) =
    if check_dashboard env dashboard_auth token t
    then show env t v s
    else page_error 401 "dashboard token required"

unfoldable pub view : Env → Bool → String → Option String → View → Server → Page
unfolding show check_dashboard
view env dashboard_auth team_name token v s =
    open_view env dashboard_auth token v s (team_by_name team_name s.db)
