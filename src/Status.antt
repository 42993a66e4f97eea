-- ===== src/Status.antt =====
-- services/status.py: the summary of a team, and catching up on the event log.
pub mod Cursor
use atmcp.Base.{
  ℕ, String, Bool, true, false, none, ◌&&◌, List, [], ◌∷◌, ◌==◌, ltb, max, take, ℤ, length,
}
use atmcp.Base.Table.{select, order_by, row_count}
use atmcp.Schema.{Event, Settings}
use atmcp.Db.{Db}
use atmcp.Tasks.Board.{page_size, Rollup, goal_rollup}
use atmcp.Redis.{Redis}
use atmcp.Presence.{healthy, degraded, offline}
use atmcp.Identity.{AgentLine}
use atmcp.Identity.Roster.{list_agents}

abbrev pub max_event : List Event → ℕ
max_event [] = 0
max_event (e ∷ es) = max e.event_id (max_event es)

abbrev pub of_team : String → Event → Bool
of_team team_id e = e.team_id == team_id

-- SELECT COALESCE(MAX(event_id),0)
unfoldable pub head_event_id : String → Db → ℕ
head_event_id team_id db = max_event (select (of_team team_id) db.events)

pub record Sync : Type 0 where
  pub events : List Event
  pub count : ℕ
  pub head_event_id : ℕ

-- WHERE team_id=? AND event_id>?
abbrev pub is_after : String → ℕ → Event → Bool
is_after team_id since e = of_team team_id e && ltb since e.event_id

-- ORDER BY event_id ASC is the order of insertion.
unfoldable pub sync : String → ℕ → ℤ → Db → Sync
sync team_id since limit db =
    let evs = take (page_size 200 1000 limit) (select (is_after team_id since) db.events) in
    record { events = evs; count = length evs; head_event_id = head_event_id team_id db }

-- ORDER BY event_id DESC
unfoldable pub recent_events : String → ℤ → Db → List Event
recent_events team_id limit db =
    take (page_size 50 500 limit)
      (order_by (λ a b. ltb b.event_id a.event_id) (select (of_team team_id) db.events))

abbrev pub is_online : AgentLine → Bool
is_online a = elim a.presence [ healthy ↦ true | degraded ↦ true | offline ↦ false ]

pub record TeamStatus : Type 0 where
  pub agents_total : ℕ
  pub agents_online : ℕ
  pub rollup : Rollup
  pub knowledge_count : ℕ
  pub head_event_id : ℕ

unfoldable pub get_team_status : Settings → ℕ → Redis → String → Db → TeamStatus
get_team_status cfg now redis team_id db =
    let agents = list_agents cfg now redis team_id db in
    record {
      agents_total = length agents;
      agents_online = row_count is_online agents;
      rollup = goal_rollup team_id none db;
      knowledge_count = row_count (λ k. k.team_id == team_id && k.present) db.knowledge_current;
      head_event_id = head_event_id team_id db;
    }
