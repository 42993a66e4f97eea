-- ===== src/Tasks.antt =====
-- services/tasks.py: tests on rows and the statements that several operations share. The operations
-- are in Tasks.Create, Tasks.Claim, Tasks.Work and Tasks.Board; the children below them prove.
pub mod Create
pub mod Claim
pub mod Work
pub mod Board
pub mod Settle
pub mod Views
pub mod Isolation
pub mod Eligible
pub mod Invariant
pub mod Tokens
use atmcp.Base.{
  ℕ, zero, String, Bool, true, false, not, ◌&&◌, Option, none, some, List, map, ◌==◌, holds,
  is_some, eqb, if◌then◌else◌,
}
use atmcp.Base.Table.{fetch_one, select, update}
use atmcp.Schema.{
  Task, TaskDep, TaskClaim, TaskStatus, Outcome, Agent, opened, claimed, in_progress, blocked,
  cancelled,
}
use atmcp.Db.{Db}

abbrev pub is_task : String → String → Task → Bool
is_task team_id task_id t = t.team_id == team_id && t.task_id == task_id

abbrev pub find_task : String → String → Db → Option Task
find_task team_id task_id db = fetch_one (is_task team_id task_id) db.tasks

abbrev pub is_opened : TaskStatus → Bool
is_opened opened = true
is_opened _ = false

abbrev pub is_done : TaskStatus → Bool
is_done TaskStatus.done = true
is_done _ = false

-- The text of a status in the table.
unfoldable pub status_text : TaskStatus → String
status_text opened = "open"
status_text claimed = "claimed"
status_text in_progress = "in_progress"
status_text blocked = "blocked"
status_text TaskStatus.done = "done"
status_text TaskStatus.failed = "failed"
status_text cancelled = "cancelled"

-- status IN ('claimed','in_progress')
abbrev pub is_leased : TaskStatus → Bool
is_leased claimed = true
is_leased in_progress = true
is_leased _ = false

-- t.status IS NULL OR t.status!='done', over the LEFT JOIN of a dependency with its task
unfoldable pub dep_unmet : List Task → TaskDep → Bool
dep_unmet tasks d = elim (fetch_one (is_task d.team_id d.depends_on) tasks) [
  | none ↦ true
  | some t ↦ not (is_done t.status)
]

abbrev pub unmet_row : String → String → List Task → TaskDep → Bool
unmet_row team_id task_id tasks d =
    (d.team_id == team_id && d.task_id == task_id) && dep_unmet tasks d

-- `_deps_unmet`
unfoldable pub deps_unmet : String → String → Db → List String
deps_unmet team_id task_id db =
    map (λ d. d.depends_on) (select (unmet_row team_id task_id db.tasks) db.task_deps)

-- An UPDATE of one task.
unfoldable pub set_task : String → String → (Task → Task) → Db → Db
set_task team_id task_id f db = record db { tasks = update (is_task team_id task_id) f db.tasks }

-- The open claim of `agent_id` on the task is closed. A NULL agent equals nothing.
unfoldable pub close_claim : ℕ → Outcome → String → String → Option String → Db → Db
close_claim now outcome team_id task_id agent_id db = record db {
  task_claims =
      update
        (λ c.
          (c.team_id == team_id && c.task_id == task_id)
          && (holds agent_id c.agent_id && not (is_some c.released_at)))
        (λ c. record c { released_at = some now; outcome = some outcome }) db.task_claims;
}

-- UPDATE agents SET current_task_id=NULL WHERE … AND current_task_id=?
unfoldable pub clear_current : String → String → Option String → Db → Db
clear_current team_id task_id agent_id db = record db {
  agents =
      update
        (λ a.
          (a.team_id == team_id && holds agent_id a.agent_id) && holds a.current_task_id task_id)
        (λ a. record a { current_task_id = none }) db.agents;
}

-- The holder's token check of every operation on a claimed task.
abbrev pub is_holder : String → ℕ → Task → Bool
is_holder agent_id fencing_token t = holds t.assignee agent_id && eqb t.fencing_token fencing_token
