-- ===== src/Tasks/Invariant.antt =====
-- The well-formedness of the tasks table: keys are unique, and each row has the assignee, lease and
-- attempts that belong to its status. Every operation keeps it (the modules below).
pub mod Work
pub mod Batch
pub mod Claim
use atmcp.Base.{
  ℕ, suc, ◌≤◌, ◌<◌, String, ◌≡◌, refl, Bool, true, false, Option, none, some, List, is_some, arith,
  All,
}
use atmcp.Base.Table.{fetch_one, update}
use atmcp.Base.Table.Laws.{AtMostOne, AtMostOne-update, All-update_one}
use atmcp.Schema.{Task, TaskStatus, opened, claimed, in_progress, blocked, cancelled}
use atmcp.Db.{Db}
use atmcp.Tasks.{is_task}

-- An open or dead task is nobody's and has no lease; a task in work has a holder and a lease; a
-- finished one keeps the name of its holder.
abbrev pub Owned : TaskStatus → Option String → Option ℕ → Type 0
Owned opened a l = (a ≡ none) × (l ≡ none)
Owned TaskStatus.failed a l = (a ≡ none) × (l ≡ none)
Owned claimed a l = (is_some a ≡ true) × (is_some l ≡ true)
Owned in_progress a l = (is_some a ≡ true) × (is_some l ≡ true)
Owned blocked a l = (is_some a ≡ true) × (is_some l ≡ true)
Owned TaskStatus.done a l = is_some a ≡ true
Owned cancelled a l = ⊥

-- Only a dead task has used up its attempts.
abbrev pub Attempted : TaskStatus → ℕ → ℕ → Type 0
Attempted TaskStatus.failed n most = n ≤ most
Attempted _ n most = n < most

pub record RowOk (t : Task) : Type 0 where
  pub owned : Owned t.status t.assignee t.lease_expires_at
  pub attempted : Attempted t.status t.attempts t.max_attempts
  pub percent : t.progress_pct ≤ 100
  pub weighs : 1 ≤ t.weight
  pub unstamped : t.last_event_id ≡ 0

pub record TasksOk (tasks : List Task) : Type 0 where
  pub keyed : (team_id task_id : String) → AtMostOne (is_task team_id task_id) tasks
  pub rows : All RowOk tasks

abbrev pub DbOk : Db → Type 0
DbOk db = TasksOk db.tasks

-- An UPDATE leaves the key of a row alone.
abbrev pub KeepsKey : (Task → Task) → Type 0
KeepsKey f = (x y : String) (t : Task) → is_task x y (f t) ≡ is_task x y t

-- An UPDATE of the one task that was read.
pub update-TasksOk :
    (team_id task_id : String) (f : Task → Task) (tasks : List Task) (row : Task)
    → KeepsKey f
    → TasksOk tasks
    → fetch_one (is_task team_id task_id) tasks ≡ some row
    → (RowOk row → RowOk (f row))
    → TasksOk (update (is_task team_id task_id) f tasks)
update-TasksOk team_id task_id f tasks row same v found keep = record {
  keyed = λ x y.
      AtMostOne-update (is_task x y) (is_task team_id task_id) f (same x y) tasks (v.keyed x y);
  rows =
      All-update_one RowOk (is_task team_id task_id) f tasks (v.keyed team_id task_id) found keep
        v.rows;
}
