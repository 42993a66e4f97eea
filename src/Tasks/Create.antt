-- ===== src/Tasks/Create.antt =====
-- `create_goal` and `create_task`.
use atmcp.Base.{
  ℕ, String, Option, none, some, List, [], ◌∷◌, ◌&&◌, ◌==◌, is_some, if◌then◌else◌, ℤ, to_ℕ, max,
}
use atmcp.Base.Table.{fetch_one, insert}
use atmcp.Schema.{
  Task, TaskDep, Goal, Caller, Clock, Settings, opened, goal_created, task_created, str, strs, num,
  int,
}
use atmcp.Wire.{Reply}
use atmcp.Db.{Tx, Turn, result, pure, execute, execute_unique, ◌>>=◌, ◌>>◌}
use atmcp.Events.{append, opt_str}
use atmcp.Idempotency.{idempotent}
use atmcp.Server.{Server, Answer, serve, no_redis}
use atmcp.Tasks.{is_task}

goal_row : Clock → Caller → String → String → Option String → Goal
goal_row clk c goal_id title description = record {
  team_id = c.team_id;
  goal_id = goal_id;
  title = title;
  description = description;
  created_at = clk.now;
}

-- `goal_id` is the id that `new_id()` drew.
unfoldable pub goal_tx : Clock → Caller → String → String → Option String → Tx Turn
unfolding goal_row append
goal_tx clk c goal_id title description = do
  execute_unique
      (λ db. is_some (fetch_one (λ g. g.team_id == c.team_id && g.goal_id == goal_id) db.goals))
      (λ db. record db { goals = insert (goal_row clk c goal_id title description) db.goals })
  eid ←
      append clk c.team_id goal_created "goal" (some goal_id) (some c.agent_id)
        (("title", str title) ∷ [])
  pure (result (Reply.goal_created goal_id eid))

unfoldable pub create_goal :
    Clock → String → Caller → String → Option String → Server → Answer Reply × Server
unfolding goal_tx
create_goal clk goal_id c title description =
    serve (goal_tx clk c goal_id title description) no_redis

-- The arguments of `create_task`.
pub record NewTask : Type 0 where
  pub title : String
  pub description : Option String
  pub parent_id : Option String
  pub goal_id : Option String
  pub priority : ℤ
  pub weight : ℤ
  pub depends_on : List String
  pub lease_ttl_s : Option ℕ

-- max(1, int(weight))
abbrev pub clamp_weight : ℤ → ℕ
clamp_weight w = max 1 (to_ℕ w)

unfoldable pub task_row : Settings → Clock → Caller → String → NewTask → Task
task_row cfg clk c task_id n = record {
  team_id = c.team_id;
  task_id = task_id;
  parent_id = n.parent_id;
  goal_id = n.goal_id;
  title = n.title;
  description = n.description;
  status = opened;
  priority = n.priority;
  weight = clamp_weight n.weight;
  assignee = none;
  fencing_token = 0;
  lease_ttl_s = n.lease_ttl_s;
  lease_expires_at = none;
  progress_pct = 0;
  attempts = 0;
  max_attempts = cfg.task_max_attempts;
  result_summary = none;
  created_at = clk.now;
  updated_at = clk.now;
  last_event_id = 0;
}

-- The loop of INSERT OR IGNORE over the dependencies.
unfoldable pub add_deps : String → String → List String → List TaskDep → List TaskDep
add_deps team_id task_id [] deps = deps
add_deps team_id task_id (dep ∷ rest) deps = add_deps team_id task_id rest (
    if is_some
      (fetch_one (λ d. (d.team_id == team_id && d.task_id == task_id) && d.depends_on == dep) deps)
    then deps
    else insert (record { team_id = team_id; task_id = task_id; depends_on = dep }) deps)

unfoldable pub create_tx : Settings → Clock → Caller → String → NewTask → Tx Turn
unfolding task_row append
create_tx cfg clk c task_id n = do
  execute_unique (λ db. is_some (fetch_one (is_task c.team_id task_id) db.tasks))
      (λ db. record db { tasks = insert (task_row cfg clk c task_id n) db.tasks })
  execute (λ db. record db { task_deps = add_deps c.team_id task_id n.depends_on db.task_deps })
  eid ← append clk c.team_id task_created "task" (some task_id) (some c.agent_id) (
      ("title", str n.title)
      ∷ ("goal_id", opt_str n.goal_id)
      ∷ ("depends_on", strs n.depends_on)
      ∷ ("priority", int n.priority)
      ∷ ("weight", num (clamp_weight n.weight))
      ∷ [])
  pure (result (Reply.task_created task_id eid))

-- `task_id` is the id that `new_id()` drew.
unfoldable pub create_task :
    Settings → Clock → String → Caller → NewTask → Option String → Server → Answer Reply × Server
unfolding create_tx
create_task cfg clk task_id c n idem_key =
    serve (idempotent clk c idem_key (create_tx cfg clk c task_id n)) no_redis
