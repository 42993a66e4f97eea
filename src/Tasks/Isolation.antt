-- ===== src/Tasks/Isolation.antt =====
-- services/tasks.py: a task that a team creates, and the rows of another team.
use atmcp.Base.{
  String, ◌==◌, ◌≡◌, refl, ap, ◌∙◌, Bool, true, false, if◌then◌else◌, none, List, [], ◌∷◌, eq_refl,
  Option-cases, inl, inr, is_some,
}
use atmcp.Base.Table.{fetch_one, insert}
use atmcp.Schema.{Task, TaskDep, Clock, Caller, Settings}
use atmcp.Db.{Db}
use atmcp.Db.Keeps.{After, Keeps}
use atmcp.Db.Isolation.{Rows, rows_of, Untouched, own_rows, own_rows-insert, append-Untouched}
use atmcp.Server.{Server, no_redis}
use atmcp.Server.Frame.{serve-Keeps, idempotent-none}
use atmcp.Tasks.{is_task}
use atmcp.Tasks.Create.{NewTask, task_row, add_deps, create_tx, create_task}

module _ (other team : String) (out : (team == other) ≡ false) where
  own_rows-add_deps :
      (id : String) (deps : List String) (rows : List TaskDep)
      → own_rows (λ (d : TaskDep). d.team_id) other (add_deps team id deps rows)
        ≡ own_rows (λ (d : TaskDep). d.team_id) other rows
  unfolding add_deps
  own_rows-add_deps id [] rows = refl
  own_rows-add_deps id (dep ∷ rest) rows =
      own_rows-add_deps id rest _ ∙ added (is_some (fetch_one _ rows))
    where
      added :
          (there : Bool)
          → own_rows
              (λ (d : TaskDep). d.team_id)
              other
              (if there
                then rows
                else insert (record { team_id = team; task_id = id; depends_on = dep }) rows)
            ≡ own_rows (λ (d : TaskDep). d.team_id) other rows
      added true = refl
      added false =
          own_rows-insert (λ (d : TaskDep). d.team_id) other team out _ rows (eq_refl team)

module _ (other : String) (f : Rows) (clk : Clock) (c : Caller)
    (out : (c.team_id == other) ≡ false) where
  task-Untouched :
      (cfg : Settings) (id : String) (n : NewTask) (db : Db)
      → Untouched other f db
      → Untouched other f (record db {
        tasks = insert (task_row cfg clk c id n) db.tasks;
        task_deps = add_deps c.team_id id n.depends_on db.task_deps;
      })
  unfolding task_row
  task-Untouched cfg id n db h =
      ap
        (λ l. record (rows_of other db) {
          tasks = l;
          task_deps =
              own_rows (λ d. d.team_id) other (add_deps c.team_id id n.depends_on db.task_deps);
        })
        (own_rows-insert (λ (t : Task). t.team_id) other c.team_id out _ db.tasks
          (eq_refl c.team_id))
      ∙ ap (λ l. record (rows_of other db) { task_deps = l })
          (own_rows-add_deps other c.team_id out id n.depends_on db.task_deps)
      ∙ h

  create_tx-Untouched :
      (cfg : Settings) (id : String) (n : NewTask)
      → Keeps (Untouched other f) (create_tx cfg clk c id n)
  unfolding create_tx
  create_tx-Untouched cfg id n = record {
    at = λ t h. elim (Option-cases (fetch_one (is_task c.team_id id) t.db.tasks)) [
      | inr (x, e) ↦ rw (e, After) tt
      | inl e ↦
          rw (e, After)
            (append-Untouched other c.team_id out f clk _ _ _ _ _
              (record t {
                db = record t.db {
                  tasks = insert (task_row cfg clk c id n) t.db.tasks;
                  task_deps = add_deps c.team_id id n.depends_on t.db.task_deps;
                };
              })
              (task-Untouched cfg id n t.db h))
    ];
  }

  pub create_task-Untouched :
      (cfg : Settings) (id : String) (n : NewTask) (s : Server)
      → Untouched other f s.db
      → Untouched other f (create_task cfg clk id c n none s).1.db
  unfolding create_task
  create_task-Untouched cfg id n s h = rw (idempotent-none clk c (create_tx cfg clk c id n)) (
      serve-Keeps (Untouched other f) (create_tx cfg clk c id n) no_redis s
        (create_tx-Untouched cfg id n) h)
