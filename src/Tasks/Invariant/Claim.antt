-- ===== src/Tasks/Invariant/Claim.antt =====
-- Claims and the creation of tasks keep the tasks table well-formed.
use atmcp.Base.{
  ℕ, ◌≤◌, String, ◌≡◌, refl, true, Option, none, List, inl, inr, arith, Option-cases, All-append,
  both_eq, ◌==◌, ◌&&◌,
}
use atmcp.Base.Table.{fetch_one, update, insert}
use atmcp.Base.Table.Laws.{AtMostOne-update, AtMostOne-insert, All-update}
use atmcp.Schema.{Task, Caller, Clock, Settings}
use atmcp.Wire.{Reply}
use atmcp.Db.{TxState, Tried, result}
use atmcp.Db.Keeps.{After, Keeps, After-pure}
use atmcp.Tasks.{is_task, find_task, is_opened}
use atmcp.Tasks.Claim.{open_task_row, take_task, do_claim, claim_tx, claim_next_tx, next_task}
use atmcp.Tasks.Create.{NewTask, goal_tx, task_row, create_tx}
use atmcp.Tasks.Claim.Outcome.{Claims, do_claim-Claims}
use atmcp.Tasks.Invariant.{RowOk, TasksOk, DbOk}

take_task-RowOk :
    (now exp : ℕ) (agent : String) (t : Task)
    → is_opened t.status ≡ true
    → RowOk t
    → RowOk (take_task now agent exp t)
unfolding take_task
take_task-RowOk now exp agent t free v = ground arith

take-TasksOk :
    (team task agent : String) (now exp : ℕ) (tasks : List Task)
    → TasksOk tasks
    → TasksOk (update (open_task_row team task) (take_task now agent exp) tasks)
unfolding take_task
take-TasksOk team task agent now exp tasks v = record {
  keyed = λ x y.
      AtMostOne-update (is_task x y) (open_task_row team task) _ (λ r. refl) tasks (v.keyed x y);
  rows =
      All-update RowOk (open_task_row team task) _
        (λ r e ok. take_task-RowOk now exp agent r (ground arith) ok) tasks v.rows;
}

module _ (cfg : Settings) (clk : Clock) (c : Caller) where
  claimed-DbOk :
      (task_id : String) (row : Option Task) (unmet : List String) (t : TxState) (r : Tried Reply)
      → DbOk t.db
      → Claims cfg clk c task_id row unmet t r
      → After DbOk r
  claimed-DbOk task_id row unmet t r v (inl (refused, _)) = rw (refused, After) v
  claimed-DbOk task_id row unmet t r v (inr (x, _, free, _, (after, won, table, _))) =
      rw (won, After) (rw table (take-TasksOk c.team_id task_id c.agent_id clk.now _ t.db.tasks v))

  pub do_claim-DbOk :
      (task_id : String) (t : TxState) → DbOk t.db → After DbOk (do_claim cfg clk c task_id t)
  do_claim-DbOk task_id t v =
      claimed-DbOk task_id _ _ t (do_claim cfg clk c task_id t) v
        (do_claim-Claims cfg clk c task_id t (v.keyed c.team_id task_id))

  pub claim_tx-Keeps : (task_id : String) → Keeps DbOk (claim_tx cfg clk c task_id)
  unfolding claim_tx
  claim_tx-Keeps task_id = record {
    at = λ t v. After-pure DbOk (do_claim cfg clk c task_id t) result (do_claim-DbOk task_id t v);
  }

  pub claim_next_tx-Keeps : Keeps DbOk (claim_next_tx cfg clk c)
  unfolding claim_next_tx
  claim_next_tx-Keeps = record {
    at = λ t v. elim (Option-cases (next_task c.team_id t.db)) [
      | inl e ↦ rw (e, After) v
      | inr (row, e) ↦
          rw (e, After)
            (After-pure DbOk (do_claim cfg clk c row.task_id t) result
              (do_claim-DbOk row.task_id t v))
    ];
  }

-- A new task is open, has attempts left if the limit is at least 1, and has an id of its own.
create_row-RowOk :
    (cfg : Settings) (clk : Clock) (c : Caller) (task_id : String) (n : NewTask)
    → 1 ≤ cfg.task_max_attempts
    → RowOk (task_row cfg clk c task_id n)
unfolding task_row
create_row-RowOk cfg clk c task_id n h = record {
  owned = (refl, refl);
  attempted = omega arith;
  percent = omega arith;
  weighs = omega arith;
  unstamped = refl;
}

insert-TasksOk :
    (row : Task) (tasks : List Task)
    → RowOk row
    → fetch_one (is_task row.team_id row.task_id) tasks ≡ none
    → TasksOk tasks
    → TasksOk (insert row tasks)
insert-TasksOk row tasks ok free v = record {
  keyed = λ x y.
      AtMostOne-insert (is_task x y) row tasks (v.keyed x y)
        (λ e. let k = both_eq row.team_id row.task_id x y e in rw (← k.0, ← k.1) free);
  rows = All-append RowOk tasks _ v.rows (ok, tt);
}

pub create_tx-Keeps :
    (cfg : Settings) (clk : Clock) (c : Caller) (task_id : String) (n : NewTask)
    → 1 ≤ cfg.task_max_attempts
    → Keeps DbOk (create_tx cfg clk c task_id n)
unfolding create_tx task_row
create_tx-Keeps cfg clk c task_id n h = record {
  at = λ t v. elim (Option-cases (find_task c.team_id task_id t.db)) [
    | inr (row, e) ↦ rw (e, After) tt
    | inl e ↦
        rw (e, After)
          (insert-TasksOk (task_row cfg clk c task_id n) t.db.tasks
            (create_row-RowOk cfg clk c task_id n h) e v)
  ];
}

pub goal_tx-Keeps :
    (clk : Clock) (c : Caller) (goal_id title : String) (description : Option String)
    → Keeps DbOk (goal_tx clk c goal_id title description)
unfolding goal_tx
goal_tx-Keeps clk c goal_id title description = record {
  at = λ t v.
      elim (Option-cases
        (fetch_one (λ g. g.team_id == c.team_id && g.goal_id == goal_id) t.db.goals)) [
          | inr (row, e) ↦ rw (e, After) tt
          | inl e ↦ rw (e, After) v
        ];
}
