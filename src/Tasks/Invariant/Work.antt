-- ===== src/Tasks/Invariant/Work.antt =====
-- The operations of a holder keep the tasks table well-formed.
use atmcp.Base.{
  ℕ, ◌+◌, String, ◌≡◌, refl, true, Option, none, some, is_some, arith, Bool-cases, inl, inr, ℤ,
}
use atmcp.Schema.{Task, Caller, Clock, Settings}
use atmcp.Db.{TxState, result}
use atmcp.Db.Keeps.{After, Keeps, After-pure}
use atmcp.Tasks.{find_task, is_holder}
use atmcp.Tasks.Work.{
  complete_held, fail_held, release_held, clamp_pct, progress_status, progress_task, progress_row,
  progress_tx, complete_row, complete_found, complete_tx, is_dead, fail_row, release_row,
  fail_found, fail_tx, release_found, release_tx,
}
use atmcp.Tasks.Invariant.{RowOk, DbOk, update-TasksOk}

-- The row that the holder reads is owned, so it is neither open nor dead.
holder_has :
    (agent : String) (token : ℕ) (t : Task)
    → is_holder agent token t ≡ true
    → is_some t.assignee ≡ true
holder_has agent token t h = ground arith

complete_row-RowOk :
    (now : ℕ) (summary : Option String) (t : Task)
    → is_some t.assignee ≡ true
    → RowOk t
    → RowOk (complete_row now summary t)
unfolding complete_row
complete_row-RowOk now summary t a v = ground arith

fail_row-RowOk :
    (now : ℕ) (error : Option String) (t : Task)
    → is_some t.assignee ≡ true
    → RowOk t
    → RowOk (fail_row now (is_dead t) (t.attempts + 1) error t)
unfolding fail_row
fail_row-RowOk now error t a v = ground arith

release_row-RowOk :
    (now : ℕ) (t : Task) → is_some t.assignee ≡ true → RowOk t → RowOk (release_row now t)
unfolding release_row
release_row-RowOk now t a v = ground arith

progress_task-RowOk :
    (now exp : ℕ) (pct : Option ℤ) (status : Option String) (t : Task)
    → is_some t.assignee ≡ true
    → RowOk t
    → RowOk (progress_task now (progress_status status t.status) exp (clamp_pct pct) t)
unfolding progress_task progress_status
progress_task-RowOk now exp pct status t a v = ground arith

module _ (clk : Clock) (c : Caller) (task_id : String) (token : ℕ) where
  complete_found-DbOk :
      (summary : Option String) (row : Option Task) (t : TxState)
      → find_task c.team_id task_id t.db ≡ row
      → DbOk t.db
      → After DbOk (complete_found clk c task_id token summary row t)
  unfolding complete_found complete_held complete_row
  complete_found-DbOk summary none t e v = v
  complete_found-DbOk summary (some row) t e v =
      elim (Bool-cases (is_holder c.agent_id token row)) [
        | inl h ↦
            rw (h, After)
              (update-TasksOk c.team_id task_id (complete_row clk.now summary) t.db.tasks row
                (λ x y r. refl) v e
                (complete_row-RowOk clk.now summary row (holder_has c.agent_id token row h)))
        | inr h ↦ rw (h, After) v
      ]

  fail_found-DbOk :
      (error : Option String) (row : Option Task) (t : TxState)
      → find_task c.team_id task_id t.db ≡ row
      → DbOk t.db
      → After DbOk (fail_found clk c task_id token error row t)
  unfolding fail_found fail_held fail_row
  fail_found-DbOk error none t e v = v
  fail_found-DbOk error (some row) t e v = elim (Bool-cases (is_holder c.agent_id token row)) [
    | inl h ↦
        rw (h, After)
          (update-TasksOk c.team_id task_id _ t.db.tasks row (λ x y r. refl) v e
            (fail_row-RowOk clk.now error row (holder_has c.agent_id token row h)))
    | inr h ↦ rw (h, After) v
  ]

  release_found-DbOk :
      (row : Option Task) (t : TxState)
      → find_task c.team_id task_id t.db ≡ row
      → DbOk t.db
      → After DbOk (release_found clk c task_id token row t)
  unfolding release_found release_held release_row
  release_found-DbOk none t e v = v
  release_found-DbOk (some row) t e v = elim (Bool-cases (is_holder c.agent_id token row)) [
    | inl h ↦
        rw (h, After)
          (update-TasksOk c.team_id task_id _ t.db.tasks row (λ x y r. refl) v e
            (release_row-RowOk clk.now row (holder_has c.agent_id token row h)))
    | inr h ↦ rw (h, After) v
  ]

  progress_found-DbOk :
      (cfg : Settings) (pct : Option ℤ) (status message : Option String) (row : Option Task)
      (t : TxState)
      → find_task c.team_id task_id t.db ≡ row
      → DbOk t.db
      → After DbOk (progress_row cfg clk c task_id token pct status message row t)
  unfolding progress_row progress_task
  progress_found-DbOk cfg pct status message none t e v = v
  progress_found-DbOk cfg pct status message (some row) t e v =
      elim (Bool-cases (is_holder c.agent_id token row)) [
        | inl h ↦
            rw (h, After)
              (update-TasksOk c.team_id task_id _ t.db.tasks row (λ x y r. refl) v e
                (progress_task-RowOk clk.now _ pct status row (holder_has c.agent_id token row h)))
        | inr h ↦ rw (h, After) v
      ]

-- The transactions of the holder's operations.
module _ (clk : Clock) (c : Caller) (task_id : String) (token : ℕ) where
  pub complete_tx-Keeps :
      (summary : Option String) → Keeps DbOk (complete_tx clk c task_id token summary)
  unfolding complete_tx
  complete_tx-Keeps summary = record {
    at = λ t v. After-pure DbOk (complete_found clk c task_id token summary _ t) result (
        complete_found-DbOk clk c task_id token summary (find_task c.team_id task_id t.db) t refl
          v);
  }

  pub fail_tx-Keeps : (error : Option String) → Keeps DbOk (fail_tx clk c task_id token error)
  unfolding fail_tx
  fail_tx-Keeps error = record {
    at = λ t v.
        After-pure DbOk (fail_found clk c task_id token error _ t) result
          (fail_found-DbOk clk c task_id token error (find_task c.team_id task_id t.db) t refl v);
  }

  pub release_tx-Keeps : Keeps DbOk (release_tx clk c task_id token)
  unfolding release_tx
  release_tx-Keeps = record {
    at = λ t v.
        After-pure DbOk (release_found clk c task_id token _ t) result
          (release_found-DbOk clk c task_id token (find_task c.team_id task_id t.db) t refl v);
  }

  pub progress_tx-Keeps :
      (cfg : Settings) (pct : Option ℤ) (status message : Option String)
      → Keeps DbOk (progress_tx cfg clk c task_id token pct status message)
  unfolding progress_tx
  progress_tx-Keeps cfg pct status message = record {
    at = λ t v.
        progress_found-DbOk clk c task_id token cfg pct status message
          (find_task c.team_id task_id t.db) t refl v;
  }
