-- ===== src/Tasks/Settle.antt =====
-- `complete_task`, `fail_task` and `release_task` on every branch.
use atmcp.Base.{
  ℕ, ◌+◌, ◌≤◌, ◌<◌, leb→le, eqb_iff, eq_iff, eq_refl, eqb, holds, &&-eq-true, ap, ◌==◌, ◌&&◌, arith,
  String, ◌≡◌, refl, true, false, not, Option, none, some, Bool-cases, inl, inr, ◌⊎◌, sym, ◌∙◌,
}
use mathlib.Core.Bool.{false≢true}
use atmcp.Base.Table.Laws.{fetch_one-update_self}
use atmcp.Schema.{Task, TaskStatus, opened, Caller, Clock}
use atmcp.Wire.{Reply, stale_token, completed, released}
use atmcp.Db.{TxState, done, result, pure}
use atmcp.Db.Keeps.{bind-done}
use atmcp.Server.{Server, replied, then_redis}
use atmcp.Server.Frame.{start, serve-done, serve-quiet, idempotent-none}
use atmcp.Tasks.{is_task, find_task, is_holder}
use atmcp.Tasks.Work.{
  complete_row, complete_held, complete_found, complete_tx, complete_task, eligible_unblocked,
  fail_row, fail_held, fail_found, fail_tx, fail_task, is_dead, release_row, release_held,
  release_found, release_tx, release_task, drop_lease,
}

module _ (clk : Clock) (c : Caller) (task : String) (x : Task) where
  complete_held_lem :
      (summary : Option String) (t : TxState)
      → find_task c.team_id task t.db ≡ some x
      → (t' : TxState) × (complete_held clk c task summary t
          ≡ done
              (completed task (t.db.last_event_id + 1) (eligible_unblocked c.team_id task t'.db))
              t')
        × (find_task c.team_id task t'.db ≡ some (complete_row clk.now summary x))
  unfolding complete_held complete_row eligible_unblocked
  complete_held_lem summary t found = (
    _,
    refl,
    fetch_one-update_self (is_task c.team_id task) (complete_row clk.now summary) t.db.tasks
        (λ r. refl) found,
  )

  fail_held_lem :
      (error : Option String) (t : TxState)
      → find_task c.team_id task t.db ≡ some x
      → (t' : TxState) × (fail_held clk c task error x t
          ≡ done (Reply.failed task (not (is_dead x)) (is_dead x) (x.attempts + 1)) t')
        × (find_task c.team_id task t'.db
            ≡ some (fail_row clk.now (is_dead x) (x.attempts + 1) error x))
  unfolding fail_held fail_row
  fail_held_lem error t found = (
    _,
    refl,
    fetch_one-update_self (is_task c.team_id task)
        (fail_row clk.now (is_dead x) (x.attempts + 1) error) t.db.tasks (λ r. refl) found,
  )

  release_held_lem :
      (t : TxState)
      → find_task c.team_id task t.db ≡ some x
      → (t' : TxState) × (release_held clk c task t ≡ done (released task) t')
        × (find_task c.team_id task t'.db ≡ some (release_row clk.now x))
  unfolding release_held release_row
  release_held_lem t found = (
    _,
    refl,
    fetch_one-update_self (is_task c.team_id task) (release_row clk.now) t.db.tasks (λ r. refl)
        found,
  )

complete_task-run :
    (clk : Clock) (c : Caller) (task : String) (token : ℕ) (summary : Option String) (s : Server)
    (x : Task)
    → find_task c.team_id task s.db ≡ some x
    → let after = complete_task clk c task token summary none s in
      ((is_holder c.agent_id token x ≡ false)
        × (after ≡ (replied (stale_token x.fencing_token), s)))
      ⊎ ((is_holder c.agent_id token x ≡ true)
          × (after.0
              ≡ replied (
                  completed task
                    (s.db.last_event_id + 1)
                    (eligible_unblocked c.team_id task after.1.db)))
          × (find_task c.team_id task after.1.db ≡ some (complete_row clk.now summary x)))
unfolding complete_task complete_tx complete_found drop_lease
complete_task-run clk c task token summary s x found =
    let body = complete_tx clk c task token summary in
    elim (Bool-cases (is_holder c.agent_id token x)) [
      | inr h ↦ inl (
        h,
        rw (idempotent-none clk c body) (
            serve-quiet body (then_redis (drop_lease c task)) s
              {a = result (stale_token x.fencing_token)} (rw found (rw h refl)) refl),
      )
      | inl h ↦
          let (t', e, row) = complete_held_lem clk c task x summary (start s.db) found in
          let served =
            serve-done body (then_redis (drop_lease c task)) s
              {a = result
                (completed task (s.db.last_event_id + 1) (eligible_unblocked c.team_id task t'.db))}
              {t = t'}
              (rw found (
                bind-done (complete_found clk c task token summary (some x)) (λ r. pure (result r))
                  (start s.db) (rw h e))) in
          inr (
            h,
            rw (idempotent-none clk c body) (rw served refl),
            rw (idempotent-none clk c body) (rw served row),
          )
    ]

-- It holds the task, under the token.
abbrev pub Holds : String → ℕ → Task → Type 0
Holds agent token x = (x.assignee ≡ some agent) × (x.fencing_token ≡ token)

held_means :
    (o : Option String) (agent : String) (n token : ℕ)
    → (holds o agent && eqb n token) ≡ true
    → (o ≡ some agent) × (n ≡ token)
held_means none agent n token h = absurd (ground (arith, h))
held_means (some a) agent n token h =
    let (who, which) = &&-eq-true (a == agent) (eqb n token) h in
    (ap some ((eq_iff a agent).0 who), (eqb_iff n token).0 which)

is_holder-Holds :
    (agent : String) (token : ℕ) (x : Task) → is_holder agent token x ≡ true → Holds agent token x
is_holder-Holds agent token x h = held_means x.assignee agent x.fencing_token token h

not-Holds :
    (agent : String) (token : ℕ) (x : Task)
    → is_holder agent token x ≡ false
    → ¬ Holds agent token x
not-Holds agent token x h k =
    let same : (holds (some agent) agent && eqb token token) ≡ true =
      ground (arith, eq_refl agent, (eqb_iff token token).1 refl) in
    let there : is_holder agent token x ≡ true = rw (k.0, k.1) same in false≢true (sym h ∙ there)

fail_task-run :
    (clk : Clock) (c : Caller) (task : String) (token : ℕ) (error : Option String) (s : Server)
    (x : Task)
    → find_task c.team_id task s.db ≡ some x
    → let after = fail_task clk c task token error s in
      ((is_holder c.agent_id token x ≡ false)
        × (after ≡ (replied (stale_token x.fencing_token), s)))
      ⊎ ((is_holder c.agent_id token x ≡ true)
          × (after.0 ≡ replied (Reply.failed task (not (is_dead x)) (is_dead x) (x.attempts + 1)))
          × (find_task c.team_id task after.1.db
              ≡ some (fail_row clk.now (is_dead x) (x.attempts + 1) error x)))
unfolding fail_task fail_tx fail_found drop_lease
fail_task-run clk c task token error s x found =
    let body = fail_tx clk c task token error in
    elim (Bool-cases (is_holder c.agent_id token x)) [
      | inr h ↦ inl (
        h,
        serve-quiet body (then_redis (drop_lease c task)) s
            {a = result (stale_token x.fencing_token)} (rw found (rw h refl)) refl,
      )
      | inl h ↦
          let (t', e, row) = fail_held_lem clk c task x error (start s.db) found in
          let served =
            serve-done body (then_redis (drop_lease c task)) s
              {a = result (Reply.failed task (not (is_dead x)) (is_dead x) (x.attempts + 1))}
              {t = t'}
              (rw found (
                bind-done (fail_found clk c task token error (some x)) (λ r. pure (result r))
                  (start s.db) (rw h e))) in
          inr (h, rw served refl, rw served row)
    ]

-- `complete_task` without a key, on a task that is there: to a caller that does not hold it under the
-- token it answers the current token, and changes nothing. To the holder it answers the next event and
-- what `eligible_unblocked` finds in the table that it leaves; there the task is done, at 100 percent,
-- with the summary and the time of the call, without a lease, and otherwise, holder included, as before.
pub complete_task_lem :
    (clk : Clock) (c : Caller) (task : String) (token : ℕ) (summary : Option String) (s : Server)
    (x : Task)
    → find_task c.team_id task s.db ≡ some x
    → let after = complete_task clk c task token summary none s in
      ((¬ Holds c.agent_id token x) × (after ≡ (replied (stale_token x.fencing_token), s)))
      ⊎ (Holds c.agent_id token x
          × (after.0
              ≡ replied (
                  completed task
                    (s.db.last_event_id + 1)
                    (eligible_unblocked c.team_id task after.1.db)))
          × (find_task c.team_id task after.1.db
              ≡ some (record x {
                status = TaskStatus.done;
                progress_pct = 100;
                result_summary = summary;
                lease_expires_at = none;
                updated_at = clk.now;
              })))
unfolding complete_row
complete_task_lem clk c task token summary s x found =
    elim (complete_task-run clk c task token summary s x found) [
      | inl (h, same) ↦ inl (not-Holds c.agent_id token x h, same)
      | inr (h, answer, row) ↦ inr (is_holder-Holds c.agent_id token x h, answer, row)
    ]

-- `fail_task`, on a task that is there: a caller that does not hold it under the token gets the current
-- token, and nothing changes. For the holder one more attempt is counted, and the task loses its holder
-- and its lease and has the error as its summary: it is failed, and answered as dead, if the attempts
-- have reached the most that are allowed, and else open again, and answered as requeued.
pub fail_task_lem :
    (clk : Clock) (c : Caller) (task : String) (token : ℕ) (error : Option String) (s : Server)
    (x : Task)
    → find_task c.team_id task s.db ≡ some x
    → let after = fail_task clk c task token error s in
      ((¬ Holds c.agent_id token x) × (after ≡ (replied (stale_token x.fencing_token), s)))
      ⊎ ((Holds c.agent_id token x
            × (x.max_attempts ≤ x.attempts + 1)
            × (after.0 ≡ replied (Reply.failed task false true (x.attempts + 1)))
            × (find_task c.team_id task after.1.db
                ≡ some (record x {
                  status = TaskStatus.failed;
                  assignee = none;
                  attempts = x.attempts + 1;
                  lease_expires_at = none;
                  updated_at = clk.now;
                  result_summary = error;
                })))
          ⊎ (Holds c.agent_id token x
              × (x.attempts + 1 < x.max_attempts)
              × (after.0 ≡ replied (Reply.failed task true false (x.attempts + 1)))
              × (find_task c.team_id task after.1.db
                  ≡ some (record x {
                    status = opened;
                    assignee = none;
                    attempts = x.attempts + 1;
                    lease_expires_at = none;
                    updated_at = clk.now;
                    result_summary = error;
                  }))))
unfolding fail_row
fail_task_lem clk c task token error s x found =
    elim (fail_task-run clk c task token error s x found) [
      | inl (h, same) ↦ inl (not-Holds c.agent_id token x h, same)
      | inr (h, answer, row) ↦ elim (Bool-cases (is_dead x)) [
        | inl dead ↦ inr (
            inl (
              is_holder-Holds c.agent_id token x h,
              leb→le x.max_attempts (x.attempts + 1) dead,
              rw dead at answer,
              rw dead at row,
            ))
        | inr alive ↦ inr (
            inr (
              is_holder-Holds c.agent_id token x h,
              ground (arith, alive),
              rw alive at answer,
              rw alive at row,
            ))
      ]
    ]

kept :
    (clk : Clock) (summary : Option String) (c : Caller) (token : ℕ) (x : Task)
    → is_holder c.agent_id token x ≡ true
    → is_holder c.agent_id token (complete_row clk.now summary x) ≡ true
unfolding complete_row
kept clk summary c token x h = h

-- A task that is done keeps its holder and its token, and `release_task` does not look at the status:
-- the holder that completed the task puts it back on the board, open, without a holder and without a
-- lease, but still at 100 percent and with its summary.
pub release_task-done :
    (clk clk' : Clock) (c : Caller) (task : String) (token : ℕ) (summary : Option String)
    (s : Server) (x : Task)
    → find_task c.team_id task s.db ≡ some x
    → Holds c.agent_id token x
    → let completed_server = (complete_task clk c task token summary none s).1 in
      let after = release_task clk' c task token completed_server in
      (find_task c.team_id task completed_server.db
        ≡ some (record x {
          status = TaskStatus.done;
          progress_pct = 100;
          result_summary = summary;
          lease_expires_at = none;
          updated_at = clk.now;
        }))
      × (after.0 ≡ replied (released task))
      × (find_task c.team_id task after.1.db
          ≡ some (record x {
            status = opened;
            assignee = none;
            progress_pct = 100;
            result_summary = summary;
            lease_expires_at = none;
            updated_at = clk'.now;
          }))
unfolding complete_row release_row release_task release_tx release_found drop_lease
release_task-done clk clk' c task token summary s x found holds_it =
    let s' = (complete_task clk c task token summary none s).1 in
    let y = complete_row clk.now summary x in
    let body = release_tx clk' c task token in
    elim (complete_task-run clk c task token summary s x found) [
      | inl (other, _) ↦ absurd (not-Holds c.agent_id token x other holds_it)
      | inr (holder, _, row) ↦
          let (t', e, open_row) = release_held_lem clk' c task y (start s'.db) row in
          let still : is_holder c.agent_id token y ≡ true = kept clk summary c token x holder in
          let served =
            serve-done body (then_redis (drop_lease c task)) s' {a = result (released task)}
              {t = t'}
              (rw row (
                bind-done (release_found clk' c task token (some y)) (λ r. pure (result r))
                  (start s'.db) (rw still e))) in
          (row, rw served refl, rw served open_row)
    ]
