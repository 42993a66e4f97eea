-- ===== src/Tasks/Work.antt =====
-- `update_task_progress`, `complete_task`, `fail_task` and `release_task`: what the holder of a task
-- does, each behind the check of the assignee and the fencing token.
use atmcp.Base.{
  ℕ, ◌+◌, ◌*◌, min, String, Bool, true, false, not, ◌&&◌, Option, none, some, List, [], ◌∷◌, map,
  ◌==◌, leb, coalesce, if◌then◌else◌, ℤ, pos, to_ℕ,
}
use atmcp.Base.Table.{select, exists_row, update}
use atmcp.Schema.{
  Task, TaskStatus, in_progress, blocked, claimed, opened, Outcome, Caller, Clock, Settings,
  EventKind, bool, num, str, task_progress, task_completed, task_failed, task_requeued,
  task_released,
}
use atmcp.Wire.{Reply, is_ok, stale_token, stale_holder, progressed, completed, released}
use atmcp.Redis.{Redis, extend_lease, del_lease}
use atmcp.Db.{Db, Tx, Turn, result, pure, fetch, execute, ◌>>=◌, ◌>>◌}
use atmcp.Events.{append, opt_str, opt_num}
use atmcp.Idempotency.{idempotent}
use atmcp.Server.{Server, Answer, serve, then_redis}
use atmcp.Tasks.{
  find_task, is_opened, unmet_row, set_task, close_claim, clear_current, is_holder, status_text,
}

-- `status in _ACTIVE_STATUS`
abbrev pub active_status : Option String → Option TaskStatus
active_status none = none
active_status (some s) =
    if s == "in_progress" then some in_progress else if s == "blocked" then some blocked else none

abbrev pub after_progress : TaskStatus → TaskStatus
after_progress claimed = in_progress
after_progress s = s

-- The new status: the one asked for, if it is an active one; else a claimed task is in progress.
unfoldable pub progress_status : Option String → TaskStatus → TaskStatus
progress_status asked current = coalesce (active_status asked) (after_progress current)

-- max(0, min(100, int(progress_pct))), if one is given
abbrev pub clamp_pct : Option ℤ → Option ℕ
clamp_pct none = none
clamp_pct (some z) = some (min 100 (to_ℕ z))

unfoldable pub progress_task : ℕ → TaskStatus → ℕ → Option ℕ → Task → Task
progress_task now new_status lease_exp clamped t = record t {
  status = new_status;
  lease_expires_at = some lease_exp;
  updated_at = now;
  progress_pct = coalesce clamped t.progress_pct;
}

-- UPDATE agents SET current_task_id=?, progress_pct=COALESCE(?,progress_pct)
unfoldable pub note_progress : Caller → String → Option ℕ → Db → Db
note_progress c task_id clamped db = record db {
  agents =
      update (λ a. a.team_id == c.team_id && a.agent_id == c.agent_id)
        (λ a. record a {
          current_task_id = some task_id;
          progress_pct = elim clamped [ none ↦ a.progress_pct | some n ↦ pos n ];
        })
        db.agents;
}

abbrev pub lease_ttl : Settings → Task → ℕ
lease_ttl cfg t = coalesce t.lease_ttl_s cfg.lease_ttl_s

-- The answer, and the lease length that the function goes on with.
unfoldable pub progress_row :
    Settings
    → Clock
    → Caller
    → String
    → ℕ
    → Option ℤ
    → Option String
    → Option String
    → Option Task
    → Tx (Reply × ℕ)
unfolding progress_status progress_task note_progress set_task status_text append
progress_row cfg clk c task_id token pct status _ none = pure (Reply.unknown_task, cfg.lease_ttl_s)
progress_row cfg clk c task_id token pct status note (some t) =
    if not (is_holder c.agent_id token t)
    then pure (stale_holder t.fencing_token t.assignee, cfg.lease_ttl_s)
    else do
      let ttl = lease_ttl cfg t
      let new_status = progress_status status t.status
      let lease_exp = clk.now + ttl * 1000
      let clamped = clamp_pct pct
      execute (set_task c.team_id task_id (progress_task clk.now new_status lease_exp clamped))
      execute (note_progress c task_id clamped)
      append clk c.team_id task_progress "task" (some task_id) (some c.agent_id) (
          ("progress_pct", opt_num clamped)
          ∷ ("status", str (status_text new_status))
          ∷ ("note", opt_str note)
          ∷ [])
      pure (progressed task_id new_status lease_exp, ttl)

unfoldable pub progress_tx :
    Settings
    → Clock
    → Caller
    → String
    → ℕ
    → Option ℤ
    → Option String
    → Option String
    → Tx (Reply × ℕ)
unfolding progress_row
progress_tx cfg clk c task_id token pct status note = do
  row ← fetch (find_task c.team_id task_id)
  progress_row cfg clk c task_id token pct status note row

unfoldable pub mirror_progress : Clock → Caller → String → Reply × ℕ → Redis → Reply × Redis
mirror_progress clk c task_id (r, ttl) redis =
    (r, if is_ok r then (extend_lease clk.now c.team_id task_id c.agent_id ttl redis).1 else redis)

unfoldable pub update_task_progress :
    Settings
    → Clock
    → Caller
    → String
    → ℕ
    → Option ℤ
    → Option String
    → Option String
    → Server
    → Answer Reply × Server
unfolding progress_tx mirror_progress
update_task_progress cfg clk c task_id token pct status note =
    serve (progress_tx cfg clk c task_id token pct status note) (mirror_progress clk c task_id)

-- After the COMMIT of `complete_task`, `fail_task` and `release_task`.
unfoldable pub drop_lease : Caller → String → Reply → Redis → Redis
drop_lease c task_id r redis = if is_ok r then del_lease c.team_id task_id redis else redis

unfoldable pub complete_row : ℕ → Option String → Task → Task
complete_row now result_summary t = record t {
  status = TaskStatus.done;
  progress_pct = 100;
  result_summary = result_summary;
  lease_expires_at = none;
  updated_at = now;
}

-- The open tasks of the team that depend on this one and whose dependencies are all done.
abbrev pub newly_eligible : String → String → Db → Task → Bool
newly_eligible team_id task_id db t =
    ((t.team_id == team_id && is_opened t.status)
      && exists_row
          (λ d. (d.team_id == t.team_id && d.task_id == t.task_id) && d.depends_on == task_id)
          db.task_deps)
    && not (exists_row (unmet_row t.team_id t.task_id db.tasks) db.task_deps)

unfoldable pub eligible_unblocked : String → String → Db → List String
eligible_unblocked team_id task_id db =
    map (λ t. t.task_id) (select (newly_eligible team_id task_id db) db.tasks)

-- Past the test of the holder.
unfoldable pub complete_held : Clock → Caller → String → Option String → Tx Reply
unfolding complete_row set_task close_claim clear_current eligible_unblocked append
complete_held clk c task_id summary = do
  execute (set_task c.team_id task_id (complete_row clk.now summary))
  execute (close_claim clk.now Outcome.done c.team_id task_id (some c.agent_id))
  execute (clear_current c.team_id task_id (some c.agent_id))
  eid ←
      append clk c.team_id task_completed "task" (some task_id) (some c.agent_id)
        (("result_summary", opt_str summary) ∷ [])
  newly ← fetch (eligible_unblocked c.team_id task_id)
  pure (completed task_id eid newly)

unfoldable pub complete_found : Clock → Caller → String → ℕ → Option String → Option Task → Tx Reply
unfolding complete_held
complete_found clk c task_id token summary none = pure Reply.unknown_task
complete_found clk c task_id token summary (some t) =
    if not (is_holder c.agent_id token t)
    then pure (stale_token t.fencing_token)
    else complete_held clk c task_id summary

unfoldable pub complete_tx : Clock → Caller → String → ℕ → Option String → Tx Turn
unfolding complete_found
complete_tx clk c task_id token summary = do
  row ← fetch (find_task c.team_id task_id)
  r ← complete_found clk c task_id token summary row
  pure (result r)

unfoldable pub complete_task :
    Clock → Caller → String → ℕ → Option String → Option String → Server → Answer Reply × Server
unfolding complete_tx drop_lease
complete_task clk c task_id token summary idem_key =
    serve (idempotent clk c idem_key (complete_tx clk c task_id token summary))
      (then_redis (drop_lease c task_id))

-- A task whose attempt failed: back to 'open', or dead after the last attempt.
abbrev pub is_dead : Task → Bool
is_dead t = leb t.max_attempts (t.attempts + 1)

abbrev pub after_attempt : Bool → TaskStatus
after_attempt true = TaskStatus.failed
after_attempt false = opened

abbrev pub attempt_event : Bool → EventKind
attempt_event true = task_failed
attempt_event false = task_requeued

unfoldable pub fail_row : ℕ → Bool → ℕ → Option String → Task → Task
fail_row now dead attempts error t = record t {
  status = after_attempt dead;
  assignee = none;
  attempts = attempts;
  lease_expires_at = none;
  updated_at = now;
  result_summary = error;
}

-- Past the test of the holder.
unfoldable pub fail_held : Clock → Caller → String → Option String → Task → Tx Reply
unfolding fail_row set_task close_claim clear_current append
fail_held clk c task_id error t = do
  let attempts = t.attempts + 1
  let dead = is_dead t
  execute (set_task c.team_id task_id (fail_row clk.now dead attempts error))
  execute (close_claim clk.now Outcome.failed c.team_id task_id (some c.agent_id))
  execute (clear_current c.team_id task_id (some c.agent_id))
  append clk c.team_id (attempt_event dead) "task" (some task_id) (some c.agent_id)
      (("error", opt_str error) ∷ ("attempts", num attempts) ∷ ("dead", bool dead) ∷ [])
  pure (Reply.failed task_id (not dead) dead attempts)

unfoldable pub fail_found : Clock → Caller → String → ℕ → Option String → Option Task → Tx Reply
unfolding fail_held
fail_found clk c task_id token error none = pure Reply.unknown_task
fail_found clk c task_id token error (some t) =
    if not (is_holder c.agent_id token t)
    then pure (stale_token t.fencing_token)
    else fail_held clk c task_id error t

unfoldable pub fail_tx : Clock → Caller → String → ℕ → Option String → Tx Turn
unfolding fail_found
fail_tx clk c task_id token error = do
  row ← fetch (find_task c.team_id task_id)
  r ← fail_found clk c task_id token error row
  pure (result r)

unfoldable pub fail_task :
    Clock → Caller → String → ℕ → Option String → Server → Answer Reply × Server
unfolding fail_tx drop_lease
fail_task clk c task_id token error =
    serve (fail_tx clk c task_id token error) (then_redis (drop_lease c task_id))

-- UPDATE tasks SET status='open', assignee=NULL, lease_expires_at=NULL, updated_at=?
unfoldable pub release_row : ℕ → Task → Task
release_row now t = record t {
  status = opened;
  assignee = none;
  lease_expires_at = none;
  updated_at = now;
}

-- Past the test of the holder.
unfoldable pub release_held : Clock → Caller → String → Tx Reply
unfolding release_row set_task close_claim clear_current append
release_held clk c task_id = do
  execute (set_task c.team_id task_id (release_row clk.now))
  execute (close_claim clk.now Outcome.released c.team_id task_id (some c.agent_id))
  execute (clear_current c.team_id task_id (some c.agent_id))
  append clk c.team_id task_released "task" (some task_id) (some c.agent_id) []
  pure (released task_id)

unfoldable pub release_found : Clock → Caller → String → ℕ → Option Task → Tx Reply
unfolding release_held
release_found clk c task_id token none = pure Reply.unknown_task
release_found clk c task_id token (some t) =
    if not (is_holder c.agent_id token t)
    then pure (stale_token t.fencing_token)
    else release_held clk c task_id

unfoldable pub release_tx : Clock → Caller → String → ℕ → Tx Turn
unfolding release_found
release_tx clk c task_id token = do
  row ← fetch (find_task c.team_id task_id)
  r ← release_found clk c task_id token row
  pure (result r)

unfoldable pub release_task : Clock → Caller → String → ℕ → Server → Answer Reply × Server
unfolding release_tx drop_lease
release_task clk c task_id token =
    serve (release_tx clk c task_id token) (then_redis (drop_lease c task_id))
