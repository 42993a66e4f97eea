-- ===== src/Reaper.antt =====
-- reaper.py: tasks whose lease has run out go back to the queue, or are dead after their last
-- attempt. The scan reads the table outside any transaction; each candidate is looked at again in
-- its own transaction, and other operations may run in between.
pub mod Laws
pub mod Reaps
pub mod Tokens
use atmcp.Base.{
  ℕ, suc, ◌+◌, String, Bool, true, false, not, ◌&&◌, ◌||◌, Option, none, some, List, [], ◌∷◌, ◌==◌,
  ltb, leb, if◌then◌else◌,
}
use atmcp.Base.Table.{select}
use atmcp.Schema.{Task, Clock, Json, Outcome}
use atmcp.Redis.{Redis, del_lease}
use atmcp.Db.{Db, Tx, pure, fetch, execute, ◌>>=◌, ◌>>◌, done}
use atmcp.Events.{append}
use atmcp.Server.{Server, Answer, replied, raised, serve}
use atmcp.Tasks.{find_task, is_leased, set_task, close_claim, clear_current}
use atmcp.Tasks.Work.{is_dead, after_attempt, attempt_event}

-- lease_expires_at IS NOT NULL AND lease_expires_at < now
abbrev pub is_expired : ℕ → Option ℕ → Bool
is_expired now none = false
is_expired now (some e) = ltb e now

abbrev pub is_candidate : ℕ → Task → Bool
is_candidate now t = is_leased t.status && is_expired now t.lease_expires_at

unfoldable pub candidates : ℕ → Db → List Task
candidates now db = select (is_candidate now) db.tasks

unfoldable pub reap_row : ℕ → Bool → ℕ → Task → Task
reap_row ts dead attempts t = record t {
  status = after_attempt dead;
  assignee = none;
  attempts = attempts;
  lease_expires_at = none;
  updated_at = ts;
}

-- Past the two tests.
unfoldable pub reap_expired : Clock → ℕ → String → String → Task → Tx Bool
unfolding reap_row set_task close_claim clear_current append
reap_expired clk ts team_id task_id t = do
  let attempts = t.attempts + 1
  let dead = is_dead t
  execute (set_task team_id task_id (reap_row ts dead attempts))
  execute (close_claim ts Outcome.expired team_id task_id t.assignee)
  execute (clear_current team_id task_id t.assignee)
  append clk team_id (attempt_event dead) "task" (some task_id) t.assignee (
      ("reason", Json.str "lease_expired")
      ∷ ("attempts", Json.num attempts)
      ∷ ("dead", Json.bool dead)
      ∷ [])
  pure true

-- `clk.now` is the reading of the second test, `ts` the one of the stamps. The answer says whether
-- the task was reaped; `continue` leaves the transaction with nothing written.
unfoldable pub reap_found : Clock → ℕ → String → String → Option Task → Tx Bool
unfolding reap_expired
reap_found clk ts team_id task_id none = pure false
reap_found clk ts team_id task_id (some t) =
    if not (is_candidate clk.now t) then pure false else reap_expired clk ts team_id task_id t

unfoldable pub reap_tx : Clock → ℕ → String → String → Tx Bool
unfolding reap_found
reap_tx clk ts team_id task_id = do
  row ← fetch (find_task team_id task_id)
  reap_found clk ts team_id task_id row

unfoldable pub mirror_reap : String → String → Bool → Redis → Bool × Redis
mirror_reap team_id task_id reaped redis =
    (reaped, if reaped then del_lease team_id task_id redis else redis)

unfoldable pub reap_one : Clock → ℕ → String → String → Server → Answer Bool × Server
unfolding reap_tx mirror_reap
reap_one clk ts team_id task_id =
    serve (reap_tx clk ts team_id task_id) (mirror_reap team_id task_id)

abbrev pub add_reaped : Answer Bool → ℕ → ℕ
add_reaped (replied true) n = n + 1
add_reaped (replied false) n = n
add_reaped (raised e) n = n

-- The loop of `sweep_once` with nothing in between; `clk` reads the clock for each candidate.
unfoldable pub reap_all : (Task → Clock) → List Task → ℕ → Server → ℕ × Server
unfolding reap_one
reap_all clk [] n s = (n, s)
reap_all clk (t ∷ ts) n s =
    let (answer, s') = reap_one (clk t) (clk t).now t.team_id t.task_id s in
    reap_all clk ts (add_reaped answer n) s'

unfoldable pub sweep_once : ℕ → (Task → Clock) → Server → ℕ × Server
unfolding reap_all candidates
sweep_once now clk s = reap_all clk (candidates now s.db) 0 s
