-- ===== src/Tasks/Claim.antt =====
-- `_do_claim`, `claim_task` and `claim_next_task`.
pub mod Outcome
use atmcp.Base.{
  ℕ, zero, suc, ◌+◌, ◌*◌, String, Bool, true, false, not, ◌&&◌, ◌||◌, Option, none, some, List, [],
  ◌∷◌, ◌==◌, eqb, ltb, ltb_ℤ, if◌then◌else◌,
}
use atmcp.Base.Table.{fetch_one, select, exists_row, update, insert, row_count, first_by}
use atmcp.Schema.{Task, Caller, Clock, Settings, Json, num, task_claimed}
use atmcp.Schema.{TaskStatus}
use atmcp.Wire.{Reply, not_open, race_lost, nothing_open}
use atmcp.Redis.{Redis, set_lease}
use atmcp.Db.{
  Db, Tx, TxState, Turn, result, pure, raise, type_error, fetch, execute, ◌>>=◌, ◌>>◌, done, raised,
}
use atmcp.Events.{append}
use atmcp.Idempotency.{idempotent}
use atmcp.Server.{Server, Answer, serve, then_redis}
use atmcp.Tasks.{is_task, find_task, is_opened, unmet_row, deps_unmet, dep_unmet, set_task}

-- task["lease_ttl_s"] or settings.lease_ttl_s
abbrev pub or_default : Option ℕ → ℕ → ℕ
or_default none d = d
or_default (some zero) d = d
or_default (some (suc n)) d = suc n

abbrev pub open_task_row : String → String → Task → Bool
open_task_row team_id task_id t = is_task team_id task_id t && is_opened t.status

-- UPDATE tasks SET status='claimed', … fencing_token=fencing_token+1 …
unfoldable pub take_task : ℕ → String → ℕ → Task → Task
take_task now agent_id lease_exp t = record t {
  status = TaskStatus.claimed;
  assignee = some agent_id;
  fencing_token = t.fencing_token + 1;
  lease_expires_at = some lease_exp;
  updated_at = now;
}

-- INSERT INTO task_claims
record_claim : ℕ → Caller → String → ℕ → Db → Db
record_claim now c task_id ft db = record db {
  task_claims =
      insert
        (record {
          team_id = c.team_id;
          task_id = task_id;
          agent_id = c.agent_id;
          fencing_token = ft;
          claimed_at = now;
          released_at = none;
          outcome = none;
        })
        db.task_claims;
}

-- UPDATE agents SET current_task_id=?
unfoldable pub set_current : Caller → String → Db → Db
set_current c task_id db = record db {
  agents =
      update (λ a. a.team_id == c.team_id && a.agent_id == c.agent_id)
        (λ a. record a { current_task_id = some task_id }) db.agents;
}

-- The rest of `_do_claim` once the conditional UPDATE has changed its row, which is read back.
pub finish_row : Clock → Caller → String → ℕ → ℕ → Option Task → Tx Reply
unfolding record_claim set_current append
finish_row clk c task_id lease_exp ttl none = raise type_error
finish_row clk c task_id lease_exp ttl (some t) = do
  execute (record_claim clk.now c task_id t.fencing_token)
  execute (set_current c task_id)
  append clk c.team_id task_claimed "task" (some task_id) (some c.agent_id)
      (("fencing_token", num t.fencing_token) ∷ [])
  pure (Reply.claimed task_id t.fencing_token lease_exp ttl)

finish_claim : Clock → Caller → String → ℕ → ℕ → Tx Reply
unfolding finish_row
finish_claim clk c task_id lease_exp ttl = do
  row ← fetch (find_task c.team_id task_id)
  finish_row clk c task_id lease_exp ttl row

-- race_lost, when the conditional UPDATE changed no row.
lost_claim : Caller → String → Tx Reply
lost_claim c task_id = do
  row ← fetch (find_task c.team_id task_id)
  elim row [ none ↦ pure (race_lost none) | some t ↦ pure (race_lost t.assignee) ]

-- The conditional UPDATE of `_do_claim` and its `rowcount` test.
pub try_claim : Clock → Caller → String → ℕ → Tx Reply
unfolding take_task finish_claim lost_claim
try_claim clk c task_id ttl = do
  let lease_exp = clk.now + ttl * 1000
  changed ← fetch (λ db. row_count (open_task_row c.team_id task_id) db.tasks)
  execute (λ db. record db {
    tasks =
        update (open_task_row c.team_id task_id) (take_task clk.now c.agent_id lease_exp) db.tasks;
  })
  if eqb changed 1 then finish_claim clk c task_id lease_exp ttl else lost_claim c task_id

-- Past the test of the dependencies.
pub claim_ready : Clock → Caller → String → ℕ → List String → Tx Reply
unfolding try_claim
claim_ready clk c task_id ttl [] = try_claim clk c task_id ttl
claim_ready clk c task_id ttl (d ∷ ds) = pure (Reply.deps_unmet (d ∷ ds))

pub claim_row : Settings → Clock → Caller → String → Option Task → Tx Reply
unfolding claim_ready deps_unmet
claim_row cfg clk c task_id none = pure Reply.unknown_task
claim_row cfg clk c task_id (some t) =
    if not (is_opened t.status) then pure (not_open t.status t.assignee) else do
      unmet ← fetch (deps_unmet c.team_id task_id)
      claim_ready clk c task_id (or_default t.lease_ttl_s cfg.lease_ttl_s) unmet

-- `_do_claim`
unfoldable pub do_claim : Settings → Clock → Caller → String → Tx Reply
unfolding claim_row
do_claim cfg clk c task_id = do
  row ← fetch (find_task c.team_id task_id)
  claim_row cfg clk c task_id row

unfoldable pub claim_tx : Settings → Clock → Caller → String → Tx Turn
claim_tx cfg clk c task_id = do r ← do_claim cfg clk c task_id; pure (result r)

-- The Redis mirror of a claim that succeeded.
unfoldable pub mirror_claim : Clock → Caller → Reply → Redis → Redis
mirror_claim clk c (Reply.claimed task_id ft lease_exp ttl) redis =
    set_lease clk.now c.team_id task_id c.agent_id ft ttl redis
mirror_claim clk c _ redis = redis

unfoldable pub claim_task :
    Settings → Clock → Caller → String → Option String → Server → Answer Reply × Server
unfolding claim_tx mirror_claim
claim_task cfg clk c task_id idem_key =
    serve (idempotent clk c idem_key (claim_tx cfg clk c task_id)) (then_redis (mirror_claim clk c))

-- WHERE t.status='open' AND NOT EXISTS (an unmet dependency)
abbrev pub is_eligible : String → Db → Task → Bool
is_eligible team_id db t =
    (t.team_id == team_id && is_opened t.status)
    && not (exists_row (unmet_row t.team_id t.task_id db.tasks) db.task_deps)

-- ORDER BY t.priority DESC, t.created_at ASC
abbrev pub comes_before : Task → Task → Bool
comes_before a b =
    ltb_ℤ b.priority a.priority
    || (not (ltb_ℤ a.priority b.priority) && ltb a.created_at b.created_at)

unfoldable pub next_task : String → Db → Option Task
next_task team_id db = first_by comes_before (select (is_eligible team_id db) db.tasks)

unfoldable pub claim_next_tx : Settings → Clock → Caller → Tx Turn
unfolding next_task
claim_next_tx cfg clk c = do
  row ← fetch (next_task c.team_id)
  elim row [
    | none ↦ pure (result nothing_open)
    | some t ↦ do r ← do_claim cfg clk c t.task_id; pure (result r)
  ]

unfoldable pub claim_next_task :
    Settings → Clock → Caller → Option String → Server → Answer Reply × Server
unfolding claim_next_tx mirror_claim
claim_next_task cfg clk c idem_key =
    serve (idempotent clk c idem_key (claim_next_tx cfg clk c)) (then_redis (mirror_claim clk c))
