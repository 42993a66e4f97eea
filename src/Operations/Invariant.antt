-- ===== src/Operations/Invariant.antt =====
-- The tasks table stays well-formed through any run of the server.
use atmcp.Base.{◌≤◌, List, [], ◌∷◌}
use atmcp.Schema.{Settings}
use atmcp.Server.{Server}
use atmcp.Server.Frame.{serve-Keeps, idempotent-Keeps}
use atmcp.Tasks.Invariant.{DbOk}
use atmcp.Tasks.Invariant.Work.{
  complete_tx-Keeps, fail_tx-Keeps, release_tx-Keeps, progress_tx-Keeps,
}
use atmcp.Tasks.Invariant.Claim.{
  claim_tx-Keeps, claim_next_tx-Keeps, create_tx-Keeps, goal_tx-Keeps,
}
use atmcp.Presence.Laws.{heartbeat_tx-Keeps, named_tx-Keeps}
use atmcp.Identity.Laws.{leave_team-Keeps}
use atmcp.Reaper.Laws.{reap_tx-Keeps}
use atmcp.Tasks.Create.{create_goal, create_task}
use atmcp.Tasks.Claim.{claim_task, claim_next_task}
use atmcp.Tasks.Work.{update_task_progress, complete_task, fail_task, release_task}
use atmcp.Presence.{heartbeat, heartbeat_named}
use atmcp.Reaper.{reap_one}
use atmcp.Operations.{
  Op, create_goal_op, create_task_op, claim_op, claim_next_op, progress_op, complete_op, fail_op,
  release_op, heartbeat_op, named_op, leave_op, reap_op, step, run,
}

-- Every operation, refused or not, keeps the tasks table well-formed: keys stay unique; an open or
-- dead task has no holder and no lease, one in work has both, a finished one has a holder; only a
-- dead task has used up its attempts; progress is at most 100 and a weight at least 1.
pub step-DbOk :
    (cfg : Settings) (op : Op) (s : Server)
    → 1 ≤ cfg.task_max_attempts
    → DbOk s.db
    → DbOk (step cfg op s).db
unfolding step create_goal create_task claim_task claim_next_task update_task_progress complete_task
    fail_task release_task heartbeat heartbeat_named reap_one
step-DbOk cfg (create_goal_op clk id c title descr) s h v =
    serve-Keeps DbOk _ _ s (goal_tx-Keeps clk c id title descr) v
step-DbOk cfg (create_task_op clk id c n key) s h v =
    serve-Keeps DbOk _ _ s
      (idempotent-Keeps DbOk (λ db rows k. k) clk c key _ (create_tx-Keeps cfg clk c id n h)) v
step-DbOk cfg (claim_op clk c task key) s h v =
    serve-Keeps DbOk _ _ s
      (idempotent-Keeps DbOk (λ db rows k. k) clk c key _ (claim_tx-Keeps cfg clk c task)) v
step-DbOk cfg (claim_next_op clk c key) s h v =
    serve-Keeps DbOk _ _ s
      (idempotent-Keeps DbOk (λ db rows k. k) clk c key _ (claim_next_tx-Keeps cfg clk c)) v
step-DbOk cfg (progress_op clk c task token pct status message) s h v =
    serve-Keeps DbOk _ _ s (progress_tx-Keeps clk c task token cfg pct status message) v
step-DbOk cfg (complete_op clk c task token summary key) s h v =
    serve-Keeps DbOk _ _ s
      (idempotent-Keeps DbOk (λ db rows k. k) clk c key _
        (complete_tx-Keeps clk c task token summary))
      v
step-DbOk cfg (fail_op clk c task token error) s h v =
    serve-Keeps DbOk _ _ s (fail_tx-Keeps clk c task token error) v
step-DbOk cfg (release_op clk c task token) s h v =
    serve-Keeps DbOk _ _ s (release_tx-Keeps clk c task token) v
step-DbOk cfg (heartbeat_op clk c r) s h v =
    serve-Keeps DbOk _ _ s (heartbeat_tx-Keeps cfg clk c r) v
step-DbOk cfg (named_op clk team id name caps r) s h v =
    serve-Keeps DbOk _ _ s (named_tx-Keeps cfg clk team id name caps r) v
step-DbOk cfg (leave_op clk c) s h v = leave_team-Keeps clk c s v
step-DbOk cfg (reap_op clk ts team task) s h v =
    serve-Keeps DbOk _ _ s (reap_tx-Keeps clk ts team task) v

-- If a task is allowed at least one attempt, any run of operations, refused calls included, leaves a
-- well-formed database well-formed: no two tasks of a team have the same id; an open or dead task has
-- no holder and no lease, a task in work has both, a finished one keeps its holder; only a dead task
-- has used up its attempts; percentages are at most 100, weights at least 1, and `last_event_id` is 0.
pub run-DbOk :
    (cfg : Settings) (ops : List Op) (s : Server)
    → 1 ≤ cfg.task_max_attempts
    → DbOk s.db
    → DbOk (run cfg ops s).db
unfolding run
run-DbOk cfg [] s h v = v
run-DbOk cfg (op ∷ ops) s h v = run-DbOk cfg ops (step cfg op s) h (step-DbOk cfg op s h v)
