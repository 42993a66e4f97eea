-- ===== src/Operations/Fencing.antt =====
-- Fencing tokens through a run.
use atmcp.Base.{ℕ, ◌≤◌, String, List, [], ◌∷◌}
use atmcp.Schema.{Caller, Clock, Settings}
use atmcp.Db.{Db}
use atmcp.Db.Keeps.{Keeps, After-both}
use atmcp.Server.{Server}
use atmcp.Server.Frame.{serve-Keeps, idempotent-Keeps}
use atmcp.Tasks.Invariant.{DbOk}
use atmcp.Tasks.Invariant.Claim.{claim_tx-Keeps, claim_next_tx-Keeps}
use atmcp.Tasks.Tokens.{
  DbAtLeast, complete_tx-AtLeast, fail_tx-AtLeast, release_tx-AtLeast, progress_tx-AtLeast,
  claim_tx-AtLeast, claim_next_tx-AtLeast, create_tx-AtLeast, goal_tx-AtLeast,
}
use atmcp.Presence.Tokens.{heartbeat_tx-AtLeast, named_tx-AtLeast}
use atmcp.Identity.Tokens.{leave_tx-AtLeast}
use atmcp.Reaper.Tokens.{reap_tx-AtLeast}
use atmcp.Tasks.Create.{create_goal, create_task}
use atmcp.Tasks.Claim.{claim_tx, claim_next_tx, claim_task, claim_next_task}
use atmcp.Tasks.Work.{update_task_progress, complete_task, fail_task, release_task}
use atmcp.Presence.{heartbeat, heartbeat_named}
use atmcp.Identity.Laws.{leave_team-db}
use atmcp.Reaper.{reap_one}
use atmcp.Operations.{
  Op, create_goal_op, create_task_op, claim_op, claim_next_op, progress_op, complete_op, fail_op,
  release_op, heartbeat_op, named_op, leave_op, reap_op, step, run,
}
use atmcp.Operations.Invariant.{step-DbOk}

module _ (team task : String) (n : ℕ) where
  -- The two invariants together, for the operations whose proof wants both.
  abbrev Both : Db → Type 0
  Both db = DbOk db × DbAtLeast team task n db

  claim_tx-Both :
      (cfg : Settings) (clk : Clock) (c : Caller) (id : String) → Keeps Both (claim_tx cfg clk c id)
  claim_tx-Both cfg clk c id = record {
    at = λ t v.
        After-both DbOk (DbAtLeast team task n) (claim_tx cfg clk c id t)
          ((claim_tx-Keeps cfg clk c id).at t v.0)
          (claim_tx-AtLeast team task n cfg clk c id t v.0 v.1);
  }

  claim_next_tx-Both :
      (cfg : Settings) (clk : Clock) (c : Caller) → Keeps Both (claim_next_tx cfg clk c)
  claim_next_tx-Both cfg clk c = record {
    at = λ t v.
        After-both DbOk (DbAtLeast team task n) (claim_next_tx cfg clk c t)
          ((claim_next_tx-Keeps cfg clk c).at t v.0)
          (claim_next_tx-AtLeast team task n cfg clk c t v.0 v.1);
  }

  -- On a well-formed table, no operation, refused or not, removes the task or lowers its token.
  pub step-AtLeast :
      (cfg : Settings) (op : Op) (s : Server)
      → DbOk s.db
      → DbAtLeast team task n s.db
      → DbAtLeast team task n (step cfg op s).db
  unfolding step create_goal create_task claim_task claim_next_task update_task_progress
      complete_task fail_task release_task heartbeat heartbeat_named reap_one
  step-AtLeast cfg (create_goal_op clk id c title descr) s ok v =
      serve-Keeps (DbAtLeast team task n) _ _ s
        (record { at = goal_tx-AtLeast team task n cfg clk c id title descr }) v
  step-AtLeast cfg (create_task_op clk id c new key) s ok v =
      serve-Keeps (DbAtLeast team task n) _ _ s
        (idempotent-Keeps (DbAtLeast team task n) (λ db rows k. k) clk c key _
          (record { at = create_tx-AtLeast team task n cfg clk c id new }))
        v
  step-AtLeast cfg (claim_op clk c id key) s ok v =
      (serve-Keeps Both _ _ s
        (idempotent-Keeps Both (λ db rows k. k) clk c key _ (claim_tx-Both cfg clk c id)) (ok, v)).1
  step-AtLeast cfg (claim_next_op clk c key) s ok v =
      (serve-Keeps Both _ _ s
        (idempotent-Keeps Both (λ db rows k. k) clk c key _ (claim_next_tx-Both cfg clk c))
        (ok, v)).1
  step-AtLeast cfg (progress_op clk c id token pct status message) s ok v =
      serve-Keeps (DbAtLeast team task n) _ _ s
        (record { at = progress_tx-AtLeast team task n clk c id token cfg pct status message }) v
  step-AtLeast cfg (complete_op clk c id token summary key) s ok v =
      serve-Keeps (DbAtLeast team task n) _ _ s
        (idempotent-Keeps (DbAtLeast team task n) (λ db rows k. k) clk c key _
          (record { at = complete_tx-AtLeast team task n clk c id token summary }))
        v
  step-AtLeast cfg (fail_op clk c id token error) s ok v =
      serve-Keeps (DbAtLeast team task n) _ _ s
        (record { at = fail_tx-AtLeast team task n clk c id token error }) v
  step-AtLeast cfg (release_op clk c id token) s ok v =
      serve-Keeps (DbAtLeast team task n) _ _ s
        (record { at = release_tx-AtLeast team task n clk c id token }) v
  step-AtLeast cfg (heartbeat_op clk c r) s ok v =
      serve-Keeps (DbAtLeast team task n) _ _ s
        (record { at = heartbeat_tx-AtLeast team task n cfg clk c r }) v
  step-AtLeast cfg (named_op clk who id name caps r) s ok v =
      serve-Keeps (DbAtLeast team task n) _ _ s
        (record { at = named_tx-AtLeast team task n cfg clk who id name caps r }) v
  step-AtLeast cfg (leave_op clk c) s ok v = rw (leave_team-db clk c s) (
      serve-Keeps (DbAtLeast team task n) _ _ s (record { at = leave_tx-AtLeast team task n clk c })
        v)
  step-AtLeast cfg (reap_op clk ts who id) s ok v =
      serve-Keeps (DbAtLeast team task n) _ _ s
        (record { at = reap_tx-AtLeast team task n clk ts who id }) v

  -- With at least one attempt allowed, let a task be in a well-formed
  -- table with a fencing token of at least `n`. Then after any run of
  -- operations it is still there, with a token of at least `n`.
  pub run-AtLeast :
      (cfg : Settings) (ops : List Op) (s : Server)
      → 1 ≤ cfg.task_max_attempts
      → DbOk s.db
      → DbAtLeast team task n s.db
      → DbAtLeast team task n (run cfg ops s).db
  unfolding run
  run-AtLeast cfg [] s h ok v = v
  run-AtLeast cfg (op ∷ ops) s h ok v =
      run-AtLeast cfg ops (step cfg op s) h (step-DbOk cfg op s h ok) (step-AtLeast cfg op s ok v)
