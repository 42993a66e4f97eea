-- ===== src/Operations.antt =====
-- Every operation that can change the tasks table, as the steps of one server. The write lock runs
-- the transactions one after another, so a run is a sequence of operations with their inputs.
pub mod Invariant
pub mod Fencing
pub mod Zombies
use atmcp.Base.{ℕ, String, Option, List, [], ◌∷◌, ℤ}
use atmcp.Schema.{Caller, Clock, Settings}
use atmcp.Server.{Server}
use atmcp.Tasks.Create.{NewTask, create_goal, create_task}
use atmcp.Tasks.Claim.{claim_task, claim_next_task}
use atmcp.Tasks.Work.{update_task_progress, complete_task, fail_task, release_task}
use atmcp.Presence.{Report, heartbeat, heartbeat_named}
use atmcp.Identity.{leave_team}
use atmcp.Reaper.{reap_one}

-- A call, with what it reads from its surroundings.
pub data Op : Type 0 where
  create_goal_op : Clock → String → Caller → String → Option String → Op
  create_task_op : Clock → String → Caller → NewTask → Option String → Op
  claim_op : Clock → Caller → String → Option String → Op
  claim_next_op : Clock → Caller → Option String → Op
  progress_op : Clock → Caller → String → ℕ → Option ℤ → Option String → Option String → Op
  complete_op : Clock → Caller → String → ℕ → Option String → Option String → Op
  fail_op : Clock → Caller → String → ℕ → Option String → Op
  release_op : Clock → Caller → String → ℕ → Op
  heartbeat_op : Clock → Caller → Report → Op
  named_op : Clock → String → String → String → String → Report → Op
  leave_op : Clock → Caller → Op
  reap_op : Clock → ℕ → String → String → Op

unfoldable pub step : Settings → Op → Server → Server
step cfg (create_goal_op clk id c title descr) s = (create_goal clk id c title descr s).1
step cfg (create_task_op clk id c n key) s = (create_task cfg clk id c n key s).1
step cfg (claim_op clk c task key) s = (claim_task cfg clk c task key s).1
step cfg (claim_next_op clk c key) s = (claim_next_task cfg clk c key s).1
step cfg (progress_op clk c task token pct status message) s =
    (update_task_progress cfg clk c task token pct status message s).1
step cfg (complete_op clk c task token summary key) s =
    (complete_task clk c task token summary key s).1
step cfg (fail_op clk c task token error) s = (fail_task clk c task token error s).1
step cfg (release_op clk c task token) s = (release_task clk c task token s).1
step cfg (heartbeat_op clk c r) s = (heartbeat cfg clk c r s).1
step cfg (named_op clk team id name caps r) s = (heartbeat_named cfg clk team id name caps r s).1
step cfg (leave_op clk c) s = (leave_team clk c s).1
step cfg (reap_op clk ts team task) s = (reap_one clk ts team task s).1

unfoldable pub run : Settings → List Op → Server → Server
run cfg [] s = s
run cfg (op ∷ ops) s = run cfg ops (step cfg op s)
