-- ===== src/Identity/Tokens.antt =====
-- Leaving a team lowers no fencing token.
use atmcp.Base.{ℕ, String, arith, refl}
use atmcp.Schema.{Caller, Clock}
use atmcp.Db.{TxState, ◌>>=◌}
use atmcp.Db.Keeps.{After}
use atmcp.Tasks.Work.{release_row}
use atmcp.Tasks.Tokens.{DbAtLeast, update_each-AtLeast}
use atmcp.Presence.{held_by}
use atmcp.Identity.{leave_tx}
use atmcp.Identity.Laws.{requeue_held_lem}

pub leave_tx-AtLeast :
    (team task : String) (n : ℕ) (clk : Clock) (c : Caller) (t : TxState)
    → DbAtLeast team task n t.db
    → After (DbAtLeast team task n) (leave_tx clk c t)
unfolding leave_tx release_row
leave_tx-AtLeast team task n clk c t v =
    let held = held_by c.team_id c.agent_id t.db in
    let (t', loop, tasks) = requeue_held_lem clk c held t in
    rw (loop, After, ◌>>=◌)
      (rw tasks (
        update_each-AtLeast team task n c.team_id (λ h. release_row clk.now) held t.db.tasks
          (λ h x y r. refl) (λ h x. omega arith) v))
