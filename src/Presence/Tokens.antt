-- ===== src/Presence/Tokens.antt =====
-- Heartbeats lower no fencing token.
use atmcp.Base.{ℕ, String, List, Option, none, some, arith, Option-cases, inl, inr, refl}
use atmcp.Base.Table.{fetch_one, select}
use atmcp.Schema.{Agent, Caller, Clock, Settings, Task}
use atmcp.Db.{TxState, pure, ◌>>=◌}
use atmcp.Db.Keeps.{After, After-bind, After-pure}
use atmcp.Tasks.Tokens.{AtLeast, DbAtLeast, update_each-AtLeast}
use atmcp.Presence.{
  Report, is_agent, is_held, held_by, renew_leases, renew_tx, heartbeat_tx, is_named, named_row,
  named_tx,
}
use atmcp.Presence.Laws.{renewal, renew-update_each}

module _ (team task : String) (n : ℕ) where
  renew_leases-AtLeast :
      (cfg : Settings) (now : ℕ) (who : String) (hs tasks : List Task)
      → AtLeast team task n tasks
      → AtLeast team task n (renew_leases cfg now who hs tasks)
  unfolding renewal
  renew_leases-AtLeast cfg now who hs tasks v = rw (renew-update_each cfg now who hs tasks) (
      update_each-AtLeast team task n who (renewal cfg now) hs tasks (λ h x y r. refl)
        (λ h x. omega arith) v)

  renew_tx-AtLeast :
      (cfg : Settings) (now : ℕ) (who agent : String) (t : TxState)
      → DbAtLeast team task n t.db
      → After (DbAtLeast team task n) (renew_tx cfg now who agent t)
  unfolding renew_tx
  renew_tx-AtLeast cfg now who agent t v =
      renew_leases-AtLeast cfg now who (held_by who agent t.db) t.db.tasks v

  pub heartbeat_tx-AtLeast :
      (cfg : Settings) (clk : Clock) (c : Caller) (r : Report) (t : TxState)
      → DbAtLeast team task n t.db
      → After (DbAtLeast team task n) (heartbeat_tx cfg clk c r t)
  unfolding heartbeat_tx
  heartbeat_tx-AtLeast cfg clk c r t v =
      renew_leases-AtLeast cfg clk.now c.team_id (select (is_held c.team_id c.agent_id) t.db.tasks)
        t.db.tasks v

  named_row-AtLeast :
      (clk : Clock) (who id name caps : String) (r : Report) (row : Option Agent) (t : TxState)
      → DbAtLeast team task n t.db
      → After (DbAtLeast team task n) (named_row clk who id name caps r row t)
  unfolding named_row
  named_row-AtLeast clk who id name caps r (some a) t v = v
  named_row-AtLeast clk who id name caps r none t v =
      elim (Option-cases (fetch_one (is_agent who id) t.db.agents)) [
        | inl e ↦ rw (e, After) v
        | inr (a, e) ↦ rw (e, After) tt
      ]

  pub named_tx-AtLeast :
      (cfg : Settings) (clk : Clock) (who id name caps : String) (r : Report) (t : TxState)
      → DbAtLeast team task n t.db
      → After (DbAtLeast team task n) (named_tx cfg clk who id name caps r t)
  unfolding named_tx
  named_tx-AtLeast cfg clk who id name caps r t v =
      let row = fetch_one (is_named who name) t.db.agents in
      After-bind {B = String × List Task} (DbAtLeast team task n)
        (named_row clk who id name caps r row t)
        (λ a. renew_tx cfg clk.now who a >>= λ held. pure (a, held))
        (named_row-AtLeast clk who id name caps r row t v)
        (λ a t' v'.
          After-pure {B = String × List Task} (DbAtLeast team task n)
            (renew_tx cfg clk.now who a t') (λ held. (a, held))
            (renew_tx-AtLeast cfg clk.now who a t' v'))
