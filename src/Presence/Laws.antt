-- ===== src/Presence/Laws.antt =====
-- Heartbeats keep the tasks table well-formed.
use atmcp.Base.{
  ℕ, String, ◌≡◌, refl, Bool, true, Option, none, some, List, [], ◌∷◌, arith, eq_iff, Option-cases,
  inl, inr,
}
use atmcp.Base.Table.{select, fetch_one}
use atmcp.Schema.{Task, Agent, Caller, Clock, Settings}
use atmcp.Db.{TxState, pure, ◌>>=◌}
use atmcp.Db.Keeps.{After, Keeps, After-bind, After-pure}
use atmcp.Tasks.{is_leased}
use atmcp.Tasks.Invariant.{RowOk, TasksOk, DbOk}
use atmcp.Tasks.Invariant.Batch.{update_each, update_each-TasksOk, select-Stands}
use atmcp.Presence.{
  Report, is_agent, ttl_of, is_held, renew_row, renew_leases, renew_tx, heartbeat_tx, is_named,
  named_row, named_tx,
}

abbrev is_in_work : Task → Bool
is_in_work t = is_leased t.status

unfoldable pub renewal : Settings → ℕ → Task → Task → Task
renewal cfg now h x = renew_row now (ttl_of cfg h) x

pub renew-update_each :
    (cfg : Settings) (now : ℕ) (team : String) (hs tasks : List Task)
    → renew_leases cfg now team hs tasks ≡ update_each team (renewal cfg now) hs tasks
unfolding renew_leases renewal
renew-update_each cfg now team [] tasks = refl
renew-update_each cfg now team (h ∷ hs) tasks = renew-update_each cfg now team hs _

pub held_means :
    (team agent : String) (t : Task)
    → is_held team agent t ≡ true
    → (t.team_id ≡ team) × (is_leased t.status ≡ true)
held_means team agent t h = ground (arith, eq_iff t.team_id team)

renewal-RowOk :
    (cfg : Settings) (now : ℕ) (h x : Task)
    → is_in_work x ≡ true
    → RowOk x
    → RowOk (renewal cfg now h x)
unfolding renewal
renewal-RowOk cfg now h x e v = ground arith

renew_leases-TasksOk :
    (cfg : Settings) (now : ℕ) (team agent : String) (tasks : List Task)
    → TasksOk tasks
    → TasksOk (renew_leases cfg now team (select (is_held team agent) tasks) tasks)
unfolding renewal
renew_leases-TasksOk cfg now team agent tasks v = rw renew-update_each (
    update_each-TasksOk is_in_work team (renewal cfg now) (λ h x y t. refl) (λ h x e. e)
      (renewal-RowOk cfg now) _ tasks
      (select-Stands (is_held team agent) is_in_work team tasks (held_means team agent) v) v)

renew_tx-DbOk :
    (cfg : Settings) (now : ℕ) (team agent : String) (t : TxState)
    → DbOk t.db
    → After DbOk (renew_tx cfg now team agent t)
unfolding renew_tx
renew_tx-DbOk cfg now team agent t v = renew_leases-TasksOk cfg now team agent t.db.tasks v

pub heartbeat_tx-Keeps :
    (cfg : Settings) (clk : Clock) (c : Caller) (r : Report) → Keeps DbOk (heartbeat_tx cfg clk c r)
unfolding heartbeat_tx
heartbeat_tx-Keeps cfg clk c r = record {
  at = λ t v. renew_leases-TasksOk cfg clk.now c.team_id c.agent_id t.db.tasks v;
}

-- The sidecar's heartbeat touches no task before it renews the leases.
named_row-DbOk :
    (clk : Clock) (team id name caps : String) (r : Report) (row : Option Agent) (t : TxState)
    → DbOk t.db
    → After DbOk (named_row clk team id name caps r row t)
unfolding named_row
named_row-DbOk clk team id name caps r (some a) t v = v
named_row-DbOk clk team id name caps r none t v =
    elim (Option-cases (fetch_one (is_agent team id) t.db.agents)) [
      | inl e ↦ rw (e, After) v
      | inr (a, e) ↦ rw (e, After) tt
    ]

pub named_tx-Keeps :
    (cfg : Settings) (clk : Clock) (team id name caps : String) (r : Report)
    → Keeps DbOk (named_tx cfg clk team id name caps r)
unfolding named_tx
named_tx-Keeps cfg clk team id name caps r = record {
  at = λ t v.
      let row = fetch_one (is_named team name) t.db.agents in
      After-bind {B = String × List Task} DbOk (named_row clk team id name caps r row t)
        (λ a. renew_tx cfg clk.now team a >>= λ held. pure (a, held))
        (named_row-DbOk clk team id name caps r row t v)
        (λ a t' v'.
          After-pure {B = String × List Task} DbOk (renew_tx cfg clk.now team a t')
            (λ held. (a, held)) (renew_tx-DbOk cfg clk.now team a t' v'));
}
