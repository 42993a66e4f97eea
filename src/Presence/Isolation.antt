-- ===== src/Presence/Isolation.antt =====
-- services/presence.py: the heartbeats of a team, and the rows of another team.
use atmcp.Base.{
  ℕ, String, ◌==◌, ◌≡◌, refl, ap, ◌∙◌, false, Option, none, some, List, [], ◌∷◌, eq_refl,
  Option-cases, inl, inr, &&-eq-true,
}
use atmcp.Base.Table.{fetch_one, insert}
use atmcp.Schema.{Agent, Task, Clock, Settings}
use atmcp.Db.{TxState, pure, ◌>>=◌}
use atmcp.Db.Keeps.{After, After-bind, After-pure}
use atmcp.Db.Isolation.{
  Rows, rows_of, Untouched, own_rows, own_rows-update, own_rows-insert, append-Untouched,
}
use atmcp.Server.{Server}
use atmcp.Server.Frame.{serve-Keeps}
use atmcp.Tasks.{is_task}
use atmcp.Presence.{
  Report, is_agent, seen_agent, renew_row, ttl_of, renew_leases, renew_tx, held_by, is_named,
  sidecar_agent, named_row, named_tx, heartbeat_named,
}

module _ (other team : String) (out : (team == other) ≡ false) (f : Rows) where
  own_rows-renew_leases :
      (cfg : Settings) (now : ℕ) (hs tasks : List Task)
      → own_rows (λ (t : Task). t.team_id) other (renew_leases cfg now team hs tasks)
        ≡ own_rows (λ (t : Task). t.team_id) other tasks
  unfolding renew_leases
  own_rows-renew_leases cfg now [] tasks = refl
  own_rows-renew_leases cfg now (h ∷ hs) tasks =
      own_rows-renew_leases cfg now hs _
      ∙ own_rows-update (λ (t : Task). t.team_id) other team out (is_task team h.task_id)
          (renew_row now (ttl_of cfg h))
          (λ t e. (&&-eq-true (t.team_id == team) (t.task_id == h.task_id) e).0) (λ t. refl) tasks

  renew_tx-Untouched :
      (cfg : Settings) (now : ℕ) (agent : String) (t : TxState)
      → Untouched other f t.db
      → After (Untouched other f) (renew_tx cfg now team agent t)
  unfolding renew_tx
  renew_tx-Untouched cfg now agent t h =
      ap (λ l. record (rows_of other t.db) { tasks = l })
        (own_rows-renew_leases cfg now (held_by team agent t.db) t.db.tasks)
      ∙ h

  named_row-Untouched :
      (clk : Clock) (id name caps : String) (r : Report) (row : Option Agent) (t : TxState)
      → Untouched other f t.db
      → After (Untouched other f) (named_row clk team id name caps r row t)
  unfolding named_row sidecar_agent seen_agent
  named_row-Untouched clk id name caps r (some a) t h =
      ap (λ l. record (rows_of other t.db) { agents = l })
        (own_rows-update (λ (x : Agent). x.team_id) other team out (is_agent team a.agent_id) _
          (λ x e. (&&-eq-true (x.team_id == team) (x.agent_id == a.agent_id) e).0) (λ x. refl)
          t.db.agents)
      ∙ h
  named_row-Untouched clk id name caps r none t h =
      elim (Option-cases (fetch_one (is_agent team id) t.db.agents)) [
        | inr (a, e) ↦ rw (e, After) tt
        | inl e ↦
            rw (e, After)
              (append-Untouched other team out f clk _ _ _ _ _
                (record t {
                  db = record t.db {
                    agents = insert (sidecar_agent clk team id name caps r) t.db.agents;
                  };
                })
                (ap (λ l. record (rows_of other t.db) { agents = l })
                    (own_rows-insert (λ (x : Agent). x.team_id) other team out _ t.db.agents
                      (eq_refl team))
                  ∙ h))
      ]

  pub heartbeat_named-Untouched :
      (cfg : Settings) (clk : Clock) (id name caps : String) (r : Report) (s : Server)
      → Untouched other f s.db
      → Untouched other f (heartbeat_named cfg clk team id name caps r s).1.db
  unfolding heartbeat_named named_tx
  heartbeat_named-Untouched cfg clk id name caps r s h =
      serve-Keeps (Untouched other f) (named_tx cfg clk team id name caps r) _ s
        (record {
          at = λ t k.
              let row = fetch_one (is_named team name) t.db.agents in
              After-bind {B = String × List Task} (Untouched other f)
                (named_row clk team id name caps r row t)
                (λ a. renew_tx cfg clk.now team a >>= λ held. pure (a, held))
                (named_row-Untouched clk id name caps r row t k)
                (λ a t' k'.
                  After-pure {B = String × List Task} (Untouched other f)
                    (renew_tx cfg clk.now team a t') (λ held. (a, held))
                    (renew_tx-Untouched cfg clk.now a t' k'));
        })
        h
