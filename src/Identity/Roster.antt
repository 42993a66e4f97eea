-- ===== src/Identity/Roster.antt =====
-- `list_agents` of services/identity.py.
use atmcp.Base.{ℕ, String, List, map, ◌==◌, ltb}
use atmcp.Base.Table.{select, order_by}
use atmcp.Schema.{Settings}
use atmcp.Redis.{Redis}
use atmcp.Db.{Db}
use atmcp.Identity.{AgentLine, agent_line}

-- ORDER BY joined_at; each line with the presence at the time `now` of the call.
unfoldable pub list_agents : Settings → ℕ → Redis → String → Db → List AgentLine
list_agents cfg now redis team_id db =
    map (agent_line cfg now redis)
      (order_by (λ a b. ltb a.joined_at b.joined_at) (select (λ a. a.team_id == team_id) db.agents))
