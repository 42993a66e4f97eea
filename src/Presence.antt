-- ===== src/Presence.antt =====
-- services/presence.py: presence is derived from the heartbeat key, and a heartbeat renews the leases
-- of the tasks that the agent holds. The frame for the dashboard is output only.
pub mod Laws
pub mod Tokens
pub mod Isolation
use atmcp.Base.{
  ℕ, zero, ◌+◌, ◌*◌, String, Bool, false, ◌&&◌, Option, none, some, List, [], ◌∷◌, ◌==◌, ltb, holds,
  coalesce, coalesce?, if◌then◌else◌, ℤ, pos, is_some,
}
use atmcp.Base.Table.{fetch_one, select, update, insert}
use atmcp.Schema.{Task, Agent, Caller, Clock, Settings, agent_joined, Json}
use atmcp.Redis.{Redis, Heartbeat, Binding, set_heartbeat, set_session, extend_lease}
use atmcp.Db.{Db, Tx, pure, fetch, execute, execute_unique, ◌>>=◌, ◌>>◌, done, raised}
use atmcp.Events.{append}
use atmcp.Server.{Server, Answer, serve}
use atmcp.Tasks.{is_task, is_leased}

pub data Presence : Type 0 where
  healthy degraded offline : Presence

-- `derive_presence`. An age below n seconds, `(now - ts) / 1000.0 < n`, is `now < ts + n * 1000`.
unfoldable pub derive_presence : Settings → Option Heartbeat → ℕ → ℕ → Presence
derive_presence cfg none last_seen now =
    if ltb now (last_seen + cfg.presence_degraded_s * 1000) then degraded else offline
derive_presence cfg (some hb) last_seen now =
    if ltb now (hb.ts + cfg.presence_healthy_s * 1000)
    then healthy
    else if ltb now (hb.ts + cfg.presence_degraded_s * 1000)
    then degraded
    else offline

-- What a heartbeat reports.
pub record Report : Type 0 where
  pub status_summary : Option String
  pub current_task_id : Option String
  pub progress_pct : Option ℤ

-- UPDATE agents SET last_seen=?, status_summary=COALESCE(?, status_summary), …
unfoldable pub seen_agent : ℕ → Report → Agent → Agent
seen_agent now r a = record a {
  last_seen = now;
  status_summary = coalesce? r.status_summary a.status_summary;
  current_task_id = coalesce? r.current_task_id a.current_task_id;
  progress_pct = coalesce r.progress_pct a.progress_pct;
}

abbrev pub is_agent : String → String → Agent → Bool
is_agent team_id agent_id a = a.team_id == team_id && a.agent_id == agent_id

-- assignee=? AND status IN ('claimed','in_progress')
abbrev pub is_held : String → String → Task → Bool
is_held team_id agent_id t =
    t.team_id == team_id && (holds t.assignee agent_id && is_leased t.status)

unfoldable pub held_by : String → String → Db → List Task
held_by team_id agent_id db = select (is_held team_id agent_id) db.tasks

abbrev pub ttl_of : Settings → Task → ℕ
ttl_of cfg t = coalesce t.lease_ttl_s cfg.lease_ttl_s

abbrev pub renew_row : ℕ → ℕ → Task → Task
renew_row now ttl t = record t { lease_expires_at = some (now + ttl * 1000) }

-- The loop over the held tasks, each by its key.
unfoldable pub renew_leases : Settings → ℕ → String → List Task → List Task → List Task
renew_leases cfg now team_id [] tasks = tasks
renew_leases cfg now team_id (h ∷ hs) tasks =
    renew_leases cfg now team_id hs
      (update (is_task team_id h.task_id) (renew_row now (ttl_of cfg h)) tasks)

-- The transaction ends with the tasks that it renewed.
renew_tx : Settings → ℕ → String → String → Tx (List Task)
unfolding held_by renew_leases
renew_tx cfg now team_id agent_id = do
  held ← fetch (held_by team_id agent_id)
  execute (λ db. record db { tasks = renew_leases cfg now team_id held db.tasks })
  pure held

unfoldable pub heartbeat_tx : Settings → Clock → Caller → Report → Tx (List Task)
unfolding seen_agent renew_tx
heartbeat_tx cfg clk c r = do
  execute (λ db. record db {
    agents = update (is_agent c.team_id c.agent_id) (seen_agent clk.now r) db.agents;
  })
  renew_tx cfg clk.now c.team_id c.agent_id

abbrev pub heartbeat_key : Settings → Clock → String → String → Report → Heartbeat
heartbeat_key cfg clk team_id agent_id r = record {
  team = team_id;
  agent = agent_id;
  ts = clk.now;
  status = r.status_summary;
  task = r.current_task_id;
  progress = r.progress_pct;
  expires_at = clk.now + cfg.heartbeat_ttl_s * 1000;
}

unfoldable pub extend_all : Settings → Clock → String → String → List Task → Redis → Redis
extend_all cfg clk team_id agent_id [] redis = redis
extend_all cfg clk team_id agent_id (h ∷ hs) redis =
    extend_all cfg clk team_id agent_id hs
      (extend_lease clk.now team_id h.task_id agent_id (ttl_of cfg h) redis).1

unfoldable pub mirror_heartbeat : Settings → Clock → Caller → Report → List Task → Redis → ℕ × Redis
unfolding extend_all
mirror_heartbeat cfg clk c r held redis = (
  clk.now,
  extend_all cfg clk c.team_id c.agent_id held (
      set_session
        (record {
          sid = c.session_id;
          team_id = c.team_id;
          agent_id = c.agent_id;
          expires_at = clk.now + cfg.heartbeat_ttl_s * 3 * 1000;
        })
        (set_heartbeat (heartbeat_key cfg clk c.team_id c.agent_id r) redis)),
)

-- Answers the server's time.
unfoldable pub heartbeat : Settings → Clock → Caller → Report → Server → Answer ℕ × Server
unfolding heartbeat_tx mirror_heartbeat
heartbeat cfg clk c r = serve (heartbeat_tx cfg clk c r) (mirror_heartbeat cfg clk c r)

-- heartbeat_named: the agent of that name, or a new one under the id that `new_id()` drew.
abbrev pub is_named : String → String → Agent → Bool
is_named team_id display_name a = a.team_id == team_id && a.display_name == display_name

unfoldable pub sidecar_agent : Clock → String → String → String → String → Report → Agent
sidecar_agent clk team_id agent_id display_name capabilities_json r = record {
  team_id = team_id;
  agent_id = agent_id;
  display_name = display_name;
  capabilities_json = capabilities_json;
  session_id = none;
  joined_at = clk.now;
  last_seen = clk.now;
  status_summary = r.status_summary;
  current_task_id = r.current_task_id;
  progress_pct = coalesce r.progress_pct (pos 0);
  retired = false;
}

named_row : Clock → String → String → String → String → Report → Option Agent → Tx String
unfolding sidecar_agent seen_agent append
named_row clk team_id new_id display_name capabilities_json r none = do
  execute_unique (λ db. is_some (fetch_one (is_agent team_id new_id) db.agents))
      (λ db. record db {
        agents =
            insert (sidecar_agent clk team_id new_id display_name capabilities_json r) db.agents;
      })
  append clk team_id agent_joined "agent" (some new_id) (some new_id)
      (("display_name", Json.str display_name) ∷ ("via", Json.str "rest_heartbeat") ∷ [])
  pure new_id
named_row clk team_id new_id display_name capabilities_json r (some a) = do
  execute (λ db. record db {
    agents =
        update (is_agent team_id a.agent_id)
          (λ x. record (seen_agent clk.now r x) { retired = false }) db.agents;
  })
  pure a.agent_id

unfoldable pub named_tx :
    Settings → Clock → String → String → String → String → Report → Tx (String × List Task)
unfolding named_row renew_tx
named_tx cfg clk team_id new_id display_name capabilities_json r = do
  row ← fetch (λ db. fetch_one (is_named team_id display_name) db.agents)
  agent_id ← named_row clk team_id new_id display_name capabilities_json r row
  held ← renew_tx cfg clk.now team_id agent_id
  pure (agent_id, held)

unfoldable pub mirror_named :
    Settings → Clock → String → Report → String × List Task → Redis → String × Redis
unfolding extend_all
mirror_named cfg clk team_id r (agent_id, held) redis = (
  agent_id,
  extend_all cfg clk team_id agent_id held
      (set_heartbeat (heartbeat_key cfg clk team_id agent_id r) redis),
)

-- Answers the agent's id.
unfoldable pub heartbeat_named :
    Settings → Clock → String → String → String → String → Report → Server → Answer String × Server
unfolding named_tx mirror_named
heartbeat_named cfg clk team_id new_id display_name capabilities_json r =
    serve (named_tx cfg clk team_id new_id display_name capabilities_json r)
      (mirror_named cfg clk team_id r)
