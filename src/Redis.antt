-- ===== src/Redis.antt =====
-- redis_bus.py and lua/extend_lease.lua: the mirror of the task leases, with its expiry. Every call
-- is best-effort: while Redis is down it does nothing. A key is the pair that it is formatted from.
pub mod Leases
use atmcp.Base.{
  ℕ, ◌+◌, ◌*◌, String, Bool, Option, none, some, List, ◌==◌, ◌&&◌, ltb, if◌then◌else◌, ℤ,
}
use atmcp.Base.Table.{fetch_one, insert, delete, update}

pub record Lease : Type 0 where
  pub team : String
  pub task : String
  pub agent_id : String
  pub fencing_token : ℕ
  pub expires_at : ℕ

-- The heartbeat of an agent: the payload and its expiry.
pub record Heartbeat : Type 0 where
  pub team : String
  pub agent : String
  pub ts : ℕ
  pub status : Option String
  pub task : Option String
  pub progress : Option ℤ
  pub expires_at : ℕ

-- The binding of an MCP session.
pub record Binding : Type 0 where
  pub sid : String
  pub team_id : String
  pub agent_id : String
  pub expires_at : ℕ

pub record Redis : Type 0 where
  pub up : Bool
  pub leases : List Lease
  pub heartbeats : List Heartbeat
  pub bindings : List Binding

abbrev pub is_heartbeat : String → String → Heartbeat → Bool
is_heartbeat team agent h = h.team == team && h.agent == agent

abbrev pub is_binding : String → Binding → Bool
is_binding sid b = b.sid == sid

-- SET replaces the key.
unfoldable pub set_heartbeat : Heartbeat → Redis → Redis
set_heartbeat h r =
    if r.up
    then record r { heartbeats = insert h (delete (is_heartbeat h.team h.agent) r.heartbeats) }
    else r

unfoldable pub del_heartbeat : String → String → Redis → Redis
del_heartbeat team agent r =
    if r.up then record r { heartbeats = delete (is_heartbeat team agent) r.heartbeats } else r

-- `get_heartbeats` for one agent; nothing while Redis is down.
unfoldable pub get_heartbeat : ℕ → String → String → Redis → Option Heartbeat
get_heartbeat now team agent r =
    if r.up
    then fetch_one (λ h. is_heartbeat team agent h && ltb now h.expires_at) r.heartbeats
    else none

unfoldable pub set_session : Binding → Redis → Redis
set_session b r =
    if r.up then record r { bindings = insert b (delete (is_binding b.sid) r.bindings) } else r

unfoldable pub get_session : ℕ → String → Redis → Option Binding
get_session now sid r =
    if r.up then fetch_one (λ b. is_binding sid b && ltb now b.expires_at) r.bindings else none

unfoldable pub del_session : String → Redis → Redis
del_session sid r = if r.up then record r { bindings = delete (is_binding sid) r.bindings } else r

abbrev pub is_lease : String → String → Lease → Bool
is_lease team task l = l.team == team && l.task == task

-- A key that is past its expiry is gone.
abbrev pub live_lease : ℕ → String → String → Lease → Bool
live_lease now team task l = is_lease team task l && ltb now l.expires_at

unfoldable pub set_lease : ℕ → String → String → String → ℕ → ℕ → Redis → Redis
set_lease now team task agent fencing_token ttl_s r =
    if r.up
    then record r {
      leases =
          insert
            (record {
              team = team;
              task = task;
              agent_id = agent;
              fencing_token = fencing_token;
              expires_at = now + ttl_s * 1000;
            })
            (delete (is_lease team task) r.leases);
    }
    else r

-- What the Lua script answers: 1 extended, 0 no lease, -1 held by another agent.
pub data Extended : Type 0 where
  extended absent other_holder : Extended

script : ℕ → String → String → String → ℕ → Option Lease → Redis → Extended × Redis
script now team task agent ttl_s none r = (absent, r)
script now team task agent ttl_s (some l) r =
    if l.agent_id == agent
    then (
      extended,
      record r {
        leases =
            update (is_lease team task) (λ x. record x { expires_at = now + ttl_s * 1000 })
              r.leases;
      },
    )
    else (other_holder, r)

unfoldable pub extend_lease : ℕ → String → String → String → ℕ → Redis → Extended × Redis
unfolding script
extend_lease now team task agent ttl_s r =
    if r.up
    then script now team task agent ttl_s (fetch_one (live_lease now team task) r.leases) r
    else (absent, r)

unfoldable pub del_lease : String → String → Redis → Redis
del_lease team task r =
    if r.up then record r { leases = delete (is_lease team task) r.leases } else r
