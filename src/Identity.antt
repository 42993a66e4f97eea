-- ===== src/Identity.antt =====
-- services/identity.py: teams, joining, leaving, the roster. `hash_token` is sha256 (ids.py), a
-- parameter; `new_id` and the tokens are what ids.py drew. `token_matches` compares the hashes.
pub mod Laws
pub mod Roster
pub mod Names
pub mod Resolve
pub mod Sticky
pub mod Tokens
use atmcp.Base.{
  ℕ, zero, ◌+◌, ◌*◌, String, Bool, true, false, not, ◌&&◌, ◌||◌, Option, none, some, List, [], ◌∷◌,
  map, ◌==◌, is_some, coalesce, truthy, if◌then◌else◌, ℤ, pos,
}
use atmcp.Base.Table.{fetch_one, select, update, insert, delete, first_by}
use atmcp.Schema.{
  Team, Agent, Task, Caller, Clock, Settings, Json, opened, agent_joined, agent_left, task_requeued,
  Outcome,
}
use atmcp.Redis.{
  Redis, Heartbeat, Binding, set_heartbeat, del_heartbeat, get_heartbeat, set_session, del_session,
  del_lease,
}
use atmcp.Db.{
  Db, Exn, Tx, pure, raise, fetch, execute, execute_unique, ◌>>=◌, ◌>>◌, done, team_exists,
  unknown_team, bad_token, display_name_taken,
}
use atmcp.Events.{append}
use atmcp.Server.{Server, Answer, replied, raised, serve}
use atmcp.Tasks.{is_task, set_task, close_claim}
use atmcp.Tasks.Work.{release_row}
use atmcp.Presence.{Presence, derive_presence, held_by, is_agent, is_named}

-- `create_team`; the answer is the team's row (the plaintext tokens are the arguments).
unfoldable pub create_team :
    (String → String) → Clock → String → String → String → String → Server → Answer Team × Server
create_team hash_token clk team_id name join_token dashboard_token =
    serve
      (do
        existing ← fetch (λ db. fetch_one (λ t. t.name == name) db.teams)
        if is_some existing then raise team_exists else do
          execute_unique (λ db. is_some (fetch_one (λ t. t.team_id == team_id) db.teams))
              (λ db. record db { teams = insert row db.teams })
          pure row)
      (λ r redis. (r, redis))
  where
    row : Team
    row = record {
      team_id = team_id;
      name = name;
      join_token_hash = hash_token join_token;
      dashboard_token_hash = some (hash_token dashboard_token);
      created_at = clk.now;
    }

-- The arguments of `join_team` after the session id and the credentials.
pub record Join : Type 0 where
  pub display_name : String
  pub capabilities_json : String
  pub capabilities : List String
  pub agent_id : Option String

pub record Joined : Type 0 where
  pub agent_id : String
  pub team_id : String
  pub display_name : String
  pub reused_existing : Bool
  pub head_event_id : ℕ

unfoldable pub rejoin_row : ℕ → String → Join → Agent → Agent
rejoin_row now sid j a = record a {
  display_name = j.display_name;
  capabilities_json = j.capabilities_json;
  session_id = some sid;
  last_seen = now;
  retired = false;
  status_summary = some "joined";
}

unfoldable pub agent_row : ℕ → String → String → String → Join → Agent
agent_row now sid team_id aid j = record {
  team_id = team_id;
  agent_id = aid;
  display_name = j.display_name;
  capabilities_json = j.capabilities_json;
  session_id = some sid;
  joined_at = now;
  last_seen = now;
  status_summary = some "joined";
  current_task_id = none;
  progress_pct = pos 0;
  retired = false;
}

-- The agent that joins: the one of the id, if an id is given, else the one of the name.
unfoldable pub joining : String → Join → Db → Option Agent
joining team_id j db = elim (truthy j.agent_id) [
  | some aid ↦ fetch_one (is_agent team_id aid) db.agents
  | none ↦ fetch_one (is_named team_id j.display_name) db.agents
]

-- Whether the name belongs to another agent than `aid`.
abbrev pub owned_by_other : String → Option Agent → Bool
owned_by_other aid none = false
owned_by_other aid (some owner) = not (owner.agent_id == aid)

-- The row is updated or inserted; the answer is the agent's id and whether it was there before.
pub enter_row :
    ℕ → String → String → String → Join → Option Agent → Option Agent → Tx (String × Bool)
unfolding rejoin_row agent_row
enter_row now sid team_id new_id j (some a) owner =
    if owned_by_other a.agent_id owner then raise display_name_taken else do
      execute (λ db. record db {
        agents = update (is_agent team_id a.agent_id) (rejoin_row now sid j) db.agents;
      })
      pure (a.agent_id, true)
enter_row now sid team_id new_id j none owner =
    if is_some owner then raise display_name_taken else do
      let aid = coalesce (truthy j.agent_id) new_id
      execute_unique
          (λ db.
            is_some (fetch_one (is_agent team_id aid) db.agents)
            || is_some (fetch_one (is_named team_id j.display_name) db.agents))
          (λ db. record db { agents = insert (agent_row now sid team_id aid j) db.agents })
      pure (aid, false)

unfoldable pub join_tx : Clock → String → String → String → Join → Tx Joined
unfolding joining enter_row append
join_tx clk sid team_id new_id j = do
  existing ← fetch (joining team_id j)
  owner ← fetch (λ db. fetch_one (is_named team_id j.display_name) db.agents)
  entered ← enter_row clk.now sid team_id new_id j existing owner
  eid ← append clk team_id agent_joined "agent" (some entered.0) (some entered.0) (
      ("display_name", Json.str j.display_name)
      ∷ ("capabilities", Json.strs j.capabilities)
      ∷ ("reused", Json.bool entered.1)
      ∷ [])
  pure (record {
    agent_id = entered.0;
    team_id = team_id;
    display_name = j.display_name;
    reused_existing = entered.1;
    head_event_id = eid;
  })

unfoldable pub mirror_join : Settings → Clock → String → Joined → Redis → Joined × Redis
mirror_join cfg clk sid r redis = (
  r,
  set_session
      (record {
        sid = sid;
        team_id = r.team_id;
        agent_id = r.agent_id;
        expires_at = clk.now + cfg.heartbeat_ttl_s * 3 * 1000;
      })
      (set_heartbeat
        (record {
          team = r.team_id;
          agent = r.agent_id;
          ts = clk.now;
          status = some "joined";
          task = none;
          progress = some (pos 0);
          expires_at = clk.now + cfg.heartbeat_ttl_s * 1000;
        })
        redis),
)

-- session.py: `bind` and `unbind`
abbrev pub has_sid : String → Caller → Bool
has_sid sid c = c.session_id == sid

unfoldable pub bind : String → String → String → String → Server → Server
bind sid team_id agent_id display_name s = record s {
  bound =
      insert
        (record {
          team_id = team_id;
          agent_id = agent_id;
          display_name = display_name;
          session_id = sid;
        })
        (delete (has_sid sid) s.bound);
}

unfoldable pub unbind : String → Server → Server
unbind sid s = record s { bound = delete (has_sid sid) s.bound }

-- A session is bound once its join has succeeded.
abbrev pub bind_joined : String → Answer Joined × Server → Answer Joined × Server
bind_joined sid (replied r, s) = (replied r, bind sid r.team_id r.agent_id r.display_name s)
bind_joined sid (raised e, s) = (raised e, s)

-- The team is read and its token checked before the transaction.
enter_team :
    Settings
    → (String → String)
    → Clock
    → String
    → String
    → String
    → Join
    → Option Team
    → Server
    → Answer Joined × Server
unfolding join_tx mirror_join bind
enter_team cfg hash_token clk sid join_token new_id j none s = (raised unknown_team, s)
enter_team cfg hash_token clk sid join_token new_id j (some team) s =
    if not (hash_token join_token == team.join_token_hash)
    then (raised bad_token, s)
    else bind_joined sid (serve (join_tx clk sid team.team_id new_id j) (mirror_join cfg clk sid) s)

unfoldable pub join_team :
    Settings
    → (String → String)
    → Clock
    → String
    → String
    → String
    → String
    → Join
    → Server
    → Answer Joined × Server
unfolding enter_team
join_team cfg hash_token clk sid team_name join_token new_id j s =
    enter_team cfg hash_token clk sid join_token new_id j
      (fetch_one (λ t. t.name == team_name) s.db.teams) s

-- One round of the loop of `leave_team` over the tasks that the caller holds.
unfoldable pub requeue_one : Clock → Caller → Task → Tx ℕ
unfolding release_row set_task close_claim append
requeue_one clk c t = do
  execute (set_task c.team_id t.task_id (release_row clk.now))
  execute (close_claim clk.now Outcome.released c.team_id t.task_id (some c.agent_id))
  append clk c.team_id task_requeued "task" (some t.task_id) (some c.agent_id)
      (("reason", Json.str "agent_left") ∷ [])

unfoldable pub requeue_held : Clock → Caller → List Task → Tx (List String)
requeue_held clk c [] = pure []
requeue_held clk c (t ∷ ts) = do
  requeue_one clk c t
  rest ← requeue_held clk c ts
  pure (t.task_id ∷ rest)

unfoldable pub left_row : ℕ → Agent → Agent
left_row now a = record a {
  status_summary = some "left";
  current_task_id = none;
  session_id = none;
  last_seen = now;
}

unfoldable pub leave_tx : Clock → Caller → Tx (List String)
unfolding held_by left_row append
leave_tx clk c = do
  held ← fetch (held_by c.team_id c.agent_id)
  requeued ← requeue_held clk c held
  execute (λ db. record db {
    agents = update (is_agent c.team_id c.agent_id) (left_row clk.now) db.agents;
  })
  append clk c.team_id agent_left "agent" (some c.agent_id) (some c.agent_id) []
  pure requeued

unfoldable pub del_leases : String → List String → Redis → Redis
del_leases team_id [] redis = redis
del_leases team_id (t ∷ ts) redis = del_leases team_id ts (del_lease team_id t redis)

unfoldable pub mirror_leave : Caller → List String → Redis → List String × Redis
unfolding del_leases
mirror_leave c requeued redis = (
  requeued,
  del_session c.session_id
      (del_heartbeat c.team_id c.agent_id (del_leases c.team_id requeued redis)),
)

abbrev pub unbind_left : String → Answer (List String) × Server → Answer (List String) × Server
unbind_left sid (replied r, s) = (replied r, unbind sid s)
unbind_left sid (raised e, s) = (raised e, s)

-- Answers the tasks that went back to the queue.
unfoldable pub leave_team : Clock → Caller → Server → Answer (List String) × Server
unfolding leave_tx mirror_leave unbind
leave_team clk c s = unbind_left c.session_id (serve (leave_tx clk c) (mirror_leave c) s)

-- `resolve_agent_ref`: WHERE agent_id=? OR display_name=? ORDER BY (agent_id=?) DESC LIMIT 1
unfoldable pub resolve_agent_ref : String → String → Db → Option String
resolve_agent_ref team_id ref db =
    elim (first_by (λ a b. a.agent_id == ref && not (b.agent_id == ref))
      (select (λ a. a.team_id == team_id && (a.agent_id == ref || a.display_name == ref))
        db.agents)) [ none ↦ none | some a ↦ some a.agent_id ]

-- One line of `list_agents`, with the presence that is derived at the time of the call.
pub record AgentLine : Type 0 where
  pub agent : Agent
  pub presence : Presence

unfoldable pub agent_line : Settings → ℕ → Redis → Agent → AgentLine
agent_line cfg now redis a = record {
  agent = a;
  presence = derive_presence cfg (get_heartbeat now a.team_id a.agent_id redis) a.last_seen now;
}
