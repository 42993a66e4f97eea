-- ===== src/Examples/Data.antt =====
-- A team with two workers, and three tasks of which one waits for another.
use atmcp.Base.{ℕ, String, true, false, none, some, List, [], ◌∷◌, ℤ, pos}
use atmcp.Schema.{Task, Agent, Caller, Clock, Settings, Event, agent_joined, Directive, pending}
use atmcp.Schema.{opened}
use atmcp.Db.{Db}
use atmcp.Tasks.Create.{NewTask}
use atmcp.Operations.{Op, create_task_op}
use atmcp.Server.{Server}

abbrev pub cfg : Settings
cfg = record {
  heartbeat_ttl_s = 45;
  presence_healthy_s = 20;
  presence_degraded_s = 60;
  lease_ttl_s = 90;
  task_max_attempts = 3;
  output_max_chunk = 8192;
}

abbrev pub at : ℕ → Clock
at n = record { now = n; event_ts = λ id. n; stored_at = n }

abbrev pub alice : Caller
alice = record { team_id = "core"; agent_id = "a1"; display_name = "alice"; session_id = "s1" }

abbrev pub bob : Caller
bob = record { team_id = "core"; agent_id = "a2"; display_name = "bob"; session_id = "s2" }

abbrev pub task_of : String → ℤ → ℕ → Task
task_of id priority created_at = record {
  team_id = "core";
  task_id = id;
  parent_id = none;
  goal_id = none;
  title = id;
  description = none;
  status = opened;
  priority = priority;
  weight = 2;
  assignee = none;
  fencing_token = 0;
  lease_ttl_s = none;
  lease_expires_at = none;
  progress_pct = 0;
  attempts = 0;
  max_attempts = 3;
  result_summary = none;
  created_at = created_at;
  updated_at = created_at;
  last_event_id = 0;
}

abbrev pub agent_of : Caller → Agent
agent_of c = record {
  team_id = c.team_id;
  agent_id = c.agent_id;
  display_name = c.display_name;
  capabilities_json = "[]";
  session_id = some c.session_id;
  joined_at = 1;
  last_seen = 1;
  status_summary = none;
  current_task_id = none;
  progress_pct = pos 0;
  retired = false;
}

-- "test" waits for "build"; "docs" is free.
abbrev pub board : List Task
board = task_of "build" (pos 1) 10 ∷ task_of "test" (pos 5) 11 ∷ task_of "docs" (pos 0) 12 ∷ []

abbrev pub db : Db
db = record {
  teams = [];
  agents = agent_of alice ∷ agent_of bob ∷ [];
  goals = [];
  tasks = board;
  task_deps = record { team_id = "core"; task_id = "test"; depends_on = "build" } ∷ [];
  task_claims = [];
  memory_current = [];
  memory_history = [];
  team_clock = [];
  sessions = [];
  directives = [];
  idempotency = [];
  events = [];
  last_event_id = 0;
  agent_output = [];
  last_output_id = 0;
  guard_rules = [];
  last_rule_id = 0;
  guard_events = [];
  last_guard_event_id = 0;
  guard_requests = [];
  last_request_id = 0;
  knowledge_objects = [];
  knowledge_contributions = [];
  knowledge_current = [];
  knowledge_fts = [];
  usage_events = [];
}

abbrev pub server : Server
server = record {
  db = db;
  gens = [];
  redis = record { up = true; leases = []; heartbeats = []; bindings = [] };
  bound = alice ∷ bob ∷ [];
}

abbrev pub joined : Event
joined = record {
  event_id = 1;
  team_id = "core";
  kind = agent_joined;
  entity_type = "agent";
  entity_id = some "a1";
  actor_agent = some "a1";
  payload = [];
  ts = 5;
}

-- The calls that fill the board of an empty server.
abbrev pub empty : Server
empty = record server { db = record db { tasks = []; task_deps = []; agents = [] } }

abbrev pub new_task : String → ℤ → List String → NewTask
new_task id priority deps = record {
  title = id;
  description = none;
  parent_id = none;
  goal_id = none;
  priority = priority;
  weight = pos 2;
  depends_on = deps;
  lease_ttl_s = none;
}

abbrev pub fill : List Op
fill =
    create_task_op (at 10) "build" alice (new_task "build" (pos 1) []) none
    ∷ create_task_op (at 11) "test" alice (new_task "test" (pos 5) ("build" ∷ [])) none
    ∷ create_task_op (at 12) "docs" alice (new_task "docs" (pos 0) []) none
    ∷ []

abbrev pub order : Directive
order = record {
  directive_id = "d1";
  team_id = "core";
  from_agent = "a1";
  to_agent = "a2";
  session_id = none;
  instruction = "run the tests";
  payload_json = "{}";
  status = pending;
  priority = pos 0;
  result_summary = none;
  result_output = none;
  created_at = 20;
  updated_at = 20;
  last_event_id = 1;
}
