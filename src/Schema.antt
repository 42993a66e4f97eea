-- ===== src/Schema.antt =====
-- schema.sql, session.py's `Caller` and config.py: the rows of the durable tables, the database,
-- and what an operation takes from its surroundings. Identifiers and texts are `String`; times are
-- milliseconds; a payload or a JSON document that the server only stores and returns is its text.
use atmcp.Base.{ℕ, String, Bool, Option, List, ℤ}

-- The statuses of a task; `opened` is 'open'. No operation of the server writes `cancelled`.
pub data TaskStatus : Type 0 where
  opened claimed in_progress blocked done failed cancelled : TaskStatus

pub record Task : Type 0 where
  pub team_id : String
  pub task_id : String
  pub parent_id : Option String
  pub goal_id : Option String
  pub title : String
  pub description : Option String
  pub status : TaskStatus
  pub priority : ℤ
  pub weight : ℕ
  pub assignee : Option String
  pub fencing_token : ℕ
  pub lease_ttl_s : Option ℕ
  pub lease_expires_at : Option ℕ
  pub progress_pct : ℕ
  pub attempts : ℕ
  pub max_attempts : ℕ
  pub result_summary : Option String
  pub created_at : ℕ
  pub updated_at : ℕ
  pub last_event_id : ℕ

pub record TaskDep : Type 0 where
  pub team_id : String
  pub task_id : String
  pub depends_on : String

pub data Outcome : Type 0 where
  done failed expired released : Outcome

pub record TaskClaim : Type 0 where
  pub team_id : String
  pub task_id : String
  pub agent_id : String
  pub fencing_token : ℕ
  pub claimed_at : ℕ
  pub released_at : Option ℕ
  pub outcome : Option Outcome

pub record Goal : Type 0 where
  pub team_id : String
  pub goal_id : String
  pub title : String
  pub description : Option String
  pub created_at : ℕ

pub record Team : Type 0 where
  pub team_id : String
  pub name : String
  pub join_token_hash : String
  pub dashboard_token_hash : Option String
  pub created_at : ℕ

pub record Agent : Type 0 where
  pub team_id : String
  pub agent_id : String
  pub display_name : String
  pub capabilities_json : String
  pub session_id : Option String
  pub joined_at : ℕ
  pub last_seen : ℕ
  pub status_summary : Option String
  pub current_task_id : Option String
  pub progress_pct : ℤ
  pub retired : Bool

-- `value_json` is the canonical JSON of the value.
pub record Memory : Type 0 where
  pub team_id : String
  pub mem_key : String
  pub value_json : String
  pub lclock : ℕ
  pub writer_agent : String
  pub updated_at : ℕ
  pub version : ℕ
  pub last_event_id : ℕ

pub record MemoryHistory : Type 0 where
  pub team_id : String
  pub mem_key : String
  pub value_json : String
  pub lclock : ℕ
  pub writer_agent : String
  pub version : ℕ
  pub ts : ℕ

pub record TeamClock : Type 0 where
  pub team_id : String
  pub lclock : ℕ

pub data SessionStatus : Type 0 where
  active archived : SessionStatus

pub record Session : Type 0 where
  pub session_id : String
  pub team_id : String
  pub agent_id : String
  pub title : String
  pub driver : Option String
  pub cli_session_id : Option String
  pub worktree : Option String
  pub messages_json : Option String
  pub status : SessionStatus
  pub created_at : ℕ
  pub updated_at : ℕ
  pub last_event_id : ℕ

pub data DirectiveStatus : Type 0 where
  pending running done failed canceled : DirectiveStatus

pub record Directive : Type 0 where
  pub directive_id : String
  pub team_id : String
  pub from_agent : String
  pub to_agent : String
  pub session_id : Option String
  pub instruction : String
  pub payload_json : String
  pub status : DirectiveStatus
  pub priority : ℤ
  pub result_summary : Option String
  pub result_output : Option String
  pub created_at : ℕ
  pub updated_at : ℕ
  pub last_event_id : ℕ

-- `id` is the cursor of the readers.
pub record Output : Type 0 where
  pub id : ℕ
  pub team_id : String
  pub agent_id : String
  pub session_id : Option String
  pub directive_id : Option String
  pub source : String
  pub text : String
  pub ts : ℕ

-- `kind`, `pattern_type` and `status` of the guard's tables.
pub data Decision : Type 0 where
  allow deny ask : Decision

pub data PatternType : Type 0 where
  substring regex : PatternType

pub record GuardRule : Type 0 where
  pub id : ℕ
  pub team_id : String
  pub kind : Decision
  pub pattern : String
  pub pattern_type : PatternType
  pub reason : Option String
  pub enabled : Bool
  pub created_at : ℕ

pub record GuardEvent : Type 0 where
  pub id : ℕ
  pub team_id : String
  pub agent_id : Option String
  pub session_id : Option String
  pub tool : Option String
  pub command : String
  pub decision : Decision
  pub reason : Option String
  pub rule : Option String
  pub ts : ℕ

pub data RequestStatus : Type 0 where
  pending allowed denied : RequestStatus

pub record GuardRequest : Type 0 where
  pub id : ℕ
  pub team_id : String
  pub agent_id : Option String
  pub session_id : Option String
  pub tool : Option String
  pub command : String
  pub status : RequestStatus
  pub reason : Option String
  pub resolved_by : Option String
  pub created_at : ℕ
  pub resolved_at : Option ℕ

pub record KnowledgeObject : Type 0 where
  pub content_id : String
  pub title : String
  pub body : String
  pub tags : List String
  pub byte_size : ℕ

pub record Contribution : Type 0 where
  pub team_id : String
  pub content_id : String
  pub author_agent : String
  pub task_id : Option String
  pub created_at : ℕ
  pub event_id : ℕ

-- `tags` is the list that `tags_json` encodes.
pub record Knowledge : Type 0 where
  pub team_id : String
  pub content_id : String
  pub title : String
  pub body : String
  pub tags : List String
  pub first_author : String
  pub contributor_count : ℕ
  pub present : Bool
  pub first_seen_at : ℕ
  pub last_seen_at : ℕ
  pub last_event_id : ℕ

-- A row of the full-text index; `tags` are the words that `" ".join` puts together.
pub record KnowledgeText : Type 0 where
  pub team_id : String
  pub content_id : String
  pub title : String
  pub body : String
  pub tags : List String

-- Who calls, as `resolve` found it.
pub record Caller : Type 0 where
  pub team_id : String
  pub agent_id : String
  pub display_name : String
  pub session_id : String

pub record Settings : Type 0 where
  pub heartbeat_ttl_s : ℕ
  pub presence_healthy_s : ℕ
  pub presence_degraded_s : ℕ
  pub lease_ttl_s : ℕ
  pub task_max_attempts : ℕ
  pub output_max_chunk : ℕ

-- The readings of `now_ms()` that one operation makes: its own, the one of each event that it
-- appends (by event id), and the one of the idempotency row that it stores.
pub record Clock : Type 0 where
  pub now : ℕ
  pub event_ts : ℕ → ℕ
  pub stored_at : ℕ

-- events.py: the kinds of events, and the values that a payload holds.
pub data EventKind : Type 0 where
  agent_joined agent_left : EventKind
  knowledge_added knowledge_retracted memory_set goal_created : EventKind
  task_created task_claimed task_progress task_completed task_failed : EventKind
  task_requeued task_released : EventKind
  directive_sent directive_claimed directive_done directive_failed directive_canceled : EventKind
  usage_reported session_created session_updated session_archived : EventKind
  guard_blocked guard_ask guard_resolved : EventKind

pub data Json : Type 0 where
  null : Json
  bool : Bool → Json
  num : ℕ → Json
  int : ℤ → Json
  str : String → Json
  strs : List String → Json
  -- a float, by its `repr`
  float : String → Json

pub record Event : Type 0 where
  pub event_id : ℕ
  pub team_id : String
  pub kind : EventKind
  pub entity_type : String
  pub entity_id : Option String
  pub actor_agent : Option String
  pub payload : List (String × Json)
  pub ts : ℕ

-- usage_events; the `id`, which nothing reads, is left out, and the cost is the `repr` of a float.
pub record UsageEvent : Type 0 where
  pub team_id : String
  pub agent_id : String
  pub directive_id : Option String
  pub model : Option String
  pub input_tokens : ℕ
  pub output_tokens : ℕ
  pub cache_read : ℕ
  pub cache_creation : ℕ
  pub cost_usd : String
  pub num_turns : ℕ
  pub duration_ms : ℕ
  pub ts : ℕ
