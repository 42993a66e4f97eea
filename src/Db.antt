-- ===== src/Db.antt =====
-- db.py: the durable database, the write transaction and the publication after COMMIT.
--
-- `Tx A` is the body of `async with db.transaction() as tx`: it reads and writes the tables and
-- queues the events that it appends. A body that raises is rolled back. One lock serializes the
-- transactions, so each runs on the database that the one before it left.
pub mod Keeps
pub mod Isolation
use atmcp.Base.{ℕ, String, Bool, List, [], if◌then◌else◌}
use atmcp.Schema.{
  Task, TaskDep, TaskClaim, Goal, Team, Agent, Memory, MemoryHistory, TeamClock, Session, Directive,
  Event, Output, GuardRule, GuardEvent, GuardRequest, KnowledgeObject, Contribution, Knowledge,
  KnowledgeText, UsageEvent,
}
use atmcp.Wire.{Reply}
use atmcp.Hub.{Gen, dispatch}

-- A row of the idempotency table; `result_json` is the answer that it encodes.
pub record Idem : Type 0 where
  pub team_id : String
  pub agent_id : String
  pub idem_key : String
  pub result : Reply
  pub created_at : ℕ

-- The fields `last_…_id` are the AUTOINCREMENT counters of the tables of events and output and of
-- those of the guard.
pub record Db : Type 0 where
  pub teams : List Team
  pub agents : List Agent
  pub goals : List Goal
  pub tasks : List Task
  pub task_deps : List TaskDep
  pub task_claims : List TaskClaim
  pub memory_current : List Memory
  pub memory_history : List MemoryHistory
  pub team_clock : List TeamClock
  pub sessions : List Session
  pub directives : List Directive
  pub idempotency : List Idem
  pub events : List Event
  pub last_event_id : ℕ
  pub agent_output : List Output
  pub last_output_id : ℕ
  pub guard_rules : List GuardRule
  pub last_rule_id : ℕ
  pub guard_events : List GuardEvent
  pub last_guard_event_id : ℕ
  pub guard_requests : List GuardRequest
  pub last_request_id : ℕ
  pub knowledge_objects : List KnowledgeObject
  pub knowledge_contributions : List Contribution
  pub knowledge_current : List Knowledge
  pub knowledge_fts : List KnowledgeText
  pub usage_events : List UsageEvent

-- What an operation may raise: a violated constraint, a value that is None where it may not be, and
-- the exceptions of identity.py and session.py.
pub data Exn : Type 0 where
  integrity_error type_error overflow_error : Exn
  team_exists unknown_team bad_token display_name_taken not_joined : Exn

-- `class Tx`: the connection, and the events queued for publication.
pub record TxState : Type 0 where
  pub db : Db
  pub queue : List Event

pub data Tried (A : Type 0) : Type 0 where
  done : A → TxState → Tried A
  raised : Exn → Tried A

abbrev pub Tx : Type 0 → Type 0
Tx A = TxState → Tried A

abbrev pub pure : {A : Type 0} → A → Tx A
pure a t = done a t

abbrev pub raise : {A : Type 0} → Exn → Tx A
raise e t = raised e

infixl 5 ◌>>=◌ ◌>>◌
abbrev pub ◌>>=◌ : {A B : Type 0} → Tx A → (A → Tx B) → Tx B
◌>>=◌ m f t = elim (m t) [ done a t' ↦ f a t' | raised e ↦ raised e ]

abbrev pub ◌>>◌ : {A B : Type 0} → Tx A → Tx B → Tx B
m >> k = m >>= λ _. k

-- `tx.fetchone`, `tx.fetchall`, `tx.fetchval`
abbrev pub fetch : {A : Type 0} → (Db → A) → Tx A
fetch f t = done (f t.db) t

-- `tx.execute` of an INSERT, UPDATE or DELETE
abbrev pub execute : (Db → Db) → Tx (Unit {0})
execute f t = done tt (record t { db = f t.db })

-- An INSERT into a table whose primary key the row may not repeat.
abbrev pub execute_unique : (Db → Bool) → (Db → Db) → Tx (Unit {0})
execute_unique taken f t =
    if taken t.db then raised integrity_error else done tt (record t { db = f t.db })

-- How a transaction ended. `returned` is a `return` inside the block, `result` a value with which
-- the function goes on after the COMMIT.
pub data Turn : Type 0 where
  returned : Reply → Turn
  result : Reply → Turn

abbrev pub reply_of : Turn → Reply
reply_of (returned r) = r
reply_of (result r) = r

-- `transaction()`: COMMIT and publish, or ROLLBACK and raise.
pub data Committed (A : Type 0) : Type 0 where
  committed : A → Db → List Gen → Committed A
  rolled_back : Exn → Committed A

abbrev pub commit : {A : Type 0} → List Gen → Tried A → Committed A
commit gens (done a t) = committed a t.db (dispatch t.queue gens)
commit gens (raised e) = rolled_back e

unfoldable pub transaction : {A : Type 0} → Tx A → Db → List Gen → Committed A
transaction body db gens = commit gens (body (record { db = db; queue = [] }))
