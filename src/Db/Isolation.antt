-- ===== src/Db/Isolation.antt =====
-- The rows of one team in every table that has a column `team_id`, with the tables of the teams and of
-- the knowledge objects, which belong to no team, and what the statements of another team leave of them.
use atmcp.Base.{String, ◌==◌, ◌≡◌, ap, ◌∙◌, Bool, true, false, Option, List, eq_refl, eq_iff}
use atmcp.Base.Table.{select, update, insert, delete}
use atmcp.Base.Table.Laws.{select-update, select-insert, select-delete}
use atmcp.Schema.{
  Task, TaskDep, TaskClaim, Goal, Team, Agent, Memory, MemoryHistory, TeamClock, Session, Directive,
  Event, Output, GuardRule, GuardEvent, GuardRequest, KnowledgeObject, Contribution, Knowledge,
  KnowledgeText, UsageEvent, Clock, EventKind, Json,
}
use atmcp.Db.{Db, Idem, TxState}
use atmcp.Db.Keeps.{After}
use atmcp.Events.{append}

-- WHERE team_id=?
abbrev pub own_rows {ℓ} : {R : Type ℓ} → (R → String) → String → List R → List R
own_rows team_of team = select (λ r. team_of r == team)

pub record Rows : Type 0 where
  pub teams : List Team
  pub agents : List Agent
  pub goals : List Goal
  pub tasks : List Task
  pub task_deps : List TaskDep
  pub task_claims : List TaskClaim
  pub memory_current : List Memory
  pub memory_history : List MemoryHistory
  pub team_clock : List TeamClock
  pub sessions : List Session
  pub directives : List Directive
  pub idempotency : List Idem
  pub events : List Event
  pub agent_output : List Output
  pub guard_rules : List GuardRule
  pub guard_events : List GuardEvent
  pub guard_requests : List GuardRequest
  pub knowledge_objects : List KnowledgeObject
  pub knowledge_contributions : List Contribution
  pub knowledge_current : List Knowledge
  pub knowledge_fts : List KnowledgeText
  pub usage_events : List UsageEvent

abbrev pub rows_of : String → Db → Rows
rows_of team db = record {
  teams = db.teams;
  agents = own_rows (λ r. r.team_id) team db.agents;
  goals = own_rows (λ r. r.team_id) team db.goals;
  tasks = own_rows (λ r. r.team_id) team db.tasks;
  task_deps = own_rows (λ r. r.team_id) team db.task_deps;
  task_claims = own_rows (λ r. r.team_id) team db.task_claims;
  memory_current = own_rows (λ r. r.team_id) team db.memory_current;
  memory_history = own_rows (λ r. r.team_id) team db.memory_history;
  team_clock = own_rows (λ r. r.team_id) team db.team_clock;
  sessions = own_rows (λ r. r.team_id) team db.sessions;
  directives = own_rows (λ r. r.team_id) team db.directives;
  idempotency = own_rows (λ r. r.team_id) team db.idempotency;
  events = own_rows (λ r. r.team_id) team db.events;
  agent_output = own_rows (λ r. r.team_id) team db.agent_output;
  guard_rules = own_rows (λ r. r.team_id) team db.guard_rules;
  guard_events = own_rows (λ r. r.team_id) team db.guard_events;
  guard_requests = own_rows (λ r. r.team_id) team db.guard_requests;
  knowledge_objects = db.knowledge_objects;
  knowledge_contributions = own_rows (λ r. r.team_id) team db.knowledge_contributions;
  knowledge_current = own_rows (λ r. r.team_id) team db.knowledge_current;
  knowledge_fts = own_rows (λ r. r.team_id) team db.knowledge_fts;
  usage_events = own_rows (λ r. r.team_id) team db.usage_events;
}

-- The rows of the team are those of `f`.
abbrev pub Untouched : String → Rows → Db → Type 0
Untouched team f db = rows_of team db ≡ f

-- Statements whose rows are all of one team, and the rows of another.
module _ {ℓ} {R : Type ℓ} (team_of : R → String) (other team : String)
    (out : (team == other) ≡ false) where
  apart : (r : R) → (team_of r == team) ≡ true → (team_of r == other) ≡ false
  apart r e = rw ((eq_iff (team_of r) team).0 e) out

  pub own_rows-update :
      (q : R → Bool) (g : R → R)
      → ((r : R) → q r ≡ true → (team_of r == team) ≡ true)
      → ((r : R) → team_of (g r) ≡ team_of r)
      → (rs : List R) → own_rows team_of other (update q g rs) ≡ own_rows team_of other rs
  own_rows-update q g own same =
      select-update (λ r. team_of r == other) q g (λ r e. apart r (own r e))
        (λ r e. rw (same r) (apart r (own r e)))

  pub own_rows-insert :
      (r : R) (rs : List R)
      → (team_of r == team) ≡ true
      → own_rows team_of other (insert r rs) ≡ own_rows team_of other rs
  own_rows-insert r rs own = select-insert (λ x. team_of x == other) r rs (apart r own)

  pub own_rows-delete :
      (q : R → Bool)
      → ((r : R) → q r ≡ true → (team_of r == team) ≡ true)
      → (rs : List R) → own_rows team_of other (delete q rs) ≡ own_rows team_of other rs
  own_rows-delete q own = select-delete (λ r. team_of r == other) q (λ r e. apart r (own r e))

module _ (other team : String) (out : (team == other) ≡ false) (f : Rows) where
  pub append-Untouched :
      (clk : Clock) (kind : EventKind) (entity_type : String) (id actor : Option String)
      (payload : List (String × Json)) (t : TxState)
      → Untouched other f t.db
      → After (Untouched other f) (append clk team kind entity_type id actor payload t)
  unfolding append
  append-Untouched clk kind entity_type id actor payload t h =
      ap (λ l. record (rows_of other t.db) { events = l })
        (own_rows-insert (λ r. r.team_id) other team out _ t.db.events (eq_refl team))
      ∙ h
