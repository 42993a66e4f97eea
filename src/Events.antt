-- ===== src/Events.antt =====
-- events.py: append to the events log inside a transaction, and queue the event for publication.
pub mod Log
use atmcp.Base.{ℕ, ◌+◌, String, Option, none, some, List, ◌∷◌, [], ◌++◌}
use atmcp.Base.Table.{insert}
use atmcp.Schema.{Event, EventKind, Json, Clock}
use atmcp.Db.{Db, Tx, done}

-- A payload value that may be None.
abbrev pub opt_str : Option String → Json
opt_str none = Json.null
opt_str (some s) = Json.str s

abbrev pub opt_num : Option ℕ → Json
opt_num none = Json.null
opt_num (some n) = Json.num n

-- The row of `append`, under the next value of the AUTOINCREMENT counter.
unfoldable pub new_event :
    Clock
    → String
    → EventKind
    → String
    → Option String
    → Option String
    → List (String × Json)
    → ℕ
    → Event
new_event clk team_id kind entity_type entity_id actor_agent payload id = record {
  event_id = id;
  team_id = team_id;
  kind = kind;
  entity_type = entity_type;
  entity_id = entity_id;
  actor_agent = actor_agent;
  payload = payload;
  ts = clk.event_ts id;
}

log_event : Event → Db → Db
log_event e db = record db { events = insert e db.events; last_event_id = e.event_id }

unfoldable pub append :
    Clock
    → String
    → EventKind
    → String
    → Option String
    → Option String
    → List (String × Json)
    → Tx ℕ
unfolding new_event log_event
append clk team_id kind entity_type entity_id actor_agent payload t =
    let id = t.db.last_event_id + 1 in
    let e = new_event clk team_id kind entity_type entity_id actor_agent payload id in
    done id (record t { db = log_event e t.db; queue = t.queue ++ e ∷ [] })
