-- ===== src/Memory.antt =====
-- services/memory.py and services/clock.py: the shared memory of a team, one register per key with
-- a version, ordered by the team's logical clock. `canonical_json` and `json.loads` are inverse on
-- stored values, so a value is its canonical text.
pub mod Versions
use atmcp.Base.{
  is_before, ℕ, suc, ◌+◌, String, Bool, true, false, not, ◌&&◌, Option, none, some, List, [], ◌∷◌,
  ◌==◌, eqb, if◌then◌else◌,
}
use atmcp.Base.Table.{fetch_one, select, update, insert, order_by}
use atmcp.Schema.{Memory, MemoryHistory, TeamClock, Caller, Clock, memory_set, num}
use atmcp.Wire.{Reply, conflict}
use atmcp.Db.{Db, Tx, Turn, result, pure, fetch, execute, ◌>>=◌, ◌>>◌, done, raised}
use atmcp.Events.{append}
use atmcp.Idempotency.{idempotent}
use atmcp.Server.{Server, Answer, serve, no_redis}

abbrev pub is_clock : String → TeamClock → Bool
is_clock team_id r = r.team_id == team_id

abbrev pub is_memory : String → String → Memory → Bool
is_memory team_id key m = m.team_id == team_id && m.mem_key == key

abbrev pub find_memory : String → String → Db → Option Memory
find_memory team_id key db = fetch_one (is_memory team_id key) db.memory_current

-- The clock of a team; a team without a row stands at 0.
abbrev pub team_lclock : String → Db → ℕ
team_lclock team_id db = elim (fetch_one (is_clock team_id) db.team_clock) [
  | none ↦ 0
  | some r ↦ r.lclock
]

-- INSERT … ON CONFLICT(team_id) DO UPDATE SET lclock = lclock + 1
unfoldable pub bump_row : String → Option TeamClock → List TeamClock → List TeamClock
bump_row team_id none rows = insert (record { team_id = team_id; lclock = 1 }) rows
bump_row team_id (some r) rows =
    update (is_clock team_id) (λ x. record x { lclock = x.lclock + 1 }) rows

-- `clock.bump`, with its RETURNING.
unfoldable pub bump : String → Tx ℕ
unfolding bump_row
bump team_id = do
  execute (λ db. record db {
    team_clock = bump_row team_id (fetch_one (is_clock team_id) db.team_clock) db.team_clock;
  })
  fetch (team_lclock team_id)

-- cur["version"] if cur is not None else 0
abbrev pub version_of : Option Memory → ℕ
version_of none = 0
version_of (some m) = m.version

-- `expected_version is not None and int(expected_version) != cur_version`
abbrev pub is_conflict : Option ℕ → ℕ → Bool
is_conflict none cur_version = false
is_conflict (some n) cur_version = not (eqb n cur_version)

unfoldable pub conflict_reply : String → Option Memory → Reply
conflict_reply key none = conflict key none 0 none
conflict_reply key (some m) = conflict key (some m.value_json) m.version (some m.writer_agent)

unfoldable pub memory_row : Clock → Caller → String → String → ℕ → ℕ → ℕ → Memory
memory_row clk c key value_json lclock version eid = record {
  team_id = c.team_id;
  mem_key = key;
  value_json = value_json;
  lclock = lclock;
  writer_agent = c.agent_id;
  updated_at = clk.now;
  version = version;
  last_event_id = eid;
}

unfoldable pub memory_update : Clock → Caller → String → ℕ → ℕ → ℕ → Memory → Memory
memory_update clk c value_json lclock version eid m = record m {
  value_json = value_json;
  lclock = lclock;
  writer_agent = c.agent_id;
  updated_at = clk.now;
  version = version;
  last_event_id = eid;
}

-- The INSERT for a new key, the UPDATE for one that is there.
unfoldable pub write_current :
    Clock → Caller → String → String → ℕ → ℕ → ℕ → Option Memory → List Memory → List Memory
unfolding memory_row memory_update
write_current clk c key value_json lclock version eid none rows =
    insert (memory_row clk c key value_json lclock version eid) rows
write_current clk c key value_json lclock version eid (some m) rows =
    update (is_memory c.team_id key) (memory_update clk c value_json lclock version eid) rows

unfoldable pub history_row : Clock → Caller → String → String → ℕ → ℕ → MemoryHistory
history_row clk c key value_json lclock version = record {
  team_id = c.team_id;
  mem_key = key;
  value_json = value_json;
  lclock = lclock;
  writer_agent = c.agent_id;
  version = version;
  ts = clk.now;
}

-- Past the test of the version, under the clock that `bump` returned.
unfoldable pub write_at : Clock → Caller → String → String → Option Memory → ℕ → Tx Turn
unfolding write_current history_row append
write_at clk c key value_json cur lclock = do
  let new_version = version_of cur + 1
  eid ←
      append clk c.team_id memory_set "memory" (some key) (some c.agent_id)
        (("version", num new_version) ∷ ("lclock", num lclock) ∷ [])
  execute (λ db. record db {
    memory_current =
        write_current clk c key value_json lclock new_version eid cur db.memory_current;
  })
  execute (λ db. record db {
    memory_history = insert (history_row clk c key value_json lclock new_version) db.memory_history;
  })
  pure (result (Reply.memory_set key new_version lclock))

unfoldable pub write_memory : Clock → Caller → String → String → Option Memory → Tx Turn
unfolding bump
write_memory clk c key value_json cur = do
  lclock ← bump c.team_id
  write_at clk c key value_json cur lclock

unfoldable pub set_row : Clock → Caller → String → String → Option ℕ → Option Memory → Tx Turn
unfolding conflict_reply
set_row clk c key value_json expected_version cur =
    if is_conflict expected_version (version_of cur)
    then pure (result (conflict_reply key cur))
    else write_memory clk c key value_json cur

unfoldable pub set_tx : Clock → Caller → String → String → Option ℕ → Tx Turn
set_tx clk c key value_json expected_version = do
  cur ← fetch (find_memory c.team_id key)
  set_row clk c key value_json expected_version cur

-- A conflict is stored under the key as an answer is.
unfoldable pub set_memory :
    Clock → Caller → String → String → Option ℕ → Option String → Server → Answer Reply × Server
set_memory clk c key value_json expected_version idem_key =
    serve (idempotent clk c idem_key (set_tx clk c key value_json expected_version)) no_redis

-- `get_memory` of one key: its row, if it is found.
unfoldable pub get_memory : Caller → String → Db → Option Memory
get_memory c key db = find_memory c.team_id key db

-- `get_memory` without a key: all keys of the team, by name.
unfoldable pub list_memory : Caller → Db → List Memory
list_memory c db =
    order_by (λ a b. is_before a.mem_key b.mem_key)
      (select (λ m. m.team_id == c.team_id) db.memory_current)
