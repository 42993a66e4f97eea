-- ===== src/Output.antt =====
-- services/output.py: the output of the agents, appended in chunks and read from a cursor.
pub mod Tails
pub mod Isolation
use atmcp.Base.{
  ℕ, zero, suc, ◌+◌, ◌-◌, String, Bool, true, false, not, ◌&&◌, Option, none, some, List, [], ◌∷◌,
  ◌==◌, ltb, max, coalesce, take, if◌then◌else◌, prefix, ℤ,
}
use atmcp.Base.Table.{select, exists_row, insert, delete, row_count}
use atmcp.Schema.{Output, Directive, Session, Settings, Clock}
use atmcp.Db.{Db, Exn, Tx, pure, fetch, execute, ◌>>=◌, ◌>>◌, done, raised}
use atmcp.Hub.{tick, current_gen, wait_for_change}
use atmcp.Server.{Server, Answer, replied, raised, serve}
use atmcp.Tasks.Board.{page_size}
use atmcp.Directives.Inbox.{Waiting, waits}

-- The tag of a directive is kept if it is one of the team.
unfoldable pub directive_tag : String → Option String → Db → Option String
directive_tag team_id none db = none
directive_tag team_id (some id) db =
    if exists_row (λ d. d.team_id == team_id && d.directive_id == id) db.directives
    then some id
    else none

-- The tag of a session is kept if it is one of the team and of the writing agent.
unfoldable pub session_tag : String → String → Option String → Db → Option String
session_tag team_id agent_id none db = none
session_tag team_id agent_id (some id) db =
    if exists_row (λ x. (x.team_id == team_id && x.session_id == id) && x.agent_id == agent_id)
      db.sessions
    then some id
    else none

-- The arguments of `append_output` after the agent.
pub record Chunk : Type 0 where
  pub text : Option String
  pub directive_id : Option String
  pub source : String
  pub session_id : Option String

-- (text or "")[: settings.output_max_chunk]
abbrev pub cut_text : Settings → Option String → String
cut_text cfg text = prefix cfg.output_max_chunk (coalesce text "")

unfoldable pub output_row :
    Settings → Clock → String → String → Chunk → Option String → Option String → ℕ → Output
output_row cfg clk team_id agent_id ch session_id directive_id id = record {
  id = id;
  team_id = team_id;
  agent_id = agent_id;
  session_id = session_id;
  directive_id = directive_id;
  source = ch.source;
  text = cut_text cfg ch.text;
  ts = clk.now;
}

unfoldable pub output_tx : Settings → Clock → String → String → Chunk → Tx ℕ
unfolding directive_tag session_tag output_row
output_tx cfg clk team_id agent_id ch = do
  directive_id ← fetch (directive_tag team_id ch.directive_id)
  session_id ← fetch (session_tag team_id agent_id ch.session_id)
  execute (λ db. record db {
    agent_output =
        insert
          (output_row cfg clk team_id agent_id ch session_id directive_id (db.last_output_id + 1))
          db.agent_output;
    last_output_id = db.last_output_id + 1;
  })
  fetch (λ db. db.last_output_id)

-- `hub.tick` after the COMMIT.
abbrev pub tick_after : String → Answer ℕ × Server → Answer ℕ × Server
tick_after team_id (replied seq, s) = (replied seq, record s { gens = tick team_id s.gens })
tick_after team_id (raised e, s) = (raised e, s)

unfoldable pub append_output :
    Settings → Clock → String → String → Chunk → Server → Answer ℕ × Server
unfolding output_tx
append_output cfg clk team_id agent_id ch s =
    tick_after team_id (serve (output_tx cfg clk team_id agent_id ch) (λ seq redis. (seq, redis)) s)

-- WHERE team_id=? AND agent_id=? AND id>? ORDER BY id ASC: the order of insertion.
abbrev pub after_cursor : String → String → ℕ → Output → Bool
after_cursor team_id agent_id since o =
    (o.team_id == team_id && o.agent_id == agent_id) && ltb since o.id

unfoldable pub read_output : String → String → ℕ → ℤ → Db → List Output
read_output team_id agent_id since limit db =
    take (page_size 200 500 limit) (select (after_cursor team_id agent_id since) db.agent_output)

-- COALESCE(MAX(id),0)
abbrev pub max_id : List Output → ℕ
max_id [] = 0
max_id (o ∷ os) = max o.id (max_id os)

pub record Tail : Type 0 where
  pub chunks : List Output
  pub head_seq : ℕ

abbrev pub read_again : Bool → List Output → List Output → List Output
read_again woken [] again = if woken then again else []
read_again woken (o ∷ os) again = o ∷ os

-- The head is read last, with the chunks of the second read or after the wait.
unfoldable pub get_output : String → String → ℕ → ℤ → ℤ → Waiting → Server → Tail
unfolding read_output
get_output team_id agent_id since wait_ms limit w s = record {
  chunks =
      read_again
        (waits wait_ms && wait_for_change team_id (current_gen team_id s.gens) w.ahead w.later)
        (read_output team_id agent_id since limit s.db)
        (read_output team_id agent_id since limit w.db);
  head_seq =
      max_id (select (λ o. o.team_id == team_id && o.agent_id == agent_id) w.db.agent_output);
}

unfoldable pub prune_output : ℕ → ℕ → Db → ℕ × Db
prune_output now retention_ms db = (
  row_count (λ o. ltb o.ts (now - retention_ms)) db.agent_output,
  record db { agent_output = delete (λ o. ltb o.ts (now - retention_ms)) db.agent_output },
)
