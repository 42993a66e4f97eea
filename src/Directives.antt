-- ===== src/Directives.antt =====
-- services/directives.py: commands from one agent of a team to another, and their life from pending
-- to done, failed or canceled. `payload_json` is the JSON of the payload; `headline` stands for the
-- first 200 characters of the instruction, which only the event shows.
pub mod Finish
pub mod Inbox
pub mod Isolation
pub mod Life
pub mod Moves
pub mod Claims
pub mod Runs
use atmcp.Base.{
  ℕ, zero, suc, ◌+◌, String, Bool, true, false, not, ◌&&◌, ◌||◌, Option, none, some, List, [], ◌∷◌,
  ◌==◌, eqb, ltb, is_some, ltb_ℤ, ℤ, pos, to_ℕ, take, min, max, if◌then◌else◌,
}
use atmcp.Base.Table.{fetch_one, select, exists_row, update, insert, row_count, order_by}
use atmcp.Schema.{
  Directive, DirectiveStatus, pending, running, canceled, Session, Caller, Clock, Event, EventKind,
  directive_sent, directive_claimed, directive_done, directive_failed, directive_canceled, Json,
  str,
}
use atmcp.Wire.{
  Reply, unknown_agent, unknown_directive, not_yours, not_pending, directive_race_lost, bad_status,
  already_final, directive_reported,
}
use atmcp.Db.{
  Db, Tx, Turn, returned, result, pure, raise, fetch, execute, execute_unique, ◌>>=◌, ◌>>◌, done,
  raised,
}
use atmcp.Events.{append, opt_str}
use atmcp.Hub.{Gen, wait_for_change, current_gen}
use atmcp.Idempotency.{idempotent}
use atmcp.Server.{Server, Answer, replied, serve, no_redis}
use atmcp.Identity.{resolve_agent_ref}
use atmcp.Tasks.Board.{page_size}

-- status in _TERMINAL
abbrev pub is_terminal : DirectiveStatus → Bool
is_terminal DirectiveStatus.done = true
is_terminal DirectiveStatus.failed = true
is_terminal canceled = true
is_terminal _ = false

abbrev pub is_pending : DirectiveStatus → Bool
is_pending pending = true
is_pending _ = false

abbrev pub is_running : DirectiveStatus → Bool
is_running running = true
is_running _ = false

abbrev pub is_directive : String → String → Directive → Bool
is_directive team_id id d = d.team_id == team_id && d.directive_id == id

abbrev pub find_directive : String → String → Db → Option Directive
find_directive team_id id db = fetch_one (is_directive team_id id) db.directives

abbrev pub is_session : String → String → Session → Bool
is_session team_id session_id x = x.team_id == team_id && x.session_id == session_id

-- A session is honoured if it is one of the team and of the target agent.
unfoldable pub honour_session : String → String → Option String → Db → Option String
honour_session team_id target none db = none
honour_session team_id target (some id) db =
    if exists_row (λ x. is_session team_id id x && x.agent_id == target) db.sessions
    then some id
    else none

-- UPDATE sessions SET updated_at=?, if the directive has a session
unfoldable pub touch_session : ℕ → String → Option String → Db → Db
touch_session now team_id none db = db
touch_session now team_id (some id) db = record db {
  sessions = update (is_session team_id id) (λ x. record x { updated_at = now }) db.sessions;
}

-- UPDATE directives SET … WHERE team_id=? AND directive_id=?
unfoldable pub set_directive : String → String → (Directive → Directive) → Db → Db
set_directive team_id id f db = record db {
  directives = update (is_directive team_id id) f db.directives;
}

abbrev pub stamp : ℕ → Directive → Directive
stamp eid d = record d { last_event_id = eid }

-- The arguments of `send_directive` after the target.
pub record Command : Type 0 where
  pub instruction : String
  pub headline : String
  pub payload_json : String
  pub priority : ℤ
  pub session_id : Option String

unfoldable pub directive_row : ℕ → Caller → String → String → Option String → Command → Directive
directive_row now c id target session_id cmd = record {
  directive_id = id;
  team_id = c.team_id;
  from_agent = c.agent_id;
  to_agent = target;
  session_id = session_id;
  instruction = cmd.instruction;
  payload_json = cmd.payload_json;
  status = pending;
  priority = cmd.priority;
  result_summary = none;
  result_output = none;
  created_at = now;
  updated_at = now;
  last_event_id = 0;
}

unfoldable pub send_tx : Clock → Caller → String → String → Command → Tx Turn
unfolding honour_session touch_session set_directive directive_row append
send_tx clk c id target cmd = do
  session_id ← fetch (honour_session c.team_id target cmd.session_id)
  execute_unique (λ db. exists_row (λ d. d.directive_id == id) db.directives)
      (λ db. record db {
        directives = insert (directive_row clk.now c id target session_id cmd) db.directives;
      })
  execute (touch_session clk.now c.team_id session_id)
  eid ← append clk c.team_id directive_sent "directive" (some id) (some c.agent_id) (
      ("to_agent", str target)
      ∷ ("instruction", str cmd.headline)
      ∷ ("session_id", opt_str session_id)
      ∷ [])
  execute (set_directive c.team_id id (stamp eid))
  pure (result (Reply.directive_sent id target session_id eid))

unfoldable pub send_to :
    Clock
    → Caller
    → String
    → String
    → Command
    → Option String
    → Option String
    → Server
    → Answer Reply × Server
unfolding send_tx
send_to clk c id to_agent cmd idem_key none s = (replied (unknown_agent to_agent), s)
send_to clk c id to_agent cmd idem_key (some target) s =
    serve (idempotent clk c idem_key (send_tx clk c id target cmd)) no_redis s

-- `id` is the id that `new_id()` drew.
unfoldable pub send_directive :
    Clock → Caller → String → String → Command → Option String → Server → Answer Reply × Server
unfolding send_to
send_directive clk c id to_agent cmd idem_key s =
    send_to clk c id to_agent cmd idem_key (resolve_agent_ref c.team_id to_agent s.db) s

-- WHERE team_id=? AND directive_id=? AND status='pending'
abbrev pub is_claimable : String → String → Directive → Bool
is_claimable team_id id d = is_directive team_id id d && is_pending d.status

unfoldable pub run_directive : ℕ → Directive → Directive
run_directive now d = record d { status = running; updated_at = now }

unfoldable pub claim_running : Clock → Caller → String → Option String → ℕ → Tx Turn
unfolding append set_directive
claim_running clk c id session_id changed =
    if not (eqb changed 1) then pure (returned directive_race_lost) else do
      eid ←
          append clk c.team_id directive_claimed "directive" (some id) (some c.agent_id)
            (("session_id", opt_str session_id) ∷ [])
      execute (set_directive c.team_id id (stamp eid))
      pure (result (Reply.directive_claimed id))

unfoldable pub claim_directive_row : Clock → Caller → String → Option Directive → Tx Turn
unfolding run_directive claim_running
claim_directive_row clk c id none = pure (returned unknown_directive)
claim_directive_row clk c id (some d) =
    if not (d.to_agent == c.agent_id)
    then pure (returned not_yours)
    else if not (is_pending d.status)
    then pure (returned (not_pending d.status))
    else do
      changed ← fetch (λ db. row_count (is_claimable c.team_id id) db.directives)
      execute (λ db. record db {
        directives = update (is_claimable c.team_id id) (run_directive clk.now) db.directives;
      })
      claim_running clk c id d.session_id changed

unfoldable pub claim_directive_tx : Clock → Caller → String → Tx Turn
claim_directive_tx clk c id = do
  d ← fetch (find_directive c.team_id id)
  claim_directive_row clk c id d

unfoldable pub claim_directive : Clock → Caller → String → Server → Answer Reply × Server
claim_directive clk c id = serve (claim_directive_tx clk c id) no_redis
