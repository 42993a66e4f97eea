-- ===== src/Sessions.antt =====
-- services/sessions.py: the threads of the workbench, one per agent and topic. A message is its JSON
-- text; `is_json` is whether `json.loads` accepts a text.
pub mod Changes
pub mod Messages
pub mod Isolation
use atmcp.Base.{
  ℕ, zero, suc, String, Bool, true, false, not, ◌&&◌, ◌||◌, Option, none, some, List, [], ◌∷◌, ◌==◌,
  eqb, ltb, coalesce, coalesce?, truthy, is_some, take, length, if◌then◌else◌, prefix, strip, ℤ,
  map, holds,
}
use atmcp.Base.Table.{fetch_one, select, exists_row, update, insert, row_count, first_by, order_by}
use atmcp.Schema.{
  Session, SessionStatus, active, archived, Directive, DirectiveStatus, Clock, Json,
  session_created, session_updated, session_archived, Output,
}
use atmcp.Db.{Db, Exn, Tx, pure, fetch, execute, execute_unique, ◌>>=◌, ◌>>◌, done, raised}
use atmcp.Events.{append}
use atmcp.Server.{Server, Answer, replied, serve}
use atmcp.Hub.{current_gen, wait_for_change}
use atmcp.Tasks.Board.{page_size, passes}
use atmcp.Directives.{is_session, is_pending, is_running}
use atmcp.Directives.Inbox.{Waiting, waits}
use atmcp.Output.{max_id, read_again, Tail}

pub data SessionReply : Type 0 where
  empty_title : SessionReply
  unknown_session : SessionReply
  renamed : (session_id title : String) → SessionReply
  now_archived : (session_id : String) → SessionReply
  updated : (session_id : String) → SessionReply
  stored : (session_id : String) (count : ℕ) → SessionReply

-- (title or "New session").strip()[:200] or "New session"
abbrev pub or_new : String → String
or_new s = if s == "" then "New session" else s

abbrev pub clean_title : Option String → String
clean_title title = or_new (prefix 200 (strip (coalesce (truthy title) "New session")))

unfoldable pub session_row : Clock → String → String → String → String → Option String → Session
session_row clk id team_id agent_id title driver = record {
  session_id = id;
  team_id = team_id;
  agent_id = agent_id;
  title = title;
  driver = driver;
  cli_session_id = none;
  worktree = none;
  messages_json = none;
  status = active;
  created_at = clk.now;
  updated_at = clk.now;
  last_event_id = 0;
}

-- UPDATE sessions SET … WHERE team_id=? AND session_id=?
unfoldable pub set_session_row : String → String → (Session → Session) → Db → Db
set_session_row team_id id f db = record db {
  sessions = update (is_session team_id id) f db.sessions;
}

-- `id` is the id that `new_id()` drew; the answer is the row as it was inserted.
unfoldable pub create_session_tx :
    Clock → String → String → String → Option String → Option String → Option String → Tx Session
unfolding session_row set_session_row append
create_session_tx clk id team_id agent_id title driver actor = do
  let cleaned = clean_title title
  execute_unique (λ db. exists_row (λ x. x.session_id == id) db.sessions)
      (λ db. record db {
        sessions = insert (session_row clk id team_id agent_id cleaned driver) db.sessions;
      })
  eid ←
      append clk team_id session_created "session" (some id) actor
        (("agent_id", Json.str agent_id) ∷ ("title", Json.str cleaned) ∷ [])
  execute (set_session_row team_id id (λ x. record x { last_event_id = eid }))
  pure (session_row clk id team_id agent_id cleaned driver)

unfoldable pub create_session :
    Clock
    → String
    → String
    → String
    → Option String
    → Option String
    → Option String
    → Server
    → Answer Session × Server
unfolding create_session_tx
create_session clk id team_id agent_id title driver actor =
    serve (create_session_tx clk id team_id agent_id title driver actor) (λ r redis. (r, redis))

-- The directives of a thread.
abbrev pub in_thread : Session → Directive → Bool
in_thread x d = d.team_id == x.team_id && holds d.session_id x.session_id

-- EXISTS(_BUSY)
abbrev pub is_busy : Db → Session → Bool
is_busy db x =
    exists_row (λ d. in_thread x d && (is_pending d.status || is_running d.status)) db.directives

-- ORDER BY d.created_at DESC, d.updated_at DESC
abbrev pub later_turn : Directive → Directive → Bool
later_turn a b =
    ltb b.created_at a.created_at
    || (eqb a.created_at b.created_at && ltb b.updated_at a.updated_at)

-- (_LAST)
abbrev pub last_status : Db → Session → Option DirectiveStatus
last_status db x = elim (first_by later_turn (select (in_thread x) db.directives)) [
  | none ↦ none
  | some d ↦ some d.status
]

pub record SessionView : Type 0 where
  pub session : Session
  pub busy : Bool
  pub last : Option DirectiveStatus

unfoldable pub view_of : Db → Session → SessionView
view_of db x = record { session = x; busy = is_busy db x; last = last_status db x }

unfoldable pub get_session : String → String → Db → Option SessionView
unfolding view_of
get_session team_id id db = elim (fetch_one (is_session team_id id) db.sessions) [
  | none ↦ none
  | some x ↦ some (view_of db x)
]

abbrev pub is_active : SessionStatus → Bool
is_active active = true
is_active archived = false

unfoldable pub list_sessions : String → Option String → Bool → ℤ → Db → List SessionView
unfolding view_of
list_sessions team_id agent_id include_archived limit db = map (view_of db) (
    take (page_size 200 500 limit) (
      order_by (λ a b. ltb b.updated_at a.updated_at)
        (select
          (λ x.
            (x.team_id == team_id && passes agent_id (some x.agent_id))
            && (include_archived || is_active x.status))
          db.sessions)))

-- An UPDATE of one session, and the answer if its `rowcount` is 1.
unfoldable pub change_session :
    String → String → (Session → Session) → Tx SessionReply → Tx SessionReply
unfolding set_session_row
change_session team_id id f rest = do
  changed ← fetch (λ db. row_count (is_session team_id id) db.sessions)
  execute (set_session_row team_id id f)
  if not (eqb changed 1) then pure unknown_session else rest

abbrev pub renamed_row : ℕ → String → Session → Session
renamed_row now title x = record x { title = title; updated_at = now }

unfoldable pub rename_tx : Clock → String → String → String → Tx SessionReply
unfolding change_session append
rename_tx clk team_id id title = change_session team_id id (renamed_row clk.now title) (do
  append clk team_id session_updated "session" (some id) none (("title", Json.str title) ∷ [])
  pure (renamed id title))

-- (title or "").strip()[:200]
unfoldable pub rename_session :
    Clock → String → String → Option String → Server → Answer SessionReply × Server
unfolding rename_tx
rename_session clk team_id id title s =
    let cleaned = prefix 200 (strip (coalesce title "")) in
    if cleaned == ""
    then (replied empty_title, s)
    else serve (rename_tx clk team_id id cleaned) (λ r redis. (r, redis)) s

abbrev pub archived_row : ℕ → Session → Session
archived_row now x = record x { status = archived; updated_at = now }

unfoldable pub archive_tx : Clock → String → String → Tx SessionReply
unfolding change_session append
archive_tx clk team_id id =
    change_session team_id id (archived_row clk.now)
      (do append clk team_id session_archived "session" (some id) none []; pure (now_archived id))

unfoldable pub archive_session : Clock → String → String → Server → Answer SessionReply × Server
unfolding archive_tx
archive_session clk team_id id = serve (archive_tx clk team_id id) (λ r redis. (r, redis))

abbrev pub executor_row : ℕ → Option String → Option String → Session → Session
executor_row now cli_session_id worktree x = record x {
  cli_session_id = coalesce? cli_session_id x.cli_session_id;
  worktree = coalesce? worktree x.worktree;
  updated_at = now;
}

unfoldable pub set_executor_state :
    Clock → String → String → Option String → Option String → Server → Answer SessionReply × Server
unfolding change_session
set_executor_state clk team_id id cli_session_id worktree =
    serve
      (change_session team_id id (executor_row clk.now cli_session_id worktree) (pure (updated id)))
      (λ r redis. (r, redis))
