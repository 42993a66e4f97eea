-- ===== src/Sessions/Messages.antt =====
-- services/sessions.py: the stored conversation and the transcript of a thread.
use atmcp.Base.{
  ℕ, String, Bool, Option, none, some, List, [], ◌∷◌, ◌==◌, ltb, take, length, if◌then◌else◌,
  truthy, ◌&&◌, holds, ℤ, pos,
}
use Prim.Native.String.{◌++◌}
use atmcp.Base.Table.{fetch_one, select, order_by}
use atmcp.Schema.{Session, Directive, Output, Clock}
use atmcp.Db.{Db, pure}
use atmcp.Hub.{current_gen, wait_for_change}
use atmcp.Server.{Server, Answer, serve}
use atmcp.Tasks.Board.{page_size}
use atmcp.Directives.{is_session}
use atmcp.Directives.Inbox.{Waiting, waits}
use atmcp.Output.{Tail, max_id, read_again}
use atmcp.Sessions.{SessionReply, stored, change_session}

-- json.dumps of a list, from the texts of its elements.
abbrev pub dumps_rest : List String → String
dumps_rest [] = "]"
dumps_rest (m ∷ ms) = (", " ++ m) ++ dumps_rest ms

abbrev pub dumps : List String → String
dumps [] = "[]"
dumps (m ∷ ms) = ("[" ++ m) ++ dumps_rest ms

abbrev pub messages_row : ℕ → String → Session → Session
messages_row now payload x = record x { messages_json = some payload; updated_at = now }

unfoldable pub set_messages :
    Clock → String → String → List String → Server → Answer SessionReply × Server
set_messages clk team_id id messages =
    serve
      (change_session team_id id (messages_row clk.now (dumps messages))
        (pure (stored id (length messages))))
      (λ r redis. (r, redis))

-- The text that is decoded: an empty list for no text, an empty one, or one that is not JSON.
abbrev pub or_empty : (String → Bool) → Option String → String
or_empty is_json none = "[]"
or_empty is_json (some raw) = if is_json raw then raw else "[]"

unfoldable pub get_messages : (String → Bool) → String → String → Db → Option String
get_messages is_json team_id id db = elim (fetch_one (is_session team_id id) db.sessions) [
  | none ↦ none
  | some x ↦ some (or_empty is_json (truthy x.messages_json))
]

abbrev pub thread_output : String → String → Output → Bool
thread_output team_id id o = o.team_id == team_id && holds o.session_id id

unfoldable pub read_thread : String → String → ℕ → ℤ → Db → List Output
read_thread team_id id since limit db =
    take (page_size 300 500 limit)
      (select (λ o. thread_output team_id id o && ltb since o.id) db.agent_output)

unfoldable pub session_output : String → String → ℕ → ℤ → ℤ → Waiting → Server → Tail
unfolding read_thread
session_output team_id id since wait_ms limit w s = record {
  chunks =
      read_again
        (waits wait_ms && wait_for_change team_id (current_gen team_id s.gens) w.ahead w.later)
        (read_thread team_id id since limit s.db) (read_thread team_id id since limit w.db);
  head_seq = max_id (select (thread_output team_id id) w.db.agent_output);
}

pub record Transcript : Type 0 where
  pub directives : List Directive
  pub output : List Output
  pub head_seq : ℕ

unfoldable pub transcript : String → String → Waiting → Server → Transcript
unfolding session_output
transcript team_id id w s =
    let out = session_output team_id id 0 (pos 0) (pos 500) w s in
    record {
      directives =
          order_by (λ a b. ltb a.created_at b.created_at)
            (select (λ d. d.team_id == team_id && holds d.session_id id) s.db.directives);
      output = out.chunks;
      head_seq = out.head_seq;
    }
