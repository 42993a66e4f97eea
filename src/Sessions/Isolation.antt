-- ===== src/Sessions/Isolation.antt =====
-- services/sessions.py: the calls for the threads of a team, and the rows of another team.
use atmcp.Base.{
  String, ◌==◌, ◌≡◌, refl, ap, ◌∙◌, false, Option, some, List, eq_refl, eqb, Bool-cases, inl, inr,
  &&-eq-true, prefix, strip, coalesce,
}
use atmcp.Base.Table.{exists_row, row_count, insert}
use atmcp.Schema.{Session, Clock, Json, session_created}
use atmcp.Db.{Db, Tx, TxState, pure, execute, ◌>>=◌, ◌>>◌}
use atmcp.Db.Keeps.{After, Keeps, After-bind}
use atmcp.Db.Isolation.{
  Rows, rows_of, Untouched, own_rows-update, own_rows-insert, append-Untouched,
}
use atmcp.Events.{append}
use atmcp.Server.{Server}
use atmcp.Server.Frame.{serve-Keeps}
use atmcp.Directives.{is_session}
use atmcp.Sessions.{
  SessionReply, clean_title, session_row, set_session_row, create_session_tx, create_session,
  change_session, rename_tx, rename_session, renamed_row, archive_tx, archive_session, archived_row,
  executor_row, set_executor_state,
}
use atmcp.Sessions.Messages.{set_messages, messages_row, dumps}

module _ (other team : String) (out : (team == other) ≡ false) (f : Rows) where
  pub sessions-Untouched :
      (id : String) (g : Session → Session) (db : Db)
      → ((x : Session) → (g x).team_id ≡ x.team_id)
      → Untouched other f db
      → Untouched other f (set_session_row team id g db)
  unfolding set_session_row
  sessions-Untouched id g db same h =
      ap (λ l. record (rows_of other db) { sessions = l })
        (own_rows-update (λ (x : Session). x.team_id) other team out (is_session team id) g
          (λ r e. (&&-eq-true (r.team_id == team) (r.session_id == id) e).0) same db.sessions)
      ∙ h

  change_session-Untouched :
      (id : String) (g : Session → Session) (rest : Tx SessionReply)
      → ((x : Session) → (g x).team_id ≡ x.team_id)
      → Keeps (Untouched other f) rest
      → Keeps (Untouched other f) (change_session team id g rest)
  unfolding change_session
  change_session-Untouched id g rest same k = record {
    at = λ t h.
        let h' = sessions-Untouched id g t.db same h in
        elim (Bool-cases (eqb (row_count (is_session team id) t.db.sessions) 1)) [
          | inl e ↦ rw (e, After) (k.at (record t { db = set_session_row team id g t.db }) h')
          | inr e ↦ rw (e, After) h'
        ];
  }

  created-Untouched :
      (clk : Clock) (id agent_id title : String) (driver actor : Option String)
      (payload : List (String × Json)) (t : TxState)
      → Untouched other f t.db
      → After (Untouched other f) (
          (do
            eid ← append clk team session_created "session" (some id) actor payload
            execute (set_session_row team id (λ x. record x { last_event_id = eid }))
            pure (session_row clk id team agent_id title driver))
            (record t {
              db = record t.db {
                sessions = insert (session_row clk id team agent_id title driver) t.db.sessions;
              };
            }))
  unfolding session_row
  created-Untouched clk id agent_id title driver actor payload t h =
      After-bind (Untouched other f) _ _
        (append-Untouched other team out f clk session_created "session" (some id) actor payload _ (
          ap (λ l. record (rows_of other t.db) { sessions = l })
            (own_rows-insert (λ (x : Session). x.team_id) other team out _ t.db.sessions
              (eq_refl team))
          ∙ h))
        (λ eid t' h'. sessions-Untouched id _ t'.db (λ x. refl) h')

  create_session_tx-Untouched :
      (clk : Clock) (id agent_id : String) (title driver actor : Option String)
      → Keeps (Untouched other f) (create_session_tx clk id team agent_id title driver actor)
  unfolding create_session_tx
  create_session_tx-Untouched clk id agent_id title driver actor = record {
    at = λ t h. elim (Bool-cases (exists_row (λ (x : Session). x.session_id == id) t.db.sessions)) [
      | inl e ↦ rw (e, After) tt
      | inr e ↦
          rw (e, After) (created-Untouched clk id agent_id (clean_title title) driver actor _ t h)
    ];
  }

  pub create_session-Untouched :
      (clk : Clock) (id agent_id : String) (title driver actor : Option String) (s : Server)
      → Untouched other f s.db
      → Untouched other f (create_session clk id team agent_id title driver actor s).1.db
  unfolding create_session
  create_session-Untouched clk id agent_id title driver actor s h =
      serve-Keeps (Untouched other f) _ _ s
        (create_session_tx-Untouched clk id agent_id title driver actor) h

  pub archive_session-Untouched :
      (clk : Clock) (id : String) (s : Server)
      → Untouched other f s.db
      → Untouched other f (archive_session clk team id s).1.db
  unfolding archive_session archive_tx
  archive_session-Untouched clk id s h =
      serve-Keeps (Untouched other f) _ _ s
        (change_session-Untouched id (archived_row clk.now) _ (λ x. refl)
          (record { at = λ t k. append-Untouched other team out f clk _ _ _ _ _ t k }))
        h

  pub rename_session-Untouched :
      (clk : Clock) (id : String) (title : Option String) (s : Server)
      → Untouched other f s.db
      → Untouched other f (rename_session clk team id title s).1.db
  unfolding rename_session rename_tx
  rename_session-Untouched clk id title s h =
      let cleaned = prefix 200 (strip (coalesce title "")) in
      elim (Bool-cases (cleaned == "")) [
        | inl e ↦ rw e h
        | inr e ↦ rw e (
            serve-Keeps (Untouched other f) _ _ s
              (change_session-Untouched id (renamed_row clk.now cleaned) _ (λ x. refl)
                (record { at = λ t k. append-Untouched other team out f clk _ _ _ _ _ t k }))
              h)
      ]

  pub set_executor_state-Untouched :
      (clk : Clock) (id : String) (cli_session_id worktree : Option String) (s : Server)
      → Untouched other f s.db
      → Untouched other f (set_executor_state clk team id cli_session_id worktree s).1.db
  unfolding set_executor_state
  set_executor_state-Untouched clk id cli_session_id worktree s h =
      serve-Keeps (Untouched other f) _ _ s
        (change_session-Untouched id (executor_row clk.now cli_session_id worktree) _ (λ x. refl)
          (record { at = λ t k. k }))
        h

  pub set_messages-Untouched :
      (clk : Clock) (id : String) (messages : List String) (s : Server)
      → Untouched other f s.db
      → Untouched other f (set_messages clk team id messages s).1.db
  unfolding set_messages
  set_messages-Untouched clk id messages s h =
      serve-Keeps (Untouched other f) _ _ s
        (change_session-Untouched id (messages_row clk.now (dumps messages)) _ (λ x. refl)
          (record { at = λ t k. k }))
        h
