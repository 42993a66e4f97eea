-- ===== src/Sessions/Changes.antt =====
-- services/sessions.py: what an update of one thread does to the threads of its team.
use mathlib.Core.Option
use atmcp.Base.{
  ℕ, String, ◌≡◌, refl, false, Option, none, some, List, arith, Bool-cases, Option-cases, inl, inr,
  ◌==◌, ◌&&◌, eq_iff, [], ◌∷◌,
}
use atmcp.Base.Table.{fetch_one, update}
use atmcp.Base.Table.Laws.{row_count-none, row_count-one, AtMostOne}
use atmcp.Schema.{Session, Clock}
use atmcp.Db.{Tx, TxState, done}
use atmcp.Directives.{is_session}
use atmcp.Server.{Server, replied}
use atmcp.Server.Frame.{serve-done, start}
use atmcp.Events.{append}
use atmcp.Sessions.{
  SessionReply, unknown_session, now_archived, is_active, change_session, set_session_row,
  archived_row, archive_tx, archive_session,
}

module _ (team id : String) (f : Session → Session) (rest : Tx SessionReply) (t : TxState) where
  change_session-none :
      fetch_one (is_session team id) t.db.sessions ≡ none
      → change_session team id f rest t
        ≡ done unknown_session (record t { db = set_session_row team id f t.db })
  unfolding change_session
  change_session-none e = rw (row_count-none (is_session team id) t.db.sessions e) refl

  change_session-one :
      {x : Session}
      → AtMostOne (is_session team id) t.db.sessions
      → fetch_one (is_session team id) t.db.sessions ≡ some x
      → change_session team id f rest t ≡ rest (record t { db = set_session_row team id f t.db })
  unfolding change_session
  change_session-one one e = rw (row_count-one (is_session team id) t.db.sessions one e) refl

abbrev pub archive_reply : String → Option Session → SessionReply
archive_reply id none = unknown_session
archive_reply id (some x) = now_archived id

archive_session-run :
    (clk : Clock) (team id : String) (s : Server)
    → AtMostOne (is_session team id) s.db.sessions
    → let after = archive_session clk team id s in
      (after.0 ≡ replied (archive_reply id (fetch_one (is_session team id) s.db.sessions)))
      × (after.1.db.sessions ≡ update (is_session team id) (archived_row clk.now) s.db.sessions)
unfolding archive_session archive_tx append set_session_row
archive_session-run clk team id s one =
    elim (Option-cases (fetch_one (is_session team id) s.db.sessions)) [
      | inl e ↦
          let ended =
            serve-done (archive_tx clk team id) (λ r redis. (r, redis)) s
              (change_session-none team id (archived_row clk.now) _ (start s.db) e) in
          rw (ended, e) (refl, refl)
      | inr (x, e) ↦
          let ended =
            serve-done (archive_tx clk team id) (λ r redis. (r, redis)) s
              (change_session-one team id (archived_row clk.now) _ (start s.db) one e) in
          rw (ended, e) (refl, refl)
    ]

none-active :
    (now : ℕ) (team id : String) (rows : List Session)
    → fetch_one
        (λ x. is_session team id x && is_active x.status)
        (update (is_session team id) (archived_row now) rows)
      ≡ none
none-active now team id [] = refl
none-active now team id (x ∷ xs) = elim (Bool-cases (is_session team id x)) [
  | inl e ↦ rw e (rw e (none-active now team id xs))
  | inr e ↦ rw e (rw e (none-active now team id xs))
]

archived-there :
    (now : ℕ) (team id : String) (rows : List Session)
    → fetch_one (is_session team id) (update (is_session team id) (archived_row now) rows)
      ≡ Option.map (archived_row now) (fetch_one (is_session team id) rows)
archived-there now team id [] = refl
archived-there now team id (x ∷ xs) = elim (Bool-cases (is_session team id x)) [
  | inl e ↦ rw e (rw e refl)
  | inr e ↦ rw e (rw e (archived-there now team id xs))
]

others-kept :
    (now : ℕ) (team id team' other : String) (rows : List Session)
    → (team' == team && other == id) ≡ false
    → fetch_one (is_session team' other) (update (is_session team id) (archived_row now) rows)
      ≡ fetch_one (is_session team' other) rows
others-kept now team id team' other [] h = refl
others-kept now team id team' other (x ∷ xs) h =
    let rest = others-kept now team id team' other xs h in
    elim (Bool-cases (is_session team id x)) [
      | inr e ↦ rw e (rw rest refl)
      | inl e ↦
          let apart : is_session team' other x ≡ false = ground (
            arith,
            h,
            e,
            eq_iff x.team_id team,
            eq_iff x.session_id id,
            eq_iff x.team_id team',
            eq_iff x.session_id other,
            eq_iff team' team,
            eq_iff other id,
          ) in
          rw e (rw (apart, rest) refl)
    ]

-- With at most one thread of a team under an id, `archive_session` answers that the thread is archived if
-- there is one, else that it is unknown. Afterwards the thread is there as it was but for its state and
-- the time of its change, no thread of the team under the id is active, and the thread of another id or
-- of another team is as before.
pub archive_session_lem :
    (clk : Clock) (team id team' other : String) (s : Server)
    → AtMostOne (is_session team id) s.db.sessions
    → (team' == team && other == id) ≡ false
    → let after = archive_session clk team id s in
      (after.0 ≡ replied (archive_reply id (fetch_one (is_session team id) s.db.sessions)))
      × (fetch_one (is_session team id) after.1.db.sessions
          ≡ Option.map (archived_row clk.now) (fetch_one (is_session team id) s.db.sessions))
      × (fetch_one (λ x. is_session team id x && is_active x.status) after.1.db.sessions ≡ none)
      × (fetch_one (is_session team' other) after.1.db.sessions
          ≡ fetch_one (is_session team' other) s.db.sessions)
archive_session_lem clk team id team' other s one apart =
    let (answer, table) = archive_session-run clk team id s one in
    (
      answer,
      rw table (archived-there clk.now team id s.db.sessions),
      rw table (none-active clk.now team id s.db.sessions),
      rw table (others-kept clk.now team id team' other s.db.sessions apart),
    )
