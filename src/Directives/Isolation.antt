-- ===== src/Directives/Isolation.antt =====
-- services/directives.py: the calls for the directives of a team, and the rows of another team.
pub mod Settled
use atmcp.Base.{
  ℕ, String, ◌==◌, ◌≡◌, refl, ap, ◌∙◌, false, Option, none, some, List, eq_refl, eqb, Bool-cases,
  inl, inr, &&-eq-true,
}
use atmcp.Base.Table.{exists_row, insert, update}
use atmcp.Schema.{Directive, Session, Clock, Caller, Json, EventKind}
use atmcp.Db.{Db, TxState, result, pure, execute, ◌>>=◌, ◌>>◌}
use atmcp.Events.{append}
use atmcp.Wire.{Reply, directive_reported}
use atmcp.Db.Keeps.{After, Keeps, After-bind, After-pure}
use atmcp.Db.Isolation.{
  Rows, rows_of, Untouched, own_rows-update, own_rows-insert, append-Untouched,
}
use atmcp.Server.{Server}
use atmcp.Server.Frame.{serve-Keeps, idempotent-none}
use atmcp.Identity.{resolve_agent_ref}
use atmcp.Directives.{
  Command, is_directive, is_session, is_terminal, is_pending, is_claimable, honour_session,
  touch_session, set_directive, directive_row, stamp, send_tx, send_to, send_directive,
  run_directive, claim_running, claim_directive_row, claim_directive_tx, claim_directive,
}
use atmcp.Directives.Finish.{
  Verdict, verdict, final_status, report_row, report_found, report_tx, report_verdict,
  report_directive, cancel_row, cancel_found, cancel_tx, cancel_directive,
}

module _ (other team : String) (out : (team == other) ≡ false) (f : Rows) where
  pub touch_session-Untouched :
      (now : ℕ) (session : Option String) (db : Db)
      → Untouched other f db
      → Untouched other f (touch_session now team session db)
  unfolding touch_session
  touch_session-Untouched now none db h = h
  touch_session-Untouched now (some id) db h =
      ap (λ l. record (rows_of other db) { sessions = l })
        (own_rows-update (λ (x : Session). x.team_id) other team out (is_session team id) _
          (λ r e. (&&-eq-true (r.team_id == team) (r.session_id == id) e).0) (λ r. refl)
          db.sessions)
      ∙ h

  pub set_directive-Untouched :
      (id : String) (g : Directive → Directive) (db : Db)
      → ((d : Directive) → (g d).team_id ≡ d.team_id)
      → Untouched other f db
      → Untouched other f (set_directive team id g db)
  unfolding set_directive
  set_directive-Untouched id g db same h =
      ap (λ l. record (rows_of other db) { directives = l })
        (own_rows-update (λ (d : Directive). d.team_id) other team out (is_directive team id) g
          (λ r e. (&&-eq-true (r.team_id == team) (r.directive_id == id) e).0) same db.directives)
      ∙ h

module _ (other : String) (f : Rows) (clk : Clock) (c : Caller)
    (out : (c.team_id == other) ≡ false) where
  pub stamped-Untouched :
      {A : Type 0} (r : ℕ → A) (kind : EventKind) (id : String) (payload : List (String × Json))
      (t : TxState)
      → Untouched other f t.db
      → After (Untouched other f) (
          (do
            eid ← append clk c.team_id kind "directive" (some id) (some c.agent_id) payload
            execute (set_directive c.team_id id (stamp eid))
            pure (r eid))
            t)
  stamped-Untouched r kind id payload t h =
      After-bind (Untouched other f) _ _
        (append-Untouched other c.team_id out f clk kind "directive" (some id) (some c.agent_id)
          payload t h)
        (λ eid t' h'. set_directive-Untouched other c.team_id out f id _ t'.db (λ d. refl) h')

  sent-Untouched :
      (id target : String) (cmd : Command) (session : Option String) (t : TxState)
      → Untouched other f t.db
      → Untouched other f (record t.db {
        directives = insert (directive_row clk.now c id target session cmd) t.db.directives;
      })
  unfolding directive_row
  sent-Untouched id target cmd session t h =
      ap (λ l. record (rows_of other t.db) { directives = l })
        (own_rows-insert (λ (d : Directive). d.team_id) other c.team_id out _ t.db.directives
          (eq_refl c.team_id))
      ∙ h

  send_tx-Untouched :
      (id target : String) (cmd : Command) → Keeps (Untouched other f) (send_tx clk c id target cmd)
  unfolding send_tx
  send_tx-Untouched id target cmd = record {
    at = λ t h.
        elim (Bool-cases (exists_row (λ (d : Directive). d.directive_id == id) t.db.directives)) [
          | inl e ↦ rw (e, After) tt
          | inr e ↦
              let session = honour_session c.team_id target cmd.session_id t.db in
              let row = directive_row clk.now c id target session cmd in
              let db = record t.db { directives = insert row t.db.directives } in
              rw (e, After)
                (stamped-Untouched (λ eid. result (Reply.directive_sent id target session eid)) _ id
                  _ (record t { db = touch_session clk.now c.team_id session db })
                  (touch_session-Untouched other c.team_id out f clk.now session db
                    (sent-Untouched id target cmd session t h)))
        ];
  }

  send_to-Untouched :
      (id to_agent : String) (cmd : Command) (target : Option String) (s : Server)
      → Untouched other f s.db
      → Untouched other f (send_to clk c id to_agent cmd none target s).1.db
  unfolding send_to
  send_to-Untouched id to_agent cmd none s h = h
  send_to-Untouched id to_agent cmd (some target) s h =
      rw (idempotent-none clk c (send_tx clk c id target cmd))
        (serve-Keeps (Untouched other f) _ _ s (send_tx-Untouched id target cmd) h)

  pub send_directive-Untouched :
      (id to_agent : String) (cmd : Command) (s : Server)
      → Untouched other f s.db
      → Untouched other f (send_directive clk c id to_agent cmd none s).1.db
  unfolding send_directive
  send_directive-Untouched id to_agent cmd s h =
      send_to-Untouched id to_agent cmd (resolve_agent_ref c.team_id to_agent s.db) s h

  claim_running-Untouched :
      (id : String) (session : Option String) (changed : ℕ) (t : TxState)
      → Untouched other f t.db
      → After (Untouched other f) (claim_running clk c id session changed t)
  unfolding claim_running
  claim_running-Untouched id session changed t h = elim (Bool-cases (eqb changed 1)) [
    | inr lost ↦ rw (lost, After) h
    | inl won ↦
        rw (won, After) (stamped-Untouched (λ eid. result (Reply.directive_claimed id)) _ id _ t h)
  ]

  run_directive-Untouched :
      (id : String) (db : Db)
      → Untouched other f db
      → Untouched other f (record db {
        directives = update (is_claimable c.team_id id) (run_directive clk.now) db.directives;
      })
  unfolding run_directive
  run_directive-Untouched id db h =
      ap (λ l. record (rows_of other db) { directives = l })
        (own_rows-update (λ (d : Directive). d.team_id) other c.team_id out
          (is_claimable c.team_id id) _
          (λ d e.
            (&&-eq-true (d.team_id == c.team_id) (d.directive_id == id)
              (&&-eq-true (is_directive c.team_id id d) (is_pending d.status) e).0).0)
          (λ d. refl) db.directives)
      ∙ h

  claim_row-Untouched :
      (id : String) (row : Option Directive) (t : TxState)
      → Untouched other f t.db
      → After (Untouched other f) (claim_directive_row clk c id row t)
  unfolding claim_directive_row
  claim_row-Untouched id none t h = h
  claim_row-Untouched id (some d) t h = elim (Bool-cases (d.to_agent == c.agent_id)) [
    | inr other ↦ rw (other, After) h
    | inl mine ↦ rw mine (elim (Bool-cases (is_pending d.status)) [
      | inr busy ↦ rw (busy, After) h
      | inl free ↦
          rw free (claim_running-Untouched id d.session_id _ _ (run_directive-Untouched id t.db h))
    ])
  ]

  pub claim_directive-Untouched :
      (id : String) (s : Server)
      → Untouched other f s.db
      → Untouched other f (claim_directive clk c id s).1.db
  unfolding claim_directive claim_directive_tx
  claim_directive-Untouched id s h =
      serve-Keeps (Untouched other f) _ _ s (record { at = λ t k. claim_row-Untouched id _ t k }) h
