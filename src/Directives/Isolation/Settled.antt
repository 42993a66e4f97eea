-- ===== src/Directives/Isolation/Settled.antt =====
-- services/directives.py: reports and cancellations of a team, and the rows of another team.
use atmcp.Base.{String, ◌==◌, ◌≡◌, refl, false, Option, none, some, Bool-cases, inl, inr}
use atmcp.Schema.{Directive, Clock, Caller}
use atmcp.Db.{TxState, result}
use atmcp.Wire.{Reply, directive_reported}
use atmcp.Db.Keeps.{After, After-pure}
use atmcp.Db.Isolation.{Rows, Untouched}
use atmcp.Server.{Server}
use atmcp.Server.Frame.{serve-Keeps, idempotent-none}
use atmcp.Directives.{is_terminal, touch_session, set_directive}
use atmcp.Directives.Finish.{
  Verdict, verdict, final_status, report_row, report_found, report_tx, report_verdict,
  report_directive, cancel_row, cancel_found, cancel_tx, cancel_directive,
}
use atmcp.Directives.Isolation.{touch_session-Untouched, set_directive-Untouched, stamped-Untouched}

module _ (other : String) (f : Rows) (clk : Clock) (c : Caller)
    (out : (c.team_id == other) ≡ false) where
  report_found-Untouched :
      (id : String) (v : Verdict) (summary output : Option String) (row : Option Directive)
      (t : TxState)
      → Untouched other f t.db
      → After (Untouched other f) (report_found clk c id v summary output row t)
  unfolding report_found report_row
  report_found-Untouched id v summary output none t h = h
  report_found-Untouched id v summary output (some d) t h =
      elim (Bool-cases (d.to_agent == c.agent_id)) [
        | inr other ↦ rw (other, After) h
        | inl mine ↦ rw mine (elim (Bool-cases (is_terminal d.status)) [
          | inl over ↦ rw (over, After) h
          | inr live ↦ rw live (
              let db =
                set_directive c.team_id id (report_row clk.now (final_status v) summary output)
                  t.db in
              stamped-Untouched other f clk c out (λ eid. directive_reported id (final_status v)) _
                id _ (record t { db = touch_session clk.now c.team_id d.session_id db })
                (touch_session-Untouched other c.team_id out f clk.now d.session_id db
                  (set_directive-Untouched other c.team_id out f id _ t.db (λ x. refl) h)))
        ])
      ]

  report_verdict-Untouched :
      (id : String) (v : Option Verdict) (summary output : Option String) (s : Server)
      → Untouched other f s.db
      → Untouched other f (report_verdict clk c id v summary output none s).1.db
  unfolding report_verdict report_tx
  report_verdict-Untouched id none summary output s h = h
  report_verdict-Untouched id (some v) summary output s h =
      rw (idempotent-none clk c (report_tx clk c id v summary output)) (
        serve-Keeps (Untouched other f) (report_tx clk c id v summary output) _ s
          (record {
            at = λ t k.
                After-pure (Untouched other f) _ result
                  (report_found-Untouched id v summary output _ t k);
          })
          h)

  pub report_directive-Untouched :
      (id status : String) (summary output : Option String) (s : Server)
      → Untouched other f s.db
      → Untouched other f (report_directive clk c id status summary output none s).1.db
  unfolding report_directive
  report_directive-Untouched id status summary output s h =
      report_verdict-Untouched id (verdict status) summary output s h

  cancel_found-Untouched :
      (id : String) (row : Option Directive) (t : TxState)
      → Untouched other f t.db
      → After (Untouched other f) (cancel_found clk c id row t)
  unfolding cancel_found cancel_row
  cancel_found-Untouched id none t h = h
  cancel_found-Untouched id (some d) t h = elim (Bool-cases (d.from_agent == c.agent_id)) [
    | inr other ↦ rw (other, After) h
    | inl mine ↦ rw mine (elim (Bool-cases (is_terminal d.status)) [
      | inl over ↦ rw (over, After) h
      | inr live ↦ rw live (
          stamped-Untouched other f clk c out (λ eid. result (Reply.directive_canceled id)) _ id _
            (record t { db = set_directive c.team_id id (cancel_row clk.now) t.db })
            (set_directive-Untouched other c.team_id out f id _ t.db (λ x. refl) h))
    ])
  ]

  pub cancel_directive-Untouched :
      (id : String) (s : Server)
      → Untouched other f s.db
      → Untouched other f (cancel_directive clk c id s).1.db
  unfolding cancel_directive cancel_tx
  cancel_directive-Untouched id s h =
      serve-Keeps (Untouched other f) _ _ s (record { at = λ t k. cancel_found-Untouched id _ t k })
        h
