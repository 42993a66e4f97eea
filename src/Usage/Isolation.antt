-- ===== src/Usage/Isolation.antt =====
-- services/usage.py: a usage report of a team, and the rows of another team.
use atmcp.Base.{
  String, ◌==◌, ◌≡◌, ap, ◌∙◌, false, eq_refl, Option, none, some, Bool-cases, inl, inr,
}
use atmcp.Base.Table.{insert}
use atmcp.Schema.{UsageEvent, Clock}
use atmcp.Db.Keeps.{After, Keeps}
use atmcp.Db.Isolation.{Rows, rows_of, Untouched, own_rows-insert, append-Untouched}
use atmcp.Server.{Server}
use atmcp.Server.Frame.{serve-Keeps}
use atmcp.Output.{directive_tag}
use atmcp.Usage.{
  Floats, Report, Counts, counts_of, fit_int64, usage_row, usage_logged, usage_tx, record_counts,
  record_usage,
}

module _ (other team : String) (out : (team == other) ≡ false) (f : Rows) where
  usage_tx-Untouched :
      (fl : Floats) (clk : Clock) (agent : String) (r : Report) (n : Counts)
      → Keeps (Untouched other f) (usage_tx fl clk team agent r n)
  unfolding usage_tx usage_logged usage_row
  usage_tx-Untouched fl clk agent r n = record {
    at = λ t h.
        let row = usage_row fl clk team agent r n (directive_tag team r.directive_id t.db) in
        elim (Bool-cases (fit_int64 n)) [
          | inr wide ↦ rw (wide, After) tt
          | inl fits ↦
              rw (fits, After)
                (append-Untouched other team out f clk _ _ _ _ _
                  (record t { db = record t.db { usage_events = insert row t.db.usage_events } })
                  (ap (λ l. record (rows_of other t.db) { usage_events = l })
                      (own_rows-insert (λ (e : UsageEvent). e.team_id) other team out row
                        t.db.usage_events (eq_refl team))
                    ∙ h))
        ];
  }

  record_counts-Untouched :
      (fl : Floats) (clk : Clock) (agent : String) (r : Report) (s : Server) (o : Option Counts)
      → Untouched other f s.db
      → Untouched other f (record_counts fl clk team agent r s o).1.db
  record_counts-Untouched fl clk agent r s none h = h
  record_counts-Untouched fl clk agent r s (some n) h =
      serve-Keeps (Untouched other f) _ _ s (usage_tx-Untouched fl clk agent r n) h

  pub record_usage-Untouched :
      (fl : Floats) (clk : Clock) (agent : String) (r : Report) (s : Server)
      → Untouched other f s.db
      → Untouched other f (record_usage fl clk team agent r s).1.db
  unfolding record_usage
  record_usage-Untouched fl clk agent r s h =
      record_counts-Untouched fl clk agent r s (counts_of r) h
