-- ===== src/Output/Isolation.antt =====
-- services/output.py: a chunk of output of a team, and the rows of another team.
use atmcp.Base.{ℕ, String, ◌==◌, ◌≡◌, ap, ◌∙◌, false, eq_refl}
use atmcp.Schema.{Output, Clock, Settings}
use atmcp.Db.Keeps.{Keeps}
use atmcp.Db.Isolation.{Rows, rows_of, Untouched, own_rows-insert}
use atmcp.Server.{Server, Answer, replied, raised}
use atmcp.Server.Frame.{serve-Keeps}
use atmcp.Output.{Chunk, output_row, output_tx, append_output, tick_after}

module _ (other team : String) (out : (team == other) ≡ false) (f : Rows) where
  output_tx-Untouched :
      (cfg : Settings) (clk : Clock) (agent : String) (ch : Chunk)
      → Keeps (Untouched other f) (output_tx cfg clk team agent ch)
  unfolding output_tx output_row
  output_tx-Untouched cfg clk agent ch = record {
    at = λ t h.
        ap (λ l. record (rows_of other t.db) { agent_output = l })
          (own_rows-insert (λ (o : Output). o.team_id) other team out _ t.db.agent_output
            (eq_refl team))
        ∙ h;
  }

  ticked-Untouched :
      (r : Answer ℕ × Server)
      → Untouched other f r.1.db
      → Untouched other f (tick_after team r).1.db
  ticked-Untouched (replied seq, s) h = h
  ticked-Untouched (raised e, s) h = h

  pub append_output-Untouched :
      (cfg : Settings) (clk : Clock) (agent : String) (ch : Chunk) (s : Server)
      → Untouched other f s.db
      → Untouched other f (append_output cfg clk team agent ch s).1.db
  unfolding append_output
  append_output-Untouched cfg clk agent ch s h = ticked-Untouched _ (
      serve-Keeps (Untouched other f) (output_tx cfg clk team agent ch) (λ seq redis. (seq, redis))
        s (output_tx-Untouched cfg clk agent ch) h)
