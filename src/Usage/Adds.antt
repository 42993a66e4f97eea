-- ===== src/Usage/Adds.antt =====
-- services/usage.py: what is recorded is in the totals of the team.
use atmcp.Base.{◌+◌, String, ◌≡◌}
use atmcp.Base.Table.{select}
use atmcp.Schema.{Clock}
use atmcp.Server.{Server, Answer, replied}
use atmcp.Usage.{Floats, Report, Counts, Recorded}
use atmcp.Usage.Meters.{
  sum, tokens, one, is_within, window_5h, window_7d, usage_of_team, team_usage,
}

-- What a report of the counts `n` adds: the answer, and the totals of the team right after it.
abbrev pub Added :
    Floats → Clock → String → String → Report → Server → Counts → Answer Recorded × Server → Type 0
Added fl clk team_id agent_id r s n after =
    let t = (team_usage fl clk.now team_id after.1.db).team in
    let rows = usage_of_team team_id s.db in
    let reported = n.input_tokens + n.output_tokens in
    (after.0
      ≡ replied (record {
        agent_id = agent_id;
        cost_usd = fl.round (fl.read r.cost_usd);
        tokens = reported;
      }))
    × (t.input_tokens ≡ sum (λ e. e.input_tokens) rows + n.input_tokens)
    × (t.output_tokens ≡ sum (λ e. e.output_tokens) rows + n.output_tokens)
    × (t.runs ≡ sum one rows + 1)
    × (t.window_5h.tokens ≡ sum tokens (select (is_within clk.now window_5h) rows) + reported)
    × (t.window_7d.tokens ≡ sum tokens (select (is_within clk.now window_7d) rows) + reported)
