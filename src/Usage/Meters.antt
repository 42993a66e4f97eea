-- ===== src/Usage/Meters.antt =====
-- services/usage.py: the meters of the agents and of a team.
use atmcp.Base.{ℕ, ◌+◌, String, ◌==◌, Bool, some, List, [], ◌∷◌, leb, max, if◌then◌else◌}
use atmcp.Base.Table.{select, exists_row}
use atmcp.Schema.{UsageEvent}
use atmcp.Db.{Db}
use atmcp.Usage.{Floats}

-- SUM and MAX of a column
abbrev pub sum : (UsageEvent → ℕ) → List UsageEvent → ℕ
sum g [] = 0
sum g (e ∷ es) = g e + sum g es

abbrev pub latest : List UsageEvent → ℕ
latest [] = 0
latest (e ∷ es) = max e.ts (latest es)

abbrev pub sum_cost : Floats → List UsageEvent → String
sum_cost fl [] = fl.zero
sum_cost fl (e ∷ es) = fl.add e.cost_usd (sum_cost fl es)

abbrev pub one : UsageEvent → ℕ
one e = 1

abbrev pub tokens : UsageEvent → ℕ
tokens e = e.input_tokens + e.output_tokens

pub record Window : Type 0 where
  pub cost_usd : String
  pub tokens : ℕ
  pub runs : ℕ

pub record Meter : Type 0 where
  pub input_tokens : ℕ
  pub output_tokens : ℕ
  pub cache_read : ℕ
  pub cache_creation : ℕ
  pub cost_usd : String
  pub runs : ℕ
  pub last_ts : ℕ
  pub window_5h : Window
  pub window_7d : Window

abbrev pub is_by : String → UsageEvent → Bool
is_by agent_id e = e.agent_id == agent_id

-- The agents of GROUP BY agent_id
abbrev pub groups : List UsageEvent → List String
groups [] = []
groups (e ∷ es) = if exists_row (is_by e.agent_id) es then groups es else e.agent_id ∷ groups es

-- ts >= now - ms
abbrev pub is_within : ℕ → ℕ → UsageEvent → Bool
is_within now ms e = leb now (e.ts + ms)

-- An agent without a row in the window has zeros.
unfoldable pub window : Floats → List UsageEvent → Window
window fl [] = record { cost_usd = fl.zero; tokens = 0; runs = 0 }
window fl (e ∷ es) = record {
  cost_usd = fl.round (fl.read (some (sum_cost fl (e ∷ es))));
  tokens = sum tokens (e ∷ es);
  runs = sum one (e ∷ es);
}

abbrev pub window_5h : ℕ
window_5h = 18000000

abbrev pub window_7d : ℕ
window_7d = 604800000

unfoldable pub meter : Floats → ℕ → List UsageEvent → Meter
unfolding window
meter fl now es = record {
  input_tokens = sum (λ e. e.input_tokens) es;
  output_tokens = sum (λ e. e.output_tokens) es;
  cache_read = sum (λ e. e.cache_read) es;
  cache_creation = sum (λ e. e.cache_creation) es;
  cost_usd = fl.round (fl.read (some (sum_cost fl es)));
  runs = sum one es;
  last_ts = latest es;
  window_5h = window fl (select (is_within now window_5h) es);
  window_7d = window fl (select (is_within now window_7d) es);
}

abbrev pub zero_meter : Floats → Meter
zero_meter fl = record {
  input_tokens = 0;
  output_tokens = 0;
  cache_read = 0;
  cache_creation = 0;
  cost_usd = fl.zero;
  runs = 0;
  last_ts = 0;
  window_5h = record { cost_usd = fl.zero; tokens = 0; runs = 0 };
  window_7d = record { cost_usd = fl.zero; tokens = 0; runs = 0 };
}

abbrev pub add_window : Floats → Window → Window → Window
add_window fl t a = record {
  cost_usd = fl.add t.cost_usd a.cost_usd;
  tokens = t.tokens + a.tokens;
  runs = t.runs + a.runs;
}

abbrev pub add_meter : Floats → Meter → Meter → Meter
add_meter fl t a = record {
  input_tokens = t.input_tokens + a.input_tokens;
  output_tokens = t.output_tokens + a.output_tokens;
  cache_read = t.cache_read + a.cache_read;
  cache_creation = t.cache_creation + a.cache_creation;
  cost_usd = fl.add t.cost_usd a.cost_usd;
  runs = t.runs + a.runs;
  last_ts = max t.last_ts a.last_ts;
  window_5h = add_window fl t.window_5h a.window_5h;
  window_7d = add_window fl t.window_7d a.window_7d;
}

-- The meter of each agent, and the sum over them so far.
abbrev pub agent_meter : Floats → ℕ → List UsageEvent → String → Meter
agent_meter fl now rows agent_id = meter fl now (select (is_by agent_id) rows)

abbrev pub add_agents : Floats → ℕ → List UsageEvent → List String → Meter → Meter
add_agents fl now rows [] t = t
add_agents fl now rows (a ∷ as_) t =
    add_agents fl now rows as_ (add_meter fl t (agent_meter fl now rows a))

abbrev pub meters : Floats → ℕ → List UsageEvent → List String → List (String × Meter)
meters fl now rows [] = []
meters fl now rows (a ∷ as_) = (a, agent_meter fl now rows a) ∷ meters fl now rows as_

abbrev pub round_window : Floats → Window → Window
round_window fl w = record w { cost_usd = fl.round w.cost_usd }

abbrev pub rounded : Floats → Meter → Meter
rounded fl t = record t {
  cost_usd = fl.round t.cost_usd;
  window_5h = round_window fl t.window_5h;
  window_7d = round_window fl t.window_7d;
}

pub record TeamUsage : Type 0 where
  pub agents : List (String × Meter)
  pub team : Meter

abbrev pub usage_of_team : String → Db → List UsageEvent
usage_of_team team_id db = select (λ e. e.team_id == team_id) db.usage_events

unfoldable pub team_usage : Floats → ℕ → String → Db → TeamUsage
unfolding meter
team_usage fl now team_id db =
    let rows = usage_of_team team_id db in
    record {
      agents = meters fl now rows (groups rows);
      team = rounded fl (add_agents fl now rows (groups rows) (zero_meter fl));
    }
