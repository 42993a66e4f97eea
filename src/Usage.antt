-- ===== src/Usage.antt =====
-- services/usage.py: the usage that the workers report, and what it adds up to. A float is its `repr`, and
-- the arithmetic on floats is a parameter.
pub mod Meters
pub mod Totals
pub mod Isolation
pub mod Reads
pub mod Adds
use atmcp.Base.{
  ℕ, suc, ◌+◌, String, ◌==◌, Bool, true, false, not, ◌&&◌, Option, none, some, List, [], ◌∷◌, leb,
  ltb, max, coalesce, if◌then◌else◌, ℤ, pos, negsuc,
}
use atmcp.Base.Table.{fetch_one, select, exists_row, insert, delete, row_count}
use atmcp.Schema.{UsageEvent, Clock, Json, usage_reported}
use atmcp.Db.{Db, Tx, Exn, overflow_error, raise, pure, fetch, execute, ◌>>=◌, ◌>>◌, done}
use atmcp.Events.{append, opt_str}
use atmcp.Output.{directive_tag}
use atmcp.Server.{Server, Answer, raised, serve}

-- `read` is `_f`, at a value that is missing, 0, negative or no number too; `round` is `round(x, 6)`.
pub record Floats : Type 0 where
  pub zero : String
  pub add : String → String → String
  pub round : String → String
  pub read : Option String → String

-- A number of a report: missing or no number (where `_i` answers 0), an integer, or an infinity, which
-- JSON writes as Infinity or 1e999.
pub data Number : Type 0 where
  unread : Number
  whole : ℤ → Number
  infinite : Number

-- `_i`; `none` is the OverflowError of `int(inf)`, which it does not catch.
unfoldable pub read_count : Number → Option ℕ
read_count unread = some 0
read_count (whole (pos n)) = some n
read_count (whole (negsuc n)) = some 0
read_count infinite = none

-- The arguments of `record_usage` after the agent.
pub record Report : Type 0 where
  pub directive_id : Option String
  pub model : Option String
  pub input_tokens : Number
  pub output_tokens : Number
  pub cache_read : Number
  pub cache_creation : Number
  pub cost_usd : Option String
  pub num_turns : Number
  pub duration_ms : Number

-- The numbers of a report, as they are read.
pub record Counts : Type 0 where
  pub input_tokens : ℕ
  pub output_tokens : ℕ
  pub cache_read : ℕ
  pub cache_creation : ℕ
  pub num_turns : ℕ
  pub duration_ms : ℕ

-- The reads of the numbers, each of which may raise.
abbrev pub with_count : {A : Type 0} → Number → (ℕ → Option A) → Option A
with_count n go = elim (read_count n) [ none ↦ none | some k ↦ go k ]

abbrev pub counts_of : Report → Option Counts
counts_of r = with_count r.input_tokens λ input_tokens. with_count r.output_tokens λ output_tokens.
    with_count r.cache_read λ cache_read. with_count r.cache_creation λ cache_creation.
      with_count r.num_turns λ num_turns. with_count r.duration_ms λ duration_ms. some (record {
        input_tokens = input_tokens;
        output_tokens = output_tokens;
        cache_read = cache_read;
        cache_creation = cache_creation;
        num_turns = num_turns;
        duration_ms = duration_ms;
      })

-- SQLite's integers have 64 bits; for a larger one the INSERT raises an OverflowError.
abbrev pub fits_int64 : ℕ → Bool
fits_int64 n = ltb n 9223372036854775808

abbrev pub fit_int64 : Counts → Bool
fit_int64 n =
    (fits_int64 n.input_tokens && fits_int64 n.output_tokens)
    && (fits_int64 n.cache_read && fits_int64 n.cache_creation)
    && (fits_int64 n.num_turns && fits_int64 n.duration_ms)

unfoldable pub usage_row :
    Floats → Clock → String → String → Report → Counts → Option String → UsageEvent
usage_row fl clk team_id agent_id r n directive_id = record {
  team_id = team_id;
  agent_id = agent_id;
  directive_id = directive_id;
  model = r.model;
  input_tokens = n.input_tokens;
  output_tokens = n.output_tokens;
  cache_read = n.cache_read;
  cache_creation = n.cache_creation;
  cost_usd = fl.read r.cost_usd;
  num_turns = n.num_turns;
  duration_ms = n.duration_ms;
  ts = clk.now;
}

-- The answer, without `ok`.
pub record Recorded : Type 0 where
  pub agent_id : String
  pub cost_usd : String
  pub tokens : ℕ

-- Past the INSERT.
unfoldable pub usage_logged :
    Floats → Clock → String → String → Report → Counts → Option String → Tx (Unit {0})
unfolding usage_row append
usage_logged fl clk team_id agent_id r n directive_id = do
  execute (λ db. record db {
    usage_events = insert (usage_row fl clk team_id agent_id r n directive_id) db.usage_events;
  })
  eid ← append clk team_id usage_reported "agent" (some agent_id) (some agent_id) (
      ("model", opt_str r.model)
      ∷ ("input_tokens", Json.num n.input_tokens)
      ∷ ("output_tokens", Json.num n.output_tokens)
      ∷ ("cost_usd", Json.float (fl.round (fl.read r.cost_usd)))
      ∷ ("directive_id", opt_str directive_id)
      ∷ [])
  pure tt

unfoldable pub usage_tx : Floats → Clock → String → String → Report → Counts → Tx (Unit {0})
unfolding usage_logged
usage_tx fl clk team_id agent_id r n = do
  directive_id ← fetch (directive_tag team_id r.directive_id)
  if not (fit_int64 n)
      then raise overflow_error
      else usage_logged fl clk team_id agent_id r n directive_id

abbrev pub record_counts :
    Floats → Clock → String → String → Report → Server → Option Counts → Answer Recorded × Server
record_counts fl clk team_id agent_id r s none = (raised overflow_error, s)
record_counts fl clk team_id agent_id r s (some n) =
    serve (usage_tx fl clk team_id agent_id r n)
      (λ u redis. (
        record {
          agent_id = agent_id;
          cost_usd = fl.round (fl.read r.cost_usd);
          tokens = n.input_tokens + n.output_tokens;
        },
        redis,
      ))
      s

unfoldable pub record_usage :
    Floats → Clock → String → String → Report → Server → Answer Recorded × Server
unfolding usage_tx
record_usage fl clk team_id agent_id r s = record_counts fl clk team_id agent_id r s (counts_of r)

abbrev pub is_old : ℕ → ℕ → UsageEvent → Bool
is_old now retention_ms e = ltb (e.ts + retention_ms) now

-- `prune_expired`: how many rows were deleted.
unfoldable pub prune_usage : ℕ → ℕ → Db → ℕ × Db
prune_usage now retention_ms db = (
  row_count (is_old now retention_ms) db.usage_events,
  record db { usage_events = delete (is_old now retention_ms) db.usage_events },
)
