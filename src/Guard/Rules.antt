-- ===== src/Guard/Rules.antt =====
-- services/guard.py: how a command is judged. Python's regular expressions and its table of lower-case
-- letters are not part of the repository, and are parameters.
use atmcp.Base.{
  ℕ, ◌+◌, eqb, ltb, String, Bool, true, false, ◌&&◌, Option, none, some, List, ◌==◌, contains,
  str_ℕ, if◌then◌else◌, strip,
}
use Prim.Native.String.{◌++◌}
use atmcp.Base.Table.{fetch_one, select, order_by, insert, delete, row_count}
use atmcp.Schema.{GuardRule, Decision, allow, deny, ask, PatternType, substring, regex, Clock}
use atmcp.Db.{Db, Tx, pure, fetch, execute, ◌>>=◌, ◌>>◌}
use atmcp.Server.{Server, Answer, replied, serve}
use atmcp.Guard.Builtin.{Builtin, builtins}

-- `search pattern ignore_case text` is `re.search`; `none` is `re.error`, a pattern that does not
-- compile. `lower` is `str.lower`.
pub record Regex : Type 0 where
  pub search : String → Bool → String → Option Bool
  pub lower : String → String

pub record Ruling : Type 0 where
  pub decision : Decision
  pub reason : Option String
  pub rule : Option String

abbrev pub same_kind : Decision → Decision → Bool
same_kind allow allow = true
same_kind deny deny = true
same_kind ask ask = true
same_kind _ _ = false

module _ (re : Regex) where
  -- A pattern that does not compile matches nothing.
  abbrev pub finds : String → Bool → String → Bool
  finds pattern ignore_case cmd = elim (re.search pattern ignore_case cmd) [
    | none ↦ false
    | some found ↦ found
  ]

  abbrev pub hits : Builtin → String → Bool
  hits b cmd = finds b.pattern b.ignore_case cmd

  -- The first entry of the list that is found in the command.
  abbrev pub first_hit : List Builtin → String → Option Builtin
  first_hit list cmd = fetch_one (λ b. hits b cmd) list

  unfoldable pub match_builtin : String → Option Builtin
  match_builtin cmd = first_hit builtins cmd

  abbrev pub matches_as : PatternType → String → String → Bool
  matches_as regex pattern cmd = finds pattern true cmd
  matches_as substring pattern cmd = contains (re.lower pattern) (re.lower cmd)

  -- `_rule_matches`
  unfoldable pub rule_matches : GuardRule → String → Bool
  rule_matches r cmd = matches_as r.pattern_type r.pattern cmd

  abbrev pub applies : Decision → String → GuardRule → Bool
  applies kind cmd r = same_kind r.kind kind && rule_matches r cmd

  abbrev pub by_team : Decision → String → GuardRule → Ruling
  by_team decision reason r = record {
    decision = decision;
    reason = some reason;
    rule = some ("team:" ++ str_ℕ r.id);
  }

  abbrev pub by_builtin : Builtin → Ruling
  by_builtin b = record {
    decision = deny;
    reason = some b.why;
    rule = some ("builtin:" ++ b.label);
  }

  -- The four loops of `check`, from the last to the first: allow rules only annotate.
  abbrev pub or_allow : Option GuardRule → Ruling
  or_allow none = record { decision = allow; reason = none; rule = none }
  or_allow (some r) = by_team allow "team allow rule" r

  abbrev pub or_ask : List GuardRule → String → Option GuardRule → Ruling
  or_ask rules cmd none = or_allow (fetch_one (applies allow cmd) rules)
  or_ask rules cmd (some r) = by_team ask "team ask rule" r

  abbrev pub or_builtin : List GuardRule → String → Option Builtin → Ruling
  or_builtin rules cmd none = or_ask rules cmd (fetch_one (applies ask cmd) rules)
  or_builtin rules cmd (some b) = by_builtin b

  abbrev pub or_deny : List GuardRule → String → Option GuardRule → Ruling
  or_deny rules cmd none = or_builtin rules cmd (match_builtin cmd)
  or_deny rules cmd (some r) = by_team deny "team deny rule" r

  -- The decision of `check` on the rules that it read.
  unfoldable pub decide : List GuardRule → String → Ruling
  decide rules cmd = or_deny rules cmd (fetch_one (applies deny cmd) rules)

pub data RuleReply : Type 0 where
  bad_kind bad_pattern_type empty_pattern bad_regex : RuleReply
  rule_added : (id : ℕ) → RuleReply

abbrev pub read_kind : String → Option Decision
read_kind kind =
    if kind == "allow"
    then some allow
    else if kind == "deny"
    then some deny
    else if kind == "ask"
    then some ask
    else none

abbrev pub read_type : String → Option PatternType
read_type text =
    if text == "substring" then some substring else if text == "regex" then some regex else none

unfoldable pub rule_row :
    Clock → String → Decision → String → PatternType → Option String → ℕ → GuardRule
rule_row clk team_id kind pattern pattern_type reason id = record {
  id = id;
  team_id = team_id;
  kind = kind;
  pattern = pattern;
  pattern_type = pattern_type;
  reason = reason;
  enabled = true;
  created_at = clk.now;
}

unfoldable pub add_tx :
    Clock → String → Decision → String → PatternType → Option String → Tx RuleReply
unfolding rule_row
add_tx clk team_id kind pattern pattern_type reason = do
  execute (λ db. record db {
    guard_rules =
        insert (rule_row clk team_id kind pattern pattern_type reason (db.last_rule_id + 1))
          db.guard_rules;
    last_rule_id = db.last_rule_id + 1;
  })
  id ← fetch (λ db. db.last_rule_id)
  pure (rule_added id)

-- `re.compile` is asked on the empty text: it fails on every text or on none.
abbrev pub compiles : Regex → PatternType → String → Bool
compiles re substring pattern = true
compiles re regex pattern = elim (re.search pattern false "") [ none ↦ false | some found ↦ true ]

abbrev pub add_read :
    Regex
    → Clock
    → String
    → Option Decision
    → String
    → Option PatternType
    → Option String
    → Server
    → Answer RuleReply × Server
add_read re clk team_id none pattern type reason s = (replied bad_kind, s)
add_read re clk team_id (some kind) pattern none reason s = (replied bad_pattern_type, s)
add_read re clk team_id (some kind) pattern (some type) reason s =
    if strip pattern == ""
    then (replied empty_pattern, s)
    else if compiles re type pattern
    then serve (add_tx clk team_id kind pattern type reason) (λ r redis. (r, redis)) s
    else (replied bad_regex, s)

unfoldable pub add_rule :
    Regex
    → Clock
    → String
    → String
    → String
    → String
    → Option String
    → Server
    → Answer RuleReply × Server
unfolding add_tx
add_rule re clk team_id kind pattern pattern_type reason s =
    add_read re clk team_id (read_kind kind) pattern (read_type pattern_type) reason s

abbrev pub is_rule : String → ℕ → GuardRule → Bool
is_rule team_id id r = r.team_id == team_id && eqb r.id id

unfoldable pub list_rules : String → Db → List GuardRule
list_rules team_id db =
    order_by (λ a b. ltb a.id b.id) (select (λ r. r.team_id == team_id) db.guard_rules)

-- The answer is `ok`: whether one rule was deleted.
unfoldable pub delete_rule : String → ℕ → Server → Answer Bool × Server
delete_rule team_id id =
    serve
      (do
        n ← fetch (λ db. row_count (is_rule team_id id) db.guard_rules)
        execute (λ db. record db { guard_rules = delete (is_rule team_id id) db.guard_rules })
        pure (eqb n 1))
      (λ r redis. (r, redis))
