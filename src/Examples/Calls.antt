-- ===== src/Examples/Calls.antt =====
-- The properties of the usage accounting and of the REST calls at concrete inputs.
use atmcp.Base.{
  ap, sym, ◌∙◌, eq_iff, String, arith, ◌==◌, false, strip, refl, ◌+◌, ◌≡◌, true, none, some, [],
  ◌∷◌, pos,
}
use atmcp.Schema.{Team, Session, active, deny, substring}
use atmcp.Wire.{Reply}
use atmcp.Identity.{resolve_agent_ref}
use atmcp.Server.{Server, raised}
use atmcp.Db.{overflow_error}
use atmcp.Usage.{read_count, Floats, Report, whole, unread, infinite, record_usage}
use atmcp.Web.{bearer, Env, Call, directive_said, usage_op, delete_rule_op}
use atmcp.Web.Handlers.{session_message}
use atmcp.Web.Delivery.{Delivered, session_message-Delivered}
use atmcp.Web.Gate.{act, handle}
use atmcp.Web.Access.{Gated, presented, handle_lem}
use atmcp.Web.Outsiders.{Request, run_calls, IsOutsider, run_calls-outsiders}
use atmcp.Db.Isolation.{rows_of}
use atmcp.Compat.{Scope, forwarded, first_value}
use atmcp.Compat.Repaired.{Repaired, IsOtherName, forwarded_lem}
use atmcp.Examples.Data.{at, cfg, db, server}
use atmcp.Examples.Clients.{plain}

-- No arithmetic: the costs play no part in the counts.
abbrev floats : Floats
floats = record { zero = "0.0"; add = λ a b. a; round = λ a. a; read = λ a. "0.5" }

abbrev run : Report
run = record {
  directive_id = some "d9";
  model = some "opus";
  input_tokens = whole (pos 1200);
  output_tokens = whole (pos 300);
  cache_read = unread;
  cache_creation = unread;
  cost_usd = some "0.5";
  num_turns = whole (pos 3);
  duration_ms = whole (pos 4000);
}

-- alice has reported already.
abbrev spent : Server
spent = (record_usage floats (at 10) "core" "a1" run server).1

-- An infinite number of tokens.
overflow_runs :
    record_usage floats (at 20) "core" "a2" (record run { input_tokens = infinite }) spent
    ≡ (raised overflow_error, spent)
unfolding record_usage read_count
overflow_runs = refl

-- The hash of a token is the token here.
abbrev env : Env
env = record {
  hash_token = λ t. t;
  lower = λ t. t;
  is_json = λ t. true;
  re = plain;
  floats = floats;
  cfg = cfg;
  clk = at 20;
  new_id = "n1";
  waiting = record { ahead = []; later = []; db = db };
}

abbrev core : Team
core = record {
  team_id = "core";
  name = "core";
  join_token_hash = "secret";
  dashboard_token_hash = none;
  created_at = 1;
}

abbrev teamed : Server
teamed = record server { db = record db { teams = core ∷ [] } }

abbrev call : Call
call = record {
  team_name = "core";
  authorization = some "bearer secret";
  x_atmcp_token = none;
  body_token = none;
}

handle_example :
    Gated env call
      (presented env call (usage_op "bob" run))
      teamed
      (λ team_id. act env team_id (usage_op "bob" run) teamed)
      (handle env call (usage_op "bob" run) teamed)
handle_example = handle_lem env call (usage_op "bob" run) teamed

abbrev guests : Team
guests = record core { team_id = "guests"; name = "guests"; join_token_hash = "welcome" }

abbrev shared : Server
shared = record server {
  db = record db {
    teams = core ∷ guests ∷ [];
    guard_rules =
        record {
          id = 1;
          team_id = "core";
          kind = deny;
          pattern = "curl";
          pattern_type = substring;
          reason = none;
          enabled = true;
          created_at = 1;
        }
        ∷ [];
  };
}

-- A guess at the token of core, and a guest who wants to delete a rule of core.
abbrev guess : Request
guess = record {
  env = env;
  call = record call { authorization = some "bearer sesame" };
  op = delete_rule_op 1;
}

abbrev guest : Request
guest = record {
  env = env;
  call = record call { team_name = "guests"; authorization = some "bearer welcome" };
  op = delete_rule_op 1;
}

guess-IsOutsider : IsOutsider "core" shared.db guess
unfolding bearer
guess-IsOutsider a =
    let named : core ≡ a.team = ground (arith, a.named) in
    let token : "sesame" ≡ a.token = ground (arith, a.carried) in
    let same : ◌≡◌ {A = String} "sesame" "secret" =
      token ∙ a.hashed ∙ ap (λ (t : Team). t.join_token_hash) (sym named) in
    absurd (ground (arith, (eq_iff "sesame" "secret").1 same))

guest-IsOutsider : IsOutsider "core" shared.db guest
guest-IsOutsider a = let e : guests ≡ a.team = ground (arith, a.named) in rw (← e) refl

run_calls-outsiders_example :
    rows_of "core" (run_calls (guess ∷ guest ∷ []) shared).db ≡ rows_of "core" shared.db
run_calls-outsiders_example =
    run_calls-outsiders "core" (guess ∷ guest ∷ []) shared
      (guess-IsOutsider, (guest-IsOutsider, tt))

-- A thread of bob.
abbrev thread : Session
thread = record {
  session_id = "w1";
  team_id = "core";
  agent_id = "a2";
  title = "parser";
  driver = none;
  cli_session_id = none;
  worktree = none;
  messages_json = none;
  status = active;
  created_at = 1;
  updated_at = 1;
  last_event_id = 0;
}

abbrev threaded : Server
threaded = record teamed { db = record teamed.db { sessions = thread ∷ [] } }

session_message-Delivered_example :
    let after = session_message env "core" "w1" (some " fix it ") none (pos 0) threaded in
    (after.0
      ≡ directive_said (Reply.directive_sent "n1" "a2" (some "w1") (threaded.db.last_event_id + 1)))
    × Delivered env "core" "w1" (strip " fix it ") "a2" after.1.db
unfolding resolve_agent_ref
session_message-Delivered_example =
    session_message-Delivered env "core" "w1" (some " fix it ") none (pos 0) threaded thread refl
      refl refl refl

-- A proxy has stripped the content type and rewritten the host.
abbrev proxied : Scope
proxied = record {
  type = "http";
  method = "POST";
  headers = ("Host", "localhost:7890") ∷ ("X-Agent", "bob") ∷ [];
}

forwarded_example :
    let after = forwarded "team.example:8000" proxied in
    (forwarded "team.example:8000" after ≡ after)
    × ((proxied.type == "http") ≡ false → after ≡ proxied)
    × ((m : String) → IsOtherName m → first_value after.headers m ≡ first_value proxied.headers m)
    × ((proxied.type == "http") ≡ true → Repaired "team.example:8000" "POST" after.headers)
forwarded_example = forwarded_lem "team.example:8000" proxied
