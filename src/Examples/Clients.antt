-- ===== src/Examples/Clients.antt =====
-- The properties of the guard and of the clients at concrete inputs.
use atmcp.Base.{
  suc, is_some, All, ℕ, ◌+◌, String, ◌≡◌, refl, Bool, true, false, ◌||◌, Option, none, some, List,
  [], ◌∷◌, arith, contains, ◌==◌, map, concat, eqb, if◌then◌else◌, pos, ◌⊎◌,
}
use Prim.Native.String.{◌++◌ as ◌<>◌}
use atmcp.Base.Table.{delete}
use atmcp.Schema.{GuardRule, GuardRequest, deny, ask, substring, pending, allowed, RequestStatus}
use atmcp.Server.{Server, replied, serve}
use atmcp.Idempotency.{idempotent}
use atmcp.Wire.{Reply, knowledge_posted}
use atmcp.Examples.Data.{at, alice, bob, db, server}
use atmcp.Guard.{
  Asked, Verdict, check, resolve_request, get_request, resolved, not_pending_or_unknown,
  resolved_row, verdict_of, team_rules,
}
use atmcp.Guard.Rules.{Regex, decide, rule_matches}
use atmcp.Guard.Decides.{check_lem, judged, forbidden, ruled, Followed, Audited}
use atmcp.Guard.Requests.{resolve_request_once}
use atmcp.Host.Gate.{guard_allows, guard_allows_lem, Cleared, forbidden-blocked, verdict_in, Passed}
use atmcp.Host.Lanes.{Host, Work, inbox, look, claim_answered, ended, run, turn_of, is_turn}
use atmcp.Host.Lanes.Serial.{LanesOk, run-LanesOk, lane_reused}
use atmcp.Host.Stream.{Line, classify_event, drive_claude, result_text}
use atmcp.Host.Stream.Shown.{drive_claude-shown, shown, any_delta, last_outcome}
use atmcp.Knowledge.{
  Outside, post_knowledge, retract_knowledge, find_known, content_id_of, normal_post, contributors,
}
use atmcp.Knowledge.Search.{search_knowledge}
use atmcp.Knowledge.Posts.{Current, contributed, post_knowledge_lem}
use atmcp.Knowledge.Hidden.{retract-search, IsOther}
use atmcp.Poller.{Money, Args, Run, Worker, Ended, execute_directive}
use atmcp.Poller.Retries.{execute_directive_lem, Settled}

-- Patterns that are searched as plain text, and no letters that have another case.
abbrev pub plain : Regex
plain = record { search = λ p i t. some (contains p t); lower = λ t. t }

abbrev no_deploys : GuardRule
no_deploys = record {
  id = 1;
  team_id = "core";
  kind = deny;
  pattern = "deploy";
  pattern_type = substring;
  reason = none;
  enabled = true;
  created_at = 1;
}

abbrev guarded : Server
guarded = record server {
  db = record db {
    guard_rules = no_deploys ∷ record no_deploys { id = 2; kind = ask; pattern = "push" } ∷ [];
    last_rule_id = 2;
  };
}

abbrev pushing : Asked
pushing = record { agent_id = some "a2"; command = "git push"; tool = none; session_id = none }

abbrev deploying : Asked
deploying = record pushing { command = "make deploy" }

check_example :
    let rules = team_rules "core" guarded.db in
    let v = decide plain rules "git push" in
    let after = check plain (at 9) "core" pushing guarded.db guarded in
    (v.decision ≡ judged (forbidden plain rules "git push") (ruled plain rules "git push" ask))
    × ((id : Option ℕ) × (after.0 ≡ replied (record { ruling = v; request_id = id }))
        × Followed (at 9) "core" pushing v v.decision id guarded.db after.1.db
        × Audited (at 9) "core" pushing v guarded.db after.1.db)
check_example = check_lem plain (at 9) "core" pushing guarded.db guarded

abbrev waiting : GuardRequest
waiting = record {
  id = 1;
  team_id = "core";
  agent_id = some "a2";
  session_id = none;
  tool = none;
  command = "git push";
  status = pending;
  reason = none;
  resolved_by = none;
  created_at = 9;
  resolved_at = none;
}

abbrev asked : Server
asked = record server { db = record db { guard_requests = waiting ∷ []; last_request_id = 1 } }

resolve_request_once_example :
    let first = resolve_request (at 12) "core" 1 true (some "eve") asked in
    (first.0 ≡ replied (resolved 1 (verdict_of true)))
    × (get_request "core" 1 first.1.db
        ≡ some (resolved_row 12 (verdict_of true) (some "eve") waiting))
    × (resolve_request (at 15) "core" 1 false (some "mallory") first.1
        ≡ (replied not_pending_or_unknown, first.1))
unfolding get_request
resolve_request_once_example =
    resolve_request_once "core" 1 asked refl refl refl (at 12) (at 15) true false (some "eve")
      (some "mallory")

abbrev asks : Verdict
asks = record {
  ruling = record { decision = ask; reason = some "team ask rule"; rule = none };
  request_id = some 1;
}

-- A human approves between the first and the second poll.
abbrev approves : ℕ → Option RequestStatus
approves t = if eqb t 3 then some pending else some allowed

guard_allows_example :
    (p : Passed) × (guard_allows plain (some asks) approves 300 "git push" ≡ some p)
    × ((p.0 ≡ false) ⊎ Cleared plain (some asks) approves 300 "git push")
guard_allows_example = guard_allows_lem plain (some asks) approves 300 "git push"

forbidden-blocked_example :
    let after = check plain (at 9) "core" deploying guarded.db guarded in
    let v = decide plain (team_rules "core" guarded.db) "make deploy" in
    (guard_allows plain (verdict_in after.0) approves 300 "make deploy" ≡ some (false, v.reason))
    × Audited (at 9) "core" deploying v guarded.db after.1.db
unfolding rule_matches
forbidden-blocked_example =
    forbidden-blocked plain (at 9) "core" deploying guarded approves 300 refl

abbrev idle : Host
idle = record { running = []; batch = []; claiming = none }

abbrev job : String → String → Work
job id thread = record { directive_id = id; session_id = some thread }

run-LanesOk_example : LanesOk 1 (
    run 1
      (inbox (job "d1" "w1" ∷ job "d2" "w2" ∷ []) ∷ look ∷ claim_answered true ∷ look ∷ [])
      idle)
run-LanesOk_example =
    run-LanesOk 1
      (inbox (job "d1" "w1" ∷ job "d2" "w2" ∷ []) ∷ look ∷ claim_answered true ∷ look ∷ []) idle
      (record { serial = tt; bounded = omega arith; room = tt })

abbrev full : Host
full = record { running = turn_of (job "d1" "w1") ∷ []; batch = []; claiming = none }

lane_reused_example :
    run 1
      (ended (turn_of (job "d1" "w1"))
        ∷ inbox (job "d3" "w1" ∷ [])
        ∷ look
        ∷ claim_answered true
        ∷ [])
      full
    ≡ (record full {
      running =
          turn_of (job "d3" "w1")
          ∷ delete (is_turn (turn_of (job "d1" "w1"))) (turn_of (job "d1" "w1") ∷ []);
      batch = [];
    })
lane_reused_example =
    lane_reused 1 full (turn_of (job "d1" "w1")) (job "d3" "w1") []
      (record { serial = (refl, tt); bounded = omega arith; room = tt }) refl refl refl refl

abbrev blank : Line
blank = record {
  type = none;
  subtype = none;
  session_id = none;
  event_type = none;
  delta_type = none;
  delta_text = none;
  content = [];
  outcome = record { is_error = false; result = none };
}

abbrev said : String → Line
said t = record blank {
  type = some "stream_event";
  event_type = some "content_block_delta";
  delta_type = some "text_delta";
  delta_text = some t;
}

abbrev stream : List Line
stream =
    record blank { type = some "system"; subtype = some "init"; session_id = some "c1" }
    ∷ said "all "
    ∷ said "done"
    ∷ record blank {
      type = some "result";
      outcome = record { is_error = false; result = some "all done" };
    }
    ∷ []

drive_claude-shown_example :
    let ks = map classify_event stream in
    let final = result_text (last_outcome none ks) in
    concat (drive_claude none stream "" (pos 0)).sent
    ≡ shown false ks <> (if any_delta false ks || final == "" then "" else final)
drive_claude-shown_example = drive_claude-shown none stream "" (pos 0)

-- Cents, with no budget.
abbrev cents : Money ℕ
cents = record {
  add = λ a b. a + b;
  round = λ a. a;
  is_positive = λ a. false;
  reaches = λ a b. false;
}

abbrev args : Args ℕ
args = record { resume_mode = true; cost_budget = 0; token_budget = 0; max_retries = 2 }

-- The model is overloaded once.
abbrev exec : ℕ → Option String → Bool → Run ℕ
exec n sid force =
    if force
    then record { ok = true; result = "done"; new_sid = some "c1"; usage = none }
    else record { ok = false; result = "API Error: overloaded"; new_sid = some "c1"; usage = none }

abbrev worker : Worker ℕ
worker = record {
  session_id = none;
  spent_usd = 0;
  spent_tokens = 0;
  file = record { session_id = none; spent_usd = none; spent_tokens = none };
}

execute_directive_example :
    (e : Ended cents args) × (execute_directive cents args plain exec worker ≡ some e)
    × Settled cents args plain 0 e
execute_directive_example = execute_directive_lem cents args plain exec worker

-- The title as the address of a content, and a LIKE that finds everything.
abbrev outside : Outside
outside = record {
  digest = λ title body tags. title;
  lower = λ t. t;
  full_text = λ query rows. some rows;
  like = λ pattern text. true;
}

-- bob posts what alice has found already.
abbrev found : Server
found = (post_knowledge outside (at 5) alice "leak" "in the parser" ("bug" ∷ []) none none server).1

post_knowledge_example :
    let p = normal_post outside "leak" "in the parser" ("bug" ∷ []) none in
    let cid = content_id_of outside p in
    let before = find_known "core" cid found.db in
    let n =
      (if contributed "core" cid "a2" found.db
        then contributors "core" cid found.db
        else suc (contributors "core" cid found.db)) in
    let after =
      post_knowledge outside (at 6) bob "leak" "in the parser" ("bug" ∷ []) none none found in
    (after.0 ≡ replied (knowledge_posted cid (found.db.last_event_id + 1) (is_some before) n))
    × Current bob n before (find_known "core" cid after.1.db)
post_knowledge_example =
    post_knowledge_lem outside (at 6) bob "leak" "in the parser" ("bug" ∷ []) none found

retract-search_example :
    let after = retract_knowledge (at 7) alice "leak" none found in
    (after.0 ≡ replied (Reply.knowledge_retracted "leak" (found.db.last_event_id + 1)))
    × All
        (IsOther "core" "leak")
        (search_knowledge outside bob (some "parser") [] 0 (pos 10) after.1.db)
unfolding post_knowledge serve idempotent
retract-search_example =
    retract-search outside (at 7) alice bob "leak" (some "parser") [] 0 (pos 10) found _ refl refl
