-- ===== src/Examples/Witnesses.antt =====
-- Each property at a concrete input.
use atmcp.Base.{
  ◌+◌, ◌*◌, ◌≤◌, ◌<◌, ◌≡◌, refl, true, false, none, some, List, [], ◌∷◌, arith, subst, ◌⊎◌, pos,
  All,
}
use atmcp.Base.Table.{select}
use atmcp.Examples.Data.{
  cfg, at, alice, bob, server, db, board, task_of, joined, empty, fill, order,
}
use atmcp.Schema.{Task, TaskStatus, opened, Directive}
use atmcp.Wire.{Reply, claimed, nothing_open, memory_set, conflict}
use atmcp.Hub.{current_gen, touches, wait_for_change}
use atmcp.Hub.Wakeups.{wait-signalled, signal_all, published, ticked}
use atmcp.Db.{TxState, done, result}
use atmcp.Server.{Server, Answer, replied, serve, then_redis}
use atmcp.Server.Frame.{start}
use atmcp.Idempotency.{idempotent}
use atmcp.Idempotency.Once.{replayed}
use atmcp.Tasks.{find_task, deps_unmet}
use atmcp.Tasks.Invariant.{TasksOk, DbOk}
use atmcp.Tasks.Claim.{
  claim_task, claim_tx, do_claim, claim_next_tx, mirror_claim, is_eligible, comes_before,
  or_default,
}
use atmcp.Tasks.Claim.Outcome.{do_claim-reply, claim_reply}
use atmcp.Tasks.Create.{create_task}
use atmcp.Tasks.Work.{eligible_unblocked}
use atmcp.Tasks.Eligible.{Ready, depends_on, eligible_unblocked-Ready, claim_next_tx_lem}
use atmcp.Tasks.Board.{goal_rollup, list_tasks}
use atmcp.Tasks.Views.{goal_rollup-Bounded, list_tasks-since}
use atmcp.Tasks.Tokens.{DbAtLeast}
use atmcp.Reaper.{reap_one}
use atmcp.Reaper.Reaps.{Expired, reap_one_lem}
use atmcp.Memory.{set_memory}
use atmcp.Memory.Versions.{cas_one_winner}
use atmcp.Directives.{find_directive}
use atmcp.Directives.Life.{Later}
use atmcp.Directives.Runs.{DirectiveOp, claim_op, report_op, cancel_op, act_all, act_all-Later}
use atmcp.Tasks.Settle.{Holds, complete_task_lem, fail_task_lem, release_task-done}
use atmcp.Tasks.Work.{fail_task, release_task, complete_task, eligible_unblocked}
use atmcp.Tasks.Claim.{take_task}
use atmcp.Wire.{stale_token, completed, released, Reply}
use atmcp.Base.{◌+◌, false}
use atmcp.Identity.{Join, join_team}
use atmcp.Identity.Names.{AgentsOk, join_team-AgentsOk}
use atmcp.Identity.Resolve.{resolve, rehydrate}
use atmcp.Redis.{get_session, set_lease, extend_lease, extended, other_holder, absent}
use atmcp.Redis.Leases.{extend_lease-set_lease}
use atmcp.Identity.{bind}
use atmcp.Identity.Sticky.{resolve_again}
use atmcp.Events.{append, new_event}
use atmcp.Events.Log.{append_lem, LogOk}
use atmcp.Schema.{agent_joined}
use atmcp.Base.{ℕ, ltb, if◌then◌else◌}
use atmcp.Status.{sync}
use atmcp.Status.Cursor.{sync-resumes}
use atmcp.Output.{Chunk, append_output}
use atmcp.Output.Tails.{append_output-row}
use atmcp.Schema.{Output}
use atmcp.Base.Table.{exists_row}
use atmcp.Base.{◌==◌, ◌&&◌, String}
use atmcp.Operations.{Op, reap_op, step, run}
use atmcp.Operations.Invariant.{run-DbOk}
use atmcp.Operations.Fencing.{run-AtLeast}
use atmcp.Operations.Zombies.{run-Zombie, Zombie}

board-filled : (run cfg fill empty).db.tasks ≡ board
unfolding run step create_task serve idempotent
board-filled = refl

board-TasksOk : TasksOk board
board-TasksOk =
    subst TasksOk board-filled
      (run-DbOk cfg fill empty (omega arith) (record { keyed = λ x y. tt; rows = tt }))

-- Alice claims "build", her lease runs out, Bob gets it; Alice comes back.
abbrev expired : List Op
expired = reap_op (at 200000) 200001 "core" "build" ∷ []

abbrev taken : Server
taken = (claim_task cfg (at 20) alice "build" none server).1

abbrev retaken : Server
retaken = (claim_task cfg (at 200002) bob "build" none (run cfg expired taken)).1

run-Zombie_example :
    (1 < 2)
    × ((x : Task) × (find_task "core" "build" retaken.db ≡ some x)
        × (1 < x.fencing_token)
        × Zombie cfg alice "build" 1 retaken x)
unfolding run step claim_task claim_tx do_claim reap_one serve idempotent
run-Zombie_example =
    run-Zombie cfg (at 20) (at 200002) alice bob "build" server expired [] 1 2 90020 290002 90 90
      (omega arith) board-TasksOk refl refl refl

run-DbOk_example : DbOk (run cfg fill empty).db
run-DbOk_example = run-DbOk cfg fill empty (omega arith) (record { keyed = λ x y. tt; rows = tt })

run-AtLeast_example : DbAtLeast "core" "build" 0 (run cfg expired server).db
run-AtLeast_example =
    run-AtLeast "core" "build" 0 cfg expired server (omega arith) board-TasksOk
      (task_of "build" (pos 1) 10, refl, omega arith)

do_claim-reply_example :
    (after : TxState) × (do_claim cfg (at 20) alice "test" (start db)
      ≡ done
          (claim_reply cfg
            (at 20)
            "test"
            (find_task "core" "test" db)
            (deps_unmet "core" "test" db))
          after)
do_claim-reply_example =
    do_claim-reply cfg (at 20) alice "test" (start db) (board-TasksOk.keyed "core" "test")

claim_next_tx_example :
    ((select (is_eligible "core" db) board ≡ [])
      × (claim_next_tx cfg (at 20) alice (start db) ≡ done (result nothing_open) (start db)))
    ⊎ ((x : Task) × (after : TxState) × Ready "core" db x
        × All (λ y. comes_before y x ≡ false) (select (is_eligible "core" db) board)
        × (claim_next_tx cfg (at 20) alice (start db)
            ≡ done
                (result (
                  let ttl = or_default x.lease_ttl_s 90 in
                  claimed x.task_id (x.fencing_token + 1) (20 + ttl * 1000) ttl))
                after))
claim_next_tx_example = claim_next_tx_lem cfg (at 20) alice (start db) board-TasksOk

eligible_unblocked-Ready_example :
    All
      (λ id. (t : Task) × (t.task_id ≡ id) × (Ready "core" db t × (depends_on "build" db t ≡ true)))
      (eligible_unblocked "core" "build" db)
eligible_unblocked-Ready_example = eligible_unblocked-Ready "core" "build" db board-TasksOk

goal_rollup-Bounded_example :
    ((goal_rollup "core" none db).done_weight ≤ (goal_rollup "core" none db).total_weight)
    × ((goal_rollup "core" none db).progress_pct ≤ 100)
    × ((goal_rollup "core" none db).task_count ≤ (goal_rollup "core" none db).total_weight)
goal_rollup-Bounded_example = goal_rollup-Bounded "core" none db board-TasksOk

list_tasks-since_example : list_tasks "core" none none none 7 (pos 0) db ≡ []
list_tasks-since_example =
    list_tasks-since "core" none none none 7 (pos 0) db (omega arith) board-TasksOk

-- The task once Alice has claimed "build".
abbrev held : Task
held = take_task 20 "a1" 90020 (task_of "build" (pos 1) 10)

reap_one_example :
    let after = reap_one (at 200000) 200001 "core" "build" taken in
    ((¬ Expired 200000 held) × (after ≡ (replied false, taken)))
    ⊎ ((Expired 200000 held
          × (3 ≤ 1)
          × (after.0 ≡ replied true)
          × (find_task "core" "build" after.1.db
              ≡ some (record held {
                status = TaskStatus.failed;
                assignee = none;
                attempts = 1;
                lease_expires_at = none;
                updated_at = 200001;
              })))
        ⊎ (Expired 200000 held
            × (1 < 3)
            × (after.0 ≡ replied true)
            × (find_task "core" "build" after.1.db
                ≡ some (record held {
                  status = opened;
                  assignee = none;
                  attempts = 1;
                  lease_expires_at = none;
                  updated_at = 200001;
                }))))
unfolding take_task claim_task claim_tx do_claim serve idempotent
reap_one_example = reap_one_lem (at 200000) 200001 "core" "build" taken held refl

wait-signalled_example :
    wait_for_change "core"
      (current_gen "core" [])
      (signal_all (ticked "other" ∷ published (joined ∷ []) ∷ []) [])
      []
    ≡ true
unfolding touches
wait-signalled_example = wait-signalled "core" (ticked "other" ∷ published (joined ∷ []) ∷ []) []

cas_one_winner_example :
    let s' = (set_memory (at 20) alice "plan" "1" (some 0) none server).1 in
    ((set_memory (at 20) alice "plan" "1" (some 0) none server).0 ≡ replied (memory_set "plan" 1 1))
    × (set_memory (at 21) bob "plan" "2" (some 0) none s'
        ≡ (replied (conflict "plan" (some "1") 1 (some "a1")), s'))
cas_one_winner_example = cas_one_winner (at 20) (at 21) alice bob "plan" "1" "2" server refl

-- Bob takes up an order, reports it done, and reports again.
abbrev orders : List DirectiveOp
orders =
    claim_op (at 21) bob "d1"
    ∷ report_op (at 22) bob "d1" "done" none none none
    ∷ report_op (at 23) bob "d1" "failed" none none none
    ∷ cancel_op (at 24) alice "d1"
    ∷ []

act_all-Later_example :
    (x : Directive) × (find_directive "core" "d1"
        (act_all orders (record server { db = record db { directives = order ∷ [] } })).db
      ≡ some x)
    × Later order x
act_all-Later_example =
    act_all-Later "core" "d1" order orders
      (record server { db = record db { directives = order ∷ [] } }) refl

-- Alice claims "build" under a key and retries.
abbrev keyed : Answer Reply × Server
keyed =
    serve (idempotent (at 20) alice (some "k") (claim_tx cfg (at 20) alice "build"))
      (then_redis (mirror_claim (at 20) alice)) server

-- Meanwhile Bob has claimed another task.
abbrev busy : Server
busy = (claim_task cfg (at 25) bob "docs" none keyed.1).1

replayed_example :
    serve
      (idempotent (at 30) alice (some "k") (claim_tx cfg (at 30) alice "build"))
      (then_redis (mirror_claim (at 30) alice))
      busy
    ≡ (replied (claimed "build" 1 90020 90), busy)
unfolding claim_tx do_claim serve idempotent claim_task
replayed_example =
    replayed (at 20) (at 30) alice (some "k") "k" (claim_tx cfg (at 20) alice "build")
      (claim_tx cfg (at 30) alice "build") (mirror_claim (at 20) alice) (mirror_claim (at 30) alice)
      server busy (claimed "build" 1 90020 90) (claimed "build" 1 90020 90) _ refl refl refl refl
      refl

sync-resumes_example :
    let log = record db { events = joined ∷ record joined { event_id = 2 } ∷ [] } in
    (sync "core" 1 (pos 0) log).events ≡ record joined { event_id = 2 } ∷ []
unfolding sync
sync-resumes_example =
    sync-resumes "core" 0 (pos 1) (pos 0)
      (record db { events = joined ∷ record joined { event_id = 2 } ∷ [] })
      ((omega arith, tt), (tt, tt))

abbrev chunk : Chunk
chunk = record { text = some "ok"; directive_id = none; source = "agent"; session_id = some "x" }

append_output-row_example :
    (o : Output) × ((append_output cfg (at 20) "core" "a1" chunk server).0 ≡ replied 1)
    × ((append_output cfg (at 20) "core" "a1" chunk server).1.db.agent_output ≡ o ∷ [])
    × (o.id ≡ 1)
    × (o.agent_id ≡ "a1")
    × (o.text ≡ "ok")
    × ((o.session_id ≡ none)
        ⊎ ((id : String) × (o.session_id ≡ some id)
            × (exists_row
                  (λ x. (x.team_id == "core" && x.session_id == id) && x.agent_id == "a1")
                  db.sessions
                ≡ true)))
append_output-row_example = append_output-row cfg (at 20) "core" "a1" chunk server

complete_task_example :
    let after = complete_task (at 30) alice "build" 1 none none taken in
    ((¬ Holds "a1" 1 held) × (after ≡ (replied (stale_token 1), taken)))
    ⊎ (Holds "a1" 1 held
        × (after.0
            ≡ replied (
                completed "build"
                  (taken.db.last_event_id + 1)
                  (eligible_unblocked "core" "build" after.1.db)))
        × (find_task "core" "build" after.1.db
            ≡ some (record held {
              status = TaskStatus.done;
              progress_pct = 100;
              result_summary = none;
              lease_expires_at = none;
              updated_at = 30;
            })))
unfolding take_task claim_task claim_tx do_claim serve idempotent
complete_task_example = complete_task_lem (at 30) alice "build" 1 none taken held refl

fail_task_example :
    let after = fail_task (at 30) alice "build" 1 none taken in
    ((¬ Holds "a1" 1 held) × (after ≡ (replied (stale_token 1), taken)))
    ⊎ ((Holds "a1" 1 held
          × (3 ≤ 1)
          × (after.0 ≡ replied (Reply.failed "build" false true 1))
          × (find_task "core" "build" after.1.db
              ≡ some (record held {
                status = TaskStatus.failed;
                assignee = none;
                attempts = 1;
                lease_expires_at = none;
                updated_at = 30;
                result_summary = none;
              })))
        ⊎ (Holds "a1" 1 held
            × (1 < 3)
            × (after.0 ≡ replied (Reply.failed "build" true false 1))
            × (find_task "core" "build" after.1.db
                ≡ some (record held {
                  status = opened;
                  assignee = none;
                  attempts = 1;
                  lease_expires_at = none;
                  updated_at = 30;
                  result_summary = none;
                }))))
unfolding take_task claim_task claim_tx do_claim serve idempotent
fail_task_example = fail_task_lem (at 30) alice "build" 1 none taken held refl

release_task-done_example :
    let completed_server = (complete_task (at 30) alice "build" 1 none none taken).1 in
    let after = release_task (at 40) alice "build" 1 completed_server in
    (find_task "core" "build" completed_server.db
      ≡ some (record held {
        status = TaskStatus.done;
        progress_pct = 100;
        result_summary = none;
        lease_expires_at = none;
        updated_at = 30;
      }))
    × (after.0 ≡ replied (released "build"))
    × (find_task "core" "build" after.1.db
        ≡ some (record held {
          status = opened;
          assignee = none;
          progress_pct = 100;
          result_summary = none;
          lease_expires_at = none;
          updated_at = 40;
        }))
unfolding take_task claim_task claim_tx do_claim serve idempotent
release_task-done_example =
    release_task-done (at 30) (at 40) alice "build" 1 none taken held refl (refl, refl)

-- Carol joins a team without agents; the hash of a token is the token here.
abbrev hall : Server
hall = record empty {
  db = record db {
    agents = [];
    teams =
        record {
          team_id = "core";
          name = "Core";
          join_token_hash = "secret";
          dashboard_token_hash = none;
          created_at = 1;
        }
        ∷ [];
  };
}

abbrev carol : Join
carol = record {
  display_name = "carol";
  capabilities_json = "[]";
  capabilities = [];
  agent_id = none;
}

join_team-AgentsOk_example :
    AgentsOk (join_team cfg (λ t. t) (at 5) "s3" "Core" "secret" "a3" carol hall).1.db.agents
join_team-AgentsOk_example =
    join_team-AgentsOk cfg (λ t. t) (at 5) "s3" "Core" "secret" "a3" carol hall
      (record { named = λ t n. tt; keyed = λ t a. tt })

-- After a restart the mirror still knows alice's session.
abbrev restarted : Server
restarted = record server {
  redis = record {
    up = true;
    leases = [];
    heartbeats = [];
    bindings = record { sid = "s1"; team_id = "core"; agent_id = "a1"; expires_at = 99 } ∷ [];
  };
  bound = [];
}

-- Bob joins on another session in between.
abbrev both_bound : Server
both_bound = record restarted { bound = record bob { session_id = "s2" } ∷ alice ∷ [] }

resolve_again_example :
    resolve cfg (λ t. t) (at 500) "a8" (some "s1") none (some "dave") both_bound
    ≡ (replied alice, both_bound)
unfolding resolve rehydrate get_session bind
resolve_again_example =
    resolve_again cfg (λ t. t) (at 20) (at 500) "a9" "a8" "s1" (some "s1") none none none
      (some "dave") restarted (record restarted { bound = alice ∷ [] }) both_bound alice refl refl
      refl

-- The log holds one event.
abbrev logged : TxState
logged = record { db = record db { events = joined ∷ []; last_event_id = 1 }; queue = [] }

append_example :
    (id : ℕ) × (t' : TxState) × (append
        (at 9)
        "core"
        agent_joined
        "agent"
        (some "a2")
        none
        []
        logged
      ≡ done id t')
    × All (λ x. x.event_id < id) (joined ∷ [])
    × (t'.db.events
        ≡ joined ∷ new_event (at 9) "core" agent_joined "agent" (some "a2") none [] id ∷ [])
    × (t'.queue ≡ new_event (at 9) "core" agent_joined "agent" (some "a2") none [] id ∷ [])
    × LogOk t'.db
append_example =
    append_lem (at 9) "core" agent_joined "agent" (some "a2") none [] logged
      ((tt, tt), (omega arith, tt))

extend_lease-set_lease_example :
    let held = set_lease 1000 "core" "build" "a1" 7 90 server.redis in
    extend_lease 2000 "core" "build" "a1" 60 held ≡ (
      if ltb 2000 (1000 + 90 * 1000)
      then if "a1" == "a1"
        then (extended, set_lease 2000 "core" "build" "a1" 7 60 held)
        else (other_holder, held)
      else (absent, held))
extend_lease-set_lease_example =
    extend_lease-set_lease 1000 2000 "core" "build" "a1" "a1" 7 90 60 server.redis refl
