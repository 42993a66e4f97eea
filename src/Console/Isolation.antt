-- ===== src/Console/Isolation.antt =====
-- services/console.py: the commands of a team's console box, and the rows of another team.
use atmcp.Base.{
  String, ◌==◌, ◌≡◌, Bool, true, false, if◌then◌else◌, none, pos, Bool-cases, inl, inr, split_once,
  strip,
}
use atmcp.Tasks.Board.{list_tasks}
use atmcp.Db.Isolation.{Rows, Untouched}
use atmcp.Server.{Server}
use atmcp.Directives.Isolation.{send_directive-Untouched}
use atmcp.Directives.Isolation.Settled.{cancel_directive-Untouched}
use atmcp.Tasks.Isolation.{create_task-Untouched}
use atmcp.Console.{
  ConsoleReply, help, todo, unknown, run_status, run_watch, run_logs, run_directives, ConsoleEnv,
  console_caller, plain_command, plain_task, command_of, run_send, run_dispatch, run_cancel,
  run_verb, run_command,
}

module _ (other team : String) (out : (team == other) ≡ false) (f : Rows) (env : ConsoleEnv)
    (name : String) where
  run_send-Untouched :
      (a : String × String) (s : Server)
      → Untouched other f s.db
      → Untouched other f (run_send env team name a s).1.db
  run_send-Untouched (to_agent, instruction) s h = elim (Bool-cases (instruction == "")) [
    | inl e ↦ rw e h
    | inr e ↦ rw e (
        send_directive-Untouched other f env.clk (console_caller team name) out env.new_id to_agent
          (plain_command instruction) s h)
  ]

  run_dispatch-Untouched :
      (rest : String) (s : Server)
      → Untouched other f s.db
      → Untouched other f (run_dispatch env team name rest s).1.db
  run_dispatch-Untouched rest s h = elim (Bool-cases (rest == "")) [
    | inl e ↦ rw e h
    | inr e ↦ rw e (
        create_task-Untouched other f env.clk (console_caller team name) out env.cfg env.new_id
          (plain_task rest) s h)
  ]

  run_cancel-Untouched :
      (rest : String) (s : Server)
      → Untouched other f s.db
      → Untouched other f (run_cancel env team name rest s).1.db
  run_cancel-Untouched rest s h = elim (Bool-cases (rest == "")) [
    | inl e ↦ rw e h
    | inr e ↦
        rw e (cancel_directive-Untouched other f env.clk (console_caller team name) out rest s h)
  ]

  branch-Untouched :
      (b : Bool) (x y : ConsoleReply × Server)
      → Untouched other f x.1.db
      → Untouched other f y.1.db
      → Untouched other f (if b then x else y).1.db
  branch-Untouched true x y h k = h
  branch-Untouched false x y h k = k

  run_verb-Untouched :
      (verb rest : String) (s : Server)
      → Untouched other f s.db
      → Untouched other f (run_verb env team name verb rest s).1.db
  run_verb-Untouched verb rest s h =
      branch-Untouched _ (help, s) _ h
        (branch-Untouched _ (run_status env team name s, s) _ h
          (branch-Untouched _ (todo (list_tasks team none none none 0 (pos 300) s.db), s) _ h
            (branch-Untouched _ (run_send env team name (split_once rest) s) _
              (run_send-Untouched (split_once rest) s h)
              (branch-Untouched _ (run_dispatch env team name rest s) _
                (run_dispatch-Untouched rest s h)
                (branch-Untouched _ (run_watch env team name rest s, s) _ h
                  (branch-Untouched _ (run_cancel env team name rest s) _
                    (run_cancel-Untouched rest s h)
                    (branch-Untouched _ (run_logs env team name (split_once rest).0 s, s) _ h
                      (branch-Untouched _ (run_directives env team name rest s, s) (unknown verb, s)
                        h h))))))))

  pub run_command-Untouched :
      (raw : String) (s : Server)
      → Untouched other f s.db
      → Untouched other f (run_command env team name raw s).1.db
  unfolding run_command
  run_command-Untouched raw s h =
      run_verb-Untouched (env.lower (split_once (command_of raw)).0)
        (strip (split_once (command_of raw)).1) s h
