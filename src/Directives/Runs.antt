-- ===== src/Directives/Runs.antt =====
-- services/directives.py: runs of the operations that write directives.
use atmcp.Base.{String, ◌≡◌, refl, Option, none, some, List, [], ◌∷◌}
use atmcp.Schema.{Directive, Caller, Clock}
use atmcp.Db.{result}
use atmcp.Db.Keeps.{Keeps, After-pure}
use atmcp.Server.{Server}
use atmcp.Server.Frame.{serve-Keeps, idempotent-Keeps}
use atmcp.Identity.{resolve_agent_ref}
use atmcp.Directives.{
  Command, find_directive, claim_directive_tx, claim_directive, send_tx, send_to, send_directive,
}
use atmcp.Directives.Finish.{
  Verdict, verdict, report_found, report_tx, report_verdict, report_directive, cancel_tx,
  cancel_directive,
}
use atmcp.Directives.Life.{Later, Later-refl, Lives}
use atmcp.Directives.Moves.{report_found-Lives, cancel_found-Lives}
use atmcp.Directives.Claims.{claim_directive_row-Lives, send_tx-Lives}

-- A call that may write directives, with what it reads from its surroundings.
pub data DirectiveOp : Type 0 where
  send_op : Clock → Caller → String → String → Command → Option String → DirectiveOp
  claim_op : Clock → Caller → String → DirectiveOp
  report_op :
      Clock → Caller → String → String → Option String → Option String → Option String → DirectiveOp
  cancel_op : Clock → Caller → String → DirectiveOp

unfoldable pub act : DirectiveOp → Server → Server
act (send_op clk c id to_agent cmd key) s = (send_directive clk c id to_agent cmd key s).1
act (claim_op clk c id) s = (claim_directive clk c id s).1
act (report_op clk c id status summary output key) s =
    (report_directive clk c id status summary output key s).1
act (cancel_op clk c id) s = (cancel_directive clk c id s).1

unfoldable pub act_all : List DirectiveOp → Server → Server
unfolding act
act_all [] s = s
act_all (op ∷ ops) s = act_all ops (act op s)

module _ (team id : String) (d : Directive) where
  send_to-Lives :
      (clk : Clock) (c : Caller) (id' to_agent : String) (cmd : Command)
      (key target : Option String) (s : Server)
      → Lives team id d s.db
      → Lives team id d (send_to clk c id' to_agent cmd key target s).1.db
  unfolding send_to
  send_to-Lives clk c id' to_agent cmd key none s l = l
  send_to-Lives clk c id' to_agent cmd key (some target) s l =
      serve-Keeps (Lives team id d) _ _ s
        (idempotent-Keeps (Lives team id d) (λ db rows k. k) clk c key
          (send_tx clk c id' target cmd)
          (record { at = send_tx-Lives team id d clk c id' target cmd }))
        l

  report_tx-Lives :
      (clk : Clock) (c : Caller) (id' : String) (v : Verdict) (summary output : Option String)
      → Keeps (Lives team id d) (report_tx clk c id' v summary output)
  unfolding report_tx
  report_tx-Lives clk c id' v summary output = record {
    at = λ t l.
        After-pure (Lives team id d)
          (report_found clk c id' v summary output (find_directive c.team_id id' t.db) t) result
          (report_found-Lives team id d clk c id' v summary output _ t refl l);
  }

  report_verdict-Lives :
      (clk : Clock) (c : Caller) (id' : String) (v : Option Verdict)
      (summary output key : Option String) (s : Server)
      → Lives team id d s.db
      → Lives team id d (report_verdict clk c id' v summary output key s).1.db
  unfolding report_verdict
  report_verdict-Lives clk c id' none summary output key s l = l
  report_verdict-Lives clk c id' (some v) summary output key s l =
      serve-Keeps (Lives team id d) _ _ s
        (idempotent-Keeps (Lives team id d) (λ db rows k. k) clk c key _
          (report_tx-Lives clk c id' v summary output))
        l

  act-Lives : (op : DirectiveOp) (s : Server) → Lives team id d s.db → Lives team id d (act op s).db
  unfolding act send_directive claim_directive claim_directive_tx report_directive cancel_directive
      cancel_tx
  act-Lives (send_op clk c id' to_agent cmd key) s l =
      send_to-Lives clk c id' to_agent cmd key (resolve_agent_ref c.team_id to_agent s.db) s l
  act-Lives (claim_op clk c id') s l =
      serve-Keeps (Lives team id d) _ _ s
        (record { at = λ t k. claim_directive_row-Lives team id d clk c id' _ t refl k }) l
  act-Lives (report_op clk c id' status summary output key) s l =
      report_verdict-Lives clk c id' (verdict status) summary output key s l
  act-Lives (cancel_op clk c id') s l =
      serve-Keeps (Lives team id d) _ _ s
        (record { at = λ t k. cancel_found-Lives team id d clk c id' _ t refl k }) l

  act_all-Lives :
      (ops : List DirectiveOp) (s : Server)
      → Lives team id d s.db
      → Lives team id d (act_all ops s).db
  unfolding act_all
  act_all-Lives [] s l = l
  act_all-Lives (op ∷ ops) s l = act_all-Lives ops (act op s) (act-Lives op s l)

-- Whatever directives are sent, claimed, reported and canceled, by anybody and in any order, refused
-- calls included: a directive that is there stays there; its status moves only from pending to
-- running and from pending or running to a final status; its sender, target and instruction never
-- change; and once it is done, failed or canceled its row never changes again.
pub act_all-Later :
    (team id : String) (d : Directive) (ops : List DirectiveOp) (s : Server)
    → find_directive team id s.db ≡ some d
    → (x : Directive) × (find_directive team id (act_all ops s).db ≡ some x) × Later d x
act_all-Later team id d ops s found = act_all-Lives team id d ops s (d, found, Later-refl d)
