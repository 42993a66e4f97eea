-- ===== src/Web/Delivery.antt =====
-- web.py and services/directives.py: a chat message becomes a directive for the agent of its thread.
use atmcp.Base.{
  ◌+◌, String, ◌==◌, ◌≡◌, refl, ap, Bool, true, false, ◌&&◌, Option, none, some, List, [], ◌∷◌,
  coalesce, truthy, strip, ℤ, arith, Bool-cases, inl, inr, eq_refl,
}
use atmcp.Base.Table.{fetch_one, exists_row, insert, update}
use atmcp.Base.Table.Laws.{fetch_one-insert, fetch_one-update}
use atmcp.Schema.{Session, Directive, pending, Caller, Clock}
use atmcp.Wire.{Reply}
use atmcp.Db.{Db, TxState, Tried, Turn, done, raised, result}
use atmcp.Events.{append}
use atmcp.Idempotency.{idempotent}
use atmcp.Identity.{resolve_agent_ref}
use atmcp.Server.{Server, no_redis}
use atmcp.Server.Frame.{serve-done, start}
use atmcp.Sessions.{get_session, view_of}
use atmcp.Directives.{
  Command, is_session, is_directive, find_directive, honour_session, touch_session, set_directive,
  stamp, directive_row, send_tx, send_to, send_directive,
}
use atmcp.Directives.Inbox.{in_inbox}
use atmcp.Web.{Env, directive_said, message_command}
use atmcp.Console.{console_caller}
use atmcp.Web.Handlers.{session_message}

module _ {R : Type 0} (p q : R → Bool) where
  exists_row-fetch_one :
      (rs : List R) {r : R}
      → fetch_one p rs ≡ some r
      → q r ≡ true
      → exists_row (λ x. p x && q x) rs ≡ true
  exists_row-fetch_one [] h k = ground (arith, h)
  exists_row-fetch_one (x ∷ rs) {r} h k = elim (Bool-cases (p x)) [
    | inl e ↦
        let same : x ≡ r = ap (λ o. coalesce o x) (rw e at h) in
        let holds : q x ≡ true = rw same k in rw (e, holds) refl
    | inr e ↦ rw e (exists_row-fetch_one rs (rw e at h) k)
  ]

fetch_one-free :
    (team id : String) (ds : List Directive)
    → exists_row (λ d. d.directive_id == id) ds ≡ false
    → fetch_one (is_directive team id) ds ≡ none
fetch_one-free team id [] h = refl
fetch_one-free team id (d ∷ ds) h =
    let other : is_directive team id d ≡ false = ground (arith, h) in
    rw other (fetch_one-free team id ds (ground (arith, h)))

-- The state in which a body ended.
abbrev ended_in : TxState → Tried Turn → TxState
ended_in before (done r t) = t
ended_in before (raised e) = before

module _ (clk : Clock) (c : Caller) (id target sid : String) (cmd : Command) (db : Db)
    (honoured : honour_session c.team_id target cmd.session_id db ≡ some sid)
    (free : exists_row (λ d. d.directive_id == id) db.directives ≡ false) where
  abbrev sent : TxState
  sent = ended_in (start db) (send_tx clk c id target cmd (start db))

  send_tx-done :
      send_tx clk c id target cmd (start db)
      ≡ done (result (Reply.directive_sent id target (some sid) (db.last_event_id + 1))) sent
  unfolding send_tx append set_directive touch_session
  send_tx-done = rw (free, honoured) refl

  send_tx-rows :
      sent.db.directives
      ≡ update
          (is_directive c.team_id id)
          (stamp (db.last_event_id + 1))
          (insert (directive_row clk.now c id target (some sid) cmd) db.directives)
  unfolding send_tx append set_directive touch_session
  send_tx-rows = rw (free, honoured) refl

  send_tx-found :
      find_directive c.team_id id sent.db
      ≡ some (stamp (db.last_event_id + 1) (directive_row clk.now c id target (some sid) cmd))
  unfolding directive_row
  send_tx-found =
      let p = is_directive c.team_id id in
      let row = directive_row clk.now c id target (some sid) cmd in
      let mine : p row ≡ true = ground (arith, eq_refl c.team_id, eq_refl id) in
      let inserted =
        fetch_one-insert p row db.directives (fetch_one-free c.team_id id db.directives free) in
      let read =
        fetch_one-update p p (stamp (db.last_event_id + 1)) (λ d. refl)
          (insert row db.directives) in
      rw (send_tx-rows, read, inserted, mine, mine) refl

-- The directive that the agent of the thread will see.
pub record Delivered (env : Env) (team_id sid text : String) (target : String) (db : Db)
    : Type 0 where
  pub directive : Directive
  pub found : find_directive team_id env.new_id db ≡ some directive
  pub waits : directive.status ≡ pending
  pub inboxed : in_inbox team_id target false directive ≡ true
  pub addressed : directive.to_agent ≡ target
  pub threaded : directive.session_id ≡ some sid
  pub says : directive.instruction ≡ text

-- A message that is not blank, into a thread of the team whose agent is on the roster, is answered with the
-- directive that it became, under the id that was drawn, if no directive has that id. The directive is
-- there, pending, addressed to the agent of the thread and one of its inbox, tagged with the thread, and
-- says the message.
pub session_message-Delivered :
    (env : Env) (team_id sid : String) (text sender : Option String) (priority : ℤ) (s : Server)
    (x : Session)
    → fetch_one (is_session team_id sid) s.db.sessions ≡ some x
    → resolve_agent_ref team_id x.agent_id s.db ≡ some x.agent_id
    → exists_row (λ d. d.directive_id == env.new_id) s.db.directives ≡ false
    → (strip (coalesce text "") == "") ≡ false
    → let after = session_message env team_id sid text sender priority s in
      (after.0
        ≡ directive_said
            (Reply.directive_sent env.new_id x.agent_id (some sid) (s.db.last_event_id + 1)))
      × Delivered env team_id sid (strip (coalesce text "")) x.agent_id after.1.db
unfolding session_message get_session view_of send_directive send_to idempotent directive_row
session_message-Delivered env team_id sid text sender priority s x known rostered free spoken =
    let c = console_caller team_id (coalesce (truthy sender) "workbench") in
    let said = strip (coalesce text "") in
    let cmd = message_command said priority sid in
    let mine =
      exists_row-fetch_one (is_session team_id sid) (λ y. y.agent_id == x.agent_id) s.db.sessions
        known (eq_refl x.agent_id) in
    let honoured : honour_session team_id x.agent_id (some sid) s.db ≡ some sid =
      rw (honour_session, mine) refl in
    let ended =
      serve-done (send_tx env.clk c env.new_id x.agent_id cmd) no_redis s
        (send_tx-done env.clk c env.new_id x.agent_id sid cmd s.db honoured free) in
    let opened : get_session team_id sid s.db ≡ some (view_of s.db x) =
      rw (get_session, known) refl in
    let found = send_tx-found env.clk c env.new_id x.agent_id sid cmd s.db honoured free in
    (
      rw (spoken, opened, rostered, ended) refl,
      rw (spoken, opened, rostered, ended)
          (record {
            directive = _;
            found = found;
            waits = refl;
            inboxed = ground (arith, eq_refl team_id, eq_refl x.agent_id);
            addressed = refl;
            threaded = refl;
            says = refl;
          }),
    )
