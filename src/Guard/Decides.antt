-- ===== src/Guard/Decides.antt =====
-- services/guard.py: what `check` decides, and what it leaves behind.
use atmcp.Base.{
  ℕ, ◌+◌, String, ◌≡◌, refl, Bool, true, false, ◌||◌, Option, none, some, List, [], ◌∷◌,
  Option-cases, inl, inr, is_some, Bool-cases, str_ℕ,
}
use atmcp.Base.Table.{fetch_one, exists_row, insert}
use atmcp.Schema.{GuardRule, Decision, allow, deny, ask, Clock, guard_blocked, guard_ask}
use atmcp.Db.{Db, TxState, done}
use atmcp.Events.{append, new_event}
use atmcp.Server.{Server, replied}
use atmcp.Server.Frame.{serve-done}
use atmcp.Guard.Builtin.{builtins}
use atmcp.Guard.Rules.{Regex, Ruling, decide, applies, hits, match_builtin}
use atmcp.Guard.{
  Asked, check, check_tx, follow_up, audit, event_row, open_request, request_row, team_rules,
  block_payload, ask_payload,
}

exists_row-fetch_one :
    {R : Type 0} (p : R → Bool) (rs : List R) → exists_row p rs ≡ is_some (fetch_one p rs)
exists_row-fetch_one p [] = refl
exists_row-fetch_one p (r ∷ rs) = elim (Bool-cases (p r)) [
  | inl e ↦ rw e refl
  | inr e ↦ rw e (exists_row-fetch_one p rs)
]

-- The layers of the gate, without the order of the rules: what is denied, what is asked, the rest.
abbrev pub judged : Bool → Bool → Decision
judged true asked = deny
judged false true = ask
judged false false = allow

module _ (re : Regex) (rules : List GuardRule) (cmd : String) where
  -- A rule of the kind applies to the command.
  abbrev pub ruled : Decision → Bool
  ruled kind = exists_row (applies re kind cmd) rules

  -- The command is denied by a rule of the team or by the built-in list.
  abbrev pub forbidden : Bool
  forbidden = ruled deny || exists_row (λ b. hits re b cmd) builtins

  decide-judged : (decide re rules cmd).decision ≡ judged forbidden (ruled ask)
  unfolding decide match_builtin
  decide-judged =
      rw
        (
          exists_row-fetch_one (applies re deny cmd) rules,
          exists_row-fetch_one (λ b. hits re b cmd) builtins,
          exists_row-fetch_one (applies re ask cmd) rules,
        )
        (elim (Option-cases (fetch_one (applies re deny cmd) rules)) [
          | inr (r, e) ↦ rw e refl
          | inl e ↦ rw e (elim (Option-cases (fetch_one (λ b. hits re b cmd) builtins)) [
            | inr (b, k) ↦ rw k refl
            | inl k ↦ rw k (elim (Option-cases (fetch_one (applies re ask cmd) rules)) [
              | inr (a, l) ↦ rw l refl
              | inl l ↦ rw l (elim (Option-cases (fetch_one (applies re allow cmd) rules)) [
                | inr (x, m) ↦ rw m refl
                | inl m ↦ rw m refl
              ])
            ])
          ])
        ])

-- What the gate leaves besides the audit, by the decision.
abbrev pub Followed : Clock → String → Asked → Ruling → Decision → Option ℕ → Db → Db → Type 0
Followed clk team q v allow id old new =
    (id ≡ none) × (new.guard_requests ≡ old.guard_requests) × (new.events ≡ old.events)
Followed clk team q v deny id old new =
    (id ≡ none)
    × (new.guard_requests ≡ old.guard_requests)
    × (new.events
        ≡ insert
            (new_event clk team guard_blocked "guard" none q.agent_id (block_payload q v)
              (old.last_event_id + 1))
            old.events)
Followed clk team q v ask id old new =
    (id ≡ some (old.last_request_id + 1))
    × (new.guard_requests
        ≡ insert (request_row clk.now team q v (old.last_request_id + 1)) old.guard_requests)
    × (new.events
        ≡ insert
            (new_event clk team guard_ask "guard" (some (str_ℕ (old.last_request_id + 1)))
              q.agent_id (ask_payload q v (old.last_request_id + 1)) (old.last_event_id + 1))
            old.events)

-- The audit has one row more.
abbrev pub Audited : Clock → String → Asked → Ruling → Db → Db → Type 0
Audited clk team q v old new =
    (new.guard_events
      ≡ insert (event_row clk.now team q v (old.last_guard_event_id + 1)) old.guard_events)
    × (new.last_guard_event_id ≡ old.last_guard_event_id + 1)

follow_up_lem :
    (clk : Clock) (team : String) (q : Asked) (v : Ruling) (d : Decision) (s : Server)
    → (id : Option ℕ) × (t : TxState) × (follow_up clk team q v d
          (record { db = audit clk.now team q v s.db; queue = [] })
        ≡ done (record { ruling = v; request_id = id }) t)
      × Followed clk team q v d id s.db t.db
      × Audited clk team q v s.db t.db
unfolding follow_up open_request append audit
follow_up_lem clk team q v allow s = (none, _, refl, (refl, refl, refl), (refl, refl))
follow_up_lem clk team q v deny s = (none, _, refl, (refl, refl, refl), (refl, refl))
follow_up_lem clk team q v ask s = (_, _, refl, (refl, refl, refl), (refl, refl))

-- On the rules of the team that it read, `check` decides in layers, whatever the order of the rules:
-- it denies if a deny rule or an entry of the built-in list matches, else it asks if an ask rule does,
-- else it allows. It always answers, under the ruling that it answers it adds one row to the audit, and
-- it opens a request, under the next id, exactly if it asks; it logs an event exactly if it denies or
-- asks.
pub check_lem :
    (re : Regex) (clk : Clock) (team : String) (q : Asked) (seen : Db) (s : Server)
    → let rules = team_rules team seen in
      let v = decide re rules q.command in
      let after = check re clk team q seen s in
      (v.decision ≡ judged (forbidden re rules q.command) (ruled re rules q.command ask))
      × ((id : Option ℕ) × (after.0 ≡ replied (record { ruling = v; request_id = id }))
          × Followed clk team q v v.decision id s.db after.1.db
          × Audited clk team q v s.db after.1.db)
unfolding check check_tx
check_lem re clk team q seen s =
    let rules = team_rules team seen in
    let v = decide re rules q.command in
    let (id, t, ends, followed, audited) = follow_up_lem clk team q v v.decision s in
    let ended = serve-done (check_tx clk team q v) (λ v redis. (v, redis)) s ends in
    (decide-judged re rules q.command, (id, rw ended refl, rw ended followed, rw ended audited))
