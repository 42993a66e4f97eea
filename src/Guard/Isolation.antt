-- ===== src/Guard/Isolation.antt =====
-- services/guard.py: the calls of a team to its gate, and the rows of another team.
use atmcp.Base.{
  ℕ, String, ◌==◌, ◌≡◌, refl, ap, ◌∙◌, Bool, false, Option, none, some, eq_refl, eqb, Bool-cases,
  inl, inr, &&-eq-true, strip,
}
use atmcp.Base.Table.{update, row_count}
use atmcp.Schema.{
  GuardRule, GuardEvent, GuardRequest, Decision, allow, deny, ask, Clock, PatternType,
}
use atmcp.Db.{Db, TxState}
use atmcp.Db.Keeps.{After, Keeps}
use atmcp.Db.Isolation.{
  Rows, rows_of, Untouched, own_rows-update, own_rows-insert, own_rows-delete, append-Untouched,
}
use atmcp.Server.{Server}
use atmcp.Server.Frame.{serve-Keeps}
use atmcp.Guard.{
  Asked, team_rules, audit, event_row, open_request, request_row, follow_up, check_tx, check,
  is_request, is_pending, is_open, resolved_row, verdict_of, announce, resolve_tx, resolve_request,
}
use atmcp.Guard.Rules.{
  Regex, Ruling, decide, rule_row, add_tx, add_read, add_rule, compiles, read_kind, read_type,
  is_rule, delete_rule,
}

module _ (other team : String) (out : (team == other) ≡ false) (f : Rows) where
  audit-Untouched :
      (now : ℕ) (q : Asked) (v : Ruling) (db : Db)
      → Untouched other f db
      → Untouched other f (audit now team q v db)
  unfolding audit event_row
  audit-Untouched now q v db h =
      ap (λ l. record (rows_of other db) { guard_events = l })
        (own_rows-insert (λ (e : GuardEvent). e.team_id) other team out _ db.guard_events
          (eq_refl team))
      ∙ h

  open_request-Untouched :
      (now : ℕ) (q : Asked) (v : Ruling) (db : Db)
      → Untouched other f db
      → Untouched other f (open_request now team q v db)
  unfolding open_request request_row
  open_request-Untouched now q v db h =
      ap (λ l. record (rows_of other db) { guard_requests = l })
        (own_rows-insert (λ (r : GuardRequest). r.team_id) other team out _ db.guard_requests
          (eq_refl team))
      ∙ h

  follow_up-Untouched :
      (clk : Clock) (q : Asked) (v : Ruling) (d : Decision) (t : TxState)
      → Untouched other f t.db
      → After (Untouched other f) (follow_up clk team q v d t)
  unfolding follow_up
  follow_up-Untouched clk q v allow t h = h
  follow_up-Untouched clk q v deny t h = append-Untouched other team out f clk _ _ _ _ _ t h
  follow_up-Untouched clk q v ask t h =
      append-Untouched other team out f clk _ _ _ _ _
        (record t { db = open_request clk.now team q v t.db })
        (open_request-Untouched clk.now q v t.db h)

  pub check-Untouched :
      (re : Regex) (clk : Clock) (q : Asked) (seen : Db) (s : Server)
      → Untouched other f s.db
      → Untouched other f (check re clk team q seen s).1.db
  unfolding check check_tx
  check-Untouched re clk q seen s h =
      let v = decide re (team_rules team seen) q.command in
      serve-Keeps (Untouched other f) (check_tx clk team q v) _ s
        (record {
          at = λ t k.
              follow_up-Untouched clk q v v.decision (record t { db = audit clk.now team q v t.db })
                (audit-Untouched clk.now q v t.db k);
        })
        h

  resolved-Untouched :
      (id : ℕ) (g : GuardRequest → GuardRequest) (db : Db)
      → ((r : GuardRequest) → (g r).team_id ≡ r.team_id)
      → Untouched other f db
      → Untouched other f
          (record db { guard_requests = update (is_open team id) g db.guard_requests })
  resolved-Untouched id g db same h =
      ap (λ l. record (rows_of other db) { guard_requests = l })
        (own_rows-update (λ (r : GuardRequest). r.team_id) other team out (is_open team id) g
          (λ r e.
            (&&-eq-true (r.team_id == team) (eqb r.id id)
              (&&-eq-true (is_request team id r) (is_pending r.status) e).0).0)
          same db.guard_requests)
      ∙ h

  resolve_tx-Untouched :
      (clk : Clock) (id : ℕ) (approve : Bool) (by : Option String)
      → Keeps (Untouched other f) (resolve_tx clk team id approve by)
  unfolding resolve_tx announce
  resolve_tx-Untouched clk id approve by = record {
    at = λ t h.
        let g = resolved_row clk.now (verdict_of approve) by in
        let h' = resolved-Untouched id g t.db (λ r. refl) h in
        elim (Bool-cases (eqb (row_count (is_open team id) t.db.guard_requests) 1)) [
          | inr gone ↦ rw (gone, After) h'
          | inl one ↦
              rw (one, After)
                (append-Untouched other team out f clk _ _ _ _ _
                  (record t {
                    db = record t.db {
                      guard_requests = update (is_open team id) g t.db.guard_requests;
                    };
                  })
                  h')
        ];
  }

  pub resolve_request-Untouched :
      (clk : Clock) (id : ℕ) (approve : Bool) (by : Option String) (s : Server)
      → Untouched other f s.db
      → Untouched other f (resolve_request clk team id approve by s).1.db
  unfolding resolve_request
  resolve_request-Untouched clk id approve by s h =
      serve-Keeps (Untouched other f) _ _ s (resolve_tx-Untouched clk id approve by) h

  add_tx-Untouched :
      (clk : Clock) (kind : Decision) (pattern : String) (type : PatternType)
      (reason : Option String)
      → Keeps (Untouched other f) (add_tx clk team kind pattern type reason)
  unfolding add_tx rule_row
  add_tx-Untouched clk kind pattern type reason = record {
    at = λ t h.
        ap (λ l. record (rows_of other t.db) { guard_rules = l })
          (own_rows-insert (λ (r : GuardRule). r.team_id) other team out _ t.db.guard_rules
            (eq_refl team))
        ∙ h;
  }

  add_read-Untouched :
      (re : Regex) (clk : Clock) (kind : Option Decision) (pattern : String)
      (type : Option PatternType) (reason : Option String) (s : Server)
      → Untouched other f s.db
      → Untouched other f (add_read re clk team kind pattern type reason s).1.db
  add_read-Untouched re clk none pattern type reason s h = h
  add_read-Untouched re clk (some kind) pattern none reason s h = h
  add_read-Untouched re clk (some kind) pattern (some type) reason s h =
      elim (Bool-cases (strip pattern == "")) [
        | inl blank ↦ rw blank h
        | inr filled ↦ rw filled (elim (Bool-cases (compiles re type pattern)) [
          | inr bad ↦ rw bad h
          | inl good ↦ rw good (
              serve-Keeps (Untouched other f) _ _ s (add_tx-Untouched clk kind pattern type reason)
                h)
        ])
      ]

  pub add_rule-Untouched :
      (re : Regex) (clk : Clock) (kind pattern pattern_type : String) (reason : Option String)
      (s : Server)
      → Untouched other f s.db
      → Untouched other f (add_rule re clk team kind pattern pattern_type reason s).1.db
  unfolding add_rule
  add_rule-Untouched re clk kind pattern pattern_type reason s h =
      add_read-Untouched re clk (read_kind kind) pattern (read_type pattern_type) reason s h

  pub delete_rule-Untouched :
      (id : ℕ) (s : Server)
      → Untouched other f s.db
      → Untouched other f (delete_rule team id s).1.db
  unfolding delete_rule
  delete_rule-Untouched id s h =
      serve-Keeps (Untouched other f) _ _ s
        (record {
          at = λ t k.
              ap (λ l. record (rows_of other t.db) { guard_rules = l })
                (own_rows-delete (λ (r : GuardRule). r.team_id) other team out (is_rule team id)
                  (λ r e. (&&-eq-true (r.team_id == team) (eqb r.id id) e).0) t.db.guard_rules)
              ∙ k;
        })
        h
