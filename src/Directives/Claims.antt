-- ===== src/Directives/Claims.antt =====
-- services/directives.py: claims and sends, and runs of all four operations that write directives.
use atmcp.Base.{
  ℕ, String, ◌≡◌, refl, ap, sym, ◌∙◌, Bool, true, false, Option, none, some, List, [], ◌∷◌, arith,
  Bool-cases, inl, inr, All, ◌==◌, ◌&&◌, eqb,
}
use atmcp.Base.Table.{fetch_one, update, exists_row, insert}
use atmcp.Base.Table.Laws.{fetch_one-update, fetch_one_sound, fetch_one-All, fetch_one-insert_old}
use mathlib.Core.Bool.{false≢true}
use atmcp.Schema.{Directive, Caller, Clock}
use atmcp.Db.{TxState}
use atmcp.Db.Keeps.{After}
use atmcp.Directives.{
  Command, is_directive, find_directive, is_terminal, is_pending, is_claimable, stamp,
  set_directive, run_directive, claim_running, claim_directive_row, send_tx, directive_row,
  honour_session,
}
use atmcp.Directives.Life.{Later, LivesIn, Lives, find-update, touch_session-directives}
use atmcp.Directives.Moves.{run_directive-Lives, ours}

module _ (team id : String) (d : Directive) where
  Later-stamp :
      (x : Directive) (e : ℕ) → Later d x → is_terminal x.status ≡ false → Later d (stamp e x)
  Later-stamp x e l live = record {
    moves = l.moves;
    from_agent = l.from_agent;
    to_agent = l.to_agent;
    instruction = l.instruction;
    frozen = λ h.
        absurd
          (false≢true (sym live ∙ ap (λ (r : Directive). is_terminal r.status) (l.frozen h) ∙ h));
  }

  module _ (clk : Clock) (c : Caller) (id' : String) where
    stamped-Lives :
        (e : ℕ) (r : Directive) (rows : List Directive)
        → fetch_one (is_directive c.team_id id') rows ≡ some r
        → is_terminal r.status ≡ false
        → LivesIn team id d rows
        → LivesIn team id d (update (is_directive c.team_id id') (stamp e) rows)
    stamped-Lives e r rows read live (x, found, later) =
        let w =
          find-update team id d (is_directive c.team_id id') (stamp e) x rows (λ y. refl) found in
        elim (Bool-cases (is_directive c.team_id id' x)) [
          | inr h ↦ (x, w ∙ rw h refl, later)
          | inl h ↦
              let mine : x ≡ r = ours team id d c.team_id id' r rows read live x found h in
              (stamp e x, w ∙ rw h refl, Later-stamp x e later (rw mine live))
        ]

    read-run_directive :
        (r : Directive) (rows : List Directive)
        → fetch_one (is_directive c.team_id id') rows ≡ some r
        → is_pending r.status ≡ true
        → fetch_one
            (is_directive c.team_id id')
            (update (is_claimable c.team_id id') (run_directive clk.now) rows)
          ≡ some (run_directive clk.now r)
    unfolding run_directive
    read-run_directive r rows read free =
        rw
          (
            fetch_one-update (is_directive c.team_id id') (is_claimable c.team_id id')
                (run_directive clk.now) (λ x. refl) rows,
            read,
          )
          (rw (fetch_one_sound (is_directive c.team_id id') rows read, free) refl)

    claim_running-Lives :
        (session : Option String) (changed : ℕ) (r : Directive) (t : TxState)
        → find_directive c.team_id id' t.db ≡ some r
        → is_terminal r.status ≡ false
        → Lives team id d t.db
        → After (Lives team id d) (claim_running clk c id' session changed t)
    unfolding claim_running set_directive
    claim_running-Lives session changed r t read live l = elim (Bool-cases (eqb changed 1)) [
      | inr lost ↦ rw (lost, After) l
      | inl won ↦ rw (won, After) (stamped-Lives _ r t.db.directives read live l)
    ]

    running_lem : (r : Directive) → is_terminal (run_directive clk.now r).status ≡ false
    unfolding run_directive
    running_lem r = refl

    pub claim_directive_row-Lives :
        (row : Option Directive) (t : TxState)
        → find_directive c.team_id id' t.db ≡ row
        → Lives team id d t.db
        → After (Lives team id d) (claim_directive_row clk c id' row t)
    unfolding claim_directive_row
    claim_directive_row-Lives none t read l = l
    claim_directive_row-Lives (some r) t read l = elim (Bool-cases (r.to_agent == c.agent_id)) [
      | inr other ↦ rw (other, After) l
      | inl mine ↦ rw mine (elim (Bool-cases (is_pending r.status)) [
        | inr busy ↦ rw (busy, After) l
        | inl free ↦ rw free (
            claim_running-Lives r.session_id _ (run_directive clk.now r) _
              (read-run_directive r t.db.directives read free) (running_lem r)
              (run_directive-Lives team id d clk c id' r t.db.directives read free l))
      ])
    ]

and_false : (a b : Bool) → b ≡ false → (a && b) ≡ false
and_false a b h = ground arith

none-All :
    {R : Type 0} (p : R → Bool) (rs : List R) → exists_row p rs ≡ false → All (λ x. p x ≡ false) rs
none-All p [] e = tt
none-All p (r ∷ rs) e = elim (Bool-cases (p r)) [
  | inl h ↦ absurd (ground arith)
  | inr h ↦ (h, none-All p rs (rw h at e))
]

module _ (team id : String) (d : Directive) (clk : Clock) (c : Caller) (id' target : String) where
  pub send_tx-Lives :
      (cmd : Command) (t : TxState)
      → Lives team id d t.db
      → After (Lives team id d) (send_tx clk c id' target cmd t)
  unfolding send_tx set_directive
  send_tx-Lives cmd t (x, found, later) =
      elim (Bool-cases (exists_row (λ r. r.directive_id == id') t.db.directives)) [
        | inl taken ↦ rw (taken, After) tt
        | inr fresh ↦
            rw (fresh, After)
              (rw
                (touch_session-directives clk.now c.team_id
                  (honour_session c.team_id target cmd.session_id t.db))
                (sent
                  (directive_row clk.now c id' target
                    (honour_session c.team_id target cmd.session_id t.db) cmd)
                  _
                  (fetch_one-All (is_directive team id)
                    (λ (r : Directive). (r.directive_id == id') ≡ false) t.db.directives
                    (none-All (λ (r : Directive). r.directive_id == id') t.db.directives fresh)
                    found)))
      ]
    where
      sent :
          (row : Directive) (e : ℕ)
          → (x.directive_id == id') ≡ false
          → LivesIn team id d
              (update (is_directive c.team_id id') (stamp e) (insert row t.db.directives))
      sent row e fresh_id = (
        x,
        find-update team id d (is_directive c.team_id id') (stamp e) x (insert row t.db.directives)
              (λ y. refl) (fetch_one-insert_old (is_directive team id) row t.db.directives found)
            ∙ rw (and_false (x.team_id == c.team_id) (x.directive_id == id') fresh_id) refl,
        later,
      )
