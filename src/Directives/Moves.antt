-- ===== src/Directives/Moves.antt =====
-- services/directives.py: each operation moves directives along legal moves only.
use atmcp.Base.{
  ℕ, String, ◌≡◌, refl, sym, ◌∙◌, true, false, Option, none, some, List, arith, Bool-cases, inl,
  inr, ◌==◌, subst,
}
use atmcp.Base.Table.{fetch_one, update}
use atmcp.Schema.{Directive, DirectiveStatus, pending, running, canceled, Caller, Clock}
use atmcp.Db.{TxState}
use atmcp.Db.Keeps.{After}
use atmcp.Directives.{
  is_directive, find_directive, is_terminal, is_pending, is_claimable, stamp, set_directive,
  run_directive,
}
use atmcp.Directives.Finish.{
  Verdict, report_done, report_failed, final_status, report_row, report_found, cancel_row,
  cancel_found,
}
use atmcp.Directives.Life.{
  Move, start, finish, Later, Later-write, LivesIn, Lives, read-same, find-update, find-stamped,
  touch_session-directives,
}

module _ (team id : String) (d : Directive) where
  module _ (team' id' : String) (r : Directive) (rows : List Directive)
      (read : fetch_one (is_directive team' id') rows ≡ some r)
      (live : is_terminal r.status ≡ false) where
    -- The row that was read is ours, if the key fits.
    pub ours :
        (x : Directive)
        → fetch_one (is_directive team id) rows ≡ some x
        → is_directive team' id' x ≡ true
        → x ≡ r
    ours x found h =
        let both = sym (read-same team id d team' id' x rows found h) ∙ read in ground arith

    Lives-written :
        (f : Directive → Directive) (e : ℕ)
        → ((x : Directive) → is_directive team id (f x) ≡ is_directive team id x)
        → ((x : Directive) → is_directive team' id' (f x) ≡ is_directive team' id' x)
        → Move r.status (stamp e (f r)).status
        → ((f r).from_agent ≡ r.from_agent)
          × ((f r).to_agent ≡ r.to_agent)
          × ((f r).instruction ≡ r.instruction)
        → LivesIn team id d rows
        → LivesIn team id d
            (update (is_directive team' id') (stamp e) (update (is_directive team' id') f rows))
    Lives-written f e same same' move kept (x, found, later) =
        let w = find-stamped team id d team' id' f e x rows same same' found in
        elim (Bool-cases (is_directive team' id' x)) [
          | inr h ↦ (x, w ∙ rw h refl, later)
          | inl h ↦
              let mine : x ≡ r = ours x found h in
              (
                stamp e (f x),
                w ∙ rw h refl,
                subst (λ y. Later d y → Later d (stamp e (f y))) (sym mine)
                    (λ l. Later-write d r (stamp e (f r)) l live move kept) later,
              )
        ]

  module _ (clk : Clock) (c : Caller) (id' : String) where
    not_final : (s : DirectiveStatus) → is_pending s ≡ true → is_terminal s ≡ false
    not_final s h = ground arith

    start_move : (s : DirectiveStatus) → is_pending s ≡ true → Move s running
    start_move pending h = start
    start_move running h = absurd (ground arith)
    start_move DirectiveStatus.done h = absurd (ground arith)
    start_move DirectiveStatus.failed h = absurd (ground arith)
    start_move canceled h = absurd (ground arith)

    final_lem : (v : Verdict) → is_terminal (final_status v) ≡ true
    final_lem report_done = refl
    final_lem report_failed = refl

    pub report_found-Lives :
        (v : Verdict) (summary output : Option String) (row : Option Directive) (t : TxState)
        → find_directive c.team_id id' t.db ≡ row
        → Lives team id d t.db
        → After (Lives team id d) (report_found clk c id' v summary output row t)
    unfolding report_found report_row set_directive
    report_found-Lives v summary output none t read l = l
    report_found-Lives v summary output (some r) t read l =
        elim (Bool-cases (r.to_agent == c.agent_id)) [
          | inr other ↦ rw (other, After) l
          | inl mine ↦ rw mine (elim (Bool-cases (is_terminal r.status)) [
            | inl over ↦ rw (over, After) l
            | inr live ↦
                rw (live, After)
                  (rw (touch_session-directives clk.now c.team_id r.session_id) (
                    Lives-written c.team_id id' r t.db.directives read live
                      (report_row clk.now (final_status v) summary output) _ (λ x. refl) (λ x. refl)
                      (finish live (final_lem v)) (refl, refl, refl) l))
          ])
        ]

    pub cancel_found-Lives :
        (row : Option Directive) (t : TxState)
        → find_directive c.team_id id' t.db ≡ row
        → Lives team id d t.db
        → After (Lives team id d) (cancel_found clk c id' row t)
    unfolding cancel_found cancel_row set_directive
    cancel_found-Lives none t read l = l
    cancel_found-Lives (some r) t read l = elim (Bool-cases (r.from_agent == c.agent_id)) [
      | inr other ↦ rw (other, After) l
      | inl mine ↦ rw mine (elim (Bool-cases (is_terminal r.status)) [
        | inl over ↦ rw (over, After) l
        | inr live ↦
            rw (live, After)
              (Lives-written c.team_id id' r t.db.directives read live (cancel_row clk.now) _
                (λ x. refl) (λ x. refl) (finish live refl) (refl, refl, refl) l)
      ])
    ]

    claimed_row :
        (r x : Directive) (rows : List Directive)
        → fetch_one (is_directive c.team_id id') rows ≡ some r
        → is_pending r.status ≡ true
        → fetch_one (is_directive team id) rows ≡ some x
        → is_claimable c.team_id id' x ≡ is_directive c.team_id id' x
    claimed_row r x rows read free found = elim (Bool-cases (is_directive c.team_id id' x)) [
      | inl h ↦
          let mine : x ≡ r = ours c.team_id id' r rows read (not_final r.status free) x found h in
          rw h (rw mine free)
      | inr h ↦ rw h refl
    ]

    -- The conditional UPDATE of a claim.
    pub run_directive-Lives :
        (r : Directive) (rows : List Directive)
        → fetch_one (is_directive c.team_id id') rows ≡ some r
        → is_pending r.status ≡ true
        → LivesIn team id d rows
        → LivesIn team id d (update (is_claimable c.team_id id') (run_directive clk.now) rows)
    unfolding run_directive
    run_directive-Lives r rows read free (x, found, later) =
        let w =
          find-update team id d (is_claimable c.team_id id') (run_directive clk.now) x rows
            (λ y. refl) found in
        let q = claimed_row r x rows read free found in
        elim (Bool-cases (is_directive c.team_id id' x)) [
          | inr h ↦ (x, w ∙ rw q (rw h refl), later)
          | inl h ↦
              let mine : x ≡ r =
                ours c.team_id id' r rows read (not_final r.status free) x found h in
              (
                run_directive clk.now x,
                w ∙ rw q (rw h refl),
                subst (λ y. Later d y → Later d (run_directive clk.now y)) (sym mine)
                    (λ l.
                      Later-write d r (run_directive clk.now r) l (not_final r.status free)
                        (start_move r.status free) (refl, refl, refl))
                    later,
              )
        ]
