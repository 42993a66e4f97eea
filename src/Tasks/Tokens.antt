-- ===== src/Tasks/Tokens.antt =====
-- No operation lowers the fencing token of a task, and no task disappears.
use atmcp.Base.{
  ℕ, ◌≤◌, String, ◌≡◌, refl, Bool, Option, none, some, List, [], ◌∷◌, arith, Bool-cases,
  Option-cases, inl, inr, ◌==◌, ◌&&◌, ℤ,
}
use atmcp.Base.Table.{fetch_one, update}
use atmcp.Base.Table.Laws.{fetch_one-update, fetch_one-insert_old}
use atmcp.Schema.{Task, Caller, Clock, Settings}
use atmcp.Wire.{Reply}
use atmcp.Db.{Db, TxState, Tried, result}
use atmcp.Db.Keeps.{After, After-pure}
use atmcp.Tasks.{is_task, find_task, is_holder}
use atmcp.Tasks.Create.{NewTask, goal_tx, create_tx}
use atmcp.Tasks.Claim.{open_task_row, take_task, do_claim, claim_tx, claim_next_tx, next_task}
use atmcp.Tasks.Claim.Outcome.{Claims, do_claim-Claims}
use atmcp.Tasks.Work.{
  complete_held, fail_held, release_held, complete_found, complete_row, complete_tx, fail_found,
  fail_row, fail_tx, release_found, release_row, release_tx, progress_row, progress_task,
  progress_tx,
}
use atmcp.Tasks.Invariant.{DbOk, KeepsKey}
use atmcp.Tasks.Invariant.Batch.{update_each}

module _ (team task : String) (n : ℕ) where
  -- The task is there, with a fencing token of at least n.
  abbrev pub AtLeast : List Task → Type 0
  AtLeast tasks =
      (x : Task) × (fetch_one (is_task team task) tasks ≡ some x) × (n ≤ x.fencing_token)

  abbrev pub DbAtLeast : Db → Type 0
  DbAtLeast db = AtLeast db.tasks

  pub update-AtLeast :
      (q : Task → Bool) (f : Task → Task) (tasks : List Task)
      → KeepsKey f
      → ((x : Task) → x.fencing_token ≤ (f x).fencing_token)
      → AtLeast tasks
      → AtLeast (update q f tasks)
  update-AtLeast q f tasks same up (x, found, least) =
      let read = fetch_one-update (is_task team task) q f (same team task) tasks in
      elim (Bool-cases (q x)) [
        | inl e ↦ (f x, rw (read, found) (rw e), omega (arith, up x))
        | inr e ↦ (x, rw (read, found) (rw e), least)
      ]

  pub update_each-AtLeast :
      (who : String) (f : Task → Task → Task) (hs tasks : List Task)
      → ((h : Task) → KeepsKey (f h))
      → ((h x : Task) → x.fencing_token ≤ (f h x).fencing_token)
      → AtLeast tasks
      → AtLeast (update_each who f hs tasks)
  update_each-AtLeast who f [] tasks same up a = a
  update_each-AtLeast who f (h ∷ hs) tasks same up a =
      update_each-AtLeast who f hs _ same up (update-AtLeast _ (f h) tasks (same h) (up h) a)

  module _ (clk : Clock) (c : Caller) (id : String) (token : ℕ) where
    complete_found-AtLeast :
        (summary : Option String) (row : Option Task) (t : TxState)
        → DbAtLeast t.db
        → After DbAtLeast (complete_found clk c id token summary row t)
    unfolding complete_found complete_held complete_row
    complete_found-AtLeast summary none t v = v
    complete_found-AtLeast summary (some row) t v =
        elim (Bool-cases (is_holder c.agent_id token row)) [
          | inl h ↦
              rw (h, After)
                (update-AtLeast (is_task c.team_id id) (complete_row clk.now summary) t.db.tasks
                  (λ x y r. refl) (λ x. omega arith) v)
          | inr h ↦ rw (h, After) v
        ]

    fail_found-AtLeast :
        (error : Option String) (row : Option Task) (t : TxState)
        → DbAtLeast t.db
        → After DbAtLeast (fail_found clk c id token error row t)
    unfolding fail_found fail_held fail_row
    fail_found-AtLeast error none t v = v
    fail_found-AtLeast error (some row) t v = elim (Bool-cases (is_holder c.agent_id token row)) [
      | inl h ↦
          rw (h, After)
            (update-AtLeast (is_task c.team_id id) _ t.db.tasks (λ x y r. refl) (λ x. omega arith)
              v)
      | inr h ↦ rw (h, After) v
    ]

    release_found-AtLeast :
        (row : Option Task) (t : TxState)
        → DbAtLeast t.db
        → After DbAtLeast (release_found clk c id token row t)
    unfolding release_found release_held release_row
    release_found-AtLeast none t v = v
    release_found-AtLeast (some row) t v = elim (Bool-cases (is_holder c.agent_id token row)) [
      | inl h ↦
          rw (h, After)
            (update-AtLeast (is_task c.team_id id) _ t.db.tasks (λ x y r. refl) (λ x. omega arith)
              v)
      | inr h ↦ rw (h, After) v
    ]

    progress_row-AtLeast :
        (cfg : Settings) (pct : Option ℤ) (status message : Option String) (row : Option Task)
        (t : TxState)
        → DbAtLeast t.db
        → After DbAtLeast (progress_row cfg clk c id token pct status message row t)
    unfolding progress_row progress_task
    progress_row-AtLeast cfg pct status message none t v = v
    progress_row-AtLeast cfg pct status message (some row) t v =
        elim (Bool-cases (is_holder c.agent_id token row)) [
          | inl h ↦
              rw (h, After)
                (update-AtLeast (is_task c.team_id id) _ t.db.tasks (λ x y r. refl)
                  (λ x. omega arith) v)
          | inr h ↦ rw (h, After) v
        ]

    pub complete_tx-AtLeast :
        (summary : Option String) (t : TxState)
        → DbAtLeast t.db
        → After DbAtLeast (complete_tx clk c id token summary t)
    unfolding complete_tx
    complete_tx-AtLeast summary t v =
        After-pure DbAtLeast (complete_found clk c id token summary _ t) result
          (complete_found-AtLeast summary (find_task c.team_id id t.db) t v)

    pub fail_tx-AtLeast :
        (error : Option String) (t : TxState)
        → DbAtLeast t.db
        → After DbAtLeast (fail_tx clk c id token error t)
    unfolding fail_tx
    fail_tx-AtLeast error t v =
        After-pure DbAtLeast (fail_found clk c id token error _ t) result
          (fail_found-AtLeast error (find_task c.team_id id t.db) t v)

    pub release_tx-AtLeast :
        (t : TxState) → DbAtLeast t.db → After DbAtLeast (release_tx clk c id token t)
    unfolding release_tx
    release_tx-AtLeast t v =
        After-pure DbAtLeast (release_found clk c id token _ t) result
          (release_found-AtLeast (find_task c.team_id id t.db) t v)

    pub progress_tx-AtLeast :
        (cfg : Settings) (pct : Option ℤ) (status message : Option String) (t : TxState)
        → DbAtLeast t.db
        → After DbAtLeast (progress_tx cfg clk c id token pct status message t)
    unfolding progress_tx
    progress_tx-AtLeast cfg pct status message t v =
        progress_row-AtLeast cfg pct status message (find_task c.team_id id t.db) t v

  module _ (cfg : Settings) (clk : Clock) (c : Caller) where
    claimed-AtLeast :
        (id : String) (row : Option Task) (unmet : List String) (t : TxState) (r : Tried Reply)
        → DbAtLeast t.db
        → Claims cfg clk c id row unmet t r
        → After DbAtLeast r
    unfolding take_task
    claimed-AtLeast id row unmet t r v (inl (refused, _)) = rw (refused, After) v
    claimed-AtLeast id row unmet t r v (inr (x, _, free, _, (after, won, table, _))) =
        rw (won, After)
          (rw table (
            update-AtLeast (open_task_row c.team_id id) _ t.db.tasks (λ x y r. refl)
              (λ x. omega arith) v))

    do_claim-AtLeast :
        (id : String) (t : TxState)
        → DbOk t.db
        → DbAtLeast t.db
        → After DbAtLeast (do_claim cfg clk c id t)
    do_claim-AtLeast id t ok v =
        claimed-AtLeast id _ _ t (do_claim cfg clk c id t) v
          (do_claim-Claims cfg clk c id t (ok.keyed c.team_id id))

    pub claim_tx-AtLeast :
        (id : String) (t : TxState)
        → DbOk t.db
        → DbAtLeast t.db
        → After DbAtLeast (claim_tx cfg clk c id t)
    unfolding claim_tx
    claim_tx-AtLeast id t ok v =
        After-pure DbAtLeast (do_claim cfg clk c id t) result (do_claim-AtLeast id t ok v)

    pub claim_next_tx-AtLeast :
        (t : TxState) → DbOk t.db → DbAtLeast t.db → After DbAtLeast (claim_next_tx cfg clk c t)
    unfolding claim_next_tx
    claim_next_tx-AtLeast t ok v = elim (Option-cases (next_task c.team_id t.db)) [
      | inl e ↦ rw (e, After) v
      | inr (row, e) ↦
          rw (e, After)
            (After-pure DbAtLeast (do_claim cfg clk c row.task_id t) result
              (do_claim-AtLeast row.task_id t ok v))
    ]

    pub create_tx-AtLeast :
        (id : String) (new : NewTask) (t : TxState)
        → DbAtLeast t.db
        → After DbAtLeast (create_tx cfg clk c id new t)
    unfolding create_tx
    create_tx-AtLeast id new t (x, found, least) =
        elim (Option-cases (find_task c.team_id id t.db)) [
          | inr (row, e) ↦ rw (e, After) tt
          | inl e ↦
              rw (e, After) (x, fetch_one-insert_old (is_task team task) _ t.db.tasks found, least)
        ]

    pub goal_tx-AtLeast :
        (id title : String) (description : Option String) (t : TxState)
        → DbAtLeast t.db
        → After DbAtLeast (goal_tx clk c id title description t)
    unfolding goal_tx
    goal_tx-AtLeast id title description t v =
        elim (Option-cases
          (fetch_one (λ g. g.team_id == c.team_id && g.goal_id == id) t.db.goals)) [
            | inr (row, e) ↦ rw (e, After) tt
            | inl e ↦ rw (e, After) v
          ]
