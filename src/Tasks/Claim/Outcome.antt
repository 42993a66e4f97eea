-- ===== src/Tasks/Claim/Outcome.antt =====
-- What `_do_claim` does on each branch. On a table with unique keys the conditional UPDATE always
-- changes its row, so the branch `race_lost` is never taken.
use atmcp.Base.{
  ℕ, ◌+◌, ◌*◌, String, ◌≡◌, refl, true, false, not, Option, none, some, List, [], ◌∷◌, Bool-cases,
  ◌⊎◌, inl, inr, if◌then◌else◌,
}
use atmcp.Base.Table.{fetch_one, update}
use atmcp.Base.Table.Laws.{
  AtMostOne, fetch_one-update, fetch_one_sound, row_count-one, fetch_one-&&, AtMostOne-&&,
}
use atmcp.Schema.{Task, Caller, Clock, Settings}
use atmcp.Wire.{Reply, not_open, is_ok}
use atmcp.Db.{TxState, Tried, done}
use atmcp.Tasks.{is_task, find_task, is_opened, deps_unmet}
use atmcp.Tasks.Claim.{
  open_task_row, take_task, or_default, finish_row, finish_claim, try_claim, claim_ready, claim_row,
  do_claim,
}

-- The claimed row, as it is read back.
pub find-take_task :
    (team_id task_id agent_id : String) (now exp : ℕ) (tasks : List Task) (t : Task)
    → fetch_one (is_task team_id task_id) tasks ≡ some t
    → is_opened t.status ≡ true
    → fetch_one
        (is_task team_id task_id)
        (update (open_task_row team_id task_id) (take_task now agent_id exp) tasks)
      ≡ some (take_task now agent_id exp t)
unfolding take_task
find-take_task team_id task_id agent_id now exp tasks t found free =
    rw
      (
        fetch_one-update (is_task team_id task_id) (open_task_row team_id task_id)
            (take_task now agent_id exp) (λ r. refl) tasks,
        found,
      )
      (rw (fetch_one_sound (is_task team_id task_id) tasks found, free))

-- What follows the UPDATE leaves the tasks alone.
finish_row_lem :
    (clk : Clock) (c : Caller) (task_id : String) (exp ttl : ℕ) (row : Task) (t : TxState)
    → (after : TxState) × (finish_row clk c task_id exp ttl (some row) t
        ≡ done (Reply.claimed task_id row.fencing_token exp ttl) after)
      × (after.db.tasks ≡ t.db.tasks)
      × (after.db.task_deps ≡ t.db.task_deps)
unfolding finish_row
finish_row_lem clk c task_id exp ttl row t = (_, refl, refl, refl)

-- A claim that reaches the UPDATE wins: the answer, and the tasks table afterwards.
abbrev pub Won : Clock → Caller → String → ℕ → TxState → Task → Tried Reply → Type 0
Won clk c task_id ttl t row r =
    (after : TxState) × (r
      ≡ done (Reply.claimed task_id (row.fencing_token + 1) (clk.now + ttl * 1000) ttl) after)
    × (after.db.tasks
        ≡ update (open_task_row c.team_id task_id)
            (take_task clk.now c.agent_id (clk.now + ttl * 1000)) t.db.tasks)
    × (after.db.task_deps ≡ t.db.task_deps)

pub try_claim-Won :
    (clk : Clock) (c : Caller) (task_id : String) (ttl : ℕ) (t : TxState) (row : Task)
    → AtMostOne (is_task c.team_id task_id) t.db.tasks
    → find_task c.team_id task_id t.db ≡ some row
    → is_opened row.status ≡ true
    → Won clk c task_id ttl t row (try_claim clk c task_id ttl t)
unfolding try_claim finish_claim take_task
try_claim-Won clk c task_id ttl t row u found free =
    rw
      (row_count-one (open_task_row c.team_id task_id) t.db.tasks
        (AtMostOne-&& (is_task c.team_id task_id) (λ r. is_opened r.status) t.db.tasks u)
        (fetch_one-&& (is_task c.team_id task_id) (λ r. is_opened r.status) t.db.tasks found free))
      (rw (find-take_task c.team_id task_id c.agent_id clk.now _ t.db.tasks row found free) (
        finish_row_lem clk c task_id (clk.now + ttl * 1000) ttl
          (take_task clk.now c.agent_id (clk.now + ttl * 1000) row) _))

-- The answer that a claim should get, from the row of the task and its unmet dependencies.
abbrev pub claim_reply : Settings → Clock → String → Option Task → List String → Reply
claim_reply cfg clk task_id none unmet = Reply.unknown_task
claim_reply cfg clk task_id (some t) unmet =
    if not (is_opened t.status) then not_open t.status t.assignee else elim unmet [
      | [] ↦
          let ttl = or_default t.lease_ttl_s cfg.lease_ttl_s in
          Reply.claimed task_id (t.fencing_token + 1) (clk.now + ttl * 1000) ttl
      | d ∷ ds ↦ Reply.deps_unmet (d ∷ ds)
    ]

-- Given the row and the unmet dependencies: a claim is refused and changes nothing, or the task was
-- open with all dependencies done and the claim wins.
abbrev pub Claims :
    Settings → Clock → Caller → String → Option Task → List String → TxState → Tried Reply → Type 0
Claims cfg clk c task_id row unmet t r =
    ((r ≡ done (claim_reply cfg clk task_id row unmet) t)
      × (is_ok (claim_reply cfg clk task_id row unmet) ≡ false))
    ⊎ ((x : Task) × (row ≡ some x)
        × (is_opened x.status ≡ true)
        × (unmet ≡ [])
        × Won clk c task_id (or_default x.lease_ttl_s cfg.lease_ttl_s) t x r)

module _ (cfg : Settings) (clk : Clock) (c : Caller) (task_id : String) (t : TxState) where
  claim_ready-Claims :
      (row : Task) (unmet : List String)
      → AtMostOne (is_task c.team_id task_id) t.db.tasks
      → find_task c.team_id task_id t.db ≡ some row
      → is_opened row.status ≡ true
      → Claims cfg clk c task_id
          (some row)
          unmet
          t
          (claim_ready clk c task_id (or_default row.lease_ttl_s cfg.lease_ttl_s) unmet t)
  unfolding claim_ready
  claim_ready-Claims row [] u found free =
      inr (row, refl, free, refl, try_claim-Won clk c task_id _ t row u found free)
  claim_ready-Claims row (d ∷ ds) u found free = inl (rw free, rw free)

  claim_row-Claims :
      (row : Option Task)
      → AtMostOne (is_task c.team_id task_id) t.db.tasks
      → find_task c.team_id task_id t.db ≡ row
      → Claims cfg clk c task_id row
          (deps_unmet c.team_id task_id t.db)
          t
          (claim_row cfg clk c task_id row t)
  unfolding claim_row
  claim_row-Claims none u e = inl (refl, refl)
  claim_row-Claims (some row) u e = elim (Bool-cases (is_opened row.status)) [
    | inr busy ↦ inl (rw busy, rw busy)
    | inl free ↦
        rw free (rw free at (claim_ready-Claims row (deps_unmet c.team_id task_id t.db) u e free))
  ]

  pub do_claim-Claims :
      AtMostOne (is_task c.team_id task_id) t.db.tasks
      → Claims cfg clk c task_id
          (find_task c.team_id task_id t.db)
          (deps_unmet c.team_id task_id t.db)
          t
          (do_claim cfg clk c task_id t)
  unfolding do_claim
  do_claim-Claims u = claim_row-Claims (find_task c.team_id task_id t.db) u refl

  -- On a table with unique keys a claim answers exactly what the row of the task and its unmet
  -- dependencies say: unknown, not open with its status and holder, the list of unmet
  -- dependencies, or claimed under the next fencing token. It never raises and never loses a race.
  pub do_claim-reply :
      AtMostOne (is_task c.team_id task_id) t.db.tasks
      → (after : TxState) × (do_claim cfg clk c task_id t
          ≡ done
              (claim_reply cfg clk task_id
                (find_task c.team_id task_id t.db)
                (deps_unmet c.team_id task_id t.db))
              after)
  do_claim-reply u = elim (do_claim-Claims u) [
    | inl (refused, _) ↦ (t, refused)
    | inr (x, found, free, ready, (after, won, _, _)) ↦ (after, rw (found, ready) (rw free won))
  ]
