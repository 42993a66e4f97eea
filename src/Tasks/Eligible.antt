-- ===== src/Tasks/Eligible.antt =====
-- `claim_next_task` and the `eligible_unblocked` of `complete_task`: which tasks are ready.
use atmcp.Base.{
  ◌+◌, ◌*◌, String, ◌≡◌, refl, Bool, true, false, not, ◌&&◌, some, List, [], ◌∷◌, arith, Bool-cases,
  Option-cases, ◌⊎◌, inl, inr, ◌==◌, eq_iff, map, All, All-map, ℤ, pos, negsuc, ltb_ℤ, &&-eq-true,
  subst, eq_refl,
}
use atmcp.Base.Table.{fetch_one, select, exists_row, first_by}
use atmcp.Base.Table.Laws.{fetch_one-select}
use atmcp.Base.Table.First.{first_by-none, first_by-All, first_by-Best}
use atmcp.Schema.{Task, TaskDep, Caller, Clock, Settings}
use atmcp.Wire.{claimed, nothing_open}
use atmcp.Db.{Db, TxState, done, result, ◌>>=◌, fetch}
use atmcp.Tasks.{is_task, find_task, is_opened, deps_unmet, unmet_row}
use atmcp.Tasks.Claim.{claim_next_tx, next_task, is_eligible, comes_before, or_default}
use atmcp.Tasks.Claim.Outcome.{do_claim-reply}
use atmcp.Tasks.Invariant.{DbOk}
use atmcp.Tasks.Work.{eligible_unblocked, newly_eligible}

-- The task stands in the table, open, and no dependency of it is unmet.
pub record Ready (team : String) (db : Db) (t : Task) : Type 0 where
  pub stands : find_task team t.task_id db ≡ some t
  pub free : is_opened t.status ≡ true
  pub unblocked : deps_unmet team t.task_id db ≡ []

no_unmet :
    (team id : String) (tasks : List Task) (deps : List TaskDep)
    → exists_row (unmet_row team id tasks) deps ≡ false
    → map (λ d. d.depends_on) (select (unmet_row team id tasks) deps) ≡ []
no_unmet team id tasks [] e = refl
no_unmet team id tasks (d ∷ ds) e = elim (Bool-cases (unmet_row team id tasks d)) [
  | inl h ↦ absurd (ground arith)
  | inr h ↦ rw h (no_unmet team id tasks ds (rw h at e))
]

not-true : (b : Bool) → not b ≡ true → b ≡ false
not-true true h = absurd (ground arith)
not-true false h = refl

test-Ready :
    (team : String) (db : Db) (t : Task)
    → fetch_one (is_task t.team_id t.task_id) db.tasks ≡ some t
    → is_eligible team db t ≡ true
    → Ready team db t
unfolding deps_unmet
test-Ready team db t found e =
    let parts =
      &&-eq-true (t.team_id == team && is_opened t.status)
        (not (exists_row (unmet_row t.team_id t.task_id db.tasks) db.task_deps)) e in
    let mine = &&-eq-true (t.team_id == team) (is_opened t.status) parts.0 in
    let same : t.team_id ≡ team = (eq_iff t.team_id team).0 mine.0 in
    let none_left : exists_row (unmet_row t.team_id t.task_id db.tasks) db.task_deps ≡ false =
      not-true _ parts.1 in
    record {
      stands = subst (λ x. find_task x t.task_id db ≡ some t) same found;
      free = mine.1;
      unblocked =
          subst (λ x. deps_unmet x t.task_id db ≡ []) same
            (no_unmet t.team_id t.task_id db.tasks db.task_deps none_left);
    }

pub eligible-Ready :
    (team : String) (db : Db)
    → DbOk db
    → All (Ready team db) (select (is_eligible team db) db.tasks)
eligible-Ready team db ok =
    All-map (select (is_eligible team db) db.tasks) (λ t h. test-Ready team db t h.0 h.1)
      (fetch_one-select (λ a b. is_task a.team_id a.task_id b)
        (λ r. rw (eq_refl r.team_id, eq_refl r.task_id)) (is_eligible team db) db.tasks
        (λ x. ok.keyed x.team_id x.task_id))

ltb_ℤ_asym : (a b : ℤ) → ltb_ℤ a b ≡ true → ltb_ℤ b a ≡ false
ltb_ℤ_asym (pos a) (pos b) h = ground arith
ltb_ℤ_asym (pos a) (negsuc b) h = ground arith
ltb_ℤ_asym (negsuc a) (pos b) h = refl
ltb_ℤ_asym (negsuc a) (negsuc b) h = ground arith

ltb_ℤ_step : (a b c : ℤ) → ltb_ℤ a c ≡ true → ltb_ℤ a b ≡ false → ltb_ℤ b c ≡ true
ltb_ℤ_step (pos a) (pos b) (pos c) h k = ground arith
ltb_ℤ_step (pos a) (pos b) (negsuc c) h k = ground arith
ltb_ℤ_step (pos a) (negsuc b) (pos c) h k = refl
ltb_ℤ_step (pos a) (negsuc b) (negsuc c) h k = ground arith
ltb_ℤ_step (negsuc a) (pos b) c h k = ground arith
ltb_ℤ_step (negsuc a) (negsuc b) (pos c) h k = refl
ltb_ℤ_step (negsuc a) (negsuc b) (negsuc c) h k = ground arith

before_asym : (a b : Task) → comes_before a b ≡ true → comes_before b a ≡ false
before_asym a b h =
    ground (arith, ltb_ℤ_asym a.priority b.priority, ltb_ℤ_asym b.priority a.priority)

before_step :
    (a b c : Task) → comes_before a c ≡ true → comes_before a b ≡ false → comes_before b c ≡ true
before_step a b c h k = ground (
  arith,
  ltb_ℤ_step c.priority b.priority a.priority,
  ltb_ℤ_step a.priority c.priority b.priority,
  ltb_ℤ_step b.priority a.priority c.priority,
)

-- Some dependency of the task is on `dep`.
abbrev pub depends_on : String → Db → Task → Bool
depends_on dep db t =
    exists_row (λ d. (d.team_id == t.team_id && d.task_id == t.task_id) && d.depends_on == dep)
      db.task_deps

abbrev Unblocked : String → String → Db → Task → Type 0
Unblocked team task db t = Ready team db t × (depends_on task db t ≡ true)

newly-Unblocked :
    (team task : String) (db : Db) (t : Task)
    → fetch_one (is_task t.team_id t.task_id) db.tasks ≡ some t
    → newly_eligible team task db t ≡ true
    → Unblocked team task db t
newly-Unblocked team task db t found e =
    let free = (t.team_id == team && is_opened t.status) in
    let unmet = exists_row (unmet_row t.team_id t.task_id db.tasks) db.task_deps in
    let parts = &&-eq-true (free && depends_on task db t) (not unmet) e in
    let inner = &&-eq-true free (depends_on task db t) parts.0 in
    (test-Ready team db t found (rw (inner.0, parts.1)), inner.1)

ids-All :
    (P : Task → Type 0) (ts : List Task)
    → All P ts
    → All (λ id. (t : Task) × (t.task_id ≡ id) × P t) (map (λ t. t.task_id) ts)
ids-All P [] a = tt
ids-All P (t ∷ ts) a = ((t, refl, a.0), ids-All P ts a.1)

-- The tasks that `complete_task` reports as newly eligible are ready to be claimed: on a well-formed
-- database each stands in the table, is open, has no unmet dependency and depends on the task.
pub eligible_unblocked-Ready :
    (team task : String) (db : Db)
    → DbOk db
    → All
        (λ id. (t : Task) × (t.task_id ≡ id) × (Ready team db t × (depends_on task db t ≡ true)))
        (eligible_unblocked team task db)
unfolding eligible_unblocked
eligible_unblocked-Ready team task db ok = ids-All (Unblocked team task db) _ (
    All-map (select (newly_eligible team task db) db.tasks)
      (λ t h. newly-Unblocked team task db t h.0 h.1)
      (fetch_one-select (λ a b. is_task a.team_id a.task_id b)
        (λ r. rw (eq_refl r.team_id, eq_refl r.task_id)) (newly_eligible team task db) db.tasks
        (λ x. ok.keyed x.team_id x.task_id)))

-- The transaction of `claim_next_task` without a key, on a well-formed database: it answers that nothing is open exactly
-- if no task is eligible, and changes nothing; else it claims an eligible task that no eligible
-- task comes before (by higher priority, then earlier creation), under its next fencing token.
pub claim_next_tx_lem :
    (cfg : Settings) (clk : Clock) (c : Caller) (t : TxState)
    → DbOk t.db
    → ((select (is_eligible c.team_id t.db) t.db.tasks ≡ [])
        × (claim_next_tx cfg clk c t ≡ done (result nothing_open) t))
      ⊎ ((x : Task) × (after : TxState) × Ready c.team_id t.db x
          × All (λ y. comes_before y x ≡ false) (select (is_eligible c.team_id t.db) t.db.tasks)
          × (claim_next_tx cfg clk c t
              ≡ done
                  (result (
                    let ttl = or_default x.lease_ttl_s cfg.lease_ttl_s in
                    claimed x.task_id (x.fencing_token + 1) (clk.now + ttl * 1000) ttl))
                  after))
unfolding claim_next_tx next_task
claim_next_tx_lem cfg clk c t ok =
    elim (Option-cases (first_by comes_before (select (is_eligible c.team_id t.db) t.db.tasks))) [
      | inl e ↦ inl (first_by-none comes_before _ e, rw (e, ◌>>=◌, fetch) refl)
      | inr (x, e) ↦
          let tasks = select (is_eligible c.team_id t.db) t.db.tasks in
          let ready =
            first_by-All comes_before (Ready c.team_id t.db) tasks
              (eligible-Ready c.team_id t.db ok) e in
          let (after, won) = do_claim-reply cfg clk c x.task_id t (ok.keyed c.team_id x.task_id) in
          inr (
            x,
            after,
            ready,
            first_by-Best comes_before before_asym before_step tasks e,
            rw (e, ◌>>=◌, fetch)
                (rw (rw (ready.stands, ready.unblocked, ready.free) at won, ◌>>=◌) refl),
          )
    ]
