-- ===== src/Operations/Zombies.antt =====
-- A holder that lost its task and comes back late is refused by its stale token.
use atmcp.Base.{
  ℕ, suc, ◌+◌, ◌≤◌, ◌<◌, String, ◌≡◌, refl, ap, false, Option, none, some, List, arith, inl, inr,
  subst, ◌∙◌, sym, ℤ,
}
use atmcp.Schema.{Task, Caller, Clock, Settings}
use mathlib.Core.Bool.{false≢true}
use atmcp.Wire.{Reply, is_ok, nothing_open, claimed, stale_token, stale_holder}
use atmcp.Db.{Db, TxState, Tried, done, raised, result}
use atmcp.Server.{Server, Answer, replied, then_redis}
use atmcp.Server.Frame.{start, serve-done, serve-quiet, idempotent-none}
use atmcp.Tasks.{find_task, is_holder}
use atmcp.Tasks.Claim.{do_claim, claim_tx, claim_task, take_task, mirror_claim}
use atmcp.Tasks.Claim.Outcome.{do_claim-Claims, find-take_task}
use atmcp.Tasks.Work.{
  complete_task, fail_task, release_task, update_task_progress, complete_tx, fail_tx, release_tx,
  progress_tx, complete_found, fail_found, release_found, progress_row, drop_lease, mirror_progress,
}
use atmcp.Tasks.Invariant.{DbOk}
use atmcp.Tasks.Tokens.{AtLeast}
use atmcp.Operations.{Op, claim_op, step, run}
use atmcp.Operations.Invariant.{step-DbOk, run-DbOk}
use atmcp.Operations.Fencing.{run-AtLeast}

abbrev reply_or : Reply → Answer Reply → Reply
reply_or d (replied r) = r
reply_or d (Answer.raised e) = d

abbrev claimed_token : Reply → ℕ
claimed_token (claimed task f exp ttl) = f
claimed_token _ = 0

claim_tx_lem :
    (cfg : Settings) (clk : Clock) (c : Caller) (task : String) (t₀ : TxState) (r : Reply)
    (t : TxState)
    → do_claim cfg clk c task t₀ ≡ done r t
    → claim_tx cfg clk c task t₀ ≡ done (result r) t
unfolding claim_tx
claim_tx_lem cfg clk c task t₀ r t h =
    ap (λ (x : Tried Reply). elim x [ done a u ↦ done (result a) u | raised e ↦ raised e ]) h

-- `claim_task` without a key, from how `_do_claim` ends.
claim_task_lem :
    (cfg : Settings) (clk : Clock) (c : Caller) (task : String) (s : Server) (r : Reply)
    (t : TxState)
    → do_claim cfg clk c task (start s.db) ≡ done r t
    → ((claim_task cfg clk c task none s).0 ≡ replied r)
      × ((claim_task cfg clk c task none s).1.db ≡ t.db)
unfolding claim_task claim_tx
claim_task_lem cfg clk c task s r t h =
    let e =
      serve-done (claim_tx cfg clk c task) (then_redis (mirror_claim clk c)) s {a = result r}
        {t = t} (claim_tx_lem cfg clk c task _ r t h) in
    (
      rw (idempotent-none clk c (claim_tx cfg clk c task))
          (ap (λ (p : Answer Reply × Server). p.0) e),
      rw (idempotent-none clk c (claim_tx cfg clk c task))
          (ap (λ (p : Answer Reply × Server). p.1.db) e),
    )

-- A claim that answers 'claimed' answers a token above the one of the row that it found, and the
-- task has that token from then on.
pub claim-token :
    (cfg : Settings) (clk : Clock) (c : Caller) (task : String) (s : Server) (f exp ttl : ℕ)
    → DbOk s.db
    → (claim_task cfg clk c task none s).0 ≡ replied (claimed task f exp ttl)
    → ((x : Task) × (find_task c.team_id task s.db ≡ some x) × (x.fencing_token < f))
      × AtLeast c.team_id task f (claim_task cfg clk c task none s).1.db.tasks
unfolding take_task
claim-token cfg clk c task s f exp ttl ok h =
    elim (do_claim-Claims cfg clk c task (start s.db) (ok.keyed c.team_id task)) [
      | inl (refused, bad) ↦
          let (answer, db) = claim_task_lem cfg clk c task s _ _ refused in
          absurd (false≢true (sym bad ∙ ap (λ a. is_ok (reply_or nothing_open a)) (sym answer ∙ h)))
      | inr (x, found, free, ready, (after, won, table, deps)) ↦
          let (answer, db) = claim_task_lem cfg clk c task s _ _ won in
          let t : x.fencing_token + 1 ≡ f =
            ap (λ a. claimed_token (reply_or nothing_open a)) (sym answer ∙ h) in
          (
            (x, found, omega arith),
            rw (db, table)
                (
                  take_task clk.now c.agent_id _ x,
                  find-take_task c.team_id task c.agent_id clk.now _ s.db.tasks x found free,
                  omega arith,
                ),
          )
    ]

-- A task whose token has moved past `f`: every call of a holder with token `f` is refused with the
-- current token, and the server is as it was.
module _ (clk : Clock) (c : Caller) (task : String) (f : ℕ) (s : Server) (x : Task) where
  not_holder : f < x.fencing_token → is_holder c.agent_id f x ≡ false
  not_holder h = ground arith

  abbrev pub Refused : Answer Reply × Server → Type 0
  Refused r = r ≡ (replied (stale_token x.fencing_token), s)

  module _ (found : find_task c.team_id task s.db ≡ some x) (late : f < x.fencing_token) where
    complete-Refused :
        (summary : Option String) → Refused (complete_task clk c task f summary none s)
    unfolding complete_task complete_tx complete_found drop_lease
    complete-Refused summary = rw (idempotent-none clk c (complete_tx clk c task f summary)) (
        serve-quiet (complete_tx clk c task f summary) (then_redis (drop_lease c task)) s
          {a = result (stale_token x.fencing_token)} (rw found (rw (not_holder late))) refl)

    fail-Refused : (error : Option String) → Refused (fail_task clk c task f error s)
    unfolding fail_task fail_tx fail_found drop_lease
    fail-Refused error =
        serve-quiet (fail_tx clk c task f error) (then_redis (drop_lease c task)) s
          {a = result (stale_token x.fencing_token)} (rw found (rw (not_holder late))) refl

    release-Refused : Refused (release_task clk c task f s)
    unfolding release_task release_tx release_found drop_lease
    release-Refused =
        serve-quiet (release_tx clk c task f) (then_redis (drop_lease c task)) s
          {a = result (stale_token x.fencing_token)} (rw found (rw (not_holder late))) refl

    progress_refused :
        (cfg : Settings) (pct : Option ℤ) (status message : Option String)
        → update_task_progress cfg clk c task f pct status message s
          ≡ (replied (stale_holder x.fencing_token x.assignee), s)
    unfolding update_task_progress progress_tx progress_row mirror_progress
    progress_refused cfg pct status message =
        serve-quiet (progress_tx cfg clk c task f pct status message) (mirror_progress clk c task) s
          {a = (stale_holder x.fencing_token x.assignee, cfg.lease_ttl_s)}
          (rw found (rw (not_holder late))) refl

-- Every call that names the token `f` of caller `c` is refused, and changes nothing.
abbrev pub Zombie : Settings → Caller → String → ℕ → Server → Task → Type 0
Zombie cfg c task f s x =
    ((clk : Clock) (summary : Option String)
      → complete_task clk c task f summary none s ≡ (replied (stale_token x.fencing_token), s))
    × ((clk : Clock) (error : Option String)
        → fail_task clk c task f error s ≡ (replied (stale_token x.fencing_token), s))
    × ((clk : Clock) → release_task clk c task f s ≡ (replied (stale_token x.fencing_token), s))
    × ((clk : Clock) (pct : Option ℤ) (status message : Option String)
        → update_task_progress cfg clk c task f pct status message s
          ≡ (replied (stale_holder x.fencing_token x.assignee), s))

late-Zombie :
    (cfg : Settings) (c : Caller) (task : String) (f : ℕ) (s : Server)
    → AtLeast c.team_id task (suc f) s.db.tasks
    → (x : Task) × (find_task c.team_id task s.db ≡ some x)
      × (f < x.fencing_token)
      × Zombie cfg c task f s x
late-Zombie cfg c task f s (x, found, late) = (
  x,
  found,
  omega arith,
  (
    (λ clk summary. complete-Refused clk c task f s x found (omega arith) summary),
    (λ clk error. fail-Refused clk c task f s x found (omega arith) error),
    (λ clk. release-Refused clk c task f s x found (omega arith)),
    λ clk pct status message.
        progress_refused clk c task f s x found (omega arith) cfg pct status message,
  ),
)

abbrev row_token : Option Task → ℕ
row_token none = 0
row_token (some x) = x.fencing_token

-- The row that a claim at `f'` found had a token below `f'`.
token-between :
    (team task : String) (f f' : ℕ) (db : Db)
    → AtLeast team task f db.tasks
    → ((y : Task) × (find_task team task db ≡ some y) × (y.fencing_token < f'))
    → f < f'
token-between team task f f' db (x, found, least) (y, read, below) =
    let same : x.fencing_token ≡ y.fencing_token = ap row_token (sym found ∙ read) in omega arith

raise_to :
    (team task : String) {f f' : ℕ} (tasks : List Task)
    → f < f'
    → AtLeast team task f' tasks
    → AtLeast team task (suc f) tasks
raise_to team task tasks less (x, found, least) = (x, found, omega arith)

claimed-DbOk :
    (cfg : Settings) (clk : Clock) (c : Caller) (task : String) (s : Server)
    → 1 ≤ cfg.task_max_attempts
    → DbOk s.db
    → DbOk (claim_task cfg clk c task none s).1.db
unfolding step
claimed-DbOk cfg clk c task s h ok = step-DbOk cfg (claim_op clk c task none) s h ok

-- With at least one attempt allowed and on a well-formed database, let `a` claim a task and get token `f`, let any operations run, let
-- `b` of the same team claim it and get token `f'`, and let any operations run again. Then
-- `f < f'`, the task still exists with a token above `f`, and `a` coming back with `f` is refused by
-- complete (without a key), fail, release and progress, which leave the server as it was.
pub run-Zombie :
    (cfg : Settings) (clk₁ clk₂ : Clock) (a b : Caller) (task : String) (s : Server)
    (ops₁ ops₂ : List Op) (f f' exp exp' ttl ttl' : ℕ)
    → 1 ≤ cfg.task_max_attempts
    → DbOk s.db
    → b.team_id ≡ a.team_id
    → (claim_task cfg clk₁ a task none s).0 ≡ replied (claimed task f exp ttl)
    → (let s₁ = run cfg ops₁ (claim_task cfg clk₁ a task none s).1 in
        (claim_task cfg clk₂ b task none s₁).0 ≡ replied (claimed task f' exp' ttl'))
    → (let s₁ = run cfg ops₁ (claim_task cfg clk₁ a task none s).1 in
        let s₂ = run cfg ops₂ (claim_task cfg clk₂ b task none s₁).1 in
        (f < f')
        × ((x : Task) × (find_task a.team_id task s₂.db ≡ some x)
            × (f < x.fencing_token)
            × Zombie cfg a task f s₂ x))
run-Zombie cfg clk₁ clk₂ a b task s ops₁ ops₂ f f' exp exp' ttl ttl' h ok team first second =
    let s₀ = (claim_task cfg clk₁ a task none s).1 in
    let s₁ = run cfg ops₁ s₀ in
    let t₁ = (claim_task cfg clk₂ b task none s₁).1 in
    let ok₀ = claimed-DbOk cfg clk₁ a task s h ok in
    let ok₁ : DbOk s₁.db = run-DbOk cfg ops₁ s₀ h ok₀ in
    let (_, at₀) = claim-token cfg clk₁ a task s f exp ttl ok first in
    let at₁ : AtLeast a.team_id task f s₁.db.tasks =
      run-AtLeast a.team_id task f cfg ops₁ s₀ h ok₀ at₀ in
    let (row, at₂) = claim-token cfg clk₂ b task s₁ f' exp' ttl' ok₁ second in
    let less : f < f' = token-between a.team_id task f f' s₁.db at₁ (
      subst (λ t. (y : Task) × (find_task t task s₁.db ≡ some y) × (y.fencing_token < f')) team
        row) in
    let at₃ : AtLeast a.team_id task f' t₁.db.tasks =
      subst (λ team. AtLeast team task f' t₁.db.tasks) team at₂ in
    let at₄ =
      run-AtLeast a.team_id task f' cfg ops₂ t₁ h (claimed-DbOk cfg clk₂ b task s₁ h ok₁) at₃ in
    (less, late-Zombie cfg a task f (run cfg ops₂ t₁) (raise_to a.team_id task _ less at₄))
