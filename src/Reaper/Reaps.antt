-- ===== src/Reaper/Reaps.antt =====
-- reaper.py: what the transaction on one candidate does.
use mathlib.Core.Bool.{false≢true}
use atmcp.Tasks.{is_leased}
use atmcp.Base.{
  &&-eq-true, sym, ◌∙◌, ltb, none, Option, ℕ, ◌+◌, ◌≤◌, ◌<◌, leb→le, ltb→lt, arith, String, ◌≡◌,
  refl, ap, Bool, true, false, some, Bool-cases, inl, inr, ◌⊎◌,
}
use atmcp.Base.Table.Laws.{fetch_one-update_self}
use atmcp.Schema.{Task, TaskStatus, opened, claimed, in_progress, blocked, cancelled, Clock}
use atmcp.Db.{TxState, done}
use atmcp.Server.{Server, Answer, replied}
use atmcp.Server.Frame.{start, serve-done, serve-quiet}
use atmcp.Tasks.{is_task, find_task}
use atmcp.Tasks.Work.{is_dead}
use atmcp.Reaper.{
  is_expired, is_candidate, reap_row, reap_expired, reap_found, reap_tx, reap_one, mirror_reap,
}

reap_expired_lem :
    (clk : Clock) (ts : ℕ) (team task : String) (x : Task) (t : TxState)
    → find_task team task t.db ≡ some x
    → (t' : TxState) × (reap_expired clk ts team task x t ≡ done true t')
      × (find_task team task t'.db ≡ some (reap_row ts (is_dead x) (x.attempts + 1) x))
unfolding reap_expired reap_row
reap_expired_lem clk ts team task x t found = (
  _,
  refl,
  fetch_one-update_self (is_task team task) (reap_row ts (is_dead x) (x.attempts + 1)) t.db.tasks
      (λ r. refl) found,
)

reap_one-run :
    (clk : Clock) (ts : ℕ) (team task : String) (s : Server) (x : Task)
    → find_task team task s.db ≡ some x
    → ((is_candidate clk.now x ≡ false) × (reap_one clk ts team task s ≡ (replied false, s)))
      ⊎ ((is_candidate clk.now x ≡ true)
          × ((reap_one clk ts team task s).0 ≡ replied true)
          × (find_task team task (reap_one clk ts team task s).1.db
              ≡ some (reap_row ts (is_dead x) (x.attempts + 1) x)))
unfolding reap_one reap_tx reap_found mirror_reap
reap_one-run clk ts team task s x found = elim (Bool-cases (is_candidate clk.now x)) [
  | inr h ↦ inl (
    h,
    serve-quiet (reap_tx clk ts team task) (mirror_reap team task) s {a = false}
        (rw (found, reap_tx) (rw h)) refl,
  )
  | inl h ↦
      let (t', e, row) = reap_expired_lem clk ts team task x (start s.db) found in
      let served =
        serve-done (reap_tx clk ts team task) (mirror_reap team task) s {a = true} {t = t'}
          (rw (found, reap_tx) (rw h e)) in
      inr (h, ap (λ (p : Answer Bool × Server). p.0) served, rw (served) row)
]

lt→ltb : (a b : ℕ) → a < b → ltb a b ≡ true
lt→ltb a b h = ground (arith, h)

-- The task is in work, and its lease has run out.
abbrev pub Expired : ℕ → Task → Type 0
Expired now x =
    ((x.status ≡ claimed) ⊎ (x.status ≡ in_progress))
    × ((e : ℕ) × (x.lease_expires_at ≡ some e) × (e < now))

leased_means : (st : TaskStatus) → is_leased st ≡ true → (st ≡ claimed) ⊎ (st ≡ in_progress)
leased_means claimed h = inl refl
leased_means in_progress h = inr refl
leased_means opened h = absurd (false≢true h)
leased_means blocked h = absurd (false≢true h)
leased_means TaskStatus.done h = absurd (false≢true h)
leased_means TaskStatus.failed h = absurd (false≢true h)
leased_means cancelled h = absurd (false≢true h)

expired_means :
    (now : ℕ) (o : Option ℕ) → is_expired now o ≡ true → (e : ℕ) × (o ≡ some e) × (e < now)
expired_means now none h = absurd (false≢true h)
expired_means now (some e) h = (e, refl, ltb→lt e now h)

candidate-Expired : (now : ℕ) (x : Task) → is_candidate now x ≡ true → Expired now x
candidate-Expired now x h =
    let (leased, late) = &&-eq-true (is_leased x.status) (is_expired now x.lease_expires_at) h in
    (leased_means x.status leased, expired_means now x.lease_expires_at late)

not-Expired : (now : ℕ) (x : Task) → is_candidate now x ≡ false → ¬ Expired now x
not-Expired now x h (inl e, (at, ends, late)) =
    false≢true (sym h ∙ rw (e, ends) (lt→ltb at now late))
not-Expired now x h (inr e, (at, ends, late)) =
    false≢true (sym h ∙ rw (e, ends) (lt→ltb at now late))

-- The reaper looks at a candidate again under the lock. If its task is by then not 'claimed' or
-- 'in_progress', or its lease does not end before the new reading of the clock, nothing at all changes;
-- in particular a 'blocked' task is never reaped. Else the task loses its holder and its lease, and one
-- more attempt is counted: it is failed if the attempts have reached the most that are allowed, else
-- open again. Nothing else of it changes but the time of the change.
pub reap_one_lem :
    (clk : Clock) (ts : ℕ) (team task : String) (s : Server) (x : Task)
    → find_task team task s.db ≡ some x
    → let after = reap_one clk ts team task s in
      ((¬ Expired clk.now x) × (after ≡ (replied false, s)))
      ⊎ ((Expired clk.now x
            × (x.max_attempts ≤ x.attempts + 1)
            × (after.0 ≡ replied true)
            × (find_task team task after.1.db
                ≡ some (record x {
                  status = TaskStatus.failed;
                  assignee = none;
                  attempts = x.attempts + 1;
                  lease_expires_at = none;
                  updated_at = ts;
                })))
          ⊎ (Expired clk.now x
              × (x.attempts + 1 < x.max_attempts)
              × (after.0 ≡ replied true)
              × (find_task team task after.1.db
                  ≡ some (record x {
                    status = opened;
                    assignee = none;
                    attempts = x.attempts + 1;
                    lease_expires_at = none;
                    updated_at = ts;
                  }))))
unfolding reap_row
reap_one_lem clk ts team task s x found = elim (reap_one-run clk ts team task s x found) [
  | inl (h, same) ↦ inl (not-Expired clk.now x h, same)
  | inr (h, answer, row) ↦ elim (Bool-cases (is_dead x)) [
    | inl dead ↦ inr (
        inl (
          candidate-Expired clk.now x h,
          leb→le x.max_attempts (x.attempts + 1) dead,
          answer,
          rw dead at row,
        ))
    | inr alive ↦
        inr (inr (candidate-Expired clk.now x h, ground (arith, alive), answer, rw alive at row))
  ]
]
