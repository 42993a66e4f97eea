-- ===== src/Reaper/Laws.antt =====
-- The reaper keeps the tasks table well-formed, and what one reaping does.
use atmcp.Base.{ℕ, ◌+◌, String, ◌≡◌, refl, true, Option, none, some, arith, Bool-cases, inl, inr}
use atmcp.Schema.{Task, Clock}
use atmcp.Db.{TxState}
use atmcp.Db.Keeps.{After, Keeps}
use atmcp.Tasks.{find_task}
use atmcp.Tasks.Work.{is_dead}
use atmcp.Tasks.Invariant.{RowOk, DbOk, update-TasksOk}
use atmcp.Reaper.{is_candidate, reap_row, reap_expired, reap_found, reap_tx}

reap_row-RowOk :
    (now ts : ℕ) (t : Task)
    → is_candidate now t ≡ true
    → RowOk t
    → RowOk (reap_row ts (is_dead t) (t.attempts + 1) t)
unfolding reap_row
reap_row-RowOk now ts t e v = ground arith

reap_found-DbOk :
    (clk : Clock) (ts : ℕ) (team task : String) (row : Option Task) (t : TxState)
    → find_task team task t.db ≡ row
    → DbOk t.db
    → After DbOk (reap_found clk ts team task row t)
unfolding reap_found reap_expired reap_row
reap_found-DbOk clk ts team task none t e v = v
reap_found-DbOk clk ts team task (some row) t e v = elim (Bool-cases (is_candidate clk.now row)) [
  | inl h ↦
      rw (h, After)
        (update-TasksOk team task _ t.db.tasks row (λ x y r. refl) v e
          (reap_row-RowOk clk.now ts row h))
  | inr h ↦ rw (h, After) v
]

pub reap_tx-Keeps :
    (clk : Clock) (ts : ℕ) (team task : String) → Keeps DbOk (reap_tx clk ts team task)
unfolding reap_tx
reap_tx-Keeps clk ts team task = record {
  at = λ t v. reap_found-DbOk clk ts team task (find_task team task t.db) t refl v;
}
