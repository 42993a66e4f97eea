-- ===== src/Reaper/Tokens.antt =====
-- The reaper lowers no fencing token.
use atmcp.Base.{ℕ, String, Option, none, some, arith, refl, Bool-cases, inl, inr}
use atmcp.Schema.{Clock, Task}
use atmcp.Db.{TxState}
use atmcp.Db.Keeps.{After}
use atmcp.Tasks.{is_task, find_task}
use atmcp.Tasks.Tokens.{DbAtLeast, update-AtLeast}
use atmcp.Reaper.{is_candidate, reap_row, reap_found, reap_tx}

module _ (team task : String) (n : ℕ) (clk : Clock) (ts : ℕ) (who id : String) where
  reap_found-AtLeast :
      (row : Option Task) (t : TxState)
      → DbAtLeast team task n t.db
      → After (DbAtLeast team task n) (reap_found clk ts who id row t)
  unfolding reap_found reap_row
  reap_found-AtLeast none t v = v
  reap_found-AtLeast (some row) t v = elim (Bool-cases (is_candidate clk.now row)) [
    | inl h ↦
        rw (h, After)
          (update-AtLeast team task n (is_task who id) _ t.db.tasks (λ x y r. refl)
            (λ x. omega arith) v)
    | inr h ↦ rw (h, After) v
  ]

  pub reap_tx-AtLeast :
      (t : TxState)
      → DbAtLeast team task n t.db
      → After (DbAtLeast team task n) (reap_tx clk ts who id t)
  unfolding reap_tx
  reap_tx-AtLeast t v = reap_found-AtLeast (find_task who id t.db) t v
