-- ===== src/Idempotency.antt =====
-- idempotency.py, and the blocks `if idem_key: …` around the body of each operation.
pub mod Once
use atmcp.Base.{
  ℕ, ◌-◌, String, Bool, Option, none, some, List, ◌==◌, ◌&&◌, truthy, ltb, is_some, if◌then◌else◌,
}
use atmcp.Base.Table.{fetch_one, insert, delete, row_count}
use atmcp.Schema.{Caller, Clock}
use atmcp.Wire.{Reply}
use atmcp.Db.{
  Db, Idem, Tx, TxState, Turn, returned, result, pure, fetch, execute, ◌>>=◌, ◌>>◌, done, raised,
}

abbrev pub is_idem : String → String → String → Idem → Bool
is_idem team_id agent_id idem_key r =
    r.team_id == team_id && (r.agent_id == agent_id && r.idem_key == idem_key)

-- `check`
unfoldable pub check : String → String → String → Db → Option Reply
check team_id agent_id idem_key db =
    elim (fetch_one (is_idem team_id agent_id idem_key) db.idempotency) [
      | none ↦ none
      | some row ↦ some row.result
    ]

-- `store`: INSERT OR IGNORE, so the first answer stays.
unfoldable pub store : Clock → String → String → String → Reply → Db → Db
store clk team_id agent_id idem_key reply db =
    if is_some (fetch_one (is_idem team_id agent_id idem_key) db.idempotency)
    then db
    else record db {
      idempotency =
          insert
            (record {
              team_id = team_id;
              agent_id = agent_id;
              idem_key = idem_key;
              result = reply;
              created_at = clk.stored_at;
            })
            db.idempotency;
    }

-- An answer that the body returns at once is not stored; one that it arrives at is.
unfoldable pub keep : Clock → Caller → String → Turn → Tx Turn
keep clk c key (returned r) = pure (returned r)
keep clk c key (result r) = do execute (store clk c.team_id c.agent_id key r); pure (result r)

-- With a key, give back the answer that is stored under it, or run the body and store its answer.
unfoldable pub idempotent : Clock → Caller → Option String → Tx Turn → Tx Turn
unfolding check store keep
idempotent clk c idem_key body = elim (truthy idem_key) [
  | none ↦ body
  | some key ↦ do
    prior ← fetch (check c.team_id c.agent_id key)
    elim prior [ some reply ↦ pure (returned reply) | none ↦ do turn ← body; keep clk c key turn ]
]

-- `prune_expired`: the table without the old rows, and how many those were.
unfoldable pub prune_expired : ℕ → ℕ → Db → ℕ × Db
prune_expired now retention_ms db = (
  row_count (λ r. ltb r.created_at (now - retention_ms)) db.idempotency,
  record db { idempotency = delete (λ r. ltb r.created_at (now - retention_ms)) db.idempotency },
)
