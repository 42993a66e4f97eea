-- ===== src/Server.antt =====
-- The state of the process, and the frame of every operation: a write transaction, then what the
-- function does after the COMMIT.
pub mod Frame
use atmcp.Base.{List}
use atmcp.Schema.{Caller}
use atmcp.Hub.{Gen}
use atmcp.Redis.{Redis}
use atmcp.Wire.{Reply}
use atmcp.Db.{Db, Exn, Tx, Turn, returned, result, Committed, committed, rolled_back, transaction}

-- `bound` is session.py's `_sessions`: the callers by their session ids.
pub record Server : Type 0 where
  pub db : Db
  pub gens : List Gen
  pub redis : Redis
  pub bound : List Caller

-- An operation answers, or raises.
pub data Answer (A : Type 0) : Type 0 where
  replied : A → Answer A
  raised : Exn → Answer A

module _ {A B : Type 0} where
  abbrev pub go_on : (A → Redis → B × Redis) → Server → Committed A → Answer B × Server
  go_on after s (committed a db gens) =
      let (r, redis) = after a s.redis in
      (replied r, record s { db = db; gens = gens; redis = redis })
  go_on after s (rolled_back e) = (raised e, s)

  unfoldable pub serve : Tx A → (A → Redis → B × Redis) → Server → Answer B × Server
  unfolding transaction
  serve body after s = go_on after s (transaction body s.db s.gens)

-- After a `return` inside the block nothing more is done.
abbrev pub then_redis : (Reply → Redis → Redis) → Turn → Redis → Reply × Redis
then_redis after (returned r) redis = (r, redis)
then_redis after (result r) redis = (r, after r redis)

abbrev pub no_redis : Turn → Redis → Reply × Redis
no_redis (returned r) redis = (r, redis)
no_redis (result r) redis = (r, redis)
