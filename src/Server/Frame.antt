-- ===== src/Server/Frame.antt =====
-- An invariant of the database that a transaction body keeps is kept by the whole operation, with
-- an idempotency key or without.
use atmcp.Base.{
  String, ◌≡◌, refl, Option, none, Option-cases, Bool-cases, inl, inr, truthy, is_some, List, [],
}
use atmcp.Base.Table.{fetch_one}
use atmcp.Schema.{Clock, Caller}
use atmcp.Wire.{Reply}
use atmcp.Redis.{Redis}
use atmcp.Db.{Db, Tx, TxState, Tried, done, raised, Turn, returned, result, Idem, commit}
use atmcp.Db.Keeps.{After, Keeps}
use atmcp.Idempotency.{idempotent, keep, check, store, is_idem}
use atmcp.Hub.{dispatch}
use atmcp.Server.{Server, replied, serve, go_on}

abbrev pub start : Db → TxState
start db = record { db = db; queue = [] }

module _ (P : Db → Type 0) where
  go_on-Keeps :
      {A B : Type 0} (after : A → Redis → B × Redis) (s : Server) (r : Tried A)
      → After P r
      → P s.db
      → P (go_on after s (commit s.gens r)).1.db
  go_on-Keeps after s (done a t) h v = h
  go_on-Keeps after s (raised e) h v = v

  pub serve-Keeps :
      {A B : Type 0} (body : Tx A) (after : A → Redis → B × Redis) (s : Server)
      → Keeps P body
      → P s.db
      → P (serve body after s).1.db
  unfolding serve
  serve-Keeps body after s k v = go_on-Keeps after s (body (start s.db)) (k.at (start s.db) v) v

  -- `P` does not look at the idempotency table.
  module _
      (blind : (db : Db) (rows : List Idem) → P db → P (record db { idempotency = rows })) where
    store-Keeps :
        (clk : Clock) (team agent key : String) (r : Reply) (db : Db)
        → P db
        → P (store clk team agent key r db)
    unfolding store
    store-Keeps clk team agent key r db v =
        elim (Bool-cases (is_some (fetch_one (is_idem team agent key) db.idempotency))) [
          | inl e ↦ rw e v
          | inr e ↦ rw e (blind db _ v)
        ]

    keep-Keeps :
        (clk : Clock) (c : Caller) (key : String) (turn : Turn) (t : TxState)
        → P t.db
        → After P (keep clk c key turn t)
    unfolding keep
    keep-Keeps clk c key (returned r) t v = v
    keep-Keeps clk c key (result r) t v = store-Keeps clk c.team_id c.agent_id key r t.db v

    stored-Keeps :
        (clk : Clock) (c : Caller) (key : String) (r : Tried Turn)
        → After P r
        → After P (elim r [ done turn t ↦ keep clk c key turn t | raised e ↦ raised e ])
    stored-Keeps clk c key (done turn t) h = keep-Keeps clk c key turn t h
    stored-Keeps clk c key (raised e) h = tt

    pub idempotent-Keeps :
        (clk : Clock) (c : Caller) (idem_key : Option String) (body : Tx Turn)
        → Keeps P body
        → Keeps P (idempotent clk c idem_key body)
    unfolding idempotent
    idempotent-Keeps clk c idem_key body k = record {
      at = λ t v. elim (Option-cases (truthy idem_key)) [
        | inl e ↦ rw (e, After, idempotent) (k.at t v)
        | inr (key, e) ↦
            rw (e, After, idempotent)
              (elim (Option-cases (check c.team_id c.agent_id key t.db)) [
                | inl fresh ↦ rw (fresh, After) (stored-Keeps clk c key (body t) (k.at t v))
                | inr (r, stored) ↦ rw (stored, After) v
              ])
      ];
    }

-- How `serve` ends, from how its body ends.
module _ {A B : Type 0} (body : Tx A) (after : A → Redis → B × Redis) (s : Server) where
  pub serve-done :
      {a : A} {t : TxState}
      → body (start s.db) ≡ done a t
      → serve body after s ≡ (
        replied (after a s.redis).0,
        record s { db = t.db; gens = dispatch t.queue s.gens; redis = (after a s.redis).1 },
      )
  unfolding serve
  serve-done h = rw (h, commit)

  -- A body that changes and publishes nothing.
  pub serve-quiet :
      {a : A}
      → body (start s.db) ≡ done a (start s.db)
      → (after a s.redis).1 ≡ s.redis
      → serve body after s ≡ (replied (after a s.redis).0, s)
  unfolding dispatch
  serve-quiet h k = rw (serve-done h, k)

pub idempotent-none :
    (clk : Clock) (c : Caller) (body : Tx Turn) → idempotent clk c none body ≡ body
unfolding idempotent
idempotent-none clk c body = refl
