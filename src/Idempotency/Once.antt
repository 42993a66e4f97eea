-- ===== src/Idempotency/Once.antt =====
-- idempotency.py: a keyed call is applied once.
use atmcp.Base.{
  String, ◌≡◌, refl, ap, sym, ◌∙◌, Option, none, some, Option-cases, inl, inr, truthy, eq_iff,
  arith,
}
use atmcp.Base.Table.Laws.{fetch_one-insert}
use atmcp.Schema.{Clock, Caller}
use atmcp.Wire.{Reply}
use atmcp.Redis.{Redis}
use atmcp.Db.{Db, Tx, TxState, done, Turn, returned, result, Idem, ◌>>=◌, fetch}
use atmcp.Idempotency.{idempotent, keep, check, store, is_idem}
use atmcp.Server.{Server, Answer, replied, serve, then_redis}
use atmcp.Server.Frame.{start, serve-done, serve-quiet}

no_row : (row : Option Idem) → elim row [ none ↦ none | some r ↦ some r.result ] ≡ none → row ≡ none
no_row none h = refl
no_row (some r) h = absurd (ground arith)

module _ (clk : Clock) (c : Caller) (key : String) where
  check-store :
      (r : Reply) (db : Db)
      → check c.team_id c.agent_id key db ≡ none
      → check c.team_id c.agent_id key (store clk c.team_id c.agent_id key r db) ≡ some r
  unfolding check store
  check-store r db fresh =
      let e = no_row _ fresh in
      rw e (
        rw (check, fetch_one-insert (is_idem c.team_id c.agent_id key) _ db.idempotency e)
          (ground
            (arith, eq_iff c.team_id c.team_id, eq_iff c.agent_id c.agent_id, eq_iff key key)))

-- How a keyed body ends.
module _ (clk : Clock) (c : Caller) (idem_key : Option String) (key : String) (body : Tx Turn)
    (t : TxState) where
  keyed-stored :
      (r : Reply)
      → truthy idem_key ≡ some key
      → check c.team_id c.agent_id key t.db ≡ some r
      → idempotent clk c idem_key body t ≡ done (returned r) t
  unfolding idempotent
  keyed-stored r k e = rw (k, idempotent) (rw (e, ◌>>=◌, fetch) refl)

  keyed-fresh :
      (r : Reply) (t' : TxState)
      → truthy idem_key ≡ some key
      → check c.team_id c.agent_id key t.db ≡ none
      → body t ≡ done (result r) t'
      → idempotent clk c idem_key body t
        ≡ done (result r) (record t' { db = store clk c.team_id c.agent_id key r t'.db })
  unfolding idempotent keep
  keyed-fresh r t' k e b = rw (k, idempotent) (rw (e, ◌>>=◌, fetch) (rw (b, ◌>>=◌) refl))

checked-same :
    (c : Caller) (key : String) (db db' : Db)
    → db'.idempotency ≡ db.idempotency
    → check c.team_id c.agent_id key db ≡ none
    → check c.team_id c.agent_id key db' ≡ none
unfolding check
checked-same c key db db' same fresh = rw (same, check) fresh

stored_again :
    (clk : Clock) (c : Caller) (idem_key : Option String) (key : String) (body : Tx Turn)
    (after : Reply → Redis → Redis) (s : Server) (r : Reply)
    → truthy idem_key ≡ some key
    → check c.team_id c.agent_id key s.db ≡ some r
    → serve (idempotent clk c idem_key body) (then_redis after) s ≡ (replied r, s)
stored_again clk c idem_key key body after s r k stored =
    serve-quiet (idempotent clk c idem_key body) (then_redis after) s {a = returned r}
      (keyed-stored clk c idem_key key body (start s.db) r k stored) refl

-- Let a keyed call be answered `r`, by a body that reaches its result and leaves the idempotency
-- table alone, or from the table. Let then anything happen to the server, until the row of that key is
-- pruned: the row of the agent's key is still what the call left. Then a later call of the same agent
-- under the same key, of the same operation or another, at another time and with other arguments,
-- answers `r` and changes nothing.
pub replayed :
    (clk clk' : Clock) (c : Caller) (idem_key : Option String) (key : String) (body body' : Tx Turn)
    (after after' : Reply → Redis → Redis) (s later : Server) (r r₁ : Reply) (t : TxState)
    → truthy idem_key ≡ some key
    → body (start s.db) ≡ done (result r₁) t
    → t.db.idempotency ≡ s.db.idempotency
    → (serve (idempotent clk c idem_key body) (then_redis after) s).0 ≡ replied r
    → check c.team_id c.agent_id key later.db
      ≡ check c.team_id c.agent_id key
          (serve (idempotent clk c idem_key body) (then_redis after) s).1.db
    → serve (idempotent clk' c idem_key body') (then_redis after') later ≡ (replied r, later)
replayed clk clk' c idem_key key body body' after after' s later r r₁ t k b same first still =
    elim (Option-cases (check c.team_id c.agent_id key s.db)) [
      | inr (r₀, stored) ↦
          let here = stored_again clk c idem_key key body after s r₀ k stored in
          let same_reply : replied r₀ ≡ replied r = ap (λ x. x.0) (sym here) ∙ first in
          let kept : check c.team_id c.agent_id key later.db ≡ some r₀ =
            still
            ∙ ap (λ (x : Answer Reply × Server). check c.team_id c.agent_id key x.1.db) here
            ∙ stored in
          stored_again clk' c idem_key key body' after' later r₀ k kept
          ∙ ap (λ a. (a, later)) same_reply
      | inl fresh ↦
          let left = checked-same c key s.db t.db same fresh in
          let here =
            serve-done (idempotent clk c idem_key body) (then_redis after) s {a = result r₁}
              (keyed-fresh clk c idem_key key body (start s.db) r₁ t k fresh b) in
          let same_reply : replied r₁ ≡ replied r = ap (λ x. x.0) (sym here) ∙ first in
          let kept : check c.team_id c.agent_id key later.db ≡ some r₁ =
            still
            ∙ ap (λ (x : Answer Reply × Server). check c.team_id c.agent_id key x.1.db) here
            ∙ check-store clk c key r₁ t.db left in
          stored_again clk' c idem_key key body' after' later r₁ k kept
          ∙ ap (λ a. (a, later)) same_reply
    ]
