-- ===== src/Guard/Requests.antt =====
-- services/guard.py: a request for approval is settled once, whatever calls follow.
use atmcp.Base.{
  ℕ, String, ◌≡◌, refl, Bool, true, false, ◌&&◌, Option, none, some, List, [], ◌∷◌, arith,
  Bool-cases, inl, inr, ap,
}
use atmcp.Base.Table.{fetch_one, update}
use atmcp.Base.Table.Laws.{
  AtMostOne, update-none, row_count-none, row_count-one, fetch_one_sound, fetch_one-update,
}
use atmcp.Schema.{GuardRequest, Clock}
use atmcp.Db.{Db, TxState, done}
use atmcp.Events.{append}
use atmcp.Server.{Server, replied}
use atmcp.Server.Frame.{serve-done, serve-quiet, start}
use atmcp.Guard.{
  resolve_request, resolve_tx, announce, get_request, is_request, is_open, is_pending, resolved_row,
  verdict_of, not_pending_or_unknown, resolved,
}

-- A narrower test finds nothing where the wider one finds nothing.
narrower :
    {R : Type 0} (p q : R → Bool) (rs : List R)
    → fetch_one p rs ≡ none
    → fetch_one (λ r. p r && q r) rs ≡ none
narrower p q [] n = refl
narrower p q (r ∷ rs) n = elim (Bool-cases (p r)) [
  | inl e ↦ absurd (ground arith)
  | inr e ↦ rw e (narrower p q rs (rw e at n))
]

-- What the UPDATE of a pending row finds, if one row has the key.
narrowed :
    {R : Type 0} (p q : R → Bool) (rs : List R) {r : R}
    → AtMostOne p rs
    → fetch_one p rs ≡ some r
    → q r ≡ true
    → (fetch_one (λ r. p r && q r) rs ≡ some r) × AtMostOne (λ r. p r && q r) rs
narrowed p q [] u f h = absurd (ground arith)
narrowed p q (x ∷ rs) {r} u f h = elim (Bool-cases (p x)) [
  | inl e ↦
      let same : x ≡ r = ground arith in
      let good : q x ≡ true = rw same h in
      rw e (rw good (ap some same, narrower p q rs (rw e at u)))
  | inr e ↦ rw e (narrowed p q rs (rw e at u) (rw e at f) h)
]

-- After the row under the key was made to fail the test, nothing passes it.
spent :
    {R : Type 0} (p q : R → Bool) (g : R → R) (rs : List R) {r : R}
    → ((x : R) → p (g x) ≡ p x)
    → ((x : R) → q (g x) ≡ false)
    → AtMostOne p rs
    → fetch_one p rs ≡ some r
    → fetch_one (λ r. p r && q r) (update (λ r. p r && q r) g rs) ≡ none
spent p q g [] key off u f = refl
spent p q g (x ∷ rs) key off u f = elim (Bool-cases (p x)) [
  | inr e ↦ rw e (rw e (spent p q g rs key off (rw e at u) (rw e at f)))
  | inl e ↦
      let others = narrower p q rs (rw e at u) in
      let rest : fetch_one (λ r. p r && q r) (update (λ r. p r && q r) g rs) ≡ none =
        rw (update-none (λ r. p r && q r) g rs others) others in
      elim (Bool-cases (q x)) [
        | inl k ↦ rw (e, k) (rw (key x, e, off x) rest)
        | inr k ↦ rw (e, k) (rw (e, k) rest)
      ]
]

announce_lem :
    (clk : Clock) (team : String) (id : ℕ) (approve : Bool) (by : Option String) (t : TxState)
    → (t' : TxState) × (announce clk team id approve by t
        ≡ done (resolved id (verdict_of approve)) t')
      × (t'.db.guard_requests ≡ t.db.guard_requests)
unfolding announce append
announce_lem clk team id approve by t = (_, refl, refl)

module _ (clk : Clock) (team : String) (id : ℕ) (approve : Bool) (by : Option String)
    (db : Db) where
  resolve_tx-closed :
      fetch_one (is_open team id) db.guard_requests ≡ none
      → resolve_tx clk team id approve by (start db) ≡ done not_pending_or_unknown (start db)
  unfolding resolve_tx
  resolve_tx-closed e =
      rw
        (
          row_count-none (is_open team id) db.guard_requests e,
          update-none (is_open team id) (resolved_row clk.now (verdict_of approve) by)
              db.guard_requests e,
        )
        refl

  resolve_tx-open :
      {r : GuardRequest}
      → AtMostOne (is_open team id) db.guard_requests
      → fetch_one (is_open team id) db.guard_requests ≡ some r
      → (t : TxState) × (resolve_tx clk team id approve by (start db)
          ≡ done (resolved id (verdict_of approve)) t)
        × (t.db.guard_requests
            ≡ update
                (is_open team id)
                (resolved_row clk.now (verdict_of approve) by)
                db.guard_requests)
  unfolding resolve_tx
  resolve_tx-open one e =
      let rows =
        update (is_open team id) (resolved_row clk.now (verdict_of approve) by) db.guard_requests in
      let (t, ends, kept) =
        announce_lem clk team id approve by (start (record db { guard_requests = rows })) in
      (t, rw (row_count-one (is_open team id) db.guard_requests one e) ends, kept)

verdict-settled : (approve : Bool) → is_pending (verdict_of approve) ≡ false
verdict-settled true = refl
verdict-settled false = refl

module _ (team : String) (id : ℕ) (s : Server) {r : GuardRequest}
    (u : AtMostOne (is_request team id) s.db.guard_requests)
    (found : get_request team id s.db ≡ some r) (waits : is_pending r.status ≡ true) where
  -- With at most one request of the team under an id, the first answer to it while it is pending stands:
  -- it is written with the one who gave it, and any later answer, the same or the other, is refused
  -- and changes nothing.
  pub resolve_request_once :
      (clk clk' : Clock) (approve approve' : Bool) (by by' : Option String)
      → let first = resolve_request clk team id approve by s in
        (first.0 ≡ replied (resolved id (verdict_of approve)))
        × (get_request team id first.1.db ≡ some (resolved_row clk.now (verdict_of approve) by r))
        × (resolve_request clk' team id approve' by' first.1
            ≡ (replied not_pending_or_unknown, first.1))
  unfolding resolve_request get_request
  resolve_request_once clk clk' approve approve' by by' =
      let waiting = λ (x : GuardRequest). is_pending x.status in
      let g = resolved_row clk.now (verdict_of approve) by in
      let (opened, one) = narrowed (is_request team id) waiting s.db.guard_requests u found waits in
      let (t, ends, table) = resolve_tx-open clk team id approve by s.db one opened in
      let ended = serve-done (resolve_tx clk team id approve by) (λ v redis. (v, redis)) s ends in
      let read =
        fetch_one-update (is_request team id) (is_open team id) g (λ x. refl) s.db.guard_requests in
      let gone : fetch_one (is_open team id) t.db.guard_requests ≡ none = rw table (
        spent (is_request team id) waiting g s.db.guard_requests (λ x. refl)
          (λ x. verdict-settled approve) u found) in
      let mine : is_request team id r ≡ true =
        fetch_one_sound (is_request team id) s.db.guard_requests found in
      (
        rw ended refl,
        rw (ended, table, read, found, mine, waits) refl,
        rw ended (
            serve-quiet (resolve_tx clk' team id approve' by') (λ v redis. (v, redis)) _
              (resolve_tx-closed clk' team id approve' by' t.db gone) refl),
      )
