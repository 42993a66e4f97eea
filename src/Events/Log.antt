-- ===== src/Events/Log.antt =====
-- events.py: the ids of the log go up, since only `append` draws them.
use atmcp.Base.{ℕ, ◌+◌, ◌≤◌, ◌<◌, String, ◌≡◌, refl, Option, List, [], ◌∷◌, ◌++◌, arith, All}
use atmcp.Base.Table.{insert}
use atmcp.Schema.{Event, EventKind, Json, Clock}
use atmcp.Db.{Db, TxState, done}
use atmcp.Events.{append, new_event, log_event}
use atmcp.Status.Cursor.{Ascending}

-- The log of a database: ascending ids, none above the counter.
abbrev pub LogOk : Db → Type 0
LogOk db = Ascending db.events × All (λ x. x.event_id ≤ db.last_event_id) db.events

below-insert :
    (n m : ℕ) (e : Event) (es : List Event)
    → n ≤ m
    → e.event_id ≤ m
    → All (λ x. x.event_id ≤ n) es
    → All (λ x. x.event_id ≤ m) (insert e es)
below-insert n m e [] h k a = (k, tt)
below-insert n m e (x ∷ es) h k a = (omega (arith, h, a.0), below-insert n m e es h k a.1)

above-insert :
    (n : ℕ) (e : Event) (es : List Event)
    → n < e.event_id
    → All (λ x. n < x.event_id) es
    → All (λ x. n < x.event_id) (insert e es)
above-insert n e [] k a = (k, tt)
above-insert n e (x ∷ es) k a = (a.0, above-insert n e es k a.1)

insert-Ascending :
    (n : ℕ) (e : Event) (es : List Event)
    → n < e.event_id
    → All (λ x. x.event_id ≤ n) es
    → Ascending es
    → Ascending (insert e es)
insert-Ascending n e [] k a b = (tt, tt)
insert-Ascending n e (x ∷ es) k a b =
    (above-insert x.event_id e es (omega (arith, k, a.0)) b.0, insert-Ascending n e es k a.1 b.1)

below-next :
    (n : ℕ) (es : List Event) → All (λ x. x.event_id ≤ n) es → All (λ x. x.event_id < n + 1) es
below-next n [] a = tt
below-next n (x ∷ es) a = (omega (arith, a.0), below-next n es a.1)

-- On a log whose ids go up and stay within the counter, `append` succeeds with an id above all of them,
-- puts the event of that id at the end of the log and at the end of the queue for publication, and
-- leaves the log with ids that go up and stay within the counter.
pub append_lem :
    (clk : Clock) (team_id : String) (kind : EventKind) (entity_type : String)
    (entity_id actor_agent : Option String) (payload : List (String × Json)) (t : TxState)
    → LogOk t.db
    → (id : ℕ) × (t' : TxState) × (append clk team_id kind entity_type entity_id actor_agent payload
          t
        ≡ done id t')
      × All (λ x. x.event_id < id) t.db.events
      × (t'.db.events
          ≡ insert
              (new_event clk team_id kind entity_type entity_id actor_agent payload id)
              t.db.events)
      × (t'.queue
          ≡ t.queue ++ new_event clk team_id kind entity_type entity_id actor_agent payload id ∷ [])
      × LogOk t'.db
unfolding append log_event new_event
append_lem clk team_id kind entity_type entity_id actor_agent payload t ok =
    let n = t.db.last_event_id in
    let e = new_event clk team_id kind entity_type entity_id actor_agent payload (n + 1) in
    (
      n + 1,
      _,
      refl,
      below-next n t.db.events ok.1,
      refl,
      refl,
      (
        insert-Ascending n e t.db.events (omega arith) ok.1 ok.0,
        below-insert n (n + 1) e t.db.events (omega arith) (omega arith) ok.1,
      ),
    )
