-- ===== src/Identity/Laws.antt =====
-- Leaving a team keeps the tasks table well-formed.
use atmcp.Base.{ℕ, String, ◌≡◌, refl, Bool, true, ◌||◌, List, [], ◌∷◌, arith, ap, map, ◌∙◌}
use atmcp.Base.Table.{update}
use atmcp.Schema.{Task, Caller, Clock}
use atmcp.Db.{TxState, done, ◌>>=◌}
use atmcp.Db.Keeps.{After, Keeps}
use atmcp.Tasks.{is_task, is_opened, is_leased}
use atmcp.Tasks.Work.{release_row}
use atmcp.Tasks.Invariant.{RowOk, DbOk}
use atmcp.Tasks.Invariant.Batch.{update_each, update_each-TasksOk, select-Stands}
use atmcp.Presence.{is_held, held_by}
use atmcp.Presence.Laws.{held_means}
use atmcp.Identity.{requeue_one, requeue_held, leave_tx, mirror_leave, unbind_left, leave_team}
use atmcp.Server.{Server, Answer, replied, raised, serve}
use atmcp.Server.Frame.{serve-Keeps}

abbrev can_requeue : Task → Bool
can_requeue t = is_opened t.status || is_leased t.status

requeue-RowOk : (now : ℕ) (x : Task) → can_requeue x ≡ true → RowOk x → RowOk (release_row now x)
unfolding release_row
requeue-RowOk now x e v = ground arith

requeue_one_lem :
    (clk : Clock) (c : Caller) (h : Task) (t : TxState)
    → (id : ℕ) × (t' : TxState) × (requeue_one clk c h t ≡ done id t')
      × (t'.db.tasks ≡ update (is_task c.team_id h.task_id) (release_row clk.now) t.db.tasks)
unfolding requeue_one
requeue_one_lem clk c h t = (_, _, refl, refl)

-- The loop ends normally, with the tasks released one by one.
pub requeue_held_lem :
    (clk : Clock) (c : Caller) (hs : List Task) (t : TxState)
    → (t' : TxState) × (requeue_held clk c hs t ≡ done (map (λ h. h.task_id) hs) t')
      × (t'.db.tasks ≡ update_each c.team_id (λ h. release_row clk.now) hs t.db.tasks)
unfolding requeue_held
requeue_held_lem clk c [] t = (t, refl, refl)
requeue_held_lem clk c (h ∷ hs) t =
    let (id, t1, one, first) = requeue_one_lem clk c h t in
    let (t', rest, later) = requeue_held_lem clk c hs t1 in
    (
      t',
      rw (one, ◌>>=◌) (rw (rest, ◌>>=◌)),
      later ∙ ap (update_each c.team_id (λ h. release_row clk.now) hs) first,
    )

pub leave_tx-Keeps : (clk : Clock) (c : Caller) → Keeps DbOk (leave_tx clk c)
unfolding leave_tx release_row
leave_tx-Keeps clk c = record {
  at = λ t v.
      let held = held_by c.team_id c.agent_id t.db in
      let (t', loop, tasks) = requeue_held_lem clk c held t in
      rw (loop, After, ◌>>=◌)
        (rw tasks (
          update_each-TasksOk can_requeue c.team_id (λ h. release_row clk.now) (λ h x y t. refl)
            (λ h x e. refl) (λ h. requeue-RowOk clk.now) held t.db.tasks
            (select-Stands (is_held c.team_id c.agent_id) can_requeue c.team_id t.db.tasks
              (λ x e. let m = held_means c.team_id c.agent_id x e in (m.0, ground arith)) v)
            v));
}

-- Unbinding the session leaves the database alone.
pub leave_team-db :
    (clk : Clock) (c : Caller) (s : Server)
    → (leave_team clk c s).1.db ≡ (serve (leave_tx clk c) (mirror_leave c) s).1.db
unfolding leave_team
leave_team-db clk c s = unbound (serve (leave_tx clk c) (mirror_leave c) s)
  where
    unbound : (r : Answer (List String) × Server) → (unbind_left c.session_id r).1.db ≡ r.1.db
    unbound (replied ids, s') = refl
    unbound (raised e, s') = refl

pub leave_team-Keeps :
    (clk : Clock) (c : Caller) (s : Server) → DbOk s.db → DbOk (leave_team clk c s).1.db
leave_team-Keeps clk c s v =
    rw (leave_team-db clk c s)
      (serve-Keeps DbOk (leave_tx clk c) (mirror_leave c) s (leave_tx-Keeps clk c) v)
