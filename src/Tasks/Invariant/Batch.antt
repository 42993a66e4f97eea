-- ===== src/Tasks/Invariant/Batch.antt =====
-- Loops that UPDATE tasks one by one, each by its key: the heartbeat's renewal of leases and the
-- requeueing of `leave_team`.
use atmcp.Base.{
  String, ◌≡◌, Bool, true, some, List, [], ◌∷◌, All, All-map, Bool-cases, inl, inr, subst, eq_refl,
}
use atmcp.Base.Table.{fetch_one, select, update}
use atmcp.Base.Table.Laws.{fetch_one-update, fetch_one-select}
use atmcp.Schema.{Task}
use atmcp.Tasks.{is_task}
use atmcp.Tasks.Invariant.{RowOk, TasksOk, KeepsKey, update-TasksOk}

-- The loop: `f h` is the change for the row `h` that was read.
abbrev pub update_each : String → (Task → Task → Task) → List Task → List Task → List Task
update_each team f [] tasks = tasks
update_each team f (h ∷ hs) tasks =
    update_each team f hs (update (is_task team h.task_id) (f h) tasks)

-- The row of that key is there and satisfies `q`.
abbrev pub Stands : (Task → Bool) → String → List Task → Task → Type 0
Stands q team tasks h =
    (x : Task) × (fetch_one (is_task team h.task_id) tasks ≡ some x) × (q x ≡ true)

module _ (q : Task → Bool) (team : String) (f : Task → Task → Task) where
  module _ (same : (h : Task) → KeepsKey (f h))
      (stays : (h x : Task) → q x ≡ true → q (f h x) ≡ true) where
    Stands-update :
        (h k : Task) (tasks : List Task)
        → Stands q team tasks k
        → Stands q team (update (is_task team h.task_id) (f h) tasks) k
    Stands-update h k tasks (x, found, good) =
        let read =
          fetch_one-update (is_task team k.task_id) (is_task team h.task_id) (f h)
            (same h team k.task_id) tasks in
        elim (Bool-cases (is_task team h.task_id x)) [
          | inl e ↦ (f h x, rw (read, found) (rw e), stays h x good)
          | inr e ↦ (x, rw (read, found) (rw e), good)
        ]

    pub update_each-TasksOk :
        ((h x : Task) → q x ≡ true → RowOk x → RowOk (f h x))
        → (hs tasks : List Task) → All (Stands q team tasks) hs
        → TasksOk tasks
        → TasksOk (update_each team f hs tasks)
    update_each-TasksOk keep [] tasks st v = v
    update_each-TasksOk keep (h ∷ hs) tasks ((x, found, good), st) v =
        update_each-TasksOk keep hs (update (is_task team h.task_id) (f h) tasks)
          (All-map hs (λ k s. Stands-update h k tasks s) st)
          (update-TasksOk team h.task_id (f h) tasks x (same h) v found (keep h x good))

-- Rows of the team that were selected stand in the table.
pub select-Stands :
    (p q : Task → Bool) (team : String) (tasks : List Task)
    → ((t : Task) → p t ≡ true → (t.team_id ≡ team) × (q t ≡ true))
    → TasksOk tasks
    → All (Stands q team tasks) (select p tasks)
select-Stands p q team tasks means v =
    All-map (select p tasks)
      (λ x h.
        let m = means x h.1 in
        (x, subst (λ y. fetch_one (is_task y x.task_id) tasks ≡ some x) m.0 h.0, m.1))
      (fetch_one-select (λ a b. is_task a.team_id a.task_id b)
        (λ r. rw (eq_refl r.team_id, eq_refl r.task_id)) p tasks (λ x. v.keyed x.team_id x.task_id))
