-- ===== src/Tasks/Views.antt =====
-- `list_tasks` and `goal_rollup`: what the views of the board guarantee.
use atmcp.Base.{
  ℕ, zero, suc, ◌+◌, ◌*◌, ◌/◌, ◌%◌, ◌≤◌, String, ◌≡◌, refl, false, Option, List, [], ◌∷◌, arith,
  Bool-cases, inl, inr, eqb, All, ℤ, take, length, leb,
}
use native.Mathlib.Nat.{mul-le-mul_right, div-add-mod, mul_comm, suc-mul}
use atmcp.Base.Table.{select}
use atmcp.Base.Table.Laws.{All-select}
use atmcp.Schema.{Task}
use atmcp.Db.{Db}
use atmcp.Tasks.Invariant.{RowOk, DbOk}
use atmcp.Tasks.Board.{
  list_tasks, on_board, page_size, goal_rollup, sum_weights, has_done, round_div, in_goal,
}

none_since :
    (team : String) (status assignee goal : Option String) (since : ℕ) (ts : List Task)
    → 1 ≤ since
    → All RowOk ts
    → select (on_board team status assignee goal since) ts ≡ []
none_since team status assignee goal since [] h a = refl
none_since team status assignee goal since (t ∷ ts) h a =
    let out : on_board team status assignee goal since t ≡ false = ground (arith, a.0.unstamped) in
    rw out (none_since team status assignee goal since ts h a.1)

-- On a well-formed database, where `last_event_id` of every task is 0, `list_tasks` with a positive
-- `since_event_id` is empty, whatever the other filters are.
pub list_tasks-since :
    (team : String) (status assignee goal : Option String) (since : ℕ) (limit : ℤ) (db : Db)
    → 1 ≤ since
    → DbOk db
    → list_tasks team status assignee goal since limit db ≡ []
unfolding list_tasks
list_tasks-since team status assignee goal since limit db h ok =
    rw (none_since team status assignee goal since db.tasks h ok.rows)
      (take_nil (page_size 200 500 limit))
  where
    take_nil : (n : ℕ) → take {A = Task} n [] ≡ []
    take_nil zero = refl
    take_nil (suc n) = refl

done-le-total : (ts : List Task) → sum_weights (select has_done ts) ≤ sum_weights ts
done-le-total [] = omega arith
done-le-total (t ∷ ts) = elim (Bool-cases (has_done t)) [
  | inl e ↦ rw e (omega (arith, done-le-total ts))
  | inr e ↦ rw e (omega (arith, done-le-total ts))
]

count-le-total : (ts : List Task) → All RowOk ts → length ts ≤ sum_weights ts
count-le-total [] a = omega arith
count-le-total (t ∷ ts) a = omega (arith, count-le-total ts a.1, a.0.weighs)

quotient-le : (a b n : ℕ) → 1 ≤ b → a ≤ n * b → (a / b ≤ n) × (n ≤ a / b → a % b ≡ 0)
quotient-le a b n h k =
    let whole : b * (a / b) + a % b ≡ a = div-add-mod a b in
    let swap : b * (a / b) ≡ a / b * b = mul_comm b (a / b) in
    elim (Bool-cases (leb (suc n) (a / b))) [
      | inl e ↦
          let big : suc n * b ≤ a / b * b = mul-le-mul_right b (ground arith) in
          let more : suc n * b ≡ n * b + b = suc-mul n b in absurd (omega arith)
      | inr e ↦ (
        ground arith,
        λ at_least. let big : n * b ≤ a / b * b = mul-le-mul_right b at_least in omega arith,
      )
    ]

round_div-le : (a b n : ℕ) → 1 ≤ b → a ≤ n * b → round_div a b ≤ n
unfolding round_div
round_div-le a b n h k =
    let (most, exact) = quotient-le a b n h k in
    elim (Bool-cases (leb n (a / b))) [
      | inl e ↦ let none_left : a % b ≡ 0 = exact (ground arith) in rw none_left (ground arith)
      | inr e ↦ ground arith
    ]

-- On a well-formed database the rollup of a goal, or of a whole team, is consistent: the finished
-- weight is at most the total, the percentage at most 100 (rounding included), and the number of
-- tasks at most the total weight.
pub goal_rollup-Bounded :
    (team : String) (goal : Option String) (db : Db)
    → DbOk db
    → ((goal_rollup team goal db).done_weight ≤ (goal_rollup team goal db).total_weight)
      × ((goal_rollup team goal db).progress_pct ≤ 100)
      × ((goal_rollup team goal db).task_count ≤ (goal_rollup team goal db).total_weight)
unfolding goal_rollup
goal_rollup-Bounded team goal db ok =
    let rows = select (in_goal team goal) db.tasks in
    let total = sum_weights rows in
    let part = done-le-total rows in
    (
      part,
      elim (Bool-cases (eqb total 0)) [
        | inl e ↦ rw e (omega arith)
        | inr e ↦ rw e (
            round_div-le (100 * sum_weights (select has_done rows)) total 100 (ground arith)
              (omega (arith, part)))
      ],
      count-le-total rows (All-select (in_goal team goal) RowOk db.tasks ok.rows),
    )
