-- ===== src/Tasks/Board.antt =====
-- `list_tasks` and `goal_rollup`: the read-only views of the board.
use atmcp.Base.{
  ℕ, zero, ◌+◌, ◌*◌, ◌/◌, ◌%◌, min, max, String, Bool, true, false, not, ◌&&◌, ◌||◌, Option, none,
  some, List, [], ◌∷◌, ◌==◌, eqb, ltb, holds, truthy, take, length, if◌then◌else◌, ℤ, pos, to_ℕ,
  ltb_ℤ,
}
use atmcp.Base.Table.{select, order_by}
use atmcp.Schema.{Task, TaskStatus, cancelled}
use atmcp.Db.{Db}
use atmcp.Tasks.{is_done, status_text}

-- A filter that is None or '' lets every row through.
abbrev pub passes : Option String → Option String → Bool
passes filter value = elim (truthy filter) [ none ↦ true | some x ↦ holds value x ]

-- max(1, min(int(limit or standard), most))
abbrev pub page_size : ℕ → ℕ → ℤ → ℕ
page_size standard most (pos zero) = max 1 (min standard most)
page_size standard most limit = max 1 (min (to_ℕ limit) most)

-- `if since_event_id: … last_event_id>?`
abbrev pub is_newer : ℕ → ℕ → Bool
is_newer since last = eqb since 0 || ltb since last

abbrev pub on_board : String → Option String → Option String → Option String → ℕ → Task → Bool
on_board team_id status assignee goal_id since t =
    (t.team_id == team_id && passes status (some (status_text t.status)))
    && ((passes assignee t.assignee && passes goal_id t.goal_id) && is_newer since t.last_event_id)

abbrev pub board_order : Task → Task → Bool
board_order a b =
    ltb_ℤ b.priority a.priority
    || (not (ltb_ℤ a.priority b.priority) && ltb a.created_at b.created_at)

unfoldable pub list_tasks :
    String → Option String → Option String → Option String → ℕ → ℤ → Db → List Task
unfolding status_text
list_tasks team_id status assignee goal_id since limit db =
    take (page_size 200 500 limit)
      (order_by board_order (select (on_board team_id status assignee goal_id since) db.tasks))

abbrev pub is_cancelled : TaskStatus → Bool
is_cancelled cancelled = true
is_cancelled _ = false

abbrev pub in_goal : String → Option String → Task → Bool
in_goal team_id goal_id t =
    (t.team_id == team_id && passes goal_id t.goal_id) && not (is_cancelled t.status)

abbrev pub sum_weights : List Task → ℕ
sum_weights [] = 0
sum_weights (t ∷ ts) = t.weight + sum_weights ts

abbrev pub has_done : Task → Bool
has_done t = is_done t.status

-- Python's `round` of the quotient a / b: to the nearest, and to the even one of two.
unfoldable pub round_div : ℕ → ℕ → ℕ
round_div a b =
    if ltb (2 * (a % b)) b
    then a / b
    else if ltb b (2 * (a % b))
    then a / b + 1
    else if eqb (a / b % 2) 0
    then a / b
    else a / b + 1

-- `by_status[s] = by_status.get(s, 0) + 1`
unfoldable pub count_status : String → List (String × ℕ) → List (String × ℕ)
count_status s [] = (s, 1) ∷ []
count_status s ((k, n) ∷ rest) = if k == s then (k, n + 1) ∷ rest else (k, n) ∷ count_status s rest

unfoldable pub tally_status : List Task → List (String × ℕ) → List (String × ℕ)
unfolding count_status status_text
tally_status [] by = by
tally_status (t ∷ ts) by = tally_status ts (count_status (status_text t.status) by)

pub record Rollup : Type 0 where
  pub total_weight : ℕ
  pub done_weight : ℕ
  pub progress_pct : ℕ
  pub task_count : ℕ
  pub by_status : List (String × ℕ)

rollup_of : List Task → Rollup
unfolding round_div tally_status
rollup_of rows =
    let total = sum_weights rows in
    let finished = sum_weights (select has_done rows) in
    record {
      total_weight = total;
      done_weight = finished;
      progress_pct = if eqb total 0 then 0 else round_div (100 * finished) total;
      task_count = length rows;
      by_status = tally_status rows [];
    }

unfoldable pub goal_rollup : String → Option String → Db → Rollup
unfolding rollup_of
goal_rollup team_id goal_id db = rollup_of (select (in_goal team_id goal_id) db.tasks)
