-- ===== src/Web/Outsiders.antt =====
-- web.py: runs of calls, and the rows of a team whose join token they do not carry.
use atmcp.Base.{String, ◌==◌, ◌≡◌, refl, ap, ◌∙◌, false, List, [], ◌∷◌, All, All-map, inl, inr}
use atmcp.Db.{Db}
use atmcp.Db.Isolation.{rows_of}
use atmcp.Server.{Server}
use atmcp.Web.{Env, Op, Call}
use atmcp.Web.Gate.{handle}
use atmcp.Web.Access.{Admitted, handle_lem}
use atmcp.Web.Isolation.{act-Untouched}

-- A call, with the surroundings that its handler finds.
pub record Request : Type 0 where
  pub env : Env
  pub call : Call
  pub op : Op

-- The requests, one after the other.
unfoldable pub run_calls : List Request → Server → Server
run_calls [] s = s
run_calls (q ∷ qs) s = run_calls qs (handle q.env q.call q.op s).1

-- A request is of an outsider unless it is let in for the team.
abbrev pub IsOutsider : String → Db → Request → Type 0
IsOutsider team db q = (a : Admitted q.env q.call q.op db) → (a.team.team_id == team) ≡ false

-- Who is let in depends on the table of the teams alone.
moved :
    (q : Request) (team : String) (db db' : Db)
    → db'.teams ≡ db.teams
    → IsOutsider team db q
    → IsOutsider team db' q
moved q team db db' same outsider a = outsider (record {
  team = a.team;
  named = rw same at a.named;
  token = a.token;
  carried = a.carried;
  hashed = a.hashed;
  has_hash = a.has_hash;
})

handle-Untouched :
    (team : String) (q : Request) (s : Server)
    → IsOutsider team s.db q
    → rows_of team (handle q.env q.call q.op s).1.db ≡ rows_of team s.db
handle-Untouched team q s outsider = elim (handle_lem q.env q.call q.op s) [
  | inl (a, e) ↦
      rw e (act-Untouched team a.team.team_id (outsider a) (rows_of team s.db) q.env q.op s refl)
  | inr (inl (_, e)) ↦ rw e refl
  | inr (inr (_, _, _, e)) ↦ rw e refl
]

-- Whatever calls come, with whatever arguments, in whatever order and number: if none of them carries the
-- join token of a team in a call to it, where its operation reads it, then afterwards every table has the
-- same rows of that team as before, and the tables of the teams and of the knowledge objects are as before.
-- The calls may be refused or let in for other teams; what they change there is not restricted.
pub run_calls-outsiders :
    (team : String) (qs : List Request) (s : Server)
    → All (IsOutsider team s.db) qs
    → rows_of team (run_calls qs s).db ≡ rows_of team s.db
unfolding run_calls
run_calls-outsiders team [] s outsiders = refl
run_calls-outsiders team (q ∷ qs) s (outsider, outsiders) =
    let step = handle-Untouched team q s outsider in
    run_calls-outsiders team qs (handle q.env q.call q.op s).1 (
      All-map qs
        (λ (x : Request).
          moved x team s.db (handle q.env q.call q.op s).1.db (ap (λ r. r.teams) step))
        outsiders)
    ∙ step
