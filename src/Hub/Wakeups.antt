-- ===== src/Hub/Wakeups.antt =====
-- Laws of the generation counters: which teams a batch wakes, and that no wake-up is lost.
use atmcp.Base.{
  ◌+◌, ◌≤◌, String, ◌≡◌, refl, Bool, false, ◌||◌, List, [], ◌∷◌, arith, ltb, ◌==◌, eq_iff,
  if◌then◌else◌,
}
use atmcp.Base.Table.{exists_row}
use atmcp.Schema.{Event}
use atmcp.Hub.{Gen, current_gen, bump_gen, touches, dispatch, tick, wait_for_change}

pub current_gen-bump_gen :
    (team other : String) (gens : List Gen)
    → current_gen other (bump_gen team gens)
      ≡ (if team == other then current_gen other gens + 1 else current_gen other gens)
unfolding current_gen bump_gen
current_gen-bump_gen team other [] = ground arith
current_gen-bump_gen team other (g ∷ gs) = ground (
  arith,
  current_gen-bump_gen team other gs,
  eq_iff g.team_id team,
  eq_iff g.team_id other,
  eq_iff team other,
)

-- Publishing a batch advances a team's generation by exactly one if an event of the batch is the
-- team's, and leaves it alone otherwise.
pub dispatch-gen :
    (team : String) (batch : List Event) (gens : List Gen)
    → current_gen team (dispatch batch gens)
      ≡ (if touches team batch then current_gen team gens + 1 else current_gen team gens)
unfolding dispatch
dispatch-gen team [] gens = refl
dispatch-gen team (e ∷ es) gens = ground (
  arith,
  dispatch-gen team es gens,
  current_gen-bump_gen e.team_id team (dispatch es gens),
  eq_iff e.team_id team,
)

-- What moves the counters: a batch that is published after a COMMIT, and the tick of a team after new
-- output.
pub data Signal : Type 0 where
  published : (batch : List Event) → Signal
  ticked : (team : String) → Signal

abbrev pub signal : Signal → List Gen → List Gen
signal (published batch) gens = dispatch batch gens
signal (ticked team) gens = tick team gens

-- The counters after a sequence of signals, oldest first.
abbrev pub signal_all : List Signal → List Gen → List Gen
signal_all [] gens = gens
signal_all (x ∷ xs) gens = signal_all xs (signal x gens)

-- The signal is one for the team: an event of the team is in the batch, or the tick is the team's.
abbrev pub concerns : String → Signal → Bool
concerns team (published batch) = exists_row (λ (e : Event). e.team_id == team) batch
concerns team (ticked other) = other == team

abbrev pub any_concerns : String → List Signal → Bool
any_concerns team [] = false
any_concerns team (x ∷ xs) = concerns team x || any_concerns team xs

touches_lem :
    (team : String) (batch : List Event)
    → touches team batch ≡ exists_row (λ (e : Event). e.team_id == team) batch
unfolding touches
touches_lem team [] = refl
touches_lem team (e ∷ es) = ground (arith, touches_lem team es)

signal-gen :
    (team : String) (x : Signal) (gens : List Gen)
    → current_gen team (signal x gens)
      ≡ (if concerns team x then current_gen team gens + 1 else current_gen team gens)
unfolding tick
signal-gen team (published batch) gens =
    rw (← touches_lem team batch) (dispatch-gen team batch gens)
signal-gen team (ticked other) gens = current_gen-bump_gen other team gens

gen-signal_all-le :
    (team : String) (xs : List Signal) (gens : List Gen)
    → current_gen team gens ≤ current_gen team (signal_all xs gens)
gen-signal_all-le team [] gens = omega arith
gen-signal_all-le team (x ∷ xs) gens =
    ground (arith, gen-signal_all-le team xs (signal x gens), signal-gen team x gens)

gen-signal_all :
    (team : String) (xs : List Signal) (gens : List Gen)
    → ltb (current_gen team gens) (current_gen team (signal_all xs gens)) ≡ any_concerns team xs
gen-signal_all team [] gens = ground arith
gen-signal_all team (x ∷ xs) gens = ground (
  arith,
  gen-signal_all team xs (signal x gens),
  gen-signal_all-le team xs (signal x gens),
  signal-gen team x gens,
)

-- A caller that reads the generation, then reads the database, and only then waits, is woken at once
-- exactly if something for its team came in between: the first test of `wait_for_change` passes if and
-- only if, since the generation was read, a batch with an event of the team was published, or the team
-- was ticked after new output. Batches and ticks of other teams do not wake it.
pub wait-signalled :
    (team : String) (xs : List Signal) (gens : List Gen)
    → wait_for_change team (current_gen team gens) (signal_all xs gens) [] ≡ any_concerns team xs
unfolding wait_for_change
wait-signalled team xs gens = gen-signal_all team xs gens
