-- ===== src/Hub.antt =====
-- hub.py: the generation counters that wake long-polling callers. The WebSocket frames that the
-- hub also sends are output only and are not modelled.
pub mod Wakeups
use atmcp.Base.{ℕ, ◌+◌, String, Bool, true, false, ◌||◌, List, [], ◌∷◌, ltb, ◌==◌, if◌then◌else◌}
use atmcp.Schema.{Event}

-- `_gen`: a team without a row stands at 0.
pub record Gen : Type 0 where
  pub team_id : String
  pub gen : ℕ

unfoldable pub current_gen : String → List Gen → ℕ
current_gen team [] = 0
current_gen team (g ∷ gs) = if g.team_id == team then g.gen else current_gen team gs

pub bump_gen : String → List Gen → List Gen
bump_gen team [] = record { team_id = team; gen = 1 } ∷ []
bump_gen team (g ∷ gs) =
    if g.team_id == team then record g { gen = g.gen + 1 } ∷ gs else g ∷ bump_gen team gs

unfoldable pub touches : String → List Event → Bool
touches team [] = false
touches team (e ∷ es) = e.team_id == team || touches team es

-- `hub.dispatch`: each team that has an event in the batch advances by one.
unfoldable pub dispatch : List Event → List Gen → List Gen
unfolding bump_gen touches
dispatch [] gens = gens
dispatch (e ∷ es) gens =
    let rest = dispatch es gens in if touches e.team_id es then rest else bump_gen e.team_id rest

-- `hub.tick`: advance one team without an event.
pub tick : String → List Gen → List Gen
unfolding bump_gen
tick team gens = bump_gen team gens

-- `wait_for_change`, up to the moment when the wait ends: `ahead` is the counters at the first test
-- under the lock, and `later` the counters after each notification that comes before the timeout.
unfoldable pub wait_for_change : String → ℕ → List Gen → List (List Gen) → Bool
unfolding current_gen
wait_for_change team since_gen ahead [] = ltb since_gen (current_gen team ahead)
wait_for_change team since_gen ahead (gens ∷ later) =
    ltb since_gen (current_gen team ahead) || wait_for_change team since_gen gens later
