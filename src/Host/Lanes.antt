-- ===== src/Host/Lanes.antt =====
-- The loop of the host, `main_async`: threads run at the same time, each of them one turn at a time.
-- A turn may end at any await, so the moves of the loop and the ends of turns come in any order.
pub mod Serial
use atmcp.Base.{
  ℕ, suc, ◌+◌, ◌≤◌, ◌<◌, String, ◌≡◌, refl, Bool, true, false, not, ◌&&◌, Option, none, some, List,
  [], ◌∷◌, arith, Bool-cases, inl, inr, ltb, leb, ◌==◌, eq_iff, if◌then◌else◌, length, All,
  coalesce, truthy,
}
use atmcp.Base.Table.{exists_row, delete, select}

-- A directive of the inbox, as far as the loop reads it.
pub record Work : Type 0 where
  pub directive_id : String
  pub session_id : Option String

-- An entry of `running`: the lane and the turn that runs in it.
pub record Turn : Type 0 where
  pub key : String
  pub work : String

-- d.get("session_id") or DEFAULT_KEY
abbrev pub key_of : Work → String
key_of d = coalesce (truthy d.session_id) "__default__"

-- The loop: the running turns, the rest of the batch, and the directive whose claim is awaited.
pub record Host : Type 0 where
  pub running : List Turn
  pub batch : List Work
  pub claiming : Option Work

abbrev pub in_lane : String → Turn → Bool
in_lane key t = t.key == key

abbrev pub busy : String → List Turn → Bool
busy key running = exists_row (in_lane key) running

-- `for d in directives`, up to the claim.
unfoldable pub consider : ℕ → Work → List Work → Host → Host
consider max_concurrent d rest h =
    if busy (key_of d) h.running
    then record h { batch = rest }
    else if leb max_concurrent (length h.running)
    then record h { batch = [] }
    else record h { batch = rest; claiming = some d }

abbrev pub turn_of : Work → Turn
turn_of d = record { key = key_of d; work = d.directive_id }

-- The claim comes back, and a claimed directive is started in its lane.
abbrev pub answered : Bool → Option Work → Host → Host
answered ok none h = h
answered true (some d) h = record h { running = turn_of d ∷ h.running; claiming = none }
answered false (some d) h = record h { claiming = none }

-- `_reap`: the lane is freed if the turn in it is the one that ended.
abbrev pub is_turn : Turn → Turn → Bool
is_turn t u = u.key == t.key && u.work == t.work

unfoldable pub reap : Turn → Host → Host
reap t h = record h { running = delete (is_turn t) h.running }

-- What may happen next: the inbox answers, the loop looks at the next directive, a claim is answered,
-- a turn ends.
pub data Move : Type 0 where
  inbox : List Work → Move
  look : Move
  claim_answered : Bool → Move
  ended : Turn → Move

abbrev pub look_at : ℕ → List Work → Option Work → Host → Host
look_at max_concurrent batch (some d) h = h
look_at max_concurrent [] none h = h
look_at max_concurrent (d ∷ rest) none h = consider max_concurrent d rest h

-- The inbox is read when the batch is done and no claim is awaited.
abbrev pub take_batch : List Work → List Work → Option Work → Host → Host
take_batch new [] none h = record h { batch = new }
take_batch new batch claiming h = h

unfoldable pub act : ℕ → Move → Host → Host
unfolding consider reap
act max_concurrent (inbox new) h = take_batch new h.batch h.claiming h
act max_concurrent look h = look_at max_concurrent h.batch h.claiming h
act max_concurrent (claim_answered ok) h = answered ok h.claiming h
act max_concurrent (ended t) h = reap t h

unfoldable pub run : ℕ → List Move → Host → Host
run max_concurrent [] h = h
run max_concurrent (m ∷ ms) h = run max_concurrent ms (act max_concurrent m h)
