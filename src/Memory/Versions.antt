-- ===== src/Memory/Versions.antt =====
-- services/memory.py: versions, compare-and-set and the team's clock.
use atmcp.Base.{
  ◌⊎◌, subst, ℕ, ◌+◌, String, ◌≡◌, refl, ap, sym, ◌∙◌, true, false, Option, none, some, Bool-cases,
  inl, inr, List, eq_iff, arith,
}
use atmcp.Base.Table.{fetch_one}
use atmcp.Base.Table.Laws.{fetch_one-insert, fetch_one-update_self}
use atmcp.Schema.{Memory, TeamClock, Caller, Clock}
use atmcp.Wire.{Reply, memory_set, conflict}
use atmcp.Server.{Server, Answer, replied, no_redis}
use atmcp.Server.Frame.{start, serve-done, serve-quiet, idempotent-none}
use atmcp.Db.{Db, TxState, Tried, done, Turn, result}
use atmcp.Memory.{
  is_clock, is_memory, find_memory, team_lclock, bump_row, bump, version_of, is_conflict,
  conflict_reply, set_memory, write_current, write_at, write_memory, set_row, set_tx, memory_row,
  memory_update,
}

abbrev lclock_of : Option TeamClock → ℕ
lclock_of none = 0
lclock_of (some r) = r.lclock

-- The clock of the team advances by one.
clock-bump_row :
    (team : String) (rows : List TeamClock) (row : Option TeamClock)
    → fetch_one (is_clock team) rows ≡ row
    → (r : TeamClock) × (fetch_one (is_clock team) (bump_row team row rows) ≡ some r)
      × (r.lclock ≡ lclock_of row + 1)
unfolding bump_row
clock-bump_row team rows none e = (
  record { team_id = team; lclock = 1 },
  rw (fetch_one-insert (is_clock team) (record { team_id = team; lclock = 1 }) rows e)
      (ground (arith, eq_iff team team)),
  refl,
)
clock-bump_row team rows (some r) e = (
  record r { lclock = r.lclock + 1 },
  fetch_one-update_self (is_clock team) (λ x. record x { lclock = x.lclock + 1 }) rows (λ x. refl)
      e,
  refl,
)

lclock-bump :
    (team : String) (db : Db)
    → team_lclock team (record db {
      team_clock = bump_row team (fetch_one (is_clock team) db.team_clock) db.team_clock;
    })
      ≡ team_lclock team db + 1
lclock-bump team db =
    let (r, read, next) = clock-bump_row team db.team_clock _ refl in
    rw (read, team_lclock) (next ∙ ap (λ n. n + 1) (of (fetch_one (is_clock team) db.team_clock)))
  where
    of : (row : Option TeamClock) → lclock_of row ≡ elim row [ none ↦ 0 | some r ↦ r.lclock ]
    of none = refl
    of (some r) = refl

-- What a write leaves behind.
pub record Holds (m : Memory) (v w : String) (n l : ℕ) : Type 0 where
  pub value : m.value_json ≡ v
  pub writer : m.writer_agent ≡ w
  pub version : m.version ≡ n
  pub lclock : m.lclock ≡ l

row-write_current :
    (clk : Clock) (c : Caller) (key v : String) (l n e : ℕ) (cur : Option Memory)
    (rows : List Memory)
    → fetch_one (is_memory c.team_id key) rows ≡ cur
    → (m : Memory) × (fetch_one (is_memory c.team_id key) (write_current clk c key v l n e cur rows)
        ≡ some m)
      × Holds m v c.agent_id n l
unfolding write_current memory_row memory_update
row-write_current clk c key v l n e none rows h = (
  memory_row clk c key v l n e,
  rw (fetch_one-insert (is_memory c.team_id key) (memory_row clk c key v l n e) rows h)
      (ground (arith, eq_iff c.team_id c.team_id, eq_iff key key)),
  record { value = refl; writer = refl; version = refl; lclock = refl },
)
row-write_current clk c key v l n e (some m) rows h = (
  memory_update clk c v l n e m,
  fetch_one-update_self (is_memory c.team_id key) (memory_update clk c v l n e) rows (λ x. refl) h,
  record { value = refl; writer = refl; version = refl; lclock = refl },
)

-- How a write that passes the test of the version ends, under the clock `l`.
abbrev pub Wrote : Caller → String → String → Option Memory → ℕ → Tried Turn → Type 0
Wrote c key v cur l r =
    (t' : TxState) × (r ≡ done (result (memory_set key (version_of cur + 1) l)) t')
    × (team_lclock c.team_id t'.db ≡ l)
    × ((m : Memory) × (find_memory c.team_id key t'.db ≡ some m)
        × Holds m v c.agent_id (version_of cur + 1) l)

module _ (clk : Clock) (c : Caller) (key v : String) where
  write_at-Wrote :
      (cur : Option Memory) (t : TxState)
      → find_memory c.team_id key t.db ≡ cur
      → Wrote c key v cur
          (team_lclock c.team_id t.db)
          (write_at clk c key v cur (team_lclock c.team_id t.db) t)
  unfolding write_at
  write_at-Wrote cur t h =
      (_, refl, refl, row-write_current clk c key v _ _ _ cur t.db.memory_current h)

  write_memory-Wrote :
      (cur : Option Memory) (t : TxState)
      → find_memory c.team_id key t.db ≡ cur
      → Wrote c key v cur (team_lclock c.team_id t.db + 1) (write_memory clk c key v cur t)
  unfolding write_memory bump
  write_memory-Wrote cur t h =
      subst (λ l. Wrote c key v cur l (write_memory clk c key v cur t)) (lclock-bump c.team_id t.db)
        (write_at-Wrote cur _ h)

-- `set_memory` without an idempotency key.
module _ (clk : Clock) (c : Caller) (key v : String) (asked : Option ℕ) (s : Server) where
  set_memory-conflict :
      is_conflict asked (version_of (find_memory c.team_id key s.db)) ≡ true
      → set_memory clk c key v asked none s
        ≡ (replied (conflict_reply key (find_memory c.team_id key s.db)), s)
  unfolding set_memory set_tx set_row
  set_memory-conflict h = rw (idempotent-none clk c (set_tx clk c key v asked)) (
      serve-quiet (set_tx clk c key v asked) no_redis s
        {a = result (conflict_reply key (find_memory c.team_id key s.db))} (rw h refl) refl)

  set_memory-write :
      {r : Reply} {t : TxState}
      → is_conflict asked (version_of (find_memory c.team_id key s.db)) ≡ false
      → write_memory clk c key v (find_memory c.team_id key s.db) (start s.db) ≡ done (result r) t
      → ((set_memory clk c key v asked none s).0 ≡ replied r)
        × ((set_memory clk c key v asked none s).1.db ≡ t.db)
  unfolding set_memory set_tx set_row
  set_memory-write {r} {t} h w =
      let e = serve-done (set_tx clk c key v asked) no_redis s {a = result r} {t = t} (rw h w) in
      (
        rw (idempotent-none clk c (set_tx clk c key v asked))
            (ap (λ (p : Answer Reply × Server). p.0) e),
        rw (idempotent-none clk c (set_tx clk c key v asked))
            (ap (λ (p : Answer Reply × Server). p.1.db) e),
      )

  -- `set_memory` without an idempotency key either answers the conflict with the value, version and
  -- writer that are stored, and changes nothing, when a version is expected and it is not the stored
  -- one (0 for a new key); or it stores the value under the next version and the next reading of the
  -- team's clock, which it answers.
  pub set_memory_lem :
      let cur = find_memory c.team_id key s.db in
      let done_ = set_memory clk c key v asked none s in
      ((is_conflict asked (version_of cur) ≡ true)
        × (done_ ≡ (replied (conflict_reply key cur), s)))
      ⊎ ((is_conflict asked (version_of cur) ≡ false)
          × (done_.0
              ≡ replied (memory_set key (version_of cur + 1) (team_lclock c.team_id s.db + 1)))
          × (team_lclock c.team_id done_.1.db ≡ team_lclock c.team_id s.db + 1)
          × ((m : Memory) × (find_memory c.team_id key done_.1.db ≡ some m)
              × Holds m v c.agent_id (version_of cur + 1) (team_lclock c.team_id s.db + 1)))
  set_memory_lem =
      elim (Bool-cases (is_conflict asked (version_of (find_memory c.team_id key s.db)))) [
        | inl h ↦ inl (h, set_memory-conflict h)
        | inr h ↦
            let (t', w, clock, (m, found, holds)) =
              write_memory-Wrote clk c key v (find_memory c.team_id key s.db) (start s.db) refl in
            let (answer, db) = set_memory-write h w in
            inr (h, answer, rw db clock, (m, rw db found, holds))
      ]

conflict_reply_lem :
    (key v w : String) (n l : ℕ) (cur : Option Memory) (m : Memory)
    → cur ≡ some m
    → Holds m v w n l
    → conflict_reply key cur ≡ conflict key (some v) n (some w)
unfolding conflict_reply
conflict_reply_lem key v w n l none m e h = absurd (ground arith)
conflict_reply_lem key v w n l (some x) m e h =
    let same : x ≡ m = ground arith in rw same (rw (h.value, h.writer, h.version) refl)

-- Two agents of a team read the same version of a key and both write expecting it, without
-- idempotency keys. The first to come stores its value under the next version; the second is told the
-- conflict with that value, its version and its writer, and changes nothing.
pub cas_one_winner :
    (clk clk' : Clock) (a b : Caller) (key va vb : String) (s : Server)
    → b.team_id ≡ a.team_id
    → let n = version_of (find_memory a.team_id key s.db) in
      let s' = (set_memory clk a key va (some n) none s).1 in
      ((set_memory clk a key va (some n) none s).0
        ≡ replied (memory_set key (n + 1) (team_lclock a.team_id s.db + 1)))
      × (set_memory clk' b key vb (some n) none s'
          ≡ (replied (conflict key (some va) (n + 1) (some a.agent_id)), s'))
cas_one_winner clk clk' a b key va vb s team =
    let n = version_of (find_memory a.team_id key s.db) in
    let s' = (set_memory clk a key va (some n) none s).1 in
    elim (set_memory_lem clk a key va (some n) s) [
      | inl (bad, _) ↦ absurd (ground arith)
      | inr (fits, answer, clock, (m, found, holds)) ↦
          let found' : find_memory b.team_id key s'.db ≡ some m =
            subst (λ t. find_memory t key s'.db ≡ some m) (sym team) found in
          let moved : version_of (find_memory b.team_id key s'.db) ≡ n + 1 =
            ap version_of found' ∙ holds.version in
          (
            answer,
            set_memory-conflict clk' b key vb (some n) s' (rw moved (ground arith))
                ∙ ap (λ r. (replied r, s'))
                    (conflict_reply_lem key va a.agent_id _ _ _ m found' holds),
          )
    ]
