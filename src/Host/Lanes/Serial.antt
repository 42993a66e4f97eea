-- ===== src/Host/Lanes/Serial.antt =====
-- The loop of the host keeps its lanes, and a lane that falls free is used again.
use atmcp.Base.{
  ℕ, ◌≤◌, ◌<◌, String, ◌≡◌, refl, Bool, true, false, Option, none, some, List, [], ◌∷◌, arith,
  Bool-cases, inl, inr, leb, ◌==◌, eq_iff, length,
}
use atmcp.Base.Table.{exists_row, delete}
use atmcp.Host.Lanes.{
  Work, Turn, Host, Move, inbox, look, claim_answered, ended, key_of, busy, is_turn, turn_of,
  consider, answered, reap, look_at, take_batch, act, run,
}

-- No two turns in one lane.
abbrev pub Serial : List Turn → Type 0
Serial [] = Unit
Serial (t ∷ ts) = (busy t.key ts ≡ false) × Serial ts

-- While a claim is awaited, its lane stays free and there is room for it.
abbrev pub Room : ℕ → List Turn → Option Work → Type 0
Room max_concurrent running none = Unit
Room max_concurrent running (some d) =
    (busy (key_of d) running ≡ false) × (length running < max_concurrent)

pub record LanesOk (max_concurrent : ℕ) (h : Host) : Type 0 where
  pub serial : Serial h.running
  pub bounded : length h.running ≤ max_concurrent
  pub room : Room max_concurrent h.running h.claiming

length-delete : (p : Turn → Bool) (ts : List Turn) → length (delete p ts) ≤ length ts
length-delete p [] = omega arith
length-delete p (t ∷ ts) = elim (Bool-cases (p t)) [
  | inl e ↦ rw e (omega (arith, length-delete p ts))
  | inr e ↦ rw e (omega (arith, length-delete p ts))
]

busy-delete :
    (key : String) (p : Turn → Bool) (ts : List Turn)
    → busy key ts ≡ false
    → busy key (delete p ts) ≡ false
busy-delete key p [] h = refl
busy-delete key p (t ∷ ts) h = elim (Bool-cases (p t)) [
  | inl e ↦ rw e (busy-delete key p ts (ground arith))
  | inr e ↦ rw e (ground (arith, busy-delete key p ts))
]

Serial-delete : (p : Turn → Bool) (ts : List Turn) → Serial ts → Serial (delete p ts)
Serial-delete p [] s = tt
Serial-delete p (t ∷ ts) s = elim (Bool-cases (p t)) [
  | inl e ↦ rw e (Serial-delete p ts s.1)
  | inr e ↦ rw e (busy-delete t.key p ts s.0, Serial-delete p ts s.1)
]

module _ (max_concurrent : ℕ) where
  Room-delete :
      (p : Turn → Bool) (o : Option Work) (ts : List Turn)
      → Room max_concurrent ts o
      → Room max_concurrent (delete p ts) o
  Room-delete p none ts r = tt
  Room-delete p (some d) ts r =
      (busy-delete (key_of d) p ts r.0, omega (arith, r.1, length-delete p ts))

  consider-LanesOk :
      (d : Work) (rest : List Work) (h : Host)
      → h.claiming ≡ none
      → LanesOk max_concurrent h
      → LanesOk max_concurrent (consider max_concurrent d rest h)
  unfolding consider
  consider-LanesOk d rest h idle ok = elim (Bool-cases (busy (key_of d) h.running)) [
    | inl e ↦ rw e (record { serial = ok.serial; bounded = ok.bounded; room = ok.room })
    | inr e ↦ elim (Bool-cases (leb max_concurrent (length h.running))) [
      | inl k ↦ rw (e, k) (record { serial = ok.serial; bounded = ok.bounded; room = ok.room })
      | inr k ↦
          rw (e, k) (record { serial = ok.serial; bounded = ok.bounded; room = (e, ground arith) })
    ]
  ]

  answered-LanesOk :
      (ok? : Bool) (o : Option Work) (h : Host)
      → h.claiming ≡ o
      → LanesOk max_concurrent h
      → LanesOk max_concurrent (answered ok? o h)
  answered-LanesOk ok? none h e ok = ok
  answered-LanesOk false (some d) h e ok = record {
    serial = ok.serial;
    bounded = ok.bounded;
    room = tt;
  }
  answered-LanesOk true (some d) h e ok =
      let room : Room max_concurrent h.running (some d) = rw e at ok.room in
      record { serial = (room.0, ok.serial); bounded = omega (arith, room.1); room = tt }

  look_at-LanesOk :
      (batch : List Work) (o : Option Work) (h : Host)
      → h.claiming ≡ o
      → LanesOk max_concurrent h
      → LanesOk max_concurrent (look_at max_concurrent batch o h)
  look_at-LanesOk batch (some d) h e ok = ok
  look_at-LanesOk [] none h e ok = ok
  look_at-LanesOk (d ∷ rest) none h e ok = consider-LanesOk d rest h e ok

  take_batch-LanesOk :
      (new batch : List Work) (o : Option Work) (h : Host)
      → LanesOk max_concurrent h
      → LanesOk max_concurrent (take_batch new batch o h)
  take_batch-LanesOk new [] none h ok = record {
    serial = ok.serial;
    bounded = ok.bounded;
    room = ok.room;
  }
  take_batch-LanesOk new [] (some d) h ok = ok
  take_batch-LanesOk new (x ∷ xs) o h ok = ok

  act-LanesOk :
      (m : Move) (h : Host)
      → LanesOk max_concurrent h
      → LanesOk max_concurrent (act max_concurrent m h)
  unfolding act reap
  act-LanesOk (inbox new) h ok = take_batch-LanesOk new h.batch h.claiming h ok
  act-LanesOk look h ok = look_at-LanesOk h.batch h.claiming h refl ok
  act-LanesOk (claim_answered yes?) h ok = answered-LanesOk yes? h.claiming h refl ok
  act-LanesOk (ended t) h ok = record {
    serial = Serial-delete (is_turn t) h.running ok.serial;
    bounded = omega (arith, ok.bounded, length-delete (is_turn t) h.running);
    room = Room-delete (is_turn t) h.claiming h.running ok.room;
  }

  -- Whatever the inbox and the claims answer, and whenever turns end, also while a claim is awaited: at
  -- most `max_concurrent` turns run, no two of them in one thread, and a directive whose claim is
  -- awaited finds its lane free and room to run when the answer comes.
  pub run-LanesOk :
      (ms : List Move) (h : Host)
      → LanesOk max_concurrent h
      → LanesOk max_concurrent (run max_concurrent ms h)
  unfolding run
  run-LanesOk [] h ok = ok
  run-LanesOk (m ∷ ms) h ok = run-LanesOk ms (act max_concurrent m h) (act-LanesOk m h ok)

turn-busy : (t : Turn) (ts : List Turn) → exists_row (is_turn t) ts ≡ true → busy t.key ts ≡ true
turn-busy t [] h = h
turn-busy t (u ∷ ts) h = ground (arith, turn-busy t ts)

-- The lane of a turn is free once it ended.
freed :
    (t : Turn) (ts : List Turn)
    → Serial ts
    → exists_row (is_turn t) ts ≡ true
    → (busy t.key (delete (is_turn t) ts) ≡ false) × (length (delete (is_turn t) ts) < length ts)
freed t [] s h = absurd (ground arith)
freed t (u ∷ ts) s h = elim (Bool-cases (is_turn t u)) [
  | inl e ↦
      let mine : u.key ≡ t.key = ground (arith, eq_iff u.key t.key) in
      let off : busy t.key ts ≡ false = rw mine at s.0 in
      rw e (busy-delete t.key (is_turn t) ts off, omega (arith, length-delete (is_turn t) ts))
  | inr e ↦
      let (off, less) = freed t ts s.1 (rw e at h) in
      let apart : (u.key == t.key) ≡ false = elim (Bool-cases (u.key == t.key)) [
        | inr k ↦ k
        | inl k ↦
            let same : u.key ≡ t.key = (eq_iff u.key t.key).0 k in
            let clash : busy t.key ts ≡ false = rw same at s.0 in
            absurd (ground (arith, turn-busy t ts (rw e at h)))
      ] in
      rw e (rw apart off, omega (arith, less))
]

-- At capacity or not: when a turn of a thread ends, the next directive of that thread is claimed and
-- started at once, if it heads the inbox and the server grants the claim.
pub lane_reused :
    (max_concurrent : ℕ) (h : Host) (t : Turn) (d : Work) (rest : List Work)
    → LanesOk max_concurrent h
    → exists_row (is_turn t) h.running ≡ true
    → key_of d ≡ t.key
    → h.batch ≡ []
    → h.claiming ≡ none
    → run max_concurrent (ended t ∷ inbox (d ∷ rest) ∷ look ∷ claim_answered true ∷ []) h
      ≡ (record h { running = turn_of d ∷ delete (is_turn t) h.running; batch = rest })
unfolding run act reap consider
lane_reused max_concurrent h t d rest ok runs same empty idle =
    let (off, less) = freed t h.running ok.serial runs in
    let off' : busy (key_of d) (delete (is_turn t) h.running) ≡ false = rw same off in
    let fits : leb max_concurrent (length (delete (is_turn t) h.running)) ≡ false =
      ground (arith, less, ok.bounded) in
    rw (empty, idle, consider, off', fits) refl
