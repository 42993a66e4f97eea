-- ===== src/Directives/Life.antt =====
-- services/directives.py: the life of a directive through claims, reports and cancellations.
use atmcp.Base.{
  ℕ, String, ◌≡◌, refl, ap, sym, ◌∙◌, Bool, true, false, Option, none, some, List, Bool-cases, inl,
  inr, if◌then◌else◌, both_eq, subst,
}
use atmcp.Base.Table.{fetch_one, update}
use atmcp.Base.Table.Laws.{fetch_one-update, fetch_one_sound}
use mathlib.Core.Bool.{false≢true}
use atmcp.Schema.{Directive, DirectiveStatus, pending, running}
use atmcp.Db.{Db}
use atmcp.Directives.{is_directive, is_terminal, stamp, touch_session}

-- One move of a directive: a worker takes it up, or it ends.
pub data Move : DirectiveStatus → DirectiveStatus → Type 0 where
  start : Move pending running
  finish : {a b : DirectiveStatus} → is_terminal a ≡ false → is_terminal b ≡ true → Move a b

pub data Reach : DirectiveStatus → DirectiveStatus → Type 0 where
  stay : {a : DirectiveStatus} → Reach a a
  after : {a b c : DirectiveStatus} → Reach a b → Move b c → Reach a c

-- What the row `x` of a directive may be later, if it was `d`: its status has moved along legal
-- moves, who sent it to whom and what it says are the same, and a final row is the same row.
pub record Later (d x : Directive) : Type 0 where
  pub moves : Reach d.status x.status
  pub from_agent : x.from_agent ≡ d.from_agent
  pub to_agent : x.to_agent ≡ d.to_agent
  pub instruction : x.instruction ≡ d.instruction
  pub frozen : is_terminal d.status ≡ true → x ≡ d

pub Later-refl : (d : Directive) → Later d d
Later-refl d = record {
  moves = stay;
  from_agent = refl;
  to_agent = refl;
  instruction = refl;
  frozen = λ h. refl;
}

-- An operation writes the row: a legal move that keeps the rest.
pub Later-write :
    (d x y : Directive)
    → Later d x
    → is_terminal x.status ≡ false
    → Move x.status y.status
    → (y.from_agent ≡ x.from_agent) × (y.to_agent ≡ x.to_agent) × (y.instruction ≡ x.instruction)
    → Later d y
Later-write d x y l free move (a, b, c) = record {
  moves = after l.moves move;
  from_agent = a ∙ l.from_agent;
  to_agent = b ∙ l.to_agent;
  instruction = c ∙ l.instruction;
  frozen = λ h.
      absurd
        (false≢true (sym free ∙ ap (λ (r : Directive). is_terminal r.status) (l.frozen h) ∙ h));
}

module _ (team id : String) (d : Directive) where
  -- The directive is there, as it may be later.
  abbrev pub LivesIn : List Directive → Type 0
  LivesIn rows = (x : Directive) × (fetch_one (is_directive team id) rows ≡ some x) × Later d x

  abbrev pub Lives : Db → Type 0
  Lives db = LivesIn db.directives

  -- The row that an operation on `team'` and `id'` reads is ours, or ours is not concerned.
  pub read-same :
      (team' id' : String) (x : Directive) (rows : List Directive)
      → fetch_one (is_directive team id) rows ≡ some x
      → is_directive team' id' x ≡ true
      → fetch_one (is_directive team' id') rows ≡ some x
  read-same team' id' x rows found here =
      let mine =
        both_eq x.team_id x.directive_id team id
          (fetch_one_sound (is_directive team id) rows found) in
      let theirs = both_eq x.team_id x.directive_id team' id' here in
      subst (λ t. fetch_one (is_directive t id') rows ≡ some x) (sym mine.0 ∙ theirs.0)
        (subst (λ i. fetch_one (is_directive team i) rows ≡ some x) (sym mine.1 ∙ theirs.1) found)

  pub find-update :
      (q : Directive → Bool) (f : Directive → Directive) (x : Directive) (rows : List Directive)
      → ((r : Directive) → is_directive team id (f r) ≡ is_directive team id r)
      → fetch_one (is_directive team id) rows ≡ some x
      → fetch_one (is_directive team id) (update q f rows) ≡ some (if q x then f x else x)
  find-update q f x rows same found =
      rw (fetch_one-update (is_directive team id) q f same rows, found) refl

  -- The write of a row and the stamp of its event.
  pub find-stamped :
      (team' id' : String) (f : Directive → Directive) (e : ℕ) (x : Directive)
      (rows : List Directive)
      → ((r : Directive) → is_directive team id (f r) ≡ is_directive team id r)
      → ((r : Directive) → is_directive team' id' (f r) ≡ is_directive team' id' r)
      → fetch_one (is_directive team id) rows ≡ some x
      → fetch_one
          (is_directive team id)
          (update (is_directive team' id') (stamp e) (update (is_directive team' id') f rows))
        ≡ some (if is_directive team' id' x then stamp e (f x) else x)
  find-stamped team' id' f e x rows same same' found =
      elim (Bool-cases (is_directive team' id' x)) [
        | inl h ↦
            find-update (is_directive team' id') (stamp e) _ _ (λ r. refl)
              (find-update (is_directive team' id') f x rows same found)
            ∙ rw h (rw (same' x, h) refl)
        | inr h ↦
            find-update (is_directive team' id') (stamp e) _ _ (λ r. refl)
              (find-update (is_directive team' id') f x rows same found)
            ∙ rw h (rw h refl)
      ]

pub touch_session-directives :
    (now : ℕ) (team : String) (session : Option String) (db : Db)
    → (touch_session now team session db).directives ≡ db.directives
unfolding touch_session
touch_session-directives now team none db = refl
touch_session-directives now team (some x) db = refl
