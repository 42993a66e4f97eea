-- ===== src/Base/Table/Laws.antt =====
-- Laws of the statements of Base.Table: what an UPDATE, INSERT or DELETE does to later reads, to a
-- predicate on all rows, and to keys.
use Prim.Native.Nat.{suc}
use mathlib.Core.Path.{◌≡◌, refl, ap}
use mathlib.Core.Logic.{◌⊎◌, inl, inr}
use mathlib.Core.Bool.{Bool, true, false, ◌&&◌}
use mathlib.Core.Option.{Option, none, some}
use mathlib.Core.List.{List, [], ◌∷◌}
use native.Mathlib.Omega.{arith}
use atmcp.Base.Tests.{if◌then◌else◌, Bool-cases}
use atmcp.Base.Lists.{All, All-map}
use atmcp.Base.Table.{fetch_one, select, exists_row, update, delete, row_count, insert}

module _ {ℓ} {R : Type ℓ} where
  -- At most one row satisfies `p`, as a primary key guarantees.
  abbrev pub AtMostOne : (R → Bool) → List R → Type ℓ
  AtMostOne p [] = Unit
  AtMostOne p (r ∷ rs) = if p r then fetch_one p rs ≡ none else AtMostOne p rs

  -- Applied to an optional row: what an UPDATE makes of the row that was read.
  abbrev pub touch : (R → Bool) → (R → R) → Option R → Option R
  touch q f none = none
  touch q f (some r) = some (if q r then f r else r)

module _ {ℓ} {R : Type ℓ} (p : R → Bool) where
  pub fetch_one_sound : (rs : List R) {r : R} → fetch_one p rs ≡ some r → p r ≡ true
  fetch_one_sound [] h = ground arith
  fetch_one_sound (x ∷ rs) h = elim (Bool-cases (p x)) [
    | inl e ↦ ground arith
    | inr e ↦ fetch_one_sound rs (rw e at h)
  ]

  pub fetch_one-All {κ} :
      (P : R → Type κ) (rs : List R) {r : R} → All P rs → fetch_one p rs ≡ some r → P r
  fetch_one-All P [] a h = absurd (ground arith)
  fetch_one-All P (x ∷ rs) {r} a h = elim (Bool-cases (p x)) [
    | inl e ↦ let e' : x ≡ r = ground arith in rw (← e') a.0
    | inr e ↦ fetch_one-All P rs a.1 (rw e at h)
  ]

  pub fetch_one-insert :
      (x : R) (rs : List R)
      → fetch_one p rs ≡ none
      → fetch_one p (insert x rs) ≡ (if p x then some x else none)
  fetch_one-insert x [] h = refl
  fetch_one-insert x (r ∷ rs) h = elim (Bool-cases (p r)) [
    | inl e ↦ ground arith
    | inr e ↦ rw e (fetch_one-insert x rs (rw e at h))
  ]

  pub row_count-none : (rs : List R) → fetch_one p rs ≡ none → row_count p rs ≡ 0
  row_count-none [] h = refl
  row_count-none (r ∷ rs) h = ground (arith, row_count-none rs)

  pub row_count-one :
      (rs : List R) {r : R} → AtMostOne p rs → fetch_one p rs ≡ some r → row_count p rs ≡ 1
  row_count-one [] u h = ground arith
  row_count-one (x ∷ rs) u h = elim (Bool-cases (p x)) [
    | inl e ↦ rw e (ap suc (row_count-none rs (rw e at u)))
    | inr e ↦ rw e (row_count-one rs (rw e at u) (rw e at h))
  ]

module _ {ℓ} {R : Type ℓ} (p : R → Bool) where
  pub none-AtMostOne : (rs : List R) → fetch_one p rs ≡ none → AtMostOne p rs
  none-AtMostOne [] h = tt
  none-AtMostOne (r ∷ rs) h = elim (Bool-cases (p r)) [
    | inl e ↦ absurd (ground arith)
    | inr e ↦ rw e (none-AtMostOne rs (rw e at h))
  ]

  pub AtMostOne-tail : (r : R) (rs : List R) → AtMostOne p (r ∷ rs) → AtMostOne p rs
  AtMostOne-tail r rs u = elim (Bool-cases (p r)) [
    | inl e ↦ none-AtMostOne rs (rw e at u)
    | inr e ↦ rw e at u
  ]

module _ {ℓ} {R : Type ℓ} (p q : R → Bool) (f : R → R) where
  -- A read after an UPDATE that leaves the tested columns alone.
  pub fetch_one-update :
      ((r : R) → p (f r) ≡ p r)
      → (rs : List R) → fetch_one p (update q f rs) ≡ touch q f (fetch_one p rs)
  fetch_one-update same [] = refl
  fetch_one-update same (r ∷ rs) = elim (Bool-cases (q r)) [
    | inl e ↦ ground (arith, same r, fetch_one-update same rs)
    | inr e ↦ ground (arith, fetch_one-update same rs)
  ]

  pub AtMostOne-update :
      ((r : R) → p (f r) ≡ p r) → (rs : List R) → AtMostOne p rs → AtMostOne p (update q f rs)
  AtMostOne-update same [] u = tt
  AtMostOne-update same (r ∷ rs) u = elim (Bool-cases (p r)) [
    | inl e ↦ rw (kept r, e) (rw (fetch_one-update same rs, rw e at u))
    | inr e ↦ rw (kept r, e) (AtMostOne-update same rs (rw e at u))
  ]
    where
      kept : (r : R) → p (if q r then f r else r) ≡ p r
      kept r = elim (Bool-cases (q r)) [ inl e ↦ rw (e, same r) | inr e ↦ rw e ]

module _ {ℓ} {R : Type ℓ} (q : R → Bool) (f : R → R) where
  pub update-none : (rs : List R) → fetch_one q rs ≡ none → update q f rs ≡ rs
  update-none [] h = refl
  update-none (r ∷ rs) h = elim (Bool-cases (q r)) [
    | inl e ↦ absurd (ground arith)
    | inr e ↦ rw e (ap (◌∷◌ r) (update-none rs (rw e at h)))
  ]

module _ {ℓ κ} {R : Type ℓ} (P : R → Type κ) (q : R → Bool) (f : R → R) where
  -- An UPDATE keeps what holds of all rows if it keeps it for the rows that it changes.
  pub All-update :
      ((r : R) → q r ≡ true → P r → P (f r)) → (rs : List R) → All P rs → All P (update q f rs)
  All-update keep [] a = tt
  All-update keep (r ∷ rs) a = (head (q r) refl, All-update keep rs a.1)
    where
      head : (b : Bool) → q r ≡ b → P (if b then f r else r)
      head true e = keep r e a.0
      head false e = a.0

  -- By a key: only the row that was read has to be considered.
  pub All-update_one :
      (rs : List R) {t : R}
      → AtMostOne q rs
      → fetch_one q rs ≡ some t
      → (P t → P (f t))
      → All P rs
      → All P (update q f rs)
  All-update_one [] u h keep a = tt
  All-update_one (r ∷ rs) {t} u h keep a = elim (Bool-cases (q r)) [
    | inl e ↦
        let e' : r ≡ t = ground arith in
        rw (e, update-none q f rs (rw e at u)) (rw e' (keep (rw e' at a.0)), a.1)
    | inr e ↦ rw e (a.0, All-update_one rs (rw e at u) (rw e at h) keep a.1)
  ]

module _ {ℓ} {R : Type ℓ} (p : R → Bool) where
  pub fetch_one-update_self :
      (f : R → R) (rs : List R) {r : R}
      → ((r : R) → p (f r) ≡ p r)
      → fetch_one p rs ≡ some r
      → fetch_one p (update p f rs) ≡ some (f r)
  fetch_one-update_self f rs {r} same h =
      rw (fetch_one-update p p f same rs, h) (rw (fetch_one_sound p rs h))

  pub AtMostOne-insert :
      (x : R) (rs : List R)
      → AtMostOne p rs
      → (p x ≡ true → fetch_one p rs ≡ none)
      → AtMostOne p (insert x rs)
  AtMostOne-insert x [] u h = elim (Bool-cases (p x)) [ inl e ↦ rw e | inr e ↦ rw e tt ]
  AtMostOne-insert x (r ∷ rs) u h = elim (Bool-cases (p r)) [
    | inl e ↦ rw e (rw (fetch_one-insert p x rs (rw e at u)) (absent (Bool-cases (p x)) e))
    | inr e ↦ rw e (AtMostOne-insert x rs (rw e at u) (λ k. rw e at (h k)))
  ]
    where
      absent : (p x ≡ true) ⊎ (p x ≡ false) → p r ≡ true → (if p x then some x else none) ≡ none
      absent (inl k) e = absurd (let n = h k in ground arith)
      absent (inr k) e = rw k

  pub exists_row-none : (rs : List R) → exists_row p rs ≡ false → fetch_one p rs ≡ none
  exists_row-none [] h = refl
  exists_row-none (r ∷ rs) h = ground (arith, exists_row-none rs)

-- Rows that an UPDATE does not concern are the same rows afterwards.
module _ {ℓ} {R : Type ℓ} (p q : R → Bool) (f : R → R) where
  pub select-update :
      ((r : R) → q r ≡ true → p r ≡ false)
      → ((r : R) → q r ≡ true → p (f r) ≡ false)
      → (rs : List R) → select p (update q f rs) ≡ select p rs
  select-update out out' [] = refl
  select-update out out' (r ∷ rs) = elim (Bool-cases (q r)) [
    | inl e ↦ rw (e, out r e, out' r e) (select-update out out' rs)
    | inr e ↦ rw (e, select-update out out' rs)
  ]

module _ {ℓ} {R : Type ℓ} (p : R → Bool) where
  pub select-insert : (x : R) (rs : List R) → p x ≡ false → select p (insert x rs) ≡ select p rs
  select-insert x [] h = rw h
  select-insert x (r ∷ rs) h = rw (select-insert x rs h)

  pub select-All {κ} :
      {P : R → Type κ} (rs : List R) → ((r : R) → p r ≡ true → P r) → All P (select p rs)
  select-All [] f = tt
  select-All {P = P} (r ∷ rs) f = elim (Bool-cases (p r)) [
    | inl e ↦ rw e (f r e, select-All rs f)
    | inr e ↦ rw e (select-All rs f)
  ]

  pub All-select {κ} : (P : R → Type κ) (rs : List R) → All P rs → All P (select p rs)
  All-select P [] a = tt
  All-select P (r ∷ rs) a = elim (Bool-cases (p r)) [
    | inl e ↦ rw e (a.0, All-select P rs a.1)
    | inr e ↦ rw e (All-select P rs a.1)
  ]

  pub All-delete {κ} : (P : R → Type κ) (rs : List R) → All P rs → All P (delete p rs)
  All-delete P [] a = tt
  All-delete P (r ∷ rs) a = elim (Bool-cases (p r)) [
    | inl e ↦ rw e (All-delete P rs a.1)
    | inr e ↦ rw e (a.0, All-delete P rs a.1)
  ]

-- A WHERE clause that tests a key and one more column.
module _ {ℓ} {R : Type ℓ} (p q : R → Bool) where
  pub fetch_one-&& :
      (rs : List R) {t : R}
      → fetch_one p rs ≡ some t
      → q t ≡ true
      → fetch_one (λ r. p r && q r) rs ≡ some t
  fetch_one-&& [] h k = absurd (ground arith)
  fetch_one-&& (r ∷ rs) h k = elim (Bool-cases (p r)) [
    | inl e ↦ ground arith
    | inr e ↦ rw e (fetch_one-&& rs (rw e at h) k)
  ]

  fetch_one-&&-none : (rs : List R) → fetch_one p rs ≡ none → fetch_one (λ r. p r && q r) rs ≡ none
  fetch_one-&&-none [] h = refl
  fetch_one-&&-none (r ∷ rs) h = ground (arith, fetch_one-&&-none rs)

  pub AtMostOne-&& : (rs : List R) → AtMostOne p rs → AtMostOne (λ r. p r && q r) rs
  AtMostOne-&& [] u = tt
  AtMostOne-&& (r ∷ rs) u = elim (Bool-cases (p r)) [
    | inl e ↦ elim (Bool-cases (q r)) [
      | inl k ↦ rw (e, k) (fetch_one-&&-none rs (rw e at u))
      | inr k ↦ rw (e, k) (none-AtMostOne (λ x. p x && q x) rs (fetch_one-&&-none rs (rw e at u)))
    ]
    | inr e ↦ rw e (AtMostOne-&& rs (rw e at u))
  ]

-- With unique keys, a selected row is the one that its key fetches.
module _ {ℓ} {R : Type ℓ} (key : R → R → Bool) (same : (r : R) → key r r ≡ true) where
  later_row :
      (r x : R) (rs : List R)
      → AtMostOne (key x) (r ∷ rs)
      → fetch_one (key x) rs ≡ some x
      → fetch_one (key x) (r ∷ rs) ≡ some x
  later_row r x rs u h = elim (Bool-cases (key x r)) [
    | inl e ↦ absurd (let n = rw e at u in ground arith)
    | inr e ↦ rw e h
  ]

  pub fetch_one-select :
      (q : R → Bool) (rs : List R)
      → ((x : R) → AtMostOne (key x) rs)
      → All (λ x. (fetch_one (key x) rs ≡ some x) × (q x ≡ true)) (select q rs)
  fetch_one-select q [] u = tt
  fetch_one-select q (r ∷ rs) u =
      let rest =
        All-map (select q rs)
          (λ (x : R) (h : (fetch_one (key x) rs ≡ some x) × (q x ≡ true)).
            (later_row r x rs (u x) h.0, h.1))
          (fetch_one-select q rs (λ x. AtMostOne-tail (key x) r rs (u x))) in
      elim (Bool-cases (q r)) [ inl e ↦ rw e ((rw (same r), e), rest) | inr e ↦ rw e rest ]

module _ {ℓ} {R : Type ℓ} (p : R → Bool) where
  pub fetch_one-insert_old :
      (x : R) (rs : List R) {r : R} → fetch_one p rs ≡ some r → fetch_one p (insert x rs) ≡ some r
  fetch_one-insert_old x [] h = absurd (ground arith)
  fetch_one-insert_old x (y ∷ rs) h = elim (Bool-cases (p y)) [
    | inl e ↦ ground arith
    | inr e ↦ rw e (fetch_one-insert_old x rs (rw e at h))
  ]

pub select-insert_in {ℓ} :
    {R : Type ℓ} (p : R → Bool) (r : R) (rs : List R)
    → p r ≡ true
    → select p (insert r rs) ≡ insert r (select p rs)
select-insert_in p r [] h = rw h refl
select-insert_in p r (x ∷ rs) h = elim (Bool-cases (p x)) [
  | inl e ↦ rw e (ap (λ l. x ∷ l) (select-insert_in p r rs h))
  | inr e ↦ rw e (select-insert_in p r rs h)
]

pub select-delete {ℓ} :
    {R : Type ℓ} (p q : R → Bool)
    → ((r : R) → q r ≡ true → p r ≡ false)
    → (rs : List R) → select p (delete q rs) ≡ select p rs
select-delete p q out [] = refl
select-delete p q out (r ∷ rs) = elim (Bool-cases (q r)) [
  | inl e ↦ rw (e, out r e) (select-delete p q out rs)
  | inr e ↦ rw (e, select-delete p q out rs)
]
