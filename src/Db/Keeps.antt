-- ===== src/Db/Keeps.antt =====
-- Invariants of the database through transaction bodies.
use atmcp.Base.{◌≡◌, ap}
use atmcp.Db.{Db, Tx, TxState, Tried, done, raised, ◌>>=◌}

-- What holds of the database when a body ends; a body that raises is rolled back.
abbrev pub After : {A : Type 0} → (Db → Type 0) → Tried A → Type 0
After P (done a t) = P t.db
After P (raised e) = Unit

-- `m` keeps `P`.
pub record Keeps {A : Type 0} (P : Db → Type 0) (m : Tx A) : Type 0 where
  pub at : (t : TxState) → P t.db → After P (m t)

module _ {A B : Type 0} (P : Db → Type 0) where
  -- The last line of a body, which returns a value made from the answer before it.
  pub After-pure :
      (r : Tried A) (f : A → B)
      → After P r
      → After P (elim r [ done a t ↦ done (f a) t | raised e ↦ raised e ])
  After-pure (done a t) f h = h
  After-pure (raised e) f h = tt

  -- The rest of a body.
  pub After-bind :
      (r : Tried A) (f : A → Tx B)
      → After P r
      → ((a : A) (t : TxState) → P t.db → After P (f a t))
      → After P (elim r [ done a t ↦ f a t | raised e ↦ raised e ])
  After-bind (done a t) f h k = k a t h
  After-bind (raised e) f h k = tt

pub After-both :
    {A : Type 0} (P Q : Db → Type 0) (r : Tried A)
    → After P r
    → After Q r
    → After (λ db. P db × Q db) r
After-both P Q (done a t) p q = (p, q)
After-both P Q (raised e) p q = tt

-- How a body goes on, from how its first step ends.
pub bind-done :
    {A B : Type 0} (m : Tx A) (f : A → Tx B) (t : TxState) {a : A} {t' : TxState}
    → m t ≡ done a t'
    → (m >>= f) t ≡ f a t'
bind-done m f t e = ap (λ x. elim x [ done a t' ↦ f a t' | raised x ↦ raised x ]) e
