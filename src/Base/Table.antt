-- ===== src/Base/Table.antt =====
-- Tables as lists of rows, with the statements of SQL that the program uses. A WHERE clause is a
-- Boolean test on rows. The order of a list is the order in which the rows were inserted.
pub mod Laws
pub mod First
pub mod Rename
pub mod Order
use Prim.Native.Nat.{ℕ, suc}
use mathlib.Core.Bool.{Bool, true, false, not, ◌&&◌, ◌||◌}
use mathlib.Core.Option.{Option, none, some}
use mathlib.Core.List.{List, [], ◌∷◌, ◌++◌}
use atmcp.Base.Tests.{if◌then◌else◌}

module _ {ℓ} {R : Type ℓ} where
  -- `fetchone` of SELECT … WHERE p
  abbrev pub fetch_one : (R → Bool) → List R → Option R
  fetch_one p [] = none
  fetch_one p (r ∷ rs) = if p r then some r else fetch_one p rs

  -- `fetchall` of SELECT … WHERE p
  abbrev pub select : (R → Bool) → List R → List R
  select p [] = []
  select p (r ∷ rs) = let rest = select p rs in if p r then r ∷ rest else rest

  -- EXISTS (SELECT … WHERE p)
  abbrev pub exists_row : (R → Bool) → List R → Bool
  exists_row p [] = false
  exists_row p (r ∷ rs) = p r || exists_row p rs

  -- UPDATE … SET f WHERE p
  abbrev pub update : (R → Bool) → (R → R) → List R → List R
  update p f [] = []
  update p f (r ∷ rs) = (if p r then f r else r) ∷ update p f rs

  -- DELETE … WHERE p
  abbrev pub delete : (R → Bool) → List R → List R
  delete p [] = []
  delete p (r ∷ rs) = let rest = delete p rs in if p r then rest else r ∷ rest

  -- The `rowcount` of an UPDATE or DELETE … WHERE p
  abbrev pub row_count : (R → Bool) → List R → ℕ
  row_count p [] = 0
  row_count p (r ∷ rs) = if p r then suc (row_count p rs) else row_count p rs

  -- INSERT of a row at the end
  abbrev pub insert : R → List R → List R
  insert r rs = rs ++ r ∷ []

  -- ORDER BY … LIMIT 1, where `better a b` says that `a` comes strictly before `b`; of rows that
  -- tie, the one inserted first.
  abbrev pub prefer : (R → R → Bool) → R → Option R → Option R
  prefer better r none = some r
  prefer better r (some b) = if better b r then some b else some r

  abbrev pub first_by : (R → R → Bool) → List R → Option R
  first_by better [] = none
  first_by better (r ∷ rs) = prefer better r (first_by better rs)

  -- ORDER BY, by insertion; stable.
  abbrev pub place : (R → R → Bool) → R → List R → List R
  place better r [] = r ∷ []
  place better r (b ∷ bs) =
      let rest = place better r bs in if better b r then b ∷ rest else r ∷ b ∷ bs

  abbrev pub order_by : (R → R → Bool) → List R → List R
  order_by better [] = []
  order_by better (r ∷ rs) = place better r (order_by better rs)
