-- ===== src/Base/Table/Order.antt =====
-- ORDER BY keeps what holds of all rows.
use mathlib.Core.Logic.{inl, inr}
use mathlib.Core.Bool.{Bool}
use mathlib.Core.List.{List, [], ◌∷◌}
use atmcp.Base.Tests.{Bool-cases}
use atmcp.Base.Lists.{All}
use atmcp.Base.Table.{place, order_by}

module _ {R : Type 0} (P : R → Type 0) (better : R → R → Bool) where
  pub All-place : (r : R) (rs : List R) → P r → All P rs → All P (place better r rs)
  All-place r [] h a = (h, tt)
  All-place r (x ∷ rs) h a = elim (Bool-cases (better x r)) [
    | inl e ↦ rw e (a.0, All-place r rs h a.1)
    | inr e ↦ rw e (h, a)
  ]

  pub All-order_by : (rs : List R) → All P rs → All P (order_by better rs)
  All-order_by [] a = tt
  All-order_by (r ∷ rs) a = All-place r (order_by better rs) a.0 (All-order_by rs a.1)
