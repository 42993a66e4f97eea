-- ===== src/Base/Table/Rename.antt =====
-- An UPDATE that changes the key which a test looks at.
use mathlib.Core.Path.{◌≡◌, refl}
use mathlib.Core.Logic.{inl, inr}
use mathlib.Core.Bool.{Bool, true, false}
use mathlib.Core.Option.{none, some}
use mathlib.Core.List.{List, [], ◌∷◌}
use native.Mathlib.Omega.{arith}
use atmcp.Base.Tests.{Bool-cases}
use atmcp.Base.Lists.{All}
use atmcp.Base.Table.{fetch_one, update}
use atmcp.Base.Table.Laws.{AtMostOne, AtMostOne-tail, none-AtMostOne, update-none}

module _ {ℓ} {R : Type ℓ} (p q : R → Bool) (f : R → R) where
  none-of :
      (rs : List R)
      → fetch_one q rs ≡ none
      → All (λ r. q r ≡ false → p r ≡ false) rs
      → fetch_one p rs ≡ none
  none-of [] h a = refl
  none-of (r ∷ rs) h a = elim (Bool-cases (q r)) [
    | inl e ↦ absurd (ground arith)
    | inr e ↦ rw (a.0 e) (none-of rs (rw e at h) a.1)
  ]

  -- Only the one row that is written may satisfy the test afterwards.
  pub AtMostOne-renamed :
      (rs : List R)
      → AtMostOne q rs
      → All (λ r. q r ≡ false → p r ≡ false) rs
      → AtMostOne p (update q f rs)
  AtMostOne-renamed [] u a = tt
  AtMostOne-renamed (r ∷ rs) u a = elim (Bool-cases (q r)) [
    | inr e ↦ rw e (rw (a.0 e) (AtMostOne-renamed rs (rw e at u) a.1))
    | inl e ↦ rw e (
        rw (update-none q f rs (rw e at u)) (elim (Bool-cases (p (f r))) [
          | inl k ↦ rw k (none-of rs (rw e at u) a.1)
          | inr k ↦ rw k (none-AtMostOne p rs (none-of rs (rw e at u) a.1))
        ]))
  ]

  none-away :
      ((r : R) → q r ≡ true → p (f r) ≡ false)
      → (rs : List R) → fetch_one p rs ≡ none
      → fetch_one p (update q f rs) ≡ none
  none-away out [] h = refl
  none-away out (r ∷ rs) h = elim (Bool-cases (p r)) [
    | inl k ↦ absurd (ground arith)
    | inr k ↦ elim (Bool-cases (q r)) [
      | inl e ↦ rw e (rw (out r e) (none-away out rs (rw k at h)))
      | inr e ↦ rw e (rw k (none-away out rs (rw k at h)))
    ]
  ]

  -- The row that is written does not satisfy the test any more.
  pub AtMostOne-away :
      ((r : R) → q r ≡ true → p (f r) ≡ false)
      → (rs : List R) → AtMostOne p rs
      → AtMostOne p (update q f rs)
  AtMostOne-away out [] u = tt
  AtMostOne-away out (r ∷ rs) u = elim (Bool-cases (q r)) [
    | inl e ↦ rw e (rw (out r e) (AtMostOne-away out rs (AtMostOne-tail p r rs u)))
    | inr e ↦ rw e (elim (Bool-cases (p r)) [
      | inl k ↦ rw k (none-away out rs (rw k at u))
      | inr k ↦ rw k (AtMostOne-away out rs (rw k at u))
    ])
  ]

  -- If the first row with `p` satisfies `q`, then so does every row with `p`.
  pub only-one :
      (rs : List R)
      → AtMostOne p rs
      → ((r : R) → fetch_one p rs ≡ some r → q r ≡ true)
      → All (λ r. q r ≡ false → p r ≡ false) rs
  only-one [] u h = tt
  only-one (r ∷ rs) u h = elim (Bool-cases (p r)) [
    | inl k ↦
        let mine : q r ≡ true = h r (rw k refl) in
        ((λ e. absurd (ground arith)), absent rs (rw k at u))
    | inr k ↦ ((λ e. k), only-one rs (rw k at u) (λ x e. h x (rw k e)))
  ]
    where
      absent : (xs : List R) → fetch_one p xs ≡ none → All (λ r. q r ≡ false → p r ≡ false) xs
      absent [] n = tt
      absent (x ∷ xs) n = elim (Bool-cases (p x)) [
        | inl k ↦ absurd (ground arith)
        | inr k ↦ ((λ e. k), absent xs (rw k at n))
      ]
