-- ===== src/Base/Table/First.antt =====
-- ORDER BY … LIMIT 1 picks a row that no other comes before.
use mathlib.Core.Path.{◌≡◌, refl}
use mathlib.Core.Logic.{inl, inr}
use mathlib.Core.Bool.{Bool, true, false}
use mathlib.Core.Option.{Option, none, some}
use mathlib.Core.List.{List, [], ◌∷◌}
use native.Mathlib.Omega.{arith}
use atmcp.Base.Tests.{Bool-cases}
use atmcp.Base.Lists.{All, All-map}
use atmcp.Base.Table.{first_by, prefer}

module _ {ℓ} {R : Type ℓ} (better : R → R → Bool) where
  prefer-none : (r : R) (rest : Option R) → prefer better r rest ≡ none → rest ≡ none
  prefer-none r none e = refl
  prefer-none r (some x) e = elim (Bool-cases (better x r)) [
    | inl b ↦ absurd (ground arith)
    | inr b ↦ absurd (ground arith)
  ]

  pub first_by-none : (rs : List R) → first_by better rs ≡ none → rs ≡ []
  first_by-none [] e = refl
  first_by-none (r ∷ []) e = absurd (ground arith)
  first_by-none (r ∷ x ∷ rs) e = absurd (ground (arith, first_by-none (x ∷ rs) (prefer-none r _ e)))

  prefer-All {κ} :
      (P : R → Type κ) (r : R) (rest : Option R) {b : R}
      → P r
      → ((x : R) → rest ≡ some x → P x)
      → prefer better r rest ≡ some b
      → P b
  prefer-All P r none {b} p q e = let same : r ≡ b = ground arith in rw (← same) p
  prefer-All P r (some x) {b} p q e = elim (Bool-cases (better x r)) [
    | inl k ↦ q b (rw k at e)
    | inr k ↦ let same : r ≡ b = ground arith in rw (← same) p
  ]

  -- What holds of every row holds of the first.
  pub first_by-All {κ} :
      (P : R → Type κ) (rs : List R) {b : R} → All P rs → first_by better rs ≡ some b → P b
  first_by-All P [] a e = absurd (ground arith)
  first_by-All P (r ∷ rs) a e =
      prefer-All P r (first_by better rs) a.0 (λ x k. first_by-All P rs a.1 k) e

  module _ (asym : (x y : R) → better x y ≡ true → better y x ≡ false)
      (step : (x y z : R) → better x z ≡ true → better x y ≡ false → better y z ≡ true) where
    -- Nothing comes before it.
    abbrev pub Best : List R → R → Type 0
    Best rs b = All (λ x. better x b ≡ false) rs

    prefer-Best :
        (r : R) (rs : List R) (rest : Option R) {b : R}
        → (rest ≡ none → rs ≡ [])
        → ((x : R) → rest ≡ some x → Best rs x)
        → prefer better r rest ≡ some b
        → (better r b ≡ false) × Best rs b
    prefer-Best r rs none {b} absent q e =
        let same : r ≡ b = ground arith in rw (← same, absent refl) (self r, tt)
      where
        self : (r : R) → better r r ≡ false
        self r = elim (Bool-cases (better r r)) [ inl k ↦ asym r r k | inr k ↦ k ]
    prefer-Best r rs (some x) {b} absent q e = elim (Bool-cases (better x r)) [
      | inl k ↦ let same : x ≡ b = ground arith in rw (← same) (asym x r k, q x refl)
      | inr k ↦
          let same : r ≡ b = ground arith in
          rw (← same) (
            elim (Bool-cases (better r r)) [ inl h ↦ asym r r h | inr h ↦ h ],
            All-map rs (λ (y : R) (h : better y x ≡ false). later y h k) (q x refl),
          )
    ]
      where
        later : (y : R) → better y x ≡ false → better x r ≡ false → better y r ≡ false
        later y h k = elim (Bool-cases (better y r)) [
          | inl l ↦ absurd (ground (arith, step y x r l h))
          | inr l ↦ l
        ]

    pub first_by-Best : (rs : List R) {b : R} → first_by better rs ≡ some b → Best rs b
    first_by-Best [] e = absurd (ground arith)
    first_by-Best (r ∷ rs) e =
        prefer-Best r rs (first_by better rs) (first_by-none rs) (λ x k. first_by-Best rs k) e
