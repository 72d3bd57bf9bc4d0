-- ===== src/Rates/Lookup/Selection/First.antt =====
-- The first row by an order, as `ORDER BY … LIMIT 1` picks it.
use native.Mathlib.Nat.{le_trans}
use grosh.Prelude.{
  ℕ, ◌≤◌, Bool, true, false, none, some, List, [], ◌∷◌, ◌≡◌, subst, All-map, inl, inr, Option-cases,
  Bool-cases, All, Member, arith,
}
use grosh.Rates.Table.{CurrencyRate}
use grosh.Rates.Lookup.{first_by}

module _ (keep : CurrencyRate → Bool) (before : CurrencyRate → CurrencyRate → Bool) where
  pub first_by_sound :
      (rows : List CurrencyRate) {row : CurrencyRate}
      → first_by keep before rows ≡ some row
      → (keep row ≡ true) × Member row rows
  unfolding first_by
  first_by_sound [] h = cc
  first_by_sound (r ∷ rows) h = elim (Option-cases (first_by keep before rows)) [
    | inl e ↦ ground arith
    | inr (best, e) ↦ ground (arith, first_by_sound rows e)
  ]

  pub first_by-none :
      (rows : List CurrencyRate) → first_by keep before rows ≡ none → All (λ r. keep r ≡ false) rows
  unfolding first_by
  first_by-none [] h = tt
  first_by-none (r ∷ rows) h = ground (arith, first_by-none rows)

  module _ (measure : CurrencyRate → ℕ)
      (if_before : (a b : CurrencyRate) → before a b ≡ true → measure a ≤ measure b)
      (if_not : (a b : CurrencyRate) → before a b ≡ false → measure b ≤ measure a) where
    pub first_by-least :
        (rows : List CurrencyRate) {row : CurrencyRate}
        → first_by keep before rows ≡ some row
        → All (λ r. keep r ≡ true → measure row ≤ measure r) rows
    unfolding first_by
    first_by-least [] h = cc
    first_by-least (r ∷ rows) {row} h = elim (Option-cases (first_by keep before rows)) [
      | inl e ↦
          let same : r ≡ row = ground (arith, e) in
          (ground arith, All-map (λ s none_kept kept. cc) rows (first_by-none rows e))
      | inr (best, e) ↦
          let below = first_by-least rows e in
          elim (Bool-cases (keep r)) [
            | inl kept ↦ elim (Bool-cases (before best r)) [
              | inl first ↦
                  let same : best ≡ row = ground (arith, e, kept, first) in
                  (
                    λ _. ground (arith, if_before best r first),
                    subst (λ b. All (λ s. keep s ≡ true → measure b ≤ measure s) rows) same below,
                  )
              | inr later ↦
                  let same : r ≡ row = ground (arith, e, kept, later) in
                  let lower : measure row ≤ measure best = rw (← same) (if_not best r later) in
                  (λ _. ground arith, All-map (λ s le kept'. le_trans lower (le kept')) rows below)
            ]
            | inr dropped ↦
                let same : best ≡ row = ground (arith, e, dropped) in
                (
                  λ kept. absurd cc,
                  subst (λ b. All (λ s. keep s ≡ true → measure b ≤ measure s) rows) same below,
                )
          ]
    ]
