-- ===== src/Rates/Ingest/Polled.antt =====
-- The polled sequence of a pair, and that the two sequences do not touch each other
-- (`upsert_polled` and `upsert_historical` of
-- services/ingestion/src/grosh_ingestion/repositories/currency_rate_repo.py).
use grosh.Prelude.{
  ℕ, ◌+◌, ◌≤◌, Bool, true, false, none, some, List, [], ◌∷◌, ◌++◌, ◌≡◌, refl, ap, inl, inr,
  Bool-cases, Option-cases, filter, arith, str_eq_refl,
}
use grosh.Rates.Table.{CurrencyRate}
use grosh.Rates.Ingest.{
  NormalizedRate, is_open_polled, is_historical, rates_equal, bump, close_at, new_row, update_by_id,
  find_row, upsert_polled,
}
use grosh.Rates.Ingest.Updates.{
  bit, count, IsUnique, find_row_sound, find_row-none, count-append, count-update, count_pos,
  filter-update,
}

pub filter-append :
    (p : CurrencyRate → Bool) (xs ys : List CurrencyRate)
    → filter p (xs ++ ys) ≡ filter p xs ++ filter p ys
filter-append p [] ys = refl
filter-append p (x ∷ xs) ys = elim (Bool-cases (p x)) [
  | inl e ↦ rw (e, filter-append p xs ys)
  | inr e ↦ rw (e, filter-append p xs ys)
]

append-nil : (xs : List CurrencyRate) → xs ++ [] ≡ xs
append-nil [] = refl
append-nil (x ∷ xs) = ap (λ ys. x ∷ ys) (append-nil xs)

bits_one :
    {n m : ℕ} {a b : Bool} → n + bit a ≡ m + bit b → a ≡ true → b ≡ true → m ≤ 1 → 1 ≤ m → n ≡ 1
bits_one t a b h k = ground arith

bits_zero :
    (n : ℕ) {m : ℕ} {a b : Bool}
    → n + bit a ≡ m + bit b
    → a ≡ true
    → b ≡ false
    → m ≤ 1
    → 1 ≤ m
    → n + 1 ≡ 1
bits_zero n t a b h k = ground arith

module _ (r : NormalizedRate) (rates : List CurrencyRate) (i cadence : ℕ) where
  abbrev inserted : CurrencyRate
  inserted = new_row i r none (some r.at_time) (some cadence)

  inserted_open : is_open_polled r inserted ≡ true
  unfolding new_row
  inserted_open =
      rw (str_eq_refl r.source, str_eq_refl r.currency_from, str_eq_refl r.currency_to) refl

  inserted_polled : (q : NormalizedRate) → is_historical q inserted ≡ false
  unfolding new_row
  inserted_polled q = ground arith

  -- The three branches, by what the query returns.
  fresh_lem :
      find_row (is_open_polled r) rates ≡ none
      → upsert_polled rates i r cadence ≡ rates ++ inserted ∷ []
  unfolding upsert_polled
  fresh_lem e = rw (upsert_polled, e)

  bump_lem :
      (c : CurrencyRate)
      → find_row (is_open_polled r) rates ≡ some c
      → rates_equal c r ≡ true
      → upsert_polled rates i r cadence ≡ update_by_id c.id (bump r.at_time cadence) rates
  unfolding upsert_polled
  bump_lem c e f = rw (upsert_polled, e, f)

  change_lem :
      (c : CurrencyRate)
      → find_row (is_open_polled r) rates ≡ some c
      → rates_equal c r ≡ false
      → upsert_polled rates i r cadence
        ≡ update_by_id c.id (close_at r.at_time) rates ++ inserted ∷ []
  unfolding upsert_polled
  change_lem c e f = rw (upsert_polled, e, f)

  module _ (unique : IsUnique rates) where
    upsert_polled-count :
        count (is_open_polled r) rates ≤ 1
        → count (is_open_polled r) (upsert_polled rates i r cadence) ≡ 1
    upsert_polled-count most = elim (Option-cases (find_row (is_open_polled r) rates)) [
      | inl e ↦
          rw
            (
              fresh_lem e,
              count-append (is_open_polled r) rates (inserted ∷ []),
              find_row-none (is_open_polled r) rates e,
              inserted_open,
            )
            refl
      | inr (c, e) ↦
          let (h, m) = find_row_sound (is_open_polled r) rates e in
          let some_row = count_pos (is_open_polled r) c rates m h in
          elim (Bool-cases (rates_equal c r)) [
            | inl f ↦
                let kept : is_open_polled r (bump r.at_time cadence c) ≡ true = ground (arith, h) in
                let total =
                  count-update (bump r.at_time cadence) (is_open_polled r) c rates unique m in
                rw (bump_lem c e f) (bits_one total h kept most some_row)
            | inr f ↦
                let closed : is_open_polled r (close_at r.at_time c) ≡ false = ground arith in
                let total = count-update (close_at r.at_time) (is_open_polled r) c rates unique m in
                rw
                  (
                    change_lem c e f,
                    count-append (is_open_polled r) (update_by_id c.id (close_at r.at_time) rates)
                        (inserted ∷ []),
                    inserted_open,
                  )
                  (bits_zero _ total h closed most some_row)
          ]
    ]

    upsert_polled-filter :
        (q : NormalizedRate)
        → filter (is_historical q) (upsert_polled rates i r cadence)
          ≡ filter (is_historical q) rates
    upsert_polled-filter q = elim (Option-cases (find_row (is_open_polled r) rates)) [
      | inl e ↦
          rw (fresh_lem e, filter-append (is_historical q) rates (inserted ∷ []))
            (rw (inserted_polled q) (append-nil (filter (is_historical q) rates)))
      | inr (c, e) ↦
          let (h, m) = find_row_sound (is_open_polled r) rates e in
          let polled : is_historical q c ≡ false = ground (arith, h) in
          elim (Bool-cases (rates_equal c r)) [
            | inl f ↦
                let polled' : is_historical q (bump r.at_time cadence c) ≡ false = ground arith in
                rw
                  (
                    bump_lem c e f,
                    filter-update (bump r.at_time cadence) (is_historical q) c rates unique m polled
                        polled',
                  )
                  refl
            | inr f ↦
                let polled' : is_historical q (close_at r.at_time c) ≡ false = ground (arith, h) in
                rw
                  (
                    change_lem c e f,
                    filter-append (is_historical q) (update_by_id c.id (close_at r.at_time) rates)
                        (inserted ∷ []),
                    inserted_polled q,
                    filter-update (close_at r.at_time) (is_historical q) c rates unique m polled
                        polled',
                  )
                  (append-nil (filter (is_historical q) rates))
          ]
    ]

    -- Where ids are distinct and the pair has at most one open polled row, a polled upsert leaves
    -- exactly one, and it leaves the historical rows of every pair as they are, in their order.
    pub upsert_polled_lem :
        count (is_open_polled r) rates ≤ 1
        → (count (is_open_polled r) (upsert_polled rates i r cadence) ≡ 1)
          × ((q : NormalizedRate)
              → filter (is_historical q) (upsert_polled rates i r cadence)
                ≡ filter (is_historical q) rates)
    upsert_polled_lem most = (upsert_polled-count most, upsert_polled-filter)
