-- ===== src/Rates/Ingest/Timeline.antt =====
-- The historical sequence of a pair covers time without gap or overlap.
pub mod Upsert
use grosh.Prelude.{
  ℕ, ◌+◌, ◌≤◌, ◌<◌, Bool, true, false, ◌&&◌, Option, none, some, List, [], ◌∷◌, ◌++◌, ◌≡◌, ◌≢◌, ◌∙◌,
  refl, ◌⊎◌, inl, inr, Bool-cases, Option-cases, All, All-map, All-zip, Member, arith, ltb, leb,
  leb→le, leb→lt, any, str_eq_refl,
}
use grosh.Domain.{Result, ok}
use grosh.Rates.Table.{CurrencyRate}
use grosh.Rates.Lookup.{open_after, first_by}
use grosh.Rates.Lookup.Selection.First.{first_by_sound, first_by-none, first_by-least}
use grosh.Rates.Ingest.{
  NormalizedRate, is_historical, starts_at, spans, starts_after, close_at, overwrite, new_row,
  update_by_id, find_row, rates_equal, replace_at, split_row, prepend, upsert_historical,
}
use grosh.Rates.Ingest.Updates.{
  bit, count, IsUnique, find_row_sound, find_row-none, count-append, count-update, IsUnique-update,
  IsUnique-append, All-ids-update, count_pos, count-eq-zero, count_none, count_le_add, All-append,
  All-update, All-Member,
}

-- The row is of the pair's historical sequence and starts no later than the instant.
abbrev pub started : NormalizedRate → ℕ → CurrencyRate → Bool
started r t row = is_historical r row && leb row.valid_from t

-- Its interval [valid_from, valid_to) holds the instant.
abbrev pub covers : NormalizedRate → ℕ → CurrencyRate → Bool
covers r t row = started r t row && open_after row.valid_to t

-- Intervals of the sequence are not empty.
abbrev pub IsSpan : NormalizedRate → CurrencyRate → Type 0
IsSpan r row = is_historical r row ≡ true → open_after row.valid_to row.valid_from ≡ true

-- Ids are distinct, and from the first start on each instant is covered by exactly one row.
pub record IsTimeline (r : NormalizedRate) (rows : List CurrencyRate) : Type 0 where
  pub unique : IsUnique rows
  pub nonempty : All (IsSpan r) rows
  pub one : (t : ℕ) → 1 ≤ count (started r t) rows → count (covers r t) rows ≡ 1

covers_le :
    (r : NormalizedRate) (t : ℕ) (rows : List CurrencyRate)
    → count (covers r t) rows ≤ count (started r t) rows
covers_le r t [] = omega arith
covers_le r t (row ∷ rows) =
    let here : bit (covers r t row) ≤ bit (started r t row) = ground arith in
    omega (arith, covers_le r t rows)

module _ (r : NormalizedRate) (rates : List CurrencyRate) (line : IsTimeline r rates) where
  replace_at-IsTimeline : (c : CurrencyRate) → Member c rates → IsTimeline r (replace_at rates r c)
  unfolding replace_at
  replace_at-IsTimeline c m = elim (Bool-cases (rates_equal c r)) [
    | inl same ↦ rw same line
    | inr other ↦ rw other (record {
      unique = IsUnique-update (overwrite r) (λ row. refl) c.id rates line.unique;
      nonempty =
          All-update (IsSpan r) (overwrite r) c rates line.unique m line.nonempty
            (All-Member (IsSpan r) c rates line.nonempty m);
      one = λ t h. omega (
        arith,
        line.one t (omega (arith, count-update (overwrite r) (started r t) c rates line.unique m)),
        count-update (overwrite r) (covers r t) c rates line.unique m,
      );
    })
  ]

  new_row-is_historical : (i : ℕ) (v : Option ℕ) → is_historical r (new_row i r v none none) ≡ true
  unfolding new_row
  new_row-is_historical i v =
      ground (arith, str_eq_refl r.source, str_eq_refl r.currency_from, str_eq_refl r.currency_to)

  new_row-started :
      (i : ℕ) (v : Option ℕ) (t : ℕ) → started r t (new_row i r v none none) ≡ leb r.at_time t
  unfolding new_row
  new_row-started i v t =
      ground (arith, str_eq_refl r.source, str_eq_refl r.currency_from, str_eq_refl r.currency_to)

  new_row-covers :
      (i : ℕ) (v : Option ℕ) (t : ℕ)
      → covers r t (new_row i r v none none) ≡ (leb r.at_time t && open_after v t)
  unfolding new_row
  new_row-covers i v t =
      ground (arith, str_eq_refl r.source, str_eq_refl r.currency_from, str_eq_refl r.currency_to)

  split_covers :
      (c : CurrencyRate) (i t : ℕ)
      → spans r c ≡ true
      → bit (covers r t c)
        ≡ bit (covers r t (close_at r.at_time c))
          + bit (covers r t (new_row i r c.valid_to none none))
  split_covers c i t h = rw (new_row-covers i c.valid_to t) (ground arith)

  split_row-one :
      (c : CurrencyRate) (i t : ℕ)
      → spans r c ≡ true
      → Member c rates
      → 1 ≤ count (started r t) (split_row rates i r c)
      → count (covers r t) (split_row rates i r c) ≡ 1
  unfolding split_row
  split_row-one c i t h m k =
      let new = new_row i r c.valid_to none none in
      let closed = update_by_id c.id (close_at r.at_time) rates in
      let a = count-append (started r t) closed (new ∷ []) in
      let b = count-append (covers r t) closed (new ∷ []) in
      let d = count-update (close_at r.at_time) (started r t) c rates line.unique m in
      let e = count-update (close_at r.at_time) (covers r t) c rates line.unique m in
      let before : 1 ≤ count (started r t) rates = elim (Bool-cases (leb r.at_time t)) [
        | inl later ↦ count_pos (started r t) c rates m (ground (arith, leb→le r.at_time t later))
        | inr earlier ↦
            let none_new : bit (started r t new) ≡ 0 =
              rw (new_row-started i c.valid_to t) (rw earlier) in
            omega arith
      ] in
      omega (arith, split_covers c i t h, line.one t before)

  split_row-IsTimeline :
      (c : CurrencyRate) (i : ℕ)
      → spans r c ≡ true
      → Member c rates
      → All (λ s. s.id ≢ i) rates
      → IsTimeline r (split_row rates i r c)
  unfolding split_row
  split_row-IsTimeline c i h m free = record {
    unique =
        IsUnique-append (update_by_id c.id (close_at r.at_time) rates) _
          (IsUnique-update (close_at r.at_time) (λ row. refl) c.id rates line.unique)
          (unfold new_row in All-ids-update (close_at r.at_time) (λ row. refl) c.id i rates free);
    nonempty =
        All-append (IsSpan r) (update_by_id c.id (close_at r.at_time) rates) _
          (All-update (IsSpan r) (close_at r.at_time) c rates line.unique m line.nonempty
            (λ _. ground arith))
          (λ _. unfold new_row in ground arith);
    one = λ t k. split_row-one c i t h m k;
  }
