-- ===== src/Rates/Lookup/Selection.antt =====
-- Which row the two rate queries return.
pub mod First
pub mod Away
pub mod Fresh
use grosh.Prelude.{
  ℕ, ◌+◌, ◌-◌, ◌*◌, ◌≤◌, ◌<◌, Bool, true, false, Option, none, some, List, ◌≡◌, refl, subst, Member,
  Member-All, arith, String, ltb,
}
use grosh.Rates.Table.{CurrencyRate}
use grosh.Rates.Lookup.{
  first_by, is_fresh, is_eligible, is_closer, proximity, find_fresh_rate, find_closest_rate,
  RateRow, to_seconds, row_of,
}
use grosh.Rates.Lookup.Selection.First.{first_by_sound, first_by-none, first_by-least}
use grosh.Rates.Lookup.Selection.Away.{
  IsUsable, eligible-IsUsable, usable-is_eligible, to_seconds_lem, closer_le, not_closer_le,
}
use grosh.Rates.Lookup.Selection.Fresh.{IsFresh, is_fresh-IsFresh, fresh-is_fresh}

-- The columns of a row, as they are reported.
abbrev pub IsReported : CurrencyRate → RateRow → Type 0
IsReported row found =
    (found.id ≡ row.id)
    × (found.source ≡ row.source)
    × (found.rate_mid ≡ row.rate_mid)
    × (found.rate_buy ≡ row.rate_buy)
    × (found.rate_sell ≡ row.rate_sell)
    × (found.valid_from ≡ some row.valid_from)
    × (found.valid_to ≡ row.valid_to)
    × (found.last_polled_at ≡ row.last_polled_at)
    × (found.update_cadence_seconds ≡ row.update_cadence_seconds)

-- What a lookup of the nearest rate reports: the columns of a stored row of the pair and of a listed
-- source, at most seven days away, and the distance in seconds, where no such row is nearer; or that
-- there is no such row.
abbrev pub IsNearest :
    List CurrencyRate → String → String → ℕ → List String → Option RateRow → Type 0
IsNearest rates from to at_time sources none =
    (r : CurrencyRate) (e : ℕ) → Member r rates → ¬ IsUsable from to at_time sources e r
IsNearest rates from to at_time sources (some found) =
    (row : CurrencyRate) × (d : ℕ) × (seconds : ℕ) × Member row rates
    × IsReported row found
    × IsUsable from to at_time sources d row
    × (found.proximity_seconds ≡ some seconds)
    × (seconds * 1_000_000 ≤ d + 500_000)
    × (d < seconds * 1_000_000 + 500_000)
    × ((r : CurrencyRate) (e : ℕ) → Member r rates → IsUsable from to at_time sources e r → d ≤ e)

-- A rate that the nearest-rate query returns has the columns of a stored row of the pair and of a
-- listed source that is at most seven days from the instant, and the distance of this row, rounded to
-- seconds; and no stored row of the pair and of a listed source is nearer. Where it returns nothing, no
-- such row is within seven days.
pub find_closest_rate-IsNearest :
    (rates : List CurrencyRate) (from to : String) (at_time : ℕ) (sources : List String)
    → IsNearest rates from to at_time sources (find_closest_rate rates from to at_time sources)
unfolding find_closest_rate
find_closest_rate-IsNearest rates from to at_time sources =
    answered (first_by keep before rates) refl
  where
    keep : CurrencyRate → Bool
    keep = is_eligible from to at_time sources

    before : CurrencyRate → CurrencyRate → Bool
    before = is_closer at_time sources

    answered :
        (found : Option CurrencyRate)
        → first_by keep before rates ≡ found
        → IsNearest rates from to at_time sources (elim found [
          | none ↦ none
          | some row ↦ some (row_of row (some (to_seconds (proximity at_time row))))
        ])
    answered none h = λ r e m usable.
        refused (usable-is_eligible from to at_time sources e r usable).0
          (Member-All (λ r. keep r ≡ false) r rates (first_by-none keep before rates h) m)
      where
        refused : {b : Bool} → b ≡ true → b ≡ false → ⊥
        refused a b = cc
    answered (some row) h =
        let (kept, inside) = first_by_sound keep before rates h in
        let least =
          first_by-least keep before (proximity at_time) (closer_le at_time sources)
            (not_closer_le at_time sources) rates h in
        let (low, high) = to_seconds_lem (proximity at_time row) in
        (
          row,
          proximity at_time row,
          to_seconds (proximity at_time row),
          inside,
          (refl, refl, refl, refl, refl, refl, refl, refl, refl),
          eligible-IsUsable from to at_time sources row kept,
          refl,
          low,
          high,
          λ r e m usable.
              let (eligible, same) = usable-is_eligible from to at_time sources e r usable in
              subst (λ n. proximity at_time row ≤ n) same
                (Member-All (λ r. keep r ≡ true → proximity at_time row ≤ proximity at_time r) r
                  rates least m eligible),
        )

-- What a lookup of a fresh rate reports: the columns of a stored row that is fresh at the instant, where
-- no row that is fresh then starts later; or that no row is fresh.
abbrev pub IsLatest : List CurrencyRate → String → String → String → ℕ → ℕ → Option RateRow → Type 0
IsLatest rates source from to at_time tolerance none =
    (r : CurrencyRate) → Member r rates → ¬ IsFresh source from to at_time tolerance r
IsLatest rates source from to at_time tolerance (some found) =
    (row : CurrencyRate) × Member row rates
    × IsReported row found
    × (found.proximity_seconds ≡ none)
    × IsFresh source from to at_time tolerance row
    × ((r : CurrencyRate)
        → Member r rates
        → IsFresh source from to at_time tolerance r
        → r.valid_from ≤ row.valid_from)

-- A rate that the fresh-rate query returns has the columns of a stored row of the source and pair that
-- is valid at the instant and was polled recently enough, and no such row starts later. Where it
-- returns nothing, there is no such row.
pub find_fresh_rate-IsLatest :
    (rates : List CurrencyRate) (source from to : String) (at_time tolerance : ℕ)
    → IsLatest rates source from to at_time tolerance
        (find_fresh_rate rates source from to at_time tolerance)
unfolding find_fresh_rate
find_fresh_rate-IsLatest rates source from to at_time tolerance =
    answered (first_by keep before rates) refl
  where
    keep : CurrencyRate → Bool
    keep = is_fresh source from to at_time tolerance

    before : CurrencyRate → CurrencyRate → Bool
    before a b = ltb b.valid_from a.valid_from

    started : (r : CurrencyRate) → keep r ≡ true → r.valid_from ≤ at_time
    started r k =
        let (_, _, _, _, _, start, _, _, _, _) =
          is_fresh-IsFresh source from to at_time tolerance r k in
        start

    answered :
        (found : Option CurrencyRate)
        → first_by keep before rates ≡ found
        → IsLatest rates source from to at_time tolerance
            (elim found [ none ↦ none | some row ↦ some (row_of row none) ])
    answered none h = λ r m f.
        refused (fresh-is_fresh source from to at_time tolerance r f)
          (Member-All (λ r. keep r ≡ false) r rates (first_by-none keep before rates h) m)
      where
        refused : {b : Bool} → b ≡ true → b ≡ false → ⊥
        refused a b = cc
    answered (some row) h =
        let (kept, inside) = first_by_sound keep before rates h in
        let least =
          first_by-least keep before (λ r. at_time - r.valid_from) (λ a b k. ground arith)
            (λ a b k. ground arith) rates h in
        (
          row,
          inside,
          (refl, refl, refl, refl, refl, refl, refl, refl, refl),
          refl,
          is_fresh-IsFresh source from to at_time tolerance row kept,
          λ r m f.
              let k = fresh-is_fresh source from to at_time tolerance r f in
              let le =
                Member-All (λ r. keep r ≡ true → at_time - row.valid_from ≤ at_time - r.valid_from)
                  r rates least m k in
              omega (arith, le, started row kept, started r k),
        )
