-- ===== src/Rates/Lookup/Selection/Fresh.antt =====
-- Which stored rows are fresh at an instant.
use grosh.Prelude.{
  ℕ, ◌+◌, ◌*◌, ◌≤◌, ◌<◌, true, Option, none, some, ◌≡◌, refl, arith, String, leb, leb→le,
  str_eq_iff,
}
use grosh.Rates.Table.{CurrencyRate}
use grosh.Rates.Lookup.{is_fresh, open_after, polled_until}

-- `valid_to` is open or later.
abbrev pub IsOpenAfter : ℕ → Option ℕ → Type 0
IsOpenAfter at_time none = Unit
IsOpenAfter at_time (some valid_to) = at_time < valid_to

-- A row of the source and pair that is valid at an instant, and whose last poll is no older than so
-- many times its cadence.
abbrev pub IsFresh : String → String → String → ℕ → ℕ → CurrencyRate → Type 0
IsFresh source from to at_time tolerance row =
    (polled : ℕ) × (cadence : ℕ) × (row.source ≡ source)
    × (row.currency_from ≡ from)
    × (row.currency_to ≡ to)
    × (row.valid_from ≤ at_time)
    × IsOpenAfter at_time row.valid_to
    × (row.last_polled_at ≡ some polled)
    × (row.update_cadence_seconds ≡ some cadence)
    × (at_time ≤ polled + cadence * tolerance * 1_000_000)

pub is_fresh-IsFresh :
    (source from to : String) (at_time tolerance : ℕ) (row : CurrencyRate)
    → is_fresh source from to at_time tolerance row ≡ true
    → IsFresh source from to at_time tolerance row
unfolding is_fresh
is_fresh-IsFresh source from to at_time tolerance row h =
    let (polled, cadence, p, c, bound) =
      parts row.last_polled_at row.update_cadence_seconds (ground (arith, h)) in
    (
      polled,
      cadence,
      (str_eq_iff row.source source).0 (ground (arith, h)),
      (str_eq_iff row.currency_from from).0 (ground (arith, h)),
      (str_eq_iff row.currency_to to).0 (ground (arith, h)),
      ground (arith, h),
      opened row.valid_to (ground (arith, h)),
      p,
      c,
      bound,
    )
  where
    opened : (o : Option ℕ) → open_after o at_time ≡ true → IsOpenAfter at_time o
    opened none e = tt
    opened (some valid_to) e = ground (arith, e)

    parts :
        (p c : Option ℕ)
        → polled_until p c tolerance at_time ≡ true
        → (polled : ℕ) × (cadence : ℕ) × (p ≡ some polled)
          × (c ≡ some cadence)
          × (at_time ≤ polled + cadence * tolerance * 1_000_000)
    parts (some p) (some c) e = (p, c, refl, refl, leb→le _ _ e)
    parts (some p) none e = absurd cc
    parts none c e = absurd cc

pub fresh-is_fresh :
    (source from to : String) (at_time tolerance : ℕ) (row : CurrencyRate)
    → IsFresh source from to at_time tolerance row
    → is_fresh source from to at_time tolerance row ≡ true
unfolding is_fresh
fresh-is_fresh source from to at_time tolerance row
      (polled, cadence, s, f, t, start, o, p, c, bound) =
    let begun : leb row.valid_from at_time ≡ true = ground (arith, start) in
    let recent : leb at_time (polled + cadence * tolerance * 1_000_000) ≡ true =
      ground (arith, bound) in
    rw
      (
        (str_eq_iff row.source source).1 s,
        (str_eq_iff row.currency_from from).1 f,
        (str_eq_iff row.currency_to to).1 t,
        begun,
        opened row.valid_to o,
        p,
        c,
      )
      recent
  where
    opened : (v : Option ℕ) → IsOpenAfter at_time v → open_after v at_time ≡ true
    opened none e = refl
    opened (some valid_to) e = ground (arith, e)
