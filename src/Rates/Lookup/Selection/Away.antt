-- ===== src/Rates/Lookup/Selection/Away.antt =====
-- How far a stored row is from an instant, and which rows are near enough.
use grosh.Prelude.{
  ℕ, ◌+◌, ◌-◌, ◌*◌, ◌≤◌, ◌<◌, true, false, ◌&&◌, ◌⊎◌, Option, none, some, List, ◌≡◌, subst, inl,
  inr, Bool-cases, Member, any-Member, Member-any, arith, String, ltb, leb, leb→le, if◌then◌else◌,
  str_eq, str_eq_iff, str_eq_refl,
}
use grosh.Rates.Table.{CurrencyRate}
use grosh.Rates.Lookup.{is_eligible, is_closer, proximity, to_seconds}

-- The microseconds between an instant and the time from the start of a row to its last poll; a row
-- that is not polled stands for its start alone.
abbrev pub IsAway : ℕ → Option ℕ → ℕ → ℕ → Type 0
IsAway valid_from none at_time d = (at_time ≡ valid_from + d) ⊎ (valid_from ≡ at_time + d)
IsAway valid_from (some polled) at_time d =
    ((valid_from ≤ at_time) × (at_time ≤ polled) × (d ≡ 0))
    ⊎ ((polled < at_time) × (at_time ≡ polled + d))
    ⊎ ((at_time < valid_from) × (at_time ≤ polled) × (valid_from ≡ at_time + d))

-- A row of the pair and of a listed source that is so far away, at most seven days.
abbrev pub IsUsable : String → String → ℕ → List String → ℕ → CurrencyRate → Type 0
IsUsable from to at_time sources d row =
    (row.currency_from ≡ from)
    × (row.currency_to ≡ to)
    × Member row.source sources
    × IsAway row.valid_from row.last_polled_at at_time d
    × (d ≤ 604_800_000_000)

pub gap-IsAway :
    (valid_from : ℕ) (polled : Option ℕ) (at_time d e : ℕ)
    → IsAway valid_from polled at_time d
    → IsAway valid_from polled at_time e
    → d ≡ e
gap-IsAway valid_from none at_time d e (inl h) (inl k) = ground (arith, h, k)
gap-IsAway valid_from none at_time d e (inl h) (inr k) = ground (arith, h, k)
gap-IsAway valid_from none at_time d e (inr h) (inl k) = ground (arith, h, k)
gap-IsAway valid_from none at_time d e (inr h) (inr k) = ground (arith, h, k)
gap-IsAway valid_from (some p) at_time d e h k = ground (arith, h, k)

pub proximity-IsAway :
    (at_time : ℕ) (row : CurrencyRate)
    → IsAway row.valid_from row.last_polled_at at_time (proximity at_time row)
unfolding proximity
proximity-IsAway at_time row = away row.last_polled_at
  where
    distance : Option ℕ → ℕ
    distance o = elim o [
      | some polled ↦
          if leb row.valid_from at_time && leb at_time polled
          then 0
          else (if ltb polled at_time then at_time - polled else row.valid_from - at_time)
      | none ↦ (row.valid_from - at_time) + (at_time - row.valid_from)
    ]

    away : (o : Option ℕ) → IsAway row.valid_from o at_time (distance o)
    away none = elim (Bool-cases (leb row.valid_from at_time)) [
      | inl e ↦ inl (omega (arith, leb→le row.valid_from at_time e))
      | inr e ↦ inr (ground (arith, e))
    ]
    away (some polled) = elim (Bool-cases (leb row.valid_from at_time && leb at_time polled)) [
      | inl e ↦ inl (ground (arith, e))
      | inr e ↦ elim (Bool-cases (ltb polled at_time)) [
        | inl f ↦ inr (inl (ground (arith, e, f)))
        | inr f ↦ inr (inr (ground (arith, e, f)))
      ]
    ]

pub eligible-IsUsable :
    (from to : String) (at_time : ℕ) (sources : List String) (row : CurrencyRate)
    → is_eligible from to at_time sources row ≡ true
    → IsUsable from to at_time sources (proximity at_time row) row
unfolding is_eligible
eligible-IsUsable from to at_time sources row h =
    let (s, m, same) = any-Member (λ s. str_eq s row.source) sources (ground (arith, h)) in
    (
      (str_eq_iff row.currency_from from).0 (ground (arith, h)),
      (str_eq_iff row.currency_to to).0 (ground (arith, h)),
      subst (λ x. Member x sources) ((str_eq_iff s row.source).0 same) m,
      proximity-IsAway at_time row,
      ground (arith, h),
    )

pub usable-is_eligible :
    (from to : String) (at_time : ℕ) (sources : List String) (d : ℕ) (row : CurrencyRate)
    → IsUsable from to at_time sources d row
    → (is_eligible from to at_time sources row ≡ true) × (proximity at_time row ≡ d)
unfolding is_eligible
usable-is_eligible from to at_time sources d row (f, t, m, away, near) =
    let same =
      gap-IsAway row.valid_from row.last_polled_at at_time (proximity at_time row) d
        (proximity-IsAway at_time row) away in
    let listed =
      Member-any row.source (λ s. str_eq s row.source) sources m (str_eq_refl row.source) in
    let close : leb (proximity at_time row) 604_800_000_000 ≡ true = ground (arith, same, near) in
    (
      rw ((str_eq_iff row.currency_from from).1 f, (str_eq_iff row.currency_to to).1 t, listed)
          close,
      same,
    )

pub to_seconds_lem :
    (d : ℕ) → (to_seconds d * 1_000_000 ≤ d + 500_000) × (d < to_seconds d * 1_000_000 + 500_000)
unfolding to_seconds
to_seconds_lem d = (omega arith, omega arith)

module _ (at_time : ℕ) (sources : List String) where
  pub closer_le :
      (a b : CurrencyRate)
      → is_closer at_time sources a b ≡ true
      → proximity at_time a ≤ proximity at_time b
  unfolding is_closer
  closer_le a b h = ground arith

  pub not_closer_le :
      (a b : CurrencyRate)
      → is_closer at_time sources a b ≡ false
      → proximity at_time b ≤ proximity at_time a
  unfolding is_closer
  not_closer_le a b h = ground arith
