-- ===== src/Rates/Convert/Routes/Legs.antt =====
-- One leg of a path: the step that is found, and what it means that none is.
use grosh.Prelude.{
  sym, inl, inr, Member-All, refl, Option, ℕ, ◌≤◌, String, Bool, true, false, none, some, List, [],
  ◌∷◌, ◌≡◌, subst, inl, inr, Option-cases, All, Member, map, arith, if◌then◌else◌,
}
use grosh.Decimal.{Decimal}
use grosh.Rates.Table.{CurrencyRate}
use grosh.Rates.Lookup.{RateRow, SourceConfig, find_fresh_rate, find_closest_rate}
use grosh.Rates.Lookup.Selection.{
  IsReported, IsLatest, IsNearest, find_fresh_rate-IsLatest, find_closest_rate-IsNearest,
}
use grosh.Rates.Lookup.Selection.Away.{IsAway, IsUsable}
use grosh.Rates.Lookup.Selection.Fresh.{IsFresh}
use grosh.Rates.Convert.{
  RateTier, fresh, closest, RateSide, RateStep, pick_rate, make_step, poll_interval_tolerance,
  or_zero, try_fresh, try_closest, resolve_fresh, resolve_closest_across_chain, resolve_leg,
}

-- The price of a side where the row has one, else the middle rate.
abbrev pub IsPrice : Option Decimal → Decimal → RateSide → RateSide → Decimal → Type 0
IsPrice (some price) mid best side rate = (side ≡ best) × (rate ≡ price)
IsPrice none mid best side rate = (side ≡ RateSide.mid) × (rate ≡ mid)

-- A row of the pair gives its buying price, to multiply with; a row of the reverse pair gives its
-- selling price, to divide by.
abbrev pub IsQuoted : CurrencyRate → String → String → Bool → RateSide → Decimal → Type 0
IsQuoted row from to false side rate =
    (row.currency_from ≡ from)
    × (row.currency_to ≡ to)
    × IsPrice row.rate_buy row.rate_mid RateSide.buy side rate
IsQuoted row from to true side rate =
    (row.currency_from ≡ to)
    × (row.currency_to ≡ from)
    × IsPrice row.rate_sell row.rate_mid RateSide.sell side rate

-- A row of the tier: fresh, with two times its cadence, or within seven days.
abbrev pub IsTimely : ℕ → RateTier → CurrencyRate → Type 0
IsTimely at_time fresh row = IsFresh row.source row.currency_from row.currency_to at_time 2 row
IsTimely at_time closest row =
    (d : ℕ) × IsAway row.valid_from row.last_polled_at at_time d × (d ≤ 604_800_000_000)

pick_rate-IsPrice :
    (buy sell : Option Decimal) (row : RateRow) (from to : String) (divide : Bool)
    (r : CurrencyRate)
    → row.rate_buy ≡ r.rate_buy
    → row.rate_sell ≡ r.rate_sell
    → row.rate_mid ≡ r.rate_mid
    → r.rate_buy ≡ buy
    → r.rate_sell ≡ sell
    → IsPrice
        (if divide then r.rate_sell else r.rate_buy)
        r.rate_mid
        (if divide then RateSide.sell else RateSide.buy)
        (pick_rate row divide).1
        (pick_rate row divide).0
unfolding pick_rate
pick_rate-IsPrice (some b) sell row from to false r eb es em fb fs = rw (eb, fb) (refl, refl)
pick_rate-IsPrice none sell row from to false r eb es em fb fs = rw (eb, fb) (refl, em)
pick_rate-IsPrice buy (some x) row from to true r eb es em fb fs = rw (es, fs) (refl, refl)
pick_rate-IsPrice buy none row from to true r eb es em fb fs = rw (es, fs) (refl, em)

module _ (rates : List CurrencyRate) (at_time : ℕ) where
  -- One step of a route: it joins two currencies at a tier, by the rate of a stored row of a
  -- source of the chain.
  abbrev pub IsLeg : String → String → List SourceConfig → RateTier → RateStep → Type 0
  IsLeg from to chain tier step =
      (step.currency_from ≡ from)
      × (step.currency_to ≡ to)
      × (step.tier ≡ tier)
      × (row : CurrencyRate) × Member row rates
      × (step.rate_id ≡ row.id)
      × (step.source ≡ row.source)
      × Member row.source (map (λ c. c.source) chain)
      × IsTimely at_time tier row
      × IsQuoted row from to step.divide step.rate_side step.rate

  make_step-IsLeg :
      (from to : String) (chain : List SourceConfig) (found : RateRow) (tier : RateTier)
      (seconds : ℕ) (divide : Bool) (row : CurrencyRate)
      → Member row rates
      → Member row.source (map (λ c. c.source) chain)
      → IsReported row found
      → (row.currency_from ≡ (if divide then to else from))
      → (row.currency_to ≡ (if divide then from else to))
      → IsTimely at_time tier row
      → IsLeg from to chain tier (make_step from to found tier seconds divide)
  unfolding make_step
  make_step-IsLeg from to chain found tier seconds false row m listed (i, s, mid, b, l, _, _, _, _)
        f t timely =
      (
        refl,
        refl,
        refl,
        row,
        m,
        i,
        s,
        listed,
        timely,
        (f, t, pick_rate-IsPrice _ _ found from to false row b l mid refl refl),
      )
  make_step-IsLeg from to chain found tier seconds true row m listed (i, s, mid, b, l, _, _, _, _) f
        t timely =
      (
        refl,
        refl,
        refl,
        row,
        m,
        i,
        s,
        listed,
        timely,
        (f, t, pick_rate-IsPrice _ _ found from to true row b l mid refl refl),
      )

  try_fresh-IsLeg :
      (from to : String) (chain : List SourceConfig) (config : SourceConfig) (divide : Bool)
      {step : RateStep}
      → Member config.source (map (λ c. c.source) chain)
      → try_fresh rates at_time from to config divide ≡ some step
      → IsLeg from to chain fresh step
  unfolding try_fresh
  try_fresh-IsLeg from to chain config divide {step} inside h =
      elim (Option-cases (
        find_fresh_rate rates config.source (if divide then to else from)
          (if divide then from else to) at_time poll_interval_tolerance)) [
            | inl e ↦ absurd (ground (arith, h, e))
            | inr (found, e) ↦
                let same : make_step from to found fresh 0 divide ≡ step = ground (arith, h, e) in
                let (row, m, reported, _, (polled, cadence, s, f, t, u, v, w, x, y), _) =
                  subst
                    (IsLatest rates config.source (if divide then to else from)
                      (if divide then from else to) at_time poll_interval_tolerance)
                    e
                    (find_fresh_rate-IsLatest rates config.source (if divide then to else from)
                      (if divide then from else to) at_time poll_interval_tolerance) in
                subst (IsLeg from to chain fresh) same (
                  make_step-IsLeg from to chain found fresh 0 divide row m
                    (subst (λ x. Member x (map (λ c. c.source) chain)) (sym s) inside) reported f t
                    (polled, cadence, refl, refl, refl, u, v, w, x, y))
          ]

  resolve_fresh-IsLeg :
      (from to : String) (chain rest : List SourceConfig) {step : RateStep}
      → ((x : String) → Member x (map (λ c. c.source) rest) → Member x (map (λ c. c.source) chain))
      → resolve_fresh rates at_time from to rest ≡ some step
      → IsLeg from to chain fresh step
  unfolding resolve_fresh
  resolve_fresh-IsLeg from to chain [] inside h = cc
  resolve_fresh-IsLeg from to chain (config ∷ rest) {step} inside h =
      elim (Option-cases (try_fresh rates at_time from to config false)) [
        | inr (direct, e) ↦
            let same : direct ≡ step = ground (arith, e) in
            subst (IsLeg from to chain fresh) same
              (try_fresh-IsLeg from to chain config false (inside config.source (inl refl)) e)
        | inl e ↦ elim (Option-cases (try_fresh rates at_time from to config true)) [
          | inr (reverse, f) ↦
              let same : reverse ≡ step = ground (arith, e, f) in
              subst (IsLeg from to chain fresh) same
                (try_fresh-IsLeg from to chain config true (inside config.source (inl refl)) f)
          | inl f ↦
              resolve_fresh-IsLeg from to chain rest {step = step} (λ x m. inside x (inr m))
                (ground (arith, h, e, f))
        ]
      ]

  try_closest-IsLeg :
      (from to : String) (chain : List SourceConfig) (reverse : Bool) {step : RateStep}
      → try_closest rates at_time from to chain reverse ≡ some step
      → IsLeg from to chain closest step
  unfolding try_closest
  try_closest-IsLeg from to chain reverse {step} h =
      elim (Option-cases (
        find_closest_rate rates (if reverse then to else from) (if reverse then from else to)
          at_time (map (λ c. c.source) chain))) [
            | inl e ↦ absurd (ground (arith, h, e))
            | inr (found, e) ↦
                let same : make_step from to found closest (or_zero found.proximity_seconds) reverse
                    ≡ step =
                  ground (arith, h, e) in
                let (row, d, _, m, reported, (f, t, listed, away, near), _, _, _, _) =
                  subst
                    (IsNearest rates (if reverse then to else from) (if reverse then from else to)
                      at_time (map (λ c. c.source) chain))
                    e
                    (find_closest_rate-IsNearest rates (if reverse then to else from)
                      (if reverse then from else to) at_time (map (λ c. c.source) chain)) in
                subst (IsLeg from to chain closest) same (
                  make_step-IsLeg from to chain found closest (or_zero found.proximity_seconds)
                    reverse row m listed reported f t (d, away, near))
          ]

  resolve_closest-IsLeg :
      (from to : String) (chain : List SourceConfig) {step : RateStep}
      → resolve_closest_across_chain rates at_time from to chain ≡ some step
      → IsLeg from to chain closest step
  unfolding resolve_closest_across_chain
  resolve_closest-IsLeg from to chain {step} h =
      elim (Option-cases (try_closest rates at_time from to chain false)) [
        | inl e ↦ try_closest-IsLeg from to chain true {step = step} (ground (arith, h, e))
        | inr (direct, e) ↦
            let same : direct ≡ step = ground (arith, h, e) in
            subst (IsLeg from to chain closest) same (try_closest-IsLeg from to chain false e)
      ]

  pub resolve_leg-IsLeg :
      (from to : String) (chain : List SourceConfig) (tier : RateTier) {step : RateStep}
      → resolve_leg rates at_time from to chain tier ≡ some step
      → IsLeg from to chain tier step
  unfolding resolve_leg
  resolve_leg-IsLeg from to chain fresh h = resolve_fresh-IsLeg from to chain chain (λ x m. m) h
  resolve_leg-IsLeg from to chain closest h = resolve_closest-IsLeg from to chain h

  -- A stored row that offers a rate of the pair at a tier: fresh for a source of the chain, or of a
  -- source of the chain and within seven days.
  abbrev pub IsOffer : String → String → List SourceConfig → RateTier → CurrencyRate → Type 0
  IsOffer from to chain fresh row =
      (config : SourceConfig) × Member config chain × IsFresh config.source from to at_time 2 row
  IsOffer from to chain closest row =
      (d : ℕ) × IsUsable from to at_time (map (λ c. c.source) chain) d row

  -- No stored row offers a rate of the pair or of the reverse pair.
  abbrev pub HasNoLeg : String → String → List SourceConfig → RateTier → Type 0
  HasNoLeg from to chain tier =
      (row : CurrencyRate)
      → Member row rates
      → (¬ IsOffer from to chain tier row) × (¬ IsOffer to from chain tier row)

  try_fresh-none :
      (from to : String) (config : SourceConfig) (divide : Bool)
      → try_fresh rates at_time from to config divide ≡ none
      → IsLatest rates config.source
          (if divide then to else from)
          (if divide then from else to)
          at_time
          2
          none
  unfolding try_fresh
  try_fresh-none from to config divide h =
      elim (Option-cases (
        find_fresh_rate rates config.source (if divide then to else from)
          (if divide then from else to) at_time poll_interval_tolerance)) [
            | inr (found, e) ↦ absurd (ground (arith, h, e))
            | inl e ↦
                subst
                  (IsLatest rates config.source (if divide then to else from)
                    (if divide then from else to) at_time poll_interval_tolerance)
                  e
                  (find_fresh_rate-IsLatest rates config.source (if divide then to else from)
                    (if divide then from else to) at_time poll_interval_tolerance)
          ]

  resolve_fresh-none :
      (from to : String) (chain : List SourceConfig)
      → resolve_fresh rates at_time from to chain ≡ none
      → All
          (λ config.
            IsLatest rates config.source from to at_time 2 none
            × IsLatest rates config.source to from at_time 2 none)
          chain
  unfolding resolve_fresh
  resolve_fresh-none from to [] h = tt
  resolve_fresh-none from to (config ∷ chain) h =
      elim (Option-cases (try_fresh rates at_time from to config false)) [
        | inr (direct, e) ↦ absurd (ground (arith, h, e))
        | inl e ↦ elim (Option-cases (try_fresh rates at_time from to config true)) [
          | inr (reverse, f) ↦ absurd (ground (arith, h, e, f))
          | inl f ↦ (
            (try_fresh-none from to config false e, try_fresh-none from to config true f),
            resolve_fresh-none from to chain (ground (arith, h, e, f)),
          )
        ]
      ]

  try_closest-none :
      (from to : String) (chain : List SourceConfig) (reverse : Bool)
      → try_closest rates at_time from to chain reverse ≡ none
      → IsNearest rates
          (if reverse then to else from)
          (if reverse then from else to)
          at_time
          (map (λ c. c.source) chain)
          none
  unfolding try_closest
  try_closest-none from to chain reverse h =
      elim (Option-cases (
        find_closest_rate rates (if reverse then to else from) (if reverse then from else to)
          at_time (map (λ c. c.source) chain))) [
            | inr (found, e) ↦ absurd (ground (arith, h, e))
            | inl e ↦
                subst
                  (IsNearest rates (if reverse then to else from) (if reverse then from else to)
                    at_time (map (λ c. c.source) chain))
                  e
                  (find_closest_rate-IsNearest rates (if reverse then to else from)
                    (if reverse then from else to) at_time (map (λ c. c.source) chain))
          ]

  resolve_closest-none :
      (from to : String) (chain : List SourceConfig)
      → resolve_closest_across_chain rates at_time from to chain ≡ none
      → HasNoLeg from to chain closest
  unfolding resolve_closest_across_chain
  resolve_closest-none from to chain h row m =
      elim (Option-cases (try_closest rates at_time from to chain false)) [
        | inr (direct, e) ↦ absurd (ground (arith, h, e))
        | inl e ↦
            let f : try_closest rates at_time from to chain true ≡ none = ground (arith, h, e) in
            (
              λ (d, usable). try_closest-none from to chain false e row d m usable,
              λ (d, usable). try_closest-none from to chain true f row d m usable,
            )
      ]

  pub resolve_leg-none :
      (from to : String) (chain : List SourceConfig) (tier : RateTier)
      → resolve_leg rates at_time from to chain tier ≡ none
      → HasNoLeg from to chain tier
  unfolding resolve_leg
  resolve_leg-none from to chain closest h row m = resolve_closest-none from to chain h row m
  resolve_leg-none from to chain fresh h row m = (
    λ (config, inside, is_fresh). (none_of config inside).0 row m is_fresh,
    λ (config, inside, is_fresh). (none_of config inside).1 row m is_fresh,
  )
    where
      none_of :
          (config : SourceConfig)
          → Member config chain
          → IsLatest rates config.source from to at_time 2 none
            × IsLatest rates config.source to from at_time 2 none
      none_of config inside =
          Member-All
            (λ config.
              IsLatest rates config.source from to at_time 2 none
              × IsLatest rates config.source to from at_time 2 none)
            config chain (resolve_fresh-none from to chain h) inside
