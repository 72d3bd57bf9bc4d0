-- ===== src/Rates/Convert.antt =====
-- The search of a rate path (`RateTier` to `_resolve_path` and `_pick_rate`, `_step` of
-- services/enrichment/src/grosh_enrichment/services/currency_conversion_service.py).
pub mod Routes
use grosh.Prelude.{
  ℕ, String, Bool, true, false, ◌&&◌, ◌||◌, not, Option, none, some, List, [], ◌∷◌, ◌++◌,
  if◌then◌else◌, is_some, str_eq, any, map,
}
use grosh.Domain.{NormalizedTransaction, Result, ok, ◌>>=◌}
use grosh.Decimal.{Decimal, of_int, mul, div, quantize}
use grosh.Rates.Table.{CurrencyRate, RateSourceConfig}
use grosh.Rates.Lookup.{
  RateRow, SourceConfig, find_fresh_rate, find_closest_rate, load_source_chain,
}

pub data RateTier : Type 0 where
  fresh closest : RateTier

pub data RateSide : Type 0 where
  buy sell mid : RateSide

pub record RateStep : Type 0 where
  pub currency_from : String
  pub currency_to : String
  pub source : String
  pub rate_id : ℕ
  pub rate : Decimal
  pub rate_side : RateSide
  pub tier : RateTier
  pub proximity_seconds : ℕ
  pub divide : Bool

abbrev pub RatePath : Type 0
RatePath = List RateStep

-- `_RateStep.apply`
unfoldable pub apply_step : RateStep → Decimal → Result Decimal
apply_step step amount = if step.divide then div amount step.rate else ok (mul amount step.rate)

-- `_RatePath.apply`; `effective_rate` is this at 1
unfoldable pub apply_path : RatePath → Decimal → Result Decimal
unfolding apply_step
apply_path [] amount = ok amount
apply_path (step ∷ steps) amount = do amount' ← apply_step step amount; apply_path steps amount'

unfoldable pub pick_rate : RateRow → Bool → Decimal × RateSide
pick_rate row divide = elim (if divide then row.rate_sell else row.rate_buy) [
  | some preferred ↦ (preferred, if divide then RateSide.sell else RateSide.buy)
  | none ↦ (row.rate_mid, RateSide.mid)
]

-- `_step`
unfoldable pub make_step : String → String → RateRow → RateTier → ℕ → Bool → RateStep
unfolding pick_rate
make_step leg_from leg_to row tier proximity_seconds divide =
    let (rate, side) = pick_rate row divide in
    record {
      currency_from = leg_from;
      currency_to = leg_to;
      source = row.source;
      rate_id = row.id;
      rate = rate;
      rate_side = side;
      tier = tier;
      proximity_seconds = proximity_seconds;
      divide = divide;
    }

-- `_POLL_INTERVAL_TOLERANCE`
abbrev pub poll_interval_tolerance : ℕ
poll_interval_tolerance = 2

-- `value or 0`
abbrev pub or_zero : Option ℕ → ℕ
or_zero none = 0
or_zero (some n) = n

module _ (rates : List CurrencyRate) (at_time : ℕ) where
  unfoldable pub try_fresh : String → String → SourceConfig → Bool → Option RateStep
  unfolding make_step
  try_fresh leg_from leg_to config divide =
      elim (find_fresh_rate rates config.source (if divide then leg_to else leg_from)
        (if divide then leg_from else leg_to) at_time poll_interval_tolerance) [
          | none ↦ none
          | some row ↦ some (make_step leg_from leg_to row RateTier.fresh 0 divide)
        ]

  -- The chain in the order of its sources, direct before reverse.
  unfoldable pub resolve_fresh : String → String → List SourceConfig → Option RateStep
  unfolding try_fresh
  resolve_fresh leg_from leg_to [] = none
  resolve_fresh leg_from leg_to (config ∷ chain) = elim (try_fresh leg_from leg_to config false) [
    | some step ↦ some step
    | none ↦ elim (try_fresh leg_from leg_to config true) [
      | some step ↦ some step
      | none ↦ resolve_fresh leg_from leg_to chain
    ]
  ]

  unfoldable pub try_closest : String → String → List SourceConfig → Bool → Option RateStep
  unfolding make_step
  try_closest leg_from leg_to chain reverse =
      elim (find_closest_rate rates (if reverse then leg_to else leg_from)
        (if reverse then leg_from else leg_to) at_time (map (λ c. c.source) chain)) [
          | none ↦ none
          | some row ↦ some (
              make_step leg_from leg_to row RateTier.closest (or_zero row.proximity_seconds)
                reverse)
        ]

  unfoldable pub resolve_closest_across_chain :
      String → String → List SourceConfig → Option RateStep
  unfolding try_closest
  resolve_closest_across_chain leg_from leg_to chain =
      elim (try_closest leg_from leg_to chain false) [
        | some step ↦ some step
        | none ↦ try_closest leg_from leg_to chain true
      ]

  unfoldable pub resolve_leg : String → String → List SourceConfig → RateTier → Option RateStep
  unfolding resolve_fresh resolve_closest_across_chain
  resolve_leg leg_from leg_to chain RateTier.closest =
      resolve_closest_across_chain leg_from leg_to chain
  resolve_leg leg_from leg_to chain RateTier.fresh = resolve_fresh leg_from leg_to chain

  -- Both legs of a pivot at one tier.
  unfoldable pub two_hops :
      String → String → List SourceConfig → RateTier → String → Option RatePath
  two_hops src tgt chain tier pivot = elim (resolve_leg src pivot chain tier) [
    | none ↦ none
    | some left ↦ elim (resolve_leg pivot tgt chain tier) [
      | none ↦ none
      | some right ↦ some (left ∷ right ∷ [])
    ]
  ]

  unfoldable pub via_pivots :
      String → String → List SourceConfig → RateTier → List String → Option RatePath
  via_pivots src tgt chain tier [] = none
  via_pivots src tgt chain tier (pivot ∷ pivots) =
      let rest = via_pivots src tgt chain tier pivots in
      if str_eq pivot src || str_eq pivot tgt
      then rest
      else elim (two_hops src tgt chain tier pivot) [ some path ↦ some path | none ↦ rest ]

  -- One round of the loop over the tiers.
  unfoldable pub at_tier :
      String → String → List SourceConfig → List String → RateTier → Option RatePath
  at_tier src tgt chain pivots tier = elim (resolve_leg src tgt chain tier) [
    | some step ↦ some (step ∷ [])
    | none ↦ via_pivots src tgt chain tier pivots
  ]

  unfoldable pub resolve_path : String → String → List SourceConfig → List String → Option RatePath
  resolve_path src tgt chain pivots = elim (at_tier src tgt chain pivots RateTier.fresh) [
    | some path ↦ some path
    | none ↦ at_tier src tgt chain pivots RateTier.closest
  ]
