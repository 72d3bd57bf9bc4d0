-- ===== src/Rates/Display.antt =====
-- The amounts in the display currencies (`_ordered_pivots`, `_path_metadata` and `convert` of
-- services/enrichment/src/grosh_enrichment/services/currency_conversion_service.py).
use grosh.Prelude.{
  ℕ, String, Option, none, some, List, [], ◌∷◌, ◌++◌, if◌then◌else◌, str_eq, any, ltb, length,
}
use grosh.Domain.{
  NormalizedTransaction, Result, ok, ◌>>=◌, Items, Fields, text, number, array, object, nil, cons,
  end, field,
}
use grosh.Decimal.{Decimal, of_int, quantize}
use grosh.Rates.Table.{CurrencyRate, RateSourceConfig}
use grosh.Rates.Lookup.{SourceConfig, load_source_chain}
use grosh.Rates.Convert.{RateTier, RateSide, RateStep, RatePath, apply_path, resolve_path}

-- `_ordered_pivots`: the loop over one source's currencies, and that over the chain. The set `seen`
-- holds what the list holds.
add_pivots : List String → List String → List String
add_pivots result [] = result
add_pivots result (currency ∷ currencies) =
    add_pivots (if any (λ c. str_eq c currency) result then result else result ++ currency ∷ [])
      currencies

pivots_from : List String → List SourceConfig → List String
unfolding add_pivots
pivots_from result [] = result
pivots_from result (config ∷ chain) = pivots_from (add_pivots result config.base_currencies) chain

unfoldable pub ordered_pivots : List SourceConfig → List String
unfolding pivots_from
ordered_pivots = pivots_from []

-- How Python prints a Decimal and a UUID (`str(x)`).
pub record Printer : Type 0 where
  pub decimal_text : Decimal → String
  pub uuid_text : ℕ → String

tier_name : RateTier → String
tier_name RateTier.fresh = "fresh"
tier_name RateTier.closest = "closest"

side_value : RateSide → String
side_value RateSide.buy = "buy"
side_value RateSide.sell = "sell"
side_value RateSide.mid = "mid"

step_metadata : Printer → RateStep → Fields
unfolding tier_name side_value
step_metadata print step = field "from" (text step.currency_from) (
    field "to" (text step.currency_to) (
      field "source" (text step.source) (
        field "rate_id" (text (print.uuid_text step.rate_id)) (
          field "rate" (text (print.decimal_text step.rate)) (
            field "rate_side" (text (side_value step.rate_side)) (
              field "tier" (text (tier_name step.tier)) (
                field "proximity_seconds" (number step.proximity_seconds)
                  (field "op" (text (if step.divide then "divide" else "multiply")) end))))))))

steps_metadata : Printer → RatePath → Items
unfolding step_metadata
steps_metadata print [] = nil
steps_metadata print (step ∷ steps) =
    cons (object (step_metadata print step)) (steps_metadata print steps)

-- `max_tier` and `max_proximity_seconds`, of a path that has a step.
unfoldable pub max_tier : RatePath → RateTier
max_tier [] = RateTier.fresh
max_tier (step ∷ steps) = elim step.tier [
  | RateTier.closest ↦ RateTier.closest
  | RateTier.fresh ↦ max_tier steps
]

unfoldable pub max_proximity_seconds : RatePath → ℕ
max_proximity_seconds [] = 0
max_proximity_seconds (step ∷ steps) =
    let rest = max_proximity_seconds steps in
    if ltb rest step.proximity_seconds then step.proximity_seconds else rest

-- `sorted({…})` of the sides: each that occurs, once, in the order of their names.
sides_of : RatePath → List String → Items
unfolding side_value
sides_of path [] = nil
sides_of path (name ∷ names) =
    let rest = sides_of path names in
    if any (λ step. str_eq (side_value step.rate_side) name) path
    then cons (text name) rest
    else rest

-- `_path_metadata`
unfoldable pub path_metadata : Printer → RatePath → Result Fields
unfolding steps_metadata max_tier max_proximity_seconds sides_of tier_name
path_metadata print path = do
  effective_rate ← apply_path path (of_int 1)
  ok (
      field "path" (array (steps_metadata print path)) (
        field "effective_rate" (text (print.decimal_text effective_rate)) (
          field "hops" (number (length path)) (
            field "quality" (text (tier_name (max_tier path))) (
              field "max_proximity_seconds" (number (max_proximity_seconds path))
                (field "sides" (array (sides_of path ("buy" ∷ "mid" ∷ "sell" ∷ []))) end))))))

-- The amount in one display currency, None where no path is found, with its rate metadata.
abbrev pub Converted : Type 0
Converted = Option ℕ × Option Fields

unfoldable pub convert_to :
    Printer
    → List CurrencyRate
    → NormalizedTransaction
    → String
    → List SourceConfig
    → String
    → Result Converted
unfolding ordered_pivots path_metadata
convert_to print rates event account_currency chain target =
    if str_eq account_currency target
    then ok (some event.amount_cents, none)
    else elim (resolve_path rates event.time account_currency target chain (ordered_pivots chain)) [
      | none ↦ ok (none, none)
      | some path ↦ do
        amount ← apply_path path (of_int event.amount_cents)
        cents ← quantize amount
        metadata ← path_metadata print path
        ok (some cents, some metadata)
    ]

-- `amounts` by currency, and `rate_metadata`, whose keys are those of the currencies with a path.
pub record ConversionResult : Type 0 where
  pub uah : Option ℕ
  pub usd : Option ℕ
  pub eur : Option ℕ
  pub rate_metadata : Fields

abbrev add_metadata : String → Option Fields → Fields → Fields
add_metadata target none fields = fields
add_metadata target (some metadata) fields = field target (object metadata) fields

-- `event.rate_source or event.source`
unfoldable pub entry_source : NormalizedTransaction → String
entry_source event = elim event.rate_source [
  | none ↦ event.source
  | some s ↦ if str_eq s "" then event.source else s
]

-- The loop over the display currencies, in their order.
unfoldable pub convert :
    Printer
    → List CurrencyRate
    → List RateSourceConfig
    → NormalizedTransaction
    → String
    → Result ConversionResult
unfolding entry_source convert_to
convert print rates configs event account_currency = do
  chain ← load_source_chain configs (entry_source event)
  in_uah ← convert_to print rates event account_currency chain "UAH"
  in_usd ← convert_to print rates event account_currency chain "USD"
  in_eur ← convert_to print rates event account_currency chain "EUR"
  ok (record {
    uah = in_uah.0;
    usd = in_usd.0;
    eur = in_eur.0;
    rate_metadata =
        add_metadata "uah" in_uah.1 (add_metadata "usd" in_usd.1 (add_metadata "eur" in_eur.1 end));
  })
