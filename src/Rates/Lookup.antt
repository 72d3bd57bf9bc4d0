-- ===== src/Rates/Lookup.antt =====
-- Reading rates (services/enrichment/src/grosh_enrichment/repositories/currency_rate_repo.py). Instants
-- are microseconds since the epoch.
pub mod Selection
pub mod Chain
use grosh.Prelude.{
  ℕ, zero, suc, ◌+◌, ◌-◌, ◌*◌, ◌/◌, String, Bool, true, false, ◌&&◌, ◌||◌, not, Option, none, some,
  List, [], ◌∷◌, if◌then◌else◌, ◌==◌, ltb, leb, is_some, str_eq, any, map,
}
use grosh.Domain.{Result, ok, raise, rate_source_chain}
use grosh.Decimal.{Decimal}
use grosh.Rates.Table.{CurrencyRate, RateSourceConfig}

pub record RateRow : Type 0 where
  pub id : ℕ
  pub source : String
  pub rate_mid : Decimal
  pub rate_buy : Option Decimal
  pub rate_sell : Option Decimal
  pub last_polled_at : Option ℕ
  pub update_cadence_seconds : Option ℕ
  pub valid_from : Option ℕ
  pub valid_to : Option ℕ
  pub proximity_seconds : Option ℕ

pub record SourceConfig : Type 0 where
  pub source : String
  pub base_currencies : List String

abbrev pub second : ℕ
second = 1_000_000

-- `_MAX_CLOSEST_RATE_AGE`
abbrev pub max_closest_rate_age : ℕ
max_closest_rate_age = 604_800_000_000

-- `_MAX_CHAIN_DEPTH`
abbrev pub max_chain_depth : ℕ
max_chain_depth = 10

abbrev pub row_of : CurrencyRate → Option ℕ → RateRow
row_of row proximity_seconds = record {
  id = row.id;
  source = row.source;
  rate_mid = row.rate_mid;
  rate_buy = row.rate_buy;
  rate_sell = row.rate_sell;
  last_polled_at = row.last_polled_at;
  update_cadence_seconds = row.update_cadence_seconds;
  valid_from = some row.valid_from;
  valid_to = row.valid_to;
  proximity_seconds = proximity_seconds;
}

-- `valid_to IS NULL OR valid_to > at_time`
abbrev pub open_after : Option ℕ → ℕ → Bool
open_after none at_time = true
open_after (some valid_to) at_time = ltb at_time valid_to

-- `last_polled_at + (update_cadence_seconds * tolerance) * INTERVAL '1 second' >= at_time`, where
-- neither is NULL
abbrev pub polled_until : Option ℕ → Option ℕ → ℕ → ℕ → Bool
polled_until (some polled) (some cadence) tolerance at_time =
    leb at_time (polled + cadence * tolerance * second)
polled_until _ _ tolerance at_time = false

abbrev pub is_pair : CurrencyRate → String → String → Bool
is_pair row currency_from currency_to =
    str_eq row.currency_from currency_from && str_eq row.currency_to currency_to

-- The WHERE clause of `find_fresh_rate`.
unfoldable pub is_fresh : String → String → String → ℕ → ℕ → CurrencyRate → Bool
is_fresh source currency_from currency_to at_time poll_tolerance row =
    str_eq row.source source
    && is_pair row currency_from currency_to
    && leb row.valid_from at_time
    && open_after row.valid_to at_time
    && polled_until row.last_polled_at row.update_cadence_seconds poll_tolerance at_time

-- `ORDER BY … LIMIT 1` over the rows that pass a test: the row that no other row comes before.
unfoldable pub first_by :
    (CurrencyRate → Bool)
    → (CurrencyRate → CurrencyRate → Bool)
    → List CurrencyRate
    → Option CurrencyRate
first_by keep before [] = none
first_by keep before (row ∷ rows) =
    let rest = first_by keep before rows in
    if keep row
    then elim rest [ none ↦ some row | some best ↦ if before best row then some best else some row ]
    else rest

unfoldable pub find_fresh_rate :
    List CurrencyRate → String → String → String → ℕ → ℕ → Option RateRow
unfolding is_fresh first_by
find_fresh_rate rates source currency_from currency_to at_time poll_tolerance =
    elim (first_by (is_fresh source currency_from currency_to at_time poll_tolerance)
      (λ a b. ltb b.valid_from a.valid_from) rates) [
        | none ↦ none
        | some row ↦ some (row_of row none)
      ]

-- The CASE expression `proximity`; one of the two truncated differences is 0.
unfoldable pub proximity : ℕ → CurrencyRate → ℕ
proximity at_time row = elim row.last_polled_at [
  | some polled ↦
      if leb row.valid_from at_time && leb at_time polled
      then 0
      else (if ltb polled at_time then at_time - polled else row.valid_from - at_time)
  | none ↦ (row.valid_from - at_time) + (at_time - row.valid_from)
]

-- `array_position(sources, source)`, from 0; the length where it is absent
array_position : List String → String → ℕ
array_position [] source = 0
array_position (s ∷ sources) source =
    if str_eq s source then 0 else suc (array_position sources source)

abbrev lex : ℕ → ℕ → Bool → Bool
lex a b rest = if ltb a b then true else (if ltb b a then false else rest)

abbrev null_rank : Option ℕ → ℕ
null_rank none = 1
null_rank (some _) = 0

-- The ORDER BY of `find_closest_rate`: proximity, chain order, polled rows first, id.
unfoldable pub is_closer : ℕ → List String → CurrencyRate → CurrencyRate → Bool
unfolding proximity array_position
is_closer at_time sources a b = lex (proximity at_time a) (proximity at_time b) (
    lex (array_position sources a.source) (array_position sources b.source)
      (lex (null_rank a.last_polled_at) (null_rank b.last_polled_at) (ltb a.id b.id)))

unfoldable pub is_eligible : String → String → ℕ → List String → CurrencyRate → Bool
unfolding proximity
is_eligible currency_from currency_to at_time sources row =
    is_pair row currency_from currency_to
    && any (λ s. str_eq s row.source) sources
    && leb (proximity at_time row) max_closest_rate_age

-- `EXTRACT(EPOCH FROM proximity)::BIGINT` rounds to the nearest second.
unfoldable pub to_seconds : ℕ → ℕ
to_seconds p = (p + second / 2) / second

unfoldable pub find_closest_rate :
    List CurrencyRate → String → String → ℕ → List String → Option RateRow
unfolding first_by is_eligible is_closer to_seconds
find_closest_rate rates currency_from currency_to at_time sources =
    elim (first_by (is_eligible currency_from currency_to at_time sources)
      (is_closer at_time sources) rates) [
        | none ↦ none
        | some row ↦ some (row_of row (some (to_seconds (proximity at_time row))))
      ]

-- `source` is the table's primary key, so a source has at most one row.
unfoldable pub find_config : List RateSourceConfig → String → Option RateSourceConfig
find_config [] source = none
find_config (c ∷ configs) source =
    if str_eq c.source source then some c else find_config configs source

-- The recursive query: the row of the source, then that of its fallback, down to a depth.
unfoldable pub walk : List RateSourceConfig → ℕ → String → List RateSourceConfig
unfolding find_config
walk configs zero source = []
walk configs (suc depth) source = elim (find_config configs source) [
  | none ↦ []
  | some c ↦ elim c.fallback_source [ none ↦ c ∷ [] | some next ↦ c ∷ walk configs depth next ]
]

-- `rows[-1]["depth"] == cap and rows[-1]["fallback_source"] is not None`
unfoldable pub is_cut_off : ℕ → List RateSourceConfig → Bool
is_cut_off cap [] = false
is_cut_off cap (c ∷ []) = cap == 1 && is_some c.fallback_source
is_cut_off cap (c ∷ d ∷ rows) = is_cut_off (cap - 1) (d ∷ rows)

abbrev pub to_source_config : RateSourceConfig → SourceConfig
to_source_config row = record { source = row.source; base_currencies = row.base_currencies }

unfoldable pub load_source_chain : List RateSourceConfig → String → Result (List SourceConfig)
unfolding walk is_cut_off
load_source_chain configs entry_source =
    let rows = walk configs max_chain_depth entry_source in
    if is_cut_off max_chain_depth rows
    then raise rate_source_chain
    else ok (map to_source_config rows)
