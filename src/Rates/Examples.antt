-- ===== src/Rates/Examples.antt =====
-- Concrete rates: lookups, a path and the upserts.
use grosh.Prelude.{
  ℕ, ◌≤◌, Option, none, some, List, [], ◌∷◌, ◌≡◌, refl, arith, filter, map, length, ◌+◌,
}
use grosh.Domain.{pos, negsuc, ok}
use grosh.Decimal.{of_int, div, quantize}
use grosh.Rates.Table.{CurrencyRate, RateSourceConfig}
use grosh.Rates.Lookup.{
  RateRow, SourceConfig, find_fresh_rate, find_closest_rate, walk, load_source_chain,
  to_source_config,
}
use grosh.Rates.Lookup.Selection.{
  IsLatest, find_fresh_rate-IsLatest, IsNearest, find_closest_rate-IsNearest,
}
use grosh.Rates.Lookup.Chain.{load_source_chain-whole}
use grosh.Rates.Convert.{RatePath, resolve_path, at_tier, resolve_leg, via_pivots, two_hops}
use grosh.Rates.Convert.Routes.{IsResolved, resolve_path-IsResolved}
use grosh.Rates.Ingest.{
  NormalizedRate, is_historical, is_open_polled, upsert_polled, upsert_historical,
}
use grosh.Rates.Ingest.Updates.{count, IsUnique}
use grosh.Rates.Ingest.Timeline.{IsTimeline}
use grosh.Rates.Ingest.Timeline.Upsert.{upsert_historical-IsTimeline}
use grosh.Rates.Ingest.Polled.{upsert_polled_lem}

third :
    div (of_int 1) (of_int 3)
    ≡ ok (record { coeff = 3333333333333333333333333333; exp = negsuc 27 })
unfolding div
third = refl

exact : div (of_int 1) (of_int 8) ≡ ok (record { coeff = 125; exp = negsuc 2 })
unfolding div
exact = refl

abbrev dollar : ℕ → ℕ → Option ℕ → Option ℕ → CurrencyRate
dollar i from to polled = record {
  id = i;
  source = "nbu";
  currency_from = "USD";
  currency_to = "UAH";
  rate_buy = none;
  rate_sell = none;
  rate_mid = record { coeff = 41_50000000; exp = negsuc 7 };
  valid_from = from;
  valid_to = to;
  last_polled_at = polled;
  update_cadence_seconds = none;
}

abbrev observed : ℕ → NormalizedRate
observed t = record {
  source = "nbu";
  currency_from = "USD";
  currency_to = "UAH";
  rate_buy = none;
  rate_sell = none;
  rate_mid = record { coeff = 42; exp = pos 0 };
  at_time = t;
}

-- A history of one row, and an observation before its start.
abbrev history : List CurrencyRate
history = dollar 1 100 none none ∷ []

history-IsTimeline : IsTimeline (observed 50) history
history-IsTimeline = record {
  unique = (tt, tt);
  nonempty = (λ h. refl, tt);
  one = λ t h. ground arith;
}

upsert_historical-IsTimeline_example :
    (rates' : List CurrencyRate) × (upsert_historical history 2 (observed 50) ≡ ok rates')
    × IsTimeline (observed 50) rates'
upsert_historical-IsTimeline_example =
    upsert_historical-IsTimeline (observed 50) history history-IsTimeline 2 ((λ e. omega arith), tt)

-- A polled row that is open, beside a historical one.
abbrev polled : List CurrencyRate
polled = dollar 1 100 none none ∷ dollar 2 100 none (some 200) ∷ []

polled-IsUnique : IsUnique polled
polled-IsUnique = (((λ e. omega arith), tt), (tt, tt))

upsert_polled_lem_example :
    (count (is_open_polled (observed 300)) (upsert_polled polled 3 (observed 300) 60) ≡ 1)
    × ((q : NormalizedRate)
        → filter (is_historical q) (upsert_polled polled 3 (observed 300) 60)
          ≡ filter (is_historical q) polled)
upsert_polled_lem_example =
    upsert_polled_lem (observed 300) polled 3 60 polled-IsUnique (omega arith)

abbrev nearest : RateRow
nearest = record {
  id = 1;
  source = "nbu";
  rate_buy = none;
  rate_sell = none;
  rate_mid = record { coeff = 41_50000000; exp = negsuc 7 };
  valid_from = some 100;
  valid_to = none;
  last_polled_at = none;
  update_cadence_seconds = none;
  proximity_seconds = some 0;
}

nearest_found : find_closest_rate history "USD" "UAH" 50 ("nbu" ∷ []) ≡ some nearest
unfolding find_closest_rate
nearest_found = refl

find_closest_rate-IsNearest_example :
    IsNearest history "USD" "UAH" 50
      ("nbu" ∷ [])
      (find_closest_rate history "USD" "UAH" 50 ("nbu" ∷ []))
find_closest_rate-IsNearest_example =
    find_closest_rate-IsNearest history "USD" "UAH" 50 ("nbu" ∷ [])

abbrev fresh_row : CurrencyRate
fresh_row = record (dollar 2 100 none (some 200)) { update_cadence_seconds = some 60 }

abbrev fresh_found : RateRow
fresh_found = record {
  id = 2;
  source = "nbu";
  rate_buy = none;
  rate_sell = none;
  rate_mid = record { coeff = 41_50000000; exp = negsuc 7 };
  valid_from = some 100;
  valid_to = none;
  last_polled_at = some 200;
  update_cadence_seconds = some 60;
  proximity_seconds = none;
}

fresh_rate :
    find_fresh_rate (dollar 1 100 none none ∷ fresh_row ∷ []) "nbu" "USD" "UAH" 150 2
    ≡ some fresh_found
unfolding find_fresh_rate
fresh_rate = refl

find_fresh_rate-IsLatest_example :
    IsLatest
      (dollar 1 100 none none ∷ fresh_row ∷ [])
      "nbu"
      "USD"
      "UAH"
      150
      2
      (find_fresh_rate (dollar 1 100 none none ∷ fresh_row ∷ []) "nbu" "USD" "UAH" 150 2)
find_fresh_rate-IsLatest_example =
    find_fresh_rate-IsLatest (dollar 1 100 none none ∷ fresh_row ∷ []) "nbu" "USD" "UAH" 150 2

abbrev configs : List RateSourceConfig
configs =
    record { source = "monobank"; fallback_source = some "nbu"; base_currencies = "UAH" ∷ [] }
    ∷ record { source = "nbu"; fallback_source = none; base_currencies = "UAH" ∷ [] }
    ∷ []

abbrev chain : List SourceConfig
chain = map to_source_config (walk configs 10 "monobank")

chain_loaded : load_source_chain configs "monobank" ≡ ok chain
unfolding load_source_chain
chain_loaded = refl

load_source_chain-whole_example :
    (length chain ≤ 10)
    × ((more : ℕ) → map to_source_config (walk configs (10 + more) "monobank") ≡ chain)
load_source_chain-whole_example =
    load_source_chain-whole configs "monobank" {chain = chain} chain_loaded

abbrev path_or : RatePath → Option RatePath → RatePath
path_or other none = other
path_or other (some path) = path

abbrev path : RatePath
path = path_or [] (resolve_path history 50 "USD" "UAH" chain ("UAH" ∷ []))

path_resolved : resolve_path history 50 "USD" "UAH" chain ("UAH" ∷ []) ≡ some path
unfolding resolve_path at_tier resolve_leg via_pivots two_hops load_source_chain find_closest_rate
    find_fresh_rate
path_resolved = refl

resolve_path-IsResolved_example :
    IsResolved history 50 "USD" "UAH" chain
      ("UAH" ∷ [])
      (resolve_path history 50 "USD" "UAH" chain ("UAH" ∷ []))
resolve_path-IsResolved_example = resolve_path-IsResolved history 50 "USD" "UAH" chain ("UAH" ∷ [])

no_path : resolve_path history 50 "USD" "EUR" chain ("UAH" ∷ []) ≡ none
unfolding resolve_path at_tier resolve_leg via_pivots two_hops load_source_chain find_closest_rate
    find_fresh_rate
no_path = refl

half_up : quantize (record { coeff = 125; exp = negsuc 0 }) ≡ ok 13
unfolding quantize
half_up = refl
