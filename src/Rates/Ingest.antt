-- ===== src/Rates/Ingest.antt =====
-- The upkeep of the rates
-- (services/ingestion/src/grosh_ingestion/repositories/currency_rate_repo.py, and `ingest_rates` of
-- services/ingestion/src/grosh_ingestion/services/currency_rate_service.py). A new row's id is an
-- argument: the database makes it. A stored rate is rounded to the scale of NUMERIC(18,8).
pub mod Updates
pub mod Timeline
pub mod Polled
use grosh.Prelude.{
  ℕ, suc, ◌+◌, ◌-◌, ◌*◌, ◌^◌, String, Bool, true, false, ◌&&◌, not, Option, none, some, List, [],
  ◌∷◌, ◌++◌, if◌then◌else◌, ◌==◌, ltb, leb, is_some, str_eq, any,
}
use grosh.Domain.{ℤ, pos, negsuc, pos_part, neg_part, Result, ok, raise, runtime_error, ◌>>=◌}
use grosh.Decimal.{Decimal, round_half_up}
use grosh.Rates.Table.{CurrencyRate}
use grosh.Rates.Lookup.{first_by, open_after}

-- `NormalizedRate`: what a provider publishes of one pair.
pub record NormalizedRate : Type 0 where
  pub source : String
  pub currency_from : String
  pub currency_to : String
  pub rate_buy : Option Decimal
  pub rate_sell : Option Decimal
  pub rate_mid : Decimal
  pub at_time : ℕ

-- Python's `==` of decimals: the values are compared, whatever their exponents.
unfoldable pub decimal_eq : Decimal → Decimal → Bool
decimal_eq a b =
    a.coeff * 10 ^ (pos_part a.exp + neg_part b.exp)
    == b.coeff * 10 ^ (pos_part b.exp + neg_part a.exp)

abbrev opt_decimal_eq : Option Decimal → Option Decimal → Bool
opt_decimal_eq none none = true
opt_decimal_eq (some a) (some b) = decimal_eq a b
opt_decimal_eq _ _ = false

-- A value in a column NUMERIC(18,8): rounded half up to 8 decimals.
unfoldable pub to_numeric : Decimal → Decimal
to_numeric x = record {
  coeff = round_half_up (x.coeff * 10 ^ (pos_part x.exp + 8)) (10 ^ neg_part x.exp);
  exp = negsuc 7;
}

abbrev opt_numeric : Option Decimal → Option Decimal
opt_numeric none = none
opt_numeric (some x) = some (to_numeric x)

-- `_rates_equal`
unfoldable pub rates_equal : CurrencyRate → NormalizedRate → Bool
unfolding decimal_eq
rates_equal row r =
    opt_decimal_eq row.rate_buy r.rate_buy
    && opt_decimal_eq row.rate_sell r.rate_sell
    && decimal_eq row.rate_mid r.rate_mid

abbrev pub is_polled : CurrencyRate → Bool
is_polled row = is_some row.last_polled_at

-- The row is of the observation's source and pair.
abbrev pub is_key : NormalizedRate → CurrencyRate → Bool
is_key r row =
    str_eq row.source r.source
    && str_eq row.currency_from r.currency_from
    && str_eq row.currency_to r.currency_to

-- `UPDATE … WHERE id = $1`
unfoldable pub update_by_id :
    ℕ → (CurrencyRate → CurrencyRate) → List CurrencyRate → List CurrencyRate
update_by_id i f [] = []
update_by_id i f (row ∷ rows) = (if row.id == i then f row else row) ∷ update_by_id i f rows

-- `fetchrow` of a query without an order: the first row that passes.
unfoldable pub find_row : (CurrencyRate → Bool) → List CurrencyRate → Option CurrencyRate
find_row keep [] = none
find_row keep (row ∷ rows) = if keep row then some row else find_row keep rows

abbrev pub close_at : ℕ → CurrencyRate → CurrencyRate
close_at at_time row = record row { valid_to = some at_time }

-- `INSERT INTO currency_rates`
unfoldable pub new_row : ℕ → NormalizedRate → Option ℕ → Option ℕ → Option ℕ → CurrencyRate
unfolding to_numeric
new_row id r valid_to last_polled_at cadence = record {
  id = id;
  source = r.source;
  currency_from = r.currency_from;
  currency_to = r.currency_to;
  rate_buy = opt_numeric r.rate_buy;
  rate_sell = opt_numeric r.rate_sell;
  rate_mid = to_numeric r.rate_mid;
  valid_from = r.at_time;
  valid_to = valid_to;
  last_polled_at = last_polled_at;
  update_cadence_seconds = cadence;
}

abbrev pub is_open_polled : NormalizedRate → CurrencyRate → Bool
is_open_polled r row = is_key r row && is_polled row && not (is_some row.valid_to)

abbrev pub bump : ℕ → ℕ → CurrencyRate → CurrencyRate
bump at_time cadence row = record row {
  last_polled_at = some at_time;
  update_cadence_seconds = some cadence;
}

unfoldable pub upsert_polled : List CurrencyRate → ℕ → NormalizedRate → ℕ → List CurrencyRate
unfolding rates_equal new_row update_by_id find_row
upsert_polled rates fresh_id r cadence =
    let inserted = new_row fresh_id r none (some r.at_time) (some cadence) in
    elim (find_row (is_open_polled r) rates) [
      | none ↦ rates ++ inserted ∷ []
      | some current ↦
          if rates_equal current r
          then update_by_id current.id (bump r.at_time cadence) rates
          else update_by_id current.id (close_at r.at_time) rates ++ inserted ∷ []
    ]

abbrev pub is_historical : NormalizedRate → CurrencyRate → Bool
is_historical r row = is_key r row && not (is_polled row)

abbrev pub starts_at : NormalizedRate → CurrencyRate → Bool
starts_at r row = is_historical r row && row.valid_from == r.at_time

abbrev pub spans : NormalizedRate → CurrencyRate → Bool
spans r row =
    is_historical r row && ltb row.valid_from r.at_time && open_after row.valid_to r.at_time

abbrev pub starts_after : NormalizedRate → CurrencyRate → Bool
starts_after r row = is_historical r row && ltb r.at_time row.valid_from

-- Case 1: a row at the same instant is overwritten in place, unless its rates are the same.
abbrev overwrite : NormalizedRate → CurrencyRate → CurrencyRate
overwrite r row = record row {
  rate_buy = opt_numeric r.rate_buy;
  rate_sell = opt_numeric r.rate_sell;
  rate_mid = to_numeric r.rate_mid;
}

unfoldable pub replace_at : List CurrencyRate → NormalizedRate → CurrencyRate → List CurrencyRate
unfolding rates_equal to_numeric update_by_id
replace_at rates r existing =
    if rates_equal existing r then rates else update_by_id existing.id (overwrite r) rates

-- Case 2: the covering row is split.
unfoldable pub split_row : List CurrencyRate → ℕ → NormalizedRate → CurrencyRate → List CurrencyRate
unfolding new_row update_by_id
split_row rates fresh_id r covering =
    update_by_id covering.id (close_at r.at_time) rates
    ++ new_row fresh_id r covering.valid_to none none ∷ []

-- Case 3, and the first row of a history. `none` of the first query with rows that exist is the
-- source's RuntimeError.
unfoldable pub prepend : List CurrencyRate → ℕ → NormalizedRate → Result (List CurrencyRate)
unfolding new_row
prepend rates fresh_id r =
    elim (first_by (starts_after r) (λ a b. ltb a.valid_from b.valid_from) rates) [
      | some next ↦ ok (rates ++ new_row fresh_id r (some next.valid_from) none none ∷ [])
      | none ↦
          if any (is_historical r) rates
          then raise runtime_error
          else ok (rates ++ new_row fresh_id r none none none ∷ [])
    ]

unfoldable pub upsert_historical :
    List CurrencyRate → ℕ → NormalizedRate → Result (List CurrencyRate)
unfolding find_row replace_at split_row prepend
upsert_historical rates fresh_id r = elim (find_row (starts_at r) rates) [
  | some existing ↦ ok (replace_at rates r existing)
  | none ↦ elim (find_row (spans r) rates) [
    | some covering ↦ ok (split_row rates fresh_id r covering)
    | none ↦ prepend rates fresh_id r
  ]
]

pub data RateKind : Type 0 where
  polling historical : RateKind

-- `ingest_rates`: one upsert for each rate, in the list's order; each has an id ready for its row.
unfoldable pub ingest_rates :
    List CurrencyRate → List (ℕ × NormalizedRate) → RateKind → ℕ → Result (List CurrencyRate)
unfolding upsert_historical upsert_polled
ingest_rates rates [] kind interval_seconds = ok rates
ingest_rates rates ((fresh_id, r) ∷ rest) RateKind.historical interval_seconds = do
  rates' ← upsert_historical rates fresh_id r
  ingest_rates rates' rest RateKind.historical interval_seconds
ingest_rates rates ((fresh_id, r) ∷ rest) RateKind.polling interval_seconds =
    ingest_rates (upsert_polled rates fresh_id r interval_seconds) rest RateKind.polling
      interval_seconds
