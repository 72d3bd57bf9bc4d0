-- ===== src/Rates/Table.antt =====
-- The tables `currency_rates` and `rate_source_config`
-- (shared/migrations/versions/0004_transaction_pipeline.py, 0005_rate_source_config.py).
use grosh.Prelude.{ℕ, String, Option, List}
use grosh.Decimal.{Decimal}

pub record CurrencyRate : Type 0 where
  pub id : ℕ
  pub source : String
  pub currency_from : String
  pub currency_to : String
  pub rate_buy : Option Decimal
  pub rate_sell : Option Decimal
  pub rate_mid : Decimal
  pub valid_from : ℕ
  pub valid_to : Option ℕ
  pub last_polled_at : Option ℕ
  pub update_cadence_seconds : Option ℕ

pub record RateSourceConfig : Type 0 where
  pub source : String
  pub fallback_source : Option String
  pub base_currencies : List String
