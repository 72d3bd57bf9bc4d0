-- ===== src/Database.antt =====
-- The tables that the enrichment service reads and writes
-- (shared/migrations/versions/0004_transaction_pipeline.py).
use grosh.Prelude.{List}
use grosh.Domain.{Account, Transaction}
use grosh.Transfer.Records.{AnomalyRecord}
use grosh.Rates.Table.{CurrencyRate, RateSourceConfig}

pub record Database : Type 0 where
  pub accounts : List Account
  pub transactions : List Transaction
  pub anomalies : List AnomalyRecord
  pub currency_rates : List CurrencyRate
  pub rate_source_config : List RateSourceConfig
