-- ===== src/Domain.antt =====
-- Shared domain types (shared/src/grosh_shared/domain/models.py and normalized.py), the stored rows
-- (shared/migrations/versions/0004_transaction_pipeline.py) and the errors that end an event.
-- UUIDs are only compared, so they are numbers; instants are microseconds since the epoch.
mod Values
mod Int
mod Errors
unfoldable pub use Values.*
unfoldable pub use Int.*
pub use Errors.*
use grosh.Prelude.{ℕ, String, Bool, true, false, Option, none, some, List}

pub data TransactionDirection : Type 0 where
  income expense zero : TransactionDirection

abbrev pub is_income : TransactionDirection → Bool
is_income TransactionDirection.income = true
is_income _ = false

abbrev pub is_expense : TransactionDirection → Bool
is_expense TransactionDirection.expense = true
is_expense _ = false

-- `amount_cents` is never negative, by the contract that the source states for the class.
pub record NormalizedTransaction : Type 0 where
  pub id : ℕ
  pub source : String
  pub source_id : String
  pub user_id : ℕ
  pub account_id : ℕ
  pub time : ℕ
  pub amount_cents : ℕ
  pub operation_amount_cents : Option ℕ
  pub operation_currency_code : String
  pub description : Option String
  pub mcc : Option String
  pub cashback_amount_cents : ℤ
  pub balance_cents : Option ℤ
  pub hold : Option Bool
  pub direction : TransactionDirection
  pub counterparty_iban : Option String
  pub rate_source : Option String
  pub metadata : Option Fields

pub data TransactionOrigin : Type 0 where
  bank manual : TransactionOrigin

pub data SpecialCategory : Type 0 where
  transfer : SpecialCategory

-- A row of the table `transactions`.
pub record Transaction : Type 0 where
  pub id : ℕ
  pub source_id : String
  pub user_id : ℕ
  pub account_id : ℕ
  pub time : ℕ
  pub amount_cents : ℕ
  pub operation_amount_cents : Option ℕ
  pub currency_code : String
  pub operation_currency_code : Option String
  pub amount_uah_cents : Option ℕ
  pub amount_usd_cents : Option ℕ
  pub amount_eur_cents : Option ℕ
  pub description : Option String
  pub mcc : Option String
  pub cashback_amount_cents : Option ℤ
  pub balance_cents : Option ℤ
  pub hold : Option Bool
  pub direction : TransactionDirection
  pub special_category : Option SpecialCategory
  pub counterparty_iban : Option String
  pub rate_source : Option String
  pub metadata : Option Fields
  pub source : String
  pub origin : TransactionOrigin
  pub related_transaction_id : Option ℕ

-- A row of `accounts`, with the columns that the enrichment service reads.
pub record Account : Type 0 where
  pub id : ℕ
  pub user_id : ℕ
  pub type : String
  pub currency_code : String
  pub iban : Option String
