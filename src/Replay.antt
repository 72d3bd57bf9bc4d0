-- ===== src/Replay.antt =====
-- Reading stored transactions back as events
-- (services/normalization/src/grosh_normalization/repositories/transaction_read_repo.py, and
-- `TransactionRow` of shared/src/grosh_shared/domain/normalized.py).
pub mod Order
pub mod Source
mod Examples
use grosh.Prelude.{
  ℕ, String, Bool, true, false, ◌&&◌, ◌||◌, Option, none, some, List, [], ◌∷◌, map, filter,
  if◌then◌else◌, ◌==◌, ltb,
}
use grosh.Domain.{
  ℤ, pos, TransactionDirection, NormalizedTransaction, Transaction, Json, Fields, object, end,
  field, get,
}

pub record TransactionRow : Type 0 where
  pub id : ℕ
  pub source : String
  pub source_id : String
  pub user_id : ℕ
  pub account_id : ℕ
  pub time : ℕ
  pub amount_cents : ℕ
  pub operation_amount_cents : Option ℕ
  pub operation_currency_code : Option String
  pub description : Option String
  pub mcc : Option String
  pub cashback_amount_cents : ℤ
  pub balance_cents : Option ℤ
  pub hold : Option Bool
  pub direction : TransactionDirection
  pub counterparty_iban : Option String
  pub rate_source : Option String
  pub metadata : Option Fields

-- `row["cashback_amount_cents"] or 0`
abbrev or_zero : Option ℤ → ℤ
or_zero none = pos 0
or_zero (some n) = n

unfoldable pub read_row : Transaction → TransactionRow
read_row row = record {
  id = row.id;
  source = row.source;
  source_id = row.source_id;
  user_id = row.user_id;
  account_id = row.account_id;
  time = row.time;
  amount_cents = row.amount_cents;
  operation_amount_cents = row.operation_amount_cents;
  operation_currency_code = row.operation_currency_code;
  description = row.description;
  mcc = row.mcc;
  cashback_amount_cents = or_zero row.cashback_amount_cents;
  balance_cents = row.balance_cents;
  hold = row.hold;
  direction = row.direction;
  counterparty_iban = row.counterparty_iban;
  rate_source = row.rate_source;
  metadata = row.metadata;
}

-- `ORDER BY time, id`
abbrev pub is_before : Transaction → Transaction → Bool
is_before a b =
    if ltb a.time b.time then true else (if ltb b.time a.time then false else ltb a.id b.id)

unfoldable pub place : Transaction → List Transaction → List Transaction
place row [] = row ∷ []
place row (r ∷ rows) =
    let rest = place row rows in if is_before r row then r ∷ rest else row ∷ r ∷ rows

unfoldable pub sort_rows : List Transaction → List Transaction
unfolding place
sort_rows [] = []
sort_rows (row ∷ rows) = place row (sort_rows rows)

unfoldable pub select_for_user : List Transaction → ℕ → List TransactionRow
unfolding read_row sort_rows
select_for_user rows user_id =
    map read_row (sort_rows (filter (λ row. row.user_id == user_id) rows))

-- `(metadata or {}).get("source", {})`
unfoldable pub source_of : Option Fields → Json
unfolding get
source_of none = object end
source_of (some fields) = elim (get "source" fields) [ none ↦ object end | some value ↦ value ]

-- `operation_currency_code or ""`
abbrev or_empty : Option String → String
or_empty none = ""
or_empty (some code) = code

unfoldable pub to_normalized : TransactionRow → NormalizedTransaction
unfolding source_of
to_normalized row = record {
  id = row.id;
  source = row.source;
  source_id = row.source_id;
  user_id = row.user_id;
  account_id = row.account_id;
  time = row.time;
  amount_cents = row.amount_cents;
  operation_amount_cents = row.operation_amount_cents;
  operation_currency_code = or_empty row.operation_currency_code;
  description = row.description;
  mcc = row.mcc;
  cashback_amount_cents = row.cashback_amount_cents;
  balance_cents = row.balance_cents;
  hold = row.hold;
  direction = row.direction;
  counterparty_iban = row.counterparty_iban;
  rate_source = row.rate_source;
  metadata = some (field "source" (source_of row.metadata) end);
}
