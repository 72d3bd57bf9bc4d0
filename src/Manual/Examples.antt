-- ===== src/Manual/Examples.antt =====
-- An entry with an idempotency key, to the one manual account of a user.
use grosh.Prelude.{ℕ, String, true, none, some, [], ◌∷◌, ◌≡◌, refl, Member}
use grosh.Domain.{TransactionDirection}
use grosh.Normalization.{ManualTransactionPayload, Outside, generate_transaction_id}
use grosh.Manual.{
  AccountRow, Store, Request, returned, raised, new_account, result_of, payload_of, envelope_of,
  create_transaction, create_account, account_already_exists, account_not_owned, get_by_id,
  get_default_rate_source, manual_name_exists,
}
use grosh.Manual.Published.{IsEntry, create_transaction-IsEntry}

abbrev ids : String → ℕ
ids text = 5

abbrev outside : Outside ManualTransactionPayload
outside = record {
  read_item = λ payload. none;
  read_manual = λ payload. some payload;
  uuid5 = ids;
  find_currency = λ code. none;
}

abbrev store : Store
store = record {
  accounts = new_account 3 1 "cash" "EUR" "Wallet" ∷ [];
  user_settings = (1, some "nbu") ∷ [];
  rate_source_config = "nbu" ∷ [];
  published = [];
}

abbrev request : Request
request = record {
  user_id = 1;
  account_id = 3;
  amount_cents = 250;
  currency_code = "EUR";
  description = none;
  time = 1_000_000;
  direction = TransactionDirection.expense;
  mcc = none;
  rate_source = none;
  idempotency_key = some "k";
}

abbrev stored : Store
stored = record store {
  published = envelope_of request (payload_of 5 "k" request (some "nbu")) ∷ [];
}

entered :
    create_transaction ids "random" true store request
    ≡ returned (result_of 5 "k" request (some "nbu"), stored)
unfolding create_transaction get_by_id get_default_rate_source generate_transaction_id
entered = refl

not_owned :
    create_transaction ids "random" true store (record request { user_id = 2 })
    ≡ raised account_not_owned
unfolding create_transaction get_by_id
not_owned = refl

named_twice : create_account store 4 1 "cash" "EUR" "Wallet" ≡ raised account_already_exists
unfolding create_account manual_name_exists
named_twice = refl

create_transaction-IsEntry_example :
    (account : AccountRow) × Member account store.accounts
    × (account.source ≡ "manual")
    × IsEntry ids "random" outside store request account
        (result_of 5 "k" request (some "nbu"))
        stored
create_transaction-IsEntry_example =
    create_transaction-IsEntry ids "random" true outside (λ payload. refl) store request entered
