-- ===== src/Reprocess/Examples.antt =====
-- A job whose events the broker does not take, and one whose pipeline stores nothing.
use grosh.Prelude.{true, false, none, some, [], ◌∷◌, ◌≡◌, refl, map}
use grosh.Domain.{TransactionDirection, TransactionOrigin, Transaction, pos}
use grosh.Transfer.Queries.{transaction_exists}
use grosh.Reprocess.{
  World, Store, restored, reprocess_user, replay, recover, restore_from_backup, insert_all,
  lock_exists, user_rows, snapshot_transactions, delete_user_transactions,
}
use grosh.Reprocess.Recovery.{IsBack, is_settled, reprocess_user-IsBack}

abbrev deaf : World
deaf = record {
  is_published = λ events. false;
  stored_on_failure = λ rows. rows;
  stored_by_poll = λ k rows. rows;
}

abbrev row : Transaction
row = record {
  id = 10;
  source_id = "m10";
  user_id = 7;
  account_id = 1;
  time = 0;
  amount_cents = 500;
  operation_amount_cents = none;
  currency_code = "UAH";
  operation_currency_code = some "UAH";
  amount_uah_cents = some 500;
  amount_usd_cents = none;
  amount_eur_cents = none;
  description = none;
  mcc = none;
  cashback_amount_cents = some (pos 0);
  balance_cents = none;
  hold = some false;
  direction = TransactionDirection.expense;
  special_category = none;
  counterparty_iban = none;
  rate_source = none;
  metadata = none;
  source = "monobank";
  origin = TransactionOrigin.bank;
  related_transaction_id = none;
}

abbrev start : Store
start = record {
  transactions = row ∷ [];
  anomalies = [];
  locks = 7 ∷ [];
  backups = [];
  notified = [];
}

ends_restored : (reprocess_user deaf start 7).0 ≡ restored
unfolding reprocess_user replay recover restore_from_backup insert_all lock_exists user_rows
    snapshot_transactions delete_user_transactions transaction_exists
ends_restored = refl

settles : is_settled (reprocess_user deaf start 7).0 ≡ true
unfolding reprocess_user replay recover restore_from_backup insert_all lock_exists user_rows
    snapshot_transactions delete_user_transactions transaction_exists
settles = refl

reprocess_user-IsBack_example :
    IsBack (reprocess_user deaf start 7).1 7 (map (λ r. r.id) (user_rows start 7))
reprocess_user-IsBack_example = reprocess_user-IsBack deaf start 7 settles
