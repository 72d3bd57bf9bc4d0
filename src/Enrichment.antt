-- ===== src/Enrichment.antt =====
-- The enrichment of one event
-- (services/enrichment/src/grosh_enrichment/services/enrichment_orchestrator.py, and the insert of
-- services/enrichment/src/grosh_enrichment/repositories/transaction_repo.py). One run is one
-- database transaction: where it raises, the database stays as it was.
pub mod Gate
pub mod Parts
pub mod Redelivery
pub mod Outcome
pub mod Links
pub mod Consumer
mod Examples
use grosh.Prelude.{
  ℕ, String, Bool, true, false, Option, none, some, List, [], ◌∷◌, ◌++◌, if◌then◌else◌, str_eq,
  is_some, any, ◌&&◌, ◌==◌,
}
use grosh.Domain.{
  NormalizedTransaction, Transaction, TransactionOrigin, SpecialCategory, Fields, end, field,
  object, get, put, Result, ok, raise, value_error, unique_violation, ◌>>=◌,
}
use grosh.Accounts.{get_by_id}
use grosh.Database.{Database}
use grosh.Rates.Display.{Printer, ConversionResult, convert}
use grosh.Transfer.Records.{AnomalyRecord}
use grosh.Transfer.Queries.{transaction_exists, record_anomaly}
use grosh.Transfer.Detector.{TransferResult, empty_result, detect_and_pair}

-- A detection strategy, and the mapping from a source to its strategy.
abbrev pub Strategy : Type 0
Strategy = Database → NormalizedTransaction → Result (TransferResult × Database)

abbrev pub Strategies : Type 0
Strategies = List (String × Strategy)

-- `.get(source)`
find_strategy : Strategies → String → Option Strategy
find_strategy [] source = none
find_strategy ((name, strategy) ∷ rest) source =
    if str_eq name source then some strategy else find_strategy rest source

-- The mapping that the service is built with (`main.py`).
abbrev pub transfer_strategies : (ℕ → Bool) → Strategies
transfer_strategies locked = ("monobank", detect_and_pair locked) ∷ []

unfoldable pub run_transfer_detection :
    Strategies → Database → NormalizedTransaction → Result (TransferResult × Database)
unfolding find_strategy
run_transfer_detection strategies db tx = elim (find_strategy strategies tx.source) [
  | none ↦ ok (empty_result, db)
  | some strategy ↦ strategy db tx
]

-- The loop of `_build_metadata`: a namespace may be claimed once.
pub merge_layers : Fields → List (String × Fields) → Result Fields
unfolding get put
merge_layers layer [] = ok layer
merge_layers layer ((namespace, payload) ∷ contributions) =
    let rest = merge_layers (put namespace (object payload) layer) contributions in
    if is_some (get namespace layer) then raise value_error else rest

unfoldable pub build_metadata : Option Fields → List (String × Fields) → Result (Option Fields)
unfolding merge_layers put
build_metadata source_metadata [] = ok source_metadata
build_metadata source_metadata (contribution ∷ contributions) = do
  layer ← merge_layers end (contribution ∷ contributions)
  let result : Fields = elim source_metadata [ none ↦ end | some fields ↦ fields ]
  ok (some (put "layer" (object layer) result))

-- A dict is truthy where it has a key.
abbrev truthy : Fields → Bool
truthy end = false
truthy (field k v rest) = true

abbrev pub stored_metadata : Option Fields → Option Fields
stored_metadata none = none
stored_metadata (some fields) = if truthy fields then some fields else none

origin_of : String → TransactionOrigin
origin_of source =
    if str_eq source "manual" then TransactionOrigin.manual else TransactionOrigin.bank

unfoldable pub inserted_row :
    NormalizedTransaction
    → String
    → Option SpecialCategory
    → ConversionResult
    → Option Fields
    → Option ℕ
    → Transaction
unfolding origin_of
inserted_row tx account_currency special_category converted metadata related_transaction_id =
    record {
      id = tx.id;
      source_id = tx.source_id;
      user_id = tx.user_id;
      account_id = tx.account_id;
      time = tx.time;
      amount_cents = tx.amount_cents;
      operation_amount_cents = tx.operation_amount_cents;
      currency_code = account_currency;
      operation_currency_code = some tx.operation_currency_code;
      amount_uah_cents = converted.uah;
      amount_usd_cents = converted.usd;
      amount_eur_cents = converted.eur;
      description = tx.description;
      mcc = tx.mcc;
      cashback_amount_cents = some tx.cashback_amount_cents;
      balance_cents = tx.balance_cents;
      hold = tx.hold;
      direction = tx.direction;
      special_category = special_category;
      counterparty_iban = tx.counterparty_iban;
      rate_source = tx.rate_source;
      metadata = stored_metadata metadata;
      source = tx.source;
      origin = origin_of tx.source;
      related_transaction_id = related_transaction_id;
    }

-- The unique index `idx_transactions_dedup` on (account_id, source_id).
abbrev is_duplicate : Transaction → Transaction → Bool
is_duplicate row other = other.account_id == row.account_id && str_eq other.source_id row.source_id

-- `INSERT … ON CONFLICT (id) DO NOTHING`: a row that is stored is left alone, another row of the
-- same account and source id is an error.
unfoldable pub insert : List Transaction → Transaction → Result (List Transaction)
insert rows row =
    if transaction_exists rows row.id
    then ok rows
    else (if any (is_duplicate row) rows then raise unique_violation else ok (rows ++ row ∷ []))

unfoldable pub record_anomalies : List AnomalyRecord → List AnomalyRecord → List AnomalyRecord
record_anomalies rows [] = rows
record_anomalies rows (anomaly ∷ anomalies) =
    record_anomalies (record_anomaly rows anomaly) anomalies

unfoldable pub layer_contributions : Fields → Option Fields → List (String × Fields)
layer_contributions rate_metadata metadata_block =
    (if truthy rate_metadata then ("rate", rate_metadata) ∷ [] else [])
    ++ elim metadata_block [ none ↦ [] | some block ↦ ("transfer", block) ∷ [] ]

-- The insert of the row and of the anomalies, on the database that the detection left.
unfoldable pub persist : Database → Transaction → List AnomalyRecord → Result Database
unfolding insert record_anomalies
persist db row anomalies = do
  transactions ← insert db.transactions row
  ok (record db {
    transactions = transactions;
    anomalies = record_anomalies db.anomalies anomalies;
  })

unfoldable pub run : Printer → Strategies → Database → NormalizedTransaction → Result Database
run print strategies db tx = do
  account ← get_by_id db.accounts tx.account_id
  (transfer_result, db') ← run_transfer_detection strategies db tx
  conversion ← convert print db'.currency_rates db'.rate_source_config tx account.currency_code
  metadata ←
      build_metadata tx.metadata
        (layer_contributions conversion.rate_metadata transfer_result.metadata_block)
  persist db'
      (inserted_row tx account.currency_code transfer_result.special_category conversion metadata
        transfer_result.related_transaction_id)
      transfer_result.anomalies
