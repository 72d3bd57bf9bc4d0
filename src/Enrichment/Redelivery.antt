-- ===== src/Enrichment/Redelivery.antt =====
-- An event that is delivered twice.
use grosh.Prelude.{ℕ, Bool, true, Option, none, [], ◌≡◌, refl, subst}
use grosh.Domain.{NormalizedTransaction, Transaction, Fields, end, field, ok}
use grosh.Accounts.{AccountProps, get_by_id}
use grosh.Database.{Database}
use grosh.Rates.Display.{Printer, ConversionResult, convert}
use grosh.Transfer.Queries.{transaction_exists}
use grosh.Enrichment.{
  transfer_strategies, build_metadata, layer_contributions, inserted_row, persist, record_anomalies,
  run,
}
use grosh.Enrichment.Parts.{
  run-parts, detection-known, detection-IsOutcome, exists_insert, insert_known, persist-parts,
}

metadata_built :
    (source rate : Option Fields) (r : Fields)
    → (metadata : Option Fields) × (build_metadata source (layer_contributions r none)
        ≡ ok metadata)
unfolding build_metadata layer_contributions
metadata_built source rate end = (_, refl)
metadata_built source rate (field k v rest) = (_, refl)

pub persist_known :
    (db : Database) (row : Transaction)
    → transaction_exists db.transactions row.id ≡ true
    → persist db row [] ≡ ok db
unfolding persist record_anomalies
persist_known db row h = rw (insert_known db.transactions row h) refl

-- A run again that finds the event stored, and the account and the rates as they were.
run_known :
    (print : Printer) (locked : ℕ → Bool) (db : Database) (tx : NormalizedTransaction)
    {account : AccountProps} {conversion : ConversionResult}
    → get_by_id db.accounts tx.account_id ≡ ok account
    → convert print db.currency_rates db.rate_source_config tx account.currency_code ≡ ok conversion
    → transaction_exists db.transactions tx.id ≡ true
    → run print (transfer_strategies locked) db tx ≡ ok db
unfolding run inserted_row
run_known print locked db tx {account} {conversion} a c h =
    let (metadata, built) = metadata_built tx.metadata none conversion.rate_metadata in
    rw (a, detection-known locked db tx h, c, built)
      (persist_known db (inserted_row tx account.currency_code none conversion metadata none) h)

-- After a run that succeeds the event is stored. A run of the same event on what it left succeeds
-- and changes nothing, whichever rows other transactions hold locked at each time.
pub run-redelivered :
    (print : Printer) (locked locked' : ℕ → Bool) (db : Database) (tx : NormalizedTransaction)
    {db' : Database}
    → run print (transfer_strategies locked) db tx ≡ ok db'
    → (transaction_exists db'.transactions tx.id ≡ true)
      × (run print (transfer_strategies locked') db' tx ≡ ok db')
unfolding inserted_row
run-redelivered print locked locked' db tx h =
    let (account, res, db₁, conversion, metadata, a, d, c, e) =
      run-parts print (transfer_strategies locked) db tx h in
    let (kept, _) = detection-IsOutcome locked db tx d in
    let row =
      inserted_row tx account.currency_code res.special_category conversion metadata
        res.related_transaction_id in
    let (rows, inserted, whole) = persist-parts db₁ row res.anomalies e in
    let stored = exists_insert db₁.transactions row inserted in
    let found : get_by_id db₁.accounts tx.account_id ≡ ok account = rw kept.accounts a in
    subst
      (λ db'.
        (transaction_exists db'.transactions tx.id ≡ true)
        × (run print (transfer_strategies locked') db' tx ≡ ok db'))
      whole
      (
        stored,
        run_known print locked' _ tx {account = account} {conversion = conversion} found c stored,
      )
