-- ===== src/Enrichment/Consumer.antt =====
-- The loop over normalized events
-- (services/enrichment/src/grosh_enrichment/consumers/enrichment_consumer.py). The topic delivers each
-- message at least once: a message whose offset was not committed comes again after a restart. How a
-- message is read, which rows are locked, and what other services do to the accounts and the rates
-- are parameters.
pub mod ExactlyOnce
pub mod Settled
pub mod Rest
use grosh.Prelude.{
  ℕ, Bool, true, false, Option, none, some, List, [], ◌∷◌, ◌++◌, ◌≡◌, if◌then◌else◌,
}
use grosh.Domain.{
  NormalizedTransaction, Result, ok, raise, Error, account_not_found, key_error, rate_source_chain,
  value_error, division_by_zero, invalid_operation, runtime_error, reprocess_error,
  unique_violation,
}
use grosh.Database.{Database}
use grosh.Rates.Display.{Printer}
use grosh.Transfer.Queries.{transaction_exists}
use grosh.Enrichment.{transfer_strategies, run}

-- The message was handled and its offset is to be committed, or the process ends.
pub data Handled : Type 0 where
  committed : Database → Handled
  crashed : Error → Handled

-- `except AccountNotFoundError`
abbrev is_permanent : Error → Bool
is_permanent account_not_found = true
is_permanent _ = false

abbrev pub settle : Database → Result Database → Handled
settle db (ok db') = committed db'
settle db (raise e) = if is_permanent e then committed db else crashed e

module _ {M : Type 0} (print : Printer) (decode : M → Option NormalizedTransaction) where
  -- The body of the loop, after the poll; `locked` are the rows that other transactions hold.
  unfoldable pub handle_message : (ℕ → Bool) → Database → M → Handled
  handle_message locked db m = elim (decode m) [
    | none ↦ committed db
    | some tx ↦ settle db (run print (transfer_strategies locked) db tx)
  ]

-- The database, the messages that are still to be handled, those that were handled by this process
-- and have no committed offset yet, and those with one, each the oldest first.
pub record System (M : Type 0) : Type 0 where
  pub db : Database
  pub pending : List M
  pub handled : List M
  pub done : List M

module _ {M : Type 0} (print : Printer) (decode : M → Option NormalizedTransaction) where
  -- One step: the next message is handled, and the commit of its offset is asked for; a commit, which
  -- is not waited for, reaches the broker, and covers the messages before it; the process ends, by
  -- itself or at an error of a run, and what it has not committed is delivered again; a message
  -- arrives; or another service writes to the database, which leaves the transactions alone.
  pub data Step (s : System M) (s' : System M) : Type 0 where
    handles :
        (locked : ℕ → Bool) (m : M) (rest : List M) (db : Database)
        → s.pending ≡ m ∷ rest
        → handle_message print decode locked s.db m ≡ committed db
        → s' ≡ record s { db = db; pending = rest; handled = s.handled ++ m ∷ [] }
        → Step s s'
    commits :
        (covered rest : List M)
        → s.handled ≡ covered ++ rest
        → s' ≡ record s { handled = rest; done = s.done ++ covered }
        → Step s s'
    restarts : s' ≡ record s { pending = s.handled ++ s.pending; handled = [] } → Step s s'
    crashes :
        (locked : ℕ → Bool) (m : M) (rest : List M) (e : Error)
        → s.pending ≡ m ∷ rest
        → handle_message print decode locked s.db m ≡ crashed e
        → s' ≡ record s { pending = s.handled ++ s.pending; handled = [] }
        → Step s s'
    arrives : (m : M) → s' ≡ record s { pending = s.pending ++ m ∷ [] } → Step s s'
    writes :
        (db : Database)
        → db.transactions ≡ s.db.transactions
        → s' ≡ record s { db = db }
        → Step s s'

  pub data Reach (s : System M) : System M → Type 0 where
    here : Reach s s
    next : {t u : System M} → Reach s t → Step t u → Reach s u

  -- What the service is for: events that are not stored yet are run one after the other, while other
  -- services write beside it. An event that is stored is never run again.
  pub data Once (db₀ : Database) : List NormalizedTransaction → Database → Type 0 where
    start : Once db₀ [] db₀
    runs :
        {events : List NormalizedTransaction} {db db' : Database} (locked : ℕ → Bool) (m : M)
        (tx : NormalizedTransaction)
        → Once db₀ events db
        → decode m ≡ some tx
        → transaction_exists db.transactions tx.id ≡ false
        → run print (transfer_strategies locked) db tx ≡ ok db'
        → Once db₀ (tx ∷ events) db'
    writes_beside :
        {events : List NormalizedTransaction} {db db' : Database}
        → Once db₀ events db
        → db'.transactions ≡ db.transactions
        → Once db₀ events db'
