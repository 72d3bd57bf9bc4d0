-- ===== src/Reprocess.antt =====
-- The reprocessing of one user
-- (services/normalization/src/grosh_normalization/services/reprocess_orchestrator.py and
-- repositories/reprocess_repo.py beside it). Other services run while the job waits: what they have
-- made of the transactions by each poll, and whether the broker takes the events, are parameters.
-- The job keeps its session, so its advisory lock, which is not modelled, is held throughout.
pub mod Ids
pub mod Recovery
mod Examples
use grosh.Prelude.{
  ℕ, zero, suc, ◌+◌, Bool, true, false, not, ◌&&◌, ◌||◌, Option, none, some, List, [], ◌∷◌, ◌++◌,
  map, filter, any, length, if◌then◌else◌, ◌==◌, leb,
}
use grosh.Domain.{
  NormalizedTransaction, Transaction, Result, ok, raise, Error, reprocess_error, ◌>>=◌, or_raise,
}
use grosh.Enrichment.{insert}
use grosh.Replay.{sort_rows, select_for_user, to_normalized}
use grosh.Transfer.Records.{AnomalyRecord}

-- The tables that the job reads and writes; the newest backup is first. `notified` are the users of
-- the NOTIFY calls.
pub record Store : Type 0 where
  pub transactions : List Transaction
  pub anomalies : List AnomalyRecord
  pub locks : List ℕ
  pub backups : List (ℕ × List Transaction)
  pub notified : List ℕ

pub record World : Type 0 where
  pub is_published : List NormalizedTransaction → Bool
  pub stored_on_failure : List Transaction → List Transaction
  pub stored_by_poll : ℕ → List Transaction → List Transaction

unfoldable pub lock_exists : Store → ℕ → Bool
lock_exists db user_id = any (λ u. u == user_id) db.locks

abbrev pub is_of : ℕ → Transaction → Bool
is_of user_id row = row.user_id == user_id

-- The rows in the order of the backup.
unfoldable pub user_rows : Store → ℕ → List Transaction
unfolding sort_rows
user_rows db user_id = sort_rows (filter (is_of user_id) db.transactions)

unfoldable pub snapshot_transactions : Store → ℕ → List ℕ × Store
unfolding user_rows
snapshot_transactions db user_id =
    let rows = user_rows db user_id in
    (map (λ row. row.id) rows, record db { backups = (user_id, rows) ∷ db.backups })

-- The anomalies of a deleted row are deleted with it (`ON DELETE CASCADE`).
unfoldable pub delete_user_transactions : Store → ℕ → Store
delete_user_transactions db user_id = record db {
  transactions = filter (λ row. not (is_of user_id row)) db.transactions;
  anomalies =
      filter
        (λ a. not (any (λ row. is_of user_id row && row.id == a.transaction_id) db.transactions))
        db.anomalies;
}

unfoldable pub count_for_user : List Transaction → ℕ → ℕ
count_for_user rows user_id = length (filter (is_of user_id) rows)

-- `WHERE user_id = $1 AND id = ANY($2)`
abbrev pub is_present : List Transaction → ℕ → ℕ → Bool
is_present rows user_id tx_id = any (λ row. is_of user_id row && row.id == tx_id) rows

unfoldable pub verify_snapshot : List Transaction → ℕ → List ℕ → List ℕ
verify_snapshot rows user_id snapshot_ids =
    filter (λ i. not (is_present rows user_id i)) snapshot_ids

unfoldable pub release_lock_atomic : Store → ℕ → Store
release_lock_atomic db user_id = record db {
  locks = filter (λ u. not (u == user_id)) db.locks;
  notified = db.notified ++ user_id ∷ [];
}

unfoldable pub latest_backup : List (ℕ × List Transaction) → ℕ → Option (List Transaction)
latest_backup [] user_id = none
latest_backup ((u, rows) ∷ backups) user_id =
    if u == user_id then some rows else latest_backup backups user_id

-- The inserts of the restore, `ON CONFLICT (id) DO NOTHING` each.
unfoldable pub insert_all : List Transaction → List Transaction → Result (List Transaction)
unfolding insert
insert_all rows [] = ok rows
insert_all rows (tx ∷ snapshot) = do rows' ← insert rows tx; insert_all rows' snapshot

-- One database transaction: where it raises, nothing is restored.
unfoldable pub restore_from_backup : Store → ℕ → Result Store
unfolding latest_backup
restore_from_backup db user_id = do
  snapshot ← or_raise (latest_backup db.backups user_id) reprocess_error
  rows ← insert_all db.transactions snapshot
  ok (record db { transactions = rows })

-- A poll every 2 seconds while less than 300 have passed.
abbrev pub catchup_polls : ℕ
catchup_polls = 150

-- Whether the count was reached, and what is stored then.
unfoldable pub poll : World → ℕ → ℕ → ℕ → ℕ → List Transaction → Bool × List Transaction
unfolding count_for_user
poll world user_id expected_count zero k rows = (false, rows)
poll world user_id expected_count (suc left) k rows =
    let rows' = world.stored_by_poll k rows in
    let rest = poll world user_id expected_count left (suc k) rows' in
    if leb expected_count (count_for_user rows' user_id) then (true, rows') else rest

unfoldable pub wait_for_pipeline_catchup :
    World → ℕ → ℕ → List Transaction → Bool × List Transaction
wait_for_pipeline_catchup world user_id expected_count rows =
    if expected_count == 0
    then (true, rows)
    else poll world user_id expected_count catchup_polls 0 rows

-- How the job ends for the user: without a lock, with True, with the ReprocessError after a restore,
-- or with an error that the restore raised itself.
pub data Outcome : Type 0 where
  skipped completed restored : Outcome
  aborted : Error → Outcome

-- The handler of an exception after the delete.
unfoldable pub recover : Store → ℕ → Outcome × Store
recover db user_id = elim (restore_from_backup db user_id) [
  | ok db' ↦ (restored, release_lock_atomic db' user_id)
  | raise e ↦ (aborted e, db)
]

abbrev pub is_empty_list : List ℕ → Bool
is_empty_list [] = true
is_empty_list (_ ∷ _) = false

-- Steps 6 to 10, after the delete.
unfoldable pub replay : World → Store → ℕ → List ℕ → List NormalizedTransaction → Outcome × Store
replay world db user_id snapshot_ids events =
    if not (world.is_published events)
    then recover (record db { transactions = world.stored_on_failure db.transactions }) user_id
    else (let (caught_up, rows) =
          wait_for_pipeline_catchup world user_id (length events) db.transactions in
        let db' = record db { transactions = rows } in
        if caught_up && is_empty_list (verify_snapshot rows user_id snapshot_ids)
        then (completed, release_lock_atomic db' user_id)
        else recover db' user_id)

unfoldable pub reprocess_user : World → Store → ℕ → Outcome × Store
reprocess_user world db user_id =
    if not (lock_exists db user_id)
    then (skipped, db)
    else (let (snapshot_ids, db₁) = snapshot_transactions db user_id in
        let events = map to_normalized (select_for_user db₁.transactions user_id) in
        replay world (delete_user_transactions db₁ user_id) user_id snapshot_ids events)
