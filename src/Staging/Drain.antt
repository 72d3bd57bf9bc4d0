-- ===== src/Staging/Drain.antt =====
-- The drain of staged events
-- (services/normalization/src/grosh_normalization/services/staging_drain_service.py). The connection
-- that listens and the tasks around these functions are not modelled.
pub mod Order
pub mod Rows
pub mod Users
use grosh.Prelude.{
  ℕ, Bool, true, false, ◌&&◌, Option, none, some, List, [], ◌∷◌, if◌then◌else◌, ◌==◌, ltb,
}
use grosh.Domain.{NormalizedTransaction, Result, ok, raise, Error, value_error}
use grosh.Kafka.{Broker, produce}
use grosh.Staging.{
  StagedRow, Store, select_staged_for_user, delete_staged, get_staging_age_and_count,
  select_unlocked_user_ids_with_staged_rows,
}

-- How a drain ends: it returns, or raises what stopped it.
pub data Ending : Type 0 where
  finished : Ending
  raised : Error → Ending

pub data LogLevel : Type 0 where
  debug warning : LogLevel

-- `STAGING_AGE_WARN_THRESHOLD_SECONDS`
abbrev pub staging_age_warn_threshold : ℕ
staging_age_warn_threshold = 300

unfoldable pub log_staging_age : Option ℕ → ℕ → LogLevel
log_staging_age none row_count = debug
log_staging_age (some age_seconds) row_count =
    if row_count == 0
    then debug
    else (if ltb staging_age_warn_threshold age_seconds then warning else debug)

module _ {ℓ} {P : Type ℓ} (validate : P → Option NormalizedTransaction) (broker : Broker) where
  -- The loop over the rows: publish, then delete; a failure leaves the row and ends the loop.
  unfoldable pub drain_rows : Store P → List (StagedRow P) → Ending × Store P
  drain_rows db [] = (finished, db)
  drain_rows db (row ∷ rows) = elim (validate row.payload) [
    | none ↦ (raised value_error, db)
    | some normalized ↦ elim (produce broker db.published normalized) [
      | raise e ↦ (raised e, db)
      | ok published ↦ drain_rows (delete_staged (record db { published = published }) row.id) rows
    ]
  ]

  unfoldable pub drain_for_user : Store P → ℕ → Ending × Store P
  unfolding drain_rows
  drain_for_user db user_id = drain_rows db (select_staged_for_user db user_id)

  -- The loop of the sweep: the failure of one user does not stop it.
  unfoldable pub drain_users : Store P → List ℕ → Store P
  unfolding drain_for_user
  drain_users db [] = db
  drain_users db (user_id ∷ user_ids) = drain_users (drain_for_user db user_id).1 user_ids

  -- The level of the line that is logged, and the tables afterwards.
  unfoldable pub sweep_once : Store P → ℕ → LogLevel × Store P
  unfolding drain_users log_staging_age
  sweep_once db now =
      let (age_seconds, row_count) = get_staging_age_and_count db now in
      (
        log_staging_age age_seconds row_count,
        drain_users db (select_unlocked_user_ids_with_staged_rows db),
      )
