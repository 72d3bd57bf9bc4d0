-- ===== src/Staging.antt =====
-- Events that wait while their user is reprocessed
-- (services/normalization/src/grosh_normalization/repositories/staging_repo.py, and `_route` of
-- services/normalization/src/grosh_normalization/consumers/normalization_consumer.py). A payload is
-- what pydantic makes of an event and reads it from, both parameters; ids and times of rows are made
-- by the database. Times are microseconds, and no row is from the future.
pub mod Drain
pub mod Routes
pub mod Interleaving
mod Examples
use grosh.Prelude.{
  ℕ, zero, suc, ◌+◌, ◌-◌, ◌/◌, Bool, true, false, not, ◌&&◌, Option, none, some, List, [], ◌∷◌,
  ◌++◌, map, filter, any, length, if◌then◌else◌, ◌==◌, ltb, leb,
}
use grosh.Domain.{NormalizedTransaction, Result, ok, raise, ◌>>=◌}
use grosh.Kafka.{Broker, produce}

-- A row of `staging_normalized_transactions`; a read leaves out the user and the time.
pub record StagedRow {ℓ} (P : Type ℓ) : Type ℓ where
  pub id : ℕ
  pub user_id : ℕ
  pub payload : P
  pub created_at : ℕ

-- The two tables, and the events that were handed to the producer.
pub record Store {ℓ} (P : Type ℓ) : Type ℓ where
  pub staged : List (StagedRow P)
  pub locks : List ℕ
  pub published : List NormalizedTransaction

-- The cast of a numeric to int rounds half up.
abbrev pub to_seconds : ℕ → ℕ
to_seconds us = (us + 500_000) / 1_000_000

module _ {ℓ} {P : Type ℓ} where
  unfoldable pub insert_staged : Store P → ℕ → ℕ → ℕ → P → Store P
  insert_staged db id now user_id payload = record db {
    staged =
        db.staged
        ++ record { id = id; user_id = user_id; payload = payload; created_at = now } ∷ [];
  }

  -- `ORDER BY created_at`; the order of rows of one time is that of the table.
  unfoldable pub place : StagedRow P → List (StagedRow P) → List (StagedRow P)
  place row [] = row ∷ []
  place row (r ∷ rows) =
      let rest = place row rows in
      if ltb r.created_at row.created_at then r ∷ rest else row ∷ r ∷ rows

  unfoldable pub sort_rows : List (StagedRow P) → List (StagedRow P)
  unfolding place
  sort_rows [] = []
  sort_rows (row ∷ rows) = place row (sort_rows rows)

  abbrev pub is_of : ℕ → StagedRow P → Bool
  is_of user_id row = row.user_id == user_id

  unfoldable pub select_staged_for_user : Store P → ℕ → List (StagedRow P)
  unfolding sort_rows
  select_staged_for_user db user_id = sort_rows (filter (is_of user_id) db.staged)

  unfoldable pub delete_staged : Store P → ℕ → Store P
  delete_staged db id = record db { staged = filter (λ row. not (row.id == id)) db.staged }

  unfoldable pub lock_exists : Store P → ℕ → Bool
  lock_exists db user_id = any (λ u. u == user_id) db.locks

  -- `SELECT DISTINCT`, in the order of the first rows.
  unfoldable pub distinct_users : List (StagedRow P) → List ℕ
  distinct_users [] = []
  distinct_users (row ∷ rows) =
      row.user_id ∷ filter (λ u. not (u == row.user_id)) (distinct_users rows)

  unfoldable pub select_unlocked_user_ids_with_staged_rows : Store P → List ℕ
  unfolding distinct_users lock_exists
  select_unlocked_user_ids_with_staged_rows db =
      distinct_users (filter (λ row. not (lock_exists db row.user_id)) db.staged)

  -- `MIN(created_at)`
  unfoldable pub oldest : List (StagedRow P) → Option ℕ
  oldest [] = none
  oldest (row ∷ rows) = elim (oldest rows) [
    | none ↦ some row.created_at
    | some t ↦ some (if ltb t row.created_at then t else row.created_at)
  ]

  unfoldable pub get_staging_age_and_count : Store P → ℕ → Option ℕ × ℕ
  unfolding oldest
  get_staging_age_and_count db now = (
    elim (oldest db.staged) [ none ↦ none | some t ↦ some (to_seconds (now - t)) ],
    length db.staged,
  )

module _ {ℓ} {P : Type ℓ} (dump : NormalizedTransaction → P) where
  -- `_route`, in one database transaction: the lock decides, the id and the time are the row's.
  unfoldable pub route : Broker → ℕ → ℕ → Store P → NormalizedTransaction → Result (Store P)
  unfolding lock_exists insert_staged
  route broker id now db normalized =
      if lock_exists db normalized.user_id
      then ok (insert_staged db id now normalized.user_id (dump normalized))
      else (do
        published ← produce broker db.published normalized
        ok (record db { published = published }))
