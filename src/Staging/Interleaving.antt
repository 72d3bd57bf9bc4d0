-- ===== src/Staging/Interleaving.antt =====
-- Drains that run at the same time
-- (services/normalization/src/grosh_normalization/services/staging_drain_service.py). A NOTIFY and
-- the sweep may drain one user at once, while the consumer routes events and jobs take and release
-- locks: each of them waits between its calls of the database, and any other may go on there.
pub mod Kept
pub mod Reached
pub mod Alone
use grosh.Prelude.{
  ℕ, Bool, true, false, Option, none, some, List, [], ◌∷◌, ◌++◌, ◌≡◌, ◌≢◌, Member, map,
}
use grosh.Domain.{NormalizedTransaction, ok}
use grosh.Kafka.{Broker, produce}
use grosh.Staging.{StagedRow, Store, route, select_staged_for_user, delete_staged}

-- A drain that has rows to publish, or has published one that it is about to delete.
pub data Task (P : Type 0) : Type 0 where
  publishing : List (StagedRow P) → Task P
  deleting : StagedRow P → List (StagedRow P) → Task P

-- The tables, the drains that run, and the events that the consumer has routed.
pub record System (P : Type 0) : Type 0 where
  pub db : Store P
  pub tasks : List (Task P)
  pub routed : List NormalizedTransaction

module _ {P : Type 0} where
  abbrev pub rows_of : Task P → List (StagedRow P)
  rows_of (publishing rows) = rows
  rows_of (deleting row rows) = row ∷ rows

  -- An id that no staged row and no running drain holds: the database makes each id once.
  pub record IsFresh (id : ℕ) (s : System P) : Type 0 where
    pub staged : (row : StagedRow P) → Member row s.db.staged → row.id ≢ id
    pub held :
        (task : Task P)
        → Member task s.tasks
        → (row : StagedRow P) → Member row (rows_of task)
        → row.id ≢ id

  module _ (dump : NormalizedTransaction → P) (validate : P → Option NormalizedTransaction) where
    -- One step of the service, or of what runs beside it. A drain that stops has failed, was
    -- cancelled, or is at its end.
    pub data Step (s : System P) (s' : System P) : Type 0 where
      routes :
          (broker : Broker) (id now : ℕ) (tx : NormalizedTransaction) (db : Store P)
          → IsFresh id s
          → route dump broker id now s.db tx ≡ ok db
          → s' ≡ record s { db = db; routed = tx ∷ s.routed }
          → Step s s'
      begins :
          (user_id : ℕ)
          → s' ≡ record s { tasks = publishing (select_staged_for_user s.db user_id) ∷ s.tasks }
          → Step s s'
      publishes :
          (broker : Broker) (before after : List (Task P)) (row : StagedRow P)
          (rows : List (StagedRow P)) (tx : NormalizedTransaction)
          (published : List NormalizedTransaction)
          → s.tasks ≡ before ++ publishing (row ∷ rows) ∷ after
          → validate row.payload ≡ some tx
          → produce broker s.db.published tx ≡ ok published
          → s' ≡ record s {
            db = record s.db { published = published };
            tasks = before ++ deleting row rows ∷ after;
          }
          → Step s s'
      deletes :
          (before after : List (Task P)) (row : StagedRow P) (rows : List (StagedRow P))
          → s.tasks ≡ before ++ deleting row rows ∷ after
          → s'
            ≡ record s { db = delete_staged s.db row.id; tasks = before ++ publishing rows ∷ after }
          → Step s s'
      stops :
          (before after : List (Task P)) (task : Task P)
          → s.tasks ≡ before ++ task ∷ after
          → s' ≡ record s { tasks = before ++ after }
          → Step s s'
      locks : (users : List ℕ) → s' ≡ record s { db = record s.db { locks = users } } → Step s s'

    pub data Reach (s : System P) : System P → Type 0 where
      here : Reach s s
      next : {t u : System P} → Reach s t → Step t u → Reach s u
