-- ===== src/Staging/Interleaving/Alone.antt =====
-- A drain that nothing interrupts, as steps.
use grosh.Prelude.{Option, List, [], ◌∷◌, inl, inr, refl, ℕ, Option-cases}
use grosh.Domain.{NormalizedTransaction, Result-cases}
use grosh.Kafka.{Broker, produce}
use grosh.Staging.{StagedRow, Store, select_staged_for_user, delete_staged}
use grosh.Staging.Drain.{drain_rows, drain_for_user}
use grosh.Staging.Drain.Order.{unread_lem, refused_lem, drained_lem}
use grosh.Staging.Interleaving.{
  Task, publishing, System, Step, begins, publishes, deletes, stops, Reach, here, next,
}

module _ {P : Type 0} (dump : NormalizedTransaction → P)
    (validate : P → Option NormalizedTransaction) (tasks : List (Task P))
    (routed : List NormalizedTransaction) where
  abbrev pub idle : Store P → System P
  idle db = record { db = db; tasks = tasks; routed = routed }

  abbrev at_work : Store P → Task P → System P
  at_work db task = record { db = db; tasks = task ∷ tasks; routed = routed }

  after :
      {s t u : System P}
      → Step dump validate s t
      → Reach dump validate t u
      → Reach dump validate s u
  after st here = next here st
  after st (next r st') = next (after st r) st'

  ends :
      (db : Store P) (rows : List (StagedRow P))
      → Reach dump validate (at_work db (publishing rows)) (idle db)
  ends db rows = next here (stops [] tasks (publishing rows) refl refl)

  drain_rows-Reach :
      (broker : Broker) (db : Store P) (rows : List (StagedRow P))
      → Reach dump validate
          (at_work db (publishing rows))
          (idle (drain_rows validate broker db rows).1)
  unfolding drain_rows
  drain_rows-Reach broker db [] = ends db []
  drain_rows-Reach broker db (row ∷ rows) = elim (Option-cases (validate row.payload)) [
    | inl e ↦ rw (unread_lem validate broker db row rows e) (ends db (row ∷ rows))
    | inr (tx, e) ↦ elim (Result-cases (produce broker db.published tx)) [
      | inl (x, h) ↦ rw (refused_lem validate broker db row rows tx x e h) (ends db (row ∷ rows))
      | inr (published, h) ↦ rw (drained_lem validate broker db row rows tx published e h) (
          after (publishes broker [] tasks row rows tx published refl e h refl) (
            after (deletes [] tasks row rows refl refl) (
              drain_rows-Reach broker (delete_staged (record db { published = published }) row.id)
                rows)))
    ]
  ]

  -- A drain of a user that runs without a pause is one of the runs of the step relation: whatever the
  -- broker does, and whichever drains are waiting, the tables that it leaves are reached, the waiting
  -- drains as they were.
  pub drain_for_user-Reach :
      (broker : Broker) (db : Store P) (user_id : ℕ)
      → Reach dump validate (idle db) (idle (drain_for_user validate broker db user_id).1)
  unfolding drain_for_user
  drain_for_user-Reach broker db user_id =
      after (begins user_id refl) (drain_rows-Reach broker db (select_staged_for_user db user_id))
