-- ===== src/Staging/Drain/Order.antt =====
-- What a drain publishes and deletes.
use grosh.Prelude.{
  Bool, not, Option, none, some, List, [], ◌∷◌, ◌++◌, ◌≡◌, ◌∙◌, refl, ap, sym, inl, inr,
  Option-cases, filter, any, arith, ◌==◌, append_last, append_nil,
}
use grosh.Domain.{NormalizedTransaction, ok, raise, Error, Result-cases, value_error}
use grosh.Kafka.{Broker, produce}
use grosh.Staging.{StagedRow, Store, delete_staged}
use grosh.Staging.Drain.{Ending, finished, raised, drain_rows}

-- The producer takes an event at the end, or refuses it.
pub produce-append :
    (broker : Broker) (published : List NormalizedTransaction) (tx : NormalizedTransaction)
    {published' : List NormalizedTransaction}
    → produce broker published tx ≡ ok published'
    → published' ≡ published ++ tx ∷ []
unfolding produce
produce-append broker published tx h = ground arith

module _ {P : Type 0} where
  -- Whether a row has the id of one of these.
  abbrev pub is_one_of : List (StagedRow P) → StagedRow P → Bool
  is_one_of done row = any (λ d. row.id == d.id) done

  abbrev pub without : List (StagedRow P) → List (StagedRow P) → List (StagedRow P)
  without done rows = filter (λ row. not (is_one_of done row)) rows

  without-cons :
      (d : StagedRow P) (done rows : List (StagedRow P))
      → without done (filter (λ row. not (row.id == d.id)) rows) ≡ without (d ∷ done) rows
  without-cons d done [] = refl
  without-cons d done (r ∷ rows) = ground (arith, without-cons d done rows)

  without_nil : (rows : List (StagedRow P)) → without [] rows ≡ rows
  without_nil [] = refl
  without_nil (r ∷ rows) = ap (λ l. r ∷ l) (without_nil rows)

  module _ (validate : P → Option NormalizedTransaction) where
    -- The events of a list of rows, each of which can be read.
    abbrev pub AreEvents : List (StagedRow P) → List NormalizedTransaction → Type 0
    AreEvents [] [] = Unit
    AreEvents (row ∷ rows) (tx ∷ events) = (validate row.payload ≡ some tx) × AreEvents rows events
    AreEvents _ _ = ⊥

    -- A first part of the rows was published in their order and deleted, and nothing else; what
    -- returned has done so with all rows.
    pub record IsDrained (db : Store P) (rows : List (StagedRow P)) (ending : Ending)
        (db' : Store P) : Type 0 where
      pub done : List (StagedRow P)
      pub left : List (StagedRow P)
      pub events : List NormalizedTransaction
      pub split : done ++ left ≡ rows
      pub read : AreEvents done events
      pub published : db'.published ≡ db.published ++ events
      pub staged : db'.staged ≡ without done db.staged
      pub locks : db'.locks ≡ db.locks
      pub whole : ending ≡ finished → left ≡ []

    stopped-IsDrained :
        (db : Store P) (rows : List (StagedRow P)) (e : Error) → IsDrained db rows (raised e) db
    stopped-IsDrained db rows e = record {
      done = [];
      left = rows;
      events = [];
      split = refl;
      read = tt;
      published = sym (append_nil db.published);
      staged = sym (without_nil db.staged);
      locks = refl;
      whole = λ h. cc;
    }

    pub unread_lem :
        (broker : Broker) (db : Store P) (row : StagedRow P) (rows : List (StagedRow P))
        → validate row.payload ≡ none
        → drain_rows validate broker db (row ∷ rows) ≡ (raised value_error, db)
    unfolding drain_rows
    unread_lem broker db row rows e = rw (drain_rows, e)

    pub refused_lem :
        (broker : Broker) (db : Store P) (row : StagedRow P) (rows : List (StagedRow P))
        (tx : NormalizedTransaction) (x : Error)
        → validate row.payload ≡ some tx
        → produce broker db.published tx ≡ raise x
        → drain_rows validate broker db (row ∷ rows) ≡ (raised x, db)
    unfolding drain_rows
    refused_lem broker db row rows tx x e h = rw (drain_rows, e, h)

    pub drained_lem :
        (broker : Broker) (db : Store P) (row : StagedRow P) (rows : List (StagedRow P))
        (tx : NormalizedTransaction) (published : List NormalizedTransaction)
        → validate row.payload ≡ some tx
        → produce broker db.published tx ≡ ok published
        → drain_rows validate broker db (row ∷ rows)
          ≡ drain_rows validate broker
              (delete_staged (record db { published = published }) row.id)
              rows
    unfolding drain_rows
    drained_lem broker db row rows tx published e h = rw (drain_rows, e, h)

    more-IsDrained :
        (db : Store P) (row : StagedRow P) (rows : List (StagedRow P)) (tx : NormalizedTransaction)
        (published : List NormalizedTransaction) (ending : Ending) (db' : Store P)
        → validate row.payload ≡ some tx
        → published ≡ db.published ++ tx ∷ []
        → IsDrained (delete_staged (record db { published = published }) row.id) rows ending db'
        → IsDrained db (row ∷ rows) ending db'
    unfolding delete_staged
    more-IsDrained db row rows tx published ending db' e h rest = record {
      done = row ∷ rest.done;
      left = rest.left;
      events = tx ∷ rest.events;
      split = ap (λ l. row ∷ l) rest.split;
      read = (e, rest.read);
      published =
          rest.published ∙ ap (λ l. l ++ rest.events) h ∙ append_last db.published tx rest.events;
      staged = rest.staged ∙ without-cons row rest.done db.staged;
      locks = rest.locks;
      whole = rest.whole;
    }

    nothing-IsDrained : (broker : Broker) (db : Store P) → IsDrained db [] finished db
    nothing-IsDrained broker db = record {
      done = [];
      left = [];
      events = [];
      split = refl;
      read = tt;
      published = sym (append_nil db.published);
      staged = sym (without_nil db.staged);
      locks = refl;
      whole = λ h. refl;
    }

    pub drain_rows-IsDrained :
        (broker : Broker) (db : Store P) (rows : List (StagedRow P))
        → IsDrained db rows
            (drain_rows validate broker db rows).0
            (drain_rows validate broker db rows).1
    unfolding drain_rows
    drain_rows-IsDrained broker db [] = nothing-IsDrained broker db
    drain_rows-IsDrained broker db (row ∷ rows) = elim (Option-cases (validate row.payload)) [
      | inl e ↦ rw (unread_lem broker db row rows e) (stopped-IsDrained db (row ∷ rows) value_error)
      | inr (tx, e) ↦ elim (Result-cases (produce broker db.published tx)) [
        | inl (x, h) ↦
            rw (refused_lem broker db row rows tx x e h) (stopped-IsDrained db (row ∷ rows) x)
        | inr (published, h) ↦ rw (drained_lem broker db row rows tx published e h) (
            more-IsDrained db row rows tx published _ _ e (produce-append broker db.published tx h)
              (drain_rows-IsDrained broker
                (delete_staged (record db { published = published }) row.id) rows))
      ]
    ]
