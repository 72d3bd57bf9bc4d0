-- ===== src/Normalization/Consumer.antt =====
-- The loop over raw events
-- (services/normalization/src/grosh_normalization/consumers/normalization_consumer.py). Each message
-- is committed, whatever becomes of it. The reading of an envelope, whether a connection is there,
-- the answers of the broker and the ids of rows are parameters of a turn of the loop.
pub mod Routing
use grosh.Prelude.{
  ℕ, String, Bool, true, false, Option, none, some, List, [], ◌∷◌, if◌then◌else◌, lookup,
}
use grosh.Domain.{NormalizedTransaction, Result, ok, raise, Error, runtime_error}
use grosh.Backfill.{Envelope}
use grosh.Kafka.{Broker}
use grosh.Staging.{Store, route}
use grosh.Normalization.{Outside, normalize_monobank, normalize_manual}

abbrev pub Normalizer : Type 0 → Type 0
Normalizer A = Envelope A → Result NormalizedTransaction

-- `_NORMALIZER_REGISTRY`
unfoldable pub normalizer_registry : {A : Type 0} → Outside A → List (String × Normalizer A)
normalizer_registry outside =
    ("monobank", normalize_monobank outside) ∷ ("manual", normalize_manual outside) ∷ []

-- What becomes of a message before its commit.
pub data Handled : Type 0 where
  undecodable unknown_source : Handled
  not_normalized not_routed : Error → Handled
  routed : NormalizedTransaction → Handled

-- What surrounds one turn: whether the pool has a connection, the broker, and the id and the time of
-- a row that is inserted.
pub record Turn : Type 0 where
  pub is_connected : Bool
  pub broker : Broker
  pub id : ℕ
  pub now : ℕ

module _ {P : Type 0} (dump : NormalizedTransaction → P) where
  abbrev pub try_route : Turn → Store P → NormalizedTransaction → Result (Store P)
  try_route turn db normalized =
      if turn.is_connected
      then route dump turn.broker turn.id turn.now db normalized
      else raise runtime_error

  abbrev pub conclude : Store P → NormalizedTransaction → Result (Store P) → Handled × Store P
  conclude db normalized (raise e) = (not_routed e, db)
  conclude db normalized (ok db') = (routed normalized, db')

  abbrev pub route_normalized : Turn → Store P → Result NormalizedTransaction → Handled × Store P
  route_normalized turn db (raise e) = (not_normalized e, db)
  route_normalized turn db (ok normalized) = conclude db normalized (try_route turn db normalized)

  abbrev pub dispatch :
      {A : Type 0} → Turn → Store P → Envelope A → Option (Normalizer A) → Handled × Store P
  dispatch turn db envelope none = (unknown_source, db)
  dispatch turn db envelope (some normalize) = route_normalized turn db (normalize envelope)

module _ {A : Type 0} {M : Type 0} {P : Type 0} (outside : Outside A)
    (decode : M → Option (Envelope A)) (dump : NormalizedTransaction → P) where
  -- The body of the loop, after the poll.
  unfoldable pub handle_message : Turn → Store P → M → Handled × Store P
  unfolding normalizer_registry
  handle_message turn db m = elim (decode m) [
    | none ↦ (undecodable, db)
    | some envelope ↦
        dispatch dump turn db envelope (lookup envelope.source (normalizer_registry outside))
  ]

  -- The loop over the messages that arrive: what became of each, and the tables afterwards.
  unfoldable pub consume : Store P → List (Turn × M) → List Handled × Store P
  unfolding handle_message
  consume db [] = ([], db)
  consume db ((turn, m) ∷ messages) =
      let (handled, db') = handle_message turn db m in
      let (rest, last) = consume db' messages in (handled ∷ rest, last)
