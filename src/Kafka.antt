-- ===== src/Kafka.antt =====
-- Reading a topic and writing to one (kafka.py of the normalization and enrichment services,
-- shared/src/grosh_shared/messaging/kafka_resilience.py, and `_produce` of
-- services/normalization/src/grosh_normalization/consumers/normalization_consumer.py). What the Kafka
-- client answers is a parameter. Times are milliseconds of a monotonic clock.
pub mod Budget
mod Examples
use grosh.Prelude.{ℕ, ◌-◌, Bool, Option, none, some, List, [], ◌∷◌, ◌++◌, if◌then◌else◌, ltb}
use grosh.Domain.{NormalizedTransaction, Result, ok, raise, runtime_error}

-- `TransientErrorBudget`: the time of the first error since the last reset.
abbrev pub TransientErrorBudget : Type 0
TransientErrorBudget = Option ℕ

-- `record`: whether the error is still within the budget, and the budget afterwards.
unfoldable pub record_error : ℕ → ℕ → TransientErrorBudget → Bool × TransientErrorBudget
record_error tolerance now none = (ltb (now - now) tolerance, some now)
record_error tolerance now (some first_seen) = (ltb (now - first_seen) tolerance, some first_seen)

abbrev pub reset : TransientErrorBudget → TransientErrorBudget
reset budget = none

-- `UNKNOWN_TOPIC_TOLERANCE_SECONDS`
abbrev pub unknown_topic_tolerance : ℕ
unknown_topic_tolerance = 30_000

-- What `consumer.poll` returns: nothing, an error, or a message with a value.
pub data Poll {ℓ} (M : Type ℓ) : Type ℓ where
  silent partition_eof unknown_topic other_error : Poll M
  message : M → Poll M

-- What `poll_message` does: it returns None or the message, or raises a KafkaException.
pub data Polled {ℓ} (M : Type ℓ) : Type ℓ where
  nothing escalated : Polled M
  received : M → Polled M

module _ {ℓ} {M : Type ℓ} where
  -- At the time `now`, which the code reads only where it records an error.
  unfoldable pub poll_message : ℕ → Poll M → TransientErrorBudget → Polled M × TransientErrorBudget
  unfolding record_error
  poll_message now silent budget = (nothing, reset budget)
  poll_message now partition_eof budget = (nothing, reset budget)
  poll_message now unknown_topic budget =
      let (within_budget, budget') = record_error unknown_topic_tolerance now budget in
      if within_budget then (nothing, budget') else (escalated, budget')
  poll_message now other_error budget = (escalated, budget)
  poll_message now (message m) budget = (received m, reset budget)

-- What one call of `producer.produce` does: it takes the event, raises a BufferError, or another
-- error.
pub data Produced : Type 0 where
  taken buffer_full refused : Produced

-- The first call and the one after a flush, for an event, after those that the producer has taken.
abbrev pub Broker : Type 0
Broker = List NormalizedTransaction → NormalizedTransaction → Produced × Produced

-- `_produce`, and `_publish` of the staging drain: the events that the producer has taken.
unfoldable pub produce :
    Broker
    → List NormalizedTransaction
    → NormalizedTransaction
    → Result (List NormalizedTransaction)
produce broker published tx =
    let (first, second) = broker published tx in
    elim first [
      | taken ↦ ok (published ++ tx ∷ [])
      | buffer_full ↦ elim second [
        | taken ↦ ok (published ++ tx ∷ [])
        | buffer_full ↦ raise runtime_error
        | refused ↦ raise runtime_error
      ]
      | refused ↦ raise runtime_error
    ]
