-- ===== src/Kafka/Examples.antt =====
-- A topic that stays missing for thirty seconds.
use grosh.Prelude.{ℕ, ◌-◌, ◌≤◌, some, List, [], ◌∷◌, ◌≡◌, ◌↔◌, refl}
use grosh.Kafka.{
  unknown_topic_tolerance, Poll, silent, unknown_topic, nothing, escalated, poll_message,
  record_error,
}
use grosh.Kafka.Budget.{budget_after, burst_start, poll_message-IsEscalated}

abbrev history : List (ℕ × Poll ℕ)
history =
    (50_000, unknown_topic)
    ∷ (40_000, unknown_topic)
    ∷ (30_000, silent)
    ∷ (5_000, unknown_topic)
    ∷ []

escalates : (poll_message {M = ℕ} 70_000 unknown_topic (budget_after history)).0 ≡ escalated
unfolding poll_message budget_after record_error
escalates = refl

passes : (poll_message {M = ℕ} 69_999 unknown_topic (budget_after history)).0 ≡ nothing
unfolding poll_message budget_after record_error
passes = refl

poll_message-IsEscalated_example :
    ((poll_message {M = ℕ} 70_000 unknown_topic (budget_after history)).0 ≡ escalated)
    ↔ (first : ℕ) × (burst_start history ≡ some first) × (unknown_topic_tolerance ≤ 70_000 - first)
poll_message-IsEscalated_example = poll_message-IsEscalated 70_000 history
