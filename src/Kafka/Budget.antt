-- ===== src/Kafka/Budget.antt =====
-- When a run of polls escalates.
use grosh.Prelude.{ℕ, ◌-◌, ◌≤◌, Option, none, some, List, [], ◌∷◌, ◌≡◌, ◌↔◌, refl, arith}
use grosh.Kafka.{
  TransientErrorBudget, record_error, unknown_topic_tolerance, Poll, silent, partition_eof,
  unknown_topic, other_error, message, escalated, poll_message,
}

module _ {M : Type 0} where
  -- The budget after a list of polls with their times, the newest first, from an empty one.
  unfoldable pub budget_after : List (ℕ × Poll M) → TransientErrorBudget
  budget_after [] = none
  budget_after ((now, p) ∷ polls) = (poll_message now p (budget_after polls)).1

  -- An independent reading of the history: the newest polls, as long as they are unknown-topic
  -- errors, or other errors, which end the process, and the time of the oldest unknown-topic one.
  unfoldable pub burst_start : List (ℕ × Poll M) → Option ℕ
  burst_start [] = none
  burst_start ((now, silent) ∷ polls) = none
  burst_start ((now, partition_eof) ∷ polls) = none
  burst_start ((now, message m) ∷ polls) = none
  burst_start ((now, other_error) ∷ polls) = burst_start polls
  burst_start ((now, unknown_topic) ∷ polls) = elim (burst_start polls) [
    | none ↦ some now
    | some first ↦ some first
  ]

  reset_or_kept :
      (now : ℕ) (p : Poll M) (polls : List (ℕ × Poll M)) (b : TransientErrorBudget)
      → b ≡ burst_start polls
      → (poll_message now p b).1 ≡ burst_start ((now, p) ∷ polls)
  unfolding burst_start poll_message record_error
  reset_or_kept now silent polls b h = refl
  reset_or_kept now partition_eof polls b h = refl
  reset_or_kept now (message m) polls b h = refl
  reset_or_kept now other_error polls b h = h
  reset_or_kept now unknown_topic polls none h = ground (arith, h)
  reset_or_kept now unknown_topic polls (some first) h = ground (arith, h)

  budget_burst : (polls : List (ℕ × Poll M)) → budget_after polls ≡ burst_start polls
  unfolding budget_after burst_start
  budget_burst [] = refl
  budget_burst ((now, p) ∷ polls) =
      reset_or_kept now p polls (budget_after polls) (budget_burst polls)

  -- After any history of polls, an unknown-topic error is escalated exactly where the newest polls of
  -- the history are such errors (no silence, end of partition or message among them), the first of
  -- which was at least thirty seconds before; otherwise it is passed over.
  pub poll_message-IsEscalated :
      (now : ℕ) (polls : List (ℕ × Poll M))
      → ((poll_message {M = M} now unknown_topic (budget_after polls)).0 ≡ escalated)
        ↔ (first : ℕ) × (burst_start polls ≡ some first) × (unknown_topic_tolerance ≤ now - first)
  unfolding poll_message record_error
  poll_message-IsEscalated now polls = rw (budget_burst polls) (split (burst_start polls))
    where
      split :
          (b : TransientErrorBudget)
          → ((poll_message {M = M} now unknown_topic b).0 ≡ escalated)
            ↔ (first : ℕ) × (b ≡ some first) × (unknown_topic_tolerance ≤ now - first)
      split none = ground arith
      split (some first) = ground arith
