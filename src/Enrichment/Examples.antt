-- ===== src/Enrichment/Examples.antt =====
-- Concrete runs: two accounts of one user, an expense that is stored, and the income that pairs with it.
use grosh.Prelude.{
  ap, Option, is_some, ℕ, Bool, true, false, none, some, [], ◌∷◌, ◌≡◌, refl, inl, inr, Member, ◌⊎◌,
}
use grosh.Domain.{
  Account, NormalizedTransaction, Transaction, TransactionDirection, TransactionOrigin, pos, Result,
  ok, raise,
}
use grosh.Database.{Database}
use grosh.Rates.Display.{Printer, convert}
use grosh.Transfer.Queries.{
  transaction_exists, find_universal_candidates, claim_pair,
  delete_unpaired_anomalies_for_transactions,
}
use grosh.Transfer.Decision.{decide}
use grosh.Transfer.Flags.{compute_row_flags}
use grosh.Transfer.Metadata.{build_row_block, build_pair_block}
use grosh.Accounts.{get_by_id, get_many_by_ids}
use grosh.Transfer.Detector.{
  TransferResult, empty_result, detect_and_pair, pair_up, apply_decision, handle_unlinked,
  filter_and_classify, batch_resolve_ibans,
}
use grosh.Transfer.Evidence.{is_consistent}
use grosh.Rates.Lookup.{load_source_chain, find_closest_rate}
use grosh.Rates.Convert.{resolve_path, at_tier, resolve_leg, via_pivots}
use grosh.Enrichment.{
  transfer_strategies, run_transfer_detection, build_metadata, layer_contributions, inserted_row,
  persist, run,
}
use grosh.Enrichment.Gate.{passes_gate, detect_and_pair-metadata_block}
use grosh.Enrichment.Outcome.{IsOutcome, detect_and_pair-IsOutcome}
use grosh.Enrichment.Redelivery.{run-redelivered}
use grosh.Enrichment.Links.{IsDistinct, IsPaired}
use grosh.Enrichment.Links.Runs.{run-IsPaired}
use grosh.Enrichment.Consumer.{
  System, committed, settle, handle_message, Reach, here, next, handles, restarts, commits,
}
use grosh.Enrichment.Consumer.ExactlyOnce.{IsRefined, Reach-IsRefined}

abbrev printer : Printer
printer = record { decimal_text = λ x. "1"; uuid_text = λ i. "id" }

abbrev nobody : ℕ → Bool
nobody i = false

abbrev account : ℕ → Account
account i = record { id = i; user_id = 7; type = "black"; currency_code = "UAH"; iban = none }

abbrev event : NormalizedTransaction
event = record {
  id = 11;
  source = "monobank";
  source_id = "m11";
  user_id = 7;
  account_id = 2;
  time = 1_000_000;
  amount_cents = 500;
  operation_amount_cents = none;
  operation_currency_code = "UAH";
  description = none;
  mcc = some "4829";
  cashback_amount_cents = pos 0;
  balance_cents = none;
  hold = some false;
  direction = TransactionDirection.income;
  counterparty_iban = none;
  rate_source = none;
  metadata = none;
}

abbrev stored : Transaction
stored = record {
  id = 10;
  source_id = "m10";
  user_id = 7;
  account_id = 1;
  time = 0;
  amount_cents = 500;
  operation_amount_cents = none;
  currency_code = "UAH";
  operation_currency_code = some "UAH";
  amount_uah_cents = some 500;
  amount_usd_cents = none;
  amount_eur_cents = none;
  description = none;
  mcc = some "4829";
  cashback_amount_cents = some (pos 0);
  balance_cents = none;
  hold = some false;
  direction = TransactionDirection.expense;
  special_category = none;
  counterparty_iban = none;
  rate_source = none;
  metadata = none;
  source = "monobank";
  origin = TransactionOrigin.bank;
  related_transaction_id = none;
}

abbrev before : Database
before = record {
  accounts = account 1 ∷ account 2 ∷ [];
  transactions = stored ∷ [];
  anomalies = [];
  currency_rates = [];
  rate_source_config = [];
}

abbrev result_or : Database → Result Database → Database
result_or db (ok db') = db'
result_or db (raise e) = db

abbrev after : Database
after = result_or before (run printer (transfer_strategies nobody) before event)

ran : run printer (transfer_strategies nobody) before event ≡ ok after
unfolding run run_transfer_detection layer_contributions build_metadata inserted_row persist
    detect_and_pair pair_up apply_decision handle_unlinked filter_and_classify batch_resolve_ibans
    convert decide compute_row_flags build_row_block build_pair_block find_universal_candidates
    claim_pair delete_unpaired_anomalies_for_transactions transaction_exists get_by_id
    get_many_by_ids is_consistent load_source_chain resolve_path at_tier resolve_leg via_pivots
    find_closest_rate
ran = refl

run-redelivered_example :
    (transaction_exists after.transactions 11 ≡ true)
    × (run printer (transfer_strategies nobody) after event ≡ ok after)
run-redelivered_example = run-redelivered printer nobody nobody before event {db' = after} ran

before-IsPaired : IsPaired before.transactions
unfolding IsDistinct transaction_exists
before-IsPaired = record { distinct = (refl, tt); linked = linked }
  where
    linked :
        (row : Transaction)
        → (stored ≡ row) ⊎ ⊥
        → (j : ℕ) → row.related_transaction_id ≡ some j
        → (other : Transaction) × Member other before.transactions
          × (other.id ≡ j)
          × (other.related_transaction_id ≡ some row.id)
    linked row (inl e) j h = absurd cc
    linked row (inr m) j h = elim m [ ]

run-IsPaired_example : IsPaired after.transactions
run-IsPaired_example = run-IsPaired printer nobody before event {db' = after} ran before-IsPaired

abbrev outcome_or :
    TransferResult × Database → Result (TransferResult × Database) → TransferResult × Database
outcome_or other (ok found) = found
outcome_or other (raise e) = other

abbrev detected : TransferResult × Database
detected = outcome_or (empty_result, before) (detect_and_pair nobody before event)

detection : detect_and_pair nobody before event ≡ ok (detected.0, detected.1)
unfolding detect_and_pair pair_up apply_decision handle_unlinked filter_and_classify
    batch_resolve_ibans decide compute_row_flags build_row_block build_pair_block
    find_universal_candidates claim_pair delete_unpaired_anomalies_for_transactions
    transaction_exists get_by_id get_many_by_ids is_consistent
detection = refl

claims_partner : detected.0.related_transaction_id ≡ some 10
unfolding detect_and_pair pair_up apply_decision handle_unlinked filter_and_classify
    batch_resolve_ibans decide compute_row_flags build_row_block build_pair_block
    find_universal_candidates claim_pair delete_unpaired_anomalies_for_transactions
    transaction_exists get_by_id get_many_by_ids is_consistent
claims_partner = refl

detect_and_pair-IsOutcome_example : IsOutcome nobody before event detected.0 detected.1
detect_and_pair-IsOutcome_example =
    detect_and_pair-IsOutcome nobody before event {res = detected.0} {db' = detected.1} detection

detect_and_pair-metadata_block_example :
    is_some detected.0.metadata_block ≡ passes_gate before event
detect_and_pair-metadata_block_example =
    detect_and_pair-metadata_block nobody before event {res = detected.0} {db' = detected.1}
      detection

-- A process that ends after the run and before the commit; the event comes again.
abbrev read : NormalizedTransaction → Option NormalizedTransaction
read tx = some tx

abbrev waiting : System NormalizedTransaction
waiting = record { db = before; pending = event ∷ []; handled = []; done = [] }

abbrev finished : System NormalizedTransaction
finished = record { db = after; pending = []; handled = []; done = event ∷ [] }

handled_first : handle_message printer read nobody before event ≡ committed after
unfolding handle_message
handled_first = ap (settle before) ran

handled_again : handle_message printer read nobody after event ≡ committed after
unfolding handle_message
handled_again =
    ap (settle after) (run-redelivered printer nobody nobody before event {db' = after} ran).1

-- The first process ends before its commit reaches the broker.
delivered_twice : Reach printer read waiting finished
delivered_twice =
    next
      (next
        (next (next here (handles nobody event [] after refl handled_first refl)) (restarts refl))
        (handles nobody event [] after refl handled_again refl))
      (commits (event ∷ []) [] refl refl)

Reach-IsRefined_example : IsRefined printer read before finished.db
Reach-IsRefined_example = Reach-IsRefined printer read before (event ∷ []) delivered_twice
