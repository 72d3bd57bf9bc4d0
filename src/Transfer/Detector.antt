-- ===== src/Transfer/Detector.antt =====
-- The detector
-- (services/enrichment/src/grosh_enrichment/sources/monobank/transfer/detector.py, and
-- `TransferResult` of services/enrichment/src/grosh_enrichment/services/transfer_detection.py).
use grosh.Prelude.{
  ℕ, String, Bool, true, false, not, ◌&&◌, Option, none, some, List, [], ◌∷◌, ◌++◌, map,
  if◌then◌else◌, starts_with, is_empty,
}
use grosh.Domain.{
  Account, TransactionDirection, NormalizedTransaction, SpecialCategory, Fields, object, end, field,
  Result, ok, ◌>>=◌,
}
use grosh.Accounts.{find_by_iban, get_by_id, get_many_by_ids}
use grosh.Database.{Database}
use grosh.Transfer.Descriptions.{is_transfer_description}
use grosh.Transfer.Flags.{RowFlags, RowFlagInputs, IbanMap, compute_row_flags}
use grosh.Transfer.Evidence.{Side, is_consistent, classify_pair_evidence, is_unlinked}
use grosh.Transfer.Records.{AnomalyRecord}
use grosh.Transfer.Anomalies
use grosh.Transfer.Metadata.{build_row_block, build_pair_block}
use grosh.Transfer.Decision.{CandidateRow, ScoredCandidate, Decision, claim, anomaly, skip, decide}
use grosh.Transfer.Queries.{
  transaction_exists, text_column_is, wire_transfer, find_universal_candidates, claim_pair,
  delete_unpaired_anomalies_for_transactions,
}

pub record TransferResult : Type 0 where
  pub special_category : Option SpecialCategory
  pub related_transaction_id : Option ℕ
  pub anomalies : List AnomalyRecord
  pub metadata_block : Option Fields

-- `TransferResult()`
abbrev pub empty_result : TransferResult
empty_result = record {
  special_category = none;
  related_transaction_id = none;
  anomalies = [];
  metadata_block = none;
}

-- `{x} if x else set()`, and the truthy members of a comprehension
pub present : Option String → List String
present none = []
present (some iban) = if is_empty iban then [] else iban ∷ []

unfoldable pub batch_resolve_ibans : List Account → ℕ → List String → IbanMap
unfolding find_by_iban
batch_resolve_ibans accounts user_id [] = []
batch_resolve_ibans accounts user_id (iban ∷ ibans) =
    let rest = batch_resolve_ibans accounts user_id ibans in
    elim (find_by_iban accounts iban user_id) [ none ↦ rest | some props ↦ (iban, props.id) ∷ rest ]

pub inputs_of_tx : NormalizedTransaction → RowFlagInputs
inputs_of_tx tx = record {
  description = tx.description;
  direction = tx.direction;
  counterparty_iban = tx.counterparty_iban;
}

inputs_of_candidate : CandidateRow → RowFlagInputs
inputs_of_candidate cand = record {
  description = cand.description;
  direction = cand.direction;
  counterparty_iban = cand.counterparty_iban;
}

candidate_ibans : List CandidateRow → List String
unfolding present
candidate_ibans [] = []
candidate_ibans (cand ∷ rest) = present cand.counterparty_iban ++ candidate_ibans rest

side_of_candidate : IbanMap → CandidateRow → Side
unfolding inputs_of_candidate
side_of_candidate iban_to_account cand = record {
  flags = compute_row_flags (inputs_of_candidate cand) iban_to_account;
  cp_iban = cand.counterparty_iban;
  account_id = cand.account_id;
}

-- The loop over the candidates: those that are consistent, each with its evidence.
unfoldable pub score : Side → IbanMap → List CandidateRow → List ScoredCandidate
unfolding side_of_candidate
score incoming iban_to_account [] = []
score incoming iban_to_account (cand ∷ candidates) =
    let rest = score incoming iban_to_account candidates in
    let side = side_of_candidate iban_to_account cand in
    if is_consistent incoming side iban_to_account
    then (cand, classify_pair_evidence incoming side iban_to_account) ∷ rest
    else rest

incoming_side : NormalizedTransaction → RowFlags → Side
incoming_side tx flags = record {
  flags = flags;
  cp_iban = tx.counterparty_iban;
  account_id = tx.account_id;
}

-- The dict that merges two dicts is looked up in the later one first.
unfoldable pub filter_and_classify :
    List Account
    → NormalizedTransaction
    → RowFlags
    → List CandidateRow
    → IbanMap
    → List ScoredCandidate
unfolding score incoming_side candidate_ibans batch_resolve_ibans
filter_and_classify accounts tx flags candidates incoming_iban_to_account =
    let new_resolutions = batch_resolve_ibans accounts tx.user_id (candidate_ibans candidates) in
    score (incoming_side tx flags) (new_resolutions ++ incoming_iban_to_account) candidates

row_only : Fields → Fields
row_only row_block = field "row" (object row_block) end

-- `(tx.description or "")`
text_or_empty : Option String → String
text_or_empty none = ""
text_or_empty (some d) = d

unfoldable pub handle_unlinked : NormalizedTransaction → RowFlags → Fields → TransferResult
unfolding row_only text_or_empty
handle_unlinked tx flags row_block = record {
  special_category = none;
  related_transaction_id = none;
  anomalies =
      if not flags.description_matched && is_transfer_description tx.description
      then (if starts_with (text_or_empty tx.description) "З "
          then Anomalies.unpaired_from_description tx.id tx.description ∷ []
          else (if starts_with (text_or_empty tx.description) "На "
              then Anomalies.unpaired_to_description tx.id tx.description ∷ []
              else []))
      else [];
  metadata_block = some (row_only row_block);
}

abbrev canary_list : Option AnomalyRecord → List AnomalyRecord
canary_list none = []
canary_list (some record_) = record_ ∷ []

unfoldable pub apply_decision :
    Database → NormalizedTransaction → Decision → Fields → TransferResult × Database
unfolding row_only
apply_decision db tx skip row_block = (
  record {
    special_category = none;
    related_transaction_id = none;
    anomalies = [];
    metadata_block = some (row_only row_block);
  },
  db,
)
apply_decision db tx (anomaly found) row_block = (
  record {
    special_category = none;
    related_transaction_id = none;
    anomalies = found ∷ [];
    metadata_block = some (row_only row_block);
  },
  db,
)
apply_decision db tx (claim c) row_block =
    let pair_block = build_pair_block c.iban_evidence c.description_decisive in
    (
      record {
        special_category = some SpecialCategory.transfer;
        related_transaction_id = some c.partner_id;
        anomalies = canary_list c.canary_anomaly;
        metadata_block =
            some (field "row" (object row_block) (field "pair" (object pair_block) end));
      },
      record db {
        transactions = claim_pair db.transactions c.partner_id tx.id pair_block;
        anomalies =
            delete_unpaired_anomalies_for_transactions db.anomalies (tx.id ∷ c.partner_id ∷ []);
      },
    )

-- Steps 3 to 7, for a row that is not unlinked.
unfoldable pub pair_up :
    (ℕ → Bool)
    → Database
    → NormalizedTransaction
    → RowFlags
    → IbanMap
    → Result (TransferResult × Database)
pair_up locked db tx flags incoming_iban_to_account = do
  let raw = find_universal_candidates locked db.transactions tx
  let scored = filter_and_classify db.accounts tx flags raw incoming_iban_to_account
  acc_props ← get_by_id db.accounts tx.account_id
  let by_id = get_many_by_ids db.accounts (map (λ s. s.0.account_id) scored)
  decision ←
      decide
        (record {
          id = tx.id;
          description = tx.description;
          acc_props = acc_props;
          account_props_by_id = by_id;
        })
        scored
  ok (apply_decision db tx decision (build_row_block flags))

abbrev pub is_zero : TransactionDirection → Bool
is_zero TransactionDirection.zero = true
is_zero _ = false

unfoldable pub detect_and_pair :
    (ℕ → Bool) → Database → NormalizedTransaction → Result (TransferResult × Database)
unfolding present inputs_of_tx
detect_and_pair locked db tx =
    if not (text_column_is tx.mcc wire_transfer)
    then ok (empty_result, db)
    else (if is_zero tx.direction
        then ok (empty_result, db)
        else (if transaction_exists db.transactions tx.id
            then ok (empty_result, db)
            else (let ibans =
                  batch_resolve_ibans db.accounts tx.user_id (present tx.counterparty_iban) in
                let flags = compute_row_flags (inputs_of_tx tx) ibans in
                if is_unlinked flags.cp_iban_status
                then ok (handle_unlinked tx flags (build_row_block flags), db)
                else pair_up locked db tx flags ibans)))
