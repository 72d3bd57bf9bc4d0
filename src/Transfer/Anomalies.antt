-- ===== src/Transfer/Anomalies.antt =====
-- The anomalies that the detector reports
-- (services/enrichment/src/grosh_enrichment/sources/monobank/transfer/anomalies.py).
use grosh.Prelude.{ℕ, String, Option, some, List, [], ◌∷◌, length}
use grosh.Accounts.{AccountProps}
use grosh.Transfer.Evidence.{PairEvidence}
use grosh.Transfer.Records.{ReasonCode, ReasonDetail, AnomalyRecord}

unfoldable pub unpaired_from_description : ℕ → Option String → AnomalyRecord
unpaired_from_description transaction_id description = record {
  transaction_id = transaction_id;
  candidate_ids = [];
  reason_code = ReasonCode.unpaired_from_description;
  reason_detail = some (ReasonDetail.no_partner description);
}

unfoldable pub unpaired_to_description : ℕ → Option String → AnomalyRecord
unpaired_to_description transaction_id description = record {
  transaction_id = transaction_id;
  candidate_ids = [];
  reason_code = ReasonCode.unpaired_to_description;
  reason_detail = some (ReasonDetail.no_partner description);
}

acc_summary : AccountProps → String × String
acc_summary acc = (acc.type, acc.currency_code)

unfoldable pub description_consistency_mismatch :
    ℕ → ℕ → Option String → Option String → AccountProps → AccountProps → AnomalyRecord
unfolding acc_summary
description_consistency_mismatch transaction_id partner_id income_desc expense_desc income_acc
      expense_acc =
    record {
      transaction_id = transaction_id;
      candidate_ids = partner_id ∷ [];
      reason_code = ReasonCode.description_consistency_mismatch;
      reason_detail = some (
          ReasonDetail.descriptions_disagree income_desc (acc_summary income_acc) expense_desc
            (acc_summary expense_acc));
    }

unfoldable pub description_account_mismatch :
    ℕ → List ℕ → Option String → PairEvidence → AnomalyRecord
description_account_mismatch transaction_id rejected_ids incoming_description bucket_evidence =
    record {
      transaction_id = transaction_id;
      candidate_ids = rejected_ids;
      reason_code = ReasonCode.description_account_mismatch;
      reason_detail =
          some
            (ReasonDetail.all_rejected incoming_description (length rejected_ids) bucket_evidence);
    }

unfoldable pub ambiguous_pair_match : ℕ → List ℕ → PairEvidence → ℕ → AnomalyRecord
ambiguous_pair_match transaction_id bucket_ids bucket_evidence surviving_count = record {
  transaction_id = transaction_id;
  candidate_ids = bucket_ids;
  reason_code = ReasonCode.ambiguous_pair_match;
  reason_detail = some (ReasonDetail.ambiguous bucket_evidence (length bucket_ids) surviving_count);
}
