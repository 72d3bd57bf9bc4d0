-- ===== src/Transfer/Records.antt =====
-- `AnomalyRecord` (services/enrichment/src/grosh_enrichment/services/transfer_detection.py), with the
-- codes of `transfer_anomaly_reason`. A reason's detail is kept as the values that the builders of
-- services/enrichment/src/grosh_enrichment/sources/monobank/transfer/anomalies.py print into it.
use grosh.Prelude.{ℕ, String, Option, List}
use grosh.Transfer.Evidence.{PairEvidence}

pub data ReasonCode : Type 0 where
  unpaired_from_description unpaired_to_description description_consistency_mismatch : ReasonCode
  description_account_mismatch ambiguous_pair_match : ReasonCode

pub data ReasonDetail : Type 0 where
  no_partner : Option String → ReasonDetail
  descriptions_disagree :
      Option String → String × String → Option String → String × String → ReasonDetail
  all_rejected : Option String → ℕ → PairEvidence → ReasonDetail
  ambiguous : PairEvidence → ℕ → ℕ → ReasonDetail

pub record AnomalyRecord : Type 0 where
  pub transaction_id : ℕ
  pub candidate_ids : List ℕ
  pub reason_code : ReasonCode
  pub reason_detail : Option ReasonDetail
