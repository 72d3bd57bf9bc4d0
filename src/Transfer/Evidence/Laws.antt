-- ===== src/Transfer/Evidence/Laws.antt =====
-- What the consistency filter and the evidence levels mean together.
use grosh.Prelude.{true, ◌≡◌, arith}
use grosh.Transfer.Flags.{CpIbanStatus, IbanMap}
use grosh.Transfer.Evidence.{PairEvidence, Side, is_consistent, classify_pair_evidence}

-- The level that the statuses alone give.
abbrev pub status_evidence : CpIbanStatus → CpIbanStatus → PairEvidence
status_evidence CpIbanStatus.honest CpIbanStatus.honest = PairEvidence.bilateral
status_evidence CpIbanStatus.honest _ = PairEvidence.unilateral
status_evidence _ CpIbanStatus.honest = PairEvidence.unilateral
status_evidence _ _ = PairEvidence.none

-- A candidate that survives the filter has the evidence level that counts the honest sides:
-- bilateral where both are, unilateral where exactly one is, none where neither is.
pub classify-is_consistent :
    (incoming candidate : Side) (ibans : IbanMap)
    → is_consistent incoming candidate ibans ≡ true
    → classify_pair_evidence incoming candidate ibans
      ≡ status_evidence incoming.flags.cp_iban_status candidate.flags.cp_iban_status
unfolding is_consistent classify_pair_evidence
classify-is_consistent incoming candidate ibans h = ground arith
