-- ===== src/Transfer/Metadata.antt =====
-- The blocks under `metadata.layer.transfer`
-- (services/enrichment/src/grosh_enrichment/sources/monobank/transfer/metadata.py).
use grosh.Prelude.{String, Bool}
use grosh.Domain.{Fields, text, boolean, end, field}
use grosh.Transfer.Flags.{CpIbanStatus, RowFlags}
use grosh.Transfer.Evidence.{PairEvidence}

status_value : CpIbanStatus → String
status_value CpIbanStatus.null = "null"
status_value CpIbanStatus.transitive = "transitive"
status_value CpIbanStatus.unlinked = "unlinked"
status_value CpIbanStatus.honest = "honest"

evidence_value : PairEvidence → String
evidence_value PairEvidence.bilateral = "bilateral"
evidence_value PairEvidence.unilateral = "unilateral"
evidence_value PairEvidence.none = "none"

unfoldable pub build_row_block : RowFlags → Fields
unfolding status_value
build_row_block flags = field "description_matched" (boolean flags.description_matched) (
    field "multi_hop_description" (boolean flags.multi_hop_description)
      (field "cp_iban_status" (text (status_value flags.cp_iban_status)) end))

unfoldable pub build_pair_block : PairEvidence → Bool → Fields
unfolding evidence_value
build_pair_block iban_evidence description_decisive =
    field "iban_evidence" (text (evidence_value iban_evidence))
      (field "description_decisive" (boolean description_decisive) end)
