-- ===== src/Transfer/Flags.antt =====
-- The flags of one row (services/enrichment/src/grosh_enrichment/sources/monobank/transfer/flags.py).
use grosh.Prelude.{
  ℕ, String, Bool, not, ◌&&◌, Option, none, some, List, if◌then◌else◌, is_some, lookup,
}
use grosh.Domain.{TransactionDirection, is_expense}
use grosh.Transfer.Descriptions.{parse_description, is_multi_hop_description}

pub data CpIbanStatus : Type 0 where
  null transitive unlinked honest : CpIbanStatus

pub record RowFlags : Type 0 where
  pub description_matched : Bool
  pub multi_hop_description : Bool
  pub cp_iban_status : CpIbanStatus

-- What `compute_row_flags` reads of a row, incoming or stored (`_RowFlagInputs`).
pub record RowFlagInputs : Type 0 where
  pub description : Option String
  pub direction : TransactionDirection
  pub counterparty_iban : Option String

-- The dict from an IBAN to the account that owns it.
abbrev pub IbanMap : Type 0
IbanMap = List (String × ℕ)

unfoldable pub classify_cp_iban :
    TransactionDirection → Option String → Bool → IbanMap → CpIbanStatus
classify_cp_iban direction none multi_hop iban_to_account = CpIbanStatus.null
classify_cp_iban direction (some cp_iban) multi_hop iban_to_account =
    if is_expense direction && multi_hop
    then CpIbanStatus.transitive
    else (if not (is_some (lookup cp_iban iban_to_account))
        then CpIbanStatus.unlinked
        else CpIbanStatus.honest)

unfoldable pub compute_row_flags : RowFlagInputs → IbanMap → RowFlags
unfolding classify_cp_iban
compute_row_flags row iban_to_account =
    let multi_hop = is_multi_hop_description row.description in
    record {
      description_matched = is_some (parse_description row.description);
      multi_hop_description = multi_hop;
      cp_iban_status =
          classify_cp_iban row.direction row.counterparty_iban multi_hop iban_to_account;
    }
