-- ===== src/Transfer/Evidence.antt =====
-- What the IBANs of a pair say
-- (services/enrichment/src/grosh_enrichment/sources/monobank/transfer/iban_classifier.py).
pub mod Laws
use grosh.Prelude.{
  ℕ, String, Bool, true, false, not, ◌&&◌, ◌||◌, Option, some, if◌then◌else◌, opt_eq, lookup,
}
use grosh.Transfer.Flags.{CpIbanStatus, RowFlags, IbanMap}

pub data PairEvidence : Type 0 where
  bilateral unilateral none : PairEvidence

abbrev pub is_honest : CpIbanStatus → Bool
is_honest CpIbanStatus.honest = true
is_honest _ = false

abbrev pub is_unlinked : CpIbanStatus → Bool
is_unlinked CpIbanStatus.unlinked = true
is_unlinked _ = false

-- `cp_iban is not None and iban_to_account.get(cp_iban) == account`
resolves_to : IbanMap → Option String → ℕ → Bool
resolves_to iban_to_account Option.none account = false
resolves_to iban_to_account (some cp_iban) account =
    opt_eq (lookup cp_iban iban_to_account) (some account)

-- The flags, the IBAN and the account of one side of a pair.
pub record Side : Type 0 where
  pub flags : RowFlags
  pub cp_iban : Option String
  pub account_id : ℕ

unfoldable pub is_consistent : Side → Side → IbanMap → Bool
unfolding resolves_to
is_consistent incoming candidate iban_to_account =
    if is_honest incoming.flags.cp_iban_status
      && not (resolves_to iban_to_account incoming.cp_iban candidate.account_id)
    then false
    else (let status = candidate.flags.cp_iban_status in
        if (is_honest status || is_unlinked status)
          && not (resolves_to iban_to_account candidate.cp_iban incoming.account_id)
        then false
        else true)

unfoldable pub side_claims : Side → ℕ → IbanMap → Bool
unfolding resolves_to
side_claims side other_account_id iban_to_account =
    if not (is_honest side.flags.cp_iban_status)
    then false
    else resolves_to iban_to_account side.cp_iban other_account_id

unfoldable pub classify_pair_evidence : Side → Side → IbanMap → PairEvidence
unfolding side_claims
classify_pair_evidence incoming candidate iban_to_account =
    let incoming_claims = side_claims incoming candidate.account_id iban_to_account in
    let candidate_claims = side_claims candidate incoming.account_id iban_to_account in
    if incoming_claims && candidate_claims
    then PairEvidence.bilateral
    else (if incoming_claims || candidate_claims
        then PairEvidence.unilateral
        else PairEvidence.none)
