-- ===== src/Transfer/Examples.antt =====
-- Concrete decisions: two candidates of different evidence, and two of the same.
use grosh.Prelude.{ℕ, String, true, false, Option, none, some, [], ◌∷◌, ◌≡◌, refl, Member}
use grosh.Domain.{TransactionDirection, Result, ok}
use grosh.Accounts.{AccountProps}
use grosh.Transfer.Descriptions.{parse_description}
use grosh.Transfer.Flags.{CpIbanStatus, IbanMap}
use grosh.Transfer.Evidence.{PairEvidence, Side, is_consistent, classify_pair_evidence}
use grosh.Transfer.Evidence.Laws.{status_evidence, classify-is_consistent}
use grosh.Transfer.Decision.{
  CandidateRow, ScoredCandidate, Claim, claim, Decision, Incoming, bucket_of, decide,
}
use grosh.Transfer.Decision.Claims.{
  fits, IsBestCandidate, decide-claim_best, decide-claim_unique, decide-no_canary,
}

abbrev candidate : ℕ → Option String → CandidateRow
candidate i description = record {
  id = i;
  account_id = 1;
  direction = TransactionDirection.expense;
  counterparty_iban = none;
  description = description;
  amount_cents = 500;
  operation_amount_cents = none;
  time = 0;
}

abbrev props : ℕ → String → AccountProps
props i type = record { id = i; type = type; currency_code = "UAH"; iban = none }

abbrev arriving : Incoming
arriving = record {
  id = 11;
  description = none;
  acc_props = props 2 "black";
  account_props_by_id = (1, props 1 "white") ∷ [];
}

abbrev first : ScoredCandidate
first = (candidate 10 none, PairEvidence.unilateral)

abbrev second : ScoredCandidate
second = (candidate 12 none, PairEvidence.none)

abbrev claim_or : Claim → Result Decision → Claim
claim_or other (ok (claim c)) = c
claim_or other _ = other

abbrev no_claim : Claim
no_claim = record {
  partner_id = 0;
  iban_evidence = PairEvidence.none;
  description_decisive = false;
  canary_anomaly = none;
}

abbrev made : Claim
made = claim_or no_claim (decide arriving (first ∷ second ∷ []))

decided : decide arriving (first ∷ second ∷ []) ≡ ok (claim made)
unfolding decide parse_description
decided = refl

partner_claimed : made.partner_id ≡ 10
unfolding decide parse_description
partner_claimed = refl

decide-claim_best_example : IsBestCandidate (first ∷ second ∷ []) made
decide-claim_best_example = decide-claim_best arriving (first ∷ second ∷ []) {c = made} decided

decide-claim_unique_example :
    (partner : CandidateRow) × Member (partner, made.iban_evidence) (first ∷ second ∷ [])
    × (partner.id ≡ made.partner_id)
    × (fits arriving partner ≡ true)
    × ((other : CandidateRow)
        → Member other (bucket_of made.iban_evidence (first ∷ second ∷ []))
        → fits arriving other ≡ true
        → partner ≡ other)
decide-claim_unique_example = decide-claim_unique arriving first second [] {c = made} decided

decide-no_canary_example : made.canary_anomaly ≡ none
decide-no_canary_example = decide-no_canary arriving first second [] {c = made} decided

abbrev side : CpIbanStatus → Option String → ℕ → Side
side status iban account = record {
  flags = record {
    description_matched = false;
    multi_hop_description = false;
    cp_iban_status = status;
  };
  cp_iban = iban;
  account_id = account;
}

abbrev left : Side
left = side CpIbanStatus.honest (some "UA1") 2

abbrev right : Side
right = side CpIbanStatus.null none 1

abbrev resolutions : IbanMap
resolutions = ("UA1", 1) ∷ []

consistent : is_consistent left right resolutions ≡ true
unfolding is_consistent
consistent = refl

classify-is_consistent_example :
    classify_pair_evidence left right resolutions
    ≡ status_evidence CpIbanStatus.honest CpIbanStatus.null
classify-is_consistent_example = classify-is_consistent left right resolutions consistent
