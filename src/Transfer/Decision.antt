-- ===== src/Transfer/Decision.antt =====
-- Count-and-decide (services/enrichment/src/grosh_enrichment/sources/monobank/transfer/decision.py,
-- and `CandidateRow` of repo.py beside it). A subscript of the dict of accounts raises `KeyError`
-- where the id is missing.
pub mod Bucket
pub mod Claims
use grosh.Prelude.{
  ℕ, String, Bool, true, false, not, ◌&&◌, Option, none, some, List, [], ◌∷◌, map, if◌then◌else◌,
  ◌==◌, ltb, is_some, starts_with, is_empty, length,
}
use grosh.Domain.{TransactionDirection, is_income, Result, ok, or_raise, key_error, ◌>>=◌}
use grosh.Accounts.{AccountProps, PropsById}
use grosh.Transfer.Descriptions.{
  DescriptionConstraint, parse_description, validate_pair_descriptions,
}
use grosh.Transfer.Evidence.{PairEvidence}
use grosh.Transfer.Anomalies
use grosh.Transfer.Records.{AnomalyRecord}

pub record CandidateRow : Type 0 where
  pub id : ℕ
  pub account_id : ℕ
  pub direction : TransactionDirection
  pub counterparty_iban : Option String
  pub description : Option String
  pub amount_cents : ℕ
  pub operation_amount_cents : Option ℕ
  pub time : ℕ

pub record Claim : Type 0 where
  pub partner_id : ℕ
  pub iban_evidence : PairEvidence
  pub description_decisive : Bool
  pub canary_anomaly : Option AnomalyRecord

pub data Decision : Type 0 where
  claim : Claim → Decision
  anomaly : AnomalyRecord → Decision
  skip : Decision

abbrev pub ScoredCandidate : Type 0
ScoredCandidate = CandidateRow × PairEvidence

abbrev pub evidence_eq : PairEvidence → PairEvidence → Bool
evidence_eq PairEvidence.bilateral PairEvidence.bilateral = true
evidence_eq PairEvidence.unilateral PairEvidence.unilateral = true
evidence_eq PairEvidence.none PairEvidence.none = true
evidence_eq _ _ = false

-- `_BUCKET_PRIORITY`
abbrev pub bucket_priority : List PairEvidence
bucket_priority = PairEvidence.bilateral ∷ PairEvidence.unilateral ∷ PairEvidence.none ∷ []

-- `[cand for cand, ev in candidates if ev == level]`
unfoldable pub bucket_of : PairEvidence → List ScoredCandidate → List CandidateRow
bucket_of level [] = []
bucket_of level ((cand, ev) ∷ rest) =
    let others = bucket_of level rest in if evidence_eq ev level then cand ∷ others else others

-- The loop of `_select_bucket` over the levels that are left.
select_bucket_from : List PairEvidence → List ScoredCandidate → PairEvidence × List CandidateRow
select_bucket_from [] candidates = (PairEvidence.none, [])
select_bucket_from (level ∷ levels) candidates = elim (bucket_of level candidates) [
  | [] ↦ select_bucket_from levels candidates
  | c ∷ cs ↦ (level, c ∷ cs)
]

unfoldable pub select_bucket : List ScoredCandidate → PairEvidence × List CandidateRow
unfolding select_bucket_from bucket_of
select_bucket = select_bucket_from bucket_priority

-- (income_desc, expense_desc, income_props, expense_props)
unfoldable pub split_by_direction :
    CandidateRow
    → AccountProps
    → Option String
    → AccountProps
    → Option String × Option String × AccountProps × AccountProps
split_by_direction partner partner_props incoming_description incoming_props =
    if is_income partner.direction
    then (partner.description, incoming_description, partner_props, incoming_props)
    else (incoming_description, partner.description, incoming_props, partner_props)

unfoldable pub descriptions_consistent :
    CandidateRow → AccountProps → Option String → AccountProps → Bool
unfolding split_by_direction
descriptions_consistent partner partner_props incoming_description incoming_props =
    let (income_desc, expense_desc, income, expense) =
      split_by_direction partner partner_props incoming_description incoming_props in
    if not (is_some (parse_description income_desc))
      && not (is_some (parse_description expense_desc))
    then true
    else validate_pair_descriptions income_desc expense_desc income.type income.currency_code
        expense.type expense.currency_code

unfoldable pub build_canary_if_inconsistent :
    ℕ → CandidateRow → AccountProps → Option String → AccountProps → Option AnomalyRecord
unfolding descriptions_consistent
build_canary_if_inconsistent transaction_id partner partner_props incoming_description
      incoming_props =
    if descriptions_consistent partner partner_props incoming_description incoming_props
    then none
    else (let (income_desc, expense_desc, income, expense) =
          split_by_direction partner partner_props incoming_description incoming_props in
        some (
          Anomalies.description_consistency_mismatch transaction_id partner.id income_desc
            expense_desc income expense))

-- `account_props_by_id[account_id]`
unfoldable pub subscript : PropsById → ℕ → Result AccountProps
subscript [] account_id = or_raise none key_error
subscript ((i, props) ∷ rest) account_id =
    if i == account_id then ok props else subscript rest account_id

unfoldable pub decide_count_zero : ℕ → Option String → Decision
decide_count_zero transaction_id none = skip
decide_count_zero transaction_id (some description) =
    if is_empty description
    then skip
    else (if starts_with description "З "
        then anomaly (Anomalies.unpaired_from_description transaction_id (some description))
        else (if starts_with description "На "
            then anomaly (Anomalies.unpaired_to_description transaction_id (some description))
            else skip))

-- What `decide` is given of the incoming row and of the accounts.
pub record Incoming : Type 0 where
  pub id : ℕ
  pub description : Option String
  pub acc_props : AccountProps
  pub account_props_by_id : PropsById

unfoldable pub decide_single : Incoming → CandidateRow → PairEvidence → Bool → Result Decision
unfolding build_canary_if_inconsistent subscript
decide_single incoming partner evidence description_decisive = do
  partner_props ← subscript incoming.account_props_by_id partner.account_id
  ok (
      claim (record {
        partner_id = partner.id;
        iban_evidence = evidence;
        description_decisive = description_decisive;
        canary_anomaly =
            build_canary_if_inconsistent incoming.id partner partner_props incoming.description
              incoming.acc_props;
      }))

-- The list `survivors` of `_decide_many`.
unfoldable pub survivors_of : Incoming → List CandidateRow → Result (List CandidateRow)
unfolding descriptions_consistent subscript
survivors_of incoming [] = ok []
survivors_of incoming (cand ∷ bucket) = do
  props ← subscript incoming.account_props_by_id cand.account_id
  rest ← survivors_of incoming bucket
  ok (
      if descriptions_consistent cand props incoming.description incoming.acc_props
      then cand ∷ rest
      else rest)

-- The tests on the survivors that end `_decide_many`.
decide_survivors : Incoming → PairEvidence → List CandidateRow → List CandidateRow → Result Decision
unfolding decide_single
decide_survivors incoming evidence bucket (partner ∷ []) =
    decide_single incoming partner evidence (ltb 1 (length bucket))
decide_survivors incoming evidence bucket survivors =
    if length survivors == 0 && evidence_eq evidence PairEvidence.none
    then ok (
        anomaly (
          Anomalies.description_account_mismatch incoming.id (map (λ c. c.id) bucket)
            incoming.description evidence))
    else ok (
        anomaly (
          Anomalies.ambiguous_pair_match incoming.id (map (λ c. c.id) bucket) evidence
            (length survivors)))

unfoldable pub decide_many : Incoming → List ScoredCandidate → Result Decision
unfolding decide_survivors survivors_of select_bucket
decide_many incoming candidates = do
  let (evidence, bucket) = select_bucket candidates
  survivors ← survivors_of incoming bucket
  decide_survivors incoming evidence bucket survivors

unfoldable pub decide : Incoming → List ScoredCandidate → Result Decision
unfolding decide_count_zero decide_single decide_many
decide incoming [] = ok (decide_count_zero incoming.id incoming.description)
decide incoming ((cand, evidence) ∷ []) = decide_single incoming cand evidence false
decide incoming candidates = decide_many incoming candidates
