-- ===== src/Transfer/Decision/Claims.antt =====
-- When `decide` claims a partner, and which one.
use grosh.Prelude.{
  ◌≤◌, Bool, true, false, none, List, [], ◌∷◌, ◌≡◌, ◌∙◌, refl, sym, ap, inl, inr, All, Member,
  arith, if◌then◌else◌, length, ltb, subst,
}
use grosh.Domain.{ok, raise, >>=-eq-ok}
use grosh.Accounts.{AccountProps}
use grosh.Transfer.Evidence.{PairEvidence}
use grosh.Transfer.Decision.{
  CandidateRow, ScoredCandidate, Claim, claim, Incoming, evidence_eq, bucket_of, select_bucket,
  subscript, descriptions_consistent, build_canary_if_inconsistent, survivors_of, decide_single,
  decide_survivors, decide_many, decide, decide_count_zero,
}
use grosh.Transfer.Decision.Bucket.{rank, select_bucket-IsHighest}

evidence_eq_sound : (a b : PairEvidence) → evidence_eq a b ≡ true → a ≡ b
evidence_eq_sound a b h = ground arith

bucket_of-Member :
    (level : PairEvidence) (candidates : List ScoredCandidate) (c : CandidateRow)
    → Member c (bucket_of level candidates)
    → Member (c, level) candidates
unfolding bucket_of
bucket_of-Member level [] c m = elim m [ ]
bucket_of-Member level ((d, ev) ∷ rest) c m =
    ground (arith, bucket_of-Member level rest c, evidence_eq_sound ev level)

-- The candidate's account is known, and the descriptions of the pair fit the two accounts.
abbrev pub fits : Incoming → CandidateRow → Bool
fits incoming c = elim (subscript incoming.account_props_by_id c.account_id) [
  | ok props ↦ descriptions_consistent c props incoming.description incoming.acc_props
  | raise _ ↦ false
]

module _ (incoming : Incoming) where
  survivors_of-cons :
      (d : CandidateRow) (bucket : List CandidateRow) {survivors : List CandidateRow}
      → survivors_of incoming (d ∷ bucket) ≡ ok survivors
      → (props : AccountProps) × (subscript incoming.account_props_by_id d.account_id ≡ ok props)
        × (rest : List CandidateRow) × (survivors_of incoming bucket ≡ ok rest)
        × (survivors ≡ (
            if descriptions_consistent d props incoming.description incoming.acc_props
            then d ∷ rest
            else rest))
  unfolding survivors_of
  survivors_of-cons d bucket h =
      let (props, found, h') = >>=-eq-ok _ _ h in
      let (rest, done, e) = >>=-eq-ok _ _ h' in (props, found, rest, done, cc)

  survivors_of_sound :
      (bucket : List CandidateRow) {survivors : List CandidateRow} (c : CandidateRow)
      → survivors_of incoming bucket ≡ ok survivors
      → Member c survivors
      → Member c bucket × (fits incoming c ≡ true)
  unfolding survivors_of
  survivors_of_sound [] c h m = ground arith
  survivors_of_sound (d ∷ bucket) c h m =
      let (props, found, rest, done, e) = survivors_of-cons d bucket h in
      ground (arith, survivors_of_sound bucket c done)

  survivors_of_complete :
      (bucket : List CandidateRow) {survivors : List CandidateRow} (c : CandidateRow)
      → survivors_of incoming bucket ≡ ok survivors
      → Member c bucket
      → fits incoming c ≡ true
      → Member c survivors
  survivors_of_complete [] c h m f = elim m [ ]
  survivors_of_complete (d ∷ bucket) c h m f =
      let (props, found, rest, done, e) = survivors_of-cons d bucket h in
      ground (arith, survivors_of_complete bucket c done)

-- A claim's partner is a candidate, with its evidence level; no candidate has a higher level.
abbrev pub IsBestCandidate : List ScoredCandidate → Claim → Type 0
IsBestCandidate candidates c =
    (partner : CandidateRow) × Member (partner, c.iban_evidence) candidates
    × (partner.id ≡ c.partner_id)
    × All (λ s. rank s.1 ≤ rank c.iban_evidence) candidates

decide_single-claim :
    (incoming : Incoming) (partner : CandidateRow) (evidence : PairEvidence) (decisive : Bool)
    {c : Claim}
    → decide_single incoming partner evidence decisive ≡ ok (claim c)
    → (props : AccountProps) × (subscript incoming.account_props_by_id partner.account_id
        ≡ ok props)
      × (c ≡ record {
        partner_id = partner.id;
        iban_evidence = evidence;
        description_decisive = decisive;
        canary_anomaly =
            build_canary_if_inconsistent incoming.id partner props incoming.description
              incoming.acc_props;
      })
unfolding decide_single
decide_single-claim incoming partner evidence decisive h =
    let (props, found, e) = >>=-eq-ok _ _ h in (props, found, ground arith)

decide_survivors-claim :
    (incoming : Incoming) (evidence : PairEvidence) (bucket survivors : List CandidateRow)
    {c : Claim}
    → decide_survivors incoming evidence bucket survivors ≡ ok (claim c)
    → (partner : CandidateRow) × (survivors ≡ partner ∷ [])
      × (decide_single incoming partner evidence (ltb 1 (length bucket)) ≡ ok (claim c))
unfolding decide_survivors
decide_survivors-claim incoming evidence bucket (partner ∷ []) h = (partner, refl, h)
decide_survivors-claim incoming evidence bucket [] h = absurd (ground arith)
decide_survivors-claim incoming evidence bucket (x ∷ y ∷ rest) h = absurd (ground arith)

-- What a claim out of several candidates says.
pub decide_many-claim :
    (incoming : Incoming) (candidates : List ScoredCandidate) {c : Claim}
    → decide_many incoming candidates ≡ ok (claim c)
    → let (evidence, bucket) = select_bucket candidates in
      (partner : CandidateRow) × (survivors_of incoming bucket ≡ ok (partner ∷ []))
      × (decide_single incoming partner evidence (ltb 1 (length bucket)) ≡ ok (claim c))
unfolding decide_many
decide_many-claim incoming candidates h =
    let (evidence, bucket) = select_bucket candidates in
    let (survivors, done, e) =
      >>=-eq-ok (survivors_of incoming bucket) (decide_survivors incoming evidence bucket) h in
    let (partner, one, single) = decide_survivors-claim incoming evidence bucket survivors e in
    (partner, rw (← one) done, single)

-- Whatever the number of candidates, a claim's partner is one of them, the claim reports the
-- partner's evidence level, and no candidate has a higher level.
pub decide-claim_best :
    (incoming : Incoming) (candidates : List ScoredCandidate) {c : Claim}
    → decide incoming candidates ≡ ok (claim c)
    → IsBestCandidate candidates c
unfolding decide decide_count_zero
decide-claim_best incoming [] h = absurd (ground arith)
decide-claim_best incoming ((partner, ev) ∷ []) h =
    let (props, found, e) = decide_single-claim incoming partner ev false h in
    subst (IsBestCandidate ((partner, ev) ∷ [])) (sym e)
      (partner, inl refl, refl, (omega arith, tt))
decide-claim_best incoming (s ∷ t ∷ rest) {c} h =
    let candidates = s ∷ t ∷ rest in
    let (partner, survived, single) = decide_many-claim incoming candidates h in
    let (props, found, e) = decide_single-claim incoming partner _ _ single in
    let (in_bucket, _) =
      survivors_of_sound incoming (select_bucket candidates).1 partner survived (inl refl) in
    let (whole, top) = select_bucket-IsHighest candidates in
    subst (IsBestCandidate candidates) (sym e) (
      partner,
      bucket_of-Member _ candidates partner (subst (Member partner) whole in_bucket),
      refl,
      top,
    )

-- A claim out of two or more candidates never carries a canary anomaly.
pub decide-no_canary :
    (incoming : Incoming) (s t : ScoredCandidate) (rest : List ScoredCandidate) {c : Claim}
    → decide incoming (s ∷ t ∷ rest) ≡ ok (claim c)
    → c.canary_anomaly ≡ none
unfolding decide build_canary_if_inconsistent
decide-no_canary incoming s t rest h =
    let candidates = s ∷ t ∷ rest in
    let (partner, survived, single) = decide_many-claim incoming candidates h in
    let (props, found, e) = decide_single-claim incoming partner _ _ single in
    let (_, fit) =
      survivors_of_sound incoming (select_bucket candidates).1 partner survived (inl refl) in
    ground arith

-- Where one of two or more candidates is claimed, it is a candidate of the level that the claim
-- reports; the descriptions of the pair fit its accounts, and those of no other candidate of the level.
pub decide-claim_unique :
    (incoming : Incoming) (s t : ScoredCandidate) (rest : List ScoredCandidate) {c : Claim}
    → decide incoming (s ∷ t ∷ rest) ≡ ok (claim c)
    → (partner : CandidateRow) × Member (partner, c.iban_evidence) (s ∷ t ∷ rest)
      × (partner.id ≡ c.partner_id)
      × (fits incoming partner ≡ true)
      × ((other : CandidateRow)
          → Member other (bucket_of c.iban_evidence (s ∷ t ∷ rest))
          → fits incoming other ≡ true
          → partner ≡ other)
unfolding decide
decide-claim_unique incoming s t rest {c} h =
    let candidates = s ∷ t ∷ rest in
    let (partner, survived, single) = decide_many-claim incoming candidates h in
    let (props, found, e) = decide_single-claim incoming partner _ _ single in
    let (in_bucket, fit) =
      survivors_of_sound incoming (select_bucket candidates).1 partner survived (inl refl) in
    let (whole, _) = select_bucket-IsHighest candidates in
    (
      partner,
      subst (λ ev. Member (partner, ev) candidates) (sym (ap (λ d. d.iban_evidence) e))
          (bucket_of-Member _ candidates partner (subst (Member partner) whole in_bucket)),
      sym (ap (λ d. d.partner_id) e),
      fit,
      λ other m f. only partner other (
          survivors_of_complete incoming (select_bucket candidates).1 other survived
            (subst (Member other) (ap (λ d. bucket_of d.iban_evidence candidates) e ∙ sym whole) m)
            f),
    )
  where
    only : (partner other : CandidateRow) → Member other (partner ∷ []) → partner ≡ other
    only partner other (inl same) = same
    only partner other (inr m) = elim m [ ]
