-- ===== src/Transfer/Decision/Bucket.antt =====
-- The bucket-locked principle of `_select_bucket`.
use grosh.Prelude.{
  ℕ, ◌≤◌, false, Bool-cases, List, [], ◌∷◌, ◌≡◌, sym, inl, inr, All, All-map, All-zip, List-cases,
  arith,
}
use grosh.Transfer.Evidence.{PairEvidence}
use grosh.Transfer.Decision.{
  CandidateRow, ScoredCandidate, evidence_eq, bucket_of, select_bucket_from, select_bucket,
}

abbrev pub rank : PairEvidence → ℕ
rank PairEvidence.bilateral = 2
rank PairEvidence.unilateral = 1
rank PairEvidence.none = 0

bucket_of-eq-nil :
    (level : PairEvidence) (candidates : List ScoredCandidate)
    → bucket_of level candidates ≡ []
    → All (λ s. evidence_eq s.1 level ≡ false) candidates
unfolding bucket_of
bucket_of-eq-nil level [] h = tt
bucket_of-eq-nil level ((c, ev) ∷ rest) h = elim (Bool-cases (evidence_eq ev level)) [
  | inl e ↦ cc
  | inr e ↦ (e, bucket_of-eq-nil level rest (ground arith))
]

rank-le-none :
    (e : PairEvidence)
    → evidence_eq e PairEvidence.bilateral ≡ false
    → evidence_eq e PairEvidence.unilateral ≡ false
    → rank e ≤ 0
rank-le-none e h k = ground arith

rank-le-unilateral : (e : PairEvidence) → evidence_eq e PairEvidence.bilateral ≡ false → rank e ≤ 1
rank-le-unilateral e h = ground arith

rank-le-bilateral : (e : PairEvidence) → rank e ≤ 2
rank-le-bilateral e = ground arith

All-intro :
    {P : ScoredCandidate → Type 0}
    → ((s : ScoredCandidate) → P s)
    → (xs : List ScoredCandidate) → All P xs
All-intro f [] = tt
All-intro f (x ∷ xs) = (f x, All-intro f xs)

module _ (level : PairEvidence) (levels : List PairEvidence)
    (candidates : List ScoredCandidate) where
  first_bucket :
      {c : CandidateRow} {cs : List CandidateRow}
      → bucket_of level candidates ≡ c ∷ cs
      → select_bucket_from (level ∷ levels) candidates ≡ (level, c ∷ cs)
  unfolding select_bucket_from
  first_bucket e = rw (e, select_bucket_from)

  next_bucket :
      bucket_of level candidates ≡ []
      → select_bucket_from (level ∷ levels) candidates ≡ select_bucket_from levels candidates
  unfolding select_bucket_from
  next_bucket e = rw (e, select_bucket_from)

-- The bucket holds every candidate of its level, in order, and no candidate has a higher level.
abbrev pub IsHighest : List ScoredCandidate → PairEvidence × List CandidateRow → Type 0
IsHighest candidates (level, bucket) =
    (bucket ≡ bucket_of level candidates) × All (λ s. rank s.1 ≤ rank level) candidates

module _ (candidates : List ScoredCandidate) where
  none_left :
      bucket_of PairEvidence.bilateral candidates ≡ []
      → bucket_of PairEvidence.unilateral candidates ≡ []
      → IsHighest candidates (select_bucket_from (PairEvidence.none ∷ []) candidates)
  unfolding select_bucket_from
  none_left b u =
      let below : All (λ s. rank s.1 ≤ 0) candidates =
        All-zip (λ s. rank-le-none s.1) candidates (bucket_of-eq-nil _ candidates b)
          (bucket_of-eq-nil _ candidates u) in
      elim (List-cases (bucket_of PairEvidence.none candidates)) [
        | inl e ↦ rw (next_bucket _ [] candidates e) (sym e, below)
        | inr (c, cs, e) ↦ rw (first_bucket _ [] candidates e) (sym e, below)
      ]

  unilateral_left :
      bucket_of PairEvidence.bilateral candidates ≡ []
      → IsHighest candidates
          (select_bucket_from (PairEvidence.unilateral ∷ PairEvidence.none ∷ []) candidates)
  unilateral_left b = elim (List-cases (bucket_of PairEvidence.unilateral candidates)) [
    | inl e ↦ rw (next_bucket _ (PairEvidence.none ∷ []) candidates e) (none_left b e)
    | inr (c, cs, e) ↦
        rw (first_bucket _ (PairEvidence.none ∷ []) candidates e) (
          sym e,
          All-map (λ s. rank-le-unilateral s.1) candidates (bucket_of-eq-nil _ candidates b),
        )
  ]

  -- The selected bucket holds, in order, every candidate of its level, and no candidate has a higher
  -- level.
  pub select_bucket-IsHighest : IsHighest candidates (select_bucket candidates)
  unfolding select_bucket
  select_bucket-IsHighest = elim (List-cases (bucket_of PairEvidence.bilateral candidates)) [
    | inl e ↦
        rw (next_bucket _ (PairEvidence.unilateral ∷ PairEvidence.none ∷ []) candidates e)
          (unilateral_left e)
    | inr (c, cs, e) ↦
        rw (first_bucket _ (PairEvidence.unilateral ∷ PairEvidence.none ∷ []) candidates e)
          (sym e, All-intro (λ s. rank-le-bilateral s.1) candidates)
  ]
