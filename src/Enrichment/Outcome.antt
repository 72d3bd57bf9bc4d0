-- ===== src/Enrichment/Outcome.antt =====
-- What the detection of one event can do (`detect_and_pair` of
-- services/enrichment/src/grosh_enrichment/sources/monobank/transfer/detector.py).
use grosh.Prelude.{
  ℕ, Bool, true, false, not, ◌&&◌, none, some, List, [], ◌∷◌, ◌≡◌, ◌∙◌, refl, ap, sym, inl, inr,
  ◌⊎◌, Bool-cases, arith, if◌then◌else◌, Member, map,
}
use grosh.Domain.{
  NormalizedTransaction, Transaction, Fields, Result, ok, ◌>>=◌, >>=-eq-ok, ok-injective,
}
use grosh.Accounts.{AccountProps, get_by_id, get_many_by_ids}
use grosh.Database.{Database}
use grosh.Transfer.Flags.{RowFlags, IbanMap, compute_row_flags}
use grosh.Transfer.Evidence.{Side, PairEvidence, is_unlinked}
use grosh.Transfer.Decision.{
  CandidateRow, ScoredCandidate, Claim, Decision, Incoming, claim, anomaly, skip, decide,
}
use grosh.Transfer.Decision.Claims.{decide-claim_best}
use grosh.Transfer.Metadata.{build_row_block, build_pair_block}
use grosh.Transfer.Queries.{
  transaction_exists, claim_pair, is_candidate, to_candidate, find_universal_candidates,
  text_column_is, wire_transfer,
}
use grosh.Transfer.Detector.{
  TransferResult, empty_result, is_zero, detect_and_pair, pair_up, apply_decision, handle_unlinked,
  score, filter_and_classify, present, inputs_of_tx, batch_resolve_ibans,
}

-- A row of the table that the query may return.
abbrev pub IsFree : (ℕ → Bool) → Database → NormalizedTransaction → Transaction → Type 0
IsFree locked db tx row =
    Member row db.transactions × (is_candidate tx row ≡ true) × (locked row.id ≡ false)

find_universal_candidates-IsFree :
    (locked : ℕ → Bool) (rows : List Transaction) (tx : NormalizedTransaction) (c : CandidateRow)
    → Member c (find_universal_candidates locked rows tx)
    → (row : Transaction) × Member row rows
      × (is_candidate tx row ≡ true)
      × (locked row.id ≡ false)
      × (row.id ≡ c.id)
unfolding find_universal_candidates
find_universal_candidates-IsFree locked [] tx c m = elim m [ ]
find_universal_candidates-IsFree locked (row ∷ rows) tx c m =
    let rest = find_universal_candidates-IsFree locked rows tx c in
    elim (Bool-cases (is_candidate tx row && not (locked row.id))) [
      | inl e ↦
          let m' : Member c (to_candidate row ∷ find_universal_candidates locked rows tx) =
            ground (arith, e, m) in
          elim m' [
            | inl same ↦ (row, inl refl, ground (arith, e), ground (arith, e), ap (λ d. d.id) same)
            | inr inside ↦ later (rest inside)
          ]
      | inr e ↦
          let m' : Member c (find_universal_candidates locked rows tx) = ground (arith, e, m) in
          later (rest m')
    ]
  where
    later :
        (found : Transaction) × Member found rows
          × (is_candidate tx found ≡ true)
          × (locked found.id ≡ false)
          × (found.id ≡ c.id)
        → (found : Transaction) × Member found (row ∷ rows)
          × (is_candidate tx found ≡ true)
          × (locked found.id ≡ false)
          × (found.id ≡ c.id)
    later (found, m', a, b, e) = (found, inr m', a, b, e)

score-Member :
    (incoming : Side) (ibans : IbanMap) (candidates : List CandidateRow) (c : CandidateRow)
    (ev : PairEvidence)
    → Member (c, ev) (score incoming ibans candidates)
    → Member c candidates
unfolding score
score-Member incoming ibans [] c ev m = elim m [ ]
score-Member incoming ibans (cand ∷ candidates) c ev m =
    let rest = score-Member incoming ibans candidates c ev in ground arith

-- The decision that a run of steps 3 to 7 took, and what it was applied to.
pub pair_up-decision :
    (locked : ℕ → Bool) (db : Database) (tx : NormalizedTransaction) (flags : RowFlags)
    (ibans : IbanMap) {res : TransferResult} {db' : Database}
    → pair_up locked db tx flags ibans ≡ ok (res, db')
    → (incoming : Incoming) × (d : Decision) × (decide incoming (
          filter_and_classify db.accounts tx flags
            (find_universal_candidates locked db.transactions tx)
            ibans)
        ≡ ok d)
      × (apply_decision db tx d (build_row_block flags) ≡ (res, db'))
unfolding pair_up
pair_up-decision locked db tx flags ibans h =
    let (props, found, e) =
      >>=-eq-ok (get_by_id db.accounts tx.account_id)
        (λ props. decide (incoming props) scored >>= finish) h in
    let (d, decided, e') = >>=-eq-ok (decide (incoming props) scored) finish e in
    (incoming props, d, decided, ok-injective e')
  where
    scored : List ScoredCandidate
    scored =
        filter_and_classify db.accounts tx flags
          (find_universal_candidates locked db.transactions tx) ibans

    incoming : AccountProps → Incoming
    incoming props = record {
      id = tx.id;
      description = tx.description;
      acc_props = props;
      account_props_by_id = get_many_by_ids db.accounts (map (λ s. s.0.account_id) scored);
    }

    finish : Decision → Result (TransferResult × Database)
    finish d = ok (apply_decision db tx d (build_row_block flags))

gates :
    {A : Type 0} (a b c d : Bool) (x y z r : A)
    → (if not a then x else (if b then x else (if c then x else (if d then y else z)))) ≡ r
    → (x ≡ r) ⊎ (c ≡ false) × ((y ≡ r) ⊎ (z ≡ r))
gates false b c d x y z r h = inl h
gates true true c d x y z r h = inl h
gates true false true d x y z r h = inl h
gates true false false true x y z r h = inr (refl, inl h)
gates true false false false x y z r h = inr (refl, inr h)

-- Either nothing is stored and nothing linked, or the event is new and a decision is applied.
pub detect_and_pair-cases :
    (locked : ℕ → Bool) (db : Database) (tx : NormalizedTransaction) {res : TransferResult}
    {db' : Database}
    → detect_and_pair locked db tx ≡ ok (res, db')
    → ((res.related_transaction_id ≡ none) × (db' ≡ db))
      ⊎ (transaction_exists db.transactions tx.id ≡ false)
        × (flags : RowFlags) × (ibans : IbanMap) × (pair_up locked db tx flags ibans
            ≡ ok (res, db'))
unfolding detect_and_pair handle_unlinked
detect_and_pair-cases locked db tx {res} {db'} h = elim gated [
  | inl e ↦ inl (unlinked e refl)
  | inr (new, inl e) ↦ inl (unlinked e refl)
  | inr (new, inr e) ↦ inr (new, flags, ibans, e)
]
  where
    ibans : IbanMap
    ibans = batch_resolve_ibans db.accounts tx.user_id (present tx.counterparty_iban)

    flags : RowFlags
    flags = compute_row_flags (inputs_of_tx tx) ibans

    nothing : Result (TransferResult × Database)
    nothing = ok (empty_result, db)

    found : Result (TransferResult × Database)
    found = ok (handle_unlinked tx flags (build_row_block flags), db)

    gated :
        (nothing ≡ ok (res, db'))
        ⊎ (transaction_exists db.transactions tx.id ≡ false)
          × ((found ≡ ok (res, db')) ⊎ (pair_up locked db tx flags ibans ≡ ok (res, db')))
    gated =
        gates (text_column_is tx.mcc wire_transfer) (is_zero tx.direction)
          (transaction_exists db.transactions tx.id) (is_unlinked flags.cp_iban_status) nothing
          found (pair_up locked db tx flags ibans) (ok (res, db')) h

    unlinked :
        {s : TransferResult}
        → ◌≡◌ {A = Result (TransferResult × Database)} (ok (s, db)) (ok (res, db'))
        → s.related_transaction_id ≡ none
        → (res.related_transaction_id ≡ none) × (db' ≡ db)
    unlinked e n =
        let same = ok-injective e in
        (ap (λ p. p.0.related_transaction_id) (sym same) ∙ n, ap (λ p. p.1) (sym same))

-- The partner of a claim is a row of the table that the query may return.
partner-IsFree :
    (locked : ℕ → Bool) (db : Database) (tx : NormalizedTransaction) (flags : RowFlags)
    (ibans : IbanMap) (incoming : Incoming) {c : Claim}
    → decide incoming (
        filter_and_classify db.accounts tx flags
          (find_universal_candidates locked db.transactions tx)
          ibans)
      ≡ ok (claim c)
    → (row : Transaction) × IsFree locked db tx row × (row.id ≡ c.partner_id)
unfolding filter_and_classify
partner-IsFree locked db tx flags ibans incoming h =
    let (partner, m, same, _) = decide-claim_best incoming _ h in
    let inside =
      score-Member _ _ (find_universal_candidates locked db.transactions tx) partner _ m in
    let (row, m', a, b, e) =
      find_universal_candidates-IsFree locked db.transactions tx partner inside in
    (row, (m', a, b), e ∙ same)

-- Nothing was changed, or a row that the query may return was claimed.
abbrev pub IsOutcome :
    (ℕ → Bool) → Database → NormalizedTransaction → TransferResult → Database → Type 0
IsOutcome locked db tx res db' =
    ((res.related_transaction_id ≡ none) × (db' ≡ db))
    ⊎ (transaction_exists db.transactions tx.id ≡ false)
      × (row : Transaction) × (block : Fields) × IsFree locked db tx row
      × (res.related_transaction_id ≡ some row.id)
      × (db'.transactions ≡ claim_pair db.transactions row.id tx.id block)

-- A detection that succeeds changes nothing of the database and links the event to no row; or the
-- event is new, it is linked to a row that the candidate query may return for it (one of the table
-- that passes the query's conditions and is not locked), and the transactions change only by the
-- claim of that row for the event.
pub detect_and_pair-IsOutcome :
    (locked : ℕ → Bool) (db : Database) (tx : NormalizedTransaction) {res : TransferResult}
    {db' : Database}
    → detect_and_pair locked db tx ≡ ok (res, db')
    → IsOutcome locked db tx res db'
unfolding apply_decision
detect_and_pair-IsOutcome locked db tx {res} {db'} h = elim (detect_and_pair-cases locked db tx h) [
  | inl nothing ↦ inl nothing
  | inr (new, flags, ibans, e) ↦
      let (incoming, d, decided, applied) = pair_up-decision locked db tx flags ibans e in
      applied_outcome flags ibans incoming d new decided applied
]
  where
    applied_outcome :
        (flags : RowFlags) (ibans : IbanMap) (incoming : Incoming) (d : Decision)
        → transaction_exists db.transactions tx.id ≡ false
        → decide incoming (
            filter_and_classify db.accounts tx flags
              (find_universal_candidates locked db.transactions tx)
              ibans)
          ≡ ok d
        → apply_decision db tx d (build_row_block flags) ≡ (res, db')
        → IsOutcome locked db tx res db'
    applied_outcome flags ibans incoming skip new decided applied =
        inl (ap (λ p. p.0.related_transaction_id) (sym applied), ap (λ p. p.1) (sym applied))
    applied_outcome flags ibans incoming (anomaly a) new decided applied =
        inl (ap (λ p. p.0.related_transaction_id) (sym applied), ap (λ p. p.1) (sym applied))
    applied_outcome flags ibans incoming (claim c) new decided applied =
        let (row, free, same) = partner-IsFree locked db tx flags ibans incoming decided in
        inr (
          new,
          row,
          build_pair_block c.iban_evidence c.description_decisive,
          free,
          ap (λ p. p.0.related_transaction_id) (sym applied) ∙ ap some (sym same),
          ap (λ p. p.1.transactions) (sym applied)
              ∙ ap
                  (λ i.
                    claim_pair db.transactions i tx.id
                      (build_pair_block c.iban_evidence c.description_decisive))
                  (sym same),
        )
