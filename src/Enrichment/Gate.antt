-- ===== src/Enrichment/Gate.antt =====
-- When the detection writes a metadata block (the first steps of `detect_and_pair` in
-- services/enrichment/src/grosh_enrichment/sources/monobank/transfer/detector.py).
use grosh.Prelude.{
  ℕ, Bool, true, false, not, ◌&&◌, ◌≡◌, ◌∙◌, refl, ap, sym, inl, inr, ◌⊎◌, if◌then◌else◌, is_some,
}
use grosh.Domain.{NormalizedTransaction, Fields, Result, ok, ok-injective}
use grosh.Database.{Database}
use grosh.Transfer.Flags.{RowFlags, IbanMap, compute_row_flags}
use grosh.Transfer.Evidence.{is_unlinked}
use grosh.Transfer.Decision.{Decision, claim, anomaly, skip}
use grosh.Transfer.Metadata.{build_row_block}
use grosh.Transfer.Queries.{transaction_exists, text_column_is, wire_transfer}
use grosh.Transfer.Detector.{
  TransferResult, empty_result, is_zero, detect_and_pair, pair_up, apply_decision, handle_unlinked,
  present, inputs_of_tx, batch_resolve_ibans,
}
use grosh.Enrichment.Outcome.{pair_up-decision}

-- A wire transfer whose amount is not zero, and that is not stored yet.
abbrev pub passes_gate : Database → NormalizedTransaction → Bool
passes_gate db tx =
    text_column_is tx.mcc wire_transfer
    && not (is_zero tx.direction)
    && not (transaction_exists db.transactions tx.id)

gate_cases :
    {A : Type 0} (a b c d : Bool) (x y z r : A)
    → (if not a then x else (if b then x else (if c then x else (if d then y else z)))) ≡ r
    → (((a && not b && not c) ≡ false) × (x ≡ r))
      ⊎ ((a && not b && not c) ≡ true) × ((y ≡ r) ⊎ (z ≡ r))
gate_cases false b c d x y z r h = inl (refl, h)
gate_cases true true c d x y z r h = inl (refl, h)
gate_cases true false true d x y z r h = inl (refl, h)
gate_cases true false false true x y z r h = inr (refl, inl h)
gate_cases true false false false x y z r h = inr (refl, inr h)

apply_decision-block :
    (db : Database) (tx : NormalizedTransaction) (d : Decision) (block : Fields)
    → is_some (apply_decision db tx d block).0.metadata_block ≡ true
unfolding apply_decision
apply_decision-block db tx skip block = refl
apply_decision-block db tx (anomaly a) block = refl
apply_decision-block db tx (claim c) block = refl

-- A detection that succeeds has a metadata block exactly where the event is a wire transfer (MCC
-- 4829) whose direction is not zero and that is not stored yet.
pub detect_and_pair-metadata_block :
    (locked : ℕ → Bool) (db : Database) (tx : NormalizedTransaction) {res : TransferResult}
    {db' : Database}
    → detect_and_pair locked db tx ≡ ok (res, db')
    → is_some res.metadata_block ≡ passes_gate db tx
unfolding detect_and_pair handle_unlinked
detect_and_pair-metadata_block locked db tx {res} {db'} h = elim gated [
  | inl (closed, e) ↦ block_of e refl ∙ sym closed
  | inr (opened, inl e) ↦ block_of e refl ∙ sym opened
  | inr (opened, inr e) ↦
      let (incoming, d, decided, applied) = pair_up-decision locked db tx flags ibans e in
      sym (ap (λ p. is_some p.0.metadata_block) applied)
      ∙ apply_decision-block db tx d (build_row_block flags)
      ∙ sym opened
]
  where
    ibans : IbanMap
    ibans = batch_resolve_ibans db.accounts tx.user_id (present tx.counterparty_iban)

    flags : RowFlags
    flags = compute_row_flags (inputs_of_tx tx) ibans

    nothing : Result (TransferResult × Database)
    nothing = ok (empty_result, db)

    found : Result (TransferResult × Database)
    found = ok (handle_unlinked tx flags (build_row_block flags), db)

    gated :
        ((passes_gate db tx ≡ false) × (nothing ≡ ok (res, db')))
        ⊎ (passes_gate db tx ≡ true)
          × ((found ≡ ok (res, db')) ⊎ (pair_up locked db tx flags ibans ≡ ok (res, db')))
    gated =
        gate_cases (text_column_is tx.mcc wire_transfer) (is_zero tx.direction)
          (transaction_exists db.transactions tx.id) (is_unlinked flags.cp_iban_status) nothing
          found (pair_up locked db tx flags ibans) (ok (res, db')) h

    block_of :
        {s : TransferResult} {b : Bool}
        → ◌≡◌ {A = Result (TransferResult × Database)} (ok (s, db)) (ok (res, db'))
        → is_some s.metadata_block ≡ b
        → is_some res.metadata_block ≡ b
    block_of e k = ap (λ p. is_some p.0.metadata_block) (sym (ok-injective e)) ∙ k
