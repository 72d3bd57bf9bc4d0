-- ===== src/Enrichment/Links/Runs.antt =====
-- A run keeps the links mutual.
use grosh.Prelude.{
  ℕ, Bool, true, false, none, some, List, [], ◌∷◌, ◌++◌, ◌≡◌, ◌≢◌, ◌∙◌, refl, ap, sym, subst, inl,
  inr, Bool-cases, arith, ◌==◌, Member,
}
use grosh.Domain.{NormalizedTransaction, Transaction, Fields, ok}
use grosh.Database.{Database}
use grosh.Rates.Display.{Printer}
use grosh.Transfer.Queries.{transaction_exists, claim_pair, claimed, is_candidate}
use grosh.Transfer.Detector.{TransferResult}
use grosh.Enrichment.{transfer_strategies, inserted_row, run}
use grosh.Enrichment.Outcome.{IsOutcome}
use grosh.Enrichment.Parts.{
  IsKept, transaction_exists-claim_pair, run-parts, detection-IsOutcome, insert-cases,
  persist-parts,
}
use grosh.Enrichment.Links.{
  IsPaired, same_id, mark, claim_pair-Member, Member-claim_pair, IsDistinct-claim_pair,
  Member-append, Member-old, Member-new, IsDistinct-append, none_some, some_injective,
}

IsPaired-append_unlinked :
    (rows : List Transaction) (row : Transaction)
    → IsPaired rows
    → transaction_exists rows row.id ≡ false
    → row.related_transaction_id ≡ none
    → IsPaired (rows ++ row ∷ [])
IsPaired-append_unlinked rows row p h unlinked = record {
  distinct = IsDistinct-append rows row p.distinct h;
  linked = λ x m j e. elim (Member-append rows row x m) [
    | inl old ↦
        let (other, n, same, back) = p.linked x old j e in
        (other, Member-old rows row other n, same, back)
    | inr new ↦ absurd (none_some (sym unlinked ∙ ap (λ t. t.related_transaction_id) new ∙ e))
  ];
}

module _ (rows : List Transaction) (partner row : Transaction) (block : Fields) where
  abbrev marked : List Transaction
  marked = claim_pair rows partner.id row.id block

  abbrev mark' : Transaction → Transaction
  mark' = mark partner.id row.id block

  mark-id : (y : Transaction) → (mark' y).id ≡ y.id
  unfolding claimed
  mark-id y = ground arith

  mark_hit : (y : Transaction) → y.id ≡ partner.id → (mark' y).related_transaction_id ≡ some row.id
  unfolding claimed
  mark_hit y h = ground arith

  mark_miss : (y : Transaction) → y.id ≢ partner.id → mark' y ≡ y
  mark_miss y n = ground arith

  module _ (p : IsPaired rows) (m : Member partner rows)
      (free : partner.related_transaction_id ≡ none)
      (fresh : transaction_exists rows row.id ≡ false)
      (link : row.related_transaction_id ≡ some partner.id) where
    not_partner :
        (y other : Transaction)
        → Member other rows
        → other.related_transaction_id ≡ some y.id
        → other.id ≢ partner.id
    not_partner y other k back same = none_some (
        sym free
        ∙ ap (λ t. t.related_transaction_id) (sym (same_id rows other partner p.distinct k m same))
        ∙ back)

    linked_back :
        (y : Transaction)
        → Member y rows
        → (j : ℕ) → (mark partner.id row.id block y).related_transaction_id ≡ some j
        → (other : Transaction) × Member other (marked ++ row ∷ [])
          × (other.id ≡ j)
          × (other.related_transaction_id ≡ some (mark partner.id row.id block y).id)
    linked_back y n j e = elim (Bool-cases (y.id == partner.id)) [
      | inl hit ↦
          let same : y.id ≡ partner.id = ground (arith, hit) in
          (
            row,
            Member-new marked row,
            some_injective (sym (mark_hit y same) ∙ e),
            link ∙ ap some (sym same ∙ sym (mark-id y)),
          )
      | inr miss ↦
          let kept : mark' y ≡ y = mark_miss y (ground (arith, miss)) in
          let (other, k, same, back) =
            p.linked y n j (ap (λ t. t.related_transaction_id) (sym kept) ∙ e) in
          let unclaimed : mark' other ≡ other = mark_miss other (not_partner y other k back) in
          (
            other,
            Member-old marked row other (
                subst (λ t. Member t marked) unclaimed
                  (Member-claim_pair partner.id row.id block rows other k)),
            same,
            back ∙ ap (λ t. some t.id) (sym kept),
          )
    ]

    pub IsPaired-claim : IsPaired (marked ++ row ∷ [])
    IsPaired-claim = record {
      distinct =
          IsDistinct-append marked row
            (IsDistinct-claim_pair partner.id row.id block rows p.distinct)
            (transaction_exists-claim_pair rows partner.id row.id row.id block ∙ fresh);
      linked = λ x n j e. elim (Member-append marked row x n) [
        | inl old ↦
            let (y, inside, same) = claim_pair-Member partner.id row.id block rows x old in
            subst
              (λ x.
                x.related_transaction_id ≡ some j
                → (other : Transaction) × Member other (marked ++ row ∷ [])
                  × (other.id ≡ j)
                  × (other.related_transaction_id ≡ some x.id))
              same (linked_back y inside j) e
        | inr new ↦ (
          mark' partner,
          Member-old marked row (mark' partner)
              (Member-claim_pair partner.id row.id block rows partner m),
          mark-id partner ∙ some_injective (sym link ∙ ap (λ t. t.related_transaction_id) new ∙ e),
          mark_hit partner refl ∙ ap (λ t. some t.id) new,
        )
      ];
    }

candidate_unlinked :
    (tx : NormalizedTransaction) (row : Transaction)
    → is_candidate tx row ≡ true
    → row.related_transaction_id ≡ none
unfolding is_candidate
candidate_unlinked tx row h = ground arith

-- Appending the event's row after its detection.
appended-IsPaired :
    (locked : ℕ → Bool) (db db₁ : Database) (tx : NormalizedTransaction) (res : TransferResult)
    (row : Transaction)
    → row.id ≡ tx.id
    → row.related_transaction_id ≡ res.related_transaction_id
    → IsOutcome locked db tx res db₁
    → transaction_exists db₁.transactions row.id ≡ false
    → IsPaired db.transactions
    → IsPaired (db₁.transactions ++ row ∷ [])
appended-IsPaired locked db db₁ tx res row same link (inl (nothing, whole)) fresh p =
    IsPaired-append_unlinked db₁.transactions row (rw whole p) fresh (link ∙ nothing)
appended-IsPaired locked db db₁ tx res row same link
      (inr (new, partner, block, (m, free, _), claims, rows)) fresh p =
    let unknown : transaction_exists db.transactions row.id ≡ false =
      ap (transaction_exists db.transactions) same ∙ new in
    let marked_rows : db₁.transactions ≡ claim_pair db.transactions partner.id row.id block =
      rows ∙ ap (λ i. claim_pair db.transactions partner.id i block) (sym same) in
    rw marked_rows (
      IsPaired-claim db.transactions partner row block p m (candidate_unlinked tx partner free)
        unknown (link ∙ claims))

-- A stored event has claimed nothing.
known-IsPaired :
    (locked : ℕ → Bool) (db db₁ : Database) (tx : NormalizedTransaction) (res : TransferResult)
    → IsKept db db₁
    → IsOutcome locked db tx res db₁
    → transaction_exists db₁.transactions tx.id ≡ true
    → IsPaired db.transactions
    → IsPaired db₁.transactions
known-IsPaired locked db db₁ tx res kept (inl (nothing, whole)) known p = rw whole p
known-IsPaired locked db db₁ tx res kept (inr (new, _, _, _, _, _)) known p =
    cc (new, kept.ids tx.id, known)

-- A run that succeeds on rows whose ids are distinct, and whose links are mutual, leaves such rows:
-- each row that names a related row is named back by it.
pub run-IsPaired :
    (print : Printer) (locked : ℕ → Bool) (db : Database) (tx : NormalizedTransaction)
    {db' : Database}
    → run print (transfer_strategies locked) db tx ≡ ok db'
    → IsPaired db.transactions
    → IsPaired db'.transactions
unfolding inserted_row
run-IsPaired print locked db tx h p =
    let (account, res, db₁, conversion, metadata, a, d, c, e) =
      run-parts print (transfer_strategies locked) db tx h in
    let (kept, outcome) = detection-IsOutcome locked db tx d in
    let row =
      inserted_row tx account.currency_code res.special_category conversion metadata
        res.related_transaction_id in
    let (rows, inserted, whole) = persist-parts db₁ row res.anomalies e in
    subst (λ db'. IsPaired db'.transactions) whole
      (elim (insert-cases db₁.transactions row inserted) [
        | inl (known, same) ↦
            subst IsPaired same (known-IsPaired locked db db₁ tx res kept outcome known p)
        | inr (new, same) ↦
            subst IsPaired same (appended-IsPaired locked db db₁ tx res row refl refl outcome new p)
      ])
