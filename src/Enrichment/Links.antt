-- ===== src/Enrichment/Links.antt =====
-- Links between rows (the UPDATE of `claim_pair` in
-- services/enrichment/src/grosh_enrichment/sources/monobank/transfer/repo.py and the insert of
-- services/enrichment/src/grosh_enrichment/repositories/transaction_repo.py).
pub mod Runs
use grosh.Prelude.{
  ℕ, Bool, true, false, none, some, List, [], ◌∷◌, ◌++◌, ◌≡◌, ◌≢◌, ◌∙◌, refl, ap, sym, subst, inl,
  inr, ◌⊎◌, Bool-cases, arith, if◌then◌else◌, ◌==◌, Member,
}
use grosh.Domain.{NormalizedTransaction, Transaction, Fields, ok}
use grosh.Database.{Database}
use grosh.Rates.Display.{Printer}
use grosh.Transfer.Queries.{transaction_exists, claim_pair, claimed, is_candidate}
use grosh.Transfer.Detector.{TransferResult}
use grosh.Enrichment.{transfer_strategies, inserted_row, run}
use grosh.Enrichment.Outcome.{IsOutcome}
use grosh.Enrichment.Parts.{
  IsKept, transaction_exists-claim_pair, run-parts, detection-IsOutcome, insert-cases,
  persist-parts,
}

-- No two rows have the same id.
unfoldable pub IsDistinct : List Transaction → Type 0
IsDistinct [] = Unit
IsDistinct (row ∷ rows) = (transaction_exists rows row.id ≡ false) × IsDistinct rows

-- Ids are distinct, and where a row names a related row, that row exists and names it back.
pub record IsPaired (rows : List Transaction) : Type 0 where
  pub distinct : IsDistinct rows
  pub linked :
      (row : Transaction)
      → Member row rows
      → (j : ℕ) → row.related_transaction_id ≡ some j
      → (other : Transaction) × Member other rows
        × (other.id ≡ j)
        × (other.related_transaction_id ≡ some row.id)

absent-Member :
    (rows : List Transaction) (row : Transaction) (i : ℕ)
    → Member row rows
    → transaction_exists rows i ≡ false
    → row.id ≢ i
unfolding transaction_exists
absent-Member [] row i m h = elim m [ ]
absent-Member (r ∷ rows) row i (inl e) h = λ same. ground arith
absent-Member (r ∷ rows) row i (inr m) h = absent-Member rows row i m (ground arith)

same_id :
    (rows : List Transaction) (a b : Transaction)
    → IsDistinct rows
    → Member a rows
    → Member b rows
    → a.id ≡ b.id
    → a ≡ b
unfolding IsDistinct
same_id [] a b d m n e = elim m [ ]
same_id (r ∷ rows) a b d (inl x) (inl y) e = sym x ∙ y
same_id (r ∷ rows) a b d (inl x) (inr y) e =
    absurd (absent-Member rows b r.id y d.0 (sym e ∙ ap (λ t. t.id) (sym x)))
same_id (r ∷ rows) a b d (inr x) (inl y) e =
    absurd (absent-Member rows a r.id x d.0 (e ∙ ap (λ t. t.id) (sym y)))
same_id (r ∷ rows) a b d (inr x) (inr y) e = same_id rows a b d.1 x y e

module _ (partner new : ℕ) (block : Fields) where
  -- What the UPDATE makes of one row.
  abbrev mark : Transaction → Transaction
  mark row = if row.id == partner then claimed new block row else row

  claim_pair-Member :
      (rows : List Transaction) (x : Transaction)
      → Member x (claim_pair rows partner new block)
      → (y : Transaction) × Member y rows × (mark y ≡ x)
  unfolding claim_pair
  claim_pair-Member [] x m = elim m [ ]
  claim_pair-Member (r ∷ rows) x (inl e) = (r, inl refl, e)
  claim_pair-Member (r ∷ rows) x (inr m) =
      let (y, n, e) = claim_pair-Member rows x m in (y, inr n, e)

  Member-claim_pair :
      (rows : List Transaction) (y : Transaction)
      → Member y rows
      → Member (mark y) (claim_pair rows partner new block)
  unfolding claim_pair
  Member-claim_pair [] y m = elim m [ ]
  Member-claim_pair (r ∷ rows) y (inl e) = inl (ap mark e)
  Member-claim_pair (r ∷ rows) y (inr m) = inr (Member-claim_pair rows y m)

  IsDistinct-claim_pair :
      (rows : List Transaction) → IsDistinct rows → IsDistinct (claim_pair rows partner new block)
  unfolding IsDistinct claim_pair claimed
  IsDistinct-claim_pair [] d = tt
  IsDistinct-claim_pair (r ∷ rows) d = (
    ground (arith, d.0, transaction_exists-claim_pair rows partner new r.id block),
    IsDistinct-claim_pair rows d.1,
  )

Member-append :
    (rows : List Transaction) (row x : Transaction)
    → Member x (rows ++ row ∷ [])
    → Member x rows ⊎ (row ≡ x)
Member-append [] row x (inl e) = inr e
Member-append [] row x (inr m) = elim m [ ]
Member-append (r ∷ rows) row x (inl e) = inl (inl e)
Member-append (r ∷ rows) row x (inr m) = elim (Member-append rows row x m) [
  | inl n ↦ inl (inr n)
  | inr e ↦ inr e
]

Member-old :
    (rows : List Transaction) (row x : Transaction) → Member x rows → Member x (rows ++ row ∷ [])
Member-old [] row x m = elim m [ ]
Member-old (r ∷ rows) row x (inl e) = inl e
Member-old (r ∷ rows) row x (inr m) = inr (Member-old rows row x m)

Member-new : (rows : List Transaction) (row : Transaction) → Member row (rows ++ row ∷ [])
Member-new [] row = inl refl
Member-new (r ∷ rows) row = inr (Member-new rows row)

exists-append :
    (rows : List Transaction) (row : Transaction) (i : ℕ)
    → transaction_exists rows i ≡ false
    → row.id ≢ i
    → transaction_exists (rows ++ row ∷ []) i ≡ false
unfolding transaction_exists
exists-append [] row i h n = ground arith
exists-append (r ∷ rows) row i h n = ground (arith, exists-append rows row i)

IsDistinct-append :
    (rows : List Transaction) (row : Transaction)
    → IsDistinct rows
    → transaction_exists rows row.id ≡ false
    → IsDistinct (rows ++ row ∷ [])
unfolding IsDistinct transaction_exists
IsDistinct-append [] row d h = (refl, tt)
IsDistinct-append (r ∷ rows) row d h = (
  exists-append rows row r.id d.0 (λ e. ground arith),
  IsDistinct-append rows row d.1 (ground arith),
)

none_some : {j : ℕ} → none ≡ some j → ⊥
none_some e = cc

some_injective : {i j : ℕ} → some i ≡ some j → i ≡ j
some_injective e = cc
