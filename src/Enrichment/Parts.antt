-- ===== src/Enrichment/Parts.antt =====
-- A run taken apart: the detection, the stored row, and what they leave as it was.
use grosh.Prelude.{
  ℕ, Bool, true, false, Option, List, [], ◌∷◌, ◌++◌, ◌≡◌, ◌∙◌, refl, ap, sym, subst, inl, inr, ◌⊎◌,
  Bool-cases, arith, str_eq,
}
use grosh.Domain.{
  NormalizedTransaction, Transaction, Fields, Result, ok, ◌>>=◌, >>=-eq-ok, ok-injective,
}
use grosh.Accounts.{AccountProps, get_by_id}
use grosh.Database.{Database}
use grosh.Rates.Display.{Printer, ConversionResult, convert}
use grosh.Transfer.Decision.{Decision, claim, anomaly, skip}
use grosh.Transfer.Records.{AnomalyRecord}
use grosh.Transfer.Queries.{transaction_exists, claim_pair}
use grosh.Transfer.Detector.{TransferResult, empty_result, detect_and_pair, apply_decision}
use grosh.Enrichment.Outcome.{
  IsOutcome, detect_and_pair-IsOutcome, pair_up-decision, detect_and_pair-cases,
}
use grosh.Enrichment.{
  Strategies, transfer_strategies, run_transfer_detection, build_metadata, layer_contributions,
  inserted_row, insert, persist, record_anomalies, run,
}

-- What a run leaves as it was, the rows' ids included.
pub record IsKept (db db' : Database) : Type 0 where
  pub accounts : db'.accounts ≡ db.accounts
  pub rates : db'.currency_rates ≡ db.currency_rates
  pub configs : db'.rate_source_config ≡ db.rate_source_config
  pub ids : (i : ℕ) → transaction_exists db'.transactions i ≡ transaction_exists db.transactions i

pub IsKept-refl : (db : Database) → IsKept db db
IsKept-refl db = record { accounts = refl; rates = refl; configs = refl; ids = λ i. refl }

pub transaction_exists-claim_pair :
    (rows : List Transaction) (partner new i : ℕ) (block : Fields)
    → transaction_exists (claim_pair rows partner new block) i ≡ transaction_exists rows i
unfolding transaction_exists claim_pair
transaction_exists-claim_pair [] partner new i block = refl
transaction_exists-claim_pair (row ∷ rows) partner new i block =
    ground (arith, transaction_exists-claim_pair rows partner new i block)

apply_decision-IsKept :
    (db : Database) (tx : NormalizedTransaction) (d : Decision) (block : Fields)
    → IsKept db (apply_decision db tx d block).1
unfolding apply_decision
apply_decision-IsKept db tx skip block = IsKept-refl db
apply_decision-IsKept db tx (anomaly found) block = IsKept-refl db
apply_decision-IsKept db tx (claim c) block = record {
  accounts = refl;
  rates = refl;
  configs = refl;
  ids = λ i. transaction_exists-claim_pair db.transactions c.partner_id tx.id i _;
}

pub detect_and_pair-known :
    (locked : ℕ → Bool) (db : Database) (tx : NormalizedTransaction)
    → transaction_exists db.transactions tx.id ≡ true
    → detect_and_pair locked db tx ≡ ok (empty_result, db)
unfolding detect_and_pair
detect_and_pair-known locked db tx h = ground (arith, h)

pub detect_and_pair-IsKept :
    (locked : ℕ → Bool) (db : Database) (tx : NormalizedTransaction) {res : TransferResult}
    {db' : Database}
    → detect_and_pair locked db tx ≡ ok (res, db')
    → IsKept db db'
detect_and_pair-IsKept locked db tx {res} {db'} h = elim (detect_and_pair-cases locked db tx h) [
  | inl (_, same) ↦ subst (IsKept db) (sym same) (IsKept-refl db)
  | inr (new, flags, ibans, e) ↦
      let (incoming, d, decided, applied) = pair_up-decision locked db tx flags ibans e in
      subst (IsKept db) (ap (λ p. p.1) applied) (apply_decision-IsKept db tx d _)
]

-- The parts of a run that succeeds.
pub run-parts :
    (print : Printer) (strategies : Strategies) (db : Database) (tx : NormalizedTransaction)
    {db₂ : Database}
    → run print strategies db tx ≡ ok db₂
    → (account : AccountProps) × (res : TransferResult) × (db₁ : Database)
      × (conversion : ConversionResult) × (metadata : Option Fields) × (get_by_id db.accounts
            tx.account_id
          ≡ ok account)
      × (run_transfer_detection strategies db tx ≡ ok (res, db₁))
      × (convert print db₁.currency_rates db₁.rate_source_config tx account.currency_code
          ≡ ok conversion)
      × (persist db₁
            (inserted_row tx account.currency_code res.special_category conversion metadata
              res.related_transaction_id)
            res.anomalies
          ≡ ok db₂)
unfolding run
run-parts print strategies db tx h =
    let (account, found, a) = >>=-eq-ok (get_by_id db.accounts tx.account_id) after_account h in
    let ((res, db₁), detected, b) =
      >>=-eq-ok (run_transfer_detection strategies db tx) (after_detection account) a in
    let (conversion, converted, c) =
      >>=-eq-ok (convert print db₁.currency_rates db₁.rate_source_config tx account.currency_code)
        (after_conversion account res db₁) b in
    let (metadata, built, d) =
      >>=-eq-ok
        (build_metadata tx.metadata
          (layer_contributions conversion.rate_metadata res.metadata_block))
        (finish account res db₁ conversion) c in
    (account, res, db₁, conversion, metadata, found, detected, converted, d)
  where
    finish :
        AccountProps
        → TransferResult
        → Database
        → ConversionResult
        → Option Fields
        → Result Database
    finish account res db₁ conversion metadata =
        persist db₁
          (inserted_row tx account.currency_code res.special_category conversion metadata
            res.related_transaction_id)
          res.anomalies

    after_conversion : AccountProps → TransferResult → Database → ConversionResult → Result Database
    after_conversion account res db₁ conversion =
        build_metadata tx.metadata (layer_contributions conversion.rate_metadata res.metadata_block)
        >>= finish account res db₁ conversion

    after_detection : AccountProps → TransferResult × Database → Result Database
    after_detection account (res, db₁) =
        convert print db₁.currency_rates db₁.rate_source_config tx account.currency_code
        >>= after_conversion account res db₁

    after_account : AccountProps → Result Database
    after_account account = run_transfer_detection strategies db tx >>= after_detection account

-- The monobank strategy, or none.
pub detection-cases :
    (locked : ℕ → Bool) (db : Database) (tx : NormalizedTransaction)
    → (run_transfer_detection (transfer_strategies locked) db tx ≡ detect_and_pair locked db tx)
      ⊎ (run_transfer_detection (transfer_strategies locked) db tx ≡ ok (empty_result, db))
unfolding run_transfer_detection
detection-cases locked db tx = elim (Bool-cases (str_eq "monobank" tx.source)) [
  | inl e ↦ inl (rw (run_transfer_detection, e))
  | inr e ↦ inr (rw (run_transfer_detection, e))
]

pub detection-known :
    (locked : ℕ → Bool) (db : Database) (tx : NormalizedTransaction)
    → transaction_exists db.transactions tx.id ≡ true
    → run_transfer_detection (transfer_strategies locked) db tx ≡ ok (empty_result, db)
detection-known locked db tx h = elim (detection-cases locked db tx) [
  | inl e ↦ e ∙ detect_and_pair-known locked db tx h
  | inr e ↦ e
]

pub detection-IsOutcome :
    (locked : ℕ → Bool) (db : Database) (tx : NormalizedTransaction) {res : TransferResult}
    {db' : Database}
    → run_transfer_detection (transfer_strategies locked) db tx ≡ ok (res, db')
    → IsKept db db' × IsOutcome locked db tx res db'
detection-IsOutcome locked db tx h = elim (detection-cases locked db tx) [
  | inl e ↦ (
    detect_and_pair-IsKept locked db tx (sym e ∙ h),
    detect_and_pair-IsOutcome locked db tx (sym e ∙ h),
  )
  | inr e ↦
      let same = ok-injective (sym e ∙ h) in
      (
        subst (IsKept db) (ap (λ p. p.1) same) (IsKept-refl db),
        inl (ap (λ p. p.0.related_transaction_id) (sym same), ap (λ p. p.1) (sym same)),
      )
]

pub exists_append :
    (rows : List Transaction) (row : Transaction)
    → transaction_exists (rows ++ row ∷ []) row.id ≡ true
unfolding transaction_exists
exists_append [] row = ground arith
exists_append (r ∷ rows) row = ground (arith, exists_append rows row)

-- An insert that succeeds leaves the rows as they were, or appends one of a new id.
pub insert-cases :
    (rows : List Transaction) (row : Transaction) {rows' : List Transaction}
    → insert rows row ≡ ok rows'
    → ((transaction_exists rows row.id ≡ true) × (rows ≡ rows'))
      ⊎ ((transaction_exists rows row.id ≡ false) × (rows ++ row ∷ [] ≡ rows'))
unfolding insert
insert-cases rows row h = ground arith

pub exists_insert :
    (rows : List Transaction) (row : Transaction) {rows' : List Transaction}
    → insert rows row ≡ ok rows'
    → transaction_exists rows' row.id ≡ true
exists_insert rows row h = elim (insert-cases rows row h) [
  | inl (known, same) ↦ subst (λ rs. transaction_exists rs row.id ≡ true) same known
  | inr (new, same) ↦
      subst (λ rs. transaction_exists rs row.id ≡ true) same (exists_append rows row)
]

-- An insert loses no id.
exists-appended :
    (rows : List Transaction) (row : Transaction) (i : ℕ)
    → transaction_exists rows i ≡ true
    → transaction_exists (rows ++ row ∷ []) i ≡ true
unfolding transaction_exists
exists-appended [] row i e = absurd (ground arith)
exists-appended (r ∷ rows) row i e = ground (arith, exists-appended rows row i)

pub insert-keeps :
    (rows : List Transaction) (row : Transaction) {rows' : List Transaction} (i : ℕ)
    → insert rows row ≡ ok rows'
    → transaction_exists rows i ≡ true
    → transaction_exists rows' i ≡ true
insert-keeps rows row i h k = elim (insert-cases rows row h) [
  | inl (_, same) ↦ subst (λ rs. transaction_exists rs i ≡ true) same k
  | inr (_, same) ↦ subst (λ rs. transaction_exists rs i ≡ true) same (exists-appended rows row i k)
]

pub insert_known :
    (rows : List Transaction) (row : Transaction)
    → transaction_exists rows row.id ≡ true
    → insert rows row ≡ ok rows
unfolding insert
insert_known rows row h = rw h refl

pub persist-parts :
    (db : Database) (row : Transaction) (anomalies : List AnomalyRecord) {db' : Database}
    → persist db row anomalies ≡ ok db'
    → (rows : List Transaction) × (insert db.transactions row ≡ ok rows)
      × (record db { transactions = rows; anomalies = record_anomalies db.anomalies anomalies }
          ≡ db')
unfolding persist
persist-parts db row anomalies h =
    let (rows, stored, e) = >>=-eq-ok (insert db.transactions row) store h in
    (rows, stored, ok-injective e)
  where
    store : List Transaction → Result Database
    store rows =
        ok (record db { transactions = rows; anomalies = record_anomalies db.anomalies anomalies })
