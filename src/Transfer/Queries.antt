-- ===== src/Transfer/Queries.antt =====
-- The detector's queries (services/enrichment/src/grosh_enrichment/sources/monobank/transfer/repo.py)
-- and those on anomalies (services/enrichment/src/grosh_enrichment/repositories/anomaly_repo.py).
-- A table is the list of its rows. `locked` tells which rows another open database transaction
-- holds: `FOR UPDATE SKIP LOCKED` leaves these out.
use grosh.Prelude.{
  ℕ, ◌+◌, String, Bool, true, false, not, ◌&&◌, ◌||◌, Option, none, some, List, [], ◌∷◌,
  if◌then◌else◌, ◌==◌, leb, is_some, str_eq, any,
}
use grosh.Domain.{
  TransactionDirection, is_expense, NormalizedTransaction, Transaction, SpecialCategory, Fields,
  object, end, get, put,
}
use grosh.Transfer.Records.{AnomalyRecord, ReasonCode}
use grosh.Transfer.Decision.{CandidateRow}

unfoldable pub transaction_exists : List Transaction → ℕ → Bool
transaction_exists [] tx_id = false
transaction_exists (row ∷ rows) tx_id = row.id == tx_id || transaction_exists rows tx_id

-- `MccCode.WIRE_TRANSFER.code`
abbrev pub wire_transfer : String
wire_transfer = "4829"

-- SQL's `column = $n`, which a NULL column never satisfies
abbrev pub column_is : Option ℕ → ℕ → Bool
column_is none v = false
column_is (some w) v = w == v

abbrev pub text_column_is : Option String → String → Bool
text_column_is none v = false
text_column_is (some w) v = str_eq w v

abbrev pub direction_eq : TransactionDirection → TransactionDirection → Bool
direction_eq TransactionDirection.income TransactionDirection.income = true
direction_eq TransactionDirection.expense TransactionDirection.expense = true
direction_eq TransactionDirection.zero TransactionDirection.zero = true
direction_eq _ _ = false

unfoldable pub opposite_direction : TransactionDirection → TransactionDirection
opposite_direction direction =
    if is_expense direction then TransactionDirection.income else TransactionDirection.expense

unfoldable pub first_clause_amount : NormalizedTransaction → ℕ
first_clause_amount tx = elim tx.operation_amount_cents [
  | none ↦ tx.amount_cents
  | some amount ↦ amount
]

-- `interval '2 seconds'`, in microseconds
abbrev pub window : ℕ
window = 2_000_000

-- The WHERE clause of the universal candidate fetch.
unfoldable pub is_candidate : NormalizedTransaction → Transaction → Bool
unfolding opposite_direction first_clause_amount
is_candidate tx row =
    row.user_id == tx.user_id
    && direction_eq row.direction (opposite_direction tx.direction)
    && text_column_is row.mcc wire_transfer
    && not (row.account_id == tx.account_id)
    && not (is_some row.related_transaction_id)
    && (row.amount_cents == first_clause_amount tx
        || column_is row.operation_amount_cents tx.amount_cents)
    && (leb tx.time (row.time + window) && leb row.time (tx.time + window))

unfoldable pub to_candidate : Transaction → CandidateRow
to_candidate row = record {
  id = row.id;
  account_id = row.account_id;
  direction = row.direction;
  counterparty_iban = row.counterparty_iban;
  description = row.description;
  amount_cents = row.amount_cents;
  operation_amount_cents = row.operation_amount_cents;
  time = row.time;
}

unfoldable pub find_universal_candidates :
    (ℕ → Bool) → List Transaction → NormalizedTransaction → List CandidateRow
unfolding is_candidate to_candidate
find_universal_candidates locked [] tx = []
find_universal_candidates locked (row ∷ rows) tx =
    let rest = find_universal_candidates locked rows tx in
    if is_candidate tx row && not (locked row.id) then to_candidate row ∷ rest else rest

-- The object at a key, or the empty one (`COALESCE(metadata -> key, '{}')`).
object_at : String → Fields → Fields
unfolding get
object_at key fields = elim (get key fields) [ some (object inner) ↦ inner | _ ↦ end ]

-- The nested `jsonb_set` calls, on metadata whose `layer` and `layer.transfer`, where present, are
-- objects.
unfoldable pub set_pair : Fields → Option Fields → Fields
unfolding object_at put
set_pair pair_block metadata =
    let top : Fields = elim metadata [ none ↦ end | some fields ↦ fields ] in
    let layer = object_at "layer" top in
    let transfer = object_at "transfer" layer in
    put "layer" (object (put "transfer" (object (put "pair" (object pair_block) transfer)) layer))
      top

unfoldable pub claimed : ℕ → Fields → Transaction → Transaction
unfolding set_pair
claimed new_id pair_block row = record row {
  related_transaction_id = some new_id;
  special_category = some SpecialCategory.transfer;
  metadata = some (set_pair pair_block row.metadata);
}

-- The UPDATE touches the rows whose id is `existing_id`.
unfoldable pub claim_pair : List Transaction → ℕ → ℕ → Fields → List Transaction
unfolding claimed
claim_pair [] existing_id new_id pair_block = []
claim_pair (row ∷ rows) existing_id new_id pair_block =
    (if row.id == existing_id then claimed new_id pair_block row else row)
    ∷ claim_pair rows existing_id new_id pair_block

-- `INSERT … ON CONFLICT (transaction_id) DO NOTHING`
unfoldable pub record_anomaly : List AnomalyRecord → AnomalyRecord → List AnomalyRecord
record_anomaly [] record_new = record_new ∷ []
record_anomaly (row ∷ rows) record_new =
    let rest = record_anomaly rows record_new in
    if row.transaction_id == record_new.transaction_id then row ∷ rows else row ∷ rest

abbrev pub is_unpaired : ReasonCode → Bool
is_unpaired ReasonCode.unpaired_from_description = true
is_unpaired ReasonCode.unpaired_to_description = true
is_unpaired _ = false

unfoldable pub delete_unpaired_anomalies_for_transactions :
    List AnomalyRecord → List ℕ → List AnomalyRecord
delete_unpaired_anomalies_for_transactions [] tx_ids = []
delete_unpaired_anomalies_for_transactions (row ∷ rows) tx_ids =
    let rest = delete_unpaired_anomalies_for_transactions rows tx_ids in
    if any (λ i. row.transaction_id == i) tx_ids && is_unpaired row.reason_code
    then rest
    else row ∷ rest
