-- ===== src/Normalization.antt =====
-- Raw events turned into the pipeline's (sources/monobank and sources/manual of
-- services/normalization/src/grosh_normalization, and shared/src/grosh_shared/domain/iso_4217.py).
-- What pydantic reads from a payload, the UUID5 of a text and the currencies that pycountry knows are
-- parameters. An instant is microseconds, and no statement is from before the epoch.
pub mod Parts
pub mod Replayed
pub mod Consumer
mod Examples
use Prim.Native.String.{◌++◌ as append_text}
use grosh.Prelude.{
  ℕ, zero, suc, ◌*◌, ◌/◌, ◌%◌, String, Bool, true, false, Option, none, some, List, [], ◌∷◌,
  if◌then◌else◌, ltb, leb, lookup,
}
use grosh.Domain.{
  ℤ, pos, negsuc, abs, TransactionDirection, NormalizedTransaction, Fields, end, field, text,
  object, put, Result, ok, raise, value_error, ◌>>=◌, or_raise,
}
use grosh.Backfill.{Envelope}

pub record MonobankStatementItem : Type 0 where
  pub id : String
  pub time : ℕ
  pub description : String
  pub mcc : ℤ
  pub original_mcc : ℤ
  pub hold : Bool
  pub amount : ℤ
  pub operation_amount : ℤ
  pub currency_code : ℤ
  pub cashback_amount : ℤ
  pub balance : ℤ
  pub comment : Option String
  pub receipt_id : Option String
  pub invoice_id : Option String
  pub counter_edrpou : Option String
  pub counter_iban : Option String
  pub counter_name : Option String

-- `amount_cents` is never negative, as that of the event it becomes.
pub record ManualTransactionPayload : Type 0 where
  pub id : ℕ
  pub source_id : String
  pub amount_cents : ℕ
  pub operation_currency_code : String
  pub description : Option String
  pub time : ℕ
  pub direction : TransactionDirection
  pub mcc : Option String
  pub rate_source : Option String

-- Payloads as they arrive, read by `model_validate`; `uuid5` in the service's namespace; the alpha-3
-- code of a numeric one.
pub record Outside {ℓ} (A : Type ℓ) : Type ℓ where
  pub read_item : A → Option MonobankStatementItem
  pub read_manual : A → Option ManualTransactionPayload
  pub uuid5 : String → ℕ
  pub find_currency : String → Option String

-- Python's `str` of an int
abbrev digits : List String
digits = "0" ∷ "1" ∷ "2" ∷ "3" ∷ "4" ∷ "5" ∷ "6" ∷ "7" ∷ "8" ∷ "9" ∷ []

pick : List String → ℕ → String
pick [] n = ""
pick (d ∷ ds) zero = d
pick (d ∷ ds) (suc n) = pick ds n

digit_text : ℕ → String
unfolding pick
digit_text = pick digits

-- On fuel, of which the number itself is enough.
digits_text : ℕ → ℕ → String
unfolding digit_text
digits_text zero n = digit_text (n % 10)
digits_text (suc fuel) n = elim (n / 10) [
  | zero ↦ digit_text (n % 10)
  | suc q ↦ append_text (digits_text fuel (suc q)) (digit_text (n % 10))
]

unfoldable pub int_text : ℤ → String
unfolding digits_text
int_text (pos n) = digits_text n n
int_text (negsuc n) = append_text "-" (digits_text (suc n) (suc n))

-- `str(code).zfill(3)`: the zeros stand after a sign.
unfoldable pub padded : ℤ → String
unfolding int_text digits_text
padded (pos n) =
    if ltb n 10
    then append_text "00" (digits_text n n)
    else (if ltb n 100 then append_text "0" (digits_text n n) else digits_text n n)
padded (negsuc n) =
    append_text "-" (
      if ltb n 9
      then append_text "0" (digits_text (suc n) (suc n))
      else digits_text (suc n) (suc n))

-- `_OVERRIDES`
unfoldable pub overrides : List (String × String)
overrides = ("975", "BGN") ∷ ("946", "RON") ∷ []

unfoldable pub numeric_to_alpha : (String → Option String) → ℤ → Result String
unfolding padded overrides
numeric_to_alpha find_currency code = elim (lookup (padded code) overrides) [
  | some override ↦ ok override
  | none ↦ or_raise (find_currency (padded code)) value_error
]

unfoldable pub generate_transaction_id : (String → ℕ) → String → String → ℕ
generate_transaction_id uuid5 source source_id =
    uuid5 (append_text source (append_text ":" source_id))

-- The last second of the year 9999; `fromtimestamp` raises for a later one.
abbrev pub last_timestamp : ℕ
last_timestamp = 253_402_300_799

unfoldable pub from_timestamp : ℕ → Result ℕ
from_timestamp time = if leb time last_timestamp then ok (time * 1_000_000) else raise value_error

unfoldable pub direction_of : ℤ → TransactionDirection
direction_of (pos zero) = TransactionDirection.zero
direction_of (pos (suc n)) = TransactionDirection.income
direction_of (negsuc n) = TransactionDirection.expense

-- The loop over the optional texts.
add_texts : List (String × Option String) → Fields → Fields
unfolding put
add_texts [] fields = fields
add_texts ((key, none) ∷ items) fields = add_texts items fields
add_texts ((key, some value) ∷ items) fields = add_texts items (put key (text value) fields)

abbrev optional_texts : MonobankStatementItem → List (String × Option String)
optional_texts item =
    ("comment", item.comment)
    ∷ ("receipt_id", item.receipt_id)
    ∷ ("invoice_id", item.invoice_id)
    ∷ ("counter_edrpou", item.counter_edrpou)
    ∷ ("counter_name", item.counter_name)
    ∷ []

unfoldable pub source_fields : MonobankStatementItem → Fields
unfolding add_texts
source_fields item = add_texts (optional_texts item) end

abbrev source_metadata : Fields → Option Fields
source_metadata end = none
source_metadata (field k v fields) = some (field "source" (object (field k v fields)) end)

-- The event, once its instant and its currency are known.
unfoldable pub event_of :
    {A : Type 0}
    → Outside A
    → Envelope A
    → MonobankStatementItem
    → ℕ
    → String
    → NormalizedTransaction
event_of outside envelope item time currency = record {
  id = generate_transaction_id outside.uuid5 "monobank" item.id;
  source = "monobank";
  source_id = item.id;
  user_id = envelope.user_id;
  account_id = envelope.account_id;
  time = time;
  amount_cents = abs item.amount;
  operation_amount_cents = some (abs item.operation_amount);
  operation_currency_code = currency;
  description = some item.description;
  mcc = some (int_text item.mcc);
  cashback_amount_cents = item.cashback_amount;
  balance_cents = some item.balance;
  hold = some item.hold;
  direction = direction_of item.amount;
  counterparty_iban = item.counter_iban;
  rate_source = some "monobank";
  metadata = source_metadata (source_fields item);
}

unfoldable pub normalize_item :
    {A : Type 0} → Outside A → Envelope A → MonobankStatementItem → Result NormalizedTransaction
unfolding event_of
normalize_item outside envelope item = do
  time ← from_timestamp item.time
  currency ← numeric_to_alpha outside.find_currency item.currency_code
  ok (event_of outside envelope item time currency)

-- `MonobankNormalizer.normalize`; a ValidationError is a ValueError.
unfoldable pub normalize_monobank :
    {A : Type 0} → Outside A → Envelope A → Result NormalizedTransaction
unfolding normalize_item
normalize_monobank outside envelope = do
  item ← or_raise (outside.read_item envelope.payload) value_error
  normalize_item outside envelope item

unfoldable pub manual_event_of :
    {A : Type 0} → Envelope A → ManualTransactionPayload → NormalizedTransaction
manual_event_of envelope payload = record {
  id = payload.id;
  source = "manual";
  source_id = payload.source_id;
  user_id = envelope.user_id;
  account_id = envelope.account_id;
  time = payload.time;
  amount_cents = payload.amount_cents;
  operation_amount_cents = some payload.amount_cents;
  operation_currency_code = payload.operation_currency_code;
  description = payload.description;
  mcc = payload.mcc;
  cashback_amount_cents = pos 0;
  balance_cents = none;
  hold = some false;
  direction = payload.direction;
  counterparty_iban = none;
  rate_source = payload.rate_source;
  metadata = some (field "source" (object end) end);
}

-- `ManualNormalizer.normalize`
unfoldable pub normalize_manual :
    {A : Type 0} → Outside A → Envelope A → Result NormalizedTransaction
unfolding manual_event_of
normalize_manual outside envelope = do
  payload ← or_raise (outside.read_manual envelope.payload) value_error
  ok (manual_event_of envelope payload)
