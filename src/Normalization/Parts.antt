-- ===== src/Normalization/Parts.antt =====
-- What a normalized event says of the raw one.
use grosh.Prelude.{
  ℕ, zero, suc, ◌*◌, ◌≤◌, String, Bool, true, false, Option, none, some, List, [], ◌∷◌, ◌≡◌, ◌∙◌,
  inl, inr, refl, sym, ap, subst, arith, is_some, lookup, not, ◌&&◌, str_eq, str_eq_refl,
  str_eq_iff, Bool-cases,
}
use grosh.Domain.{
  ℤ, pos, negsuc, abs, TransactionDirection, NormalizedTransaction, Json, Fields, end, field, text,
  object, get, put, Result, ok, value_error, ◌>>=◌, >>=-eq-ok, ok-injective, or_raise,
}
use grosh.Backfill.{Envelope}
use grosh.Replay.Source.{get-put}
use grosh.Normalization.{
  MonobankStatementItem, Outside, numeric_to_alpha, from_timestamp, direction_of, event_of,
  source_fields, source_metadata, add_texts, optional_texts, normalize_item, normalize_monobank,
  last_timestamp, generate_transaction_id,
}

-- The amount with its sign, read back from the direction.
abbrev pub signed : TransactionDirection → ℕ → ℤ
signed TransactionDirection.income n = pos n
signed TransactionDirection.expense zero = pos zero
signed TransactionDirection.expense (suc n) = negsuc n
signed TransactionDirection.zero n = pos zero

signed-abs : (amount : ℤ) → signed (direction_of amount) (abs amount) ≡ amount
unfolding direction_of
signed-abs (pos zero) = refl
signed-abs (pos (suc n)) = refl
signed-abs (negsuc n) = refl

-- The object under "source".
abbrev pub source_part : Option Fields → Fields
source_part none = end
source_part (some fields) = elim (get "source" fields) [ some (object part) ↦ part | _ ↦ end ]

abbrev pub text_of : Option String → Option Json
text_of none = none
text_of (some value) = some (text value)

get-put_same : (k : String) (v : Json) (fields : Fields) → get k (put k v fields) ≡ some v
unfolding get put
get-put_same k v end = rw (str_eq_refl k) refl
get-put_same k v (field j w fields) = elim (Bool-cases (str_eq j k)) [
  | inl e ↦ rw (e, e) refl
  | inr e ↦ rw (e, e) (get-put_same k v fields)
]

-- The text that a list of optional texts has under a key.
abbrev text_under : String → List (String × Option String) → Option Json
text_under k items = elim (lookup k items) [ none ↦ none | some value ↦ text_of value ]

abbrev are_distinct : List (String × Option String) → Bool
are_distinct [] = true
are_distinct ((k, value) ∷ items) = not (is_some (lookup k items)) && are_distinct items

get-add_texts_other :
    (k : String) (items : List (String × Option String)) (fields : Fields)
    → lookup k items ≡ none
    → get k (add_texts items fields) ≡ get k fields
unfolding add_texts
get-add_texts_other k [] fields h = refl
get-add_texts_other k ((j, value) ∷ items) fields h = elim (Bool-cases (str_eq j k)) [
  | inl e ↦ absurd (ground (arith, e, h))
  | inr e ↦ skip value e (ground (arith, e, h)) (get-add_texts_other k items)
]
  where
    skip :
        (value : Option String)
        → str_eq j k ≡ false
        → lookup k items ≡ none
        → ((fs : Fields) → lookup k items ≡ none → get k (add_texts items fs) ≡ get k fs)
        → get k (add_texts ((j, value) ∷ items) fields) ≡ get k fields
    skip none e h rest = rest fields h
    skip (some t) e h rest = rest (put j (text t) fields) h ∙ get-put k j (text t) fields e

get-add_texts :
    (k : String) (items : List (String × Option String)) (fields : Fields)
    → are_distinct items ≡ true
    → get k fields ≡ none
    → get k (add_texts items fields) ≡ text_under k items
unfolding add_texts
get-add_texts k [] fields d h = h
get-add_texts k ((j, value) ∷ items) fields d h = elim (Bool-cases (str_eq j k)) [
  | inl e ↦
      let same : j ≡ k = (str_eq_iff j k).0 e in
      rw (text_under, e)
        (found same value (subst (λ t. lookup t items ≡ none) same (alone (lookup j items) _ d)))
  | inr e ↦
      rw (text_under, e)
        (skip value e (λ fs. get-add_texts k items fs (later (lookup j items) _ d)))
]
  where
    alone : (o : Option (Option String)) (b : Bool) → (not (is_some o) && b) ≡ true → o ≡ none
    alone none b h = refl
    alone (some v) b h = absurd (ground arith)

    later : (o : Option (Option String)) (b : Bool) → (not (is_some o) && b) ≡ true → b ≡ true
    later none b h = h
    later (some v) b h = absurd (ground arith)

    found :
        j ≡ k
        → (value : Option String) → lookup k items ≡ none
        → get k (add_texts ((j, value) ∷ items) fields) ≡ text_of value
    found same none missing = get-add_texts_other k items fields missing ∙ h
    found same (some t) missing =
        get-add_texts_other k items (put j (text t) fields) missing
        ∙ subst (λ i. get k (put i (text t) fields) ≡ some (text t)) (sym same)
            (get-put_same k (text t) fields)

    skip :
        (value : Option String)
        → str_eq j k ≡ false
        → ((fs : Fields) → get k fs ≡ none → get k (add_texts items fs) ≡ text_under k items)
        → get k (add_texts ((j, value) ∷ items) fields) ≡ text_under k items
    skip none e rest = rest fields h
    skip (some t) e rest = rest (put j (text t) fields) (get-put k j (text t) fields e ∙ h)

-- Each optional text of an item stands in the metadata under its key, and nothing under the key of a
-- text that is missing.
abbrev pub HasTexts : MonobankStatementItem → Fields → Type 0
HasTexts item part =
    (get "comment" part ≡ text_of item.comment)
    × (get "receipt_id" part ≡ text_of item.receipt_id)
    × (get "invoice_id" part ≡ text_of item.invoice_id)
    × (get "counter_edrpou" part ≡ text_of item.counter_edrpou)
    × (get "counter_name" part ≡ text_of item.counter_name)

unset : (k : String) → get k end ≡ none
unfolding get
unset k = refl

source_fields-HasTexts : (item : MonobankStatementItem) → HasTexts item (source_fields item)
unfolding source_fields
source_fields-HasTexts item = (
  under "comment",
  under "receipt_id",
  under "invoice_id",
  under "counter_edrpou",
  under "counter_name",
)
  where
    under :
        (k : String)
        → get k (add_texts (optional_texts item) end) ≡ text_under k (optional_texts item)
    under k = get-add_texts k (optional_texts item) end refl (unset k)

source_part-source_metadata : (fields : Fields) → source_part (source_metadata fields) ≡ fields
unfolding get
source_part-source_metadata end = refl
source_part-source_metadata (field k v fields) = refl

module _ {A : Type 0} (outside : Outside A) (envelope : Envelope A) where
  -- The event is that of an item.
  pub record IsItem (item : MonobankStatementItem) (tx : NormalizedTransaction) : Type 0 where
    pub in_range : item.time ≤ last_timestamp
    pub time : tx.time ≡ item.time * 1_000_000
    pub currency :
        numeric_to_alpha outside.find_currency item.currency_code ≡ ok tx.operation_currency_code
    pub id : tx.id ≡ generate_transaction_id outside.uuid5 "monobank" item.id
    pub owner : (tx.user_id ≡ envelope.user_id) × (tx.account_id ≡ envelope.account_id)
    pub amount : signed tx.direction tx.amount_cents ≡ item.amount
    pub texts : HasTexts item (source_part tx.metadata)

  from_timestamp-ok :
      (time : ℕ) {us : ℕ}
      → from_timestamp time ≡ ok us
      → (time ≤ last_timestamp) × (us ≡ time * 1_000_000)
  unfolding from_timestamp
  from_timestamp-ok time h = ground arith

  event_of-IsItem :
      (item : MonobankStatementItem) (time : ℕ) (currency : String)
      → from_timestamp item.time ≡ ok time
      → numeric_to_alpha outside.find_currency item.currency_code ≡ ok currency
      → IsItem item (event_of outside envelope item time currency)
  unfolding event_of
  event_of-IsItem item time currency t c = record {
    in_range = (from_timestamp-ok item.time t).0;
    time = (from_timestamp-ok item.time t).1;
    currency = c;
    id = refl;
    owner = (refl, refl);
    amount = signed-abs item.amount;
    texts =
        subst (HasTexts item) (sym (source_part-source_metadata (source_fields item)))
          (source_fields-HasTexts item);
  }

  normalize_item-IsItem :
      (item : MonobankStatementItem) {tx : NormalizedTransaction}
      → normalize_item outside envelope item ≡ ok tx
      → IsItem item tx
  unfolding normalize_item
  normalize_item-IsItem item h =
      let (time, t, h') = >>=-eq-ok (from_timestamp item.time) with_time h in
      let (currency, c, e) =
        >>=-eq-ok (numeric_to_alpha outside.find_currency item.currency_code) (finish time) h' in
      subst (IsItem item) (ok-injective e) (event_of-IsItem item time currency t c)
    where
      finish : ℕ → String → Result NormalizedTransaction
      finish time currency = ok (event_of outside envelope item time currency)

      with_time : ℕ → Result NormalizedTransaction
      with_time time = numeric_to_alpha outside.find_currency item.currency_code >>= finish time

  -- An envelope whose payload is a Monobank item, normalized: the item's time is at most the last
  -- second of the year 9999 and the event's is that second, the currency is the one of the item's
  -- numeric code, and the id that of the item's; the user and the account are the envelope's; the
  -- direction and the amount together give the signed amount of the item back; and each of the five
  -- optional texts is found in the metadata exactly where the item has it.
  pub normalize_monobank-IsItem :
      (item : MonobankStatementItem) {tx : NormalizedTransaction}
      → outside.read_item envelope.payload ≡ some item
      → normalize_monobank outside envelope ≡ ok tx
      → IsItem item tx
  unfolding normalize_monobank
  normalize_monobank-IsItem item r h =
      let (item', r', h') =
        >>=-eq-ok (or_raise (outside.read_item envelope.payload) value_error)
          (normalize_item outside envelope) h in
      let read : or_raise (outside.read_item envelope.payload) value_error ≡ ok item = rw r refl in
      let same : item' ≡ item = ok-injective (sym r' ∙ read) in
      normalize_item-IsItem item (ap (normalize_item outside envelope) (sym same) ∙ h')
