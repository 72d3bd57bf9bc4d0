-- ===== src/Normalization/Examples.antt =====
-- A card payment of 12.04 in hryvnias, and a loop over three messages.
use grosh.Prelude.{ℕ, true, Option, none, some, List, [], ◌∷◌, ◌≡◌, refl, inl}
use grosh.Domain.{
  pos, negsuc, TransactionDirection, NormalizedTransaction, end, field, text, object, ok, raise,
  value_error,
}
use grosh.Backfill.{Envelope}
use grosh.Kafka.{taken, produce}
use grosh.Rates.Display.{ConversionResult}
use grosh.Enrichment.{build_metadata, inserted_row}
use grosh.Replay.{read_row, to_normalized}
use grosh.Staging.{Store, route, lock_exists}
use grosh.Normalization.{
  MonobankStatementItem, Outside, int_text, padded, numeric_to_alpha, normalize_monobank,
  normalize_item, event_of, direction_of, source_fields, from_timestamp, generate_transaction_id,
}
use grosh.Normalization.Parts.{IsItem, normalize_monobank-IsItem}
use grosh.Normalization.Replayed.{normalize-replayed}
use grosh.Normalization.Consumer.{
  undecodable, unknown_source, routed, Turn, handle_message, consume, normalizer_registry,
}
use grosh.Normalization.Consumer.Routing.{IsSplit, events_of, consume-IsSplit}

leading_zero : padded (pos 36) ≡ "036"
unfolding padded
leading_zero = refl

minus_sign : int_text (negsuc 1203) ≡ "-1204"
unfolding int_text
minus_sign = refl

abbrev payment : MonobankStatementItem
payment = record {
  id = "m1";
  time = 1_700_000_000;
  description = "Coffee";
  mcc = pos 5814;
  original_mcc = pos 5814;
  hold = true;
  amount = negsuc 1203;
  operation_amount = negsuc 1203;
  currency_code = pos 980;
  cashback_amount = pos 0;
  balance = pos 5_000;
  comment = some "with milk";
  receipt_id = none;
  invoice_id = none;
  counter_edrpou = none;
  counter_iban = none;
  counter_name = some "Cafe";
}

-- A payload is the item itself.
abbrev outside : Outside MonobankStatementItem
outside = record {
  read_item = λ item. some item;
  read_manual = λ item. none;
  uuid5 = λ t. 77;
  find_currency = λ code. some "UAH";
}

abbrev envelope : Envelope MonobankStatementItem
envelope = record { user_id = 7; account_id = 1; source = "monobank"; payload = payment }

overridden : numeric_to_alpha (λ code. none) (pos 975) ≡ ok "BGN"
unfolding numeric_to_alpha
overridden = refl

unknown_code : numeric_to_alpha (λ code. none) (pos 36) ≡ raise value_error
unfolding numeric_to_alpha
unknown_code = refl

abbrev event : NormalizedTransaction
event = record {
  id = 77;
  source = "monobank";
  source_id = "m1";
  user_id = 7;
  account_id = 1;
  time = 1_700_000_000_000_000;
  amount_cents = 1204;
  operation_amount_cents = some 1204;
  operation_currency_code = "UAH";
  description = some "Coffee";
  mcc = some "5814";
  cashback_amount_cents = pos 0;
  balance_cents = some (pos 5_000);
  hold = some true;
  direction = TransactionDirection.expense;
  counterparty_iban = none;
  rate_source = some "monobank";
  metadata = some (
      field "source"
        (object (field "comment" (text "with milk") (field "counter_name" (text "Cafe") end))) end);
}

normalized : normalize_monobank outside envelope ≡ ok event
unfolding normalize_monobank normalize_item event_of from_timestamp numeric_to_alpha int_text
    direction_of source_fields generate_transaction_id
normalized = refl

normalize_monobank-IsItem_example : IsItem outside envelope payment event
normalize_monobank-IsItem_example =
    normalize_monobank-IsItem outside envelope payment refl normalized

abbrev conversion : ConversionResult
conversion = record { uah = some 1204; usd = none; eur = none; rate_metadata = end }

built : build_metadata event.metadata [] ≡ ok event.metadata
unfolding build_metadata
built = refl

normalize-replayed_example :
    to_normalized (read_row (inserted_row event "UAH" none conversion event.metadata none)) ≡ event
normalize-replayed_example =
    normalize-replayed outside envelope event (inl normalized) refl "UAH" none conversion [] none
      built

-- A payment of a locked user, one of another user, and a message that is no envelope.
abbrev decode : Option (Envelope MonobankStatementItem) → Option (Envelope MonobankStatementItem)
decode m = m

abbrev dump : NormalizedTransaction → NormalizedTransaction
dump tx = tx

abbrev turn : ℕ → Turn
turn id = record { is_connected = true; broker = λ published tx. (taken, taken); id = id; now = id }

abbrev messages : List (Turn × Option (Envelope MonobankStatementItem))
messages =
    (turn 1, some envelope)
    ∷ (turn 2, none)
    ∷ (turn 3, some (record envelope { user_id = 8 }))
    ∷ (turn 4, some (record envelope { source = "cash" }))
    ∷ []

abbrev start : Store NormalizedTransaction
start = record { staged = []; locks = 7 ∷ []; published = [] }

outcomes :
    (consume outside decode dump start messages).0
    ≡ routed event ∷ undecodable ∷ routed (record event { user_id = 8 }) ∷ unknown_source ∷ []
unfolding consume handle_message normalizer_registry normalize_monobank normalize_item event_of
    from_timestamp numeric_to_alpha int_text direction_of source_fields generate_transaction_id
    route lock_exists produce
outcomes = refl

consume-IsSplit_example :
    IsSplit dump start
      (events_of (consume outside decode dump start messages).0)
      (consume outside decode dump start messages).1
consume-IsSplit_example = consume-IsSplit dump outside decode start messages
