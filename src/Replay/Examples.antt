-- ===== src/Replay/Examples.antt =====
-- A replay of two rows, and of an event with metadata of its own.
use mathlib.Core.List.{Permᴰ}
use grosh.Prelude.{
  filter, ◌==◌, ℕ, String, none, some, Option, List, [], ◌∷◌, ◌≡◌, refl, map, false,
}
use grosh.Domain.{
  pos, TransactionDirection, NormalizedTransaction, Transaction, Fields, object, text, end, field,
  ok,
}
use grosh.Rates.Display.{ConversionResult}
use grosh.Enrichment.{build_metadata, inserted_row}
use grosh.Replay.{read_row, source_of, to_normalized, select_for_user}
use grosh.Replay.Order.{IsOrdered, select_for_user-IsOrdered}
use grosh.Replay.Source.{to_normalized-inserted_row}

abbrev amounts : ConversionResult
amounts = record { uah = some 500; usd = none; eur = none; rate_metadata = end }

abbrev event : NormalizedTransaction
event = record {
  id = 11;
  source = "monobank";
  source_id = "m11";
  user_id = 7;
  account_id = 2;
  time = 1_000_000;
  amount_cents = 500;
  operation_amount_cents = some 500;
  operation_currency_code = "UAH";
  description = some "Coffee";
  mcc = some "5814";
  cashback_amount_cents = pos 0;
  balance_cents = none;
  hold = some false;
  direction = TransactionDirection.expense;
  counterparty_iban = none;
  rate_source = none;
  metadata = some (field "source" (object (field "comment" (text "latte") end)) end);
}

abbrev contributions : List (String × Fields)
contributions = ("rate", field "uah" (text "1") end) ∷ []

abbrev metadata : Option Fields
metadata = some (
    field "source" (object (field "comment" (text "latte") end))
      (field "layer" (object (field "rate" (object (field "uah" (text "1") end)) end)) end))

built : build_metadata event.metadata contributions ≡ ok metadata
unfolding build_metadata
built = refl

to_normalized-inserted_row_example :
    to_normalized (read_row (inserted_row event "UAH" none amounts metadata none))
    ≡ record event { metadata = some (field "source" (source_of event.metadata) end) }
to_normalized-inserted_row_example =
    to_normalized-inserted_row event "UAH" none amounts contributions none {metadata = metadata}
      built

abbrev row_at : ℕ → Transaction
unfolding inserted_row
row_at t = inserted_row (record event { id = t; time = t }) "UAH" none amounts none none

abbrev stored : List Transaction
stored = row_at 2 ∷ record (row_at 3) { user_id = 8 } ∷ row_at 1 ∷ []

select_for_user-IsOrdered_example :
    (sorted : List Transaction) × (select_for_user stored 7 ≡ map read_row sorted)
    × IsOrdered sorted
    × Permᴰ sorted (filter (λ row. row.user_id == 7) stored)
select_for_user-IsOrdered_example = select_for_user-IsOrdered stored 7

replayed : map (λ row. row.id) (select_for_user stored 7) ≡ 1 ∷ 2 ∷ []
unfolding select_for_user inserted_row
replayed = refl
