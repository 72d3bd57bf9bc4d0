-- ===== src/Transfer/Descriptions.antt =====
-- Monobank's transfer descriptions (services/enrichment/src/grosh_enrichment/sources/monobank/
-- descriptions.py). Account types and currencies are texts, as in the source.
use grosh.Prelude.{
  String, Bool, true, false, not, ◌&&◌, ◌||◌, Option, none, some, List, [], ◌∷◌, ◌++◌,
  if◌then◌else◌, str_eq, starts_with, contains_text, is_empty, lookup,
}

pub record DescriptionConstraint : Type 0 where
  pub type : Option String
  pub currency : Option String

abbrev on_type : String → DescriptionConstraint
on_type t = record { type = some t; currency = none }

abbrev on_currency : String → DescriptionConstraint
on_currency c = record { type = none; currency = some c }

abbrev fop : String → DescriptionConstraint
fop c = record { type = some "fop"; currency = some c }

unfoldable pub income_map : List (String × DescriptionConstraint)
income_map =
    ("З гривневого рахунку ФОП", fop "UAH")
    ∷ ("З доларового рахунку ФОП", fop "USD")
    ∷ ("З єврового рахунку ФОП", fop "EUR")
    ∷ ("З доларового рахунку ФОП для переказу на картку", fop "USD")
    ∷ ("З єврового рахунку ФОП для переказу на картку", fop "EUR")
    ∷ ("З гривневого рахунку ФОП для переказу на картку", fop "UAH")
    ∷ ("З Чорної картки", on_type "black")
    ∷ ("З Білої картки", on_type "white")
    ∷ ("З Платинової картки", on_type "platinum")
    ∷ ("З Залізної картки", on_type "iron")
    ∷ ("З Жовтої картки", on_type "yellow")
    ∷ ("З доларової картки", on_currency "USD")
    ∷ ("З єврової картки", on_currency "EUR")
    ∷ []

unfoldable pub expense_map : List (String × DescriptionConstraint)
expense_map =
    ("Переказ на картку", record { type = none; currency = none })
    ∷ ("На чорну картку", on_type "black")
    ∷ ("На білу картку", on_type "white")
    ∷ ("На платинову картку", on_type "platinum")
    ∷ ("На залізну картку", on_type "iron")
    ∷ ("На жовту картку", on_type "yellow")
    ∷ ("На гривневий рахунок ФОП", fop "UAH")
    ∷ ("На доларовий рахунок ФОП", fop "USD")
    ∷ ("На євровий рахунок ФОП", fop "EUR")
    ∷ ("На гривневий рахунок ФОП для переказу на картку", fop "UAH")
    ∷ ("На доларовий рахунок ФОП для переказу на картку", fop "USD")
    ∷ ("На євровий рахунок ФОП для переказу на картку", fop "EUR")
    ∷ []

-- No text is a key of both maps, so the merged dict looks up in either order.
unfoldable pub all_known : List (String × DescriptionConstraint)
unfolding income_map expense_map
all_known = income_map ++ expense_map

unfoldable pub parse_description : Option String → Option DescriptionConstraint
unfolding all_known
parse_description none = none
parse_description (some d) = if is_empty d then none else lookup d all_known

unfoldable pub is_transfer_description : Option String → Bool
is_transfer_description none = false
is_transfer_description (some d) =
    if is_empty d
    then false
    else starts_with d "З " || starts_with d "На " || str_eq d "Переказ на картку"

is_known : Option DescriptionConstraint → Bool
is_known none = false
is_known (some _) = true

unfoldable pub is_multi_hop_description : Option String → Bool
unfolding parse_description is_known
is_multi_hop_description none = false
is_multi_hop_description (some d) =
    if is_empty d
    then false
    else (if is_known (parse_description (some d))
        then contains_text "для переказу на" d
        else false)

-- `constraint.type is not None and constraint.type != account_type`, negated
allows : Option String → String → Bool
allows none actual = true
allows (some required) actual = str_eq required actual

unfoldable pub constraint_matches : Option DescriptionConstraint → String → String → Bool
unfolding allows
constraint_matches none account_type account_currency = true
constraint_matches (some c) account_type account_currency =
    if not (allows c.type account_type)
    then false
    else (if not (allows c.currency account_currency) then false else true)

unfoldable pub validate_pair_descriptions :
    Option String → Option String → String → String → String → String → Bool
unfolding parse_description constraint_matches
validate_pair_descriptions income_desc expense_desc income_type income_currency expense_type
      expense_currency =
    constraint_matches (parse_description income_desc) expense_type expense_currency
    && constraint_matches (parse_description expense_desc) income_type income_currency
