-- ===== src/Accounts.antt =====
-- Reading accounts (services/enrichment/src/grosh_enrichment/repositories/account_repo.py).
use grosh.Prelude.{
  ℕ, String, Bool, false, ◌&&◌, Option, none, some, List, [], ◌∷◌, if◌then◌else◌, ◌==◌, str_eq, any,
}
use grosh.Domain.{Account, Result, or_raise, account_not_found}

pub record AccountProps : Type 0 where
  pub id : ℕ
  pub type : String
  pub currency_code : String
  pub iban : Option String

unfoldable pub to_props : Account → AccountProps
to_props row = record {
  id = row.id;
  type = row.type;
  currency_code = row.currency_code;
  iban = row.iban;
}

-- SQL's `iban = $1`, which a NULL column never satisfies
abbrev iban_is : Option String → String → Bool
iban_is none iban = false
iban_is (some own) iban = str_eq own iban

-- `fetchrow`: the first row that the query returns
unfoldable pub find_by_iban : List Account → String → ℕ → Option AccountProps
unfolding to_props
find_by_iban [] iban user_id = none
find_by_iban (row ∷ rows) iban user_id =
    if iban_is row.iban iban && row.user_id == user_id
    then some (to_props row)
    else find_by_iban rows iban user_id

select_by_id : List Account → ℕ → Option AccountProps
unfolding to_props
select_by_id [] account_id = none
select_by_id (row ∷ rows) account_id =
    if row.id == account_id then some (to_props row) else select_by_id rows account_id

unfoldable pub get_by_id : List Account → ℕ → Result AccountProps
unfolding select_by_id
get_by_id accounts account_id = or_raise (select_by_id accounts account_id) account_not_found

-- The dict from an id to the account that has it.
abbrev pub PropsById : Type 0
PropsById = List (ℕ × AccountProps)

unfoldable pub get_many_by_ids : List Account → List ℕ → PropsById
unfolding to_props
get_many_by_ids [] account_ids = []
get_many_by_ids (row ∷ rows) account_ids =
    let rest = get_many_by_ids rows account_ids in
    if any (λ i. row.id == i) account_ids then (row.id, to_props row) ∷ rest else rest
