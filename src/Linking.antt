-- ===== src/Linking.antt =====
-- Integrations with Monobank and their accounts
-- (sources/monobank/repo.py, with `create_account` of repositories/account_repo.py and the queries of
-- repositories/integration_repo.py, of services/ingestion/src/grosh_ingestion). What a query without
-- a user sees under row-level security is the rows of the session's user. Tables are lists.
pub mod Service
pub mod Webhook
pub mod Backfills
pub mod Rows
pub mod Stuck
pub mod Linked
pub mod Steps
pub mod Errored
pub mod Bound
pub mod Loop
pub mod Orphans
pub mod Again
pub mod Relinked
pub mod Pushed
pub mod Started
pub mod Windows
mod Examples
use grosh.Prelude.{
  ℕ, String, Bool, true, false, not, ◌&&◌, ◌||◌, Option, none, some, List, [], ◌∷◌, ◌++◌, map,
  filter, any, if◌then◌else◌, ◌==◌, ltb, str_eq, opt_eq, is_some,
}

-- The keys of `bank_integrations.config`; none is a key that is missing.
pub record Config : Type 0 where
  pub encrypted_token : Option String
  pub key_version : Option ℕ
  pub webhook_secret : Option String
  pub webhook_url : Option String
  pub monobank_client_id : Option String

-- A row of `bank_integrations`.
pub record BankIntegrationRow : Type 0 where
  pub id : ℕ
  pub user_id : ℕ
  pub bank : String
  pub config : Config
  pub status : String
  pub created_at : ℕ

-- A row of `accounts`; of its config the one key that is used.
pub record Account : Type 0 where
  pub id : ℕ
  pub user_id : ℕ
  pub integration_id : Option ℕ
  pub source : String
  pub type : String
  pub currency_code : String
  pub masked_pan : Option String
  pub iban : Option String
  pub external_id : Option String
  pub cashback_type : Option String
  pub is_active : Bool
  pub monobank_client_id : Option String

pub record Tables : Type 0 where
  pub integrations : List BankIntegrationRow
  pub accounts : List Account

-- `column = text`, which is not true of a null.
abbrev pub column_is : Option String → String → Bool
column_is none text = false
column_is (some value) text = str_eq value text

abbrev pub first_of {ℓ} : {A : Type ℓ} → (A → Bool) → List A → Option A
first_of p [] = none
first_of p (x ∷ xs) = let rest = first_of p xs in if p x then some x else rest

abbrev pub is_active : BankIntegrationRow → Bool
is_active row = str_eq row.status "active"

abbrev pub is_monobank : ℕ → BankIntegrationRow → Bool
is_monobank user_id row = row.user_id == user_id && str_eq row.bank "monobank"

-- The key of the unique index on users and clients.
abbrev pub has_client : ℕ → String → BankIntegrationRow → Bool
has_client user_id client_id row =
    is_monobank user_id row && column_is row.config.monobank_client_id client_id

unfoldable pub get_active_integration_by_webhook_secret :
    List BankIntegrationRow → String → Option BankIntegrationRow
get_active_integration_by_webhook_secret integrations webhook_secret =
    first_of (λ row. column_is row.config.webhook_secret webhook_secret && is_active row)
      integrations

-- `user_id` is the session's.
unfoldable pub get_account_by_external_id : List Account → ℕ → String → ℕ → Option Account
get_account_by_external_id accounts user_id external_id integration_id =
    first_of
      (λ a.
        a.user_id == user_id
        && column_is a.external_id external_id
        && opt_eq a.integration_id (some integration_id))
      accounts

-- The row that `decrypt_token` reads.
unfoldable pub get_active_integration : List BankIntegrationRow → ℕ → ℕ → Option BankIntegrationRow
get_active_integration integrations user_id integration_id =
    first_of (λ row. row.user_id == user_id && row.id == integration_id && is_active row)
      integrations

unfoldable pub get_integration_by_client_id :
    List BankIntegrationRow → ℕ → String → Option BankIntegrationRow
get_integration_by_client_id integrations user_id monobank_client_id =
    first_of (λ row. has_client user_id monobank_client_id row && is_active row) integrations

unfoldable pub get_any_active_integration : List BankIntegrationRow → ℕ → Option BankIntegrationRow
get_any_active_integration integrations user_id =
    first_of (λ row. is_monobank user_id row && is_active row) integrations

abbrev pub id_of : Option BankIntegrationRow → Option ℕ
id_of none = none
id_of (some row) = some row.id

-- The id that is answered, whether the row is new, and the rows.
unfoldable pub create_integration_idempotent :
    List BankIntegrationRow
    → BankIntegrationRow
    → String
    → Option ℕ × Bool × List BankIntegrationRow
unfolding get_integration_by_client_id
create_integration_idempotent integrations row client_id =
    if any (has_client row.user_id client_id) integrations
    then (
      id_of (get_integration_by_client_id integrations row.user_id client_id),
      false,
      integrations,
    )
    else (some row.id, true, integrations ++ row ∷ [])

abbrev pub update_integration :
    (BankIntegrationRow → BankIntegrationRow)
    → ℕ
    → List BankIntegrationRow
    → List BankIntegrationRow
update_integration change integration_id integrations =
    map (λ row. if row.id == integration_id then change row else row) integrations

unfoldable pub mark_integration_error : List BankIntegrationRow → ℕ → List BankIntegrationRow
mark_integration_error integrations integration_id =
    update_integration (λ row. record row { status = "error" }) integration_id integrations

abbrev pub with_token : String → ℕ → BankIntegrationRow → BankIntegrationRow
with_token encrypted_token key_version row = record row {
  config = record row.config {
    encrypted_token = some encrypted_token;
    key_version = some key_version;
  };
}

unfoldable pub update_integration_token :
    List BankIntegrationRow → ℕ → String → ℕ → List BankIntegrationRow
update_integration_token integrations integration_id encrypted_token key_version =
    update_integration (with_token encrypted_token key_version) integration_id integrations

-- `ON DELETE SET NULL`
abbrev pub unbound : ℕ → Account → Account
unbound integration_id a =
    if opt_eq a.integration_id (some integration_id) then record a { integration_id = none } else a

-- Whether a row of the user was deleted, and the tables.
unfoldable pub delete_integration : Tables → ℕ → ℕ → Bool × Tables
delete_integration db user_id integration_id =
    if any (λ row. row.user_id == user_id && row.id == integration_id) db.integrations
    then (
      true,
      record {
        integrations =
            filter (λ row. not (row.user_id == user_id && row.id == integration_id))
              db.integrations;
        accounts = map (unbound integration_id) db.accounts;
      },
    )
    else (false, db)

abbrev pub is_orphan : ℕ → String → Account → Bool
is_orphan user_id monobank_client_id a =
    a.user_id == user_id
    && str_eq a.source "monobank"
    && column_is a.monobank_client_id monobank_client_id
    && not (is_some a.integration_id)

unfoldable pub find_orphan_accounts_for_rebind :
    List Account → ℕ → String → List String → List Account
find_orphan_accounts_for_rebind accounts user_id monobank_client_id external_account_ids =
    filter
      (λ a.
        is_orphan user_id monobank_client_id a
        && any (column_is a.external_id) external_account_ids)
      accounts

unfoldable pub rebind_account : List Account → ℕ → Option ℕ → List Account
rebind_account accounts account_id new_integration_id =
    map (λ a. if a.id == account_id then record a { integration_id = new_integration_id } else a)
      accounts

unfoldable pub set_account_monobank_client_id : List Account → ℕ → String → List Account
set_account_monobank_client_id accounts account_id monobank_client_id =
    map
      (λ a.
        if a.id == account_id then record a { monobank_client_id = some monobank_client_id } else a)
      accounts

abbrev pub is_later : BankIntegrationRow → BankIntegrationRow → Bool
is_later a b = ltb b.created_at a.created_at

abbrev pub place : BankIntegrationRow → List BankIntegrationRow → List BankIntegrationRow
place row [] = row ∷ []
place row (r ∷ rows) =
    let rest = place row rows in if is_later row r then r ∷ rest else row ∷ r ∷ rows

abbrev pub sort_by_created : List BankIntegrationRow → List BankIntegrationRow
sort_by_created [] = []
sort_by_created (row ∷ rows) = place row (sort_by_created rows)

unfoldable pub list_integrations_for_user : List BankIntegrationRow → ℕ → List BankIntegrationRow
list_integrations_for_user integrations user_id =
    sort_by_created (filter (λ row. is_monobank user_id row && is_active row) integrations)

-- `user_id` is the session's.
unfoldable pub list_accounts_for_integration : List Account → ℕ → ℕ → List Account
list_accounts_for_integration accounts user_id integration_id =
    filter
      (λ a.
        a.user_id == user_id
        && opt_eq a.integration_id (some integration_id)
        && str_eq a.source "monobank")
      accounts
