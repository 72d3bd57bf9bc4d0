-- ===== src/Linking/Service/Accounts.antt =====
-- One account of a client (the body of the loop of `link` in sources/monobank/linking_service.py of
-- services/ingestion/src/grosh_ingestion).
use grosh.Prelude.{ℕ, String, true, false, Option, none, some, List, [], ◌∷◌, ◌++◌, if◌then◌else◌}
use grosh.Linking.{Account, column_is, rebind_account, set_account_monobank_client_id}
use grosh.Linking.Service.Records.{MonobankAccount, MonobankAccountResponse}

abbrev pub first_text : List String → Option String
first_text [] = none
first_text (text ∷ texts) = some text

-- `orphan_by_external_id`: of several rows of one external id the last.
unfoldable pub find_orphan : List Account → String → Option Account
find_orphan [] external_id = none
find_orphan (a ∷ orphans) external_id = elim (find_orphan orphans external_id) [
  | some later ↦ some later
  | none ↦ if column_is a.external_id external_id then some a else none
]

abbrev pub new_account : ℕ → ℕ → Option ℕ → String → MonobankAccount → Account
new_account id user_id integration_id currency_code a = record {
  id = id;
  user_id = user_id;
  integration_id = integration_id;
  source = "monobank";
  type = a.type;
  currency_code = currency_code;
  masked_pan = first_text a.masked_pan;
  iban = some a.iban;
  external_id = some a.id;
  cashback_type = a.cashback_type;
  is_active = true;
  monobank_client_id = none;
}

-- The integration to which the accounts of a client are linked.
pub record Target : Type 0 where
  pub user_id : ℕ
  pub client_id : String
  pub integration_id : Option ℕ

-- One account: its row is bound again, or a new one is added.
unfoldable pub link_account :
    Target
    → ℕ
    → String
    → MonobankAccount
    → List Account
    → Option Account
    → MonobankAccountResponse × List Account
unfolding rebind_account set_account_monobank_client_id
link_account target id currency_code a accounts (some orphan) = (
  record {
    account_id = orphan.id;
    external_account_id = some a.id;
    currency_code = currency_code;
    was_rebound = true;
  },
  rebind_account accounts orphan.id target.integration_id,
)
link_account target id currency_code a accounts none = (
  record {
    account_id = id;
    external_account_id = some a.id;
    currency_code = currency_code;
    was_rebound = false;
  },
  set_account_monobank_client_id
      (accounts ++ new_account id target.user_id target.integration_id currency_code a ∷ []) id
      target.client_id,
)
