-- ===== src/Linking/Service.antt =====
-- Linking, unlinking and listing
-- (sources/monobank/linking_service.py and models.py of services/ingestion/src/grosh_ingestion). A call
-- is one database transaction: where it raises, nothing is stored.
pub mod Records
pub mod Accounts
use Prim.Native.String.{◌++◌ as append_text}
use grosh.Prelude.{
  ℕ, suc, String, Bool, true, false, not, ◌&&◌, ◌||◌, Option, none, some, List, [], ◌∷◌, ◌++◌, map,
  any, if◌then◌else◌, ◌==◌, is_empty,
}
use grosh.Domain.{ℤ, ok, raise}
use grosh.Normalization.{numeric_to_alpha}
use grosh.Linking.{
  Config, BankIntegrationRow, Account, Tables, column_is, has_client, get_active_integration,
  get_integration_by_client_id, get_any_active_integration, create_integration_idempotent,
  update_integration_token, delete_integration, find_orphan_accounts_for_rebind, rebind_account,
  set_account_monobank_client_id, list_integrations_for_user, list_accounts_for_integration,
}
pub use grosh.Linking.Service.Records.{
  MonobankAccount, MonobankClientInfo, Reply, Outside, Call, LinkError, Answer,
  MonobankAccountResponse, MonobankLinkResponse, MonobankIntegrationResponse, client_info,
  api_error, unavailable, monobank_token_invalid, monobank_api_unavailable,
  integration_already_linked, value_error, validation_error, database_error, raised, returned,
}
pub use grosh.Linking.Service.Accounts.{first_text, new_account, Target}
unfoldable pub use grosh.Linking.Service.Accounts.{find_orphan, link_account}

abbrev pub response_of : Account → MonobankAccountResponse
response_of a = record {
  account_id = a.id;
  external_account_id = a.external_id;
  currency_code = a.currency_code;
  was_rebound = false;
}

abbrev pub webhook_url_of : String → String → String
webhook_url_of base_url secret = append_text base_url (append_text "/monobank/webhook/" secret)

abbrev pub or_empty : Option String → String
or_empty none = ""
or_empty (some text) = text

-- `config.get("webhook_url") or …`
abbrev pub stored_webhook_url : String → Config → String
stored_webhook_url base_url config =
    if is_empty (or_empty config.webhook_url)
    then webhook_url_of base_url (or_empty config.webhook_secret)
    else or_empty config.webhook_url

abbrev pub cons_response :
    MonobankAccountResponse
    → Answer (List MonobankAccountResponse × List Account)
    → Answer (List MonobankAccountResponse × List Account)
cons_response response (raised e) = raised e
cons_response response (returned (responses, accounts)) = returned (response ∷ responses, accounts)

module _ (outside : Outside) where
  -- The loop over the bank's accounts; `n` is the place of the first.
  unfoldable pub link_accounts :
      (ℕ → ℕ)
      → Target
      → List Account
      → ℕ
      → List MonobankAccount
      → List Account
      → Answer (List MonobankAccountResponse × List Account)
  unfolding link_account find_orphan
  link_accounts account_ids target orphans n [] accounts = returned ([], accounts)
  link_accounts account_ids target orphans n (a ∷ rest) accounts =
      elim (numeric_to_alpha outside.find_currency a.currency_code) [
        | raise e ↦ raised value_error
        | ok currency_code ↦
            let linked =
              link_account target (account_ids n) currency_code a accounts
                (find_orphan orphans a.id) in
            cons_response linked.0 (link_accounts account_ids target orphans (suc n) rest linked.1)
      ]

  -- `_rotate_existing_integration`
  unfoldable pub rotate_existing_integration :
      Tables → String → BankIntegrationRow → MonobankLinkResponse × Tables
  unfolding update_integration_token list_accounts_for_integration
  rotate_existing_integration db token existing = (
    record {
      integration_id = existing.id;
      is_new = false;
      webhook_registered =
          outside.set_webhook token (stored_webhook_url outside.webhook_base_url existing.config);
      accounts =
          map response_of (list_accounts_for_integration db.accounts existing.user_id existing.id);
    },
    record db {
      integrations =
          update_integration_token db.integrations existing.id (outside.encrypt_token token)
            outside.key_version;
    },
  )

  abbrev pub new_integration : Call → ℕ → String → String → BankIntegrationRow
  new_integration call user_id token client_id = record {
    id = call.integration_id;
    user_id = user_id;
    bank = "monobank";
    config = record {
      encrypted_token = some (outside.encrypt_token token);
      key_version = some outside.key_version;
      webhook_secret = some call.webhook_secret;
      webhook_url = some (webhook_url_of outside.webhook_base_url call.webhook_secret);
      monobank_client_id = some client_id;
    };
    status = "active";
    created_at = call.now;
  }

  -- The response needs the id of an integration: pydantic refuses None.
  abbrev pub link_response :
      Call
      → String
      → List BankIntegrationRow
      → Option ℕ
      → Answer (List MonobankAccountResponse × List Account)
      → Answer (MonobankLinkResponse × Tables)
  link_response call token integrations integration_id (raised e) = raised e
  link_response call token integrations none (returned linked) = raised validation_error
  link_response call token integrations (some id) (returned (responses, accounts)) = returned (
    record {
      integration_id = id;
      is_new = true;
      webhook_registered =
          outside.set_webhook token (webhook_url_of outside.webhook_base_url call.webhook_secret);
      accounts = responses;
    },
    record { integrations = integrations; accounts = accounts },
  )

  -- The accounts of a client, and the answer.
  unfoldable pub link_client_accounts :
      Call
      → Tables
      → ℕ
      → String
      → MonobankClientInfo
      → Option ℕ
      → Answer (MonobankLinkResponse × Tables)
  unfolding link_accounts find_orphan_accounts_for_rebind
  link_client_accounts call db user_id token info integration_id =
      link_response call token db.integrations integration_id (
        link_accounts call.account_ids
          (record {
            user_id = user_id;
            client_id = info.client_id;
            integration_id = integration_id;
          })
          (find_orphan_accounts_for_rebind db.accounts user_id info.client_id
            (map (λ a. a.id) info.accounts))
          0 info.accounts db.accounts)

  -- After the insert: a row that another request has added is taken up, where it is active.
  abbrev pub after_insert :
      Call
      → Tables
      → ℕ
      → String
      → MonobankClientInfo
      → Option ℕ × Bool × List BankIntegrationRow
      → Answer (MonobankLinkResponse × Tables)
  after_insert call db user_id token info (integration_id, true, integrations) =
      link_client_accounts call (record db { integrations = integrations }) user_id token info
        integration_id
  after_insert call db user_id token info (integration_id, false, integrations) =
      elim (get_integration_by_client_id integrations user_id info.client_id) [
        | some existing ↦
            returned (
              rotate_existing_integration (record db { integrations = integrations }) token
                existing)
        | none ↦
            link_client_accounts call (record db { integrations = integrations }) user_id token info
              integration_id
      ]

  -- The insert, after what other transactions have added; the index on secrets is unique.
  unfoldable pub create_fresh :
      Call → Tables → ℕ → String → MonobankClientInfo → Answer (MonobankLinkResponse × Tables)
  unfolding create_integration_idempotent get_integration_by_client_id rotate_existing_integration
      link_client_accounts
  create_fresh call db user_id token info =
      let integrations = db.integrations ++ call.meanwhile in
      if not (any (has_client user_id info.client_id) integrations)
        && any (λ row. column_is row.config.webhook_secret call.webhook_secret) integrations
      then raised database_error
      else after_insert call db user_id token info (
          create_integration_idempotent integrations
            (new_integration call user_id token info.client_id) info.client_id)

  -- The branches on what the queries for an active row find.
  abbrev pub link_new :
      Call
      → Tables
      → ℕ
      → String
      → MonobankClientInfo
      → Option BankIntegrationRow
      → Answer (MonobankLinkResponse × Tables)
  link_new call db user_id token info (some conflicting) = raised integration_already_linked
  link_new call db user_id token info none = create_fresh call db user_id token info

  abbrev pub link_client :
      Call
      → Tables
      → ℕ
      → String
      → MonobankClientInfo
      → Option BankIntegrationRow
      → Answer (MonobankLinkResponse × Tables)
  link_client call db user_id token info (some existing) =
      returned (rotate_existing_integration db token existing)
  link_client call db user_id token info none =
      link_new call db user_id token info (get_any_active_integration db.integrations user_id)

  abbrev pub link_reply :
      Call → Tables → ℕ → String → Reply → Answer (MonobankLinkResponse × Tables)
  link_reply call db user_id token (api_error status_code) =
      if status_code == 401 || status_code == 403
      then raised monobank_token_invalid
      else raised monobank_api_unavailable
  link_reply call db user_id token unavailable = raised monobank_api_unavailable
  link_reply call db user_id token (client_info info) =
      link_client call db user_id token info
        (get_integration_by_client_id db.integrations user_id info.client_id)

  unfoldable pub link : Call → Tables → ℕ → String → Answer (MonobankLinkResponse × Tables)
  unfolding create_fresh get_any_active_integration get_integration_by_client_id
      rotate_existing_integration
  link call db user_id token = link_reply call db user_id token (outside.get_client_info token)

  abbrev pub token_of : Option String → Answer (Option String)
  token_of none = raised database_error
  token_of (some token) = returned (some token)

  -- `decrypt_token`: none is a row that is not there or has no token.
  abbrev pub decrypted : Option BankIntegrationRow → Answer (Option String)
  decrypted none = returned none
  decrypted (some row) = elim row.config.encrypted_token [
    | none ↦ returned none
    | some hex ↦ token_of (outside.decrypt hex)
  ]

  unfoldable pub decrypt_token : List BankIntegrationRow → ℕ → ℕ → Answer (Option String)
  unfolding get_active_integration
  decrypt_token integrations user_id integration_id =
      decrypted (get_active_integration integrations user_id integration_id)

  -- What the bank answers to the removal of its webhook changes nothing.
  abbrev pub unlinked : Tables → ℕ → ℕ → Answer (Option String) → Answer (Bool × Tables)
  unlinked db integration_id user_id (raised e) = raised e
  unlinked db integration_id user_id (returned none) = returned (false, db)
  unlinked db integration_id user_id (returned (some token)) =
      returned (delete_integration db user_id integration_id)

  unfoldable pub unlink : Tables → ℕ → ℕ → Answer (Bool × Tables)
  unfolding decrypt_token delete_integration
  unlink db integration_id user_id =
      unlinked db integration_id user_id (decrypt_token db.integrations user_id integration_id)

unfoldable pub list_integrations : Tables → ℕ → List MonobankIntegrationResponse
unfolding list_integrations_for_user list_accounts_for_integration
list_integrations db user_id =
    map
      (λ row. record {
        integration_id = row.id;
        monobank_client_id = or_empty row.config.monobank_client_id;
        accounts = map response_of (list_accounts_for_integration db.accounts user_id row.id);
        created_at = row.created_at;
      })
      (list_integrations_for_user db.integrations user_id)
