-- ===== src/Linking/Webhook.antt =====
-- The webhook (`receive_webhook` of sources/monobank/router.py) and its registration anew
-- (`reregister_webhooks` of sources/monobank/linking_service.py, with `list_active` and `update_config`
-- of repositories/integration_repo.py), all of services/ingestion/src/grosh_ingestion.
use grosh.Prelude.{
  ℕ, suc, String, Bool, not, Option, none, some, List, [], ◌∷◌, filter, if◌then◌else◌, str_eq,
}
use grosh.Backfill.{Envelope}
use grosh.Linking.{
  BankIntegrationRow, Account, Tables, is_active, update_integration,
  get_active_integration_by_webhook_secret, get_account_by_external_id,
}
use grosh.Linking.Service.{Outside, LinkError, value_error, database_error, webhook_url_of}

pub data WebhookAnswer (A : Type 0) : Type 0 where
  integration_not_found account_not_found invalid_statement buffer_error : WebhookAnswer A
  published : Envelope A → WebhookAnswer A

-- The data of `MonobankWebhookPayload`; its type is not read.
pub record WebhookPayload (A : Type 0) : Type 0 where
  pub account : String
  pub statement_item : A

module _ {A : Type 0} (validate : A → Bool) (takes : Bool) where
  abbrev pub envelope_of : BankIntegrationRow → Account → A → Envelope A
  envelope_of integration account statement_item = record {
    user_id = integration.user_id;
    account_id = account.id;
    source = "monobank";
    payload = statement_item;
  }

  abbrev pub publish_statement : BankIntegrationRow → A → Option Account → WebhookAnswer A
  publish_statement integration statement_item none = account_not_found
  publish_statement integration statement_item (some account) =
      if not (validate statement_item)
      then invalid_statement
      else (if takes
          then published (envelope_of integration account statement_item)
          else buffer_error)

  abbrev pub receive_for : Tables → WebhookPayload A → Option BankIntegrationRow → WebhookAnswer A
  receive_for db payload none = integration_not_found
  receive_for db payload (some integration) =
      publish_statement integration payload.statement_item
        (get_account_by_external_id db.accounts integration.user_id payload.account integration.id)

  unfoldable pub receive_webhook : Tables → String → WebhookPayload A → WebhookAnswer A
  unfolding get_active_integration_by_webhook_secret get_account_by_external_id
  receive_webhook db webhook_secret payload =
      receive_for db payload
        (get_active_integration_by_webhook_secret db.integrations webhook_secret)

pub data WebhookStatus : Type 0 where
  registered webhook_failed : WebhookStatus

pub record Reregistered : Type 0 where
  pub integration_id : ℕ
  pub status : WebhookStatus
  pub webhook_url : String

unfoldable pub list_active : List BankIntegrationRow → List BankIntegrationRow
list_active integrations = filter is_active integrations

abbrev pub with_webhook : String → String → BankIntegrationRow → BankIntegrationRow
with_webhook secret url row = record row {
  config = record row.config { webhook_secret = some secret; webhook_url = some url };
}

-- Every statement is committed at once; an error ends the loop, and what was written stays.
abbrev pub Progress : Type 0
Progress = List Reregistered × Option LinkError × List BankIntegrationRow

abbrev pub failed_with : LinkError → List BankIntegrationRow → Progress
failed_with e integrations = ([], some e, integrations)

abbrev pub cons_result : Reregistered → Progress → Progress
cons_result result (results, error, integrations) = (result ∷ results, error, integrations)

module _ (outside : Outside) where
  abbrev pub reregistered : BankIntegrationRow → String → String → Reregistered
  reregistered row token url = record {
    integration_id = row.id;
    status = if outside.set_webhook token url then registered else webhook_failed;
    webhook_url = url;
  }

  abbrev pub updated :
      String → BankIntegrationRow → List BankIntegrationRow → List BankIntegrationRow
  updated secret row integrations =
      update_integration
        (λ r. record r {
          config =
              (with_webhook secret (webhook_url_of outside.webhook_base_url secret) row).config;
        })
        row.id integrations

  -- The loop over the rows that were read first. A missing token is a KeyError.
  unfoldable pub reregister_rows :
      (ℕ → String) → List BankIntegrationRow → ℕ → List BankIntegrationRow → Progress
  reregister_rows secrets integrations n [] = ([], none, integrations)
  reregister_rows secrets integrations n (row ∷ rows) =
      let url = webhook_url_of outside.webhook_base_url (secrets n) in
      let skipped = reregister_rows secrets integrations (suc n) rows in
      let rest = reregister_rows secrets (updated (secrets n) row integrations) (suc n) rows in
      if not (str_eq row.bank "monobank") then skipped else elim row.config.encrypted_token [
        | none ↦ failed_with value_error integrations
        | some hex ↦ elim (outside.decrypt hex) [
          | none ↦ failed_with database_error integrations
          | some token ↦ cons_result (reregistered row token url) rest
        ]
      ]

  unfoldable pub reregister_webhooks : (ℕ → String) → List BankIntegrationRow → Progress
  unfolding reregister_rows list_active
  reregister_webhooks secrets integrations =
      reregister_rows secrets integrations 0 (list_active integrations)
