-- ===== src/Linking/Pushed.antt =====
-- What the webhook publishes, and for whom.
use grosh.Prelude.{
  String, Bool, true, false, not, ◌&&◌, Option, none, some, ◌≡◌, refl, arith, if◌then◌else◌, ◌==◌,
  opt_eq, Member,
}
use grosh.Linking.{
  BankIntegrationRow, Account, Tables, is_active, column_is,
  get_active_integration_by_webhook_secret, get_account_by_external_id,
}
use grosh.Linking.Webhook.{
  WebhookAnswer, integration_not_found, account_not_found, invalid_statement, buffer_error,
  published, WebhookPayload, envelope_of, publish_statement, receive_for, receive_webhook,
}
use grosh.Linking.Rows.{column_is-some, opt_eq-some, first_of-Member, first_of-false}

-- The integration that a secret names.
abbrev pub IsNamed : Tables → String → BankIntegrationRow → Type 0
IsNamed db secret integration =
    Member integration db.integrations
    × (integration.config.webhook_secret ≡ some secret)
    × (is_active integration ≡ true)

module _ {A : Type 0} (validate : A → Bool) (takes : Bool) where
  -- What each answer of the webhook says.
  abbrev pub IsAnswered : Tables → String → WebhookPayload A → WebhookAnswer A → Type 0
  IsAnswered db secret payload integration_not_found =
      (r : BankIntegrationRow)
      → Member r db.integrations
      → (column_is r.config.webhook_secret secret && is_active r) ≡ false
  IsAnswered db secret payload account_not_found =
      (integration : BankIntegrationRow) × IsNamed db secret integration
      × ((a : Account)
          → Member a db.accounts
          → (a.user_id == integration.user_id
              && column_is a.external_id payload.account
              && opt_eq a.integration_id (some integration.id))
            ≡ false)
  IsAnswered db secret payload invalid_statement = validate payload.statement_item ≡ false
  IsAnswered db secret payload buffer_error =
      (validate payload.statement_item ≡ true) × (takes ≡ false)
  IsAnswered db secret payload (published envelope) =
      (integration : BankIntegrationRow) × (account : Account) × IsNamed db secret integration
      × Member account db.accounts
      × (account.integration_id ≡ some integration.id)
      × (account.external_id ≡ some payload.account)
      × (account.user_id ≡ integration.user_id)
      × (envelope.user_id ≡ account.user_id)
      × (envelope.account_id ≡ account.id)
      × (envelope.source ≡ "monobank")
      × (envelope.payload ≡ payload.statement_item)
      × (validate envelope.payload ≡ true)

  -- Each answer of the webhook: no active integration has the secret; one has, and the user has no such
  -- account of it; the statement is not valid; the producer's queue is full. Otherwise one valid
  -- statement is published as it came, for an account of the integration that the secret names, and
  -- for the one user who owns both.
  pub receive_webhook-IsAnswered :
      (db : Tables) (secret : String) (payload : WebhookPayload A)
      → IsAnswered db secret payload (receive_webhook validate takes db secret payload)
  unfolding receive_webhook get_active_integration_by_webhook_secret get_account_by_external_id
  receive_webhook-IsAnswered db secret payload =
      of_integration (get_active_integration_by_webhook_secret db.integrations secret) refl
    where
      with_account :
          (integration : BankIntegrationRow) (account : Account)
          → IsNamed db secret integration
          → Member account db.accounts
          → (account.user_id == integration.user_id
              && column_is account.external_id payload.account
              && opt_eq account.integration_id (some integration.id))
            ≡ true
          → IsAnswered db secret payload
              (publish_statement validate takes integration payload.statement_item (some account))
      with_account integration account named m test =
          chosen (validate payload.statement_item) takes refl refl
        where
          chosen :
              (v t : Bool)
              → validate payload.statement_item ≡ v
              → takes ≡ t
              → IsAnswered db secret payload (
                  if not v
                  then invalid_statement
                  else (if t
                      then published
                          (envelope_of validate takes integration account payload.statement_item)
                      else buffer_error))
          chosen false t v e = v
          chosen true false v e = (v, e)
          chosen true true v e = (
            integration,
            account,
            named,
            m,
            opt_eq-some account.integration_id integration.id (ground (arith, test)),
            column_is-some account.external_id payload.account (ground (arith, test)),
            ground (arith, test),
            ground (arith, test),
            refl,
            refl,
            refl,
            v,
          )

      of_account :
          (integration : BankIntegrationRow) (found : Option Account)
          → IsNamed db secret integration
          → get_account_by_external_id db.accounts integration.user_id payload.account
              integration.id
            ≡ found
          → IsAnswered db secret payload
              (publish_statement validate takes integration payload.statement_item found)
      of_account integration none named e =
          (integration, named, λ a m. first_of-false _ db.accounts e a m)
      of_account integration (some account) named e =
          let (m, test) = first_of-Member _ db.accounts account e in
          with_account integration account named m test

      of_integration :
          (found : Option BankIntegrationRow)
          → get_active_integration_by_webhook_secret db.integrations secret ≡ found
          → IsAnswered db secret payload (receive_for validate takes db payload found)
      of_integration none e = λ r m. first_of-false _ db.integrations e r m
      of_integration (some integration) e =
          let (m, test) = first_of-Member _ db.integrations integration e in
          of_account integration
            (get_account_by_external_id db.accounts integration.user_id payload.account
              integration.id)
            (
              m,
              column_is-some integration.config.webhook_secret secret (ground (arith, test)),
              ground (arith, test),
            )
            refl
