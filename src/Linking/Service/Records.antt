-- ===== src/Linking/Service/Records.antt =====
-- The bank, the calls and the answers (sources/monobank/models.py and schemas.py of
-- services/ingestion/src/grosh_ingestion, with the errors of sources/monobank/linking_service.py).
use grosh.Prelude.{ℕ, String, Bool, Option, List}
use grosh.Domain.{ℤ}
use grosh.Linking.{BankIntegrationRow}

-- Of an account and a client of the bank, the fields that linking reads.
pub record MonobankAccount : Type 0 where
  pub id : String
  pub type : String
  pub currency_code : ℤ
  pub cashback_type : Option String
  pub masked_pan : List String
  pub iban : String

pub record MonobankClientInfo : Type 0 where
  pub client_id : String
  pub accounts : List MonobankAccount

-- What the bank answers for a token: its client, an error status, or anything else that fails.
pub data Reply : Type 0 where
  client_info : MonobankClientInfo → Reply
  api_error : (status_code : ℕ) → Reply
  unavailable : Reply

-- The bank, `pgp_sym_encrypt` and `pgp_sym_decrypt` under the key of the service in hexadecimal text
-- (none where the decryption raises), the currencies that pycountry knows, and the base of a webhook's
-- URL.
pub record Outside : Type 0 where
  pub get_client_info : String → Reply
  pub set_webhook : String → String → Bool
  pub encrypt_token : String → String
  pub decrypt : String → Option String
  pub find_currency : String → Option String
  pub webhook_base_url : String
  pub key_version : ℕ

-- What is new in a call: ids that the database makes, of the integration and of each account by its
-- place, the random secret, and the rows that other transactions add before the insert.
pub record Call : Type 0 where
  pub integration_id : ℕ
  pub account_ids : ℕ → ℕ
  pub webhook_secret : String
  pub now : ℕ
  pub meanwhile : List BankIntegrationRow

pub data LinkError : Type 0 where
  monobank_token_invalid monobank_api_unavailable integration_already_linked : LinkError
  value_error validation_error database_error : LinkError

pub data Answer (A : Type 0) : Type 0 where
  raised : LinkError → Answer A
  returned : A → Answer A

pub record MonobankAccountResponse : Type 0 where
  pub account_id : ℕ
  pub external_account_id : Option String
  pub currency_code : String
  pub was_rebound : Bool

pub record MonobankLinkResponse : Type 0 where
  pub integration_id : ℕ
  pub is_new : Bool
  pub webhook_registered : Bool
  pub accounts : List MonobankAccountResponse

pub record MonobankIntegrationResponse : Type 0 where
  pub integration_id : ℕ
  pub monobank_client_id : String
  pub accounts : List MonobankAccountResponse
  pub created_at : ℕ
