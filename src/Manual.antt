-- ===== src/Manual.antt =====
-- Manual accounts and transactions
-- (sources/manual/service.py, repositories/account_repo.py and repositories/user_settings_repo.py of
-- services/ingestion/src/grosh_ingestion). A random UUID, the id of a new account and whether the
-- producer's queue takes a message are parameters. What reads the payload of a manual envelope is in
-- Normalization. An amount is never negative, as the request's model says.
pub mod Published
mod Examples
use grosh.Prelude.{
  ℕ, String, Bool, true, false, not, ◌&&◌, Option, none, some, List, [], ◌∷◌, ◌++◌, any, map,
  if◌then◌else◌, ◌==◌, str_eq, lookup,
}
use grosh.Domain.{TransactionDirection, TransactionOrigin, manual}
use grosh.Backfill.{Envelope}
use grosh.Normalization.{ManualTransactionPayload, Outside, generate_transaction_id}

-- The columns of `accounts` that these operations read.
pub record AccountRow : Type 0 where
  pub id : ℕ
  pub user_id : ℕ
  pub source : String
  pub type : String
  pub currency_code : String
  pub name : Option String
  pub is_active : Bool

pub record Store : Type 0 where
  pub accounts : List AccountRow
  pub user_settings : List (ℕ × Option String)
  pub rate_source_config : List String
  pub published : List (Envelope ManualTransactionPayload)

pub data ManualError : Type 0 where
  account_already_exists account_not_owned account_not_manual invalid_rate_source buffer_error :
      ManualError

pub data Outcome (A : Type 0) : Type 0 where
  raised : ManualError → Outcome A
  returned : A → Outcome A

pub record ManualTransactionResult : Type 0 where
  pub id : ℕ
  pub source : String
  pub source_id : String
  pub account_id : ℕ
  pub time : ℕ
  pub amount_cents : ℕ
  pub operation_currency_code : String
  pub description : Option String
  pub direction : TransactionDirection
  pub origin : TransactionOrigin
  pub rate_source : Option String

-- The arguments of `create_transaction`.
pub record Request : Type 0 where
  pub user_id : ℕ
  pub account_id : ℕ
  pub amount_cents : ℕ
  pub currency_code : String
  pub description : Option String
  pub time : ℕ
  pub direction : TransactionDirection
  pub mcc : Option String
  pub rate_source : Option String
  pub idempotency_key : Option String

abbrev pub has_name : String → AccountRow → Bool
has_name name account = elim account.name [ none ↦ false | some n ↦ str_eq n name ]

unfoldable pub manual_name_exists : List AccountRow → ℕ → String → String → Bool
manual_name_exists accounts user_id name currency_code =
    any
      (λ (a : AccountRow).
        a.user_id == user_id
        && has_name name a
        && str_eq a.currency_code currency_code
        && str_eq a.source "manual")
      accounts

-- The row of `create_account`, of which the id is the database's.
abbrev pub new_account : ℕ → ℕ → String → String → String → AccountRow
new_account id user_id account_type currency_code name = record {
  id = id;
  user_id = user_id;
  source = "manual";
  type = account_type;
  currency_code = currency_code;
  name = some name;
  is_active = true;
}

-- A violation of a unique index, where another transaction adds the name, is the same error.
unfoldable pub create_account :
    Store → ℕ → ℕ → String → String → String → Outcome (AccountRow × Store)
unfolding manual_name_exists
create_account db id user_id account_type currency_code name =
    if manual_name_exists db.accounts user_id name currency_code
    then raised account_already_exists
    else (let account = new_account id user_id account_type currency_code name in
        returned (account, record db { accounts = db.accounts ++ account ∷ [] }))

unfoldable pub get_by_id : List AccountRow → ℕ → ℕ → Option AccountRow
get_by_id [] account_id user_id = none
get_by_id (a ∷ accounts) account_id user_id =
    let rest = get_by_id accounts account_id user_id in
    if a.id == account_id && a.user_id == user_id then some a else rest

unfoldable pub get_default_rate_source : List (ℕ × Option String) → ℕ → Option String
get_default_rate_source [] user_id = none
get_default_rate_source ((u, source) ∷ settings) user_id =
    let rest = get_default_rate_source settings user_id in if u == user_id then source else rest

abbrev pub resolved_rate_source : Store → Request → Option String
resolved_rate_source db request = elim request.rate_source [
  | none ↦ get_default_rate_source db.user_settings request.user_id
  | some source ↦ some source
]

-- Whether a rate source, where there is one, is configured.
abbrev pub is_valid_rate_source : Store → Option String → Bool
is_valid_rate_source db none = true
is_valid_rate_source db (some source) = any (λ s. str_eq s source) db.rate_source_config

-- `idempotency_key if idempotency_key else str(uuid4())`
abbrev pub source_id_of : String → Option String → String
source_id_of uuid4 none = uuid4
source_id_of uuid4 (some key) = if str_eq key "" then uuid4 else key

abbrev pub payload_of : ℕ → String → Request → Option String → ManualTransactionPayload
payload_of transaction_id source_id request rate_source = record {
  id = transaction_id;
  source_id = source_id;
  amount_cents = request.amount_cents;
  operation_currency_code = request.currency_code;
  description = request.description;
  time = request.time;
  direction = request.direction;
  mcc = request.mcc;
  rate_source = rate_source;
}

abbrev pub envelope_of : Request → ManualTransactionPayload → Envelope ManualTransactionPayload
envelope_of request payload = record {
  user_id = request.user_id;
  account_id = request.account_id;
  source = "manual";
  payload = payload;
}

abbrev pub result_of : ℕ → String → Request → Option String → ManualTransactionResult
result_of transaction_id source_id request rate_source = record {
  id = transaction_id;
  source = "manual";
  source_id = source_id;
  account_id = request.account_id;
  time = request.time;
  amount_cents = request.amount_cents;
  operation_currency_code = request.currency_code;
  description = request.description;
  direction = request.direction;
  origin = manual;
  rate_source = rate_source;
}

-- `produce`; a full queue is a BufferError, which nothing catches.
abbrev pub publish_envelope :
    Bool
    → Store
    → Envelope ManualTransactionPayload
    → ManualTransactionResult
    → Outcome (ManualTransactionResult × Store)
publish_envelope takes db envelope result =
    if takes
    then returned (result, record db { published = db.published ++ envelope ∷ [] })
    else raised buffer_error

module _ (uuid5 : String → ℕ) (uuid4 : String) (takes : Bool) where
  -- From the rate source on, with the account found.
  abbrev pub create_for :
      Store → Request → Option AccountRow → Outcome (ManualTransactionResult × Store)
  create_for db request none = raised account_not_owned
  create_for db request (some account) =
      let rate_source = resolved_rate_source db request in
      let source_id = source_id_of uuid4 request.idempotency_key in
      let id = generate_transaction_id uuid5 "manual" source_id in
      if not (str_eq account.source "manual")
      then raised account_not_manual
      else (if not (is_valid_rate_source db rate_source)
          then raised invalid_rate_source
          else publish_envelope takes db
              (envelope_of request (payload_of id source_id request rate_source))
              (result_of id source_id request rate_source))

  unfoldable pub create_transaction : Store → Request → Outcome (ManualTransactionResult × Store)
  unfolding get_by_id get_default_rate_source generate_transaction_id
  create_transaction db request =
      create_for db request (get_by_id db.accounts request.account_id request.user_id)
