-- ===== src/Linking/Examples.antt =====
-- One user and one client of the bank.
use grosh.Prelude.{
  ℕ, String, true, false, Option, none, some, List, [], ◌∷◌, ◌≡◌, ◌≢◌, inl, inr, refl, sym, subst,
  map, ap, Member, ◌+◌, arith,
}
use grosh.Domain.{pos}
use grosh.Normalization.{numeric_to_alpha}
use grosh.Jobs.{BatchApi, returned as job_returned, raised as job_raised, api_exception}
use grosh.Jobs.Submit.{
  Texts, Settings, trigger_transactions_backfill, submit_unless_active, has_active_job, submit,
}
use grosh.Jobs.Trigger.{User, UserRole, get_role}
use grosh.Linking.{
  BankIntegrationRow, Account, Tables, mark_integration_error, get_account_by_external_id,
  get_active_integration_by_webhook_secret, get_integration_by_client_id,
  get_any_active_integration, create_integration_idempotent, find_orphan_accounts_for_rebind,
  rebind_account, set_account_monobank_client_id,
}
use grosh.Linking.Service.{
  MonobankAccount, MonobankClientInfo, client_info, api_error, Outside, Call, LinkError,
  monobank_token_invalid, Answer, raised, returned, MonobankLinkResponse, create_fresh,
  link_client_accounts, link_accounts, link_account, find_orphan, link, unlink, decrypt_token,
}
use grosh.Linking.Stuck.{IsStuck}
use grosh.Linking.Steps.{IsNew, Reach, here}
use grosh.Linking.Errored.{IsOnly, link-mark_integration_error}
use grosh.Linking.Loop.{AllRebound}
use grosh.Linking.Orphans.{IsBoundRow}
use grosh.Linking.Relinked.{unlink-link}
use grosh.Linking.Webhook.{WebhookPayload, receive_webhook, published, integration_not_found}
use grosh.Linking.Pushed.{IsAnswered, receive_webhook-IsAnswered}
use grosh.Linking.Backfills.{
  trigger_backfill, BackfillAnswer, ok as ok_answer, problem, window_too_large,
  resolve_account_owner, get_external_ref, belongs_to_user,
}
use grosh.Linking.Windows.{IsAllowed, trigger_backfill-IsAllowed}

abbrev info : MonobankClientInfo
info = record {
  client_id = "client";
  accounts =
      record {
        id = "a";
        type = "black";
        currency_code = pos 980;
        cashback_type = some "UAH";
        masked_pan = "5375" ∷ [];
        iban = "UA1";
      }
      ∷ [];
}

-- The bank answers every token with the one client.
abbrev outside : Outside
outside = record {
  get_client_info = λ token. client_info info;
  set_webhook = λ token url. true;
  encrypt_token = λ token. token;
  decrypt = λ hex. some hex;
  find_currency = λ code. some "UAH";
  webhook_base_url = "https://grosh";
  key_version = 1;
}

abbrev first : Call
first = record {
  integration_id = 5;
  account_ids = λ n. 10 + n;
  webhook_secret = "first";
  now = 100;
  meanwhile = [];
}

abbrev second : Call
second = record {
  integration_id = 6;
  account_ids = λ n. 20 + n;
  webhook_secret = "second";
  now = 200;
  meanwhile = [];
}

abbrev empty : Tables
empty = record { integrations = []; accounts = [] }

abbrev integration : BankIntegrationRow
integration = record {
  id = 5;
  user_id = 7;
  bank = "monobank";
  config = record {
    encrypted_token = some "token";
    key_version = some 1;
    webhook_secret = some "first";
    webhook_url = some "https://grosh/monobank/webhook/first";
    monobank_client_id = some "client";
  };
  status = "active";
  created_at = 100;
}

abbrev account : Account
account = record {
  id = 10;
  user_id = 7;
  integration_id = some 5;
  source = "monobank";
  type = "black";
  currency_code = "UAH";
  masked_pan = some "5375";
  iban = some "UA1";
  external_id = some "a";
  cashback_type = some "UAH";
  is_active = true;
  monobank_client_id = some "client";
}

abbrev linked : Tables
linked = record { integrations = integration ∷ []; accounts = account ∷ [] }

abbrev response : MonobankLinkResponse
response = record {
  integration_id = 5;
  is_new = true;
  webhook_registered = true;
  accounts =
      record {
        account_id = 10;
        external_account_id = some "a";
        currency_code = "UAH";
        was_rebound = false;
      }
      ∷ [];
}

links : link outside first empty 7 "token" ≡ returned (response, linked)
unfolding link create_fresh get_integration_by_client_id get_any_active_integration
    create_integration_idempotent link_client_accounts link_accounts link_account find_orphan
    find_orphan_accounts_for_rebind set_account_monobank_client_id numeric_to_alpha
links = refl

abbrev relinked : Answer (MonobankLinkResponse × Tables)
relinked =
    link outside second
      (record { integrations = []; accounts = record account { integration_id = none } ∷ [] }) 7
      "token"

relinks :
    relinked
    ≡ returned (
      record response {
        integration_id = 6;
        accounts =
            record {
              account_id = 10;
              external_account_id = some "a";
              currency_code = "UAH";
              was_rebound = true;
            }
            ∷ [];
      },
      record {
        integrations =
            record integration {
              id = 6;
              created_at = 200;
              config = record integration.config {
                webhook_secret = some "second";
                webhook_url = some "https://grosh/monobank/webhook/second";
              };
            }
            ∷ [];
        accounts = record account { integration_id = some 6 } ∷ [];
      },
    )
unfolding link create_fresh get_integration_by_client_id get_any_active_integration
    create_integration_idempotent link_client_accounts link_accounts link_account find_orphan
    find_orphan_accounts_for_rebind rebind_account numeric_to_alpha
relinks = refl

refuses :
    link (record outside { get_client_info = λ token. api_error 403 }) first empty 7 "token"
    ≡ raised monobank_token_invalid
unfolding link
refuses = refl

unlink-link_example :
    (db₂ : Tables) × (again : MonobankLinkResponse) × (db₃ : Tables) × (unlink outside linked 5 7
      ≡ returned (true, db₂))
    × (link outside second db₂ 7 "token" ≡ returned (again, db₃))
    × (again.is_new ≡ true)
    × (map (λ y. y.id) db₃.accounts ≡ 10 ∷ [])
    × AllRebound again.accounts
    × (map (λ r. r.external_account_id) again.accounts ≡ some "a" ∷ [])
    × ((a : MonobankAccount)
        → Member a info.accounts
        → IsBoundRow 7 "client" a.id again.integration_id db₃.accounts)
unlink-link_example =
    unlink-link outside 7 "token" info refl first empty second response linked refl
      (λ r m. elim m [ ]) (λ r m. elim m [ ]) (λ r m. elim m [ ]) refl links

-- The integration after the bank has refused its token.
abbrev marked : Tables
marked = record linked { integrations = record integration { status = "error" } ∷ [] }

only : IsOnly integration 7 "client" (integration ∷ [])
only r (inl e) h = sym e
only r (inr m) h = elim m [ ]

new : IsNew marked.integrations second
new = record {
  new_id = λ r m. differs r m;
  other_ids = λ r s m n. elim n [ ];
  other_clients = λ r s user_id client_id m n h. elim n [ ];
}
  where
    differs : (r : BankIntegrationRow) → Member r marked.integrations → r.id ≢ 6
    differs r (inl e) h = ground (arith, ap (λ y. y.id) e, h)
    differs r (inr m) h = elim m [ ]

marks : record linked { integrations = mark_integration_error linked.integrations 5 } ≡ marked
unfolding mark_integration_error
marks = refl

link-mark_integration_error_example :
    IsStuck 5 7 "client" marked.integrations
    × ((e : LinkError) × (link outside second marked 7 "token" ≡ raised e))
    × (unlink outside marked 5 7 ≡ returned (false, marked))
    × (decrypt_token outside marked.integrations 7 5 ≡ returned none)
link-mark_integration_error_example =
    link-mark_integration_error linked marked integration 7 "client" outside second "token" info 7
      (inl refl) refl only
      (subst (Reach (record linked { integrations = mark_integration_error linked.integrations 5 }))
        marks here)
      refl refl new

abbrev payload : WebhookPayload ℕ
payload = record { account = "a"; statement_item = 3 }

receives :
    receive_webhook (λ n. true) true linked "first" payload
    ≡ published (record { user_id = 7; account_id = 10; source = "monobank"; payload = 3 })
unfolding receive_webhook get_active_integration_by_webhook_secret get_account_by_external_id
receives = refl

hidden : receive_webhook (λ n. true) true marked "first" payload ≡ integration_not_found
unfolding receive_webhook get_active_integration_by_webhook_secret
hidden = refl

receive_webhook-IsAnswered_example :
    IsAnswered
      (λ n. true)
      true
      linked
      "first"
      payload
      (receive_webhook (λ n. true) true linked "first" payload)
receive_webhook-IsAnswered_example =
    receive_webhook-IsAnswered (λ n. true) true linked "first" payload

abbrev texts : Texts
texts = record {
  uuid_text = λ u. "u";
  int_text = λ n. "0";
  short_text = λ u. "short";
  json_array = λ items. "[]";
}

abbrev settings : Settings
settings = record { image = "image"; image_pull_policy = "IfNotPresent"; namespace = "grosh" }

abbrev cluster : BatchApi
cluster = record {
  list_namespaced_job = λ namespace selector. job_returned [];
  read_namespaced_job = λ namespace name. job_raised (api_exception 404);
  create_namespaced_job = λ namespace body. job_returned tt;
}

abbrev users : List User
users = record { id = 7; role = UserRole.user; last_reprocess_started_at = none } ∷ []

abbrev started : Option ℕ
started = some 738_990

abbrev requested : Option ℕ → BackfillAnswer String
requested from_date =
    trigger_backfill texts settings (some cluster) "job" 739_000 users (account ∷ []) 10 7 from_date
      none

starts : requested started ≡ ok_answer "job"
unfolding trigger_backfill resolve_account_owner belongs_to_user get_role get_external_ref
    trigger_transactions_backfill submit_unless_active has_active_job submit
starts = refl

default_refused : requested none ≡ problem window_too_large
unfolding trigger_backfill
default_refused = refl

trigger_backfill-IsAllowed_example :
    IsAllowed texts settings
      (some cluster)
      "job"
      users
      (account ∷ [])
      10
      7
      started
      739_000
      (requested started)
trigger_backfill-IsAllowed_example =
    trigger_backfill-IsAllowed texts settings (some cluster) "job" 739_000 users (account ∷ []) 10 7
      started none
