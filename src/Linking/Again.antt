-- ===== src/Linking/Again.antt =====
-- A client whose accounts are all stored is linked again.
use grosh.Prelude.{
  ℕ, String, true, false, ◌&&◌, none, some, List, [], ◌∷◌, ◌++◌, ◌≡◌, ◌∙◌, inl, inr, refl, ap,
  subst, any, map, is_some, Bool-cases, Member, Member-append_cases,
}
use grosh.Normalization.{numeric_to_alpha}
use grosh.Domain.{ok}
use grosh.Linking.{
  BankIntegrationRow, Tables, has_client, is_monobank, is_active, column_is,
  get_integration_by_client_id, get_any_active_integration,
}
use grosh.Linking.Service.{
  MonobankAccount, MonobankClientInfo, client_info, Outside, Call, returned, MonobankLinkResponse,
  MonobankAccountResponse, new_integration, link_client_accounts, link_response, create_fresh,
  after_insert, link_new, link_client, link_reply, link, find_orphan, webhook_url_of,
}
use grosh.Linking.Rows.{first_of-none, any-false}
use grosh.Linking.Linked.{with_meanwhile, after_insert-new, created}
use grosh.Linking.Loop.{link_accounts-bound, AllRebound, link_accounts-rebound}
use grosh.Linking.Orphans.{IsBoundRow, bound-IsBoundRow, orphans-AreThere, target, orphans}

module _ (outside : Outside) (user_id : ℕ) (token : String) (info : MonobankClientInfo)
    (known_token : outside.get_client_info token ≡ client_info info) where
  -- A call for which the user has no row of the client and no active row adds one; the accounts that
  -- are all found among the orphans are bound again.
  pub link-added :
      (call : Call) (db : Tables)
      → ((r : BankIntegrationRow)
          → Member r db.integrations
          → (has_client user_id info.client_id r ≡ false)
            × (is_monobank user_id r ≡ true → is_active r ≡ false))
      → ((r : BankIntegrationRow)
          → Member r db.integrations
          → column_is r.config.webhook_secret call.webhook_secret ≡ false)
      → call.meanwhile ≡ []
      → ((a : MonobankAccount)
          → Member a info.accounts
          → is_some (find_orphan (orphans user_id info db.accounts) a.id) ≡ true)
      → ((a : MonobankAccount)
          → Member a info.accounts
          → (code : String) × (numeric_to_alpha outside.find_currency a.currency_code ≡ ok code))
      → (done : MonobankLinkResponse × Tables) × (link outside call db user_id token
          ≡ returned done)
        × (done.0.is_new ≡ true)
        × (map (λ y. y.id) done.1.accounts ≡ map (λ y. y.id) db.accounts)
        × AllRebound done.0.accounts
        × (map (λ r. r.external_account_id) done.0.accounts ≡ map (λ a. some a.id) info.accounts)
        × (done.0.integration_id ≡ call.integration_id)
        × ((a : MonobankAccount)
            → Member a info.accounts
            → IsBoundRow user_id info.client_id a.id call.integration_id done.1.accounts)
  unfolding link_client_accounts link get_integration_by_client_id get_any_active_integration
      create_fresh
  link-added call db free secret alone found known =
      let (responses, accounts, l, ids, all, exts) =
        link_accounts-rebound outside call.account_ids
          (target user_id info (some call.integration_id)) (orphans user_id info db.accounts) 0
          info.accounts db.accounts found known in
      (
        (answer responses, record { integrations = rows; accounts = accounts }),
        reply
            ∙ fresh
            ∙ inserted
            ∙ ap (link_response outside call token rows (some call.integration_id)) l,
        refl,
        ids,
        all,
        exts,
        refl,
        λ a m. bound-IsBoundRow outside user_id info call.integration_id a.id accounts (
            link_accounts-bound outside call.account_ids
              (target user_id info (some call.integration_id)) (orphans user_id info db.accounts) 0
              info.accounts db.accounts responses accounts a
              (orphans-AreThere outside user_id info db.accounts call.account_ids
                (some call.integration_id))
              l m),
      )
    where
      rows : List BankIntegrationRow
      rows =
          (db.integrations ++ call.meanwhile)
          ++ new_integration outside call user_id token info.client_id ∷ []

      answer : List MonobankAccountResponse → MonobankLinkResponse
      answer responses = record {
        integration_id = call.integration_id;
        is_new = true;
        webhook_registered =
            outside.set_webhook token (webhook_url_of outside.webhook_base_url call.webhook_secret);
        accounts = responses;
      }

      old :
          (r : BankIntegrationRow)
          → Member r (db.integrations ++ call.meanwhile)
          → Member r db.integrations
      old r m = elim (Member-append_cases r db.integrations call.meanwhile m) [
        | inl n ↦ n
        | inr n ↦ elim (subst (Member r) alone n) [ ]
      ]

      no_client : get_integration_by_client_id db.integrations user_id info.client_id ≡ none
      no_client = first_of-none _ _ (λ r m. rw (free r m).0 refl)

      none_active : get_any_active_integration db.integrations user_id ≡ none
      none_active = first_of-none _ _ (λ r m. hidden r m)
        where
          hidden :
              (r : BankIntegrationRow)
              → Member r db.integrations
              → (is_monobank user_id r && is_active r) ≡ false
          hidden r m = elim (Bool-cases (is_monobank user_id r)) [
            | inl e ↦ rw (e, (free r m).1 e) refl
            | inr e ↦ rw e refl
          ]

      reply : link outside call db user_id token ≡ create_fresh outside call db user_id token info
      reply =
          ap (link_reply outside call db user_id token) known_token
          ∙ ap (link_client outside call db user_id token info) no_client
          ∙ ap (link_new outside call db user_id token info) none_active

      unique : any (has_client user_id info.client_id) (db.integrations ++ call.meanwhile) ≡ false
      unique = any-false _ _ (λ r m. (free r (old r m)).0)

      fresh :
          create_fresh outside call db user_id token info
          ≡ after_insert outside call
              (with_meanwhile outside call user_id token db)
              user_id
              token
              info
              (created outside call user_id token
                (with_meanwhile outside call user_id token db)
                info)
      fresh = rw (unique, no_secret) refl
        where
          no_secret :
              any
                (λ row. column_is row.config.webhook_secret call.webhook_secret)
                (db.integrations ++ call.meanwhile)
              ≡ false
          no_secret = any-false _ _ (λ r m. secret r (old r m))

      inserted :
          after_insert outside call
            (with_meanwhile outside call user_id token db)
            user_id
            token
            info
            (created outside call user_id token (with_meanwhile outside call user_id token db) info)
          ≡ link_client_accounts outside call
              (record db { integrations = rows })
              user_id
              token
              info
              (some call.integration_id)
      inserted =
          after_insert-new outside call user_id token (with_meanwhile outside call user_id token db)
            info unique
