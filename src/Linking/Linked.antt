-- ===== src/Linking/Linked.antt =====
-- What a request that links has done, where it returns.
use grosh.Prelude.{
  ℕ, String, Bool, true, false, not, ◌&&◌, ◌||◌, Option, none, some, List, [], ◌∷◌, ◌++◌, ◌≡◌, ◌∙◌,
  ◌⊎◌, inl, inr, refl, sym, ap, arith, any, if◌then◌else◌, ◌==◌, Bool-cases, Option-cases,
}
use grosh.Linking.{
  BankIntegrationRow, Account, Tables, has_client, column_is, get_integration_by_client_id,
  get_any_active_integration, create_integration_idempotent,
}
use grosh.Linking.Service.{
  MonobankClientInfo, Reply, client_info, api_error, unavailable, Outside, Call, LinkError, Answer,
  raised, returned, database_error, monobank_token_invalid, monobank_api_unavailable,
  MonobankLinkResponse, MonobankAccountResponse, link_response, link_client_accounts,
  new_integration, rotate_existing_integration, after_insert, create_fresh, link_new, link_client,
  link_reply, link,
}

pub returned-injective : {A : Type 0} {a b : A} → returned a ≡ returned b → a ≡ b
returned-injective h = cc

module _ (outside : Outside) (call : Call) (user_id : ℕ) (token : String) where
  abbrev pub Done : Type 0
  Done = MonobankLinkResponse × Tables

  -- The token of an active row of the client was rotated.
  abbrev pub IsRotated : Tables → MonobankClientInfo → Done → Type 0
  IsRotated db info done =
      (existing : BankIntegrationRow) × (get_integration_by_client_id db.integrations user_id
          info.client_id
        ≡ some existing)
      × (done ≡ rotate_existing_integration outside db token existing)

  abbrev pub with_meanwhile : Tables → Tables
  with_meanwhile db = record db { integrations = db.integrations ++ call.meanwhile }

  -- There was no row of the client, and one was added with its accounts.
  abbrev pub IsAdded : Tables → MonobankClientInfo → Done → Type 0
  IsAdded db info done =
      (any (has_client user_id info.client_id) (with_meanwhile db).integrations ≡ false)
      × (link_client_accounts outside call
            (record db {
              integrations =
                  (with_meanwhile db).integrations
                  ++ new_integration outside call user_id token info.client_id ∷ [];
            })
            user_id token info (some call.integration_id)
          ≡ returned done)

  no_id :
      (linked : Answer (List MonobankAccountResponse × List Account))
      (rows : List BankIntegrationRow) (done : Done)
      → link_response outside call token rows none linked ≡ returned done
      → ⊥
  no_id (raised e) rows done h = absurd cc
  no_id (returned linked) rows done h = absurd cc

  -- After the insert has met a row of the client.
  abbrev met : Tables → MonobankClientInfo → Option BankIntegrationRow → Answer Done
  met db info found = elim found [
    | some existing ↦ returned (rotate_existing_integration outside db token existing)
    | none ↦ link_client_accounts outside call db user_id token info none
  ]

  abbrev pub created : Tables → MonobankClientInfo → Option ℕ × Bool × List BankIntegrationRow
  created db info =
      create_integration_idempotent db.integrations
        (new_integration outside call user_id token info.client_id) info.client_id

  after_insert-met :
      (db : Tables) (info : MonobankClientInfo)
      → any (has_client user_id info.client_id) db.integrations ≡ true
      → after_insert outside call db user_id token info (created db info)
        ≡ met db info (get_integration_by_client_id db.integrations user_id info.client_id)
  unfolding create_integration_idempotent
  after_insert-met db info b =
      elim (Option-cases (get_integration_by_client_id db.integrations user_id info.client_id)) [
        | inl e ↦ rw (b, e) (ground (arith, e))
        | inr (row, e) ↦ rw (b, e) refl
      ]

  pub after_insert-new :
      (db : Tables) (info : MonobankClientInfo)
      → any (has_client user_id info.client_id) db.integrations ≡ false
      → after_insert outside call db user_id token info (created db info)
        ≡ link_client_accounts outside call
            (record db {
              integrations =
                  db.integrations ++ new_integration outside call user_id token info.client_id ∷ [];
            })
            user_id
            token
            info
            (some call.integration_id)
  unfolding create_integration_idempotent
  after_insert-new db info b = rw b refl

  met-IsRotated :
      (db : Tables) (info : MonobankClientInfo) (found : Option BankIntegrationRow) (done : Done)
      → get_integration_by_client_id db.integrations user_id info.client_id ≡ found
      → met db info found ≡ returned done
      → IsRotated db info done
  unfolding link_client_accounts
  met-IsRotated db info (some row) done e h = (row, e, sym (returned-injective h))
  met-IsRotated db info none done e h = absurd (no_id _ db.integrations done h)

  -- An insert that returns has taken up an active row of the client, or added one.
  pub create_fresh-cases :
      (db : Tables) (info : MonobankClientInfo) (done : Done)
      → create_fresh outside call db user_id token info ≡ returned done
      → IsRotated (with_meanwhile db) info done ⊎ IsAdded db info done
  unfolding create_fresh
  create_fresh-cases db info done h =
      elim (Bool-cases (any (has_client user_id info.client_id) (with_meanwhile db).integrations)) [
        | inl b ↦ inl (
            met-IsRotated (with_meanwhile db) info _ done refl
              (sym (after_insert-met (with_meanwhile db) info b) ∙ inserted h))
        | inr b ↦ inr (b, sym (after_insert-new (with_meanwhile db) info b) ∙ inserted h)
      ]
    where
      inserted :
          create_fresh outside call db user_id token info ≡ returned done
          → after_insert outside call
              (with_meanwhile db)
              user_id
              token
              info
              (created (with_meanwhile db) info)
            ≡ returned done
      inserted h =
          passed
            (not (any (has_client user_id info.client_id) (with_meanwhile db).integrations)
              && any (λ row. column_is row.config.webhook_secret call.webhook_secret)
                  (with_meanwhile db).integrations)
            database_error h
        where
          passed :
              (b : Bool) (e : LinkError) {a : Answer Done}
              → (if b then raised e else a) ≡ returned done
              → a ≡ returned done
          passed true e h = absurd cc
          passed false e h = h

  abbrev pub IsLinked : Tables → Done → Type 0
  IsLinked db done =
      (info : MonobankClientInfo) × (outside.get_client_info token ≡ client_info info)
      × (IsRotated db info done ⊎ IsRotated (with_meanwhile db) info done ⊎ IsAdded db info done)

  link_new-cases :
      (db : Tables) (info : MonobankClientInfo) (conflicting : Option BankIntegrationRow)
      (done : Done)
      → link_new outside call db user_id token info conflicting ≡ returned done
      → create_fresh outside call db user_id token info ≡ returned done
  link_new-cases db info (some c) done h = absurd cc
  link_new-cases db info none done h = h

  link_client-cases :
      (db : Tables) (info : MonobankClientInfo) (found : Option BankIntegrationRow) (done : Done)
      → get_integration_by_client_id db.integrations user_id info.client_id ≡ found
      → link_client outside call db user_id token info found ≡ returned done
      → IsRotated db info done ⊎ IsRotated (with_meanwhile db) info done ⊎ IsAdded db info done
  link_client-cases db info (some existing) done e h = inl (existing, e, sym (returned-injective h))
  link_client-cases db info none done e h = inr (
      create_fresh-cases db info done
        (link_new-cases db info (get_any_active_integration db.integrations user_id) done h))

  link_reply-cases :
      (db : Tables) (reply : Reply) (done : Done)
      → outside.get_client_info token ≡ reply
      → link_reply outside call db user_id token reply ≡ returned done
      → IsLinked db done
  link_reply-cases db (api_error status_code) done e h =
      absurd (refused (status_code == 401 || status_code == 403) h)
    where
      refused :
          (b : Bool)
          → (if b then raised monobank_token_invalid else raised monobank_api_unavailable)
            ≡ returned done
          → ⊥
      refused true h = cc
      refused false h = cc
  link_reply-cases db unavailable done e h = absurd cc
  link_reply-cases db (client_info info) done e h =
      (info, e, link_client-cases db info _ done refl h)

  -- A call that returns has rotated the token of a row, or added one.
  pub link-cases :
      (db : Tables) (done : Done)
      → link outside call db user_id token ≡ returned done
      → IsLinked db done
  unfolding link
  link-cases db done h = link_reply-cases db (outside.get_client_info token) done refl h

  -- The accounts were linked, and the answer has the id.
  pub link_response-parts :
      (rows : List BankIntegrationRow) (id : ℕ)
      (linked : Answer (List MonobankAccountResponse × List Account)) (done : Done)
      → link_response outside call token rows (some id) linked ≡ returned done
      → (responses : List MonobankAccountResponse) × (accounts : List Account) × (linked
          ≡ returned (responses, accounts))
        × (done.0.integration_id ≡ id)
        × (done.0.is_new ≡ true)
        × (done.0.accounts ≡ responses)
        × (done.1 ≡ record { integrations = rows; accounts = accounts })
  link_response-parts rows id (raised e) done h = absurd cc
  link_response-parts rows id (returned (responses, accounts)) done h =
      let same = sym (returned-injective h) in
      (
        responses,
        accounts,
        refl,
        ap (λ d. d.0.integration_id) same,
        ap (λ d. d.0.is_new) same,
        ap (λ d. d.0.accounts) same,
        ap (λ d. d.1) same,
      )

  pub IsAdded-integrations :
      (db : Tables) (info : MonobankClientInfo) (done : Done)
      → IsAdded db info done
      → done.1.integrations
        ≡ (with_meanwhile db).integrations
          ++ new_integration outside call user_id token info.client_id ∷ []
  unfolding link_client_accounts
  IsAdded-integrations db info done (none_there, h) =
      let (_, _, _, _, _, _, same) = link_response-parts _ call.integration_id _ done h in
      ap (λ t. t.integrations) same
