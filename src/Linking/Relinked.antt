-- ===== src/Linking/Relinked.antt =====
-- An integration that is unlinked and linked again.
use grosh.Prelude.{
  ℕ, String, Bool, true, false, not, ◌&&◌, some, List, [], ◌∷◌, ◌++◌, ◌≡◌, ◌≢◌, ◌∙◌, inl, inr, refl,
  sym, ap, subst, arith, any, map, filter, ◌==◌, Bool-cases, Member, Member-append_cases,
  Member-append_left, Member-filter,
}
use grosh.Linking.{
  BankIntegrationRow, Tables, has_client, is_monobank, is_active, column_is, unbound,
  delete_integration, get_integration_by_client_id, get_active_integration,
}
use grosh.Linking.Service.{
  MonobankAccount, MonobankClientInfo, client_info, Outside, Call, returned, MonobankLinkResponse,
  new_integration, link_client_accounts, link, decrypted, decrypt_token, token_of, unlinked, unlink,
}
use grosh.Linking.Rows.{any-none, first_of-Member, first_of-last}
use grosh.Linking.Linked.{IsLinked, IsAdded, IsAdded-integrations, link-cases, link_response-parts}
use grosh.Linking.Bound.{any-last}
use grosh.Linking.Loop.{AllRebound}
use grosh.Linking.Orphans.{IsBoundRow, added-bound, unbound-orphans, unbound-ids}
use grosh.Linking.Again.{link-added}

module _ (outside : Outside) (user_id : ℕ) (token : String) (info : MonobankClientInfo)
    (known_token : outside.get_client_info token ≡ client_info info) where
  module _ (first : Call) (db : Tables) where
    abbrev before : List BankIntegrationRow
    before = db.integrations ++ first.meanwhile

    abbrev row : BankIntegrationRow
    row = new_integration outside first user_id token info.client_id

    -- The tables after the integration that the first call added is unlinked.
    abbrev is_other : BankIntegrationRow → Bool
    is_other r = not (r.user_id == user_id && r.id == first.integration_id)

    abbrev without : Tables → Tables
    without db₁ = record {
      integrations = filter is_other db₁.integrations;
      accounts = map (unbound first.integration_id) db₁.accounts;
    }

    read_back :
        outside.decrypt (outside.encrypt_token token) ≡ some token
        → ((r : BankIntegrationRow) → Member r before → r.id ≢ first.integration_id)
        → decrypt_token outside (before ++ row ∷ []) user_id first.integration_id
          ≡ returned (some token)
    unfolding decrypt_token get_active_integration
    read_back crypto new_id =
        ap (decrypted outside)
          (first_of-last _ before row (λ r m. other r (new_id r m)) (ground arith))
        ∙ ap (token_of outside) crypto
      where
        other :
            (r : BankIntegrationRow)
            → r.id ≢ first.integration_id
            → (r.user_id == user_id && r.id == first.integration_id && is_active r) ≡ false
        other r n = elim (Bool-cases (r.id == first.integration_id)) [
          | inl e ↦ absurd (n (ground (arith, e)))
          | inr e ↦ rw e (ground arith)
        ]

    unlinks :
        (db₁ : Tables)
        → db₁.integrations ≡ before ++ row ∷ []
        → outside.decrypt (outside.encrypt_token token) ≡ some token
        → ((r : BankIntegrationRow) → Member r before → r.id ≢ first.integration_id)
        → unlink outside db₁ first.integration_id user_id ≡ returned (true, without db₁)
    unfolding unlink delete_integration
    unlinks db₁ e crypto new_id =
        ap (unlinked outside db₁ first.integration_id user_id) (
          ap (λ rows. decrypt_token outside rows user_id first.integration_id) e
          ∙ read_back crypto new_id)
        ∙ ap returned deleted
      where
        stored :
            any (λ r. r.user_id == user_id && r.id == first.integration_id) db₁.integrations ≡ true
        stored =
            subst
              (λ rows. any (λ r. r.user_id == user_id && r.id == first.integration_id) rows ≡ true)
              (sym e)
              (any-last (λ r. r.user_id == user_id && r.id == first.integration_id) before row
                (ground arith))

        deleted : delete_integration db₁ user_id first.integration_id ≡ (true, without db₁)
        deleted = rw stored refl

    left :
        (db₁ : Tables) (r : BankIntegrationRow)
        → db₁.integrations ≡ before ++ row ∷ []
        → Member r (without db₁).integrations
        → Member r before
    left db₁ r e m =
        let (n, test) = Member-filter r is_other db₁.integrations m in
        elim (Member-append_cases r before (row ∷ []) (subst (Member r) e n)) [
          | inl old ↦ old
          | inr (inl same) ↦ absurd (gone (ap is_other same ∙ test))
          | inr (inr none_left) ↦ elim none_left [ ]
        ]
      where
        gone : is_other row ≡ true → ⊥
        gone h = ground (arith, h)

    -- A user without an active integration has none of a client.
    rotated_none :
        (rows : List BankIntegrationRow) (client_id : String) (existing : BankIntegrationRow)
        → ((r : BankIntegrationRow)
            → Member r rows
            → is_monobank user_id r ≡ true
            → is_active r ≡ false)
        → get_integration_by_client_id rows user_id client_id ≡ some existing
        → ⊥
    unfolding get_integration_by_client_id
    rotated_none rows client_id existing inactive found =
        let (m, test) =
          first_of-Member (λ r. has_client user_id client_id r && is_active r) rows existing
            found in
        active (inactive existing m) test
      where
        active :
            (is_monobank user_id existing ≡ true → is_active existing ≡ false)
            → (has_client user_id client_id existing && is_active existing) ≡ true
            → ⊥
        active h test = ground (arith, h, test)

    -- Linking, unlinking and linking again with a token that the bank knows: the user has no active
    -- integration at first, the id of the new row is new, the second secret is no row's, and a token
    -- is decrypted to what was encrypted. The first call having returned, the integration is
    -- unlinked, and the second call returns too. It adds no row to the accounts and keeps their ids in
    -- their order; each account of the bank has a row of the user and the client that is bound to the new
    -- integration; and the answer says that each was bound again, in the bank's order.
    pub unlink-link :
        (second : Call) (response : MonobankLinkResponse) (db₁ : Tables)
        → outside.decrypt (outside.encrypt_token token) ≡ some token
        → ((r : BankIntegrationRow) → Member r before → r.id ≢ first.integration_id)
        → ((r : BankIntegrationRow)
            → Member r before
            → is_monobank user_id r ≡ true
            → is_active r ≡ false)
        → ((r : BankIntegrationRow)
            → Member r before
            → column_is r.config.webhook_secret second.webhook_secret ≡ false)
        → second.meanwhile ≡ []
        → link outside first db user_id token ≡ returned (response, db₁)
        → (db₂ : Tables) × (again : MonobankLinkResponse) × (db₃ : Tables) × (unlink outside db₁
              response.integration_id user_id
            ≡ returned (true, db₂))
          × (link outside second db₂ user_id token ≡ returned (again, db₃))
          × (again.is_new ≡ true)
          × (map (λ y. y.id) db₃.accounts ≡ map (λ y. y.id) db₁.accounts)
          × AllRebound again.accounts
          × (map (λ r. r.external_account_id) again.accounts ≡ map (λ a. some a.id) info.accounts)
          × ((a : MonobankAccount)
              → Member a info.accounts
              → IsBoundRow user_id info.client_id a.id again.integration_id db₃.accounts)
    unfolding link_client_accounts get_integration_by_client_id
    unlink-link second response db₁ crypto new_id inactive secret alone h =
        cases (link-cases outside first user_id token db (response, db₁) h)
      where
        Conclusion : Type 0
        Conclusion =
            (db₂ : Tables) × (again : MonobankLinkResponse) × (db₃ : Tables) × (unlink outside db₁
                response.integration_id user_id
              ≡ returned (true, db₂))
            × (link outside second db₂ user_id token ≡ returned (again, db₃))
            × (again.is_new ≡ true)
            × (map (λ y. y.id) db₃.accounts ≡ map (λ y. y.id) db₁.accounts)
            × AllRebound again.accounts
            × (map (λ r. r.external_account_id) again.accounts ≡ map (λ a. some a.id) info.accounts)
            × ((a : MonobankAccount)
                → Member a info.accounts
                → IsBoundRow user_id info.client_id a.id again.integration_id db₃.accounts)

        info-injective : {a b : MonobankClientInfo} → client_info a ≡ client_info b → a ≡ b
        info-injective h = cc

        added : IsAdded outside first user_id token db info (response, db₁) → Conclusion
        added a =
            let (bound, known) =
              added-bound outside user_id info first token db (response, db₁) a in
            let e = IsAdded-integrations outside first user_id token db info (response, db₁) a in
            let (_, _, _, id, _, _, _) =
              link_response-parts outside first user_id token _ first.integration_id _
                (response, db₁) a.1 in
            let (done, l, new, ids, all, exts, id_again, rows) =
              link-added outside user_id token info known_token second (without db₁)
                (λ r m. (
                  any-none (has_client user_id info.client_id) before a.0 r (left db₁ r e m),
                  inactive r (left db₁ r e m),
                ))
                (λ r m. secret r (left db₁ r e m)) alone
                (λ b m.
                  unbound-orphans outside user_id info first.integration_id db₁.accounts b m
                    (bound b m))
                known in
            (
              without db₁,
              done.0,
              done.1,
              ap (λ n. unlink outside db₁ n user_id) id ∙ unlinks db₁ e crypto new_id,
              l,
              new,
              ids ∙ unbound-ids outside user_id info first.integration_id db₁.accounts,
              all,
              exts,
              λ b m.
                  subst (λ n. IsBoundRow user_id info.client_id b.id n done.1.accounts)
                    (sym id_again) (rows b m),
            )

        cases : IsLinked outside first user_id token db (response, db₁) → Conclusion
        cases (i, f, inl (existing, found, _)) = absurd (
            rotated_none db.integrations i.client_id existing
              (λ r m. inactive r (Member-append_left r db.integrations first.meanwhile m)) found)
        cases (i, f, inr (inl (existing, found, _))) =
            absurd (rotated_none before i.client_id existing inactive found)
        cases (i, f, inr (inr a)) = added (
            subst (λ x. IsAdded outside first user_id token db x (response, db₁))
              (info-injective (sym f ∙ known_token)) a)
