-- ===== src/Linking/Orphans.antt =====
-- Rows that are bound, and that an integration leaves behind.
use grosh.Prelude.{
  ℕ, String, Bool, true, false, ◌&&◌, Option, some, List, [], ◌∷◌, ◌≡◌, inl, inr, refl, sym, subst,
  arith, any, map, ◌==◌, opt_eq, is_some, Bool-cases, Member, Member-filter, Member-any, any-Member,
}
use grosh.Normalization.{numeric_to_alpha}
use grosh.Domain.{ok}
use grosh.Linking.{Account, Tables, column_is, is_orphan, unbound, find_orphan_accounts_for_rebind}
use grosh.Linking.Service.{
  MonobankAccount, MonobankClientInfo, Outside, Call, MonobankLinkResponse, Target,
  link_client_accounts, find_orphan,
}
use grosh.Linking.Rows.{any-filter, Member-map, column_is-some, opt_eq-some}
use grosh.Linking.Linked.{IsAdded, link_response-parts}
use grosh.Linking.Bound.{is_row, is_bound, any-map, find_orphan-some}
use grosh.Linking.Loop.{AreThere, link_accounts-bound, link_accounts-known}

abbrev pub target : ℕ → MonobankClientInfo → Option ℕ → Target
target user_id info id = record {
  user_id = user_id;
  client_id = info.client_id;
  integration_id = id;
}

abbrev pub orphans : ℕ → MonobankClientInfo → List Account → List Account
orphans user_id info accounts =
    find_orphan_accounts_for_rebind accounts user_id info.client_id (map (λ a. a.id) info.accounts)

-- A stored row of the user for an account of the bank, bound to an integration.
abbrev pub IsBoundRow : ℕ → String → String → ℕ → List Account → Type 0
IsBoundRow user_id client_id external_id integration_id accounts =
    (y : Account) × Member y accounts
    × (y.user_id ≡ user_id)
    × (y.external_id ≡ some external_id)
    × (y.monobank_client_id ≡ some client_id)
    × (y.integration_id ≡ some integration_id)

module _ (outside : Outside) (user_id : ℕ) (info : MonobankClientInfo) where
  pub orphans-AreThere :
      (accounts : List Account) (account_ids : ℕ → ℕ) (id : Option ℕ)
      → AreThere outside account_ids
          (target user_id info id)
          (orphans user_id info accounts)
          accounts
  unfolding find_orphan_accounts_for_rebind
  orphans-AreThere accounts account_ids id o external_id m c =
      let (stored, test) = Member-filter o _ accounts m in
      Member-any o (λ y. is_row (target user_id info id) external_id y && y.id == o.id) accounts
        stored (ground (arith, test, c))

  -- A first call that adds the integration binds a row for each account of the bank.
  pub added-bound :
      (call : Call) (token : String) (db : Tables) (done : MonobankLinkResponse × Tables)
      → IsAdded outside call user_id token db info done
      → ((a : MonobankAccount)
          → Member a info.accounts
          → any (is_bound (target user_id info (some call.integration_id)) a.id) done.1.accounts
            ≡ true)
        × ((a : MonobankAccount)
            → Member a info.accounts
            → (code : String) × (numeric_to_alpha outside.find_currency a.currency_code ≡ ok code))
  unfolding link_client_accounts
  added-bound call token db done (none_there, h) =
      let (responses, accounts, l, _, _, _, same) =
        link_response-parts outside call user_id token _ call.integration_id _ done h in
      (
        λ a m.
            subst
              (λ t.
                any (is_bound (target user_id info (some call.integration_id)) a.id) t.accounts
                ≡ true)
              (sym same)
              (link_accounts-bound outside call.account_ids
                (target user_id info (some call.integration_id)) (orphans user_id info db.accounts)
                0 info.accounts db.accounts responses accounts a
                (orphans-AreThere db.accounts call.account_ids (some call.integration_id)) l m),
        λ a m.
            link_accounts-known outside call.account_ids
              (target user_id info (some call.integration_id)) (orphans user_id info db.accounts) 0
              info.accounts db.accounts responses accounts a l m,
      )

  -- A bound row is an orphan once the integration is gone.
  pub unbound-orphans :
      (id : ℕ) (accounts : List Account) (a : MonobankAccount)
      → Member a info.accounts
      → any (is_bound (target user_id info (some id)) a.id) accounts ≡ true
      → is_some (find_orphan (orphans user_id info (map (unbound id) accounts)) a.id) ≡ true
  unfolding find_orphan_accounts_for_rebind
  unbound-orphans id accounts a m h =
      find_orphan-some (orphans user_id info (map (unbound id) accounts)) a.id (
        any-filter orphan_of _ (λ o. column_is o.external_id a.id) (map (unbound id) accounts)
          (λ y e.
            listed y (parts (is_orphan user_id info.client_id y) (column_is y.external_id a.id) e))
          (any-map (is_bound (target user_id info (some id)) a.id) orphan_of (unbound id) accounts
            (λ y e. freed y e) h))
    where
      orphan_of : Account → Bool
      orphan_of y = is_orphan user_id info.client_id y && column_is y.external_id a.id

      parts : (b c : Bool) → (b && c) ≡ true → (b ≡ true) × (c ≡ true)
      parts true true e = (refl, refl)
      parts true false e = absurd cc
      parts false c e = absurd cc

      listed :
          (y : Account)
          → (is_orphan user_id info.client_id y ≡ true) × (column_is y.external_id a.id ≡ true)
          → ((is_orphan user_id info.client_id y
                && any (column_is y.external_id) (map (λ b. b.id) info.accounts))
              ≡ true)
            × (column_is y.external_id a.id ≡ true)
      listed y (o, c) = (
        rw o (
            Member-any a.id (column_is y.external_id) (map (λ b. b.id) info.accounts)
              (Member-map (λ b. b.id) a info.accounts m) c),
        c,
      )

      freed :
          (y : Account)
          → is_bound (target user_id info (some id)) a.id y ≡ true
          → orphan_of (unbound id y) ≡ true
      freed y e = elim (Bool-cases (opt_eq y.integration_id (some id))) [
        | inl f ↦ rw f (ground (arith, e))
        | inr f ↦ absurd (ground (arith, e, f))
      ]

  pub unbound-ids :
      (id : ℕ) (accounts : List Account)
      → map (λ y. y.id) (map (unbound id) accounts) ≡ map (λ y. y.id) accounts
  unbound-ids id [] = refl
  unbound-ids id (y ∷ accounts) = ground (arith, unbound-ids id accounts)

  pub bound-IsBoundRow :
      (id : ℕ) (external_id : String) (accounts : List Account)
      → any (is_bound (target user_id info (some id)) external_id) accounts ≡ true
      → IsBoundRow user_id info.client_id external_id id accounts
  bound-IsBoundRow id external_id accounts h =
      let (y, m, test) =
        any-Member (is_bound (target user_id info (some id)) external_id) accounts h in
      (
        y,
        m,
        ground (arith, test),
        column_is-some y.external_id external_id (ground (arith, test)),
        column_is-some y.monobank_client_id info.client_id (ground (arith, test)),
        opt_eq-some y.integration_id id (ground (arith, test)),
      )
