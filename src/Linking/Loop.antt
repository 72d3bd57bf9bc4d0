-- ===== src/Linking/Loop.antt =====
-- The loop over the accounts of a client.
use grosh.Prelude.{
  ℕ, suc, String, Bool, true, ◌&&◌, Option, none, some, List, [], ◌∷◌, ◌≡◌, ◌∙◌, inl, inr, refl, ap,
  subst, arith, any, map, All, ◌==◌, is_some, Member,
}
use grosh.Domain.{Result, ok, raise}
use grosh.Normalization.{numeric_to_alpha}
use grosh.Linking.{Account, column_is, rebind_account}
use grosh.Linking.Service.{
  MonobankAccount, Outside, Answer, raised, returned, MonobankAccountResponse, Target, find_orphan,
  link_account, link_accounts, cons_response, value_error,
}
use grosh.Linking.Bound.{
  is_row, is_bound, IsKept, link_account-kept, row-IsKept, bound-IsKept, link_account-bound,
  find_orphan-Member, cons-parts,
}

abbrev pub AllRebound : List MonobankAccountResponse → Type 0
AllRebound responses = All (λ r. r.was_rebound ≡ true) responses

module _ (outside : Outside) (account_ids : ℕ → ℕ) (target : Target) (orphans : List Account) where
  -- A round of the loop that returns.
  abbrev linked :
      ℕ → String → MonobankAccount → List Account → MonobankAccountResponse × List Account
  linked n code a accounts =
      link_account target (account_ids n) code a accounts (find_orphan orphans a.id)

  abbrev turn :
      ℕ
      → MonobankAccount
      → List MonobankAccount
      → List Account
      → Result String
      → Answer (List MonobankAccountResponse × List Account)
  turn n a more accounts c = elim c [
    | raise e ↦ raised value_error
    | ok code ↦
        cons_response (linked n code a accounts).0 (
          link_accounts outside account_ids target orphans (suc n) more
            (linked n code a accounts).1)
  ]

  abbrev pub IsRound :
      ℕ
      → MonobankAccount
      → List MonobankAccount
      → List Account
      → List MonobankAccountResponse
      → List Account
      → Type 0
  IsRound n a more accounts responses accounts' =
      (code : String) × (rest : List MonobankAccountResponse) × (numeric_to_alpha
          outside.find_currency a.currency_code
        ≡ ok code)
      × (link_accounts outside account_ids target orphans (suc n) more (linked n code a accounts).1
          ≡ returned (rest, accounts'))
      × (responses ≡ (linked n code a accounts).0 ∷ rest)

  pub IsRound-parts :
      (n : ℕ) (a : MonobankAccount) (more : List MonobankAccount) (accounts : List Account)
      (responses : List MonobankAccountResponse) (accounts' : List Account)
      → link_accounts outside account_ids target orphans n (a ∷ more) accounts
        ≡ returned (responses, accounts')
      → IsRound n a more accounts responses accounts'
  unfolding link_accounts
  IsRound-parts n a more accounts responses accounts' h =
      cases (numeric_to_alpha outside.find_currency a.currency_code) refl h
    where
      cases :
          (c : Result String)
          → numeric_to_alpha outside.find_currency a.currency_code ≡ c
          → turn n a more accounts c ≡ returned (responses, accounts')
          → IsRound n a more accounts responses accounts'
      cases (raise e) c h = absurd cc
      cases (ok code) c h =
          let (rest, l, same) = cons-parts _ _ responses accounts' h in (code, rest, c, l, same)

  pub link_accounts-kept :
      (n : ℕ) (infos : List MonobankAccount) (accounts : List Account)
      (responses : List MonobankAccountResponse) (accounts' : List Account) (p : Account → Bool)
      → link_accounts outside account_ids target orphans n infos accounts
        ≡ returned (responses, accounts')
      → IsKept target p
      → any p accounts ≡ true
      → any p accounts' ≡ true
  unfolding link_accounts
  link_accounts-kept n [] accounts responses accounts' p h k e = subst (λ l. any p l ≡ true) (cc) e
  link_accounts-kept n (a ∷ more) accounts responses accounts' p h k e =
      let (code, rest, _, l, _) = IsRound-parts n a more accounts responses accounts' h in
      link_accounts-kept (suc n) more (linked n code a accounts).1 rest accounts' p l k
        (link_account-kept target p (account_ids n) code a accounts (find_orphan orphans a.id) k e)

  -- Every orphan is a row of the table.
  abbrev pub AreThere : List Account → Type 0
  AreThere accounts =
      (o : Account) (external_id : String)
      → Member o orphans
      → column_is o.external_id external_id ≡ true
      → any (λ y. is_row target external_id y && y.id == o.id) accounts ≡ true

  pub link_accounts-bound :
      (n : ℕ) (infos : List MonobankAccount) (accounts : List Account)
      (responses : List MonobankAccountResponse) (accounts' : List Account) (a : MonobankAccount)
      → AreThere accounts
      → link_accounts outside account_ids target orphans n infos accounts
        ≡ returned (responses, accounts')
      → Member a infos
      → any (is_bound target a.id) accounts' ≡ true
  link_accounts-bound n [] accounts responses accounts' a there h m = elim m [ ]
  link_accounts-bound n (b ∷ more) accounts responses accounts' a there h (inl same) =
      let (code, rest, _, l, _) = IsRound-parts n b more accounts responses accounts' h in
      subst (λ x. any (is_bound target x.id) accounts' ≡ true) same
        (link_accounts-kept (suc n) more (linked n code b accounts).1 rest accounts'
          (is_bound target b.id) l (bound-IsKept target b.id)
          (link_account-bound target (account_ids n) code b accounts (find_orphan orphans b.id)
            (λ o e. let (mo, c) = find_orphan-Member orphans b.id o e in there o b.id mo c)))
  link_accounts-bound n (b ∷ more) accounts responses accounts' a there h (inr m) =
      let (code, rest, _, l, _) = IsRound-parts n b more accounts responses accounts' h in
      link_accounts-bound (suc n) more (linked n code b accounts).1 rest accounts' a
        (λ o external_id mo c.
          link_account-kept target (λ y. is_row target external_id y && y.id == o.id)
            (account_ids n) code b accounts (find_orphan orphans b.id)
            (row-IsKept target external_id o.id) (there o external_id mo c))
        l m

  rebind-ids :
      (accounts : List Account) (id : ℕ) (integration_id : Option ℕ)
      → map (λ y. y.id) (rebind_account accounts id integration_id) ≡ map (λ y. y.id) accounts
  unfolding rebind_account
  rebind-ids [] id integration_id = refl
  rebind-ids (y ∷ accounts) id integration_id =
      ground (arith, rebind-ids accounts id integration_id)

  -- Where every account has an orphan, no row is added, and each one is bound again.
  link_account-rebound :
      (n : ℕ) (code : String) (a : MonobankAccount) (accounts : List Account)
      (orphan : Option Account)
      → is_some orphan ≡ true
      → (map (λ y. y.id) (link_account target n code a accounts orphan).1
          ≡ map (λ y. y.id) accounts)
        × ((link_account target n code a accounts orphan).0.was_rebound ≡ true)
        × ((link_account target n code a accounts orphan).0.external_account_id ≡ some a.id)
  unfolding link_account
  link_account-rebound n code a accounts (some o) e =
      (rebind-ids accounts o.id target.integration_id, refl, refl)
  link_account-rebound n code a accounts none e = absurd cc

  pub link_accounts-rebound :
      (n : ℕ) (infos : List MonobankAccount) (accounts : List Account)
      → ((a : MonobankAccount) → Member a infos → is_some (find_orphan orphans a.id) ≡ true)
      → ((a : MonobankAccount)
          → Member a infos
          → (code : String) × (numeric_to_alpha outside.find_currency a.currency_code ≡ ok code))
      → (responses : List MonobankAccountResponse) × (accounts' : List Account) × (link_accounts
            outside account_ids target orphans n infos accounts
          ≡ returned (responses, accounts'))
        × (map (λ y. y.id) accounts' ≡ map (λ y. y.id) accounts)
        × AllRebound responses
        × (map (λ r. r.external_account_id) responses ≡ map (λ a. some a.id) infos)
  unfolding link_accounts
  link_accounts-rebound n [] accounts found known = ([], accounts, refl, refl, tt, refl)
  link_accounts-rebound n (a ∷ more) accounts found known =
      let (code, e) = known a (inl refl) in
      let (ids, rebound, ext) =
        link_account-rebound (account_ids n) code a accounts (find_orphan orphans a.id)
          (found a (inl refl)) in
      let (responses, accounts', l, same, all, exts) =
        link_accounts-rebound (suc n) more (linked n code a accounts).1 (λ b m. found b (inr m))
          (λ b m. known b (inr m)) in
      (
        (linked n code a accounts).0 ∷ responses,
        accounts',
        ap (turn n a more accounts) e ∙ ap (cons_response (linked n code a accounts).0) l,
        same ∙ ids,
        (rebound, all),
        rw ext (ap (λ t. some a.id ∷ t) exts),
      )

  -- Where the loop returns, every currency is known.
  pub link_accounts-known :
      (n : ℕ) (infos : List MonobankAccount) (accounts : List Account)
      (responses : List MonobankAccountResponse) (accounts' : List Account) (a : MonobankAccount)
      → link_accounts outside account_ids target orphans n infos accounts
        ≡ returned (responses, accounts')
      → Member a infos
      → (code : String) × (numeric_to_alpha outside.find_currency a.currency_code ≡ ok code)
  link_accounts-known n [] accounts responses accounts' a h m = elim m [ ]
  link_accounts-known n (b ∷ more) accounts responses accounts' a h (inl same) =
      let (code, rest, e, l, _) = IsRound-parts n b more accounts responses accounts' h in
      (code, subst (λ x. numeric_to_alpha outside.find_currency x.currency_code ≡ ok code) same e)
  link_accounts-known n (b ∷ more) accounts responses accounts' a h (inr m) =
      let (code, rest, e, l, _) = IsRound-parts n b more accounts responses accounts' h in
      link_accounts-known (suc n) more (linked n code b accounts).1 rest accounts' a l m
