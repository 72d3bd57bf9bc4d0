-- ===== src/Linking/Bound.antt =====
-- What the loop over a client's accounts leaves in the table.
use grosh.Prelude.{
  ℕ, String, Bool, true, false, ◌&&◌, Option, none, some, List, [], ◌∷◌, ◌++◌, ◌≡◌, ◌∙◌, inl, inr,
  refl, sym, ap, arith, any, map, if◌then◌else◌, ◌==◌, str_eq, str_eq_refl, opt_eq, is_some,
  Bool-cases, Option-cases, Member,
}
use grosh.Linking.{Account, column_is, rebind_account, set_account_monobank_client_id}
use grosh.Linking.Service.{
  MonobankAccount, Answer, raised, returned, MonobankAccountResponse, Target, new_account,
  find_orphan, link_account, cons_response,
}

module _ {A : Type 0} where
  pub any-map :
      (p q : A → Bool) (f : A → A) (xs : List A)
      → ((x : A) → p x ≡ true → q (f x) ≡ true)
      → any p xs ≡ true
      → any q (map f xs) ≡ true
  any-map p q f [] k h = absurd (ground arith)
  any-map p q f (x ∷ xs) k h = elim (Bool-cases (p x)) [
    | inl e ↦ rw (k x e) refl
    | inr e ↦ ground (arith, any-map p q f xs k (ground (arith, e, h)))
  ]

  pub any-append : (p : A → Bool) (xs ys : List A) → any p xs ≡ true → any p (xs ++ ys) ≡ true
  any-append p [] ys h = absurd (ground arith)
  any-append p (x ∷ xs) ys h = elim (Bool-cases (p x)) [
    | inl e ↦ rw e refl
    | inr e ↦ ground (arith, any-append p xs ys (ground (arith, e, h)))
  ]

  pub any-last : (p : A → Bool) (xs : List A) (x : A) → p x ≡ true → any p (xs ++ x ∷ []) ≡ true
  any-last p [] x h = rw h refl
  any-last p (y ∷ xs) x h = ground (arith, any-last p xs x h)

module _ (target : Target) where
  -- A row of the client's account at the bank, and one that is bound to the integration.
  abbrev pub is_row : String → Account → Bool
  is_row external_id y =
      y.user_id == target.user_id
      && str_eq y.source "monobank"
      && column_is y.monobank_client_id target.client_id
      && column_is y.external_id external_id

  abbrev pub is_bound : String → Account → Bool
  is_bound external_id y = is_row external_id y && opt_eq y.integration_id target.integration_id

  -- Tests that what is written keeps.
  pub record IsKept (p : Account → Bool) : Type 0 where
    pub by_rebind :
        (y : Account) → p y ≡ true → p (record y { integration_id = target.integration_id }) ≡ true
    pub by_client :
        (y : Account)
        → p y ≡ true
        → p (record y { monobank_client_id = some target.client_id }) ≡ true

  pub rebind-kept :
      (p : Account → Bool) (id : ℕ) (accounts : List Account)
      → IsKept p
      → any p accounts ≡ true
      → any p (rebind_account accounts id target.integration_id) ≡ true
  unfolding rebind_account
  rebind-kept p id accounts k h =
      any-map p p
        (λ a. if a.id == id then record a { integration_id = target.integration_id } else a)
        accounts
        (λ y e. elim (Bool-cases (y.id == id)) [ inl f ↦ rw f (k.by_rebind y e) | inr f ↦ rw f e ])
        h

  pub client-kept :
      (p : Account → Bool) (id : ℕ) (accounts : List Account)
      → IsKept p
      → any p accounts ≡ true
      → any p (set_account_monobank_client_id accounts id target.client_id) ≡ true
  unfolding set_account_monobank_client_id
  client-kept p id accounts k h =
      any-map p p
        (λ a. if a.id == id then record a { monobank_client_id = some target.client_id } else a)
        accounts
        (λ y e. elim (Bool-cases (y.id == id)) [ inl f ↦ rw f (k.by_client y e) | inr f ↦ rw f e ])
        h

  pub link_account-kept :
      (p : Account → Bool) (id : ℕ) (code : String) (a : MonobankAccount) (accounts : List Account)
      (orphan : Option Account)
      → IsKept p
      → any p accounts ≡ true
      → any p (link_account target id code a accounts orphan).1 ≡ true
  unfolding link_account
  link_account-kept p id code a accounts (some o) k h = rebind-kept p o.id accounts k h
  link_account-kept p id code a accounts none k h = client-kept p id _ k (any-append p accounts _ h)

  opt_eq_refl : (o : Option ℕ) → opt_eq o o ≡ true
  opt_eq_refl none = refl
  opt_eq_refl (some n) = ground arith

  pub row-IsKept :
      (external_id : String) (id : ℕ) → IsKept (λ y. is_row external_id y && y.id == id)
  row-IsKept external_id id = record {
    by_rebind = λ y h. h;
    by_client = λ y h. ground (arith, h, str_eq_refl target.client_id);
  }

  pub bound-IsKept : (external_id : String) → IsKept (is_bound external_id)
  bound-IsKept external_id = record {
    by_rebind = λ y h. ground (arith, h, opt_eq_refl target.integration_id);
    by_client = λ y h. ground (arith, h, str_eq_refl target.client_id);
  }

  -- After its turn an account of the bank has a row that is bound.
  pub link_account-bound :
      (id : ℕ) (code : String) (a : MonobankAccount) (accounts : List Account)
      (orphan : Option Account)
      → ((o : Account) → orphan ≡ some o → any (λ y. is_row a.id y && y.id == o.id) accounts ≡ true)
      → any (is_bound a.id) (link_account target id code a accounts orphan).1 ≡ true
  unfolding link_account rebind_account set_account_monobank_client_id
  link_account-bound id code a accounts (some o) h =
      any-map (λ y. is_row a.id y && y.id == o.id) (is_bound a.id)
        (λ y. if y.id == o.id then record y { integration_id = target.integration_id } else y)
        accounts (λ y e. rebound y (parts (is_row a.id y) (y.id == o.id) e)) (h o refl)
    where
      parts : (b c : Bool) → (b && c) ≡ true → (b ≡ true) × (c ≡ true)
      parts true true e = (refl, refl)
      parts true false e = absurd cc
      parts false c e = absurd cc

      rebound :
          (y : Account)
          → (is_row a.id y ≡ true) × ((y.id == o.id) ≡ true)
          → is_bound a.id
              (if y.id == o.id then record y { integration_id = target.integration_id } else y)
            ≡ true
      rebound y (row, same) = rw same (ground (arith, row, opt_eq_refl target.integration_id))
  link_account-bound id code a accounts none h =
      any-map fresh (is_bound a.id)
        (λ y. if y.id == id then record y { monobank_client_id = some target.client_id } else y)
        (accounts ++ new_account id target.user_id target.integration_id code a ∷ [])
        (λ y e. tagged y e)
        (any-last fresh accounts (new_account id target.user_id target.integration_id code a)
          is_fresh)
    where
      fresh : Account → Bool
      fresh y =
          y.id == id
          && y.user_id == target.user_id
          && str_eq y.source "monobank"
          && column_is y.external_id a.id
          && opt_eq y.integration_id target.integration_id

      is_fresh : fresh (new_account id target.user_id target.integration_id code a) ≡ true
      is_fresh = ground (arith, str_eq_refl a.id, opt_eq_refl target.integration_id)

      tagged :
          (y : Account)
          → fresh y ≡ true
          → is_bound a.id
              (if y.id == id then record y { monobank_client_id = some target.client_id } else y)
            ≡ true
      tagged y e = elim (Bool-cases (y.id == id)) [
        | inl f ↦ rw f (ground (arith, e, f, str_eq_refl target.client_id))
        | inr f ↦ absurd (ground (arith, e, f))
      ]

pub find_orphan-Member :
    (orphans : List Account) (external_id : String) (o : Account)
    → find_orphan orphans external_id ≡ some o
    → Member o orphans × (column_is o.external_id external_id ≡ true)
unfolding find_orphan
find_orphan-Member [] external_id o h = absurd (no_orphan h)
  where
    no_orphan : none ≡ some o → ⊥
    no_orphan h = cc
find_orphan-Member (x ∷ orphans) external_id o h =
    elim (Option-cases (find_orphan orphans external_id)) [
      | inl e ↦ elim (Bool-cases (column_is x.external_id external_id)) [
        | inl f ↦ first f (ground (arith, e, f, h))
        | inr f ↦ absurd (ground (arith, e, f, h))
      ]
      | inr (later, e) ↦
          let (m, c) = find_orphan-Member orphans external_id o (ground (arith, e, h)) in (inr m, c)
    ]
  where
    first :
        column_is x.external_id external_id ≡ true
        → x ≡ o
        → Member o (x ∷ orphans) × (column_is o.external_id external_id ≡ true)
    first f same = (inl same, ap (λ y. column_is y.external_id external_id) (sym same) ∙ f)

pub find_orphan-some :
    (orphans : List Account) (external_id : String)
    → any (λ o. column_is o.external_id external_id) orphans ≡ true
    → is_some (find_orphan orphans external_id) ≡ true
unfolding find_orphan
find_orphan-some [] external_id h = absurd (ground arith)
find_orphan-some (x ∷ orphans) external_id h =
    elim (Option-cases (find_orphan orphans external_id)) [
      | inl e ↦ elim (Bool-cases (column_is x.external_id external_id)) [
        | inl f ↦ rw (e, f) refl
        | inr f ↦ absurd (
            none_some
              (sym (ap is_some e) ∙ find_orphan-some orphans external_id (ground (arith, f, h))))
      ]
      | inr (later, e) ↦ rw e refl
    ]
  where
    none_some : false ≡ true → ⊥
    none_some h = cc

pub cons-parts :
    (response : MonobankAccountResponse)
    (linked : Answer (List MonobankAccountResponse × List Account))
    (responses : List MonobankAccountResponse) (accounts : List Account)
    → cons_response response linked ≡ returned (responses, accounts)
    → (rest : List MonobankAccountResponse) × (linked ≡ returned (rest, accounts))
      × (responses ≡ response ∷ rest)
cons-parts response (raised e) responses accounts h = absurd cc
cons-parts response (returned (rest, accounts')) responses accounts h = (rest, cc, cc)
