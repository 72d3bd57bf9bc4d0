-- ===== src/Linking/Stuck.antt =====
-- An integration whose token the bank refused.
use grosh.Prelude.{
  ℕ, String, Bool, true, false, ◌&&◌, none, List, ◌++◌, ◌≡◌, ◌≢◌, ◌∙◌, inl, inr, refl, sym, ap,
  subst, arith, map, filter, ◌==◌, Bool-cases, Member, Member-append_cases, Member-filter,
  filter-Member, Member-append_left,
}
use grosh.Linking.{
  BankIntegrationRow, is_active, has_client, get_integration_by_client_id, get_active_integration,
}
use grosh.Linking.Rows.{first_of-none, Member-map, map-Member}

-- There is such a row, and no row with its id or with its user and client is active.
pub record IsStuck (id user_id : ℕ) (client_id : String) (rows : List BankIntegrationRow)
    : Type 0 where
  pub row : BankIntegrationRow
  pub stored : Member row rows
  pub row_id : row.id ≡ id
  pub row_client : has_client user_id client_id row ≡ true
  pub by_id : (r : BankIntegrationRow) → Member r rows → r.id ≡ id → is_active r ≡ false
  pub by_client :
      (r : BankIntegrationRow)
      → Member r rows
      → has_client user_id client_id r ≡ true
      → is_active r ≡ false

module _ (id user_id : ℕ) (client_id : String) where
  -- A change of rows that keeps what they are, and makes none active.
  pub record Keeps (change : BankIntegrationRow → BankIntegrationRow) : Type 0 where
    pub same_id : (r : BankIntegrationRow) → (change r).id ≡ r.id
    pub same_client :
        (r : BankIntegrationRow)
        → has_client user_id client_id (change r) ≡ has_client user_id client_id r
    pub still : (r : BankIntegrationRow) → is_active r ≡ false → is_active (change r) ≡ false

  pub map-IsStuck :
      (change : BankIntegrationRow → BankIntegrationRow) (rows : List BankIntegrationRow)
      → Keeps change
      → IsStuck id user_id client_id rows
      → IsStuck id user_id client_id (map change rows)
  map-IsStuck change rows k s = record {
    row = change s.row;
    stored = Member-map change s.row rows s.stored;
    row_id = k.same_id s.row ∙ s.row_id;
    row_client = k.same_client s.row ∙ s.row_client;
    by_id = λ r m e. of_id r (map-Member change r rows m) e;
    by_client = λ r m h. of_client r (map-Member change r rows m) h;
  }
    where
      of_id :
          (r : BankIntegrationRow)
          → (x : BankIntegrationRow) × Member x rows × (r ≡ change x)
          → r.id ≡ id
          → is_active r ≡ false
      of_id r (x, n, e) i =
          subst (λ y. is_active y ≡ false) (sym e)
            (k.still x (s.by_id x n (sym (k.same_id x) ∙ ap (λ y. y.id) (sym e) ∙ i)))

      of_client :
          (r : BankIntegrationRow)
          → (x : BankIntegrationRow) × Member x rows × (r ≡ change x)
          → has_client user_id client_id r ≡ true
          → is_active r ≡ false
      of_client r (x, n, e) h =
          subst (λ y. is_active y ≡ false) (sym e)
            (k.still x (
              s.by_client x n
                (sym (k.same_client x) ∙ ap (has_client user_id client_id) (sym e) ∙ h)))

  pub append-IsStuck :
      (rows more : List BankIntegrationRow)
      → ((r : BankIntegrationRow)
          → Member r more
          → (r.id ≢ id) × (has_client user_id client_id r ≡ false))
      → IsStuck id user_id client_id rows
      → IsStuck id user_id client_id (rows ++ more)
  append-IsStuck rows more new s = record {
    row = s.row;
    stored = Member-append_left s.row rows more s.stored;
    row_id = s.row_id;
    row_client = s.row_client;
    by_id = λ r m e. elim (Member-append_cases r rows more m) [
      | inl old ↦ s.by_id r old e
      | inr n ↦ absurd ((new r n).0 e)
    ];
    by_client = λ r m h. elim (Member-append_cases r rows more m) [
      | inl old ↦ s.by_client r old h
      | inr n ↦ absurd (differ ((new r n).1) h)
    ];
  }
    where
      differ : {b : Bool} → b ≡ false → b ≡ true → ⊥
      differ e f = cc

  pub filter-IsStuck :
      (p : BankIntegrationRow → Bool) (rows : List BankIntegrationRow)
      → ((r : BankIntegrationRow) → r.id ≡ id → p r ≡ true)
      → IsStuck id user_id client_id rows
      → IsStuck id user_id client_id (filter p rows)
  filter-IsStuck p rows kept s = record {
    row = s.row;
    stored = filter-Member s.row p rows s.stored (kept s.row s.row_id);
    row_id = s.row_id;
    row_client = s.row_client;
    by_id = λ r m e. s.by_id r (Member-filter r p rows m).0 e;
    by_client = λ r m h. s.by_client r (Member-filter r p rows m).0 h;
  }

  -- The queries of active rows do not see it.
  pub not_by_client :
      (rows : List BankIntegrationRow)
      → IsStuck id user_id client_id rows
      → get_integration_by_client_id rows user_id client_id ≡ none
  unfolding get_integration_by_client_id
  not_by_client rows s = first_of-none _ rows (λ r m. hidden r m)
    where
      hidden :
          (r : BankIntegrationRow)
          → Member r rows
          → (has_client user_id client_id r && is_active r) ≡ false
      hidden r m = elim (Bool-cases (has_client user_id client_id r)) [
        | inl e ↦ rw (e, s.by_client r m e) refl
        | inr e ↦ rw e refl
      ]

  pub not_by_id :
      (rows : List BankIntegrationRow) (user : ℕ)
      → IsStuck id user_id client_id rows
      → get_active_integration rows user id ≡ none
  unfolding get_active_integration
  not_by_id rows user s = first_of-none _ rows (λ r m. hidden r m)
    where
      hidden :
          (r : BankIntegrationRow)
          → Member r rows
          → (r.user_id == user && r.id == id && is_active r) ≡ false
      hidden r m = elim (Bool-cases (r.id == id)) [
        | inl e ↦ rw (s.by_id r m (ground (arith, e))) (ground arith)
        | inr e ↦ rw e (ground arith)
      ]
