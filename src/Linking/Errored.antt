-- ===== src/Linking/Errored.antt =====
-- What follows once an integration was marked with status 'error'.
use grosh.Prelude.{
  ℕ, String, Bool, true, false, not, ◌&&◌, Option, none, some, List, ◌≡◌, ◌≢◌, ◌∙◌, ◌⊎◌, inl, inr,
  refl, sym, ap, subst, arith, any, if◌then◌else◌, ◌==◌, Bool-cases, Member,
}
use grosh.Linking.{
  BankIntegrationRow, Tables, is_active, has_client, mark_integration_error, delete_integration,
}
use grosh.Linking.Service.{
  MonobankClientInfo, client_info, Outside, Call, LinkError, Answer, raised, returned, link,
  decrypted, decrypt_token, unlinked, unlink,
}
use grosh.Linking.Rows.{Member-map, map-Member}
use grosh.Linking.Stuck.{IsStuck, map-IsStuck, filter-IsStuck, not_by_id}
use grosh.Linking.Linked.{returned-injective}
use grosh.Linking.Steps.{
  IsNew, Step, links, unlinks, marks, Reach, here, next, error-Keeps, refused, link-IsStuck,
}

module _ (id user_id : ℕ) (client_id : String) where
  delete-IsStuck :
      (db : Tables) (user integration : ℕ)
      → integration ≢ id
      → IsStuck id user_id client_id db.integrations
      → IsStuck id user_id client_id (delete_integration db user integration).1.integrations
  unfolding delete_integration
  delete-IsStuck db user integration other s =
      elim (Bool-cases
        (any (λ row. row.user_id == user && row.id == integration) db.integrations)) [
          | inl e ↦ rw e (
              filter-IsStuck id user_id client_id
                (λ row. not (row.user_id == user && row.id == integration)) db.integrations
                (λ r same. kept r same) s)
          | inr e ↦ rw e s
        ]
    where
      kept :
          (r : BankIntegrationRow)
          → r.id ≡ id
          → not (r.user_id == user && r.id == integration) ≡ true
      kept r same = elim (Bool-cases (r.id == integration)) [
        | inl e ↦ absurd (other (sym (is_same e) ∙ same))
        | inr e ↦ ground (arith, e)
      ]
        where
          is_same : (r.id == integration) ≡ true → r.id ≡ integration
          is_same e = ground (arith, e)

  -- No token is read for it, so nothing is deleted and no backfill begins.
  pub decrypt_token-none :
      (outside : Outside) (rows : List BankIntegrationRow) (user : ℕ)
      → IsStuck id user_id client_id rows
      → decrypt_token outside rows user id ≡ returned none
  unfolding decrypt_token
  decrypt_token-none outside rows user s =
      ap (decrypted outside) (not_by_id id user_id client_id rows user s)

  unlink-IsStuck :
      (outside : Outside) (integration user : ℕ) (db db' : Tables) (b : Bool)
      → IsStuck id user_id client_id db.integrations
      → unlink outside db integration user ≡ returned (b, db')
      → IsStuck id user_id client_id db'.integrations
  unfolding unlink
  unlink-IsStuck outside integration user db db' b s h =
      cases (decrypt_token outside db.integrations user integration) refl h
    where
      cases :
          (found : Answer (Option String))
          → decrypt_token outside db.integrations user integration ≡ found
          → unlinked outside db integration user found ≡ returned (b, db')
          → IsStuck id user_id client_id db'.integrations
      cases (raised e) f h = absurd cc
      cases (returned none) f h =
          subst (λ d. IsStuck id user_id client_id d.1.integrations) (returned-injective h) s
      cases (returned (some token)) f h =
          subst (λ d. IsStuck id user_id client_id d.1.integrations) (returned-injective h)
            (delete-IsStuck db user integration other s)
        where
          token_none : ◌≡◌ {A = Answer (Option String)} (returned none) (returned (some token)) → ⊥
          token_none e = cc

          other : integration ≢ id
          other e = token_none (
              sym (decrypt_token-none outside db.integrations user s)
              ∙ ap (decrypt_token outside db.integrations user) (sym e)
              ∙ f)

  Step-IsStuck :
      {db db' : Tables}
      → Step db db'
      → IsStuck id user_id client_id db.integrations
      → IsStuck id user_id client_id db'.integrations
  unfolding mark_integration_error
  Step-IsStuck {db} {db'} (links outside call user token a new h) s =
      link-IsStuck id user_id client_id outside call user token db (a, db') new s h
  Step-IsStuck {db} {db'} (unlinks outside integration user b h) s =
      unlink-IsStuck outside integration user db db' b s h
  Step-IsStuck {db} {db'} (marks j e) s =
      subst (λ t. IsStuck id user_id client_id t.integrations) (sym e)
        (map-IsStuck id user_id client_id _ db.integrations (error-Keeps id user_id client_id j) s)

  Reach-IsStuck :
      {db db' : Tables}
      → Reach db db'
      → IsStuck id user_id client_id db.integrations
      → IsStuck id user_id client_id db'.integrations
  Reach-IsStuck here s = s
  Reach-IsStuck (next r st) s = Step-IsStuck st (Reach-IsStuck r s)

  unlink-false :
      (outside : Outside) (user : ℕ) (db : Tables)
      → IsStuck id user_id client_id db.integrations
      → unlink outside db id user ≡ returned (false, db)
  unfolding unlink
  unlink-false outside user db s =
      ap (unlinked outside db id user) (decrypt_token-none outside db.integrations user s)

Answer-cases :
    {A : Type 0} (a : Answer A) → ((e : LinkError) × (a ≡ raised e)) ⊎ (x : A) × (a ≡ returned x)
Answer-cases (raised e) = inl (e, refl)
Answer-cases (returned x) = inr (x, refl)

-- The id of a row and its user and client are those of no other row, as the key and the index say.
abbrev pub IsOnly : BankIntegrationRow → ℕ → String → List BankIntegrationRow → Type 0
IsOnly row user_id client_id rows =
    (r : BankIntegrationRow)
    → Member r rows
    → (r.id ≡ row.id) ⊎ (has_client user_id client_id r ≡ true)
    → r ≡ row

marked-IsStuck :
    (db : Tables) (row : BankIntegrationRow) (user_id : ℕ) (client_id : String)
    → Member row db.integrations
    → has_client user_id client_id row ≡ true
    → IsOnly row user_id client_id db.integrations
    → IsStuck row.id user_id client_id (mark_integration_error db.integrations row.id)
unfolding mark_integration_error
marked-IsStuck db row user_id client_id m h only = record {
  row = change row;
  stored = Member-map change row db.integrations m;
  row_id = ground arith;
  row_client = ground (arith, h);
  by_id = λ r n e. of_id r (map-Member change r db.integrations n) e;
  by_client = λ r n e. of_client r (map-Member change r db.integrations n) e;
}
  where
    change : BankIntegrationRow → BankIntegrationRow
    change r = if r.id == row.id then record r { status = "error" } else r

    marked : (x : BankIntegrationRow) → x.id ≡ row.id → is_active (change x) ≡ false
    marked x e = elim (Bool-cases (x.id == row.id)) [
      | inl f ↦ rw f refl
      | inr f ↦ absurd (ground (arith, f, e))
    ]

    same_id : (x : BankIntegrationRow) → (change x).id ≡ x.id
    same_id x = ground arith

    same_client :
        (x : BankIntegrationRow)
        → has_client user_id client_id (change x) ≡ has_client user_id client_id x
    same_client x = ground arith

    of_id :
        (r : BankIntegrationRow)
        → (x : BankIntegrationRow) × Member x db.integrations × (r ≡ change x)
        → r.id ≡ row.id
        → is_active r ≡ false
    of_id r (x, n, e) i = ap is_active e ∙ marked x (sym (same_id x) ∙ ap (λ y. y.id) (sym e) ∙ i)

    of_client :
        (r : BankIntegrationRow)
        → (x : BankIntegrationRow) × Member x db.integrations × (r ≡ change x)
        → has_client user_id client_id r ≡ true
        → is_active r ≡ false
    of_client r (x, n, e) c =
        ap is_active e
        ∙ marked x (
            ap (λ y. y.id)
              (only x n
                (inr (sym (same_client x) ∙ ap (has_client user_id client_id) (sym e) ∙ c))))

-- An integration that a backfill has marked with status 'error', because the bank refused its token,
-- where no other row has its id, or its user and client: whatever calls of any users that return
-- follow, with new ids and with rows of other requests that have other ids and clients, it stays stored
-- and not active, with the same user and client. A further call of the user with a token of that client
-- raises; to unlink the integration is answered with false and changes nothing; and its token is
-- not read.
pub link-mark_integration_error :
    (db db' : Tables) (row : BankIntegrationRow) (user_id : ℕ) (client_id : String)
    (outside : Outside) (call : Call) (token : String) (info : MonobankClientInfo) (caller : ℕ)
    → Member row db.integrations
    → has_client user_id client_id row ≡ true
    → IsOnly row user_id client_id db.integrations
    → Reach (record db { integrations = mark_integration_error db.integrations row.id }) db'
    → outside.get_client_info token ≡ client_info info
    → info.client_id ≡ client_id
    → IsNew db'.integrations call
    → IsStuck row.id user_id client_id db'.integrations
      × ((e : LinkError) × (link outside call db' user_id token ≡ raised e))
      × (unlink outside db' row.id caller ≡ returned (false, db'))
      × (decrypt_token outside db'.integrations caller row.id ≡ returned none)
link-mark_integration_error db db' row user_id client_id outside call token info caller m h only
      reach e same new =
    let s =
      Reach-IsStuck row.id user_id client_id reach
        (marked-IsStuck db row user_id client_id m h only) in
    (
      s,
      elim (Answer-cases (link outside call db' user_id token)) [
        | inl raise ↦ raise
        | inr (done, f) ↦
            absurd
              (refused row.id user_id client_id outside call token info db' done e same new s f)
      ],
      unlink-false row.id user_id client_id outside caller db' s,
      decrypt_token-none row.id user_id client_id outside db'.integrations caller s,
    )
