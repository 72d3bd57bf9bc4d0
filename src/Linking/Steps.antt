-- ===== src/Linking/Steps.antt =====
-- Calls that follow one another, and a link call while an integration is stuck.
use grosh.Prelude.{
  ℕ, String, Bool, true, false, ◌&&◌, none, some, List, [], ◌∷◌, ◌++◌, ◌≡◌, ◌≢◌, ◌∙◌, inl, inr,
  refl, sym, ap, subst, arith, any, if◌then◌else◌, ◌==◌, str_eq, str_eq_iff, Bool-cases, Member,
  Member-any,
}
use grosh.Linking.{
  BankIntegrationRow, Tables, has_client, get_integration_by_client_id, update_integration_token,
  with_token, mark_integration_error,
}
use grosh.Linking.Service.{
  MonobankClientInfo, client_info, Outside, Call, returned, MonobankLinkResponse, new_integration,
  rotate_existing_integration, link, unlink,
}
use grosh.Linking.Stuck.{IsStuck, Keeps, map-IsStuck, append-IsStuck, not_by_client}
use grosh.Linking.Linked.{IsLinked, IsRotated, IsAdded-integrations, with_meanwhile, link-cases}

-- The ids that the database makes are new, and so are the rows of other transactions, by the unique
-- indexes.
pub record IsNew (rows : List BankIntegrationRow) (call : Call) : Type 0 where
  pub new_id : (r : BankIntegrationRow) → Member r rows → r.id ≢ call.integration_id
  pub other_ids : (r s : BankIntegrationRow) → Member r rows → Member s call.meanwhile → s.id ≢ r.id
  pub other_clients :
      (r s : BankIntegrationRow) (user_id : ℕ) (client_id : String)
      → Member r rows
      → Member s call.meanwhile
      → has_client user_id client_id r ≡ true
      → has_client user_id client_id s ≡ false

-- One call that returns, of any user and whatever the bank answers, or the error that a backfill marks.
pub data Step (db : Tables) (db' : Tables) : Type 0 where
  links :
      (outside : Outside) (call : Call) (user_id : ℕ) (token : String) (a : MonobankLinkResponse)
      → IsNew db.integrations call
      → link outside call db user_id token ≡ returned (a, db')
      → Step db db'
  unlinks :
      (outside : Outside) (integration_id user_id : ℕ) (b : Bool)
      → unlink outside db integration_id user_id ≡ returned (b, db')
      → Step db db'
  marks :
      (integration_id : ℕ)
      → db' ≡ record db { integrations = mark_integration_error db.integrations integration_id }
      → Step db db'

pub data Reach (db : Tables) : Tables → Type 0 where
  here : Reach db db
  next : {db₁ db₂ : Tables} → Reach db db₁ → Step db₁ db₂ → Reach db db₂

module _ (id user_id : ℕ) (client_id : String) where
  pub token-Keeps :
      (j : ℕ) (encrypted : String) (version : ℕ)
      → Keeps id user_id client_id
          (λ row. if row.id == j then with_token encrypted version row else row)
  token-Keeps j encrypted version = record {
    same_id = λ r. ground arith;
    same_client = λ r. ground arith;
    still = λ r h. ground (arith, h);
  }

  pub error-Keeps :
      (j : ℕ)
      → Keeps id user_id client_id
          (λ row. if row.id == j then record row { status = "error" } else row)
  error-Keeps j = record {
    same_id = λ r. ground arith;
    same_client = λ r. ground arith;
    still = λ r h. elim (Bool-cases (r.id == j)) [ inl e ↦ rw e refl | inr e ↦ rw e h ];
  }

  pub meanwhile-IsStuck :
      (db : Tables) (call : Call)
      → IsNew db.integrations call
      → IsStuck id user_id client_id db.integrations
      → IsStuck id user_id client_id (db.integrations ++ call.meanwhile)
  meanwhile-IsStuck db call new s =
      append-IsStuck id user_id client_id db.integrations call.meanwhile
        (λ r m. (
          λ e. new.other_ids s.row r s.stored m (e ∙ sym s.row_id),
          new.other_clients s.row r user_id client_id s.stored m s.row_client,
        ))
        s

  rotated_none :
      (outside : Outside) (call : Call) (token : String) (info : MonobankClientInfo) (db : Tables)
      (done : MonobankLinkResponse × Tables)
      → info.client_id ≡ client_id
      → IsStuck id user_id client_id db.integrations
      → IsRotated outside call user_id token db info done
      → ⊥
  rotated_none outside call token info db done same s (existing, found, _) = no_row (
      sym (not_by_client id user_id client_id db.integrations s)
      ∙ ap (get_integration_by_client_id db.integrations user_id) (sym same)
      ∙ found)
    where
      no_row : none ≡ some existing → ⊥
      no_row h = cc

  -- A call for the client finds no active row, and none is added.
  pub refused :
      (outside : Outside) (call : Call) (token : String) (info : MonobankClientInfo) (db : Tables)
      (done : MonobankLinkResponse × Tables)
      → outside.get_client_info token ≡ client_info info
      → info.client_id ≡ client_id
      → IsNew db.integrations call
      → IsStuck id user_id client_id db.integrations
      → link outside call db user_id token ≡ returned done
      → ⊥
  refused outside call token info db done e same new s h =
      cases (link-cases outside call user_id token db done h)
    where
      after : IsStuck id user_id client_id (db.integrations ++ call.meanwhile)
      after = meanwhile-IsStuck db call new s

      info-injective : {a b : MonobankClientInfo} → client_info a ≡ client_info b → a ≡ b
      info-injective h = cc

      of_client :
          (i : MonobankClientInfo)
          → outside.get_client_info token ≡ client_info i
          → i.client_id ≡ client_id
      of_client i f = ap (λ x. x.client_id) (info-injective (sym f ∙ e)) ∙ same

      added :
          (i : MonobankClientInfo)
          → i.client_id ≡ client_id
          → any (has_client user_id i.client_id) (db.integrations ++ call.meanwhile) ≡ false
          → ⊥
      added i c none_there = differ none_there (
          Member-any after.row (has_client user_id i.client_id) (db.integrations ++ call.meanwhile)
            after.stored (ap (λ x. has_client user_id x after.row) c ∙ after.row_client))
        where
          differ : {b : Bool} → b ≡ false → b ≡ true → ⊥
          differ e f = cc

      cases : IsLinked outside call user_id token db done → ⊥
      cases (i, f, inl r) = rotated_none outside call token i db done (of_client i f) s r
      cases (i, f, inr (inl r)) =
          rotated_none outside call token i (with_meanwhile outside call user_id token db) done
            (of_client i f) after r
      cases (i, f, inr (inr (none_there, _))) = added i (of_client i f) none_there

  pub link-IsStuck :
      (outside : Outside) (call : Call) (user : ℕ) (token : String) (db : Tables)
      (done : MonobankLinkResponse × Tables)
      → IsNew db.integrations call
      → IsStuck id user_id client_id db.integrations
      → link outside call db user token ≡ returned done
      → IsStuck id user_id client_id done.1.integrations
  unfolding rotate_existing_integration update_integration_token
  link-IsStuck outside call user token db done new s h =
      cases (link-cases outside call user token db done h)
    where
      rotated :
          (t : Tables) (existing : BankIntegrationRow)
          → IsStuck id user_id client_id t.integrations
          → done ≡ rotate_existing_integration outside t token existing
          → IsStuck id user_id client_id done.1.integrations
      rotated t existing s same =
          subst (λ d. IsStuck id user_id client_id d.1.integrations) (sym same)
            (map-IsStuck id user_id client_id _ t.integrations
              (token-Keeps existing.id (outside.encrypt_token token) outside.key_version) s)

      own :
          (i : MonobankClientInfo)
          → any (has_client user i.client_id) (db.integrations ++ call.meanwhile) ≡ false
          → has_client user_id client_id (new_integration outside call user token i.client_id)
            ≡ false
      own i none_there =
          elim (Bool-cases
            (has_client user_id client_id (new_integration outside call user token i.client_id))) [
              | inl e ↦ absurd (taken (parts (user == user_id) (str_eq i.client_id client_id) e))
              | inr e ↦ e
            ]
        where
          parts : (a b : Bool) → (a && true && b) ≡ true → (a ≡ true) × (b ≡ true)
          parts true true e = (refl, refl)
          parts true false e = absurd cc
          parts false b e = absurd cc

          after : IsStuck id user_id client_id (db.integrations ++ call.meanwhile)
          after = meanwhile-IsStuck db call new s

          differ : {b : Bool} → b ≡ false → b ≡ true → ⊥
          differ e f = cc

          taken : ((user == user_id) ≡ true) × (str_eq i.client_id client_id ≡ true) → ⊥
          taken (a, b) =
              let u : user ≡ user_id = ground (arith, a) in
              differ none_there (
                Member-any after.row (has_client user i.client_id)
                  (db.integrations ++ call.meanwhile) after.stored
                  (ap (λ x. has_client x i.client_id after.row) u
                    ∙ ap (λ x. has_client user_id x after.row)
                        ((str_eq_iff i.client_id client_id).0 b)
                    ∙ after.row_client))

      new_row :
          (i : MonobankClientInfo) (r : BankIntegrationRow)
          → any (has_client user i.client_id) (db.integrations ++ call.meanwhile) ≡ false
          → Member r (new_integration outside call user token i.client_id ∷ [])
          → (r.id ≢ id) × (has_client user_id client_id r ≡ false)
      new_row i r none_there (inl e) = (
        λ f. new.new_id s.row s.stored (s.row_id ∙ sym f ∙ ap (λ x. x.id) (sym e)),
        ap (has_client user_id client_id) (sym e) ∙ own i none_there,
      )
      new_row i r none_there (inr n) = elim n [ ]

      cases :
          IsLinked outside call user token db done
          → IsStuck id user_id client_id done.1.integrations
      cases (i, f, inl (existing, _, same)) = rotated db existing s same
      cases (i, f, inr (inl (existing, _, same))) =
          rotated (with_meanwhile outside call user token db) existing
            (meanwhile-IsStuck db call new s) same
      cases (i, f, inr (inr a)) =
          subst (IsStuck id user_id client_id)
            (sym (IsAdded-integrations outside call user token db i done a))
            (append-IsStuck id user_id client_id (db.integrations ++ call.meanwhile) _
              (λ r m. new_row i r a.0 m) (meanwhile-IsStuck db call new s))
