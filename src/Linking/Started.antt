-- ===== src/Linking/Started.antt =====
-- The account that a backfill is started for.
use grosh.Prelude.{
  ℕ, String, Bool, true, false, ◌&&◌, Option, none, some, List, ◌≡◌, inl, inr, refl, sym, ◌∙◌, [],
  ◌∷◌, Bool-cases, subst, arith, if◌then◌else◌, ◌==◌, Member,
}
use grosh.Jobs.{BatchApi, Outcome, returned, raised}
use grosh.Jobs.Submit.{Texts, Settings, transactions_selector, transactions_backfill_body}
use grosh.Jobs.Submit.Unfinished.{IsCreated, trigger-IsCreated}
use grosh.Jobs.Trigger.{User, is_admin, get_role}
use grosh.Linking.{Account, first_of}
use grosh.Linking.Backfills.{
  ok, belongs_to_user, get_user_id, resolve_account_owner, get_external_ref, ref_of, both,
  timestamp_of, triggered, trigger_ref, trigger_for,
}
use grosh.Linking.Rows.{first_of-Member}

-- The owner that is resolved is the caller, also for an admin.
owner_caller :
    (accounts : List Account) (account_id caller_id owner : ℕ) (admin : Bool)
    → resolve_account_owner accounts account_id caller_id admin ≡ some owner
    → owner ≡ caller_id
unfolding resolve_account_owner
owner_caller accounts account_id caller_id owner true h = visible accounts h
  where
    visible :
        (accounts : List Account)
        → get_user_id accounts caller_id account_id ≡ some owner
        → owner ≡ caller_id
    visible [] h = absurd cc
    visible (a ∷ accounts) h = elim (Bool-cases (a.id == account_id && a.user_id == caller_id)) [
      | inl e ↦ ground (arith, e, h)
      | inr e ↦ visible accounts (ground (arith, e, h))
    ]
owner_caller accounts account_id caller_id owner false h =
    own (belongs_to_user accounts account_id caller_id) h
  where
    own : (b : Bool) → (if b then some caller_id else none) ≡ some owner → owner ≡ caller_id
    own true h = cc
    own false h = absurd cc

ref-Member :
    (accounts : List Account) (account_id owner : ℕ) (external_id : String) (integration_id : ℕ)
    → get_external_ref accounts account_id owner ≡ some (external_id, integration_id)
    → (account : Account) × Member account accounts
      × (account.id ≡ account_id)
      × (account.user_id ≡ owner)
      × (account.external_id ≡ some external_id)
      × (account.integration_id ≡ some integration_id)
unfolding get_external_ref
ref-Member accounts account_id owner external_id integration_id h =
    cases (first_of (λ a. a.id == account_id && a.user_id == owner) accounts) refl h
  where
    Found : Type 0
    Found =
        (account : Account) × Member account accounts
        × (account.id ≡ account_id)
        × (account.user_id ≡ owner)
        × (account.external_id ≡ some external_id)
        × (account.integration_id ≡ some integration_id)

    parts :
        (e : Option String) (i : Option ℕ)
        → both e i ≡ some (external_id, integration_id)
        → (e ≡ some external_id) × (i ≡ some integration_id)
    parts (some e) (some i) h = (cc, cc)
    parts (some e) none h = absurd cc
    parts none i h = absurd cc

    cases :
        (found : Option Account)
        → first_of (λ a. a.id == account_id && a.user_id == owner) accounts ≡ found
        → ref_of found ≡ some (external_id, integration_id)
        → Found
    cases none e h = absurd cc
    cases (some a) e h =
        let (m, test) = first_of-Member _ accounts a e in
        let (ext, int) = parts a.external_id a.integration_id h in
        (a, m, ground (arith, test), ground (arith, test), ext, int)

module _ (texts : Texts) (settings : Settings) (api : Option BatchApi) (job_name : String) where
  -- A job for an account of the owner, of a window.
  abbrev pub IsStarted : List Account → ℕ → ℕ → ℕ → ℕ → String → Type 0
  IsStarted accounts account_id caller_id from to name =
      (account : Account) × (external_id : String) × (integration_id : ℕ) × Member account accounts
      × (account.id ≡ account_id)
      × (account.external_id ≡ some external_id)
      × (account.integration_id ≡ some integration_id)
      × (account.user_id ≡ caller_id)
      × IsCreated texts settings api (transactions_selector texts settings account_id)
          (transactions_backfill_body texts settings job_name account_id integration_id
            account.user_id external_id (timestamp_of from) (timestamp_of to))
          name

  pub for-IsStarted :
      (users : List User) (accounts : List Account) (account_id caller_id from to : ℕ)
      (name : String)
      → trigger_for texts settings api job_name accounts account_id
          (from, to)
          (resolve_account_owner accounts account_id caller_id
            (is_admin (get_role users caller_id)))
        ≡ ok name
      → IsStarted accounts account_id caller_id from to name
  for-IsStarted users accounts account_id caller_id from to name h =
      of_owner
        (resolve_account_owner accounts account_id caller_id (is_admin (get_role users caller_id)))
        refl h
    where
      submitted :
          (o : Outcome String) → triggered texts settings api o ≡ ok name → o ≡ returned name
      submitted (raised e) h = absurd cc
      submitted (returned n) h = cc

      of_ref :
          (owner : ℕ) (ref : Option (String × ℕ))
          → resolve_account_owner accounts account_id caller_id
              (is_admin (get_role users caller_id))
            ≡ some owner
          → get_external_ref accounts account_id owner ≡ ref
          → trigger_ref texts settings api job_name account_id (from, to) owner ref ≡ ok name
          → IsStarted accounts account_id caller_id from to name
      of_ref owner none o r h = absurd cc
      of_ref owner (some (external_id, integration_id)) o r h =
          let (account, m, a, u, ext, int) =
            ref-Member accounts account_id owner external_id integration_id r in
          (
            account,
            external_id,
            integration_id,
            m,
            a,
            ext,
            int,
            u
                ∙ owner_caller accounts account_id caller_id owner
                    (is_admin (get_role users caller_id)) o,
            subst
                (λ n.
                  IsCreated texts settings api (transactions_selector texts settings account_id)
                    (transactions_backfill_body texts settings job_name account_id integration_id n
                      external_id (timestamp_of from) (timestamp_of to))
                    name)
                (sym u)
                (((trigger-IsCreated texts settings api job_name name).0 account_id integration_id
                    owner external_id (timestamp_of from) (timestamp_of to)).0.0
                  (submitted _ h)),
          )

      of_owner :
          (o : Option ℕ)
          → resolve_account_owner accounts account_id caller_id
              (is_admin (get_role users caller_id))
            ≡ o
          → trigger_for texts settings api job_name accounts account_id (from, to) o ≡ ok name
          → IsStarted accounts account_id caller_id from to name
      of_owner none o h = absurd cc
      of_owner (some owner) o h = of_ref owner (get_external_ref accounts account_id owner) o refl h
