-- ===== src/Linking/Windows.antt =====
-- Which backfills of an account are started.
use grosh.Prelude.{
  ℕ, ◌-◌, ◌+◌, ◌≤◌, ◌<◌, String, Bool, true, false, Option, none, some, List, ◌≡◌, ◌⊎◌, inl, inr,
  refl, sym, subst, arith, if◌then◌else◌, ltb, leb, Bool-cases,
}
use grosh.Jobs.{JobError, BatchApi, Outcome, returned, raised}
use grosh.Jobs.Submit.{Texts, Settings}
use grosh.Jobs.Trigger.{User, is_admin, get_role}
use grosh.Linking.{Account}
use grosh.Linking.Backfills.{
  BackfillProblem, account_not_found, job_status_unavailable, job_not_found, job_error,
  invalid_date_range, window_too_large, overflow_error, BackfillAnswer, problem, ok,
  resolve_account_owner, get_external_ref, or_else, ninety_days_before, triggered, trigger_ref,
  trigger_for, trigger_window, trigger_backfill,
}
use grosh.Linking.Started.{IsStarted, for-IsStarted}

module _ (texts : Texts) (settings : Settings) (api : Option BatchApi) (job_name : String) where
  for-problem :
      (accounts : List Account) (account_id from to : ℕ) (owner : Option ℕ) (p : BackfillProblem)
      → trigger_for texts settings api job_name accounts account_id (from, to) owner ≡ problem p
      → (p ≡ account_not_found) ⊎ (e : JobError) × (p ≡ job_error e)
  for-problem accounts account_id from to none p h = inl (cc)
  for-problem accounts account_id from to (some owner) p h =
      of_ref (get_external_ref accounts account_id owner) h
    where
      submitted :
          (o : Outcome String)
          → triggered texts settings api o ≡ problem p
          → (p ≡ account_not_found) ⊎ (e : JobError) × (p ≡ job_error e)
      submitted (raised e) h = inr (e, cc)
      submitted (returned n) h = absurd cc

      of_ref :
          (ref : Option (String × ℕ))
          → trigger_ref texts settings api job_name account_id (from, to) owner ref ≡ problem p
          → (p ≡ account_not_found) ⊎ (e : JobError) × (p ≡ job_error e)
      of_ref none h = inl (cc)
      of_ref (some (external_id, integration_id)) h = submitted _ h

  -- The window that a problem says was given.
  abbrev pub IsRefused : ℕ → ℕ → BackfillProblem → Type 0
  IsRefused from to invalid_date_range = to ≤ from
  IsRefused from to window_too_large = from + 31 < to
  IsRefused from to overflow_error = ⊥
  IsRefused from to job_status_unavailable = ⊥
  IsRefused from to job_not_found = ⊥
  IsRefused from to account_not_found = (from < to) × (to ≤ from + 31)
  IsRefused from to (job_error e) = (from < to) × (to ≤ from + 31)

  -- What each answer says of the request.
  abbrev pub IsAllowed :
      List User → List Account → ℕ → ℕ → Option ℕ → ℕ → BackfillAnswer String → Type 0
  IsAllowed users accounts account_id caller_id none to (ok name) = ⊥
  IsAllowed users accounts account_id caller_id none to (problem p) =
      (p ≡ window_too_large) ⊎ (p ≡ overflow_error)
  IsAllowed users accounts account_id caller_id (some from) to (ok name) =
      (from < to)
      × (to ≤ from + 31)
      × IsStarted texts settings api job_name accounts account_id caller_id from to name
  IsAllowed users accounts account_id caller_id (some from) to (problem p) = IsRefused from to p

  window-IsAllowed :
      (users : List User) (accounts : List Account) (account_id caller_id from to : ℕ)
      → IsAllowed users accounts account_id caller_id (some from) to (
          trigger_window texts settings api job_name users accounts account_id caller_id
            (some from)
            to)
  window-IsAllowed users accounts account_id caller_id from to =
      chosen (leb to from) (ltb 31 (to - from)) refl refl
    where
      owner : Option ℕ
      owner =
          resolve_account_owner accounts account_id caller_id (is_admin (get_role users caller_id))

      answered :
          (answer : BackfillAnswer String)
          → from < to
          → to ≤ from + 31
          → trigger_for texts settings api job_name accounts account_id (from, to) owner ≡ answer
          → IsAllowed users accounts account_id caller_id (some from) to answer
      answered (ok name) early short h = (
        early,
        short,
        for-IsStarted texts settings api job_name users accounts account_id caller_id from to name
            h,
      )
      answered (problem p) early short h =
          elim (for-problem accounts account_id from to owner p h) [
            | inl e ↦ subst (IsRefused from to) (sym e) (early, short)
            | inr (error, e) ↦ subst (IsRefused from to) (sym e) (early, short)
          ]

      chosen :
          (late large : Bool)
          → leb to from ≡ late
          → ltb 31 (to - from) ≡ large
          → IsAllowed users accounts account_id caller_id (some from) to (
              if late
              then problem invalid_date_range
              else (if large
                  then problem window_too_large
                  else trigger_for texts settings api job_name accounts account_id
                      (from, to)
                      owner))
      chosen true large l g = ground (arith, l)
      chosen false true l g = ground (arith, l, g)
      chosen false false l g = answered _ (ground (arith, l)) (ground (arith, l, g)) refl

  default-refused :
      (users : List User) (accounts : List Account) (account_id caller_id to : ℕ)
      → (trigger_window texts settings api job_name users accounts account_id caller_id
            (ninety_days_before to)
            to
          ≡ problem window_too_large)
        ⊎ (trigger_window texts settings api job_name users accounts account_id caller_id
              (ninety_days_before to)
              to
            ≡ problem overflow_error)
  default-refused users accounts account_id caller_id to = elim (Bool-cases (ltb 90 to)) [
    | inl e ↦ inl (rw (e, early e, large e) refl)
    | inr e ↦ inr (rw e refl)
  ]
    where
      early : ltb 90 to ≡ true → leb to (to - 90) ≡ false
      early e = ground (arith, e)

      large : ltb 90 to ≡ true → ltb 31 (to - (to - 90)) ≡ true
      large e = ground (arith, e)

  -- Each answer to a request for a backfill. A request without a start is always refused: the default
  -- of ninety days is larger than the window allows, or begins before the year 1. With a start, a job is
  -- answered only where the start is earlier than the end by at most 31 days, the account is stored
  -- with an id at the bank and an integration, and it belongs to the caller, an admin or not; and the
  -- job is created for the account and its user where none for it is unfinished. A window that is empty
  -- or too large is refused as such, and every other refusal is of an account that is not found or of
  -- the job.
  pub trigger_backfill-IsAllowed :
      (today : ℕ) (users : List User) (accounts : List Account) (account_id caller_id : ℕ)
      (from_date to_date : Option ℕ)
      → IsAllowed users accounts account_id caller_id from_date (or_else to_date today) (
          trigger_backfill texts settings api job_name today users accounts account_id caller_id
            from_date to_date)
  unfolding trigger_backfill
  trigger_backfill-IsAllowed today users accounts account_id caller_id (some from) to_date =
      window-IsAllowed users accounts account_id caller_id from (or_else to_date today)
  trigger_backfill-IsAllowed today users accounts account_id caller_id none to_date =
      elim (default-refused users accounts account_id caller_id (or_else to_date today)) [
        | inl e ↦
            subst (IsAllowed users accounts account_id caller_id none (or_else to_date today))
              (sym e) (inl refl)
        | inr e ↦
            subst (IsAllowed users accounts account_id caller_id none (or_else to_date today))
              (sym e) (inr refl)
      ]
