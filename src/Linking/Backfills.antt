-- ===== src/Linking/Backfills.antt =====
-- The endpoints of a backfill (`trigger_backfill` and `get_backfill_status` of
-- sources/monobank/router.py, services/account_access.py and queries of repositories/account_repo.py of
-- services/ingestion/src/grosh_ingestion). A date is Python's ordinal of it, at
-- least 1.
use grosh.Prelude.{
  ℕ, ◌-◌, ◌*◌, String, Bool, ◌&&◌, Option, none, some, List, [], ◌∷◌, any, if◌then◌else◌, ◌==◌, ltb,
  leb,
}
use grosh.Domain.{ℤ, pos, negsuc}
use grosh.Jobs.{BatchApi, Labels, JobError, Outcome, returned, raised}
use grosh.Jobs.Status.{JobStatusResponse, fetch_status}
use grosh.Jobs.Submit.{Texts, Settings, trigger_transactions_backfill}
use grosh.Jobs.Trigger.{User, is_admin, get_role}
use grosh.Linking.{Account, first_of}

pub data BackfillProblem : Type 0 where
  invalid_date_range window_too_large overflow_error account_not_found : BackfillProblem
  job_status_unavailable job_not_found : BackfillProblem
  job_error : JobError → BackfillProblem

pub data BackfillAnswer (A : Type 0) : Type 0 where
  problem : BackfillProblem → BackfillAnswer A
  ok : A → BackfillAnswer A

unfoldable pub belongs_to_user : List Account → ℕ → ℕ → Bool
belongs_to_user accounts account_id user_id =
    any (λ a. a.id == account_id && a.user_id == user_id) accounts

-- `session` is the user of the session: the policy of `accounts` shows no rows of other users.
unfoldable pub get_user_id : List Account → ℕ → ℕ → Option ℕ
get_user_id [] session account_id = none
get_user_id (a ∷ accounts) session account_id =
    let rest = get_user_id accounts session account_id in
    if a.id == account_id && a.user_id == session then some a.user_id else rest

-- none is the problem 404.
unfoldable pub resolve_account_owner : List Account → ℕ → ℕ → Bool → Option ℕ
unfolding belongs_to_user get_user_id
resolve_account_owner accounts account_id caller_id is_admin =
    if is_admin
    then get_user_id accounts caller_id account_id
    else (if belongs_to_user accounts account_id caller_id then some caller_id else none)

abbrev pub both {ℓ κ} : {A : Type ℓ} {B : Type κ} → Option A → Option B → Option (A × B)
both (some a) (some b) = some (a, b)
both _ _ = none

abbrev pub ref_of : Option Account → Option (String × ℕ)
ref_of none = none
ref_of (some a) = both a.external_id a.integration_id

-- The id at the bank and the integration of an account that has both.
unfoldable pub get_external_ref : List Account → ℕ → ℕ → Option (String × ℕ)
get_external_ref accounts account_id user_id =
    ref_of (first_of (λ a. a.id == account_id && a.user_id == user_id) accounts)

abbrev pub or_else : Option ℕ → ℕ → ℕ
or_else none d = d
or_else (some date) d = date

-- `to_date - timedelta(days=90)`; none is the OverflowError of a date before the year 1.
abbrev pub ninety_days_before : ℕ → Option ℕ
ninety_days_before to = if ltb 90 to then some (to - 90) else none

-- The start that a request stands for.
abbrev pub start_of : Option ℕ → ℕ → Option ℕ
start_of none to = ninety_days_before to
start_of (some date) to = some date

-- `datetime.combine(date, datetime.min.time(), tzinfo=UTC).timestamp()`; 1970 begins at 719163.
abbrev pub timestamp_of : ℕ → ℤ
timestamp_of date =
    if ltb date 719_163
    then negsuc ((719_163 - date) * 86_400 - 1)
    else pos ((date - 719_163) * 86_400)

module _ (texts : Texts) (settings : Settings) (api : Option BatchApi) where
  abbrev pub triggered : Outcome String → BackfillAnswer String
  triggered (raised e) = problem (job_error e)
  triggered (returned job_name) = ok job_name

  abbrev pub trigger_ref : String → ℕ → ℕ × ℕ → ℕ → Option (String × ℕ) → BackfillAnswer String
  trigger_ref job_name account_id window owner none = problem account_not_found
  trigger_ref job_name account_id window owner (some (external_id, integration_id)) = triggered (
      trigger_transactions_backfill texts settings api job_name account_id integration_id owner
        external_id (timestamp_of window.0) (timestamp_of window.1))

  abbrev pub trigger_for : String → List Account → ℕ → ℕ × ℕ → Option ℕ → BackfillAnswer String
  trigger_for job_name accounts account_id window none = problem account_not_found
  trigger_for job_name accounts account_id window (some owner) =
      trigger_ref job_name account_id window owner (get_external_ref accounts account_id owner)

  -- The window is checked before any query.
  abbrev pub trigger_window :
      String → List User → List Account → ℕ → ℕ → Option ℕ → ℕ → BackfillAnswer String
  trigger_window job_name users accounts account_id caller_id none to = problem overflow_error
  trigger_window job_name users accounts account_id caller_id (some from) to =
      if leb to from
      then problem invalid_date_range
      else (if ltb 31 (to - from)
          then problem window_too_large
          else trigger_for job_name accounts account_id (from, to)
              (resolve_account_owner accounts account_id caller_id
                (is_admin (get_role users caller_id))))

  unfoldable pub trigger_backfill :
      String → ℕ → List User → List Account → ℕ → ℕ → Option ℕ → Option ℕ → BackfillAnswer String
  unfolding get_external_ref resolve_account_owner get_role
  trigger_backfill job_name today users accounts account_id caller_id from_date to_date =
      trigger_window job_name users accounts account_id caller_id
        (start_of from_date (or_else to_date today)) (or_else to_date today)

  abbrev pub backfill_labels : ℕ → ℕ → Labels
  backfill_labels account_id owner =
      ("grosh.app/job-kind", "monobank_backfill")
      ∷ ("grosh.app/account-id", texts.uuid_text account_id)
      ∷ ("grosh.app/user-id", texts.uuid_text owner)
      ∷ []

  abbrev pub backfill_status_response :
      Outcome (Option JobStatusResponse) → BackfillAnswer JobStatusResponse
  backfill_status_response (raised e) = problem job_status_unavailable
  backfill_status_response (returned none) = problem job_not_found
  backfill_status_response (returned (some status)) = ok status

  abbrev pub status_for : ℕ → ℕ → String → Option ℕ → BackfillAnswer JobStatusResponse
  status_for now account_id job_id none = problem account_not_found
  status_for now account_id job_id (some owner) =
      backfill_status_response (fetch_status api now job_id (backfill_labels account_id owner) [])

  unfoldable pub get_backfill_status :
      ℕ → List User → List Account → ℕ → String → ℕ → BackfillAnswer JobStatusResponse
  unfolding resolve_account_owner get_role
  get_backfill_status now users accounts account_id job_id caller_id =
      status_for now account_id job_id
        (resolve_account_owner accounts account_id caller_id (is_admin (get_role users caller_id)))
