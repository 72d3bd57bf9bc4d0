-- ===== src/Jobs/Trigger.antt =====
-- The endpoints that start and follow a reprocessing
-- (routers/reprocess.py, routers/admin_reprocess.py, repositories/reprocess_repo.py and
-- repositories/user_repo.py of services/ingestion/src/grosh_ingestion). A request is one database
-- transaction: where it ends in a problem, nothing is stored.
pub mod Bulk
pub mod Guards
use Prim.Native.String.{◌++◌ as append_text}
use grosh.Prelude.{
  ℕ, ◌-◌, ◌+◌, String, Bool, true, false, not, ◌&&◌, ◌||◌, Option, none, some, List, [], ◌∷◌, ◌++◌,
  any, map, if◌then◌else◌, ltb, ◌==◌,
}
use grosh.Jobs.{JobError, Outcome, returned, raised, BatchApi, Labels, api_exception}
use grosh.Jobs.Status.{JobStatusResponse, fetch_status, find_active_job}
use grosh.Jobs.Submit.{Texts, Settings, submit}

pub data UserRole : Type 0 where
  admin user : UserRole

-- The columns of `users` that these endpoints read.
pub record User : Type 0 where
  pub id : ℕ
  pub role : UserRole
  pub last_reprocess_started_at : Option ℕ

pub record Tables : Type 0 where
  pub users : List User
  pub locks : List ℕ

unfoldable pub get_role : List User → ℕ → Option UserRole
get_role [] user_id = none
get_role (u ∷ users) user_id =
    let rest = get_role users user_id in if u.id == user_id then some u.role else rest

abbrev pub place_id : ℕ → List ℕ → List ℕ
place_id user_id [] = user_id ∷ []
place_id user_id (i ∷ ids) =
    let rest = place_id user_id ids in if ltb i user_id then i ∷ rest else user_id ∷ i ∷ ids

-- `ORDER BY id`
unfoldable pub list_all_ids : List User → List ℕ
list_all_ids [] = []
list_all_ids (u ∷ users) = place_id u.id (list_all_ids users)

-- `interval '1 hour'`
abbrev pub one_hour : ℕ
one_hour = 3_600_000_000

-- `last_reprocess_started_at IS NULL OR last_reprocess_started_at < now() - interval '1 hour'`
abbrev pub is_eligible : ℕ → User → Bool
is_eligible now u = elim u.last_reprocess_started_at [
  | none ↦ true
  | some t ↦ ltb (t + one_hour) now
]

abbrev pub started : ℕ → User → User
started now u = record u { last_reprocess_started_at = some now }

-- Whether a row was updated, and the rows.
unfoldable pub claim_reprocess_slot : ℕ → List User → ℕ → Bool × List User
claim_reprocess_slot now [] user_id = (false, [])
claim_reprocess_slot now (u ∷ users) user_id =
    let (claimed, rest) = claim_reprocess_slot now users user_id in
    if u.id == user_id && is_eligible now u
    then (true, started now u ∷ rest)
    else (claimed, u ∷ rest)

-- False is the ValueError for a user who does not exist.
unfoldable pub force_claim_reprocess_slot : ℕ → List User → ℕ → Bool × List User
force_claim_reprocess_slot now [] user_id = (false, [])
force_claim_reprocess_slot now (u ∷ users) user_id =
    let (claimed, rest) = force_claim_reprocess_slot now users user_id in
    if u.id == user_id then (true, started now u ∷ rest) else (claimed, u ∷ rest)

-- Whether the row is new, and the table.
unfoldable pub insert_lock_atomic : List ℕ → ℕ → Bool × List ℕ
insert_lock_atomic locks user_id =
    if any (λ u. u == user_id) locks then (false, locks) else (true, locks ++ user_id ∷ [])

-- What an endpoint answers, besides a result.
pub data Problem : Type 0 where
  insufficient_permissions rate_limited job_status_unavailable job_not_found job_submission_failed :
      Problem
  reprocess_locked : (active_job : Option String) → Problem

pub data Response (A : Type 0) : Type 0 where
  ok : A → Response A
  problem : Problem → Response A

abbrev pub is_admin : Option UserRole → Bool
is_admin (some admin) = true
is_admin _ = false

-- The job that runs, where the API can be asked.
abbrev pub active_job_or_none : Outcome (Option String) → Option String
active_job_or_none (raised e) = none
active_job_or_none (returned job) = job

module _ (texts : Texts) (settings : Settings) (api : Option BatchApi) where
  -- `_REPROCESS_LABEL_TEMPLATE`
  abbrev pub label_selector : ℕ → String
  label_selector user_id =
      append_text "grosh.app/job-kind=reprocess,grosh.app/user-id=" (texts.uuid_text user_id)

  unfoldable pub trigger_user_reprocess : ℕ → Tables → ℕ → ℕ → Response String × Tables
  unfolding get_role claim_reprocess_slot insert_lock_atomic
  trigger_user_reprocess now db user_id caller_id =
      if not (caller_id == user_id) && not (is_admin (get_role db.users caller_id))
      then (problem insufficient_permissions, db)
      else (let (claimed, users) = claim_reprocess_slot now db.users user_id in
          let (inserted, locks) = insert_lock_atomic db.locks user_id in
          if not claimed
          then (problem rate_limited, db)
          else (if not inserted
              then (
                problem (
                    reprocess_locked
                      (active_job_or_none (find_active_job api (label_selector user_id)))),
                db,
              )
              else elim (submit texts settings api now (user_id ∷ []) (some user_id)) [
                | raised e ↦ (problem job_submission_failed, db)
                | returned job_name ↦ (ok job_name, record { users = users; locks = locks })
              ]))

  abbrev pub user_labels : ℕ → Labels
  user_labels user_id =
      ("grosh.app/job-kind", "reprocess") ∷ ("grosh.app/user-id", texts.uuid_text user_id) ∷ []

  -- `_ADMIN_ABSENT_LABELS`
  abbrev pub admin_absent_labels : List String
  admin_absent_labels = "grosh.app/user-id" ∷ []

  abbrev pub status_response : Outcome (Option JobStatusResponse) → Response JobStatusResponse
  status_response (raised e) = problem job_status_unavailable
  status_response (returned none) = problem job_not_found
  status_response (returned (some status)) = ok status

  unfoldable pub get_user_reprocess_status :
      ℕ → Tables → ℕ → String → ℕ → Response JobStatusResponse
  unfolding get_role
  get_user_reprocess_status now db user_id job_id caller_id =
      if not (caller_id == user_id) && not (is_admin (get_role db.users caller_id))
      then problem insufficient_permissions
      else status_response (fetch_status api now job_id (user_labels user_id) [])

  -- The caller is an admin, which the dependency `require_admin` has checked.
  unfoldable pub get_bulk_reprocess_status : ℕ → String → Response JobStatusResponse
  get_bulk_reprocess_status now job_id =
      status_response
        (fetch_status api now job_id (("grosh.app/job-kind", "reprocess") ∷ []) admin_absent_labels)
