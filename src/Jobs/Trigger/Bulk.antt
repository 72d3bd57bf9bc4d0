-- ===== src/Jobs/Trigger/Bulk.antt =====
-- The bulk reprocessing
-- (services/ingestion/src/grosh_ingestion/routers/admin_reprocess.py, and `BulkReprocessResponse` of
-- shared/src/grosh_shared/messaging/jobs.py).
pub mod Users
pub mod Targets
use Prim.Native.String.{◌++◌ as append_text}
use grosh.Prelude.{
  ℕ, String, Bool, true, false, not, Option, none, some, List, [], ◌∷◌, ◌++◌, map, if◌then◌else◌,
}
use grosh.Jobs.{Outcome, returned, raised, BatchApi}
use grosh.Jobs.Submit.{Texts, Settings, submit}
use grosh.Jobs.Trigger.{
  User, Tables, list_all_ids, claim_reprocess_slot, force_claim_reprocess_slot, insert_lock_atomic,
  Response, ok, problem, job_submission_failed,
}

pub data SkipReason : Type 0 where
  reprocess_locked rate_limited : SkipReason

pub record SkippedUser : Type 0 where
  pub user_id : ℕ
  pub reason : SkipReason

pub record BulkReprocessResponse : Type 0 where
  pub job_id : Option String
  pub status_url : Option String
  pub skipped : List SkippedUser

-- The targets, the users that are skipped, and the tables.
abbrev pub Selection : Type 0
Selection = List ℕ × List SkippedUser × Tables

abbrev pub skipping : ℕ → SkipReason → Selection → Selection
skipping user_id reason (targets, skipped, db) =
    (targets, record { user_id = user_id; reason = reason } ∷ skipped, db)

abbrev pub targeting : ℕ → Selection → Selection
targeting user_id (targets, skipped, db) = (user_id ∷ targets, skipped, db)

-- The claim of a slot; with `force` it fails only for a user who does not exist, which the code
-- reports as locked.
abbrev pub claim : Bool → ℕ → List User → ℕ → Bool × List User
claim force now users user_id =
    if force
    then force_claim_reprocess_slot now users user_id
    else claim_reprocess_slot now users user_id

abbrev pub refusal : Bool → SkipReason
refusal force = if force then reprocess_locked else rate_limited

-- The loop over the users.
unfoldable pub select_targets : Bool → ℕ → Tables → List ℕ → Selection
unfolding insert_lock_atomic claim_reprocess_slot force_claim_reprocess_slot
select_targets force now db [] = ([], [], db)
select_targets force now db (user_id ∷ user_ids) =
    let (claimed, users) = claim force now db.users user_id in
    let (inserted, locks) = insert_lock_atomic db.locks user_id in
    let unclaimed = select_targets force now db user_ids in
    let targeted = select_targets force now (record { users = users; locks = locks }) user_ids in
    let locked = select_targets force now (record db { users = users }) user_ids in
    if not claimed
    then skipping user_id (refusal force) unclaimed
    else (if inserted then targeting user_id targeted else skipping user_id reprocess_locked locked)

-- All users, where the request names none.
unfoldable pub target_ids : Tables → Option (List ℕ) → List ℕ
unfolding list_all_ids
target_ids db none = list_all_ids db.users
target_ids db (some user_ids) = user_ids

-- The answer, once the job is submitted or is not.
abbrev pub submitted : Tables → Selection → Outcome String → Response BulkReprocessResponse × Tables
submitted db s (raised e) = (problem job_submission_failed, db)
submitted db s (returned job_name) = (
  ok (record {
    job_id = some job_name;
    status_url = some (append_text "/v1/admin/reprocess/" job_name);
    skipped = s.1;
  }),
  s.2,
)

module _ (texts : Texts) (settings : Settings) (api : Option BatchApi) (now : ℕ) where
  abbrev pub answer : Tables → Selection → Response BulkReprocessResponse × Tables
  answer db ([], skipped, db') =
      (ok (record { job_id = none; status_url = none; skipped = skipped }), db')
  answer db (target ∷ more, skipped, db') =
      submitted db (target ∷ more, skipped, db')
        (submit texts settings api now (target ∷ more) none)

  unfoldable pub trigger_bulk_reprocess :
      Tables → Option (List ℕ) → Bool → Response BulkReprocessResponse × Tables
  unfolding select_targets target_ids
  trigger_bulk_reprocess db user_ids force =
      answer db (select_targets force now db (target_ids db user_ids))
