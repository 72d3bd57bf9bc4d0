-- ===== src/Jobs/Status.antt =====
-- The status of a job
-- (services/ingestion/src/grosh_ingestion/services/job_status_service.py).
pub mod Own
use grosh.Prelude.{
  ℕ, suc, String, Bool, true, false, not, ◌&&◌, Option, none, some, List, [], ◌∷◌, filter, all, any,
  if◌then◌else◌, ◌==◌, ltb, str_eq, lookup, is_some,
}
use grosh.Jobs.{
  Labels, Condition, Job, JobError, api_exception, Outcome, returned, raised, BatchApi, or_zero,
  or_no_labels,
}

pub data JobKind : Type 0 where
  monobank_backfill rates_backfill reprocess : JobKind

pub data JobStatus : Type 0 where
  pending running succeeded failed : JobStatus

pub record PodCounters : Type 0 where
  pub active : ℕ
  pub succeeded : ℕ
  pub failed : ℕ

pub record JobStatusResponse : Type 0 where
  pub job_id : Option String
  pub kind : JobKind
  pub status : JobStatus
  pub started_at : ℕ
  pub completed_at : Option ℕ
  pub pods : PodCounters
  pub failure_reason : Option String

-- `_KIND_MAP`
unfoldable pub kind_map : List (String × JobKind)
kind_map =
    ("reprocess", reprocess)
    ∷ ("monobank_backfill", monobank_backfill)
    ∷ ("rates_backfill", rates_backfill)
    ∷ []

abbrev pub or_default {ℓ} : {A : Type ℓ} → Option A → A → A
or_default none d = d
or_default (some a) d = a

unfoldable pub kind_of : Labels → JobKind
unfolding kind_map
kind_of labels =
    or_default (lookup (or_default (lookup "grosh.app/job-kind" labels) "reprocess") kind_map)
      reprocess

unfoldable pub job_status_of : ℕ → ℕ → ℕ → JobStatus
job_status_of active finished broken =
    if ltb 0 finished && active == 0
    then succeeded
    else (if ltb 0 broken && active == 0
        then failed
        else (if ltb 0 active then running else pending))

-- The message of the first condition of type "Failed".
unfoldable pub failed_message : List Condition → Option String
failed_message [] = none
failed_message (condition ∷ conditions) =
    if str_eq condition.type "Failed" then condition.message else failed_message conditions

unfoldable pub failure_reason_of : JobStatus → Option (List Condition) → Option String
unfolding failed_message
failure_reason_of failed (some conditions) = failed_message conditions
failure_reason_of _ _ = none

-- `_map_job_to_response`, at the time `now`.
unfoldable pub map_job_to_response : ℕ → Job → JobStatusResponse
unfolding kind_of job_status_of failure_reason_of
map_job_to_response now job =
    let status = job_status_of (or_zero job.active) (or_zero job.succeeded) (or_zero job.failed) in
    record {
      job_id = job.name;
      kind = kind_of (or_no_labels job.labels);
      status = status;
      started_at = or_default job.creation_timestamp now;
      completed_at = job.completion_time;
      pods = record {
        active = or_zero job.active;
        succeeded = or_zero job.succeeded;
        failed = or_zero job.failed;
      };
      failure_reason = failure_reason_of status job.conditions;
    }

-- The sort key: a job without a time is older than any other.
abbrev pub created_key : Job → ℕ
created_key job = elim job.creation_timestamp [ none ↦ 0 | some t ↦ suc t ]

-- The first of the sorted jobs: of those created last the one that is listed first.
unfoldable pub newest : Job → List Job → Job
newest job [] = job
newest job (j ∷ jobs) =
    let rest = newest j jobs in if ltb (created_key job) (created_key rest) then rest else job

abbrev pub is_active : Job → Bool
is_active job = ltb 0 (or_zero job.active)

-- `namespace`, a constant of this service.
abbrev pub status_namespace : String
status_namespace = "grosh"

abbrev pub name_of_newest : List Job → Option String
name_of_newest [] = none
name_of_newest (job ∷ jobs) = (newest job jobs).name

unfoldable pub find_active_job : Option BatchApi → String → Outcome (Option String)
unfolding newest
find_active_job none label_selector = raised (api_exception 503)
find_active_job (some api) label_selector =
    elim (api.list_namespaced_job status_namespace label_selector) [
      | raised e ↦ raised e
      | returned jobs ↦ returned (name_of_newest (filter is_active jobs))
    ]

-- Every expected label is there with its value.
abbrev pub has_labels : Labels → Labels → Bool
has_labels expected labels =
    all
      (λ (entry : String × String). elim (lookup entry.0 labels) [
        | none ↦ false
        | some value ↦ str_eq value entry.1
      ])
      expected

-- Some key is there.
abbrev pub has_any_key : List String → Labels → Bool
has_any_key keys labels = any (λ key. is_some (lookup key labels)) keys

-- A job that is not there; other errors are raised.
abbrev pub on_read_error : JobError → Outcome (Option JobStatusResponse)
on_read_error (api_exception status) =
    if status == 404 then returned none else raised (api_exception status)
on_read_error e = raised e

-- What is answered for a job, after the checks of its labels.
abbrev pub visible_status : ℕ → Labels → List String → Job → Outcome (Option JobStatusResponse)
visible_status now expected_labels absent_labels job =
    if has_labels expected_labels (or_no_labels job.labels)
      && not (has_any_key absent_labels (or_no_labels job.labels))
    then returned (some (map_job_to_response now job))
    else returned none

abbrev pub on_read : ℕ → Labels → List String → Outcome Job → Outcome (Option JobStatusResponse)
on_read now expected_labels absent_labels (raised e) = on_read_error e
on_read now expected_labels absent_labels (returned job) =
    visible_status now expected_labels absent_labels job

unfoldable pub fetch_status :
    Option BatchApi → ℕ → String → Labels → List String → Outcome (Option JobStatusResponse)
unfolding map_job_to_response
fetch_status none now job_id expected_labels absent_labels = raised (api_exception 503)
fetch_status (some api) now job_id expected_labels absent_labels =
    on_read now expected_labels absent_labels (api.read_namespaced_job status_namespace job_id)
