-- ===== src/Jobs.antt =====
-- Kubernetes jobs of the ingestion service: what is submitted, and what is read back
-- (services/reprocess_dispatcher.py, services/backfill_service.py and services/job_status_service.py of
-- services/ingestion/src/grosh_ingestion). The Kubernetes API is a parameter, and so are Python's `str`
-- of a UUID, the text of a time and the random part of a name. Instants are microseconds.
pub mod Status
pub mod Submit
pub mod Trigger
mod Examples
use grosh.Prelude.{ℕ, String, Option, none, some, List, [], ◌∷◌}

-- A dict with text keys
abbrev pub Labels : Type 0
Labels = List (String × String)

pub record Condition : Type 0 where
  pub type : String
  pub message : Option String

-- A job as the API returns it, with the fields that the services read.
pub record Job : Type 0 where
  pub name : Option String
  pub labels : Option Labels
  pub creation_timestamp : Option ℕ
  pub completion_time : Option ℕ
  pub active : Option ℕ
  pub succeeded : Option ℕ
  pub failed : Option ℕ
  pub conditions : Option (List Condition)
  pub backoff_limit : Option ℕ

-- The container of a job that is submitted; its resources and secrets are constants.
pub record Container : Type 0 where
  pub name : String
  pub image : String
  pub image_pull_policy : String
  pub command : List String
  pub env : List (String × String)

pub record JobBody : Type 0 where
  pub name : String
  pub namespace : String
  pub labels : Labels
  pub backoff_limit : ℕ
  pub active_deadline_seconds : ℕ
  pub ttl_seconds_after_finished : ℕ
  pub container : Container

-- What the services raise.
pub data JobError : Type 0 where
  api_exception : (status : ℕ) → JobError
  timeout_error dispatch_error backfill_already_running not_configured : JobError

-- What a call returns, or the exception that it raises.
pub data Outcome (A : Type 0) : Type 0 where
  returned : A → Outcome A
  raised : JobError → Outcome A

-- The client: jobs of a namespace by a label selector, a job by its name, and the submission.
pub record BatchApi : Type 0 where
  pub list_namespaced_job : String → String → Outcome (List Job)
  pub read_namespaced_job : String → String → Outcome Job
  pub create_namespaced_job : String → JobBody → Outcome Unit

-- `x or 0`
abbrev pub or_zero : Option ℕ → ℕ
or_zero none = 0
or_zero (some n) = n

-- `labels or {}`
abbrev pub or_no_labels : Option Labels → Labels
or_no_labels none = []
or_no_labels (some labels) = labels
