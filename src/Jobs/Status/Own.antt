-- ===== src/Jobs/Status/Own.antt =====
-- Which jobs a status request can see.
use grosh.Prelude.{
  ℕ, String, Bool, true, false, not, ◌&&◌, Option, none, some, List, [], ◌∷◌, ◌≡◌, ◌≢◌, ◌∙◌, ◌⊎◌,
  inl, inr, refl, ap, arith, if◌then◌else◌, ◌==◌, Bool-cases, str_eq, str_eq_iff,
}
use grosh.Jobs.Submit.{Texts, Settings, reprocess_body}
use grosh.Jobs.Trigger.{
  Tables, get_role, is_admin, user_labels, admin_absent_labels, status_response, problem,
  job_not_found, insufficient_permissions, get_user_reprocess_status, get_bulk_reprocess_status,
}
use grosh.Jobs.{
  Labels, Job, JobError, api_exception, timeout_error, dispatch_error, backfill_already_running,
  not_configured, Outcome, returned, raised, BatchApi, or_no_labels,
}
use grosh.Jobs.Status.{
  JobStatusResponse, visible_status, on_read, fetch_status, map_job_to_response, has_labels,
  has_any_key, on_read_error, status_namespace,
}

on_read_error-none :
    (e : JobError) (r : JobStatusResponse) → on_read_error e ≡ returned (some r) → ⊥
on_read_error-none (api_exception status) r h = ground arith
on_read_error-none timeout_error r h = cc
on_read_error-none dispatch_error r h = cc
on_read_error-none backfill_already_running r h = cc
on_read_error-none not_configured r h = cc

visible_status-own :
    (now : ℕ) (expected : Labels) (absent : List String) (job : Job) (r : JobStatusResponse)
    → visible_status now expected absent job ≡ returned (some r)
    → (has_labels expected (or_no_labels job.labels) ≡ true)
      × (has_any_key absent (or_no_labels job.labels) ≡ false)
      × (r ≡ map_job_to_response now job)
visible_status-own now expected absent job r =
    split (has_labels expected (or_no_labels job.labels))
      (has_any_key absent (or_no_labels job.labels)) (map_job_to_response now job)
  where
    split :
        (a b : Bool) (s : JobStatusResponse)
        → (if a && not b then returned (some s) else returned none) ≡ returned (some r)
        → (a ≡ true) × (b ≡ false) × (r ≡ s)
    split a b s h = ground arith

on_read-own :
    (now : ℕ) (expected : Labels) (absent : List String) (read : Outcome Job)
    (r : JobStatusResponse)
    → on_read now expected absent read ≡ returned (some r)
    → (job : Job) × (read ≡ returned job)
      × (visible_status now expected absent job ≡ returned (some r))
on_read-own now expected absent (raised e) r h = absurd (on_read_error-none e r h)
on_read-own now expected absent (returned job) r h = (job, refl, h)

-- A status is answered only for the job that the API reads under the name, where that job has each
-- expected label with its value and none of the labels that must be absent; and it is that job's.
pub fetch_status-IsOwn :
    (api : BatchApi) (now : ℕ) (job_id : String) (expected : Labels) (absent : List String)
    (r : JobStatusResponse)
    → fetch_status (some api) now job_id expected absent ≡ returned (some r)
    → (job : Job) × (api.read_namespaced_job status_namespace job_id ≡ returned job)
      × (has_labels expected (or_no_labels job.labels) ≡ true)
      × (has_any_key absent (or_no_labels job.labels) ≡ false)
      × (r ≡ map_job_to_response now job)
unfolding fetch_status
fetch_status-IsOwn api now job_id expected absent r h =
    let (job, read, seen) =
      on_read-own now expected absent (api.read_namespaced_job status_namespace job_id) r h in
    let (has, lacks, same) = visible_status-own now expected absent job r seen in
    (job, read, has, lacks, same)

hidden :
    (api : BatchApi) (now : ℕ) (job_id : String) (expected : Labels) (absent : List String)
    (job : Job)
    → api.read_namespaced_job status_namespace job_id ≡ returned job
    → (has_labels expected (or_no_labels job.labels)
        && not (has_any_key absent (or_no_labels job.labels)))
      ≡ false
    → fetch_status (some api) now job_id expected absent ≡ returned none
unfolding fetch_status
hidden api now job_id expected absent job read h =
    ap (on_read now expected absent) read ∙ unseen _ h
  where
    unseen :
        (seen : Bool)
        → seen ≡ false
        → (if seen then returned (some (map_job_to_response now job)) else returned none)
          ≡ returned none
    unseen seen h = ground arith

module _ (texts : Texts) (settings : Settings) (api : BatchApi) where
  different :
      (a b : ℕ)
      → texts.uuid_text a ≢ texts.uuid_text b
      → str_eq (texts.uuid_text a) (texts.uuid_text b) ≡ false
  different a b n = elim (Bool-cases (str_eq (texts.uuid_text a) (texts.uuid_text b))) [
    | inr e ↦ e
    | inl e ↦ absurd (n ((str_eq_iff (texts.uuid_text a) (texts.uuid_text b)).0 e))
  ]

  -- A reprocessing that was submitted for one user is not shown under the status endpoint of another,
  -- whose UUID prints differently, whoever asks and under whatever name, nor under that of the bulk
  -- jobs: the answer is that there is no such job, or that the caller may not ask.
  pub status-foreign :
      (now started : ℕ) (db : Tables) (owner other caller : ℕ) (job_id : String) (job : Job)
      (user_ids : List ℕ)
      → texts.uuid_text owner ≢ texts.uuid_text other
      → api.read_namespaced_job status_namespace job_id ≡ returned job
      → job.labels ≡ some (reprocess_body texts settings started user_ids (some owner)).labels
      → ((get_user_reprocess_status texts settings (some api) now db other job_id caller
            ≡ problem job_not_found)
          ⊎ (get_user_reprocess_status texts settings (some api) now db other job_id caller
              ≡ problem insufficient_permissions))
        × (get_bulk_reprocess_status texts settings (some api) now job_id ≡ problem job_not_found)
  unfolding get_user_reprocess_status get_bulk_reprocess_status reprocess_body
  status-foreign now started db owner other caller job_id job user_ids distinct read labels = (
    guarded (not (caller == other) && not (is_admin (get_role db.users caller))) (
        hidden api now job_id (user_labels texts settings (some api) other) [] job read
          (rw (labels, different owner other distinct) refl)),
    ap (status_response texts settings (some api)) (
        hidden api now job_id (("grosh.app/job-kind", "reprocess") ∷ [])
          (admin_absent_labels texts settings (some api)) job read (rw labels refl)),
  )
    where
      guarded :
          (b : Bool) {o : Outcome (Option JobStatusResponse)}
          → o ≡ returned none
          → ((if b
                then problem insufficient_permissions
                else status_response texts settings (some api) o)
              ≡ problem job_not_found)
            ⊎ ((if b
                  then problem insufficient_permissions
                  else status_response texts settings (some api) o)
                ≡ problem insufficient_permissions)
      guarded true h = inr refl
      guarded false h = inl (ap (status_response texts settings (some api)) h)
