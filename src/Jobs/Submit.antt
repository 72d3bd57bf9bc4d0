-- ===== src/Jobs/Submit.antt =====
-- The submission of jobs
-- (services/reprocess_dispatcher.py and services/backfill_service.py of
-- services/ingestion/src/grosh_ingestion).
pub mod Unfinished
use Prim.Native.String.{◌++◌ as append_text}
use grosh.Prelude.{
  ℕ, String, Bool, false, not, ◌&&◌, Option, none, some, List, [], ◌∷◌, any, if◌then◌else◌, ltb,
  ◌==◌, is_some,
}
use grosh.Domain.{ℤ, pos}
use grosh.Jobs.{
  Labels, Job, JobBody, JobError, api_exception, timeout_error, dispatch_error,
  backfill_already_running, not_configured, Outcome, returned, raised, BatchApi, or_zero,
}

-- The environment of a service: what its constructor reads.
pub record Settings : Type 0 where
  pub image : String
  pub image_pull_policy : String
  pub namespace : String

-- How Python prints a UUID and an int, the first eight hexadecimal digits of a UUID, and the JSON
-- text of a list of texts.
pub record Texts : Type 0 where
  pub uuid_text : ℕ → String
  pub int_text : ℤ → String
  pub short_text : ℕ → String
  pub json_array : List String → String

abbrev pub map_texts : (ℕ → String) → List ℕ → List String
map_texts f [] = []
map_texts f (x ∷ xs) = f x ∷ map_texts f xs

module _ (texts : Texts) (settings : Settings) where
  abbrev pub reprocess_labels : Option ℕ → Labels
  reprocess_labels caller_user_id =
      ("app.kubernetes.io/managed-by", "grosh-ingestion")
      ∷ ("grosh.app/job-kind", "reprocess")
      ∷ elim caller_user_id [
        | none ↦ []
        | some user_id ↦ ("grosh.app/user-id", texts.uuid_text user_id) ∷ []
      ]

  -- `now` is `int(time.time())`.
  unfoldable pub reprocess_job_name : ℕ → Option ℕ → String
  reprocess_job_name now caller_user_id = append_text "grosh-reprocess-" (
      append_text (elim caller_user_id [ none ↦ "admin" | some u ↦ texts.short_text u ])
        (append_text "-" (texts.int_text (pos now))))

  unfoldable pub reprocess_body : ℕ → List ℕ → Option ℕ → JobBody
  unfolding reprocess_job_name
  reprocess_body now user_ids caller_user_id = record {
    name = reprocess_job_name now caller_user_id;
    namespace = settings.namespace;
    labels = reprocess_labels caller_user_id;
    backoff_limit = 0;
    active_deadline_seconds = 7200;
    ttl_seconds_after_finished = 3600;
    container = record {
      name = "reprocess";
      image = settings.image;
      image_pull_policy = settings.image_pull_policy;
      command = "python" ∷ "-m" ∷ "grosh_normalization.reprocess_main" ∷ [];
      env = ("USER_IDS_JSON", texts.json_array (map_texts texts.uuid_text user_ids)) ∷ [];
    };
  }

  abbrev pub on_dispatch_error : JobError → JobError
  on_dispatch_error (api_exception status) = dispatch_error
  on_dispatch_error timeout_error = dispatch_error
  on_dispatch_error e = e

  -- `ReprocessDispatcher.submit`
  unfoldable pub submit : Option BatchApi → ℕ → List ℕ → Option ℕ → Outcome String
  unfolding reprocess_body
  submit none now user_ids caller_user_id = raised dispatch_error
  submit (some api) now user_ids caller_user_id =
      let body = reprocess_body now user_ids caller_user_id in
      elim (api.create_namespaced_job settings.namespace body) [
        | raised e ↦ raised (on_dispatch_error e)
        | returned _ ↦ returned body.name
      ]

  -- `job.spec.backoff_limit or 1`
  abbrev pub or_one : Option ℕ → ℕ
  or_one none = 1
  or_one (some n) = if n == 0 then 1 else n

  abbrev pub is_unfinished : Job → Bool
  is_unfinished job =
      not (is_some job.completion_time) && ltb (or_zero job.failed) (or_one job.backoff_limit)

  unfoldable pub has_active_job : Option BatchApi → String → Outcome Bool
  has_active_job none label_selector = returned false
  has_active_job (some api) label_selector =
      elim (api.list_namespaced_job settings.namespace label_selector) [
        | raised e ↦ raised e
        | returned jobs ↦ returned (any is_unfinished jobs)
      ]

  -- The end of both triggers: the guard, and the submission. `body` has the name that was made.
  unfoldable pub submit_unless_active : BatchApi → String → JobBody → Outcome String
  unfolding has_active_job
  submit_unless_active api label_selector body = elim (has_active_job (some api) label_selector) [
    | raised e ↦ raised e
    | returned active ↦
        if active
        then raised backfill_already_running
        else elim (api.create_namespaced_job settings.namespace body) [
          | raised e ↦ raised e
          | returned _ ↦ returned body.name
        ]
  ]

  unfoldable pub transactions_backfill_body : String → ℕ → ℕ → ℕ → String → ℤ → ℤ → JobBody
  transactions_backfill_body job_name account_id integration_id user_id account_external_id
        from_timestamp to_timestamp =
      record {
        name = job_name;
        namespace = settings.namespace;
        labels =
            ("app.kubernetes.io/managed-by", "grosh-ingestion")
            ∷ ("grosh.app/job-kind", "monobank_backfill")
            ∷ ("grosh.app/account-id", texts.uuid_text account_id)
            ∷ ("grosh.app/user-id", texts.uuid_text user_id)
            ∷ [];
        backoff_limit = 3;
        active_deadline_seconds = 7200;
        ttl_seconds_after_finished = 3600;
        container = record {
          name = "backfill";
          image = settings.image;
          image_pull_policy = settings.image_pull_policy;
          command = "python" ∷ "-m" ∷ "grosh_ingestion.jobs.run_transactions_backfill" ∷ [];
          env =
              ("BACKFILL_INTEGRATION_ID", texts.uuid_text integration_id)
              ∷ ("BACKFILL_USER_ID", texts.uuid_text user_id)
              ∷ ("BACKFILL_ACCOUNT_EXTERNAL_ID", account_external_id)
              ∷ ("BACKFILL_FROM_TIMESTAMP", texts.int_text from_timestamp)
              ∷ ("BACKFILL_TO_TIMESTAMP", texts.int_text to_timestamp)
              ∷ [];
        };
      }

  abbrev pub transactions_selector : ℕ → String
  transactions_selector account_id = append_text "app.kubernetes.io/managed-by=grosh-ingestion" (
      append_text ",grosh.app/job-kind=monobank_backfill"
        (append_text ",grosh.app/account-id=" (texts.uuid_text account_id)))

  -- `job_name` is made of the time and of random digits.
  unfoldable pub trigger_transactions_backfill :
      Option BatchApi → String → ℕ → ℕ → ℕ → String → ℤ → ℤ → Outcome String
  unfolding submit_unless_active transactions_backfill_body
  trigger_transactions_backfill none job_name account_id integration_id user_id external_id
        from_timestamp to_timestamp =
      raised not_configured
  trigger_transactions_backfill (some api) job_name account_id integration_id user_id external_id
        from_timestamp to_timestamp =
      submit_unless_active api (transactions_selector account_id) (
        transactions_backfill_body job_name account_id integration_id user_id external_id
          from_timestamp to_timestamp)

  unfoldable pub rates_backfill_body : String → String → String → String → JobBody
  rates_backfill_body job_name source from_date to_date = record {
    name = job_name;
    namespace = settings.namespace;
    labels =
        ("app.kubernetes.io/managed-by", "grosh-ingestion")
        ∷ ("grosh.app/job-kind", "rates_backfill")
        ∷ ("grosh.app/source", source)
        ∷ [];
    backoff_limit = 3;
    active_deadline_seconds = 3600;
    ttl_seconds_after_finished = 3600;
    container = record {
      name = "backfill";
      image = settings.image;
      image_pull_policy = settings.image_pull_policy;
      command = "python" ∷ "-m" ∷ "grosh_ingestion.jobs.run_rates_backfill" ∷ [];
      env =
          ("BACKFILL_SOURCE", source)
          ∷ ("BACKFILL_FROM_DATE", from_date)
          ∷ ("BACKFILL_TO_DATE", to_date)
          ∷ [];
    };
  }

  abbrev pub rates_selector : String → String
  rates_selector source =
      append_text "app.kubernetes.io/managed-by=grosh-ingestion"
        (append_text ",grosh.app/job-kind=rates_backfill" (append_text ",grosh.app/source=" source))

  unfoldable pub trigger_rates_backfill :
      Option BatchApi → String → String → String → String → Outcome String
  unfolding submit_unless_active rates_backfill_body
  trigger_rates_backfill none job_name source from_date to_date = raised not_configured
  trigger_rates_backfill (some api) job_name source from_date to_date =
      submit_unless_active api (rates_selector source)
        (rates_backfill_body job_name source from_date to_date)
