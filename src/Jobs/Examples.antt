-- ===== src/Jobs/Examples.antt =====
-- Two users, an admin, and a cluster with one job.
use grosh.Prelude.{
  ◌≢◌, String, true, false, none, some, [], ◌∷◌, ◌≡◌, ◌⊎◌, refl, ap, str_eq, ◌==◌, if◌then◌else◌,
}
use grosh.Jobs.{Job, returned, BatchApi}
use grosh.Jobs.Status.{
  fetch_status, map_job_to_response, job_status_of, failure_reason_of, failed_message,
  find_active_job,
}
use grosh.Jobs.Status.Own.{status-foreign}
use grosh.Jobs.Submit.{
  Texts, Settings, reprocess_labels, reprocess_body, submit, has_active_job, submit_unless_active,
  trigger_rates_backfill,
}
use grosh.Jobs.Submit.Unfinished.{AreTriggers, trigger-IsCreated}
use grosh.Jobs.Trigger.{
  UserRole, Tables, Response, problem, rate_limited, job_not_found, insufficient_permissions,
  trigger_user_reprocess, get_user_reprocess_status, get_bulk_reprocess_status, get_role,
  claim_reprocess_slot, insert_lock_atomic,
}
use grosh.Jobs.Trigger.Guards.{IsTriggered, trigger_user_reprocess-IsTriggered}
use grosh.Jobs.Trigger.Bulk.{trigger_bulk_reprocess, target_ids}
use grosh.Jobs.Trigger.Bulk.Targets.{IsBulk, trigger_bulk_reprocess-IsBulk}

abbrev texts : Texts
texts = record {
  uuid_text = λ u. if u == 7 then "seven" else "other";
  int_text = λ n. "0";
  short_text = λ u. "short";
  json_array = λ items. "[]";
}

abbrev settings : Settings
settings = record { image = "image"; image_pull_policy = "IfNotPresent"; namespace = "grosh" }

-- The job of user 7, which has failed.
abbrev job : Job
job = record {
  name = some "grosh-reprocess-seven";
  labels = some (reprocess_body texts settings 0 (7 ∷ []) (some 7)).labels;
  creation_timestamp = some 5;
  completion_time = none;
  active = none;
  succeeded = none;
  failed = some 1;
  conditions = some (record { type = "Failed"; message = some "deadline" } ∷ []);
  backoff_limit = some 0;
}

abbrev cluster : BatchApi
cluster = record {
  list_namespaced_job = λ namespace selector. returned (job ∷ []);
  read_namespaced_job = λ namespace name. returned job;
  create_namespaced_job = λ namespace body. returned tt;
}

abbrev tables : Tables
tables = record {
  users =
      record { id = 7; role = UserRole.user; last_reprocess_started_at = none }
      ∷ record { id = 8; role = UserRole.admin; last_reprocess_started_at = some 1_000 }
      ∷ [];
  locks = [];
}

fails : (map_job_to_response 9 job).failure_reason ≡ some "deadline"
unfolding map_job_to_response job_status_of failure_reason_of failed_message
fails = refl

nothing_runs : find_active_job (some cluster) "x" ≡ returned none
unfolding find_active_job
nothing_runs = refl

seen :
    fetch_status (some cluster) 9 "j" (reprocess_labels texts settings (some 7)) []
    ≡ returned (some (map_job_to_response 9 job))
unfolding fetch_status reprocess_body
seen = refl

seven_other : texts.uuid_text 7 ≢ texts.uuid_text 8
seven_other e = false_true (ap (λ t. str_eq t "other") e)
  where
    false_true : false ≡ true → ⊥
    false_true h = cc

status-foreign_example :
    ((get_user_reprocess_status texts settings (some cluster) 9 tables 8 "j" 8
        ≡ problem job_not_found)
      ⊎ (get_user_reprocess_status texts settings (some cluster) 9 tables 8 "j" 8
          ≡ problem insufficient_permissions))
    × (get_bulk_reprocess_status texts settings (some cluster) 9 "j" ≡ problem job_not_found)
status-foreign_example =
    status-foreign texts settings cluster 9 0 tables 7 8 8 "j" job (7 ∷ []) seven_other refl refl

-- A user starts a reprocessing, and starts it again.
abbrev requested : Response String × Tables
requested = trigger_user_reprocess texts settings (some cluster) 9 tables 7 7

limited :
    (trigger_user_reprocess texts settings (some cluster) 10 requested.1 7 7).0
    ≡ problem rate_limited
unfolding trigger_user_reprocess get_role claim_reprocess_slot insert_lock_atomic submit
limited = refl

trigger_user_reprocess-IsTriggered_example : IsTriggered 9 7 7 tables requested.0 requested.1
trigger_user_reprocess-IsTriggered_example =
    trigger_user_reprocess-IsTriggered texts settings (some cluster) 9 tables 7 7

trigger_bulk_reprocess-IsBulk_example :
    IsBulk false 9 tables
      (target_ids tables (some (7 ∷ 7 ∷ 9 ∷ [])))
      (trigger_bulk_reprocess texts settings
        (some cluster)
        9
        tables
        (some (7 ∷ 7 ∷ 9 ∷ []))
        false).0
      (trigger_bulk_reprocess texts settings
        (some cluster)
        9
        tables
        (some (7 ∷ 7 ∷ 9 ∷ []))
        false).1
trigger_bulk_reprocess-IsBulk_example =
    trigger_bulk_reprocess-IsBulk texts settings (some cluster) 9 tables (some (7 ∷ 7 ∷ 9 ∷ []))
      false

backfills : trigger_rates_backfill texts settings (some cluster) "b" "nbu" "x" "y" ≡ returned "b"
unfolding trigger_rates_backfill submit_unless_active has_active_job
backfills = refl

trigger-IsCreated_example : AreTriggers texts settings (some cluster) "b" "b"
trigger-IsCreated_example = trigger-IsCreated texts settings (some cluster) "b" "b"
