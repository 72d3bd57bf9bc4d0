-- ===== src/Jobs/Submit/Unfinished.antt =====
-- A backfill job is submitted only where none of its kind and target is unfinished.
use Prim.Native.String.{◌++◌ as append_text}
use grosh.Prelude.{
  ℕ, zero, suc, ◌≤◌, String, Bool, false, not, ◌&&◌, Option, none, some, is_some, subst, List, [],
  ◌∷◌, ◌≡◌, ◌∙◌, ◌↔◌, ◌⊎◌, inl, inr, refl, sym, arith, any, ltb, Member, if◌then◌else◌, Bool-cases,
}
use grosh.Domain.{ℤ}
use grosh.Jobs.{
  Job, JobBody, Labels, not_configured, backfill_already_running, Outcome, returned, raised,
  BatchApi, or_zero,
}
use grosh.Jobs.Submit.{
  Texts, Settings, is_unfinished, or_one, has_active_job, submit_unless_active,
  transactions_backfill_body, trigger_transactions_backfill, rates_backfill_body,
  trigger_rates_backfill,
}

-- The failures of a job have used up its limit, which is 1 where none, or 0, is given.
abbrev pub IsUsedUp : Option ℕ → Option ℕ → Type 0
IsUsedUp none limit = ⊥
IsUsedUp (some failures) none = 1 ≤ failures
IsUsedUp (some failures) (some zero) = 1 ≤ failures
IsUsedUp (some failures) (some (suc limit)) = suc limit ≤ failures

-- A job that has completed, or has failed for good.
abbrev pub IsFinished : Job → Type 0
IsFinished job =
    ((time : ℕ) × (job.completion_time ≡ some time)) ⊎ IsUsedUp job.failed job.backoff_limit

module _ (texts : Texts) (settings : Settings) where
  finished_iff : (job : Job) → (is_unfinished texts settings job ≡ false) ↔ IsFinished job
  finished_iff job = (
    λ h. ended job.completion_time h,
    λ f. elim f [
      | inl (time, e) ↦ rw e refl
      | inr u ↦
          rw (not_unused job.failed job.backoff_limit u)
            (and-false (not (is_some job.completion_time)))
    ],
  )
    where
      and-false : (b : Bool) → (b && false) ≡ false
      and-false b = ground arith

      unused : Option ℕ → Option ℕ → Bool
      unused failed limit = ltb (or_zero failed) (or_one texts settings limit)

      used_up : (failed limit : Option ℕ) → unused failed limit ≡ false → IsUsedUp failed limit
      used_up none none h = absurd cc
      used_up none (some zero) h = absurd cc
      used_up none (some (suc l)) h = absurd (ground (arith, h))
      used_up (some f) none h = ground (arith, h)
      used_up (some f) (some zero) h = ground (arith, h)
      used_up (some f) (some (suc l)) h = ground (arith, h)

      not_unused : (failed limit : Option ℕ) → IsUsedUp failed limit → unused failed limit ≡ false
      not_unused none limit u = absurd u
      not_unused (some f) none u = ground (arith, u)
      not_unused (some f) (some zero) u = ground (arith, u)
      not_unused (some f) (some (suc l)) u = ground (arith, u)

      ended :
          (o : Option ℕ)
          → (not (is_some o) && unused job.failed job.backoff_limit) ≡ false
          → ((time : ℕ) × (o ≡ some time)) ⊎ IsUsedUp job.failed job.backoff_limit
      ended none h = inr (used_up job.failed job.backoff_limit h)
      ended (some time) h = inl (time, refl)

  -- The API lists jobs that are all finished, and accepts the job.
  abbrev pub IsSubmitted : BatchApi → String → JobBody → Type 0
  IsSubmitted api label_selector body =
      (jobs : List Job) × (api.list_namespaced_job settings.namespace label_selector
        ≡ returned jobs)
      × ((job : Job) → Member job jobs → IsFinished job)
      × (api.create_namespaced_job settings.namespace body ≡ returned tt)

  finished :
      (jobs : List Job)
      → any (is_unfinished texts settings) jobs ≡ false
      → (job : Job) → Member job jobs
      → IsFinished job
  finished [] h job m = elim m [ ]
  finished (j ∷ jobs) h job (inl m) = (finished_iff job).0 (rw (sym m) (ground (arith, h)))
  finished (j ∷ jobs) h job (inr m) = finished jobs (ground (arith, h)) job m

  none_unfinished :
      (jobs : List Job)
      → ((job : Job) → Member job jobs → IsFinished job)
      → any (is_unfinished texts settings) jobs ≡ false
  none_unfinished [] h = refl
  none_unfinished (j ∷ jobs) h =
      rw ((finished_iff j).1 (h j (inl refl))) (none_unfinished jobs (λ job m. h job (inr m)))

  module _ (api : BatchApi) (label_selector : String) (body : JobBody) where
    abbrev answer : Outcome (List Job) → Outcome Unit → Outcome String
    answer (raised e) created = raised e
    answer (returned jobs) created =
        if any (is_unfinished texts settings) jobs
        then raised backfill_already_running
        else elim created [ raised e ↦ raised e | returned _ ↦ returned body.name ]

    submit_unless_active-answer :
        (listed : Outcome (List Job)) (created : Outcome Unit)
        → api.list_namespaced_job settings.namespace label_selector ≡ listed
        → api.create_namespaced_job settings.namespace body ≡ created
        → submit_unless_active texts settings api label_selector body ≡ answer listed created
    unfolding submit_unless_active has_active_job
    submit_unless_active-answer (raised e) created l c = ground (arith, l)
    submit_unless_active-answer (returned jobs) (raised e) l c = ground (arith, l, c)
    submit_unless_active-answer (returned jobs) (returned u) l c = ground (arith, l, c)

    answer_only :
        (listed : Outcome (List Job)) (created : Outcome Unit) (name : String)
        → answer listed created ≡ returned name
        → ((jobs : List Job) × (listed ≡ returned jobs)
            × ((job : Job) → Member job jobs → IsFinished job)
            × (created ≡ returned tt))
          × (name ≡ body.name)
    answer_only (raised e) created name h = absurd cc
    answer_only (returned jobs) (raised e) name h = absurd (ground (arith, h))
    answer_only (returned jobs) (returned _) name h =
        elim (Bool-cases (any (is_unfinished texts settings) jobs)) [
          | inl b ↦ absurd (ground (arith, b, h))
          | inr b ↦ ((jobs, refl, finished jobs b, refl), ground (arith, b, h))
        ]

    -- A job is submitted exactly where every listed job is finished and the API accepts it.
    pub submit_unless_active_iff :
        (name : String)
        → (submit_unless_active texts settings api label_selector body ≡ returned name)
          ↔ IsSubmitted api label_selector body × (name ≡ body.name)
    submit_unless_active_iff name = (
      λ h.
          answer_only (api.list_namespaced_job settings.namespace label_selector)
            (api.create_namespaced_job settings.namespace body) name
            (sym (submit_unless_active-answer _ _ refl refl) ∙ h),
      λ ((jobs, listed, done, created), same).
          submit_unless_active-answer _ _ listed created
          ∙ rw (none_unfinished jobs done, same) refl,
    )

  abbrev pub IsCreated : Option BatchApi → String → JobBody → String → Type 0
  IsCreated api label_selector body name =
      (client : BatchApi) × (api ≡ some client)
      × IsSubmitted client label_selector body
      × (name ≡ body.name)

  -- A trigger without the API, and with it.
  no_api :
      {label_selector : String} {body : JobBody} {name : String}
      → (◌≡◌ {A = Outcome String} (raised not_configured) (returned name))
        ↔ IsCreated none label_selector body name
  no_api = (λ h. absurd (not_returned h), λ (client, h, s, same). absurd (not_some h))
    where
      not_returned :
          {name : String} → ◌≡◌ {A = Outcome String} (raised not_configured) (returned name) → ⊥
      not_returned h = cc

      not_some : {client : BatchApi} → none ≡ some client → ⊥
      not_some h = cc

  with_api :
      (client : BatchApi) (label_selector : String) (body : JobBody) (name : String)
      → (submit_unless_active texts settings client label_selector body ≡ returned name)
        ↔ IsCreated (some client) label_selector body name
  with_api client label_selector body name = (
    λ h.
        let (s, same) = (submit_unless_active_iff client label_selector body name).0 h in
        (client, refl, s, same),
    λ (c, h, s, same).
        (submit_unless_active_iff client label_selector body name).1
          (subst (λ x. IsSubmitted x label_selector body) (sym (some-injective h)) s, same),
  )
    where
      some-injective : {c : BatchApi} → some client ≡ some c → client ≡ c
      some-injective h = cc

  -- What a job is given: its name, its labels and its environment.
  abbrev pub IsBody : JobBody → String → Labels → Labels → Type 0
  IsBody body job_name labels env =
      (body.name ≡ job_name)
      × (body.namespace ≡ settings.namespace)
      × (body.labels ≡ labels)
      × (body.container.env ≡ env)

  -- The two triggers, and what each job is given.
  abbrev pub AreTriggers : Option BatchApi → String → String → Type 0
  AreTriggers api job_name name =
      ((account_id integration_id user_id : ℕ) (external_id : String) (from_time to_time : ℤ)
        → ((trigger_transactions_backfill texts settings api job_name account_id integration_id
                user_id external_id from_time to_time
              ≡ returned name)
            ↔ IsCreated api
                (append_text "app.kubernetes.io/managed-by=grosh-ingestion" (
                  append_text ",grosh.app/job-kind=monobank_backfill"
                    (append_text ",grosh.app/account-id=" (texts.uuid_text account_id))))
                (transactions_backfill_body texts settings job_name account_id integration_id
                  user_id external_id from_time to_time)
                name)
          × IsBody
              (transactions_backfill_body texts settings job_name account_id integration_id user_id
                external_id from_time to_time)
              job_name
              (("app.kubernetes.io/managed-by", "grosh-ingestion")
                ∷ ("grosh.app/job-kind", "monobank_backfill")
                ∷ ("grosh.app/account-id", texts.uuid_text account_id)
                ∷ ("grosh.app/user-id", texts.uuid_text user_id)
                ∷ [])
              (("BACKFILL_INTEGRATION_ID", texts.uuid_text integration_id)
                ∷ ("BACKFILL_USER_ID", texts.uuid_text user_id)
                ∷ ("BACKFILL_ACCOUNT_EXTERNAL_ID", external_id)
                ∷ ("BACKFILL_FROM_TIMESTAMP", texts.int_text from_time)
                ∷ ("BACKFILL_TO_TIMESTAMP", texts.int_text to_time)
                ∷ []))
      × ((source from_date to_date : String)
          → ((trigger_rates_backfill texts settings api job_name source from_date to_date
                ≡ returned name)
              ↔ IsCreated api
                  (append_text "app.kubernetes.io/managed-by=grosh-ingestion" (
                    append_text ",grosh.app/job-kind=rates_backfill"
                      (append_text ",grosh.app/source=" source)))
                  (rates_backfill_body texts settings job_name source from_date to_date) name)
            × IsBody (rates_backfill_body texts settings job_name source from_date to_date) job_name
                (("app.kubernetes.io/managed-by", "grosh-ingestion")
                  ∷ ("grosh.app/job-kind", "rates_backfill")
                  ∷ ("grosh.app/source", source)
                  ∷ [])
                (("BACKFILL_SOURCE", source)
                  ∷ ("BACKFILL_FROM_DATE", from_date)
                  ∷ ("BACKFILL_TO_DATE", to_date)
                  ∷ []))

  -- A trigger of a backfill answers with a job exactly where the API is configured, lists under the
  -- labels of this account or source only jobs that have completed or failed as often as their limit,
  -- and accepts the job; the answer is its name. The job has the labels that the list asks for, and the
  -- account and the period, or the source and the dates, in its environment.
  pub trigger-IsCreated :
      (api : Option BatchApi) (job_name name : String) → AreTriggers api job_name name
  unfolding trigger_transactions_backfill trigger_rates_backfill transactions_backfill_body
      rates_backfill_body
  trigger-IsCreated none job_name name = (
    λ account_id integration_id user_id external_id from_time to_time.
        (no_api, (refl, refl, refl, refl)),
    λ source from_date to_date. (no_api, (refl, refl, refl, refl)),
  )
  trigger-IsCreated (some client) job_name name = (
    λ account_id integration_id user_id external_id from_time to_time.
        (with_api client _ _ name, (refl, refl, refl, refl)),
    λ source from_date to_date. (with_api client _ _ name, (refl, refl, refl, refl)),
  )
