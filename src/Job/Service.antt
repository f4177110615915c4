-- ===== src/Job/Service.antt =====
-- job.service.ts: the helpers that every operation of the service is made of. A method is an
-- action on the `World`; `new Date()` reads the platform's clock.
pub mod Attempts
pub mod Endings
pub mod Queueing
pub mod Repairs
pub mod Rows
pub mod Lives
pub mod Outcomes
use silo_core.Base.{
  ℕ, String, ◌+◌, ◌-◌, Bool, true, false, Option, none, some, List, [], ◌∷◌, ◌++◌, ltb, or_else,
}
use silo_core.Base.Int.{ℤ, sub_ℕ, pos_part}
use silo_core.Json.{Json}
use silo_core.Base.Int.{Number}
use silo_core.Errors.{Error, Result, ok, err, not_found, invalid_input}
use silo_core.Exec.{Exec, pure, raise, ◌>>=◌, ◌>>◌}
use silo_core.Job.{Job, JobStatus, succeeded, failed, cancelled, JobNotificationHint}
use silo_core.Job.Platform.{
  Platform, World, JobMetric, JobMetricOutcome, MetricReply, stored, unique_violation, refused,
}
use silo_core.Job.Repository.{find_by_id, find_by_id_in_workspace, update_job}

pub record PublicJob : Type 0 where
  pub id : ℕ
  pub workspace_id : ℕ
  pub job_type : String
  pub status : JobStatus
  pub progress : Number
  pub stage : String
  pub result : Option Json
  pub error_code : Option String
  pub sanitized_error : Option String
  pub attempts : ℕ
  pub max_attempts : ℕ
  pub created_by_user_id : ℕ
  pub created_at : ℕ
  pub started_at : Option ℕ
  pub completed_at : Option ℕ
  pub heartbeat_at : Option ℕ
  pub cancel_requested_at : Option ℕ

unfoldable pub to_public_job : Job → PublicJob
to_public_job job = record {
  id = job.id;
  workspace_id = job.workspace_id;
  job_type = job.job_type;
  status = job.status;
  progress = job.progress;
  stage = job.stage;
  result = job.result;
  error_code = job.error_code;
  sanitized_error = job.sanitized_error;
  attempts = job.attempts;
  max_attempts = job.max_attempts;
  created_by_user_id = job.created_by_user_id;
  created_at = job.created_at;
  started_at = job.started_at;
  completed_at = job.completed_at;
  heartbeat_at = job.heartbeat_at;
  cancel_requested_at = job.cancel_requested_at;
}

abbrev pub to_job_metric_outcome : JobStatus → Option JobMetricOutcome
to_job_metric_outcome succeeded = some JobMetricOutcome.succeeded
to_job_metric_outcome failed = some JobMetricOutcome.failed
to_job_metric_outcome cancelled = some JobMetricOutcome.cancelled
to_job_metric_outcome _ = none

unfoldable pub difference_ms : Option ℕ → Option ℕ → Option ℤ
difference_ms (some end) (some start) = some (sub_ℕ end start)
difference_ms _ _ = none

-- `normalizeDuration` of jobMetric.service.ts: a duration is a whole number of milliseconds here,
-- so `Math.round` leaves it.
abbrev pub normalize_duration : Option ℤ → Option ℕ
normalize_duration none = none
normalize_duration (some z) = some (pos_part z)

unfoldable pub create_job_queue_send_options : ℕ → ℕ
create_job_queue_send_options max_attempts = max_attempts - 1

unfoldable pub assert_positive_integer : Number → Result ℕ
assert_positive_integer (Number.int (ℤ.pos n)) = elim (ltb n 1) [
  | true ↦ err (invalid_input "JOB_RECOVERY_INPUT_INVALID")
  | false ↦ ok n
]
assert_positive_integer _ = err (invalid_input "JOB_RECOVERY_INPUT_INVALID")

-- The row that recordFinalizedJob stores for a job (jobMetric.service.ts).
unfoldable pub metric_of : Job → JobMetricOutcome → JobMetric
metric_of job outcome = record {
  job_id = job.id;
  workspace_id = job.workspace_id;
  job_type = job.job_type;
  outcome = outcome;
  attempts = job.attempts;
  queue_wait_ms = normalize_duration (difference_ms job.started_at (some job.created_at));
  execution_duration_ms = normalize_duration (difference_ms job.completed_at job.started_at);
  error_code = job.error_code;
}

module _ (p : Platform) where
  open p use {Db, create_metric, time}

  -- `new Date()`
  unfoldable pub now : Exec (World Db) ℕ
  now w = (ok (time w.ticks), record w { ticks = w.ticks + 1 })

  -- `value ?? new Date()`, which reads the clock only if there is no value.
  unfoldable pub or_now : Option ℕ → Exec (World Db) ℕ
  or_now none = now
  or_now (some t) = pure t

  -- bestEffortNotifyJobChanged catches what `pg_notify` throws.
  unfoldable pub notify : ℕ → JobNotificationHint → Exec (World Db) (Unit {0})
  notify id hint w = (ok tt, record w { notices = w.notices ++ (id, hint) ∷ [] })

  or_not_found : Option Job → Exec (World Db) Job
  or_not_found none = raise (not_found "Job not found")
  or_not_found (some job) = pure job

  unfoldable pub get_existing_job : ℕ → Exec (World Db) Job
  unfolding or_not_found
  get_existing_job job_id = do found ← find_by_id p job_id; or_not_found found

  unfoldable pub get_existing_job_in_workspace : ℕ → ℕ → Exec (World Db) Job
  unfolding or_not_found
  get_existing_job_in_workspace job_id workspace_id = do
    found ← find_by_id_in_workspace p job_id workspace_id
    or_not_found found

  -- recordFinalizedJob turns a duplicate into null and throws anything else again; the caller
  -- catches that and logs it.
  abbrev recorded : World Db → MetricReply × Db → Result (Unit {0}) × World Db
  recorded w (reply, db') = (ok tt, record w { db = db' })

  record_outcome : Job → Option JobMetricOutcome → Exec (World Db) (Unit {0})
  unfolding metric_of
  record_outcome job none w = (ok tt, w)
  record_outcome job (some outcome) w = recorded w (create_metric w.db (metric_of job outcome))

  unfoldable pub record_job_metric_safely : Job → Exec (World Db) (Unit {0})
  unfolding record_outcome
  record_job_metric_safely job = record_outcome job (to_job_metric_outcome job.status)

  unfoldable pub update_job_and_notify : ℕ → (Job → Job) → JobNotificationHint → Exec (World Db) Job
  update_job_and_notify job_id change hint = do
    job ← update_job p job_id change
    notify job.id hint
    pure job

  unfoldable pub finalize_job : ℕ → (Job → Job) → Exec (World Db) Job
  finalize_job job_id change = do
    job ← update_job p job_id change
    record_job_metric_safely job
    pure job

  unfoldable pub finalize_job_and_notify :
      ℕ → (Job → Job) → JobNotificationHint → Exec (World Db) Job
  finalize_job_and_notify job_id change hint = do
    job ← update_job_and_notify job_id change hint
    record_job_metric_safely job
    pure job

  unfoldable pub get_job_in_workspace : ℕ → ℕ → Exec (World Db) PublicJob
  get_job_in_workspace job_id workspace_id = do
    job ← get_existing_job_in_workspace job_id workspace_id
    pure (to_public_job job)
