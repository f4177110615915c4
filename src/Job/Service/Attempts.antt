-- ===== src/Job/Service/Attempts.antt =====
-- job.service.ts: the operations that an attempt at a job makes while it runs.
use silo_core.Base.{ℕ, String, ◌+◌, not, ◌&&◌, Option, none, some, str_eq, if◌then◌else◌}
use silo_core.Base.Int.{Number}
use silo_core.Errors.{invalid_input}
use silo_core.Exec.{Exec, pure, raise, check, ◌>>=◌, ◌>>◌}
use silo_core.Job.{
  Job, queued, running, cancel_requested, cancelled, same_status, hint_running, hint_progress,
  hint_heartbeat, hint_cancelled,
}
use silo_core.Job.Lifecycle.{
  is_terminal_job_status, assert_valid_job_status_transition, assert_valid_job_progress,
}
use silo_core.Job.Platform.{Platform, World}
use silo_core.Job.Service.{
  now, or_now, get_existing_job, update_job_and_notify, finalize_job_and_notify,
}

-- The update inputs, as changes of a row.
abbrev pub to_running : ℕ → ℕ → Job → Job
to_running started_at heartbeat_at job = record job {
  status = running;
  stage = "running";
  attempts = job.attempts + 1;
  started_at = some started_at;
  heartbeat_at = some heartbeat_at;
}

abbrev pub to_cancelled : ℕ → Job → Job
to_cancelled completed_at job = record job {
  status = cancelled;
  stage = "cancelled";
  completed_at = some completed_at;
}

-- `...(stage ? { stage } : {})`
abbrev pub with_stage : Option String → Job → Job
with_stage none job = job
with_stage (some stage) job = if str_eq stage "" then job else record job { stage = stage }

abbrev pub to_progress : Number → Option String → Job → Job
to_progress progress stage job = with_stage stage (record job { progress = progress })

abbrev pub to_retry_pending : Job → Job
to_retry_pending job = record job { status = running; stage = "retry_pending" }

abbrev pub to_heartbeat : ℕ → Job → Job
to_heartbeat heartbeat_at job = record job { heartbeat_at = some heartbeat_at }

module _ (p : Platform) where
  open p use {Db}

  -- The update that starts an attempt, for `markRunning` and `startWorkerAttempt`.
  unfoldable pub set_running : Job → Exec (World Db) Job
  set_running job = do
    started_at ← or_now p job.started_at
    heartbeat_at ← now p
    update_job_and_notify p job.id (to_running started_at heartbeat_at) hint_running

  unfoldable pub mark_cancelled_and_notify : ℕ → Exec (World Db) Job
  mark_cancelled_and_notify job_id = do
    completed_at ← now p
    finalize_job_and_notify p job_id (to_cancelled completed_at) hint_cancelled

  unfoldable pub mark_running : ℕ → Exec (World Db) Job
  mark_running job_id = do
    job ← get_existing_job p job_id
    if same_status job.status running
        then pure job
        else do check (assert_valid_job_status_transition job.status running); set_running job

  unfoldable pub start_worker_attempt : ℕ → Exec (World Db) Job
  start_worker_attempt job_id = do
    job ← get_existing_job p job_id
    if is_terminal_job_status job.status
        then pure job
        else if same_status job.status cancel_requested
        then mark_cancelled_and_notify job.id
        else if not (same_status job.status queued) && not (same_status job.status running)
        then raise (invalid_input "JOB_WORKER_ATTEMPT_STATUS_INVALID")
        else set_running job

  unfoldable pub update_progress : ℕ → Number → Option String → Exec (World Db) Job
  update_progress job_id progress stage = do
    check (assert_valid_job_progress progress)
    job ← get_existing_job p job_id
    if not (same_status job.status running) && not (same_status job.status cancel_requested)
        then raise (invalid_input "JOB_PROGRESS_STATUS_INVALID")
        else update_job_and_notify p job.id (to_progress progress stage) hint_progress

  unfoldable pub mark_retry_pending : ℕ → Exec (World Db) Job
  mark_retry_pending job_id = do
    job ← get_existing_job p job_id
    if is_terminal_job_status job.status
        then pure job
        else if not (same_status job.status running)
        then raise (invalid_input "JOB_RETRY_PENDING_STATUS_INVALID")
        else update_job_and_notify p job.id to_retry_pending hint_running

  unfoldable pub heartbeat : ℕ → Exec (World Db) Job
  heartbeat job_id = do
    job ← get_existing_job p job_id
    if not (same_status job.status running) && not (same_status job.status cancel_requested)
        then raise (invalid_input "JOB_HEARTBEAT_STATUS_INVALID")
        else do
          heartbeat_at ← now p
          update_job_and_notify p job.id (to_heartbeat heartbeat_at) hint_heartbeat
