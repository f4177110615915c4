-- ===== src/Job/Service/Endings.antt =====
-- job.service.ts: cancellation, and the operations that end a job.
use silo_core.Base.{ℕ, String, ◌||◌, Option, none, some, if◌then◌else◌}
use silo_core.Base.Int.{int, pos}
use silo_core.Json.{Json}
use silo_core.Errors.{ok}
use silo_core.Exec.{Exec, pure, check, ◌>>=◌, ◌>>◌}
use silo_core.Job.{
  Job, cancel_requested, cancelled, succeeded, failed, same_status, hint_cancellation_requested,
  hint_cancelled, hint_succeeded, hint_failed,
}
use silo_core.Job.Lifecycle.{is_terminal_job_status, assert_valid_job_status_transition}
use silo_core.Job.Privacy.{assert_job_data_is_sanitized}
use silo_core.Job.Platform.{Platform, World}
use silo_core.Job.Service.{
  PublicJob, to_public_job, or_now, get_existing_job, get_existing_job_in_workspace,
  update_job_and_notify, finalize_job_and_notify,
}
use silo_core.Job.Service.Attempts.{to_cancelled, mark_cancelled_and_notify}

abbrev pub to_cancel_requested : ℕ → Job → Job
to_cancel_requested at job = record job {
  status = cancel_requested;
  stage = "cancellation_requested";
  cancel_requested_at = some at;
}

abbrev with_result : Option Json → Job → Job
with_result none job = job
with_result (some result) job = record job { result = some result }

abbrev pub to_succeeded : Option Json → String → ℕ → Job → Job
to_succeeded result stage completed_at job = with_result result (record job {
  status = succeeded;
  progress = int (pos 100);
  stage = stage;
  completed_at = some completed_at;
})

abbrev pub to_failed : String → String → ℕ → Job → Job
to_failed error_code sanitized_error completed_at job = record job {
  status = failed;
  stage = "failed";
  error_code = some error_code;
  sanitized_error = some sanitized_error;
  completed_at = some completed_at;
}

abbrev pub handler_failed_error_code : String
handler_failed_error_code = "JOB_HANDLER_FAILED"

abbrev pub handler_failed_error_message : String
handler_failed_error_message = "Job handler failed."

module _ (p : Platform) where
  open p use {Db}

  -- the part that both requests for cancellation share
  unfoldable pub cancel : Job → Exec (World Db) Job
  cancel job =
      if same_status job.status cancel_requested || is_terminal_job_status job.status
      then pure job
      else do
        check (assert_valid_job_status_transition job.status cancel_requested)
        at ← or_now p job.cancel_requested_at
        update_job_and_notify p job.id (to_cancel_requested at) hint_cancellation_requested

  unfoldable pub request_cancellation : ℕ → Exec (World Db) Job
  unfolding cancel
  request_cancellation job_id = do job ← get_existing_job p job_id; cancel job

  unfoldable pub request_cancellation_in_workspace : ℕ → ℕ → Exec (World Db) PublicJob
  unfolding cancel
  request_cancellation_in_workspace job_id workspace_id = do
    job ← get_existing_job_in_workspace p job_id workspace_id
    changed ← cancel job
    pure (to_public_job changed)

  unfoldable pub mark_cancelled : ℕ → Exec (World Db) Job
  mark_cancelled job_id = do
    job ← get_existing_job p job_id
    if same_status job.status cancelled || is_terminal_job_status job.status then pure job else do
      check (assert_valid_job_status_transition job.status cancelled)
      completed_at ← or_now p job.completed_at
      finalize_job_and_notify p job.id (to_cancelled completed_at) hint_cancelled

  unfoldable pub checkpoint_cancellation : ℕ → Exec (World Db) Job
  checkpoint_cancellation job_id = do
    job ← get_existing_job p job_id
    if same_status job.status cancel_requested then mark_cancelled_and_notify p job.id else pure job

  -- `if (result !== undefined) assertJobDataIsSanitized(result)`
  unfoldable pub check_result : Option Json → Exec (World Db) (Unit {0})
  check_result none = check (ok tt)
  check_result (some result) = check (assert_job_data_is_sanitized result)

  unfoldable pub mark_succeeded : ℕ → Option Json → String → Exec (World Db) Job
  unfolding check_result
  mark_succeeded job_id result stage = do
    check_result result
    job ← get_existing_job p job_id
    if same_status job.status succeeded || is_terminal_job_status job.status then pure job else do
      check (assert_valid_job_status_transition job.status succeeded)
      completed_at ← or_now p job.completed_at
      finalize_job_and_notify p job.id (to_succeeded result stage completed_at) hint_succeeded

  unfoldable pub mark_failed : ℕ → String → String → Exec (World Db) Job
  mark_failed job_id error_code sanitized_error = do
    job ← get_existing_job p job_id
    if same_status job.status failed || is_terminal_job_status job.status then pure job else do
      check (assert_valid_job_status_transition job.status failed)
      completed_at ← or_now p job.completed_at
      finalize_job_and_notify p job.id (to_failed error_code sanitized_error completed_at)
          hint_failed

  unfoldable pub mark_handler_failed : ℕ → Exec (World Db) Job
  mark_handler_failed job_id =
      mark_failed job_id handler_failed_error_code handler_failed_error_message
