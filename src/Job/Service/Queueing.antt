-- ===== src/Job/Service/Queueing.antt =====
-- job.service.ts: handing a job to the queue (`enqueueJob`).
use silo_core.Base.{ℕ, String, Option, none, some, [], ◌∷◌, ◌++◌, str_eq, or_else, if◌then◌else◌}
use silo_core.Json.{Json, object, end}
use silo_core.Errors.{ok}
use silo_core.Exec.{Exec, pure, check, ◌>>=◌, ◌>>◌}
use silo_core.Job.{Job, JobStatus, queued, hint_queued, hint_enqueue_failed}
use silo_core.Job.Privacy.{assert_job_data_is_sanitized}
use silo_core.Job.Platform.{Platform, World, QueueMessage, SendReply, threw, resolved}
use silo_core.Job.Repository.{create_queued_job, update_job}
use silo_core.Job.Service.{now, notify, finalize_job, create_job_queue_send_options}

pub record EnqueueJobInput : Type 0 where
  pub workspace_id : ℕ
  pub created_by_user_id : ℕ
  pub job_type : String
  pub payload : Option Json
  pub max_attempts : Option ℕ
  pub stage : Option String
  pub queue_name : Option String

abbrev pub to_enqueue_failed : ℕ → Job → Job
to_enqueue_failed completed_at job = record job {
  status = JobStatus.failed;
  stage = "enqueue_failed";
  error_code = some "JOB_QUEUE_ENQUEUE_FAILED";
  sanitized_error = some "Job queue enqueue failed.";
  completed_at = some completed_at;
}

abbrev pub with_message : String → Job → Job
with_message id job = record job { queue_message_id = some id }

abbrev pub to_stale_requeued : String → Job → Job
to_stale_requeued id job = record job {
  status = queued;
  stage = "stale_requeued";
  queue_message_id = some id;
}

-- The id of the message, or none if `send` threw or gave nothing that counts as an id.
abbrev pub message_id : SendReply → Option String
message_id threw = none
message_id (resolved none) = none
message_id (resolved (some id)) = if str_eq id "" then none else some id

module _ (p : Platform) where
  open p use {Db, send}

  -- The `try` around `queueTransport.send`, up to its `catch`.
  unfoldable pub try_send : QueueMessage → Exec (World Db) (Option String)
  try_send m w = (ok (message_id (send w.sent m)), record w { sent = w.sent ++ m ∷ [] })

  unfoldable pub message_for : String → Job → QueueMessage
  message_for queue_name job = record {
    queue_name = queue_name;
    job_id = job.id;
    retry_limit = create_job_queue_send_options job.max_attempts;
  }

  unfoldable pub mark_enqueue_failed : ℕ → Exec (World Db) Job
  mark_enqueue_failed job_id = do
    completed_at ← now p
    finalize_job p job_id (to_enqueue_failed completed_at)

  -- the body of the `catch`, which the reconciliation shares
  unfoldable pub fail_enqueue : ℕ → Exec (World Db) Job
  fail_enqueue job_id = do
    failed_job ← mark_enqueue_failed job_id
    notify p failed_job.id hint_enqueue_failed
    pure failed_job

  abbrev pub enqueued : Job → Option String → Exec (World Db) Job
  enqueued job none = fail_enqueue job.id
  enqueued job (some id) = update_job p job.id (with_message id)

  unfoldable pub enqueue_job : EnqueueJobInput → Exec (World Db) Job
  unfolding fail_enqueue
  enqueue_job input = do
    let payload = or_else input.payload (object end)
    let max_attempts = or_else input.max_attempts 1
    check (assert_job_data_is_sanitized payload)
    job ← create_queued_job p (record {
      workspace_id = input.workspace_id;
      created_by_user_id = input.created_by_user_id;
      job_type = input.job_type;
      payload = payload;
      max_attempts = max_attempts;
      stage = or_else input.stage "queued";
    })
    notify p job.id hint_queued
    reply ← try_send (record {
      queue_name = or_else input.queue_name input.job_type;
      job_id = job.id;
      retry_limit = create_job_queue_send_options max_attempts;
    })
    enqueued job reply
