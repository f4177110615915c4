-- ===== src/Job/Tests.antt =====
-- The job service at work on the platform in memory: tests, and the theorems at concrete inputs.
mod Worker
use silo_core.Base.{
  ◌≡◌, refl, ◌↔◌, ◌⊎◌, ◌≤◌, true, false, Option, none, some, List, [], ◌∷◌, arith, length,
}
use silo_core.Base.Int.{int, pos}
use silo_core.Errors.{ok, err, invalid_input}
use silo_core.Json.{Json, object, field, end, array, cons, nil, text, number}
use silo_core.Job.{Job, JobStatus, queued, running, cancel_requested, cancelled, succeeded, failed}
use silo_core.Job.Lifecycle.{
  assert_valid_job_status_transition, is_terminal_job_status, assert_valid_job_progress,
}
use silo_core.Job.Lifecycle.Graph.{
  assert_valid_job_status_transition_iff, ◌⟶◌, is_terminal_job_status_iff, life_bounded, IsPercent,
  assert_valid_job_progress_iff,
}
use silo_core.Job.Privacy.{
  inspect_job_data, assert_job_data_is_sanitized, is_secret_key, is_private_content_key,
}
use silo_core.Job.Privacy.Laws.{IsSanitized, assert_job_data_is_sanitized_iff}
use silo_core.Job.Platform.{Platform, World, QueueMessage, SendReply, resolved, threw}
use silo_core.Job.Platform.Memory.{memory}
use silo_core.Job.Platform.Memory.Laws.{memory-IsPlatform}
use silo_core.Job.Repository.{find_by_id, update_job, create_queued_job}
use silo_core.Job.Service.{
  get_existing_job, update_job_and_notify, finalize_job_and_notify, finalize_job,
  record_job_metric_safely, now, or_now, notify, create_job_queue_send_options,
}
use silo_core.Job.Service.Queueing.{EnqueueJobInput, enqueue_job, try_send, mark_enqueue_failed}
use silo_core.Job.Service.Attempts.{start_worker_attempt, update_progress, set_running}
use silo_core.Job.Service.Endings.{mark_succeeded, request_cancellation, cancel, check_result}
use silo_core.Job.Service.Rows.{row}
use silo_core.Job.Repository.{is_queued_without_message}
use silo_core.Job.Service.Repairs.{
  JobReconciliationResult, StaleRunningJobRecoveryResult, recover_stale_running_jobs,
  reconcile_queued_jobs_without_queue_message,
}
use silo_core.Job.Service.Lives.Loops.{
  Repaired, reconciled_count, reconciled_kept, recovered_count, recovered_kept, is_running,
}
use silo_core.Job.Service.Lives.Repairs.{reconciliation_repairs, recovery_repairs}
use silo_core.Job.History.{Evolves}
use silo_core.Job.History.Laws.{IsWellFormed, OptionHolds}
use silo_core.Job.Commands.{Command, execute, run}
use silo_core.Job.History.Identity.{IsSuccessor}
use silo_core.Job.Commands.Laws.{run-Lives, final_job_stays, run-IsWellFormed, run-IsSuccessor}

abbrev pub accepts : List QueueMessage → QueueMessage → SendReply
accepts _ _ = resolved (some "message-1")

abbrev refuses : List QueueMessage → QueueMessage → SendReply
refuses _ _ = threw

abbrev pub site : Platform
site = memory accepts

abbrev broken_site : Platform
broken_site = memory refuses

abbrev pub empty : World (List Job)
empty = record { db = []; ticks = 0; notices = []; sent = [] }

abbrev pub title_job : EnqueueJobInput
title_job = record {
  workspace_id = 3;
  created_by_user_id = 4;
  job_type = "chat.session_title";
  payload = some (object (field "sessionId" (number (int (pos 9))) end));
  max_attempts = some 2;
  stage = none;
  queue_name = none;
}

abbrev script : List Command
script =
    Command.enqueue_job title_job
    ∷ Command.start_worker_attempt 0
    ∷ Command.update_progress 0 (int (pos 40)) none
    ∷ Command.mark_succeeded 0 none "completed"
    ∷ Command.request_cancellation 0
    ∷ []

-- what the tests compute with
pub service : Unit {0}
unfolding run execute enqueue_job start_worker_attempt update_progress mark_succeeded
    request_cancellation get_existing_job find_by_id update_job update_job_and_notify
    finalize_job_and_notify finalize_job record_job_metric_safely now or_now notify
    create_queued_job try_send set_running cancel check_result assert_job_data_is_sanitized
    is_secret_key is_private_content_key is_terminal_job_status assert_valid_job_status_transition
    assert_valid_job_progress inspect_job_data mark_enqueue_failed create_job_queue_send_options
service = tt

abbrev pub status_of : Option Job → Option JobStatus
status_of none = none
status_of (some j) = some j.status

script_ends : status_of (row site (run site empty script) 0) ≡ some succeeded
unfolding service
script_ends = refl

-- The names of fields that the patterns catch and let pass.
key_tests :
    (is_secret_key "X-API_Key" ≡ true)
    × (is_secret_key "userPassword2" ≡ true)
    × (is_secret_key "sessionId" ≡ false)
    × (is_private_content_key "Content" ≡ true)
    × (is_private_content_key "contents" ≡ false)
unfolding is_secret_key is_private_content_key
key_tests = (refl, refl, refl, refl, refl)

nested_secret :
    assert_job_data_is_sanitized
      (array (cons (object (field "a" (object (field "apikey" (text "k") end)) end)) nil))
    ≡ err (invalid_input "JOB_DATA_UNSANITIZED")
unfolding service
nested_secret = refl

assert_valid_job_status_transition_iff_example :
    (assert_valid_job_status_transition queued running ≡ ok tt)
    ↔ ((queued ≡ running) ⊎ (queued ⟶ running))
assert_valid_job_status_transition_iff_example =
    assert_valid_job_status_transition_iff queued running

is_terminal_job_status_iff_example :
    (is_terminal_job_status cancelled ≡ true) ↔ ((t : JobStatus) → ¬ (cancelled ⟶ t))
is_terminal_job_status_iff_example = is_terminal_job_status_iff cancelled

life_bounded_example : length (running ∷ cancel_requested ∷ cancelled ∷ []) ≤ 3
unfolding assert_valid_job_status_transition
life_bounded_example =
    life_bounded queued (running ∷ cancel_requested ∷ cancelled ∷ [])
      (refl, (λ e. cc e), (refl, (λ e. cc e), (refl, (λ e. cc e), tt)))

assert_valid_job_progress_iff_example :
    (assert_valid_job_progress (int (pos 100)) ≡ ok tt) ↔ IsPercent (int (pos 100))
assert_valid_job_progress_iff_example = assert_valid_job_progress_iff (int (pos 100))

abbrev payload : Json
payload = object (field "sessionId" (number (int (pos 9))) end)

assert_job_data_is_sanitized_iff_example :
    (assert_job_data_is_sanitized payload ≡ ok tt) ↔ IsSanitized payload
assert_job_data_is_sanitized_iff_example = assert_job_data_is_sanitized_iff payload

run-Lives_example : Evolves (row site empty 0) (row site (run site empty script) 0)
run-Lives_example = run-Lives site (memory-IsPlatform accepts) script empty 0

-- A job that ended before the calls.
abbrev finished : Job
finished = record {
  id = 0;
  workspace_id = 3;
  job_type = "chat.session_title";
  status = failed;
  progress = int (pos 40);
  stage = "failed";
  payload = payload;
  result = none;
  error_code = some "JOB_HANDLER_FAILED";
  sanitized_error = some "Job handler failed.";
  attempts = 1;
  max_attempts = 1;
  queue_message_id = some "message-1";
  created_by_user_id = 4;
  created_at = 7;
  started_at = some 8;
  completed_at = some 9;
  heartbeat_at = some 8;
  cancel_requested_at = none;
}

abbrev after_failure : World (List Job)
after_failure = record { db = finished ∷ []; ticks = 0; notices = []; sent = [] }

final_job_stays_example : row site (run site after_failure script) 0 ≡ some finished
unfolding is_terminal_job_status
final_job_stays_example =
    final_job_stays site (memory-IsPlatform accepts) script after_failure 0 refl refl

run-IsWellFormed_example : OptionHolds IsWellFormed (row site (run site empty script) 0)
run-IsWellFormed_example =
    run-IsWellFormed site (memory-IsPlatform accepts) script empty (λ k. tt) 0

-- Two jobs that never reached the queue, and one that did.
abbrev stuck : Job
stuck = record finished {
  status = queued;
  error_code = none;
  sanitized_error = none;
  completed_at = none;
  queue_message_id = none;
}

abbrev backlog : World (List Job)
backlog = record {
  db = stuck ∷ finished ∷ record stuck { queue_message_id = some "message-0" } ∷ stuck ∷ [];
  ticks = 0;
  notices = [];
  sent = [];
}

abbrev unsent : List Job
unsent = stuck ∷ record stuck { id = 3 } ∷ []

abbrev reconciliation_start : JobReconciliationResult
reconciliation_start = record { skipped = false; scanned = 2; reenqueued = 0; failed = 0 }

reconciliation_repairs_example :
    Repaired broken_site reconciled_count reconciled_kept is_queued_without_message backlog
      reconciliation_start unsent
      (reconcile_queued_jobs_without_queue_message broken_site none backlog)
reconciliation_repairs_example =
    reconciliation_repairs broken_site (memory-IsPlatform refuses) none backlog refl

-- A worker that went silent at 5, seen at 20, with an attempt left.
abbrev silent : Job
silent = record stuck { status = running; attempts = 1; max_attempts = 2; heartbeat_at = some 5 }

abbrev crashed : World (List Job)
crashed = record { db = silent ∷ finished ∷ []; ticks = 0; notices = []; sent = [] }

abbrev recovery_start : StaleRunningJobRecoveryResult
recovery_start = record { skipped = false; scanned = 1; requeued = 0; failed = 0 }

recovery_repairs_example :
    Repaired site recovered_count recovered_kept is_running crashed recovery_start
      (silent ∷ [])
      (recover_stale_running_jobs site (int (pos 10)) none (some 20) crashed)
recovery_repairs_example =
    recovery_repairs site (memory-IsPlatform accepts) 10 none 20 crashed (omega arith) refl

run-IsSuccessor_example : IsSuccessor silent (row site (run site crashed script) 0)
run-IsSuccessor_example = run-IsSuccessor site (memory-IsPlatform accepts) script crashed 0 refl
