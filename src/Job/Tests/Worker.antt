-- ===== src/Job/Tests/Worker.antt =====
-- The worker at work on the platform in memory.
use silo_core.Base.{ℕ, String, ◌≡◌, refl, false, Option, none, some, List, [], ◌∷◌}
use silo_core.Base.Int.{int, pos}
use silo_core.Errors.{ok, err, worker_queue, external}
use silo_core.Exec.{Exec, pure, raise}
use silo_core.Exec.Ends.{Ends, returned}
use silo_core.Job.{Job, JobStatus, queued, running, succeeded}
use silo_core.Job.Platform.{World}
use silo_core.Job.Platform.Memory.Laws.{memory-IsPlatform}
use silo_core.Job.Service.Endings.{checkpoint_cancellation, mark_handler_failed, mark_failed}
use silo_core.Job.Service.Attempts.{mark_retry_pending, update_progress, heartbeat}
use silo_core.Job.Lifecycle.{assert_valid_job_progress}
use silo_core.Job.Service.Rows.{row}
use silo_core.Job.Service.Outcomes.{IsOver, Throws}
use silo_core.Job.Commands.{Command, run}
use silo_core.Job.Worker.{
  QueueJob, WorkerRun, JobWorkerHandler, in_queue_payload, parse_queue_job_id, queue_failure_code,
}
use silo_core.Job.Worker.Run.{
  beat, run_job_worker_with_diagnostics, run_job, attempt, work, finish, checkpoint_or_throw,
  on_error, after_failure, report_failure, mark_failure_state, handle_jobs, report,
}
use silo_core.Job.Worker.Ends.{IsLibraryCall, acknowledged_job_ended}
use silo_core.Job.Worker.Validation.{
  ValidationChecksumResult, validation_job_handler, validation_job_handler-IsHonest, validate,
  conclude,
}
use silo_core.Job.Tests.{accepts, site, empty, title_job, service, status_of}

abbrev touch : String → String → Exec (World (List Job)) (Unit {0})
touch _ _ = pure tt

abbrev easy : JobWorkerHandler (List Job)
easy _ w = (ok none, w)

abbrev broken : JobWorkerHandler (List Job)
broken _ = raise (external "boom")

abbrev checksum : String → ℕ → Exec (World (List Job)) ValidationChecksumResult
checksum seed n =
    pure (record { checksum = "abc"; iterations = int (pos n); seed_length = int (pos 22) })

checksum-returns :
    (seed : String) (n : ℕ) (w : World (List Job))
    → Ends (λ _ _. Unit {0}) Throws (checksum seed n w)
checksum-returns seed n w = returned _ w refl tt

touch-IsLibraryCall : IsLibraryCall site touch
touch-IsLibraryCall name id w = returned tt w refl tt

abbrev validation : JobWorkerHandler (List Job)
validation = validation_job_handler site checksum false false

abbrev message : QueueJob
message = record {
  id = "message-1";
  name = "chat.session_title";
  payload_job_id = int (pos 1);
  retry_count = 0;
  retry_limit = 1;
  signal = record { after_handler = false; at_failure = false; at_report = false };
}

-- Two jobs are queued; the message is about the second.
abbrev begin : WorkerRun (List Job)
begin = record {
  world = run site empty (Command.enqueue_job title_job ∷ Command.enqueue_job title_job ∷ []);
  phase = in_queue_payload;
  diagnosed_job = none;
  app_job = none;
}

-- what the tests compute with
worker : Unit {0}
unfolding service run_job_worker_with_diagnostics run_job attempt work finish checkpoint_or_throw
    on_error after_failure report_failure mark_failure_state parse_queue_job_id handle_jobs report
    queue_failure_code validation_job_handler validate conclude update_progress heartbeat beat
    assert_valid_job_progress checkpoint_cancellation mark_handler_failed mark_failed
    mark_retry_pending
worker = tt

abbrev status_after : JobWorkerHandler (List Job) → List QueueJob → ℕ → Option JobStatus
unfolding worker
status_after handler messages id =
    status_of (row site (handle_jobs site touch handler messages begin).1.world id)

easy_succeeds : status_after easy (message ∷ []) 1 ≡ some succeeded
unfolding worker
easy_succeeds = refl

other_waits : status_after easy (message ∷ []) 0 ≡ some queued
unfolding worker
other_waits = refl

-- There are two attempts; after the first the job still runs, after the second it has failed.
broken_retries : status_after broken (message ∷ []) 1 ≡ some running
unfolding worker
broken_retries = refl

broken_reports :
    (handle_jobs site touch broken (message ∷ message ∷ []) begin).0
    ≡ err (worker_queue "JOB_HANDLER_FAILED")
unfolding worker
broken_reports = refl

validation_succeeds : status_after validation (message ∷ []) 1 ≡ some succeeded
unfolding worker
validation_succeeds = refl

acknowledged_job_ended_example :
    Ends
      (λ _ t. IsOver site 1 t.world)
      (λ _ _. Unit {0})
      (run_job_worker_with_diagnostics site touch validation message begin)
unfolding parse_queue_job_id
acknowledged_job_ended_example =
    acknowledged_job_ended site (memory-IsPlatform accepts) touch touch-IsLibraryCall validation
      (validation_job_handler-IsHonest site (memory-IsPlatform accepts) checksum checksum-returns
        false false)
      message begin 1 refl
