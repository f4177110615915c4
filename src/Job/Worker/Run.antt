-- ===== src/Job/Worker/Run.antt =====
-- job.worker.ts: the run of one message, and of a batch of them.
use silo_core.Base.{ℕ, String, Bool, ◌||◌, Option, none, some, List, [], ◌∷◌, if◌then◌else◌}
use silo_core.Json.{Json}
use silo_core.Errors.{Error, ok, err, worker_cancelled, worker_shutdown, worker_queue}
use silo_core.Exec.{Exec, pure, raise, after, caught, ◌>>=◌, ◌>>◌}
use silo_core.Job.{Job, cancelled, same_status}
use silo_core.Job.Platform.{Platform, World}
use silo_core.Job.Service.Attempts
use silo_core.Job.Service.Attempts.{start_worker_attempt, mark_retry_pending}
use silo_core.Job.Service.Endings.{checkpoint_cancellation, mark_succeeded, mark_handler_failed}
use silo_core.Job.Worker.{
  QueueJob, JobWorkerFailurePhase, in_queue_payload, in_checkpoint_cancellation, in_start_attempt,
  in_handler, in_mark_succeeded, in_mark_failure_state, WorkerRun, JobWorkerHandler,
  parse_queue_job_id, is_final_attempt, is_terminal_worker_state, is_cancellation, is_shutdown,
  queue_failure_code, lift, set_phase, set_app_job,
}

module _ (p : Platform) (touch_job : String → String → Exec (World p.Db) (Unit {0})) where
  open p use {Db}

  unfoldable pub beat : QueueJob → ℕ → Bool → Exec (World Db) (Unit {0})
  beat queue_job job_id aborted =
      if aborted
      then raise (worker_shutdown job_id)
      else do Attempts.heartbeat p job_id; touch_job queue_job.name queue_job.id

  unfoldable pub checkpoint_or_throw : ℕ → Exec (World Db) (Unit {0})
  checkpoint_or_throw job_id = do
    current_job ← checkpoint_cancellation p job_id
    if same_status current_job.status cancelled then raise (worker_cancelled job_id) else pure tt

  module _ (handler : JobWorkerHandler Db) (queue_job : QueueJob) where
    -- From the result of the handler to the end of the `try`.
    unfoldable pub finish : ℕ → Option Json → Exec (WorkerRun Db) (Unit {0})
    finish job_id result = do
      set_phase in_checkpoint_cancellation
      lift (checkpoint_or_throw job_id)
      set_phase in_mark_succeeded
      lift (mark_succeeded p job_id result "completed")
      pure tt

    -- From the start of the heartbeats on.
    unfoldable pub work : ℕ → Job → Exec (WorkerRun Db) (Unit {0})
    work job_id app_job = do
      set_phase in_checkpoint_cancellation
      lift (checkpoint_or_throw job_id)
      set_phase in_handler
      result ← lift (
          handler (record {
            job = app_job;
            payload = app_job.payload;
            heartbeat = beat queue_job job_id;
            checkpoint = checkpoint_or_throw job_id;
          }))
      if queue_job.signal.after_handler
          then raise (worker_shutdown job_id)
          else finish job_id result

    -- The body of the `try`.
    unfoldable pub attempt : ℕ → Exec (WorkerRun Db) (Unit {0})
    attempt job_id = do
      set_phase in_checkpoint_cancellation
      lift (checkpoint_or_throw job_id)
      set_phase in_start_attempt
      app_job ← lift (start_worker_attempt p job_id)
      set_app_job app_job
      if same_status app_job.status cancelled
          then pure tt
          else if is_terminal_worker_state app_job.status
          then pure tt
          else work job_id app_job

    unfoldable pub mark_failure_state : ℕ → Exec (WorkerRun Db) Job
    mark_failure_state job_id s =
        if is_final_attempt s.app_job queue_job
        then lift (mark_handler_failed p job_id) s
        else lift (mark_retry_pending p job_id) s

    unfoldable pub report_failure :
        ℕ → Error → JobWorkerFailurePhase → Exec (WorkerRun Db) (Unit {0})
    report_failure job_id error failed_phase = do
      set_phase in_mark_failure_state
      mark_failure_state job_id
      set_phase failed_phase
      raise error

    unfoldable pub after_failure :
        ℕ → Error → JobWorkerFailurePhase → Exec (WorkerRun Db) (Unit {0})
    after_failure job_id error failed_phase = do
      set_phase in_checkpoint_cancellation
      cancellation_state ← lift (checkpoint_cancellation p job_id)
      if same_status cancellation_state.status cancelled
          then pure tt
          else report_failure job_id error failed_phase

    -- The `catch`.
    unfoldable pub on_error : ℕ → Error → Exec (WorkerRun Db) (Unit {0})
    on_error job_id error s =
        (if is_cancellation error
            then pure tt
            else if queue_job.signal.at_failure || is_shutdown error
            then raise error
            else after_failure job_id error s.phase)
          s

    unfoldable pub run_job : ℕ → Exec (WorkerRun Db) (Unit {0})
    run_job job_id s =
        caught (attempt job_id (record s { diagnosed_job = some job_id; app_job = none }))
          (on_error job_id)

    unfoldable pub run_job_worker_with_diagnostics : Exec (WorkerRun Db) (Unit {0})
    run_job_worker_with_diagnostics s =
        after (parse_queue_job_id queue_job.payload_job_id, s) run_job

  unfoldable pub report : QueueJob → Error → Exec (WorkerRun Db) (Unit {0})
  report active_job error s =
      (err (worker_queue (queue_failure_code error s.phase active_job.signal.at_report)), s)

  -- The handler of a batch of messages that `createJobWorkerHandler` returns.
  unfoldable pub handle_jobs : JobWorkerHandler Db → List QueueJob → Exec (WorkerRun Db) (Unit {0})
  handle_jobs handler [] s = (ok tt, s)
  handle_jobs handler (job ∷ jobs) s =
      after
        (caught
          (run_job_worker_with_diagnostics handler job
            (record s { phase = in_queue_payload; diagnosed_job = none }))
          (report job))
        (λ _. handle_jobs handler jobs)
