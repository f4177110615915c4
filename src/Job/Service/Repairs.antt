-- ===== src/Job/Service/Repairs.antt =====
-- job.service.ts: the two repairs that a worker makes, of jobs that never reached the queue
-- (`reconcileQueuedJobsWithoutQueueMessage`) and of jobs whose worker went silent
-- (`recoverStaleRunningJobs`). Each loop carries the counters of its result.
use silo_core.Base.{
  ℕ, String, ◌+◌, ◌-◌, Bool, true, false, Option, none, some, List, [], ◌∷◌, leb, length, or_else,
  if◌then◌else◌,
}
use silo_core.Base.Int.{Number}
use silo_core.Exec.{Exec, pure, ◌>>=◌, ◌>>◌}
use silo_core.Job.{Job, hint_queued, hint_enqueue_failed, hint_failed}
use silo_core.Job.Platform.{Platform, World}
use silo_core.Job.Repository.{
  update_job, find_queued_jobs_without_queue_message, find_stale_running_jobs,
  run_with_job_queue_reconciliation_lock, run_with_stale_running_job_recovery_lock,
}
use silo_core.Job.Service.{
  or_now, update_job_and_notify, finalize_job_and_notify, assert_positive_integer,
}
use silo_core.Job.Service.Endings.{to_failed}
use silo_core.Job.Service.Queueing.{
  try_send, message_for, fail_enqueue, with_message, to_enqueue_failed, to_stale_requeued,
}

pub record JobReconciliationResult : Type 0 where
  pub skipped : Bool
  pub scanned : ℕ
  pub reenqueued : ℕ
  pub failed : ℕ

pub record StaleRunningJobRecoveryResult : Type 0 where
  pub skipped : Bool
  pub scanned : ℕ
  pub requeued : ℕ
  pub failed : ℕ

abbrev pub default_reconciliation_limit : ℕ
default_reconciliation_limit = 100

abbrev pub stale_worker_error_code : String
stale_worker_error_code = "JOB_WORKER_STALE"

abbrev pub stale_worker_error_message : String
stale_worker_error_message = "Job worker became stale."

module _ (p : Platform) where
  open p use {Db}

  -- One round of the loop, once the queue has answered.
  unfoldable pub reconcile_job :
      Job → JobReconciliationResult → Option String → Exec (World Db) JobReconciliationResult
  unfolding fail_enqueue
  reconcile_job job result none = do
    fail_enqueue p job.id
    pure (record result { failed = result.failed + 1 })
  reconcile_job job result (some id) = do
    update_job p job.id (with_message id)
    pure (record result { reenqueued = result.reenqueued + 1 })

  unfoldable pub reconcile_jobs :
      List Job → JobReconciliationResult → Exec (World Db) JobReconciliationResult
  reconcile_jobs [] result = pure result
  reconcile_jobs (job ∷ jobs) result = do
    reply ← try_send p (message_for p job.job_type job)
    result' ← reconcile_job job result reply
    reconcile_jobs jobs result'

  abbrev pub reconcile_locked : ℕ → Bool → Exec (World Db) JobReconciliationResult
  reconcile_locked limit false =
      pure (record { skipped = true; scanned = 0; reenqueued = 0; failed = 0 })
  reconcile_locked limit true = do
    jobs ← find_queued_jobs_without_queue_message p limit
    reconcile_jobs jobs
        (record { skipped = false; scanned = length jobs; reenqueued = 0; failed = 0 })

  unfoldable pub reconcile_queued_jobs_without_queue_message :
      Option ℕ → Exec (World Db) JobReconciliationResult
  unfolding reconcile_jobs reconcile_job
  reconcile_queued_jobs_without_queue_message limit =
      run_with_job_queue_reconciliation_lock p
        (reconcile_locked (or_else limit default_reconciliation_limit))

  -- What becomes of a stale job that has attempts left, once the queue has answered.
  unfoldable pub requeue_job :
      ℕ
      → Job
      → StaleRunningJobRecoveryResult
      → Option String
      → Exec (World Db) StaleRunningJobRecoveryResult
  requeue_job now job result none = do
    finalize_job_and_notify p job.id (to_enqueue_failed now) hint_enqueue_failed
    pure (record result { failed = result.failed + 1 })
  requeue_job now job result (some id) = do
    update_job_and_notify p job.id (to_stale_requeued id) hint_queued
    pure (record result { requeued = result.requeued + 1 })

  -- A stale job with no attempt left.
  unfoldable pub give_up :
      ℕ → Job → StaleRunningJobRecoveryResult → Exec (World Db) StaleRunningJobRecoveryResult
  give_up now job result = do
    let completed_at = or_else job.completed_at now
    finalize_job_and_notify p job.id
        (to_failed stale_worker_error_code stale_worker_error_message completed_at) hint_failed
    pure (record result { failed = result.failed + 1 })

  unfoldable pub send_again :
      ℕ → Job → StaleRunningJobRecoveryResult → Exec (World Db) StaleRunningJobRecoveryResult
  unfolding requeue_job
  send_again now job result = do
    reply ← try_send p (message_for p job.job_type job)
    requeue_job now job result reply

  unfoldable pub recover_job :
      ℕ → Job → StaleRunningJobRecoveryResult → Exec (World Db) StaleRunningJobRecoveryResult
  unfolding give_up send_again
  recover_job now job result =
      if leb job.max_attempts job.attempts
      then give_up now job result
      else send_again now job result

  unfoldable pub recover_jobs :
      ℕ → List Job → StaleRunningJobRecoveryResult → Exec (World Db) StaleRunningJobRecoveryResult
  recover_jobs now [] result = pure result
  recover_jobs now (job ∷ jobs) result = do
    result' ← recover_job now job result
    recover_jobs now jobs result'

  abbrev pub recover_locked : ℕ → ℕ → ℕ → Bool → Exec (World Db) StaleRunningJobRecoveryResult
  recover_locked now stale_job_ms limit false =
      pure (record { skipped = true; scanned = 0; requeued = 0; failed = 0 })
  recover_locked now stale_job_ms limit true = do
    jobs ← find_stale_running_jobs p (now - stale_job_ms) limit
    recover_jobs now jobs
        (record { skipped = false; scanned = length jobs; requeued = 0; failed = 0 })

  -- `now - staleJobMs` stops at 0, where it selects no row, as a negative time would.
  unfoldable pub recover_stale_running_jobs :
      Number → Option ℕ → Option ℕ → Exec (World Db) StaleRunningJobRecoveryResult
  unfolding recover_jobs recover_job
  recover_stale_running_jobs stale_job_ms limit given_now = do
    ms ← λ w. (assert_positive_integer stale_job_ms, w)
    now ← or_now p given_now
    run_with_stale_running_job_recovery_lock p
        (recover_locked now ms (or_else limit default_reconciliation_limit))
