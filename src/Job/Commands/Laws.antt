-- ===== src/Job/Commands/Laws.antt =====
-- What no sequence of calls can do to the table of jobs.
use silo_core.Base.{ℕ, ◌≡◌, true, some, List, [], ◌∷◌, subst}
use silo_core.Job.{Job}
use silo_core.Job.Lifecycle.{is_terminal_job_status}
use silo_core.Job.Platform.{Platform, IsPlatform, World}
use silo_core.Job.Service.Rows.{row}
use silo_core.Job.Service.Lives.{Lives}
use silo_core.Job.Service.Lives.Attempts.{
  mark_running-Lives, start_worker_attempt-Lives, mark_retry_pending-Lives, heartbeat-Lives,
  update_progress-Lives,
}
use silo_core.Job.Service.Lives.Endings.{
  request_cancellation-Lives, request_cancellation_in_workspace-Lives, mark_cancelled-Lives,
  checkpoint_cancellation-Lives, mark_handler_failed-Lives, mark_succeeded-Lives, mark_failed-Lives,
}
use silo_core.Job.Service.Lives.Queueing.{enqueue_job-Lives}
use silo_core.Job.Service.Lives.Repairs.{
  reconcile_queued_jobs_without_queue_message-Lives, recover_stale_running_jobs-Lives,
}
use silo_core.Job.History.{Evolves, unchanged}
use silo_core.Job.History.Identity.{IsSuccessor, Evolves-IsSuccessor}
use silo_core.Job.History.Laws.{
  Evolves-trans, Evolves-frozen, Evolves-IsWellFormed, IsWellFormed, OptionHolds,
}
use silo_core.Job.Commands.{
  Command, enqueue_job, reconcile_queued_jobs, recover_stale_running_jobs, mark_running,
  start_worker_attempt, mark_retry_pending, heartbeat, update_progress, request_cancellation,
  mark_cancelled, checkpoint_cancellation, mark_handler_failed, request_cancellation_in_workspace,
  mark_succeeded, mark_failed, execute, run,
}

module _ (p : Platform) (laws : IsPlatform p) where
  execute-Lives : (c : Command) (w : World p.Db) → Lives p w (execute p c w)
  unfolding execute
  execute-Lives (enqueue_job input) w = enqueue_job-Lives p laws input w
  execute-Lives (reconcile_queued_jobs limit) w =
      reconcile_queued_jobs_without_queue_message-Lives p laws limit w
  execute-Lives (recover_stale_running_jobs ms limit now) w =
      recover_stale_running_jobs-Lives p laws ms limit now w
  execute-Lives (mark_running id) w = mark_running-Lives p laws id w
  execute-Lives (start_worker_attempt id) w = start_worker_attempt-Lives p laws id w
  execute-Lives (mark_retry_pending id) w = mark_retry_pending-Lives p laws id w
  execute-Lives (heartbeat id) w = heartbeat-Lives p laws id w
  execute-Lives (update_progress id n stage) w = update_progress-Lives p laws id n stage w
  execute-Lives (request_cancellation id) w = request_cancellation-Lives p laws id w
  execute-Lives (mark_cancelled id) w = mark_cancelled-Lives p laws id w
  execute-Lives (checkpoint_cancellation id) w = checkpoint_cancellation-Lives p laws id w
  execute-Lives (mark_handler_failed id) w = mark_handler_failed-Lives p laws id w
  execute-Lives (request_cancellation_in_workspace id ws) w =
      request_cancellation_in_workspace-Lives p laws id ws w
  execute-Lives (mark_succeeded id result stage) w = mark_succeeded-Lives p laws id result stage w
  execute-Lives (mark_failed id code message) w = mark_failed-Lives p laws id code message w

  -- The service refines the specification of a job's life: whatever calls are made, with whatever
  -- arguments, each row goes only through the changes of `Change`, each with its precondition and the
  -- fields that it sets, and new rows appear only untouched: queued, at 0, not attempted and with
  -- a sanitized payload.
  pub run-Lives :
      (cs : List Command) (w : World p.Db) (k : ℕ) → Evolves (row p w k) (row p (run p w cs) k)
  unfolding run
  run-Lives [] w k = unchanged
  run-Lives (c ∷ cs) w k = Evolves-trans (execute-Lives c w k) (run-Lives cs (execute p c w) k)

  -- A job that has succeeded, failed or been cancelled keeps its whole row, whatever calls follow.
  pub final_job_stays :
      (cs : List Command) (w : World p.Db) (k : ℕ) {j : Job}
      → row p w k ≡ some j
      → is_terminal_job_status j.status ≡ true
      → row p (run p w cs) k ≡ some j
  final_job_stays cs w k {j} found final =
      Evolves-frozen (subst (λ o. Evolves o (row p (run p w cs) k)) found (run-Lives cs w k)) final

  -- If every row is well-formed, every row is after any calls: progress is a percentage, a row has
  -- a completion time exactly if its status is final, a job that succeeded is at 100, a row has an
  -- error code exactly if it failed, and an error text exactly if it failed, one that runs has begun,
  -- and payload and result are sanitized.
  pub run-IsWellFormed :
      (cs : List Command) (w : World p.Db)
      → ((k : ℕ) → OptionHolds IsWellFormed (row p w k))
      → (k : ℕ) → OptionHolds IsWellFormed (row p (run p w cs) k)
  run-IsWellFormed cs w h k = Evolves-IsWellFormed (run-Lives cs w k) (h k)

  -- No call removes a row or hands it to another job: after any calls a row that was there is there,
  -- with the same id, workspace, type, payload, limit of attempts, creator and time of creation, and
  -- with no fewer attempts.
  pub run-IsSuccessor :
      (cs : List Command) (w : World p.Db) (k : ℕ) {j : Job}
      → row p w k ≡ some j
      → IsSuccessor j (row p (run p w cs) k)
  run-IsSuccessor cs w k found =
      Evolves-IsSuccessor (subst (λ o. Evolves o (row p (run p w cs) k)) found (run-Lives cs w k))
