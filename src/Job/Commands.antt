-- ===== src/Job/Commands.antt =====
-- Any sequence of calls of the job service, by the API, by the workers and by their repairs, one
-- after the other, each with the result that it has, thrown or not.
pub mod Laws
use silo_core.Base.{ℕ, String, Option, List, [], ◌∷◌}
use silo_core.Base.Int.{Number}
use silo_core.Json.{Json}
use silo_core.Job.Platform.{Platform, World}
use silo_core.Job.Service.Attempts
use silo_core.Job.Service.Endings
use silo_core.Job.Service.Queueing
use silo_core.Job.Service.Queueing.{EnqueueJobInput}
use silo_core.Job.Service.Repairs

-- The methods of the service that write.
pub data Command : Type 0 where
  enqueue_job : EnqueueJobInput → Command
  reconcile_queued_jobs : Option ℕ → Command
  recover_stale_running_jobs : Number → Option ℕ → Option ℕ → Command
  mark_running start_worker_attempt mark_retry_pending heartbeat : ℕ → Command
  update_progress : ℕ → Number → Option String → Command
  request_cancellation mark_cancelled checkpoint_cancellation mark_handler_failed : ℕ → Command
  request_cancellation_in_workspace : ℕ → ℕ → Command
  mark_succeeded : ℕ → Option Json → String → Command
  mark_failed : ℕ → String → String → Command

module _ (p : Platform) where
  -- What a call leaves.
  unfoldable pub execute : Command → World p.Db → World p.Db
  execute (enqueue_job input) w = (Queueing.enqueue_job p input w).1
  execute (reconcile_queued_jobs limit) w =
      (Repairs.reconcile_queued_jobs_without_queue_message p limit w).1
  execute (recover_stale_running_jobs ms limit now) w =
      (Repairs.recover_stale_running_jobs p ms limit now w).1
  execute (mark_running id) w = (Attempts.mark_running p id w).1
  execute (start_worker_attempt id) w = (Attempts.start_worker_attempt p id w).1
  execute (mark_retry_pending id) w = (Attempts.mark_retry_pending p id w).1
  execute (heartbeat id) w = (Attempts.heartbeat p id w).1
  execute (update_progress id n stage) w = (Attempts.update_progress p id n stage w).1
  execute (request_cancellation id) w = (Endings.request_cancellation p id w).1
  execute (mark_cancelled id) w = (Endings.mark_cancelled p id w).1
  execute (checkpoint_cancellation id) w = (Endings.checkpoint_cancellation p id w).1
  execute (mark_handler_failed id) w = (Endings.mark_handler_failed p id w).1
  execute (request_cancellation_in_workspace id ws) w =
      (Endings.request_cancellation_in_workspace p id ws w).1
  execute (mark_succeeded id result stage) w = (Endings.mark_succeeded p id result stage w).1
  execute (mark_failed id code message) w = (Endings.mark_failed p id code message w).1

  unfoldable pub run : World p.Db → List Command → World p.Db
  run w [] = w
  run w (c ∷ cs) = run (execute c w) cs
