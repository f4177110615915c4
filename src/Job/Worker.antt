-- ===== src/Job/Worker.antt =====
-- job.worker.ts: a worker takes messages from the queue, runs the handler for each job and reports.
-- The handler is a parameter, as is the touch of a message in pg-boss. The heartbeats that a timer
-- sends while the handler runs are part of what the handler does.
pub mod Run
pub mod Ends
pub mod Validation
use silo_core.Base.{
  ℕ, String, Bool, true, false, not, ◌||◌, Option, none, some, List, [], ◌∷◌, leb, if◌then◌else◌,
}
use silo_core.Base.Int.{Number, int, pos}
use silo_core.Json.{Json}
use silo_core.Errors.{
  Error, Result, ok, err, invalid_input, worker_cancelled, worker_shutdown, worker_queue,
}
use silo_core.Exec.{Exec, pure, raise, after, caught, ◌>>=◌, ◌>>◌}
use silo_core.Job.{Job, JobStatus, cancelled, succeeded, failed, same_status}
use silo_core.Job.Platform.{Platform, World}
use silo_core.Job.Service.Attempts
use silo_core.Job.Service.Attempts.{start_worker_attempt, mark_retry_pending}
use silo_core.Job.Service.Endings.{checkpoint_cancellation, mark_succeeded, mark_handler_failed}

-- What `signal.aborted` reads: after the handler, once the work has failed, and for the report.
pub record AbortSignal : Type 0 where
  pub after_handler : Bool
  pub at_failure : Bool
  pub at_report : Bool

-- A message with its metadata; a payload without `jobId` counts as a number that is no integer.
pub record QueueJob : Type 0 where
  pub id : String
  pub name : String
  pub payload_job_id : Number
  pub retry_count : ℕ
  pub retry_limit : ℕ
  pub signal : AbortSignal

pub data JobWorkerFailurePhase : Type 0 where
  in_queue_payload in_checkpoint_cancellation in_start_attempt in_handler : JobWorkerFailurePhase
  in_mark_succeeded in_mark_failure_state : JobWorkerFailurePhase

-- The world with the variables of a run: the diagnostic's phase and job, and `appJob`.
pub record WorkerRun (Db : Type 0) : Type 0 where
  pub world : World Db
  pub phase : JobWorkerFailurePhase
  pub diagnosed_job : Option ℕ
  pub app_job : Option Job

-- The handler's `heartbeat` is given what the signal reads.
pub record JobWorkerContext (Db : Type 0) : Type 0 where
  pub job : Job
  pub payload : Json
  pub heartbeat : Bool → Exec (World Db) (Unit {0})
  pub checkpoint : Exec (World Db) (Unit {0})

abbrev pub JobWorkerHandler : Type 0 → Type 0
JobWorkerHandler Db = JobWorkerContext Db → Exec (World Db) (Option Json)

-- Number.MAX_SAFE_INTEGER
abbrev max_safe_integer : ℕ
max_safe_integer = 9007199254740991

unfoldable pub parse_queue_job_id : Number → Result ℕ
parse_queue_job_id (int (pos n)) =
    if not (leb n max_safe_integer) || leb n 0
    then err (invalid_input "JOB_QUEUE_PAYLOAD_INVALID")
    else ok n
parse_queue_job_id _ = err (invalid_input "JOB_QUEUE_PAYLOAD_INVALID")

abbrev pub is_final_attempt : Option Job → QueueJob → Bool
is_final_attempt (some app_job) queue_job = leb app_job.max_attempts app_job.attempts
is_final_attempt none queue_job = leb queue_job.retry_limit queue_job.retry_count

abbrev pub is_terminal_worker_state : JobStatus → Bool
is_terminal_worker_state status =
    same_status status succeeded || (same_status status failed || same_status status cancelled)

abbrev pub is_cancellation : Error → Bool
is_cancellation (worker_cancelled _) = true
is_cancellation _ = false

abbrev pub is_shutdown : Error → Bool
is_shutdown (worker_shutdown _) = true
is_shutdown _ = false

abbrev failure_code_of_phase : JobWorkerFailurePhase → String
failure_code_of_phase in_queue_payload = "JOB_QUEUE_PAYLOAD_INVALID"
failure_code_of_phase in_handler = "JOB_HANDLER_FAILED"
failure_code_of_phase _ = "JOB_WORKER_STATE_FAILED"

unfoldable pub queue_failure_code : Error → JobWorkerFailurePhase → Bool → String
queue_failure_code error phase signal_aborted =
    if signal_aborted || is_shutdown error
    then "JOB_WORKER_INTERRUPTED"
    else failure_code_of_phase phase

module _ {Db : Type 0} where
  abbrev pub lifted : {A : Type 0} → WorkerRun Db → Result A × World Db → Result A × WorkerRun Db
  lifted s (r, w) = (r, record s { world = w })

  abbrev pub lift : {A : Type 0} → Exec (World Db) A → Exec (WorkerRun Db) A
  lift m s = lifted s (m s.world)

  abbrev pub set_phase : JobWorkerFailurePhase → Exec (WorkerRun Db) (Unit {0})
  set_phase phase s = (ok tt, record s { phase = phase })

  abbrev pub set_app_job : Job → Exec (WorkerRun Db) (Unit {0})
  set_app_job job s = (ok tt, record s { app_job = some job })
