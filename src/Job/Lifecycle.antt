-- ===== src/Job/Lifecycle.antt =====
-- jobLifecycle.ts: which statuses are final, which changes of status are allowed, and the range of
-- `progress`.
pub mod Graph
use silo_core.Base.{Bool, true, not, List, [], ◌∷◌, any, ltb, if◌then◌else◌}
use silo_core.Base.Int.{pos, negsuc, Number, int, non_integer}
use silo_core.Errors.{Result, ok, err, invalid_input}
use silo_core.Job.{
  JobStatus, queued, running, cancel_requested, cancelled, succeeded, failed, same_status,
}

abbrev terminal_job_statuses : List JobStatus
terminal_job_statuses = succeeded ∷ failed ∷ cancelled ∷ []

abbrev pub valid_job_status_transitions : JobStatus → List JobStatus
valid_job_status_transitions queued = running ∷ cancel_requested ∷ failed ∷ []
valid_job_status_transitions running = cancel_requested ∷ succeeded ∷ failed ∷ []
valid_job_status_transitions cancel_requested = cancelled ∷ failed ∷ []
valid_job_status_transitions cancelled = []
valid_job_status_transitions succeeded = []
valid_job_status_transitions failed = []

abbrev includes : List JobStatus → JobStatus → Bool
includes statuses s = any (λ t. same_status t s) statuses

unfoldable pub is_terminal_job_status : JobStatus → Bool
is_terminal_job_status status = includes terminal_job_statuses status

unfoldable pub assert_valid_job_status_transition : JobStatus → JobStatus → Result (Unit {0})
assert_valid_job_status_transition from to =
    if same_status from to
    then ok tt
    else if not (includes (valid_job_status_transitions from) to)
    then err (invalid_input "JOB_STATUS_TRANSITION_INVALID")
    else ok tt

-- `!Number.isInteger(progress) || progress < 0 || progress > 100`
abbrev is_progress_invalid : Number → Bool
is_progress_invalid non_integer = true
is_progress_invalid (int (negsuc _)) = true
is_progress_invalid (int (pos n)) = ltb 100 n

unfoldable pub assert_valid_job_progress : Number → Result (Unit {0})
assert_valid_job_progress progress =
    if is_progress_invalid progress then err (invalid_input "JOB_PROGRESS_INVALID") else ok tt
