-- ===== src/Job.antt =====
-- The job module of the backend (backend/src/modules/job): the row of the table `jobs` that
-- `JobSelectFields` reads (job.model.ts, prisma/schema.prisma), its status and its event hints.
pub mod Notifications
pub mod Events
pub mod Lifecycle
pub mod Privacy
pub mod Platform
pub mod Repository
pub mod Service
pub mod History
pub mod Commands
pub mod Worker
mod Tests
use silo_core.Base.{
  ℕ, String, Bool, true, false, ◌≡◌, refl, ◌↔◌, Option, List, [], ◌∷◌, ◌==◌, arith,
}
use silo_core.Base.Int.{Number}
use silo_core.Json.{Json}

pub data JobStatus : Type 0 where
  queued running cancel_requested cancelled succeeded failed : JobStatus

-- Times are milliseconds since the epoch. The database keeps `progress` as a number.
pub record Job : Type 0 where
  pub id : ℕ
  pub workspace_id : ℕ
  pub job_type : String
  pub status : JobStatus
  pub progress : Number
  pub stage : String
  pub payload : Json
  pub result : Option Json
  pub error_code : Option String
  pub sanitized_error : Option String
  pub attempts : ℕ
  pub max_attempts : ℕ
  pub queue_message_id : Option String
  pub created_by_user_id : ℕ
  pub created_at : ℕ
  pub started_at : Option ℕ
  pub completed_at : Option ℕ
  pub heartbeat_at : Option ℕ
  pub cancel_requested_at : Option ℕ

-- the order of the enum in the schema
abbrev ordinal : JobStatus → ℕ
ordinal queued = 0
ordinal running = 1
ordinal cancel_requested = 2
ordinal cancelled = 3
ordinal succeeded = 4
ordinal failed = 5

-- `===` on statuses
abbrev pub same_status : JobStatus → JobStatus → Bool
same_status a b = ordinal a == ordinal b

pub same_status_iff : (a b : JobStatus) → (same_status a b ≡ true) ↔ (a ≡ b)
same_status_iff a b = ground arith

-- JobNotificationHint (job.notifications.ts)
pub data JobNotificationHint : Type 0 where
  hint_queued hint_enqueue_failed hint_running hint_progress hint_cancellation_requested :
      JobNotificationHint
  hint_cancelled hint_succeeded hint_failed hint_heartbeat : JobNotificationHint
