-- ===== src/Job/History.antt =====
-- The life of a row of `jobs`, written down apart from the code: the changes that are meant to
-- happen to one, each with what must hold before it and the fields that it sets.
pub mod Laws
pub mod Identity
use Prim.Native.Nat.{ℕ, ◌+◌}
use silo_core.Base.{String, ◌≡◌, ◌⊎◌, false, Option, none, some, or_else, str_eq}
use silo_core.Base.Int.{Number, int, pos}
use silo_core.Json.{Json}
use silo_core.Job.{Job, JobStatus, queued, running, cancel_requested, cancelled, succeeded, failed}
use silo_core.Job.Lifecycle.Graph.{IsPercent}
use silo_core.Job.Privacy.Laws.{IsSanitized}

abbrev pub IsWaiting : Job → Type 0
IsWaiting j = (j.status ≡ queued) ⊎ (j.status ≡ running)

abbrev pub IsActive : Job → Type 0
IsActive j = (j.status ≡ running) ⊎ (j.status ≡ cancel_requested)

abbrev pub IsOpen : Job → Type 0
IsOpen j = (j.status ≡ queued) ⊎ (j.status ≡ running) ⊎ (j.status ≡ cancel_requested)

abbrev pub ResultIsSanitized : Option Json → Type 0
ResultIsSanitized none = Unit
ResultIsSanitized (some v) = IsSanitized v

abbrev pub result_or : Option Json → Option Json → Option Json
result_or none kept = kept
result_or (some v) kept = some v

-- One change of a row: when it may happen, and each field that it sets.
pub data Change (j j' : Job) : Type 0 where
  attempted :
      (t h : ℕ)
      → IsWaiting j
      → j' ≡ record j {
        status = running;
        stage = "running";
        attempts = j.attempts + 1;
        started_at = some (or_else j.started_at t);
        heartbeat_at = some h;
      }
      → Change j j'
  progressed :
      (n : Number) → IsActive j → IsPercent n → j' ≡ record j { progress = n } → Change j j'
  progressed_to :
      (n : Number) (stage : String)
      → IsActive j
      → IsPercent n
      → str_eq stage "" ≡ false
      → j' ≡ record j { progress = n; stage = stage }
      → Change j j'
  put_back :
      j.status ≡ running → j' ≡ record j { status = running; stage = "retry_pending" } → Change j j'
  beaten : (h : ℕ) → IsActive j → j' ≡ record j { heartbeat_at = some h } → Change j j'
  asked_to_cancel :
      (t : ℕ)
      → IsWaiting j
      → j' ≡ record j {
        status = cancel_requested;
        stage = "cancellation_requested";
        cancel_requested_at = some t;
      }
      → Change j j'
  stopped :
      (t : ℕ)
      → j.status ≡ cancel_requested
      → j' ≡ record j { status = cancelled; stage = "cancelled"; completed_at = some t }
      → Change j j'
  completed :
      (result : Option Json) (stage : String) (t : ℕ)
      → j.status ≡ running
      → ResultIsSanitized result
      → j' ≡ record j {
        status = succeeded;
        progress = int (pos 100);
        stage = stage;
        result = result_or result j.result;
        completed_at = some t;
      }
      → Change j j'
  broken :
      (code message : String) (t : ℕ)
      → IsOpen j
      → j' ≡ record j {
        status = failed;
        stage = "failed";
        error_code = some code;
        sanitized_error = some message;
        completed_at = some t;
      }
      → Change j j'
  not_sent :
      (t : ℕ)
      → IsWaiting j
      → j' ≡ record j {
        status = failed;
        stage = "enqueue_failed";
        error_code = some "JOB_QUEUE_ENQUEUE_FAILED";
        sanitized_error = some "Job queue enqueue failed.";
        completed_at = some t;
      }
      → Change j j'
  sent :
      (id : String) → j.status ≡ queued → j' ≡ record j { queue_message_id = some id } → Change j j'
  sent_again :
      (id : String)
      → j.status ≡ running
      → j' ≡ record j { status = queued; stage = "stale_requeued"; queue_message_id = some id }
      → Change j j'

-- A row that is new: nothing has happened to it.
pub record IsNew (j : Job) : Type 0 where
  pub waits : j.status ≡ queued
  pub at_zero : j.progress ≡ int (pos 0)
  pub no_result : j.result ≡ none
  pub no_error_code : j.error_code ≡ none
  pub no_error : j.sanitized_error ≡ none
  pub no_attempt : j.attempts ≡ 0
  pub no_message : j.queue_message_id ≡ none
  pub not_started : j.started_at ≡ none
  pub not_completed : j.completed_at ≡ none
  pub no_heartbeat : j.heartbeat_at ≡ none
  pub not_asked_to_cancel : j.cancel_requested_at ≡ none
  pub clean : IsSanitized j.payload

-- What may have become of a row after any number of changes.
pub data Evolves (o : Option Job) : Option Job → Type 0 where
  unchanged : Evolves o o
  created : {j : Job} → Evolves o none → IsNew j → Evolves o (some j)
  changed : {j j' : Job} → Evolves o (some j) → Change j j' → Evolves o (some j')
