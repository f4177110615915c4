-- ===== src/Errors.antt =====
-- backend/src/errors: the exceptions that the services throw, by class and code, and those that
-- code outside the repository throws into them.
use silo_core.Base.{String, ℕ}
use silo_core.Llm.Failure.{LlmProviderError, ProviderFailure}

pub data Error : Type 0 where
  -- InvalidInputError with its code, or with its message where it has no code
  invalid_input : String → Error
  -- NotFoundError with its message
  not_found : String → Error
  -- JobWorkerCancelledError and JobWorkerShutdownError with the id of the job
  worker_cancelled : ℕ → Error
  worker_shutdown : ℕ → Error
  -- JobWorkerQueueError, which a worker throws to the queue, with its code
  worker_queue : String → Error
  -- the error of a classified provider failure, an LlmProviderError built elsewhere, and an
  -- LlmCapabilityError
  llm_failure : ProviderFailure → Error
  llm_error : LlmProviderError → Error
  llm_capability : Error
  -- an exception of a library, named by its code or message
  external : String → Error

pub data Result {ℓ} (A : Type ℓ) : Type ℓ where
  ok : A → Result A
  err : Error → Result A
