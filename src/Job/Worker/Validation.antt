-- ===== src/Job/Worker/Validation.antt =====
-- validationJob.ts (backend/src/modules/worker): the handler of validation jobs. The pool of tasks
-- that it is created with is a parameter, which knows the signal, and so is what the signal reads
-- at its two heartbeats.
use silo_core.Base.{ℕ, String, Bool, true, false, refl, Option, none, some, str_eq, if◌then◌else◌}
use silo_core.Base.Int.{Number, int, pos}
use silo_core.Json.{Json, null, bool, text, array, object, Fields, end, field, number}
use silo_core.Errors.{Result, ok, err, invalid_input, external}
use silo_core.Exec.{Exec, pure, raise, ◌>>=◌, ◌>>◌}
use silo_core.Exec.Ends.{Ends, returned, thrown, Ends-after, Ends-weaken}
use silo_core.Job.Platform.{Platform, IsPlatform, World}
use silo_core.Job.Service.Attempts.{update_progress}
use silo_core.Job.Service.Outcomes.{Throws, update_progress-Ends}
use silo_core.Job.Worker.{JobWorkerContext, JobWorkerHandler}
use silo_core.Job.Worker.Ends.{IsHonest, CancelsEnded, other_error}

pub data ValidationJobMode : Type 0 where
  to_succeed to_fail : ValidationJobMode

pub record ValidationChecksumResult : Type 0 where
  pub checksum : String
  pub iterations : Number
  pub seed_length : Number

abbrev validation_job_checksum_seed : String
validation_job_checksum_seed = "silocore-validation-v1"

abbrev validation_job_checksum_iterations : ℕ
validation_job_checksum_iterations = 25000

abbrev mode_refused : Result ValidationJobMode
mode_refused = err (invalid_input "VALIDATION_JOB_MODE_INVALID")

-- A field that is not there counts as `undefined`.
abbrev pub parse_validation_job_mode : Option Json → Result ValidationJobMode
parse_validation_job_mode none = ok to_succeed
parse_validation_job_mode (some null) = ok to_succeed
parse_validation_job_mode (some (text mode)) =
    if str_eq mode "success"
    then ok to_succeed
    else if str_eq mode "fail"
    then ok to_fail
    else mode_refused
parse_validation_job_mode (some _) = mode_refused

abbrev mode_field : Fields → Option Json
mode_field end = none
mode_field (field name value rest) =
    let later = mode_field rest in if str_eq name "mode" then some value else later

abbrev pub parse_payload_mode : Json → Result ValidationJobMode
parse_payload_mode (object fields) = parse_validation_job_mode (mode_field fields)
parse_payload_mode _ = ok to_succeed

abbrev to_validation_result : ValidationChecksumResult → Json
to_validation_result checksum = object (
    field "mode" (text "success") (
      field "checksum" (text checksum.checksum) (
        field "iterations" (number checksum.iterations)
          (field "seedLength" (number checksum.seed_length) end))))

module _ (p : Platform)
    (run_checksum : String → ℕ → Exec (World p.Db) ValidationChecksumResult) where
  open p use {Db}

  -- Everything after the payload is read.
  unfoldable pub conclude :
      ValidationJobMode → ValidationChecksumResult → Exec (World Db) (Option Json)
  conclude to_fail checksum = raise (external "Deterministic validation job forced failure.")
  conclude to_succeed checksum = pure (some (to_validation_result checksum))

  unfoldable pub validate :
      Bool → Bool → JobWorkerContext Db → ValidationJobMode → Exec (World Db) (Option Json)
  unfolding conclude
  validate aborted_first aborted_second c mode = do
    c.checkpoint
    update_progress p c.job.id (int (pos 25)) (some "validation_preparing")
    c.heartbeat aborted_first
    checksum ← run_checksum validation_job_checksum_seed validation_job_checksum_iterations
    c.checkpoint
    update_progress p c.job.id (int (pos 75)) (some "validation_checksum_complete")
    c.heartbeat aborted_second
    conclude mode checksum

  unfoldable pub validation_job_handler : Bool → Bool → JobWorkerHandler Db
  unfolding validate
  validation_job_handler aborted_first aborted_second c = do
    mode ← (λ w. (parse_payload_mode c.payload, w))
    validate aborted_first aborted_second c mode

module _ {S : Type 0} where
  text-Throws :
      (b c : Bool) (s : S)
      → Ends
          (λ _ _. Unit {0})
          Throws
          ((if b then ok to_succeed else if c then ok to_fail else mode_refused), s)
  text-Throws true c s = returned _ s refl tt
  text-Throws false true s = returned _ s refl tt
  text-Throws false false s = thrown _ s refl tt

  parsed-Throws :
      (o : Option Json) (s : S) → Ends (λ _ _. Unit {0}) Throws (parse_validation_job_mode o, s)
  parsed-Throws none s = returned _ s refl tt
  parsed-Throws (some null) s = returned _ s refl tt
  parsed-Throws (some (text mode)) s = text-Throws _ _ s
  parsed-Throws (some (bool b)) s = thrown _ s refl tt
  parsed-Throws (some (number n)) s = thrown _ s refl tt
  parsed-Throws (some (array items)) s = thrown _ s refl tt
  parsed-Throws (some (object fields)) s = thrown _ s refl tt

  mode-Throws :
      (payload : Json) (s : S) → Ends (λ _ _. Unit {0}) Throws (parse_payload_mode payload, s)
  mode-Throws null s = returned _ s refl tt
  mode-Throws (bool b) s = returned _ s refl tt
  mode-Throws (number n) s = returned _ s refl tt
  mode-Throws (text t) s = returned _ s refl tt
  mode-Throws (array items) s = returned _ s refl tt
  mode-Throws (object fields) s = parsed-Throws (mode_field fields) s

module _ (p : Platform) (laws : IsPlatform p)
    (run_checksum : String → ℕ → Exec (World p.Db) ValidationChecksumResult)
    (runs : (seed : String) (n : ℕ) (w : World p.Db)
      → Ends (λ _ _. Unit {0}) Throws (run_checksum seed n w)) where
  ordinary :
      {A : Type 0} (id : ℕ) (r : Result A × World p.Db)
      → Ends (λ _ _. Unit {0}) Throws r
      → Ends (λ _ _. Unit {0}) (CancelsEnded p id) r
  ordinary id r h = Ends-weaken r h (λ _ _ _. tt) (other_error p laws id)

  conclude-Ends :
      (mode : ValidationJobMode) (checksum : ValidationChecksumResult) (w : World p.Db)
      → Ends (λ _ _. Unit {0}) Throws (conclude p run_checksum mode checksum w)
  unfolding conclude
  conclude-Ends to_fail checksum w = thrown _ w refl tt
  conclude-Ends to_succeed checksum w = returned _ w refl tt

  pub validation_job_handler-IsHonest :
      (first second : Bool) → IsHonest p (validation_job_handler p run_checksum first second)
  unfolding validation_job_handler validate
  validation_job_handler-IsHonest first second c around w =
      let id = c.job.id in
      Ends-after _ _ (ordinary id _ (mode-Throws c.payload w)) λ mode s _.
        Ends-after _ _ (around.checkpoint_honest s) λ _ s1 _.
          Ends-after _ _ (ordinary id _ (update_progress-Ends p laws id _ _ s1)) λ _ s2 _.
            Ends-after _ _ (around.heartbeat_honest first s2) λ _ s3 _.
              Ends-after _ _ (ordinary id _ (runs _ _ s3)) λ checksum s4 _.
                Ends-after _ _ (around.checkpoint_honest s4) λ _ s5 _.
                  Ends-after _ _ (ordinary id _ (update_progress-Ends p laws id _ _ s5)) λ _ s6 _.
                    Ends-after _ _ (around.heartbeat_honest second s6)
                      λ _ s7 _. ordinary id _ (conclude-Ends mode checksum s7)
