-- ===== src/Job/Service/Lives/Attempts.antt =====
-- The operations of a running attempt, each with every branch.
use silo_core.Base.{
  ℕ, String, ◌≡◌, refl, ◌∙◌, true, false, not, ◌&&◌, Option, none, some, arith, inl, inr,
  Bool-cases, str_eq, if_true, if_false,
}
use silo_core.Base.Int.{Number}
use silo_core.Errors.{ok}
use silo_core.Job.{
  Job, JobStatus, queued, running, cancel_requested, same_status, same_status_iff, hint_running,
  hint_progress, hint_heartbeat, hint_cancelled,
}
use silo_core.Job.Lifecycle.{
  is_terminal_job_status, assert_valid_job_status_transition, assert_valid_job_progress,
}
use silo_core.Job.Lifecycle.Graph.{assert_valid_job_progress_iff, IsPercent}
use silo_core.Job.Platform.{Platform, IsPlatform, World, KeepsId}
use silo_core.Job.Service.Attempts.{
  to_running, to_cancelled, to_progress, to_retry_pending, to_heartbeat, set_running,
  mark_cancelled_and_notify, mark_running, start_worker_attempt, update_progress,
  mark_retry_pending, heartbeat,
}
use silo_core.Job.Service.Rows.{row}
use silo_core.Job.Service.Lives.{
  Lives, update_notify-Lives, finalize_notify-Lives, found_again, read-Lives, if-Lives, check-Lives,
  now-Lives, or_now-Lives,
}
use silo_core.Job.History.{
  unchanged, IsWaiting, IsActive, Change, attempted, progressed, progressed_to, put_back, beaten,
  stopped,
}

-- What the tests of the operations have established where they let a job through.
waits_of_guard :
    (j : Job)
    → assert_valid_job_status_transition j.status running ≡ ok tt
    → same_status j.status running ≡ false
    → IsWaiting j
unfolding assert_valid_job_status_transition
waits_of_guard j h g = ground arith

waits_of_tests :
    (j : Job)
    → (not (same_status j.status queued) && not (same_status j.status running)) ≡ false
    → IsWaiting j
waits_of_tests j h = ground arith

tests-IsActive :
    (j : Job)
    → (not (same_status j.status running) && not (same_status j.status cancel_requested)) ≡ false
    → IsActive j
tests-IsActive j h = ground arith

runs_of_test : (j : Job) → not (same_status j.status running) ≡ false → j.status ≡ running
runs_of_test j h = ground arith

is_status : (j : Job) (s : JobStatus) → same_status j.status s ≡ true → j.status ≡ s
is_status j s h = (same_status_iff j.status s).0 h

pub to_progress-KeepsId : (n : Number) (s : Option String) → KeepsId (to_progress n s)
to_progress-KeepsId n none j = refl
to_progress-KeepsId n (some s) j = ground arith

to_progress-Change :
    (n : Number) (s : Option String) (j : Job)
    → IsActive j
    → IsPercent n
    → Change j (to_progress n s j)
to_progress-Change n none j active percent = progressed n active percent refl
to_progress-Change n (some s) j active percent = elim (Bool-cases (str_eq s "")) [
  | inl empty ↦ progressed n active percent (if_true _ _ empty)
  | inr given ↦ progressed_to n s active percent given (if_false _ _ given)
]

module _ (p : Platform) (laws : IsPlatform p) where
  set_running-Lives :
      {id : ℕ} (j : Job) (w : World p.Db)
      → row p w id ≡ some j
      → IsWaiting j
      → Lives p w (set_running p j w).1
  unfolding set_running
  set_running-Lives j w found waits = or_now-Lives p j.started_at _ w λ t v begun same.
      now-Lives p _ v λ h u same'.
        update_notify-Lives p laws u j.id (to_running t h) hint_running (λ _. refl)
          (found_again p laws w u found (same' ∙ same)) (attempted t h waits (rw begun))

  pub mark_cancelled_and_notify-Lives :
      {id : ℕ} (j : Job) (w : World p.Db)
      → row p w id ≡ some j
      → j.status ≡ cancel_requested
      → Lives p w (mark_cancelled_and_notify p j.id w).1
  unfolding mark_cancelled_and_notify
  mark_cancelled_and_notify-Lives j w found asked = now-Lives p _ w λ t v same.
      finalize_notify-Lives p laws v j.id (to_cancelled t) hint_cancelled (λ _. refl)
        (found_again p laws w v found same) (stopped t asked refl)

  pub mark_running-Lives : (id : ℕ) (w : World p.Db) → Lives p w (mark_running p id w).1
  unfolding mark_running
  mark_running-Lives id w = read-Lives p id _ w λ j found.
      if-Lives p (same_status j.status running) _ _ w (λ _ k. unchanged)
        λ idle.
          check-Lives p (assert_valid_job_status_transition j.status running) _ w
            λ passed. set_running-Lives j w found (waits_of_guard j passed idle)

  pub start_worker_attempt-Lives :
      (id : ℕ) (w : World p.Db) → Lives p w (start_worker_attempt p id w).1
  unfolding start_worker_attempt
  start_worker_attempt-Lives id w = read-Lives p id _ w λ j found.
      if-Lives p (is_terminal_job_status j.status) _ _ w (λ _ k. unchanged)
        λ _.
          if-Lives p (same_status j.status cancel_requested) _ _ w
            (λ asked. mark_cancelled_and_notify-Lives j w found (is_status j _ asked))
            λ _.
              if-Lives p (not (same_status j.status queued) && not (same_status j.status running)) _
                _ w (λ _ k. unchanged)
                λ passed. set_running-Lives j w found (waits_of_tests j passed)

  pub update_progress-Lives :
      (id : ℕ) (n : Number) (stage : Option String) (w : World p.Db)
      → Lives p w (update_progress p id n stage w).1
  unfolding update_progress
  update_progress-Lives id n stage w = check-Lives p (assert_valid_job_progress n) _ w λ valid.
      read-Lives p id _ w λ j found.
        if-Lives p
          (not (same_status j.status running) && not (same_status j.status cancel_requested)) _ _ w
          (λ _ k. unchanged)
          λ passed.
            update_notify-Lives p laws w j.id (to_progress n stage) hint_progress
              (to_progress-KeepsId n stage) (found_again p laws w w found refl)
              (to_progress-Change n stage j (tests-IsActive j passed)
                ((assert_valid_job_progress_iff n).0 valid))

  pub mark_retry_pending-Lives : (id : ℕ) (w : World p.Db) → Lives p w (mark_retry_pending p id w).1
  unfolding mark_retry_pending
  mark_retry_pending-Lives id w = read-Lives p id _ w λ j found.
      if-Lives p (is_terminal_job_status j.status) _ _ w (λ _ k. unchanged)
        λ _.
          if-Lives p (not (same_status j.status running)) _ _ w (λ _ k. unchanged)
            λ passed.
              update_notify-Lives p laws w j.id to_retry_pending hint_running (λ _. refl)
                (found_again p laws w w found refl) (put_back (runs_of_test j passed) refl)

  pub heartbeat-Lives : (id : ℕ) (w : World p.Db) → Lives p w (heartbeat p id w).1
  unfolding heartbeat
  heartbeat-Lives id w = read-Lives p id _ w λ j found.
      if-Lives p (not (same_status j.status running) && not (same_status j.status cancel_requested))
        _ _ w (λ _ k. unchanged)
        λ passed. now-Lives p _ w λ h v same.
          update_notify-Lives p laws v j.id (to_heartbeat h) hint_heartbeat (λ _. refl)
            (found_again p laws w v found same) (beaten h (tests-IsActive j passed) refl)
