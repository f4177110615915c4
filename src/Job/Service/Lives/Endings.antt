-- ===== src/Job/Service/Lives/Endings.antt =====
-- Cancellation and the operations that end a job, each with every branch.
use silo_core.Base.{ℕ, String, ◌≡◌, refl, false, ◌||◌, Option, none, some, arith}
use silo_core.Base.Int.{int, pos}
use silo_core.Json.{Json}
use silo_core.Errors.{ok}
use silo_core.Exec.{Exec, pure, ◌>>◌}
use silo_core.Job.{
  Job, running, cancel_requested, cancelled, succeeded, failed, same_status, same_status_iff,
  hint_cancellation_requested, hint_cancelled, hint_succeeded, hint_failed,
}
use silo_core.Job.Lifecycle.{is_terminal_job_status, assert_valid_job_status_transition}
use silo_core.Job.Privacy.{assert_job_data_is_sanitized}
use silo_core.Job.Privacy.Laws.{assert_job_data_is_sanitized_iff}
use silo_core.Job.Platform.{Platform, IsPlatform, World, KeepsId}
use silo_core.Job.Service.{to_public_job}
use silo_core.Job.Service.Attempts.{to_cancelled}
use silo_core.Job.Service.Endings.{
  to_cancel_requested, to_succeeded, to_failed, cancel, request_cancellation,
  request_cancellation_in_workspace, mark_cancelled, checkpoint_cancellation, check_result,
  mark_succeeded, mark_failed, mark_handler_failed,
}
use silo_core.Job.Service.Rows.{row}
use silo_core.Job.Service.Lives.{
  Lives, update_notify-Lives, finalize_notify-Lives, found_again, read-Lives,
  read_in_workspace-Lives, bind-Lives, if-Lives, check-Lives, or_now-Lives,
}
use silo_core.Job.Service.Lives.Attempts.{mark_cancelled_and_notify-Lives}
use silo_core.Job.History.{
  unchanged, IsWaiting, IsOpen, ResultIsSanitized, result_or, asked_to_cancel, stopped, completed,
  broken,
}

waits_of_guard :
    (j : Job)
    → assert_valid_job_status_transition j.status cancel_requested ≡ ok tt
    → (same_status j.status cancel_requested || is_terminal_job_status j.status) ≡ false
    → IsWaiting j
unfolding assert_valid_job_status_transition is_terminal_job_status
waits_of_guard j h g = ground arith

asked_of_guard :
    (j : Job)
    → assert_valid_job_status_transition j.status cancelled ≡ ok tt
    → (same_status j.status cancelled || is_terminal_job_status j.status) ≡ false
    → j.status ≡ cancel_requested
unfolding assert_valid_job_status_transition is_terminal_job_status
asked_of_guard j h g = ground arith

runs_of_guard :
    (j : Job)
    → assert_valid_job_status_transition j.status succeeded ≡ ok tt
    → (same_status j.status succeeded || is_terminal_job_status j.status) ≡ false
    → j.status ≡ running
unfolding assert_valid_job_status_transition is_terminal_job_status
runs_of_guard j h g = ground arith

tests-IsOpen :
    (j : Job) → (same_status j.status failed || is_terminal_job_status j.status) ≡ false → IsOpen j
unfolding is_terminal_job_status
tests-IsOpen j g = ground arith

to_succeeded-KeepsId : (r : Option Json) (s : String) (t : ℕ) → KeepsId (to_succeeded r s t)
to_succeeded-KeepsId none s t j = refl
to_succeeded-KeepsId (some r) s t j = refl

to_succeeded-row :
    (r : Option Json) (stage : String) (t : ℕ) (j : Job)
    → to_succeeded r stage t j ≡ record j {
      status = succeeded;
      progress = int (pos 100);
      stage = stage;
      result = result_or r j.result;
      completed_at = some t;
    }
to_succeeded-row none stage t j = refl
to_succeeded-row (some v) stage t j = refl

module _ (p : Platform) (laws : IsPlatform p) where
  cancel-Lives :
      {id : ℕ} (j : Job) (w : World p.Db) → row p w id ≡ some j → Lives p w (cancel p j w).1
  unfolding cancel
  cancel-Lives j w found =
      if-Lives p (same_status j.status cancel_requested || is_terminal_job_status j.status) _ _ w
        (λ _ k. unchanged)
        λ pending.
          check-Lives p (assert_valid_job_status_transition j.status cancel_requested) _ w λ passed.
            or_now-Lives p j.cancel_requested_at _ w λ t v _ same.
              update_notify-Lives p laws v j.id (to_cancel_requested t) hint_cancellation_requested
                (λ _. refl) (found_again p laws w v found same)
                (asked_to_cancel t (waits_of_guard j passed pending) refl)

  pub request_cancellation-Lives :
      (id : ℕ) (w : World p.Db) → Lives p w (request_cancellation p id w).1
  unfolding request_cancellation
  request_cancellation-Lives id w = read-Lives p id _ w (λ j found. cancel-Lives j w found)

  pub request_cancellation_in_workspace-Lives :
      (id workspace_id : ℕ) (w : World p.Db)
      → Lives p w (request_cancellation_in_workspace p id workspace_id w).1
  unfolding request_cancellation_in_workspace
  request_cancellation_in_workspace-Lives id workspace_id w =
      read_in_workspace-Lives p laws id workspace_id _ w λ j found.
        bind-Lives p (λ changed. pure (to_public_job changed)) w (cancel p j w)
          (cancel-Lives j w found) (λ _ _ _ k. unchanged)

  pub mark_cancelled-Lives : (id : ℕ) (w : World p.Db) → Lives p w (mark_cancelled p id w).1
  unfolding mark_cancelled
  mark_cancelled-Lives id w = read-Lives p id _ w λ j found.
      if-Lives p (same_status j.status cancelled || is_terminal_job_status j.status) _ _ w
        (λ _ k. unchanged)
        λ pending.
          check-Lives p (assert_valid_job_status_transition j.status cancelled) _ w λ passed.
            or_now-Lives p j.completed_at _ w λ t v _ same.
              finalize_notify-Lives p laws v j.id (to_cancelled t) hint_cancelled (λ _. refl)
                (found_again p laws w v found same)
                (stopped t (asked_of_guard j passed pending) refl)

  pub checkpoint_cancellation-Lives :
      (id : ℕ) (w : World p.Db) → Lives p w (checkpoint_cancellation p id w).1
  unfolding checkpoint_cancellation
  checkpoint_cancellation-Lives id w = read-Lives p id _ w λ j found.
      if-Lives p (same_status j.status cancel_requested) _ _ w
        (λ asked.
          mark_cancelled_and_notify-Lives p laws j w found
            ((same_status_iff j.status cancel_requested).0 asked))
        (λ _ k. unchanged)

  check_result-Lives :
      {A : Type 0} (r : Option Json) (m : Exec (World p.Db) A) (w : World p.Db)
      → (ResultIsSanitized r → Lives p w (m w).1)
      → Lives p w ((check_result p r >> m) w).1
  unfolding check_result
  check_result-Lives none m w h = h tt
  check_result-Lives (some r) m w h =
      check-Lives p (assert_job_data_is_sanitized r) m w
        (λ passed. h ((assert_job_data_is_sanitized_iff r).0 passed))

  pub mark_succeeded-Lives :
      (id : ℕ) (r : Option Json) (stage : String) (w : World p.Db)
      → Lives p w (mark_succeeded p id r stage w).1
  unfolding mark_succeeded
  mark_succeeded-Lives id r stage w = check_result-Lives r _ w λ clean.
      read-Lives p id _ w λ j found.
        if-Lives p (same_status j.status succeeded || is_terminal_job_status j.status) _ _ w
          (λ _ k. unchanged)
          λ pending.
            check-Lives p (assert_valid_job_status_transition j.status succeeded) _ w λ passed.
              or_now-Lives p j.completed_at _ w λ t v _ same.
                finalize_notify-Lives p laws v j.id (to_succeeded r stage t) hint_succeeded
                  (to_succeeded-KeepsId r stage t) (found_again p laws w v found same)
                  (completed r stage t (runs_of_guard j passed pending) clean
                    (to_succeeded-row r stage t j))

  pub mark_failed-Lives :
      (id : ℕ) (code message : String) (w : World p.Db)
      → Lives p w (mark_failed p id code message w).1
  unfolding mark_failed
  mark_failed-Lives id code message w = read-Lives p id _ w λ j found.
      if-Lives p (same_status j.status failed || is_terminal_job_status j.status) _ _ w
        (λ _ k. unchanged)
        λ pending. check-Lives p (assert_valid_job_status_transition j.status failed) _ w λ _.
          or_now-Lives p j.completed_at _ w λ t v _ same.
            finalize_notify-Lives p laws v j.id (to_failed code message t) hint_failed (λ _. refl)
              (found_again p laws w v found same)
              (broken code message t (tests-IsOpen j pending) refl)

  pub mark_handler_failed-Lives :
      (id : ℕ) (w : World p.Db) → Lives p w (mark_handler_failed p id w).1
  unfolding mark_handler_failed
  mark_handler_failed-Lives id w = mark_failed-Lives id _ _ w
