-- ===== src/Job/Service/Outcomes.antt =====
-- What the calls of a worker return: the row that they leave, and never the exception by which a
-- worker tells itself that its job was cancelled.
use mathlib.Core.Option
use silo_core.Base.{
  ℕ, String, ◌≡◌, refl, ◌∙◌, ap, subst, Bool, true, false, Option, none, some, arith, if◌then◌else◌,
  Option-cases, inl, inr, ==_iff, not, ◌&&◌, ◌||◌,
}
use silo_core.Json.{Json}
use silo_core.Errors.{Error, Result, ok, err, worker_cancelled, invalid_input}
use silo_core.Exec.{Exec, check, ◌>>=◌, ◌>>◌}
use silo_core.Exec.Ends.{Ends, returned, thrown, Ends-after, Ends-if, Ends-weaken}
use silo_core.Job.{
  Job, JobStatus, JobNotificationHint, queued, running, cancel_requested, succeeded, same_status,
}
use silo_core.Base.Int.{Number}
use silo_core.Job.Lifecycle.{
  is_terminal_job_status, assert_valid_job_status_transition, assert_valid_job_progress,
}
use silo_core.Job.Privacy.{assert_job_data_is_sanitized}
use silo_core.Job.Privacy.Laws.{sanitized_or_thrown}
use silo_core.Job.Platform.{Platform, IsPlatform, World, KeepsId}
use silo_core.Job.Repository.{find_by_id}
use silo_core.Job.Service.{
  now, or_now, get_existing_job, or_not_found, update_job_and_notify, finalize_job_and_notify,
}
use silo_core.Job.Service.Attempts.{
  start_worker_attempt, set_running, mark_cancelled_and_notify, heartbeat, update_progress,
}
use silo_core.Job.Service.Lives.Attempts.{to_progress-KeepsId}
use silo_core.Job.Service.Endings.{
  checkpoint_cancellation, check_result, mark_succeeded, to_succeeded,
}
use silo_core.Job.Service.Rows.{
  row, Writes, update_job_and_notify-Writes, update_job_and_notify-reply,
  finalize_job_and_notify-Writes, finalize_job_and_notify-reply,
}
use silo_core.Job.Service.Lives.{found_again}

abbrev pub IsOtherError : Error → Type 0
IsOtherError (worker_cancelled _) = ⊥
IsOtherError _ = Unit

-- A check that throws no such exception.
abbrev IsOrdinary : Result (Unit {0}) → Type 0
IsOrdinary (ok _) = Unit
IsOrdinary (err e) = IsOtherError e

abbrev pub Throws : {S : Type 0} → Error → S → Type 0
Throws e s = IsOtherError e

-- The row with the id is the job.
abbrev pub Answers : (p : Platform) → ℕ → Job → World p.Db → Type 0
Answers p id j v = row p v id ≡ some j

-- The row with the id is there and has ended.
abbrev pub IsOver : (p : Platform) → ℕ → World p.Db → Type 0
IsOver p id v = (j : Job) × (row p v id ≡ some j) × (is_terminal_job_status j.status ≡ true)

refusal-IsOrdinary :
    (refused : Bool)
    → IsOrdinary (if refused then err (invalid_input "JOB_PROGRESS_INVALID") else ok tt)
refusal-IsOrdinary true = tt
refusal-IsOrdinary false = tt

module _ (p : Platform) (laws : IsPlatform p) where
  pub get_existing_job-Ends :
      (id : ℕ) (w : World p.Db)
      → Ends (λ j v. (v ≡ w) × Answers p id j w) Throws (get_existing_job p id w)
  unfolding get_existing_job or_not_found find_by_id
  get_existing_job-Ends id w = elim (Option-cases (row p w id)) [
    | inl missing ↦ rw missing (thrown _ w refl tt)
    | inr (j, found) ↦ rw found (returned j w refl (refl, refl))
  ]

  replied-Ends :
      (w : World p.Db) {j : Job} (id : ℕ) (f : Job → Job) (r : Result Job × World p.Db)
      → Writes p w id f r.1
      → r.0 ≡ ok (f j)
      → row p w id ≡ some j
      → Ends (λ j' v. (j' ≡ f j) × Answers p id j' v) Throws r
  replied-Ends w {j} id f r writes reply found =
      returned (f j) r.1 (ap (λ x. (x, r.1)) reply)
        (refl, rw ((==_iff id id).1 refl) at (writes id) ∙ ap (Option.map f) found)

  -- The updates of a row that was found under an id, at a world with the same database.
  update_notify-Ends :
      {id : ℕ} {j : Job} (w v : World p.Db) (f : Job → Job) (hint : JobNotificationHint)
      → KeepsId f
      → row p w id ≡ some j
      → v.db ≡ w.db
      → Ends (λ j' u. (j' ≡ f j) × Answers p id j' u) Throws (update_job_and_notify p j.id f hint v)
  update_notify-Ends {id} {j} w v f hint keeps found same =
      let again : row p v j.id ≡ some j = found_again p laws w v found same in
      subst
        (λ i.
          Ends (λ j' u. (j' ≡ f j) × Answers p i j' u) Throws
            (update_job_and_notify p j.id f hint v))
        (laws.row_id w.db id j found)
        (replied-Ends v j.id f _ (update_job_and_notify-Writes p laws j.id f hint v keeps)
          (update_job_and_notify-reply p laws j.id f hint v keeps again) again)

  finalize_notify-Ends :
      {id : ℕ} {j : Job} (w v : World p.Db) (f : Job → Job) (hint : JobNotificationHint)
      → KeepsId f
      → row p w id ≡ some j
      → v.db ≡ w.db
      → Ends
          (λ j' u. (j' ≡ f j) × Answers p id j' u)
          Throws
          (finalize_job_and_notify p j.id f hint v)
  finalize_notify-Ends {id} {j} w v f hint keeps found same =
      let again : row p v j.id ≡ some j = found_again p laws w v found same in
      subst
        (λ i.
          Ends (λ j' u. (j' ≡ f j) × Answers p i j' u) Throws
            (finalize_job_and_notify p j.id f hint v))
        (laws.row_id w.db id j found)
        (replied-Ends v j.id f _ (finalize_job_and_notify-Writes p laws j.id f hint v keeps)
          (finalize_job_and_notify-reply p laws j.id f hint v keeps again) again)

  or_now-Ends :
      {A : Type 0} {Q : A → World p.Db → Type 0} {E : Error → World p.Db → Type 0} (o : Option ℕ)
      (m : ℕ → Exec (World p.Db) A) (w : World p.Db)
      → ((t : ℕ) (v : World p.Db) → v.db ≡ w.db → Ends Q E (m t v))
      → Ends Q E ((or_now p o >>= m) w)
  unfolding or_now now
  or_now-Ends none m w h = h _ _ refl
  or_now-Ends (some t) m w h = h _ _ refl

  check-Ends :
      {A : Type 0} {Q : A → World p.Db → Type 0} (r : Result (Unit {0})) (m : Exec (World p.Db) A)
      (w : World p.Db)
      → IsOrdinary r
      → (r ≡ ok tt → Ends Q Throws (m w))
      → Ends Q Throws ((check r >> m) w)
  check-Ends (ok u) m w h g = g refl
  check-Ends (err e) m w h g = thrown e w refl h

  mark_cancelled_and_notify-Ends :
      {id : ℕ} {j : Job} (w : World p.Db)
      → row p w id ≡ some j
      → Ends (λ j' v. Answers p id j' v) Throws (mark_cancelled_and_notify p j.id w)
  unfolding mark_cancelled_and_notify now
  mark_cancelled_and_notify-Ends w found =
      Ends-weaken _ (finalize_notify-Ends w _ _ _ (λ _. refl) found refl) (λ _ _ h. h.1) λ _ _ h. h

  pub checkpoint_cancellation-Ends :
      (id : ℕ) (w : World p.Db)
      → Ends (λ j v. Answers p id j v) Throws (checkpoint_cancellation p id w)
  unfolding checkpoint_cancellation
  checkpoint_cancellation-Ends id w =
      Ends-after _ _ (get_existing_job-Ends id w) λ j v (same, found).
        let here : row p v id ≡ some j = rw same found in
        Ends-if (same_status j.status cancel_requested) _ _ v
          (λ _. mark_cancelled_and_notify-Ends v here) λ _. returned j v refl here

  set_running-Ends :
      {id : ℕ} {j : Job} (w : World p.Db)
      → row p w id ≡ some j
      → Ends (λ j' v. Answers p id j' v) Throws (set_running p j w)
  unfolding set_running now
  set_running-Ends {j = j} w found = or_now-Ends j.started_at _ w λ t v same.
      Ends-weaken _ (update_notify-Ends w _ _ _ (λ _. refl) found same) (λ _ _ h. h.1) λ _ _ h. h

  pub start_worker_attempt-Ends :
      (id : ℕ) (w : World p.Db)
      → Ends (λ j v. Answers p id j v) Throws (start_worker_attempt p id w)
  unfolding start_worker_attempt
  start_worker_attempt-Ends id w = Ends-after _ _ (get_existing_job-Ends id w) λ j v (same, found).
      let here : row p v id ≡ some j = rw same found in
      Ends-if (is_terminal_job_status j.status) _ _ v (λ _. returned j v refl here)
        λ _.
          Ends-if (same_status j.status cancel_requested) _ _ v
            (λ _. mark_cancelled_and_notify-Ends v here)
            λ _.
              Ends-if (not (same_status j.status queued) && not (same_status j.status running)) _ _
                v (λ _. thrown _ v refl tt) λ _. set_running-Ends v here

  pub heartbeat-Ends :
      (id : ℕ) (w : World p.Db) → Ends (λ j v. Answers p id j v) Throws (heartbeat p id w)
  unfolding heartbeat now
  heartbeat-Ends id w = Ends-after _ _ (get_existing_job-Ends id w) λ j v (same, found).
      let here : row p v id ≡ some j = rw same found in
      Ends-if (not (same_status j.status running) && not (same_status j.status cancel_requested)) _
        _ v (λ _. thrown _ v refl tt)
        λ _.
          Ends-weaken _ (update_notify-Ends v _ _ _ (λ _. refl) here refl) (λ _ _ h. h.1) λ _ _ h. h

  progress-IsOrdinary : (n : Number) → IsOrdinary (assert_valid_job_progress n)
  unfolding assert_valid_job_progress
  progress-IsOrdinary n = refusal-IsOrdinary _

  pub update_progress-Ends :
      (id : ℕ) (n : Number) (stage : Option String) (w : World p.Db)
      → Ends (λ _ _. Unit {0}) Throws (update_progress p id n stage w)
  unfolding update_progress
  update_progress-Ends id n stage w =
      check-Ends (assert_valid_job_progress n) _ w (progress-IsOrdinary n) λ _.
        Ends-after _ _ (get_existing_job-Ends id w) λ j v (same, found).
          let here : row p v id ≡ some j = rw same found in
          Ends-if
            (not (same_status j.status running) && not (same_status j.status cancel_requested)) _ _
            v (λ _. thrown _ v refl tt)
            λ _.
              Ends-weaken _ (update_notify-Ends v v _ _ (to_progress-KeepsId n stage) here refl)
                (λ _ _ _. tt) λ _ _ h. h

  to_succeeded-IsOver :
      (r : Option Json) (s : String) (t : ℕ) (j : Job)
      → (is_terminal_job_status (to_succeeded r s t j).status ≡ true) × KeepsId (to_succeeded r s t)
  unfolding is_terminal_job_status
  to_succeeded-IsOver none s t j = (refl, λ _. refl)
  to_succeeded-IsOver (some r) s t j = (refl, λ _. refl)

  guard_result-IsOrdinary :
      (same refused : Bool)
      → IsOrdinary (
          if same
          then ok tt
          else if refused
          then err (invalid_input "JOB_STATUS_TRANSITION_INVALID")
          else ok tt)
  guard_result-IsOrdinary true refused = tt
  guard_result-IsOrdinary false true = tt
  guard_result-IsOrdinary false false = tt

  guard-IsOrdinary : (s t : JobStatus) → IsOrdinary (assert_valid_job_status_transition s t)
  unfolding assert_valid_job_status_transition
  guard-IsOrdinary s t = guard_result-IsOrdinary (same_status s t) _

  assert_job_data_is_sanitized-IsOrdinary : (v : Json) → IsOrdinary (assert_job_data_is_sanitized v)
  assert_job_data_is_sanitized-IsOrdinary v = elim (sanitized_or_thrown v) [
    | inl e ↦ rw e tt
    | inr e ↦ rw e tt
  ]

  check_result-Ends :
      {A : Type 0} {Q : A → World p.Db → Type 0} (r : Option Json) (m : Exec (World p.Db) A)
      (w : World p.Db)
      → Ends Q Throws (m w)
      → Ends Q Throws ((check_result p r >> m) w)
  unfolding check_result
  check_result-Ends none m w h = h
  check_result-Ends (some v) m w h =
      check-Ends (assert_job_data_is_sanitized v) m w (assert_job_data_is_sanitized-IsOrdinary v)
        λ _. h

  final_of_test :
      (j : Job)
      → (same_status j.status succeeded || is_terminal_job_status j.status) ≡ true
      → is_terminal_job_status j.status ≡ true
  unfolding is_terminal_job_status
  final_of_test j h = ground arith

  -- What markSucceeded returns has ended.
  pub mark_succeeded-Ends :
      (id : ℕ) (r : Option Json) (stage : String) (w : World p.Db)
      → Ends (λ _ v. IsOver p id v) Throws (mark_succeeded p id r stage w)
  unfolding mark_succeeded
  mark_succeeded-Ends id r stage w = check_result-Ends r _ w (
      Ends-after _ _ (get_existing_job-Ends id w) λ j v (same, found).
        let here : row p v id ≡ some j = rw same found in
        Ends-if (same_status j.status succeeded || is_terminal_job_status j.status) _ _ v
          (λ ended. returned j v refl (j, here, final_of_test j ended))
          λ _.
            check-Ends (assert_valid_job_status_transition j.status succeeded) _ v
              (guard-IsOrdinary j.status succeeded)
              λ _. or_now-Ends j.completed_at _ v λ t u now_same.
                let (final, keeps) = to_succeeded-IsOver r stage t j in
                Ends-weaken _ (finalize_notify-Ends v u _ _ keeps here now_same)
                  (λ i x (e, answer). (i, answer, rw e final)) λ _ _ h. h)
