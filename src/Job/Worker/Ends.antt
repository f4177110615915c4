-- ===== src/Job/Worker/Ends.antt =====
-- How the run of a message ends: what a worker that returns, and so acknowledges the message to the
-- queue, has made of the job.
use silo_core.Base.{ℕ, String, true, ◌≡◌, refl, sym, ap, Bool, Option, some, ◌||◌, arith, subst}
use silo_core.Json.{Json}
use silo_core.Errors.{Error, Result, ok, worker_cancelled, worker_shutdown}
use silo_core.Exec.{Exec, raise, ◌>>◌}
use silo_core.Exec.Ends.{
  Ends, returned, thrown, Ends-after, Ends-caught, Ends-if, Ends-weaken, anything,
}
use silo_core.Job.{Job, cancelled, same_status}
use silo_core.Job.Lifecycle.{is_terminal_job_status}
use silo_core.Job.Platform.{Platform, IsPlatform, World}
use silo_core.Job.Service.Rows.{row}
use silo_core.Job.Service.Outcomes.{
  IsOtherError, IsOver, checkpoint_cancellation-Ends, start_worker_attempt-Ends,
  mark_succeeded-Ends, heartbeat-Ends, Throws,
}
use silo_core.Job.Worker.{
  QueueJob, JobWorkerFailurePhase, WorkerRun, JobWorkerContext, JobWorkerHandler,
  parse_queue_job_id, is_terminal_worker_state, is_cancellation, is_shutdown, lifted, lift,
  set_phase, in_mark_succeeded, in_start_attempt, in_handler, in_checkpoint_cancellation,
  in_mark_failure_state,
}
use silo_core.Job.Worker.Run.{
  beat, checkpoint_or_throw, finish, work, attempt, after_failure, on_error, run_job,
  run_job_worker_with_diagnostics, mark_failure_state, report_failure,
}

-- If the exception says that the job was cancelled, the job has ended.
abbrev pub CancelsEnded : (p : Platform) → ℕ → Error → World p.Db → Type 0
CancelsEnded p id e v = is_cancellation e ≡ true → IsOver p id v

-- The `heartbeat` and the `checkpoint` that a handler is given throw JobWorkerCancelledError only
-- for a job that has ended.
pub record IsHonestContext (p : Platform) (c : JobWorkerContext p.Db) : Type 0 where
  pub heartbeat_honest :
      (aborted : Bool) (w : World p.Db)
      → Ends (λ _ _. Unit {0}) (CancelsEnded p c.job.id) (c.heartbeat aborted w)
  pub checkpoint_honest :
      (w : World p.Db) → Ends (λ _ _. Unit {0}) (CancelsEnded p c.job.id) (c.checkpoint w)

-- Given such a `heartbeat` and `checkpoint`, so does the handler.
abbrev pub IsHonest : (p : Platform) → JobWorkerHandler p.Db → Type 0
IsHonest p handler =
    (c : JobWorkerContext p.Db)
    → IsHonestContext p c
    → (w : World p.Db) → Ends (λ _ _. Unit {0}) (CancelsEnded p c.job.id) (handler c w)

-- The touch of a message in the queue throws no exception of the worker's own.
abbrev pub IsLibraryCall :
    (p : Platform) → (String → String → Exec (World p.Db) (Unit {0})) → Type 0
IsLibraryCall p touch_job =
    (name id : String) (w : World p.Db) → Ends (λ _ _. Unit {0}) Throws (touch_job name id w)

lift-Ends :
    {Db A : Type 0} {Q : A → World Db → Type 0} {E : Error → World Db → Type 0} (s : WorkerRun Db)
    (r : Result A × World Db)
    → Ends Q E r
    → Ends (λ a t. Q a t.world) (λ e t. E e t.world) (lifted s r)
lift-Ends s r (returned a w eq h) = returned a (record s { world = w }) (ap (lifted s) eq) h
lift-Ends s r (thrown e w eq h) = thrown e (record s { world = w }) (ap (lifted s) eq) h

module _ (p : Platform) (laws : IsPlatform p) where
  pub other_error : (id : ℕ) (e : Error) (v : World p.Db) → IsOtherError e → CancelsEnded p id e v
  other_error id (worker_cancelled k) v h = absurd h
  other_error id _ v h = λ c. cc

  cancelled-IsOver :
      {id : ℕ} (j : Job) (v : World p.Db)
      → row p v id ≡ some j
      → same_status j.status cancelled ≡ true
      → IsOver p id v
  unfolding is_terminal_job_status
  cancelled-IsOver j v found h = (j, found, ground arith)

  terminal-IsOver :
      {id : ℕ} (j : Job) (v : World p.Db)
      → row p v id ≡ some j
      → is_terminal_worker_state j.status ≡ true
      → IsOver p id v
  unfolding is_terminal_job_status
  terminal-IsOver j v found h = (j, found, ground arith)

  module _ (touch_job : String → String → Exec (World p.Db) (Unit {0})) where
    checkpoint_or_throw-Ends :
        (id : ℕ) (w : World p.Db)
        → Ends (λ _ _. Unit {0}) (CancelsEnded p id) (checkpoint_or_throw p touch_job id w)
    unfolding checkpoint_or_throw
    checkpoint_or_throw-Ends id w =
        Ends-after _ _
          (Ends-weaken _ (checkpoint_cancellation-Ends p laws id w) (λ j v h. h) (other_error id))
          λ j v found.
            Ends-if (same_status j.status cancelled) _ _ v
              (λ c. thrown _ v refl λ _. cancelled-IsOver j v found c) λ _. returned tt v refl tt

    beat-Ends :
        (q : QueueJob) (id : ℕ) (aborted : Bool) (w : World p.Db)
        → IsLibraryCall p touch_job
        → Ends (λ _ _. Unit {0}) (CancelsEnded p id) (beat p touch_job q id aborted w)
    unfolding beat
    beat-Ends q id aborted w touches =
        Ends-weaken _
          (Ends-if aborted _ _ w (λ _. thrown _ w refl tt)
            λ _. Ends-after _ _ (heartbeat-Ends p laws id w) λ j v _. touches q.name q.id v)
          (λ _ _ _. tt) (other_error id)

    module _ (touches : IsLibraryCall p touch_job) (handler : JobWorkerHandler p.Db)
        (honest : IsHonest p handler) (q : QueueJob) where
      -- What the body of the `try` promises, from any of its points on.
      abbrev Tried : ℕ → Result (Unit {0}) × WorkerRun p.Db → Type 0
      Tried id = Ends (λ _ s. IsOver p id s.world) (λ e s. CancelsEnded p id e s.world)

      checkpoint-Tried :
          (id : ℕ) (s : WorkerRun p.Db) (k : Exec (WorkerRun p.Db) (Unit {0}))
          → ((t : WorkerRun p.Db) → Tried id (k t))
          → Tried id ((lift (checkpoint_or_throw p touch_job id) >> k) s)
      checkpoint-Tried id s k h =
          Ends-after _ (λ _. k) (lift-Ends s _ (checkpoint_or_throw-Ends id s.world)) λ _ t _. h t

      finish-Tried :
          (id : ℕ) (result : Option Json) (s : WorkerRun p.Db)
          → Tried id (finish p touch_job handler q id result s)
      unfolding finish
      finish-Tried id result s = checkpoint-Tried id _ _ λ t.
          Ends-after _ _
            (lift-Ends (record t { phase = in_mark_succeeded }) _
              (Ends-weaken _ (mark_succeeded-Ends p laws id result "completed" t.world) (λ j v h. h)
                (other_error id)))
            λ j u over. returned tt u refl over

      handler-Ends :
          (id : ℕ) (c : JobWorkerContext p.Db) (w : World p.Db)
          → c.job.id ≡ id
          → IsHonestContext p c
          → Ends (λ _ _. Unit {0}) (CancelsEnded p id) (handler c w)
      handler-Ends id c w same around =
          subst (λ i. Ends {A = Option Json} (λ _ _. Unit {0}) (CancelsEnded p i) (handler c w))
            same (honest c around w)

      -- What `work` gives to the handler.
      context-IsHonest :
          (id : ℕ) (app_job : Job)
          → app_job.id ≡ id
          → IsHonestContext p (record {
            job = app_job;
            payload = app_job.payload;
            heartbeat = beat p touch_job q id;
            checkpoint = checkpoint_or_throw p touch_job id;
          })
      context-IsHonest id app_job same = record {
        heartbeat_honest = λ aborted w.
            subst
              (λ i.
                Ends {A = Unit {0}} (λ _ _. Unit {0}) (CancelsEnded p i)
                  (beat p touch_job q id aborted w))
              (sym same) (beat-Ends q id aborted w touches);
        checkpoint_honest = λ w.
            subst
              (λ i.
                Ends {A = Unit {0}} (λ _ _. Unit {0}) (CancelsEnded p i)
                  (checkpoint_or_throw p touch_job id w))
              (sym same) (checkpoint_or_throw-Ends id w);
      }

      work-Tried :
          (id : ℕ) (app_job : Job) (s : WorkerRun p.Db)
          → app_job.id ≡ id
          → Tried id (work p touch_job handler q id app_job s)
      unfolding work
      work-Tried id app_job s same = checkpoint-Tried id _ _ λ t.
          Ends-after _ _
            (lift-Ends (record t { phase = in_handler }) _
              (handler-Ends id _ t.world same (context-IsHonest id app_job same)))
            λ result u _.
              Ends-if q.signal.after_handler _ _ u
                (λ _.
                  thrown (worker_shutdown id) u refl
                    (other_error id (worker_shutdown id) u.world tt))
                λ _. finish-Tried id result u

      attempt-Tried : (id : ℕ) (s : WorkerRun p.Db) → Tried id (attempt p touch_job handler q id s)
      unfolding attempt
      attempt-Tried id s = checkpoint-Tried id _ _ λ t.
          Ends-after _ _
            (lift-Ends (record t { phase = in_start_attempt }) _
              (Ends-weaken _ (start_worker_attempt-Ends p laws id t.world) (λ j v h. h)
                (other_error id)))
            λ j u found.
              Ends-if (same_status j.status cancelled) _ _ _
                (λ c. returned tt _ refl (cancelled-IsOver j u.world found c))
                λ _.
                  Ends-if (is_terminal_worker_state j.status) _ _ _
                    (λ c. returned tt _ refl (terminal-IsOver j u.world found c))
                    λ _. work-Tried id j _ (laws.row_id u.world.db id j found)

      -- What the whole run promises.
      abbrev Run : ℕ → Result (Unit {0}) × WorkerRun p.Db → Type 0
      Run id = Ends (λ _ s. IsOver p id s.world) (λ _ _. Unit {0})

      report_failure-Run :
          (id : ℕ) (e : Error) (phase : JobWorkerFailurePhase) (s : WorkerRun p.Db)
          → Run id (report_failure p touch_job handler q id e phase s)
      unfolding report_failure
      report_failure-Run id e phase s =
          Ends-after
            (mark_failure_state p touch_job handler q id
              (record s { phase = in_mark_failure_state }))
            (λ _. set_phase phase >> raise e) (anything _)
            λ j t _. thrown e (record t { phase = phase }) refl tt

      after_failure-Run :
          (id : ℕ) (e : Error) (phase : JobWorkerFailurePhase) (s : WorkerRun p.Db)
          → Run id (after_failure p touch_job handler q id e phase s)
      unfolding after_failure
      after_failure-Run id e phase s =
          Ends-after _ _
            (lift-Ends (record s { phase = in_checkpoint_cancellation }) _
              (Ends-weaken _ (checkpoint_cancellation-Ends p laws id s.world) (λ j v h. h)
                λ _ _ _. tt))
            λ j t found.
              Ends-if (same_status j.status cancelled) _ _ t
                (λ c. returned tt t refl (cancelled-IsOver j t.world found c))
                λ _. report_failure-Run id e phase t

      on_error-Run :
          (id : ℕ) (e : Error) (s : WorkerRun p.Db)
          → CancelsEnded p id e s.world
          → Run id (on_error p touch_job handler q id e s)
      unfolding on_error
      on_error-Run id e s ended =
          Ends-if (is_cancellation e) _ _ s (λ c. returned tt s refl (ended c))
            λ _.
              Ends-if (q.signal.at_failure || is_shutdown e) _ _ s (λ _. thrown e s refl tt)
                λ _. after_failure-Run id e s.phase s

      -- A worker returns from the run of a message, which acknowledges it to the queue, only if the
      -- row of its job is there and has ended: succeeded, failed or cancelled. The handler is any
      -- that, given a heartbeat and a checkpoint that throw JobWorkerCancelledError only for a job that
      -- has ended, throws it only for one too. The touch of a message does not throw it.
      pub acknowledged_job_ended :
          (s : WorkerRun p.Db) (id : ℕ)
          → parse_queue_job_id q.payload_job_id ≡ ok id
          → Ends
              (λ _ t. IsOver p id t.world)
              (λ _ _. Unit {0})
              (run_job_worker_with_diagnostics p touch_job handler q s)
      unfolding run_job_worker_with_diagnostics run_job
      acknowledged_job_ended s id parsed =
          rw parsed (Ends-caught _ _ (attempt-Tried id _) λ e t ended. on_error-Run id e t ended)
