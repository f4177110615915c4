-- ===== src/Job/Service/Lives/Rounds.antt =====
-- The two repairs: one round of each loop in full.
use mathlib.Core.Option
use silo_core.Base.{
  ℕ, String, ◌+◌, ◌≡◌, refl, sym, ap, subst, Bool, false, Option, none, some, [], ◌∷◌, ◌++◌, arith,
  inl, inr, ◌==◌, if◌then◌else◌, Bool-cases, or_else, leb, suc,
}
use silo_core.Errors.{Result, ok}
use silo_core.Exec.{Exec, after, pure}
use silo_core.Job.{
  Job, JobNotificationHint, same_status, queued, running, hint_queued, hint_enqueue_failed,
  hint_failed,
}
use silo_core.Job.Platform.{Platform, IsPlatform, World}
use silo_core.Job.Repository.{update_job, is_queued_without_message}
use silo_core.Job.Service.{
  now, notify, finalize_job, update_job_and_notify, finalize_job_and_notify,
}
use silo_core.Job.Service.Endings.{to_failed}
use silo_core.Job.Service.Queueing.{
  to_enqueue_failed, with_message, to_stale_requeued, message_for, try_send, mark_enqueue_failed,
  fail_enqueue,
}
use silo_core.Job.Service.Repairs.{
  JobReconciliationResult, StaleRunningJobRecoveryResult, reconcile_job, requeue_job, give_up,
  send_again, recover_job, stale_worker_error_code, stale_worker_error_message,
}
use silo_core.Job.Service.Rows.{
  row, Writes, update_job-Writes, update_job-reply, finalize_job-Writes, finalize_job-reply,
  finalize_job_and_notify-reply, finalize_job_and_notify-Writes, update_job_and_notify-reply,
  update_job_and_notify-Writes,
}
use silo_core.Job.History.{Change, not_sent, sent, broken, sent_again}

-- What a round of a loop has done: it returned, it changed the row of one job as `f` says, in a
-- change that is meant to happen, and `Told` holds of what it returned and of the change.
pub record Round (p : Platform) {A : Type 0} (before : p.Db) (job : Job) (r : Result A × World p.Db)
    (Told : A → Job → Type 0) : Type 0 where
  pub value : A
  pub world : World p.Db
  pub returned : r ≡ (ok value, world)
  pub f : Job → Job
  pub written :
      (k : ℕ)
      → row p world k
        ≡ (if job.id == k then Option.map f (p.find_unique before k) else p.find_unique before k)
  pub change : Change job (f job)
  pub told : Told value (f job)

-- The counters of a reconciliation after one more job, which is no longer queued without a message.
abbrev pub Reconciled : JobReconciliationResult → JobReconciliationResult → Job → Type 0
Reconciled before after job =
    (◌≡◌ {A = Bool × ℕ} (after.skipped, after.scanned) (before.skipped, before.scanned))
    × (after.reenqueued + after.failed ≡ suc (before.reenqueued + before.failed))
    × (is_queued_without_message job ≡ false)

-- The same for the recovery, after which the job is not running.
abbrev pub Recovered : StaleRunningJobRecoveryResult → StaleRunningJobRecoveryResult → Job → Type 0
Recovered before after job =
    (◌≡◌ {A = Bool × ℕ} (after.skipped, after.scanned) (before.skipped, before.scanned))
    × (after.requeued + after.failed ≡ suc (before.requeued + before.failed))
    × (same_status job.status running ≡ false)

module _ (p : Platform) (laws : IsPlatform p) where
  -- the continuation of a step that is known to return
  after_ok :
      {A B : Type 0} (r : Result A × World p.Db) (a : A) (k : A → Exec (World p.Db) B)
      → r.0 ≡ ok a
      → after r k ≡ k a r.1
  after_ok {A} r a k e = ap (λ (x : Result A). after (x, r.1) k) e

  abbrev noticed : World p.Db → ℕ → JobNotificationHint → World p.Db
  noticed w id hint = record w { notices = w.notices ++ (id, hint) ∷ [] }

  abbrev tick : World p.Db → World p.Db
  tick w = record w { ticks = w.ticks + 1 }

  fail_enqueue-eq :
      (j : Job) (w : World p.Db)
      → row p w j.id ≡ some j
      → let f = to_enqueue_failed (p.time w.ticks) in
        fail_enqueue p j.id w
        ≡ (ok (f j), noticed (finalize_job p j.id f (tick w)).1 j.id hint_enqueue_failed)
  unfolding fail_enqueue mark_enqueue_failed now notify
  fail_enqueue-eq j w found =
      let f = to_enqueue_failed (p.time w.ticks) in
      after_ok (finalize_job p j.id f (tick w)) (f j) _
        (finalize_job-reply p laws j.id f (tick w) (λ _. refl) found)

  -- A round that ends in one update of the job, whose row the update returns.
  round_after :
      {A : Type 0} {T : A → Job → Type 0} (w : World p.Db) (j : Job) (f : Job → Job)
      (r : Result Job × World p.Db) (a : A)
      → r.0 ≡ ok (f j)
      → Writes p w j.id f r.1
      → Change j (f j)
      → T a (f j)
      → Round p w.db j (after r (λ _. pure a)) T
  round_after w j f r a reply writes change told = record {
    value = a;
    world = r.1;
    returned = after_ok r (f j) (λ _. pure a) reply;
    f = f;
    written = writes;
    change = change;
    told = told;
  }

  pub reconcile_job-Round :
      (j : Job) (result : JobReconciliationResult) (reply : Option String) (w : World p.Db)
      → row p w j.id ≡ some j
      → j.status ≡ queued
      → Round p w.db j (reconcile_job p j result reply w) (Reconciled result)
  unfolding reconcile_job
  reconcile_job-Round j result none w found waits =
      let f = to_enqueue_failed (p.time w.ticks) in
      let a = record result { failed = result.failed + 1 } in
      let done = fail_enqueue-eq j w found in
      round_after w j f (fail_enqueue p j.id w) a (ap (λ r. r.0) done)
        (subst (λ r. Writes p w j.id f r.1) (sym done)
          (finalize_job-Writes p laws j.id f (tick w) (λ _. refl)))
        (not_sent (p.time w.ticks) (inl waits) refl) (refl, omega arith, ground arith)
  reconcile_job-Round j result (some id) w found waits =
      let f = with_message id in
      let a = record result { reenqueued = result.reenqueued + 1 } in
      round_after w j f (update_job p j.id f w) a
        (update_job-reply p laws j.id f w (λ _. refl) found)
        (update_job-Writes p laws j.id f w (λ _. refl)) (sent id waits refl)
        (refl, omega arith, ground arith)

  requeue_job-Round :
      (now : ℕ) (j : Job) (result : StaleRunningJobRecoveryResult) (reply : Option String)
      (w : World p.Db)
      → row p w j.id ≡ some j
      → j.status ≡ running
      → Round p w.db j (requeue_job p now j result reply w) (Recovered result)
  unfolding requeue_job
  requeue_job-Round now j result none w found runs =
      let f = to_enqueue_failed now in
      let a = record result { failed = result.failed + 1 } in
      round_after w j f (finalize_job_and_notify p j.id f hint_enqueue_failed w) a
        (finalize_job_and_notify-reply p laws j.id f hint_enqueue_failed w (λ _. refl) found)
        (finalize_job_and_notify-Writes p laws j.id f hint_enqueue_failed w (λ _. refl))
        (not_sent now (inr runs) refl) (refl, omega arith, ground arith)
  requeue_job-Round now j result (some id) w found runs =
      let f = to_stale_requeued id in
      let a = record result { requeued = result.requeued + 1 } in
      round_after w j f (update_job_and_notify p j.id f hint_queued w) a
        (update_job_and_notify-reply p laws j.id f hint_queued w (λ _. refl) found)
        (update_job_and_notify-Writes p laws j.id f hint_queued w (λ _. refl))
        (sent_again id runs refl) (refl, omega arith, ground arith)

  give_up-Round :
      (now : ℕ) (j : Job) (result : StaleRunningJobRecoveryResult) (w : World p.Db)
      → row p w j.id ≡ some j
      → j.status ≡ running
      → Round p w.db j (give_up p now j result w) (Recovered result)
  unfolding give_up
  give_up-Round now j result w found runs =
      let t = or_else j.completed_at now in
      let f = to_failed stale_worker_error_code stale_worker_error_message t in
      let a = record result { failed = result.failed + 1 } in
      round_after w j f (finalize_job_and_notify p j.id f hint_failed w) a
        (finalize_job_and_notify-reply p laws j.id f hint_failed w (λ _. refl) found)
        (finalize_job_and_notify-Writes p laws j.id f hint_failed w (λ _. refl))
        (broken _ _ t (inr (inl runs)) refl) (refl, omega arith, ground arith)

  pub recover_job-Round :
      (now : ℕ) (j : Job) (result : StaleRunningJobRecoveryResult) (w : World p.Db)
      → row p w j.id ≡ some j
      → j.status ≡ running
      → Round p w.db j (recover_job p now j result w) (Recovered result)
  unfolding recover_job send_again try_send
  recover_job-Round now j result w found runs = elim (Bool-cases (leb j.max_attempts j.attempts)) [
    | inl spent ↦ rw spent (give_up-Round now j result w found runs)
    | inr left ↦ rw left (
        requeue_job-Round now j result _
          (record w { sent = w.sent ++ message_for p j.job_type j ∷ [] }) found runs)
  ]
