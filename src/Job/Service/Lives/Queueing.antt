-- ===== src/Job/Service/Lives/Queueing.antt =====
-- Creating a job and handing it to the queue.
use silo_core.Base.{
  ℕ, String, ◌≡◌, refl, ◌∙◌, sym, ap, subst, Option, none, some, inl, inr, ◌==◌, Bool-cases, ==_iff,
  or_else,
}
use silo_core.Json.{object, end}
use silo_core.Job.{Job, queued}
use silo_core.Job.Privacy.{assert_job_data_is_sanitized}
use silo_core.Job.Privacy.Laws.{assert_job_data_is_sanitized_iff, IsSanitized}
use silo_core.Job.Platform.{Platform, IsPlatform, World, JobCreateInput, new_job}
use silo_core.Job.Repository.{create_queued_job}
use silo_core.Job.Service.{notify}
use silo_core.Job.Service.Queueing.{
  EnqueueJobInput, to_enqueue_failed, with_message, try_send, mark_enqueue_failed, fail_enqueue,
  enqueued, enqueue_job,
}
use silo_core.Job.Service.Rows.{row}
use silo_core.Job.Service.Lives.{
  Lives, update-Lives, finalize-Lives, bind-Lives, check-Lives, now-Lives,
}
use silo_core.Job.History.Laws.{Evolves-trans}
use silo_core.Job.History.{Evolves, unchanged, created, IsNew, IsWaiting, not_sent, sent}

new_job-IsNew :
    (id t : ℕ) (d : JobCreateInput)
    → d.status ≡ queued
    → IsSanitized d.payload
    → IsNew (new_job id t d)
new_job-IsNew id t d waits clean = record {
  waits = waits;
  at_zero = refl;
  no_result = refl;
  no_error_code = refl;
  no_error = refl;
  no_attempt = refl;
  no_message = refl;
  not_started = refl;
  not_completed = refl;
  no_heartbeat = refl;
  not_asked_to_cancel = refl;
  clean = clean;
}

module _ (p : Platform) (laws : IsPlatform p) where
  pub mark_enqueue_failed-Lives :
      (j : Job) (w : World p.Db)
      → row p w j.id ≡ some j
      → IsWaiting j
      → Lives p w (mark_enqueue_failed p j.id w).1
  unfolding mark_enqueue_failed
  mark_enqueue_failed-Lives j w found waits = now-Lives p _ w λ t v same.
      finalize-Lives p laws v j.id (to_enqueue_failed t) (λ _. refl)
        (ap (λ (db : p.Db). p.find_unique db j.id) same ∙ found) (not_sent t waits refl)

  pub fail_enqueue-Lives :
      (j : Job) (w : World p.Db)
      → row p w j.id ≡ some j
      → IsWaiting j
      → Lives p w (fail_enqueue p j.id w).1
  unfolding fail_enqueue notify
  fail_enqueue-Lives j w found waits =
      bind-Lives p _ w (mark_enqueue_failed p j.id w) (mark_enqueue_failed-Lives j w found waits)
        (λ _ _ _ k. unchanged)

  enqueued-Lives :
      (j : Job) (reply : Option String) (w : World p.Db)
      → row p w j.id ≡ some j
      → j.status ≡ queued
      → Lives p w (enqueued p j reply w).1
  enqueued-Lives j none w found waits = fail_enqueue-Lives j w found (inl waits)
  enqueued-Lives j (some id) w found waits =
      update-Lives p laws w j.id (with_message id) (λ _. refl) found (sent id waits refl)

  -- A new row, and no other.
  create-Lives :
      (w : World p.Db) (d : JobCreateInput)
      → d.status ≡ queued
      → IsSanitized d.payload
      → (k : ℕ) → Evolves (row p w k) (p.find_unique (p.create w.db d).1 k)
  create-Lives w d waits clean k =
      let new = (p.create w.db d).0 in
      let (t, is_new_row) = laws.create_row w.db d in
      let shown = laws.find-create w.db d k in
      elim (Bool-cases (new.id == k)) [
        | inl same ↦
            let absent : row p w k ≡ none =
              ap (row p w) (sym ((==_iff new.id k).0 same)) ∙ laws.create_new w.db d in
            subst (λ x. Evolves (row p w k) x) (sym (rw same at shown))
              (created (subst (λ x. Evolves (row p w k) x) absent unchanged)
                (subst IsNew (sym is_new_row) (new_job-IsNew new.id t d waits clean)))
        | inr other ↦ subst (λ x. Evolves (row p w k) x) (sym (rw other at shown)) unchanged
      ]

  -- The row that was just created.
  found_new :
      (w : World p.Db) (d : JobCreateInput)
      → p.find_unique (p.create w.db d).1 (p.create w.db d).0.id ≡ some (p.create w.db d).0
  found_new w d =
      let new = (p.create w.db d).0 in
      rw ((==_iff new.id new.id).1 refl) at (laws.find-create w.db d new.id)

  new_waits :
      (w : World p.Db) (d : JobCreateInput)
      → d.status ≡ queued
      → (p.create w.db d).0.status ≡ queued
  new_waits w d waits = ap (λ (j : Job). j.status) (laws.create_row w.db d).1 ∙ waits

  pub enqueue_job-Lives :
      (input : EnqueueJobInput) (w : World p.Db) → Lives p w (enqueue_job p input w).1
  unfolding enqueue_job create_queued_job notify try_send
  enqueue_job-Lives input w =
      check-Lives p (assert_job_data_is_sanitized (or_else input.payload (object end))) _ w
        λ passed k.
          let clean = (assert_job_data_is_sanitized_iff _).0 passed in
          Evolves-trans (create-Lives w _ refl clean k)
            (enqueued-Lives _ _ _ (found_new w _) (new_waits w _ refl) k)
