-- ===== src/Job/Service/Rows.antt =====
-- What the helpers of the service do to the rows of the table, and what they return.
use mathlib.Core.Option
use silo_core.Base.{ℕ, ◌≡◌, refl, ◌∙◌, ap, Option, none, some, ◌==◌, if◌then◌else◌}
use silo_core.Errors.{Result, ok, err}
use silo_core.Job.{Job, JobNotificationHint}
use silo_core.Job.Platform.{JobMetricOutcome, Platform, IsPlatform, World, KeepsId}
use silo_core.Job.Repository.{update_job, updated}
use silo_core.Job.Service.{
  notify, record_outcome, record_job_metric_safely, update_job_and_notify, finalize_job,
  finalize_job_and_notify,
}
use silo_core.Exec.{after, ◌>>◌, pure}

-- The row with an id.
abbrev pub row : (p : Platform) → World p.Db → ℕ → Option Job
row p w k = p.find_unique w.db k

-- The second world has the rows of the first, but for the change of one.
abbrev pub Writes : (p : Platform) → World p.Db → ℕ → (Job → Job) → World p.Db → Type 0
Writes p w id f w' =
    (k : ℕ) → row p w' k ≡ (if id == k then Option.map f (row p w k) else row p w k)

module _ (p : Platform) (laws : IsPlatform p) where
  updated-db : (w : World p.Db) (r : Option Job × p.Db) → (updated p w r).1.db ≡ r.1
  updated-db w (none, db) = refl
  updated-db w (some j, db) = refl

  updated-reply :
      (w : World p.Db) (r : Option Job × p.Db) (j : Job) → r.0 ≡ some j → (updated p w r).0 ≡ ok j
  updated-reply w (none, db) j e = cc
  updated-reply w (some i, db) j e = cc

  pub update_job-Writes :
      (id : ℕ) (f : Job → Job) (w : World p.Db)
      → KeepsId f
      → Writes p w id f (update_job p id f w).1
  unfolding update_job
  update_job-Writes id f w keeps k =
      ap (λ (db : p.Db). p.find_unique db k) (updated-db w (p.update w.db id f))
      ∙ laws.find-update w.db id f k keeps

  pub update_job-reply :
      (id : ℕ) (f : Job → Job) (w : World p.Db) {j : Job}
      → KeepsId f
      → row p w id ≡ some j
      → (update_job p id f w).0 ≡ ok (f j)
  unfolding update_job
  update_job-reply id f w keeps e = updated-reply w _ _ (laws.update_reply w.db id f keeps ∙ rw e)

  notified-db :
      (r : Result Job × World p.Db) (hint : JobNotificationHint)
      → (after r (λ job. notify p job.id hint >> pure job)).1.db ≡ r.1.db
  unfolding notify
  notified-db (ok j, w) hint = refl
  notified-db (err e, w) hint = refl

  notified-reply :
      (r : Result Job × World p.Db) (hint : JobNotificationHint)
      → (after r (λ job. notify p job.id hint >> pure job)).0 ≡ r.0
  unfolding notify
  notified-reply (ok j, w) hint = refl
  notified-reply (err e, w) hint = refl

  pub update_job_and_notify-Writes :
      (id : ℕ) (f : Job → Job) (hint : JobNotificationHint) (w : World p.Db)
      → KeepsId f
      → Writes p w id f (update_job_and_notify p id f hint w).1
  unfolding update_job_and_notify
  update_job_and_notify-Writes id f hint w keeps k =
      ap (λ (db : p.Db). p.find_unique db k) (notified-db (update_job p id f w) hint)
      ∙ update_job-Writes id f w keeps k

  pub update_job_and_notify-reply :
      (id : ℕ) (f : Job → Job) (hint : JobNotificationHint) (w : World p.Db) {j : Job}
      → KeepsId f
      → row p w id ≡ some j
      → (update_job_and_notify p id f hint w).0 ≡ ok (f j)
  unfolding update_job_and_notify
  update_job_and_notify-reply id f hint w keeps e =
      notified-reply _ hint ∙ update_job-reply id f w keeps e

  row-record_outcome :
      (job : Job) (outcome : Option JobMetricOutcome) (w : World p.Db) (k : ℕ)
      → row p (record_outcome p job outcome w).1 k ≡ row p w k
  unfolding record_outcome
  row-record_outcome job none w k = refl
  row-record_outcome job (some outcome) w k = laws.find-create_metric w.db _ k

  record_outcome-reply :
      (job : Job) (outcome : Option JobMetricOutcome) (w : World p.Db)
      → (record_outcome p job outcome w).0 ≡ ok tt
  unfolding record_outcome
  record_outcome-reply job none w = refl
  record_outcome-reply job (some outcome) w = refl

  after_unit-world :
      (r : Result (Unit {0}) × World p.Db) (j : Job) → (after r (λ _. pure j)).1 ≡ r.1
  after_unit-world (ok u, w) j = refl
  after_unit-world (err e, w) j = refl

  after_unit-reply :
      (r : Result (Unit {0}) × World p.Db) (j : Job)
      → r.0 ≡ ok tt
      → (after r (λ _. pure j)).0 ≡ ok j
  after_unit-reply (ok u, w) j h = refl
  after_unit-reply (err e, w) j h = cc

  measured-row :
      (r : Result Job × World p.Db) (k : ℕ)
      → row p (after r (λ job. record_job_metric_safely p job >> pure job)).1 k ≡ row p r.1 k
  unfolding record_job_metric_safely
  measured-row (ok j, w) k =
      ap (λ (v : World p.Db). row p v k) (after_unit-world (record_outcome p j _ w) j)
      ∙ row-record_outcome j _ w k
  measured-row (err e, w) k = refl

  measured-reply :
      (r : Result Job × World p.Db)
      → (after r (λ job. record_job_metric_safely p job >> pure job)).0 ≡ r.0
  unfolding record_job_metric_safely
  measured-reply (ok j, w) =
      after_unit-reply (record_outcome p j _ w) j (record_outcome-reply j _ w)
  measured-reply (err e, w) = refl

  pub finalize_job-Writes :
      (id : ℕ) (f : Job → Job) (w : World p.Db)
      → KeepsId f
      → Writes p w id f (finalize_job p id f w).1
  unfolding finalize_job
  finalize_job-Writes id f w keeps k =
      measured-row (update_job p id f w) k ∙ update_job-Writes id f w keeps k

  pub finalize_job-reply :
      (id : ℕ) (f : Job → Job) (w : World p.Db) {j : Job}
      → KeepsId f
      → row p w id ≡ some j
      → (finalize_job p id f w).0 ≡ ok (f j)
  unfolding finalize_job
  finalize_job-reply id f w keeps e =
      measured-reply (update_job p id f w) ∙ update_job-reply id f w keeps e

  pub finalize_job_and_notify-Writes :
      (id : ℕ) (f : Job → Job) (hint : JobNotificationHint) (w : World p.Db)
      → KeepsId f
      → Writes p w id f (finalize_job_and_notify p id f hint w).1
  unfolding finalize_job_and_notify
  finalize_job_and_notify-Writes id f hint w keeps k =
      measured-row (update_job_and_notify p id f hint w) k
      ∙ update_job_and_notify-Writes id f hint w keeps k

  pub finalize_job_and_notify-reply :
      (id : ℕ) (f : Job → Job) (hint : JobNotificationHint) (w : World p.Db) {j : Job}
      → KeepsId f
      → row p w id ≡ some j
      → (finalize_job_and_notify p id f hint w).0 ≡ ok (f j)
  unfolding finalize_job_and_notify
  finalize_job_and_notify-reply id f hint w keeps e =
      measured-reply (update_job_and_notify p id f hint w)
      ∙ update_job_and_notify-reply id f hint w keeps e
