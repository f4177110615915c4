-- ===== src/Job/Service/Lives/Loops.antt =====
-- The loops of the two repairs, from one round of each.
use mathlib.Core.Option
use silo_core.Base.{
  ℕ, ◌+◌, ◌≡◌, ◌≢◌, refl, ◌∙◌, sym, ap, Bool, false, some, List, [], ◌∷◌, ◌++◌, arith, inl, inr,
  ◌==◌, Bool-cases, ==_iff, All, length, suc,
}
use silo_core.Errors.{Result, ok}
use silo_core.Exec.{Exec, after}
use silo_core.Job.{Job, queued, running, same_status}
use silo_core.Job.Platform.{Platform, IsPlatform, World, HasDistinctIds}
use silo_core.Job.Repository.{is_queued_without_message}
use silo_core.Job.Service.Queueing.{try_send, message_for}
use silo_core.Job.Service.Repairs.{
  JobReconciliationResult, StaleRunningJobRecoveryResult, reconcile_jobs, recover_jobs,
}
use silo_core.Job.Service.Rows.{row}
use silo_core.Job.Service.Lives.{Lives, write-Lives}
use silo_core.Job.Service.Lives.Rounds.{Round, reconcile_job-Round, recover_job-Round}
use silo_core.Job.History.{unchanged}
use silo_core.Job.History.Laws.{Evolves-trans}

-- The jobs of a list are in the table as the list has them.
abbrev pub Listed : (p : Platform) → (Job → Type 0) → World p.Db → List Job → Type 0
Listed p P w js = All (λ j. (row p w j.id ≡ some j) × P j) js

-- What a round reports, by the number of jobs that a result counts, by what it leaves alone, and by
-- a test that the job no longer passes.
abbrev Counted : {A : Type 0} → (A → ℕ) → (A → Bool × ℕ) → (Job → Bool) → A → A → Job → Type 0
Counted count kept test before after job =
    (kept after ≡ kept before) × (count after ≡ suc (count before)) × (test job ≡ false)

-- What a loop over the jobs `js` has done: it returned, each row has lived as it may, the rows of
-- other jobs are as before, each job of the list has been counted and no longer passes the test.
pub record Repaired (p : Platform) {A : Type 0} (count : A → ℕ) (kept : A → Bool × ℕ)
    (test : Job → Bool) (w : World p.Db) (before : A) (js : List Job) (r : Result A × World p.Db)
    : Type 0 where
  pub value : A
  pub world : World p.Db
  pub returned : r ≡ (ok value, world)
  pub lives : Lives p w world
  pub frame : (k : ℕ) → All (λ j. k ≢ j.id) js → row p world k ≡ row p w k
  pub kept_same : kept value ≡ kept before
  pub counted : count value ≡ length js + count before
  pub repaired : All (λ j. (j' : Job) × (row p world j.id ≡ some j') × (test j' ≡ false)) js

module _ (p : Platform) {A : Type 0} where
  -- What one round leaves of the rows that it is not about.
  round_frame :
      {T : A → Job → Type 0} (w : World p.Db) {j : Job} {r : Result A × World p.Db}
      (d : Round p w.db j r T) (k : ℕ)
      → k ≢ j.id
      → row p d.world k ≡ row p w k
  round_frame w {j = j} d k other = elim (Bool-cases (j.id == k)) [
    | inl same ↦ absurd (other (sym ((==_iff j.id k).0 same)))
    | inr differs ↦ rw differs at (d.written k)
  ]

  round_self :
      {T : A → Job → Type 0} (w : World p.Db) {j : Job} {r : Result A × World p.Db}
      (d : Round p w.db j r T)
      → row p w j.id ≡ some j
      → row p d.world j.id ≡ some (d.f j)
  round_self w {j = j} d found =
      rw ((==_iff j.id j.id).1 refl) at (d.written j.id) ∙ ap (Option.map d.f) found

  pub round-Listed :
      {T : A → Job → Type 0} (w : World p.Db) {j : Job} {r : Result A × World p.Db}
      (P : Job → Type 0) (d : Round p w.db j r T) (js : List Job)
      → All (λ k. j.id ≢ k.id) js
      → Listed p P w js
      → Listed p P d.world js
  round-Listed w P d [] other h = tt
  round-Listed w P d (k ∷ js) (differs, others) ((found, holds), h) =
      ((round_frame w d k.id (λ e. differs (sym e)) ∙ found, holds), round-Listed w P d js others h)

module _ (p : Platform) {A : Type 0} (count : A → ℕ) (kept : A → Bool × ℕ) (test : Job → Bool) where
  none_left : (w : World p.Db) (a : A) → Repaired p count kept test w a [] (ok a, w)
  none_left w a = record {
    value = a;
    world = w;
    returned = refl;
    lives = λ k. unchanged;
    frame = λ k h. refl;
    kept_same = refl;
    counted = omega arith;
    repaired = tt;
  }

  one_more :
      (w : World p.Db) (a : A) (j : Job) (js : List Job) (r : Result A × World p.Db)
      (rest : A → Exec (World p.Db) A)
      → (found : row p w j.id ≡ some j) → (others : All (λ k. j.id ≢ k.id) js)
      → (d : Round p w.db j r (Counted count kept test a))
      → Repaired p count kept test d.world d.value js (rest d.value d.world)
      → Repaired p count kept test w a (j ∷ js) (after r rest)
  one_more w a j js r rest found others d e = record {
    value = e.value;
    world = e.world;
    returned = ap (λ x. after x rest) d.returned ∙ e.returned;
    lives = λ k.
        Evolves-trans (write-Lives p w d.world j.id d.f d.written found d.change k) (e.lives k);
    frame = λ k (differs, h). e.frame k h ∙ round_frame p w d k differs;
    kept_same = e.kept_same ∙ d.told.0;
    counted = omega (arith, e.counted, d.told.1);
    repaired = ((d.f j, e.frame j.id others ∙ round_self p w d found, d.told.2), e.repaired);
  }

abbrev pub reconciled_count : JobReconciliationResult → ℕ
reconciled_count r = r.reenqueued + r.failed

abbrev pub reconciled_kept : JobReconciliationResult → Bool × ℕ
reconciled_kept r = (r.skipped, r.scanned)

abbrev pub recovered_count : StaleRunningJobRecoveryResult → ℕ
recovered_count r = r.requeued + r.failed

abbrev pub recovered_kept : StaleRunningJobRecoveryResult → Bool × ℕ
recovered_kept r = (r.skipped, r.scanned)

abbrev pub is_running : Job → Bool
is_running j = same_status j.status running

module _ (p : Platform) (laws : IsPlatform p) where
  pub reconcile_jobs-Repaired :
      (js : List Job) (a : JobReconciliationResult) (w : World p.Db)
      → Listed p (λ j. j.status ≡ queued) w js
      → HasDistinctIds js
      → Repaired p reconciled_count reconciled_kept is_queued_without_message w a js
          (reconcile_jobs p js a w)
  unfolding reconcile_jobs try_send
  reconcile_jobs-Repaired [] a w h distinct = none_left p _ _ _ w a
  reconcile_jobs-Repaired (j ∷ js) a w ((found, waits), h) (others, distinct) =
      let v = record w { sent = w.sent ++ message_for p j.job_type j ∷ [] } in
      let d = reconcile_job-Round p laws j a _ v found waits in
      one_more p _ _ _ w a j js _ _ found others d
        (reconcile_jobs-Repaired js d.value d.world (round-Listed p w _ d js others h) distinct)

  pub recover_jobs-Repaired :
      (now : ℕ) (js : List Job) (a : StaleRunningJobRecoveryResult) (w : World p.Db)
      → Listed p (λ j. j.status ≡ running) w js
      → HasDistinctIds js
      → Repaired p recovered_count recovered_kept is_running w a js (recover_jobs p now js a w)
  unfolding recover_jobs
  recover_jobs-Repaired now [] a w h distinct = none_left p _ _ _ w a
  recover_jobs-Repaired now (j ∷ js) a w ((found, runs), h) (others, distinct) =
      let d = recover_job-Round p laws now j a w found runs in
      one_more p _ _ _ w a j js _ _ found others d
        (recover_jobs-Repaired now js d.value d.world (round-Listed p w _ d js others h) distinct)
