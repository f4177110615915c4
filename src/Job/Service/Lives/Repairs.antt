-- ===== src/Job/Service/Lives/Repairs.antt =====
-- The two repairs as a whole: under their lock, with the query that selects the jobs.
use silo_core.Base.{
  ℕ, ◌-◌, ◌≡◌, sym, ap, subst, Bool, true, false, Option, some, List, [], ◌∷◌, arith, All, length,
  or_else, ◌≤◌,
}
use silo_core.Base.Int.{Number, int, pos}
use silo_core.Errors.{Result, ok, err}
use silo_core.Job.{Job, queued, running}
use silo_core.Job.Platform.{Platform, IsPlatform, World, asc, by_created_at, by_started_at}
use silo_core.Job.Repository.{
  is_queued_without_message, is_stale_running, committed, find_queued_jobs_without_queue_message,
  find_stale_running_jobs, run_with_job_queue_reconciliation_lock,
  run_with_stale_running_job_recovery_lock,
}
use silo_core.Job.Service.{or_now, assert_positive_integer}
use silo_core.Job.Service.Repairs.{
  reconcile_locked, recover_locked, default_reconciliation_limit,
  reconcile_queued_jobs_without_queue_message, recover_stale_running_jobs,
}
use silo_core.Job.Service.Rows.{row}
use silo_core.Job.Service.Lives.{Lives, or_now-Lives, bind-Lives}
use silo_core.Job.Service.Lives.Loops.{
  reconciled_count, reconciled_kept, recovered_count, recovered_kept, is_running, Listed, Repaired,
  reconcile_jobs-Repaired, recover_jobs-Repaired,
}
use silo_core.Job.History.{unchanged, Evolves}

-- The rows of a query, with a consequence of its test.
rows-Listed :
    (p : Platform) (P : Job → Type 0) (q : Job → Bool) (w : World p.Db) (js : List Job)
    → ((j : Job) → q j ≡ true → P j)
    → All (λ j. (p.find_unique w.db j.id ≡ some j) × (q j ≡ true)) js
    → Listed p P w js
rows-Listed p P q w [] h a = tt
rows-Listed p P q w (j ∷ js) h ((found, passed), a) =
    ((found, h j passed), rows-Listed p P q w js h a)

queued_of_test : (j : Job) → is_queued_without_message j ≡ true → j.status ≡ queued
queued_of_test j h = ground arith

running_of_test : (t : ℕ) (j : Job) → is_stale_running t j ≡ true → j.status ≡ running
running_of_test t j h = ground arith

assert_positive_integer_ok : (n : ℕ) → 1 ≤ n → assert_positive_integer (int (pos n)) ≡ ok n
unfolding assert_positive_integer
assert_positive_integer_ok n h = ground arith

module _ (p : Platform) (laws : IsPlatform p) where
  -- A transaction whose body throws leaves every row as it was.
  committed-Lives :
      {A : Type 0} (w : World p.Db) (r : Result A × World p.Db)
      → Lives p w r.1
      → Lives p w (committed p w.db r).1
  committed-Lives w (ok a, v) h = h
  committed-Lives w (err e, v) h =
      λ k. subst (λ x. Evolves (row p w k) x) (sym (laws.find-rollback w.db v.db k)) unchanged

  abbrev candidates : World p.Db → ℕ → List Job
  candidates w limit =
      p.find_many w.db is_queued_without_message (asc by_created_at ∷ []) (some limit)

  abbrev stale_jobs : World p.Db → ℕ → ℕ → List Job
  stale_jobs w stale_before limit =
      p.find_many w.db (is_stale_running stale_before) (asc by_started_at ∷ []) (some limit)

  reconcile_locked-Repaired :
      (limit : ℕ) (w : World p.Db)
      → let jobs = candidates w limit in
        Repaired p reconciled_count reconciled_kept is_queued_without_message w
          (record { skipped = false; scanned = length jobs; reenqueued = 0; failed = 0 })
          jobs
          (reconcile_locked p limit true w)
  unfolding find_queued_jobs_without_queue_message
  reconcile_locked-Repaired limit w =
      let jobs = candidates w limit in
      reconcile_jobs-Repaired p laws jobs _ w
        (rows-Listed p _ _ w jobs queued_of_test (laws.find_many_rows w.db _ _ _))
        (laws.find_many_distinct w.db _ _ _)

  reconcile_locked-Lives :
      (limit : ℕ) (acquired : Bool) (w : World p.Db)
      → Lives p w (reconcile_locked p limit acquired w).1
  reconcile_locked-Lives limit false w = λ k. unchanged
  reconcile_locked-Lives limit true w =
      let d = reconcile_locked-Repaired limit w in
      subst (λ r. Lives p w r.1) (sym d.returned) d.lives

  pub reconcile_queued_jobs_without_queue_message-Lives :
      (limit : Option ℕ) (w : World p.Db)
      → Lives p w (reconcile_queued_jobs_without_queue_message p limit w).1
  unfolding reconcile_queued_jobs_without_queue_message run_with_job_queue_reconciliation_lock
  reconcile_queued_jobs_without_queue_message-Lives limit w =
      committed-Lives w _ (reconcile_locked-Lives _ (p.try_lock w.db _) w)

  recover_locked-Repaired :
      (now ms limit : ℕ) (w : World p.Db)
      → let jobs = stale_jobs w (now - ms) limit in
        Repaired p recovered_count recovered_kept is_running w
          (record { skipped = false; scanned = length jobs; requeued = 0; failed = 0 })
          jobs
          (recover_locked p now ms limit true w)
  unfolding find_stale_running_jobs
  recover_locked-Repaired now ms limit w =
      let jobs = stale_jobs w (now - ms) limit in
      recover_jobs-Repaired p laws now jobs _ w
        (rows-Listed p _ _ w jobs (running_of_test (now - ms)) (laws.find_many_rows w.db _ _ _))
        (laws.find_many_distinct w.db _ _ _)

  recover_locked-Lives :
      (now ms limit : ℕ) (acquired : Bool) (w : World p.Db)
      → Lives p w (recover_locked p now ms limit acquired w).1
  recover_locked-Lives now ms limit false w = λ k. unchanged
  recover_locked-Lives now ms limit true w =
      let d = recover_locked-Repaired now ms limit w in
      subst (λ r. Lives p w r.1) (sym d.returned) d.lives

  pub recover_stale_running_jobs-Lives :
      (stale_job_ms : Number) (limit given_now : Option ℕ) (w : World p.Db)
      → Lives p w (recover_stale_running_jobs p stale_job_ms limit given_now w).1
  unfolding recover_stale_running_jobs run_with_stale_running_job_recovery_lock
  recover_stale_running_jobs-Lives stale_job_ms limit given_now w =
      bind-Lives p _ w (assert_positive_integer stale_job_ms, w) (λ k. unchanged)
        λ ms v _.
          or_now-Lives p given_now _ v
            λ now u _ _. committed-Lives u _ (recover_locked-Lives now ms _ (p.try_lock u.db _) u)

  -- What a returning body does, its transaction commits.
  committed-Repaired :
      {A : Type 0} {count : A → ℕ} {kept : A → Bool × ℕ} {test : Job → Bool} {w : World p.Db}
      {a : A} {js : List Job} {r : Result A × World p.Db}
      → Repaired p count kept test w a js r
      → Repaired p count kept test w a js (committed p w.db r)
  committed-Repaired {w = w} d = record {
    value = d.value;
    world = d.world;
    returned = ap (committed p w.db) d.returned;
    lives = d.lives;
    frame = d.frame;
    kept_same = d.kept_same;
    counted = d.counted;
    repaired = d.repaired;
  }

  -- A reconciliation that gets the lock returns: it counts each queued job that has no message,
  -- up to the limit and oldest first, as enqueued again or as failed; none of them is left queued
  -- without a message; and the rows of all other jobs stay as they were.
  pub reconciliation_repairs :
      (limit : Option ℕ) (w : World p.Db)
      → p.try_lock w.db "silocore.job_queue_reconciliation" ≡ true
      → let jobs = candidates w (or_else limit default_reconciliation_limit) in
        Repaired p reconciled_count reconciled_kept is_queued_without_message w
          (record { skipped = false; scanned = length jobs; reenqueued = 0; failed = 0 })
          jobs
          (reconcile_queued_jobs_without_queue_message p limit w)
  unfolding reconcile_queued_jobs_without_queue_message run_with_job_queue_reconciliation_lock
  reconciliation_repairs limit w locked = rw locked (
      committed-Repaired (reconcile_locked-Repaired (or_else limit default_reconciliation_limit) w))

  -- A recovery that gets the lock, for a positive time and at a given now, returns: it counts each
  -- running job without a sign of life for that time, up to the limit, as queued again or as failed; none
  -- of them is left running; and the rows of all other jobs stay as they were.
  pub recovery_repairs :
      (ms : ℕ) (limit : Option ℕ) (now : ℕ) (w : World p.Db)
      → 1 ≤ ms
      → p.try_lock w.db "silocore.stale_running_job_recovery" ≡ true
      → let jobs = stale_jobs w (now - ms) (or_else limit default_reconciliation_limit) in
        Repaired p recovered_count recovered_kept is_running w
          (record { skipped = false; scanned = length jobs; requeued = 0; failed = 0 })
          jobs
          (recover_stale_running_jobs p (int (pos ms)) limit (some now) w)
  unfolding recover_stale_running_jobs run_with_stale_running_job_recovery_lock or_now
  recovery_repairs ms limit now w positive locked =
      rw (assert_positive_integer_ok ms positive, locked)
        (committed-Repaired
          (recover_locked-Repaired now ms (or_else limit default_reconciliation_limit) w))
