-- ===== src/Job/Service/Lives.antt =====
-- Every operation of the service, failing or not, takes each row of the table through changes that
-- are meant to happen to it: rules for the parts that operations are made of.
pub mod Attempts
pub mod Endings
pub mod Queueing
pub mod Rounds
pub mod Loops
pub mod Repairs
use mathlib.Core.Option
use silo_core.Base.{
  ℕ, ◌≡◌, refl, ◌∙◌, Bool, true, false, Option, none, some, arith, ◌==◌, if◌then◌else◌, Bool-cases,
  Option-cases, inl, inr, sym, ap, subst, ==_iff, or_else, ◌&&◌, [],
}
use silo_core.Errors.{Result, ok, err}
use silo_core.Exec.{Exec, pure, check, raise, ◌>>=◌, ◌>>◌, after}
use silo_core.Job.{Job, JobNotificationHint}
use silo_core.Job.Platform.{Platform, IsPlatform, World, KeepsId}
use silo_core.Job.Repository.{find_by_id, find_by_id_in_workspace, update_job}
use silo_core.Job.Service.{
  now, or_now, or_not_found, get_existing_job, get_existing_job_in_workspace, update_job_and_notify,
  finalize_job, finalize_job_and_notify,
}
use silo_core.Job.Service.Rows.{
  row, Writes, update_job-Writes, update_job_and_notify-Writes, finalize_job-Writes,
  finalize_job_and_notify-Writes,
}
use silo_core.Job.History.{Change, Evolves, unchanged, changed}
use silo_core.Job.History.Laws.{Evolves-trans}

-- What the second world has of each row is what may have become of it in the first.
abbrev pub Lives : (p : Platform) → World p.Db → World p.Db → Type 0
Lives p w w' = (k : ℕ) → Evolves (row p w k) (row p w' k)

written :
    {o u : Option Job} {j : Job} (f : Job → Job)
    → u ≡ Option.map f o
    → o ≡ some j
    → Change j (f j)
    → Evolves o u
written {o} {u} {j} f e found c =
    subst (λ x. Evolves o x) (sym (e ∙ ap (Option.map f) found))
      (changed (subst (λ x. Evolves o x) found unchanged) c)

module _ (p : Platform) where
  pub write-Lives :
      (w w' : World p.Db) {j : Job} (id : ℕ) (f : Job → Job)
      → Writes p w id f w'
      → row p w id ≡ some j
      → Change j (f j)
      → Lives p w w'
  write-Lives w w' id f writes found c k = elim (Bool-cases (id == k)) [
    | inl same ↦ written f (rw same at (writes k)) (rw (← (==_iff id k).0 same) found) c
    | inr other ↦ subst (λ x. Evolves (row p w k) x) (sym (rw other at (writes k))) unchanged
  ]

  module _ (laws : IsPlatform p) where
    pub update-Lives :
        (w : World p.Db) {j : Job} (id : ℕ) (f : Job → Job)
        → KeepsId f
        → row p w id ≡ some j
        → Change j (f j)
        → Lives p w (update_job p id f w).1
    update-Lives w id f keeps =
        write-Lives w (update_job p id f w).1 id f (update_job-Writes p laws id f w keeps)

    pub update_notify-Lives :
        (w : World p.Db) {j : Job} (id : ℕ) (f : Job → Job) (hint : JobNotificationHint)
        → KeepsId f
        → row p w id ≡ some j
        → Change j (f j)
        → Lives p w (update_job_and_notify p id f hint w).1
    update_notify-Lives w id f hint keeps =
        write-Lives w (update_job_and_notify p id f hint w).1 id f
          (update_job_and_notify-Writes p laws id f hint w keeps)

    pub finalize-Lives :
        (w : World p.Db) {j : Job} (id : ℕ) (f : Job → Job)
        → KeepsId f
        → row p w id ≡ some j
        → Change j (f j)
        → Lives p w (finalize_job p id f w).1
    finalize-Lives w id f keeps =
        write-Lives w (finalize_job p id f w).1 id f (finalize_job-Writes p laws id f w keeps)

    pub finalize_notify-Lives :
        (w : World p.Db) {j : Job} (id : ℕ) (f : Job → Job) (hint : JobNotificationHint)
        → KeepsId f
        → row p w id ≡ some j
        → Change j (f j)
        → Lives p w (finalize_job_and_notify p id f hint w).1
    finalize_notify-Lives w id f hint keeps =
        write-Lives w (finalize_job_and_notify p id f hint w).1 id f
          (finalize_job_and_notify-Writes p laws id f hint w keeps)

    -- `job ← getExistingJobInWorkspace(id, workspaceId)`
    pub read_in_workspace-Lives :
        {A : Type 0} (id workspace_id : ℕ) (m : Job → Exec (World p.Db) A) (w : World p.Db)
        → ((j : Job) → row p w j.id ≡ some j → Lives p w (m j w).1)
        → Lives p w ((get_existing_job_in_workspace p id workspace_id >>= m) w).1
    unfolding get_existing_job_in_workspace find_by_id_in_workspace
    read_in_workspace-Lives id workspace_id m w h =
        elim (Option-cases
          (p.find_first w.db (λ j. j.id == id && j.workspace_id == workspace_id) [])) [
            | inl missing ↦ rw missing (λ k. unchanged)
            | inr (j, found) ↦ rw found (h j (laws.find_first_some w.db _ [] j found).1)
          ]

    -- A row that was found has the id that it was looked up by.
    pub found_again :
        {id : ℕ} {j : Job} (w v : World p.Db)
        → row p w id ≡ some j
        → v.db ≡ w.db
        → row p v j.id ≡ some j
    found_again {id} {j} w v found same =
        ap (row p v) (laws.row_id w.db id j found)
        ∙ ap (λ (db : p.Db). p.find_unique db id) same
        ∙ found

  -- `job ← getExistingJob(id)`
  pub read-Lives :
      {A : Type 0} (id : ℕ) (m : Job → Exec (World p.Db) A) (w : World p.Db)
      → ((j : Job) → row p w id ≡ some j → Lives p w (m j w).1)
      → Lives p w ((get_existing_job p id >>= m) w).1
  unfolding get_existing_job find_by_id
  read-Lives id m w h = elim (Option-cases (row p w id)) [
    | inl missing ↦ rw missing (λ k. unchanged)
    | inr (j, found) ↦ rw found (h j found)
  ]

  -- One step after another.
  pub bind-Lives :
      {A B : Type 0} (k : A → Exec (World p.Db) B) (w : World p.Db) (r : Result A × World p.Db)
      → Lives p w r.1
      → ((a : A) (v : World p.Db) → r ≡ (ok a, v) → Lives p v (k a v).1)
      → Lives p w (after r k).1
  bind-Lives k w (ok a, v) h g = λ i. Evolves-trans (h i) (g a v refl i)
  bind-Lives k w (err e, v) h g = h

  pub if-Lives :
      {A : Type 0} (b : Bool) (m n : Exec (World p.Db) A) (w : World p.Db)
      → (b ≡ true → Lives p w (m w).1)
      → (b ≡ false → Lives p w (n w).1)
      → Lives p w ((if b then m else n) w).1
  if-Lives true m n w h g = h refl
  if-Lives false m n w h g = g refl

  pub check-Lives :
      {A : Type 0} (r : Result (Unit {0})) (m : Exec (World p.Db) A) (w : World p.Db)
      → (r ≡ ok tt → Lives p w (m w).1)
      → Lives p w ((check r >> m) w).1
  check-Lives (ok u) m w h = h refl
  check-Lives (err e) m w h = λ k. unchanged

  pub now-Lives :
      {A : Type 0} (m : ℕ → Exec (World p.Db) A) (w : World p.Db)
      → ((t : ℕ) (v : World p.Db) → v.db ≡ w.db → Lives p v (m t v).1)
      → Lives p w ((now p >>= m) w).1
  unfolding now
  now-Lives m w h = h _ _ refl

  pub or_now-Lives :
      {A : Type 0} (o : Option ℕ) (m : ℕ → Exec (World p.Db) A) (w : World p.Db)
      → ((t : ℕ) (v : World p.Db) → or_else o t ≡ t → v.db ≡ w.db → Lives p v (m t v).1)
      → Lives p w ((or_now p o >>= m) w).1
  unfolding or_now now
  or_now-Lives none m w h = h _ _ refl refl
  or_now-Lives (some t) m w h = h _ _ refl refl
