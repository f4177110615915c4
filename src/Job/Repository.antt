-- ===== src/Job/Repository.antt =====
-- job.repository.ts: the queries on the table `jobs`, and the transactions under a named lock.
use silo_core.Base.{
  ℕ, String, Bool, true, false, ◌&&◌, ◌||◌, Option, none, some, List, [], ◌∷◌, map, any, ltb, ◌==◌,
  str_eq, not, is_some,
}
use silo_core.Errors.{Result, ok, err, external}
use silo_core.Exec.{Exec}
use silo_core.Job.{Job, JobStatus, queued, running, succeeded, failed, cancelled, same_status}
use silo_core.Json.{Json}
use silo_core.Job.Platform.{
  Platform, World, asc, desc, by_id, by_created_at, by_started_at, by_completed_at,
}

pub record CreateQueuedJobData : Type 0 where
  pub workspace_id : ℕ
  pub created_by_user_id : ℕ
  pub job_type : String
  pub payload : Json
  pub max_attempts : ℕ
  pub stage : String

-- `JobEventSelectFields` (job.model.ts)
pub record SelectedJobEvent : Type 0 where
  pub id : ℕ
  pub job_type : String
  pub status : JobStatus
  pub completed_at : Option ℕ

abbrev select_event : Job → SelectedJobEvent
select_event j = record {
  id = j.id;
  job_type = j.job_type;
  status = j.status;
  completed_at = j.completed_at;
}

pub record ListJobEventsInput : Type 0 where
  pub workspace_id : ℕ
  pub types : List String
  pub statuses : List JobStatus
  pub completed_since : Option ℕ
  pub before_id : Option ℕ
  -- the time and the id
  pub completed_before : Option (ℕ × ℕ)
  pub limit : ℕ

abbrev status_in : List JobStatus → JobStatus → Bool
status_in statuses s = any (λ t. same_status t s) statuses

abbrev type_in : List String → String → Bool
type_in types t = any (λ u. str_eq u t) types

-- Comparisons with a column that may be null, which then does not match.
abbrev column_lt : Option ℕ → ℕ → Bool
column_lt none t = false
column_lt (some s) t = ltb s t

abbrev column_ge : Option ℕ → ℕ → Bool
column_ge none t = false
column_ge (some s) t = not (ltb s t)

abbrev column_eq : Option ℕ → ℕ → Bool
column_eq none t = false
column_eq (some s) t = s == t

-- The `where` of each query.
abbrev pub is_queued_without_message : Job → Bool
is_queued_without_message j = same_status j.status queued && not (is_some j.queue_message_id)

abbrev pub is_stale_running : ℕ → Job → Bool
is_stale_running stale_before j =
    same_status j.status running
    && (column_lt j.heartbeat_at stale_before
        || (not (is_some j.heartbeat_at) && column_lt j.started_at stale_before))

abbrev pub is_before_completed : Option (ℕ × ℕ) → Job → Bool
is_before_completed none j = true
is_before_completed (some (at, id)) j =
    column_lt j.completed_at at || (column_eq j.completed_at at && ltb j.id id)

abbrev pub is_before_id : Option ℕ → Job → Bool
is_before_id none j = true
is_before_id (some id) j = (id == 0) || ltb j.id id

abbrev pub is_listed : ListJobEventsInput → Job → Bool
is_listed input j =
    j.workspace_id == input.workspace_id
    && (type_in input.types j.job_type && status_in input.statuses j.status)

module _ (p : Platform) where
  open p use {Db, find_unique, find_first, find_many, create, update, try_lock, rollback}

  unfoldable pub create_queued_job : CreateQueuedJobData → Exec (World Db) Job
  create_queued_job d w =
      let (job, db') = create w.db (record {
        workspace_id = d.workspace_id;
        created_by_user_id = d.created_by_user_id;
        job_type = d.job_type;
        status = queued;
        payload = d.payload;
        max_attempts = d.max_attempts;
        stage = d.stage;
      }) in
      (ok job, record w { db = db' })

  unfoldable pub find_by_id : ℕ → Exec (World Db) (Option Job)
  find_by_id id w = (ok (find_unique w.db id), w)

  unfoldable pub find_by_id_in_workspace : ℕ → ℕ → Exec (World Db) (Option Job)
  find_by_id_in_workspace id workspace_id w =
      (ok (find_first w.db (λ j. j.id == id && j.workspace_id == workspace_id) []), w)

  unfoldable pub find_events_by_ids_in_workspace :
      List ℕ → ℕ → Exec (World Db) (List SelectedJobEvent)
  find_events_by_ids_in_workspace ids workspace_id w = (
    ok (
        map select_event (
          find_many w.db (λ j. any (λ i. i == j.id) ids && j.workspace_id == workspace_id) []
            none)),
    w,
  )

  completed_events : ℕ → ListJobEventsInput → Db → List Job
  completed_events since input db =
      find_many db
        (λ j.
          is_listed input j
          && (column_ge j.completed_at since && is_before_completed input.completed_before j))
        (desc by_completed_at ∷ desc by_id ∷ []) (some input.limit)

  other_events : ListJobEventsInput → Db → List Job
  other_events input db =
      find_many db (λ j. is_listed input j && is_before_id input.before_id j) (desc by_id ∷ [])
        (some input.limit)

  unfoldable pub list_job_events_in_workspace :
      ListJobEventsInput → Exec (World Db) (List SelectedJobEvent)
  unfolding completed_events other_events
  list_job_events_in_workspace input w = elim input.completed_since [
    | some since ↦ (ok (map select_event (completed_events since input w.db)), w)
    | none ↦ (ok (map select_event (other_events input w.db)), w)
  ]

  unfoldable pub find_queued_jobs_without_queue_message : ℕ → Exec (World Db) (List Job)
  find_queued_jobs_without_queue_message limit w =
      (ok (find_many w.db is_queued_without_message (asc by_created_at ∷ []) (some limit)), w)

  unfoldable pub find_stale_running_jobs : ℕ → ℕ → Exec (World Db) (List Job)
  find_stale_running_jobs stale_before limit w =
      (ok (find_many w.db (is_stale_running stale_before) (asc by_started_at ∷ []) (some limit)), w)

  unfoldable pub find_latest_non_terminal_job_by_type : String → Exec (World Db) (Option Job)
  find_latest_non_terminal_job_by_type type w = (
    ok (
        find_first w.db
          (λ j.
            str_eq j.job_type type
            && not (status_in (succeeded ∷ failed ∷ cancelled ∷ []) j.status))
          (desc by_created_at ∷ [])),
    w,
  )

  abbrev pub updated : World Db → Option Job × Db → Result Job × World Db
  updated w (none, db') = (err (external "P2025"), record w { db = db' })
  updated w (some job, db') = (ok job, record w { db = db' })

  unfoldable pub update_job : ℕ → (Job → Job) → Exec (World Db) Job
  update_job id change w = updated w (update w.db id change)

  -- What a transaction leaves: all that its body did to the database, or nothing if it threw.
  abbrev pub committed : {A : Type 0} → Db → Result A × World Db → Result A × World Db
  committed before (ok a, w) = (ok a, w)
  committed before (err e, w) = (err e, record w { db = rollback before w.db })

  abbrev pub run_with_lock : {A : Type 0} → String → (Bool → Exec (World Db) A) → Exec (World Db) A
  run_with_lock name callback w = committed w.db (callback (try_lock w.db name) w)

  unfoldable pub run_with_job_queue_reconciliation_lock :
      {A : Type 0} → (Bool → Exec (World Db) A) → Exec (World Db) A
  run_with_job_queue_reconciliation_lock = run_with_lock "silocore.job_queue_reconciliation"

  unfoldable pub run_with_stale_running_job_recovery_lock :
      {A : Type 0} → (Bool → Exec (World Db) A) → Exec (World Db) A
  run_with_stale_running_job_recovery_lock = run_with_lock "silocore.stale_running_job_recovery"

  unfoldable pub run_with_provider_health_sampling_enqueue_lock :
      {A : Type 0} → (Bool → Exec (World Db) A) → Exec (World Db) A
  run_with_provider_health_sampling_enqueue_lock =
      run_with_lock "silocore.provider_health_sampling_enqueue"
