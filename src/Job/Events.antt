-- ===== src/Job/Events.antt =====
-- job.events.ts: the feed of a workspace's job events, as a machine that reacts to what happens to
-- it: a notification, the timer, the closing of the connection, the start of the next task and the
-- reply to the read that a task waits for. Keep-alives and the parsing of the query are left out.
pub mod Feeds
pub mod Laws
pub mod Hints
mod Tests
use mathlib.Core.Option
use silo_core.Base.{
  ℕ, zero, suc, ◌+◌, ◌-◌, String, Bool, true, false, not, ◌&&◌, ◌||◌, Option, none, some, List, [],
  ◌∷◌, ◌++◌, ◌==◌, ltb, any, str_eq, length, take, if◌then◌else◌,
}
use silo_core.Job.{
  JobStatus, queued, running, cancel_requested, cancelled, succeeded, failed, same_status,
}
use silo_core.Job.Repository.{SelectedJobEvent}

abbrev pub recent_completion_ms : ℕ
recent_completion_ms = 900000

abbrev pub page_size : ℕ
page_size = 100

abbrev pub max_rows_per_group_per_scan : ℕ
max_rows_per_group_per_scan = 500

abbrev pub max_pending_hints : ℕ
max_pending_hints = 1000

abbrev pub hint_batch_size : ℕ
hint_batch_size = 100

pub record JobEventFilters : Type 0 where
  pub types : List String
  pub statuses : List JobStatus

abbrev pub has_type : JobEventFilters → String → Bool
has_type filters t = any (λ u. str_eq t u) filters.types

abbrev pub has_status : JobEventFilters → JobStatus → Bool
has_status filters s = any (λ u. same_status s u) filters.statuses

abbrev filter : {A : Type 0} → (A → Bool) → List A → List A
filter p [] = []
filter p (x ∷ xs) = let rest = filter p xs in if p x then x ∷ rest else rest

abbrev pub active_statuses : JobEventFilters → List JobStatus
active_statuses filters = filter (has_status filters) (queued ∷ running ∷ cancel_requested ∷ [])

abbrev pub terminal_statuses : JobEventFilters → List JobStatus
terminal_statuses filters = filter (has_status filters) (succeeded ∷ failed ∷ cancelled ∷ [])

pub data Task : Type 0 where
  scan : Task
  read_hints : Task

-- The read that the running task waits for; a scan counts the rows that it has read of its group.
pub data Phase : Type 0 where
  idle : Phase
  reading_active : ℕ → Phase
  reading_completed : ℕ → ℕ → Phase
  reading_hints : List ℕ → Phase

-- `work` holds the tasks that wait for the running one, and `written` what was written of jobs, the
-- latest first.
pub record Feed : Type 0 where
  pub observed_job_statuses : List (ℕ × JobStatus)
  pub pending_job_ids : List ℕ
  pub active_cursor : Option ℕ
  pub terminal_cursor : Option (ℕ × ℕ)
  pub closed : Bool
  pub scan_queued : Bool
  pub hints_queued : Bool
  pub work : List Task
  pub phase : Phase
  pub written : List SelectedJobEvent

abbrev pub same_pair : ℕ × JobStatus → ℕ × JobStatus → Bool
same_pair p q = p.0 == q.0 && same_status p.1 q.1

abbrev pub is_observed : ℕ × JobStatus → List (ℕ × JobStatus) → Bool
is_observed p = any (same_pair p)

abbrev pub pair_of : SelectedJobEvent → ℕ × JobStatus
pair_of job = (job.id, job.status)

abbrev pub is_pending : ℕ → List ℕ → Bool
is_pending id = any (λ other. id == other)

abbrev pub drop : {A : Type 0} → ℕ → List A → List A
drop zero xs = xs
drop (suc n) [] = []
drop (suc n) (x ∷ xs) = drop n xs

abbrev pub is_empty : {A : Type 0} → List A → Bool
is_empty [] = true
is_empty (_ ∷ _) = false

abbrev pub last : {A : Type 0} → List A → Option A
last [] = none
last (x ∷ []) = some x
last (x ∷ y ∷ rest) = last (y ∷ rest)

unfoldable pub schedule_scan : Feed → Feed
schedule_scan f =
    if f.closed || f.scan_queued
    then f
    else record f { scan_queued = true; work = f.work ++ (scan ∷ []) }

unfoldable pub schedule_hints : Feed → Feed
schedule_hints f =
    if f.closed || f.hints_queued
    then f
    else record f { hints_queued = true; work = f.work ++ (read_hints ∷ []) }

-- The callback that `subscribeToCategories` is given; `close` unsubscribes it.
unfoldable pub notified : ℕ → Feed → Feed
unfolding schedule_hints schedule_scan
notified id f =
    if f.closed
    then f
    else if is_pending id f.pending_job_ids
    then schedule_hints f
    else if ltb (length f.pending_job_ids) max_pending_hints
    then schedule_hints (record f { pending_job_ids = f.pending_job_ids ++ (id ∷ []) })
    else schedule_scan f

unfoldable pub close : Feed → Feed
close f =
    if f.closed
    then f
    else record f { closed = true; pending_job_ids = []; observed_job_statuses = [] }

module _ (filters : JobEventFilters) where
  unfoldable pub emit_if_matched : SelectedJobEvent → Feed → Feed
  emit_if_matched job f =
      if f.closed || (not (has_type filters job.job_type) || not (has_status filters job.status))
      then f
      else if is_observed (pair_of job) f.observed_job_statuses
      then f
      else record f {
        observed_job_statuses = pair_of job ∷ f.observed_job_statuses;
        written = job ∷ f.written;
      }

  unfoldable pub emit_all : List SelectedJobEvent → Feed → Feed
  unfolding emit_if_matched
  emit_all [] f = f
  emit_all (job ∷ jobs) f = emit_all jobs (emit_if_matched job f)

  -- The ends of the tasks, with their `finally`.
  abbrev pub end_scan : Feed → Feed
  end_scan f = record f { scan_queued = false; phase = idle }

  unfoldable pub end_hints : Feed → Feed
  unfolding schedule_hints
  end_hints f =
      let g = record f { hints_queued = false; phase = idle } in
      if is_empty g.pending_job_ids then g else schedule_hints g

  -- The conditions of the loops.
  unfoldable pub next_completed : ℕ → ℕ → Feed → Feed
  next_completed since scanned f =
      if not f.closed && ltb scanned max_rows_per_group_per_scan
      then record f { phase = reading_completed since scanned }
      else end_scan f

  unfoldable pub scan_completed : ℕ → Feed → Feed
  unfolding next_completed
  scan_completed now f =
      if is_empty (terminal_statuses filters)
      then end_scan f
      else next_completed (now - recent_completion_ms) 0 f

  unfoldable pub next_active : ℕ → ℕ → Feed → Feed
  unfolding scan_completed
  next_active now scanned f =
      if not f.closed && ltb scanned max_rows_per_group_per_scan
      then record f { phase = reading_active scanned }
      else scan_completed now f

  unfoldable pub start_scan : ℕ → Feed → Feed
  unfolding next_active scan_completed
  start_scan now f =
      if is_empty (active_statuses filters) then scan_completed now f else next_active now 0 f

  unfoldable pub start_hints : Feed → Feed
  start_hints f = record f {
    phase = reading_hints (take hint_batch_size f.pending_job_ids);
    pending_job_ids = drop hint_batch_size f.pending_job_ids;
  }

  unfoldable pub start_task : ℕ → Task → Feed → Feed
  unfolding start_scan start_hints
  start_task now scan f = start_scan now f
  start_task now read_hints f = start_hints f

  unfoldable pub next_task : ℕ → Phase → List Task → Feed → Feed
  unfolding start_task
  next_task now idle (task ∷ rest) f =
      let g = record f { work = rest } in if f.closed then g else start_task now task g
  next_task now _ _ f = f

  -- `work.then`: the next task starts, unless the feed is closed.
  unfoldable pub started : ℕ → Feed → Feed
  unfolding next_task
  started now f = next_task now f.phase f.work f

  unfoldable pub active_replied : ℕ → ℕ → List SelectedJobEvent → Feed → Feed
  unfolding next_active scan_completed
  active_replied now scanned jobs f =
      if ltb (length jobs) page_size
      then scan_completed now (record f { active_cursor = none })
      else next_active now (scanned + length jobs)
          (record f { active_cursor = Option.map (λ job. job.id) (last jobs) })

  -- A row without a time of completion throws.
  unfoldable pub move_on : ℕ → ℕ → Option (ℕ × Option ℕ) → Feed → Feed
  unfolding next_completed
  move_on since scanned none f = end_scan f
  move_on since scanned (some (id, none)) f = end_scan f
  move_on since scanned (some (id, some at)) f =
      next_completed since scanned (record f { terminal_cursor = some (at, id) })

  unfoldable pub completed_replied : ℕ → ℕ → List SelectedJobEvent → Feed → Feed
  unfolding move_on
  completed_replied since scanned jobs f =
      if ltb (length jobs) page_size
      then end_scan (record f { terminal_cursor = none })
      else move_on since (scanned + length jobs)
          (Option.map (λ job. (job.id, job.completed_at)) (last jobs)) f

  unfoldable pub answered : ℕ → Phase → List SelectedJobEvent → Feed → Feed
  unfolding emit_all active_replied completed_replied end_hints
  answered now idle jobs f = f
  answered now (reading_active scanned) jobs f = active_replied now scanned jobs (emit_all jobs f)
  answered now (reading_completed since scanned) jobs f =
      completed_replied since scanned jobs (emit_all jobs f)
  answered now (reading_hints ids) jobs f = end_hints (emit_all jobs f)

  unfoldable pub replied : ℕ → List SelectedJobEvent → Feed → Feed
  unfolding answered
  replied now jobs f = answered now f.phase jobs f

  -- The read throws.
  unfoldable pub failed_at : Phase → Feed → Feed
  unfolding end_hints
  failed_at idle f = f
  failed_at (reading_hints ids) f = end_hints f
  failed_at (reading_active scanned) f = end_scan f
  failed_at (reading_completed since scanned) f = end_scan f

  unfoldable pub refused : Feed → Feed
  unfolding failed_at
  refused f = failed_at f.phase f
