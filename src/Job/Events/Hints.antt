-- ===== src/Job/Events/Hints.antt =====
-- No hint that waits in the feed of job.events.ts is forgotten, and at most 1000 wait.
pub mod Waiting
use silo_core.Base.{
  ℕ, zero, suc, ◌+◌, ◌-◌, ◌≤◌, Bool, true, false, not, ◌&&◌, ◌||◌, ◌≡◌, refl, sym, ap, ◌∙◌, subst,
  Option, none, some, List, [], ◌∷◌, ◌++◌, ltb, ltb→lt, length, if◌then◌else◌, Bool-cases, inl, inr,
  if_true, if_false, arith,
}
use mathlib.Core.Option
use silo_core.Job.Repository.{SelectedJobEvent}
use silo_core.Job.Events.{
  Feed, JobEventFilters, Phase, idle, reading_active, reading_completed, reading_hints, Task, scan,
  read_hints, is_pending, is_empty, drop, hint_batch_size, max_pending_hints, last, schedule_scan,
  schedule_hints, notified, close, emit_if_matched, emit_all, end_hints, next_completed,
  scan_completed, next_active, start_scan, start_hints, start_task, started, active_replied,
  move_on, completed_replied, replied, refused, next_task, answered, failed_at, has_type,
  has_status, is_observed, pair_of, end_scan, max_rows_per_group_per_scan, recent_completion_ms,
  terminal_statuses, active_statuses, page_size,
}
use silo_core.Job.Events.Feeds.{
  Happening, notification, timer, closing, task_start, reply, failure, fresh, react,
  stream_workspace_job_events,
}
use silo_core.Job.Events.Hints.Waiting.{
  is_reading_hints, has_hints_task, Awake, Wakes, IsAwake, IsDrowsy, IsAwake-if, length-drop,
  scheduled_scan, scheduled_hints, notified-IsAwake, close-IsAwake, or_right, empty-drop, settle,
  calm, scan_taken,
}

module _ (filters : JobEventFilters) where
  next_completed-IsAwake :
      (since scanned : ℕ) (f : Feed)
      → Wakes false f
      → IsAwake (next_completed filters since scanned f)
  unfolding next_completed
  next_completed-IsAwake since scanned f h =
      IsAwake-if (not f.closed && ltb scanned max_rows_per_group_per_scan)
        (record f { phase = reading_completed since scanned }) (end_scan filters f)
        (record { awake = h }) (record { awake = h })

  scan_completed-IsAwake :
      (now : ℕ) (f : Feed) → Wakes false f → IsAwake (scan_completed filters now f)
  unfolding scan_completed
  scan_completed-IsAwake now f h =
      IsAwake-if (is_empty (terminal_statuses filters)) (end_scan filters f)
        (next_completed filters (now - recent_completion_ms) 0 f) (record { awake = h })
        (next_completed-IsAwake (now - recent_completion_ms) 0 f h)

  next_active-IsAwake :
      (now scanned : ℕ) (f : Feed) → Wakes false f → IsAwake (next_active filters now scanned f)
  unfolding next_active
  next_active-IsAwake now scanned f h =
      IsAwake-if (not f.closed && ltb scanned max_rows_per_group_per_scan)
        (record f { phase = reading_active scanned }) (scan_completed filters now f)
        (record { awake = h }) (scan_completed-IsAwake now f h)

  start_scan-IsAwake : (now : ℕ) (f : Feed) → Wakes false f → IsAwake (start_scan filters now f)
  unfolding start_scan
  start_scan-IsAwake now f h =
      IsAwake-if (is_empty (active_statuses filters)) (scan_completed filters now f)
        (next_active filters now 0 f) (scan_completed-IsAwake now f h)
        (next_active-IsAwake now 0 f h)

  start_hints-IsAwake :
      (f : Feed) (work : List Task)
      → Awake false f.closed f.pending_job_ids f.hints_queued work
      → IsAwake (start_hints filters f)
  unfolding start_hints
  start_hints-IsAwake f work h =
      let fewer = length-drop hint_batch_size f.pending_job_ids in
      let few = h.bounded in
      record {
        awake = record {
          bounded = omega arith;
          flagged = λ is_open waits.
              h.flagged is_open (empty-drop hint_batch_size f.pending_job_ids waits);
          tasked = λ _ _. or_right (has_hints_task f.work);
        };
      }

  -- A closed feed asks for nothing.
  closed-Wakes :
      (f : Feed) (work : List Task)
      → f.closed ≡ true
      → length f.pending_job_ids ≤ 1000
      → Wakes false (record f { work = work })
  closed-Wakes f work e few = record { bounded = few; flagged = λ g _. cc; tasked = λ g _. cc }

  start_task-IsAwake :
      (now : ℕ) (task : Task) (rest : List Task) (f : Feed)
      → Awake false f.closed f.pending_job_ids f.hints_queued (task ∷ rest)
      → IsAwake (start_task filters now task (record f { work = rest }))
  unfolding start_task
  start_task-IsAwake now scan rest f h =
      start_scan-IsAwake now (record f { work = rest }) (scan_taken f rest h)
  start_task-IsAwake now read_hints rest f h =
      start_hints-IsAwake (record f { work = rest }) (read_hints ∷ rest) h

  next_task-IsAwake :
      (now : ℕ) (phase : Phase) (work : List Task) (f : Feed)
      → f.phase ≡ phase
      → f.work ≡ work
      → IsAwake f
      → IsAwake (next_task filters now phase work f)
  unfolding next_task start_task
  next_task-IsAwake now idle [] f e g h = h
  next_task-IsAwake now idle (task ∷ rest) f e g h =
      let quiet = calm f false h (ap is_reading_hints e) in
      let held = subst (λ ts. Awake false f.closed f.pending_job_ids f.hints_queued ts) g quiet in
      elim (Bool-cases f.closed) [
        | inl is_closed ↦ subst IsAwake (sym (if_true _ _ is_closed)) (
            settle (record f { work = rest }) (ap is_reading_hints e)
              (closed-Wakes f rest is_closed quiet.bounded))
        | inr is_open ↦
            subst IsAwake (sym (if_false _ _ is_open)) (start_task-IsAwake now task rest f held)
      ]
  next_task-IsAwake now (reading_active n) work f e g h = h
  next_task-IsAwake now (reading_completed n k) work f e g h = h
  next_task-IsAwake now (reading_hints ids) work f e g h = h

  active_replied-IsAwake :
      (now scanned : ℕ) (jobs : List SelectedJobEvent) (f : Feed)
      → Wakes false f
      → IsAwake (active_replied filters now scanned jobs f)
  unfolding active_replied
  active_replied-IsAwake now scanned jobs f h =
      IsAwake-if (ltb (length jobs) page_size)
        (scan_completed filters now (record f { active_cursor = none }))
        (next_active filters now (scanned + length jobs)
          (record f { active_cursor = Option.map (λ job. job.id) (last jobs) }))
        (scan_completed-IsAwake now (record f { active_cursor = none }) h)
        (next_active-IsAwake now (scanned + length jobs)
          (record f { active_cursor = Option.map (λ job. job.id) (last jobs) }) h)

  move_on-IsAwake :
      (since scanned : ℕ) (o : Option (ℕ × Option ℕ)) (f : Feed)
      → Wakes false f
      → IsAwake (move_on filters since scanned o f)
  unfolding move_on
  move_on-IsAwake since scanned none f h = record { awake = h }
  move_on-IsAwake since scanned (some (id, none)) f h = record { awake = h }
  move_on-IsAwake since scanned (some (id, some at)) f h =
      next_completed-IsAwake since scanned (record f { terminal_cursor = some (at, id) }) h

  completed_replied-IsAwake :
      (since scanned : ℕ) (jobs : List SelectedJobEvent) (f : Feed)
      → Wakes false f
      → IsAwake (completed_replied filters since scanned jobs f)
  unfolding completed_replied
  completed_replied-IsAwake since scanned jobs f h =
      let row = Option.map (λ (job : SelectedJobEvent). (job.id, job.completed_at)) (last jobs) in
      IsAwake-if (ltb (length jobs) page_size)
        (end_scan filters (record f { terminal_cursor = none }))
        (move_on filters since (scanned + length jobs) row f) (record { awake = h })
        (move_on-IsAwake since (scanned + length jobs) row f h)

  end_hints-IsAwake : (f : Feed) → length f.pending_job_ids ≤ 1000 → IsAwake (end_hints filters f)
  unfolding end_hints
  end_hints-IsAwake f few = elim (Bool-cases (is_empty f.pending_job_ids)) [
    | inl empty ↦ subst IsAwake (sym (if_true _ _ empty)) (record {
      awake = record { bounded = few; flagged = λ _ waits. cc; tasked = λ _ queued. cc };
    })
    | inr waits ↦ subst IsAwake (sym (if_false _ _ waits)) (
        scheduled_hints (record f { hints_queued = false; phase = idle })
          (record { few = few; has_task = λ _ queued. cc }))
  ]

  Wakes-if : (r b : Bool) (x y : Feed) → Wakes r x → Wakes r y → Wakes r (if b then x else y)
  Wakes-if r true x y h g = h
  Wakes-if r false x y h g = g

  emit-Wakes :
      (r : Bool) (job : SelectedJobEvent) (f : Feed)
      → Wakes r f
      → Wakes r (emit_if_matched filters job f)
  unfolding emit_if_matched
  emit-Wakes r job f h =
      Wakes-if r
        (f.closed || (not (has_type filters job.job_type) || not (has_status filters job.status))) f
        (if is_observed (pair_of job) f.observed_job_statuses then f else record f {
          observed_job_statuses = pair_of job ∷ f.observed_job_statuses;
          written = job ∷ f.written;
        })
        h
        (Wakes-if r (is_observed (pair_of job) f.observed_job_statuses) f
          (record f {
            observed_job_statuses = pair_of job ∷ f.observed_job_statuses;
            written = job ∷ f.written;
          })
          h h)

  emit_all-Wakes :
      (r : Bool) (jobs : List SelectedJobEvent) (f : Feed)
      → Wakes r f
      → Wakes r (emit_all filters jobs f)
  unfolding emit_all
  emit_all-Wakes r [] f h = h
  emit_all-Wakes r (job ∷ jobs) f h =
      emit_all-Wakes r jobs (emit_if_matched filters job f) (emit-Wakes r job f h)

  answered-IsAwake :
      (now : ℕ) (phase : Phase) (jobs : List SelectedJobEvent) (f : Feed)
      → f.phase ≡ phase
      → IsAwake f
      → IsAwake (answered filters now phase jobs f)
  unfolding answered
  answered-IsAwake now idle jobs f e h = h
  answered-IsAwake now (reading_active n) jobs f e h =
      active_replied-IsAwake now n jobs (emit_all filters jobs f)
        (emit_all-Wakes false jobs f (calm f false h (ap is_reading_hints e)))
  answered-IsAwake now (reading_completed since n) jobs f e h =
      completed_replied-IsAwake since n jobs (emit_all filters jobs f)
        (emit_all-Wakes false jobs f (calm f false h (ap is_reading_hints e)))
  answered-IsAwake now (reading_hints ids) jobs f e h =
      end_hints-IsAwake (emit_all filters jobs f)
        (emit_all-Wakes true jobs f (calm f true h (ap is_reading_hints e))).bounded

  failed_at-IsAwake :
      (phase : Phase) (f : Feed) → f.phase ≡ phase → IsAwake f → IsAwake (failed_at filters phase f)
  unfolding failed_at
  failed_at-IsAwake idle f e h = h
  failed_at-IsAwake (reading_active n) f e h = record {
    awake = calm f false h (ap is_reading_hints e);
  }
  failed_at-IsAwake (reading_completed since n) f e h = record {
    awake = calm f false h (ap is_reading_hints e);
  }
  failed_at-IsAwake (reading_hints ids) f e h = end_hints-IsAwake f h.awake.bounded

  react-IsAwake : (x : Happening) (f : Feed) → IsAwake f → IsAwake (react filters x f)
  unfolding react started replied refused
  react-IsAwake (notification id) f h = notified-IsAwake id f h
  react-IsAwake timer f h = scheduled_scan f h
  react-IsAwake closing f h = close-IsAwake f h
  react-IsAwake (task_start now) f h = next_task-IsAwake now f.phase f.work f refl refl h
  react-IsAwake (reply now jobs) f h = answered-IsAwake now f.phase jobs f refl h
  react-IsAwake failure f h = failed_at-IsAwake f.phase f refl h

  stream-IsAwake : (xs : List Happening) → IsAwake (stream_workspace_job_events filters xs)
  unfolding stream_workspace_job_events
  stream-IsAwake [] = scheduled_scan fresh (record {
    awake = record { bounded = omega arith; flagged = λ _ waits. cc; tasked = λ _ queued. cc };
  })
  stream-IsAwake (x ∷ xs) =
      react-IsAwake x (stream_workspace_job_events filters xs) (stream-IsAwake xs)

  -- Whatever happens to the feed, in whatever order, at most 1000 jobs wait to be read.
  pub hints_bounded :
      (xs : List Happening) → length (stream_workspace_job_events filters xs).pending_job_ids ≤ 1000
  hints_bounded xs = (stream-IsAwake xs).awake.bounded

  -- Whatever happened to the feed, in whatever order, while it is open and a job waits to be read, a
  -- task that reads the waiting jobs is queued or running.
  pub no_hint_forgotten :
      (xs : List Happening)
      → (stream_workspace_job_events filters xs).closed ≡ false
      → is_empty (stream_workspace_job_events filters xs).pending_job_ids ≡ false
      → (has_hints_task (stream_workspace_job_events filters xs).work
          || is_reading_hints (stream_workspace_job_events filters xs).phase)
        ≡ true
  no_hint_forgotten xs is_open waits =
      let h = (stream-IsAwake xs).awake in h.tasked is_open (h.flagged is_open waits)
