-- ===== src/Job/Events/Tests.antt =====
-- A feed of one type of jobs: tests, and the theorems at concrete inputs.
use silo_core.Base.{◌≤◌, true, ◌||◌, ◌≡◌, refl, none, List, [], ◌∷◌, length, all}
use silo_core.Job.{queued, running}
use silo_core.Job.Repository.{SelectedJobEvent}
use silo_core.Job.Events.{
  JobEventFilters, schedule_scan, schedule_hints, notified, started, next_task, start_task,
  start_scan, next_active, scan_completed, next_completed, replied, answered, active_replied,
  emit_all, emit_if_matched, start_hints, end_hints, completed_replied, move_on, close,
}
use silo_core.Job.Events.Feeds.{
  Happening, notification, task_start, reply, react, stream_workspace_job_events,
}
use silo_core.Job.Events.Laws.{no_repeats, matches, feed_writes_once}
use silo_core.Job.Events.Hints.{hints_bounded, no_hint_forgotten}
use silo_core.Job.Events.Hints.Waiting.{has_hints_task, is_reading_hints}

abbrev titles : JobEventFilters
titles = record { types = "chat.session_title" ∷ []; statuses = queued ∷ running ∷ [] }

abbrev job : SelectedJobEvent
job = record { id = 4; job_type = "chat.session_title"; status = running; completed_at = none }

-- A scan reads the job, then a hint reads it again. The latest is first.
abbrev history : List Happening
history =
    reply 3 (job ∷ []) ∷ task_start 2 ∷ notification 4 ∷ reply 1 (job ∷ []) ∷ task_start 1 ∷ []

-- what the tests compute with
feed : Unit {0}
unfolding stream_workspace_job_events react schedule_scan schedule_hints notified started next_task
    start_task start_scan next_active scan_completed next_completed replied answered active_replied
    emit_all emit_if_matched start_hints end_hints completed_replied move_on close
feed = tt

written_once : (stream_workspace_job_events titles history).written ≡ (job ∷ [])
unfolding feed
written_once = refl

feed_writes_once_example :
    (no_repeats (stream_workspace_job_events titles history).written ≡ true)
    × (all (matches titles) (stream_workspace_job_events titles history).written ≡ true)
feed_writes_once_example = feed_writes_once titles history

hints_bounded_example : length (stream_workspace_job_events titles history).pending_job_ids ≤ 1000
hints_bounded_example = hints_bounded titles history

no_hint_forgotten_example :
    (has_hints_task (stream_workspace_job_events titles (notification 4 ∷ [])).work
      || is_reading_hints (stream_workspace_job_events titles (notification 4 ∷ [])).phase)
    ≡ true
unfolding feed
no_hint_forgotten_example = no_hint_forgotten titles (notification 4 ∷ []) refl refl
