-- ===== src/Job/Events/Feeds.antt =====
-- What happens to the feed of job.events.ts, in any order, and what it does.
use silo_core.Base.{ℕ, false, none, List, [], ◌∷◌}
use silo_core.Job.Repository.{SelectedJobEvent}
use silo_core.Job.Events.{
  Feed, JobEventFilters, idle, schedule_scan, notified, close, started, replied, refused,
}

-- A task that starts and a read that replies know the time.
pub data Happening : Type 0 where
  notification : ℕ → Happening
  timer : Happening
  closing : Happening
  task_start : ℕ → Happening
  reply : ℕ → List SelectedJobEvent → Happening
  failure : Happening

abbrev pub fresh : Feed
fresh = record {
  observed_job_statuses = [];
  pending_job_ids = [];
  active_cursor = none;
  terminal_cursor = none;
  closed = false;
  scan_queued = false;
  hints_queued = false;
  work = [];
  phase = idle;
  written = [];
}

unfoldable pub react : JobEventFilters → Happening → Feed → Feed
unfolding notified schedule_scan close started replied refused
react filters (notification id) f = notified id f
react filters timer f = schedule_scan f
react filters closing f = close f
react filters (task_start now) f = started filters now f
react filters (reply now jobs) f = replied filters now jobs f
react filters failure f = refused filters f

-- `streamWorkspaceJobEvents`; the latest happening is first.
unfoldable pub stream_workspace_job_events : JobEventFilters → List Happening → Feed
unfolding react
stream_workspace_job_events filters [] = schedule_scan fresh
stream_workspace_job_events filters (h ∷ hs) =
    react filters h (stream_workspace_job_events filters hs)
