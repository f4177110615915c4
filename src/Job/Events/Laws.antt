-- ===== src/Job/Events/Laws.antt =====
-- What the feed of job.events.ts writes, whatever happens in whatever order.
use mathlib.Core.Option
use silo_core.Base.{
  both_true, ℕ, ◌+◌, Bool, true, false, not, ◌&&◌, ◌||◌, ◌≡◌, refl, sym, ap, ◌∙◌, subst, Option,
  none, some, List, [], ◌∷◌, ◌++◌, map, all, length, if◌then◌else◌, Bool-cases, inl, inr, if_true,
  if_false, arith,
}
use silo_core.Job.{JobStatus}
use silo_core.Job.Repository.{SelectedJobEvent}
use silo_core.Job.Events.{
  Feed, JobEventFilters, Phase, idle, reading_active, reading_completed, reading_hints, Task, scan,
  read_hints, has_type, has_status, is_observed, pair_of, schedule_scan, schedule_hints, notified,
  close, emit_if_matched, emit_all, end_hints, next_completed, scan_completed, next_active,
  start_scan, start_hints, start_task, started, active_replied, move_on, completed_replied, replied,
  refused, next_task, answered, failed_at, last,
}
use silo_core.Job.Events.Feeds.{
  Happening, notification, timer, closing, task_start, reply, failure, fresh, react,
  stream_workspace_job_events,
}

-- What was written, and what the feed remembers of it.
record Told : Type 0 where
  is_closed : Bool
  observed : List (ℕ × JobStatus)
  told : List SelectedJobEvent

abbrev told_of : Feed → Told
told_of f = record { is_closed = f.closed; observed = f.observed_job_statuses; told = f.written }

abbrev pub no_repeats : List SelectedJobEvent → Bool
no_repeats [] = true
no_repeats (job ∷ jobs) = not (is_observed (pair_of job) (map pair_of jobs)) && no_repeats jobs

abbrev pub matches : JobEventFilters → SelectedJobEvent → Bool
matches filters job = has_type filters job.job_type && has_status filters job.status

record Fair (filters : JobEventFilters) (t : Told) : Type 0 where
  remembered : t.is_closed ≡ false → t.observed ≡ map pair_of t.told
  distinct : no_repeats t.told ≡ true
  matching : all (matches filters) t.told ≡ true

let_in-open : (a b c : Bool) → (a || (not b || not c)) ≡ false → (a ≡ false) × ((b && c) ≡ true)
let_in-open a b c e = (ground arith, ground arith)

record SameTold (g : Feed) (t : Told) : Type 0 where
  told_same : told_of g ≡ t

told-if :
    (b : Bool) (x y : Feed) (t : Told)
    → SameTold x t
    → SameTold y t
    → SameTold (if b then x else y) t
told-if true x y t e g = e
told-if false x y t e g = g

told-schedule_scan : (f : Feed) → SameTold (schedule_scan f) (told_of f)
unfolding schedule_scan
told-schedule_scan f = told-if _ _ _ _ (record { told_same = refl }) (record { told_same = refl })

told-schedule_hints : (f : Feed) → SameTold (schedule_hints f) (told_of f)
unfolding schedule_hints
told-schedule_hints f = told-if _ _ _ _ (record { told_same = refl }) (record { told_same = refl })

told-notified : (id : ℕ) (f : Feed) → SameTold (notified id f) (told_of f)
unfolding notified
told-notified id f =
    told-if _ _ _ _ (record { told_same = refl })
      (told-if _ _ _ _ (told-schedule_hints f) (
        told-if _ _ _ _
          (told-schedule_hints (record f { pending_job_ids = f.pending_job_ids ++ (id ∷ []) }))
          (told-schedule_scan f)))

module _ (filters : JobEventFilters) where
  told-end_hints : (f : Feed) → SameTold (end_hints filters f) (told_of f)
  unfolding end_hints
  told-end_hints f =
      told-if _ _ _ _ (record { told_same = refl })
        (told-schedule_hints (record f { hints_queued = false; phase = idle }))

  told-next_completed :
      (since scanned : ℕ) (f : Feed) → SameTold (next_completed filters since scanned f) (told_of f)
  unfolding next_completed
  told-next_completed since scanned f =
      told-if _ _ _ _ (record { told_same = refl }) (record { told_same = refl })

  told-scan_completed : (now : ℕ) (f : Feed) → SameTold (scan_completed filters now f) (told_of f)
  unfolding scan_completed
  told-scan_completed now f =
      told-if _ _ _ _ (record { told_same = refl }) (told-next_completed _ 0 f)

  told-next_active :
      (now scanned : ℕ) (f : Feed) → SameTold (next_active filters now scanned f) (told_of f)
  unfolding next_active
  told-next_active now scanned f =
      told-if _ _ _ _ (record { told_same = refl }) (told-scan_completed now f)

  told-start_scan : (now : ℕ) (f : Feed) → SameTold (start_scan filters now f) (told_of f)
  unfolding start_scan
  told-start_scan now f = told-if _ _ _ _ (told-scan_completed now f) (told-next_active now 0 f)

  told-start_task :
      (now : ℕ) (task : Task) (f : Feed) → SameTold (start_task filters now task f) (told_of f)
  unfolding start_task start_hints
  told-start_task now scan f = told-start_scan now f
  told-start_task now read_hints f = record { told_same = refl }

  told-active_replied :
      (now scanned : ℕ) (jobs : List SelectedJobEvent) (f : Feed)
      → SameTold (active_replied filters now scanned jobs f) (told_of f)
  unfolding active_replied
  told-active_replied now scanned jobs f =
      told-if _ _ _ _ (told-scan_completed now (record f { active_cursor = none })) (
        told-next_active now (scanned + length jobs)
          (record f { active_cursor = Option.map (λ job. job.id) (last jobs) }))

  told-move_on :
      (since scanned : ℕ) (o : Option (ℕ × Option ℕ)) (f : Feed)
      → SameTold (move_on filters since scanned o f) (told_of f)
  unfolding move_on
  told-move_on since scanned none f = record { told_same = refl }
  told-move_on since scanned (some (id, none)) f = record { told_same = refl }
  told-move_on since scanned (some (id, some at)) f =
      told-next_completed since scanned (record f { terminal_cursor = some (at, id) })

  told-completed_replied :
      (since scanned : ℕ) (jobs : List SelectedJobEvent) (f : Feed)
      → SameTold (completed_replied filters since scanned jobs f) (told_of f)
  unfolding completed_replied
  told-completed_replied since scanned jobs f =
      told-if _ _ _ _ (record { told_same = refl }) (told-move_on since _ _ f)

  told-next_task :
      (now : ℕ) (phase : Phase) (work : List Task) (f : Feed)
      → SameTold (next_task filters now phase work f) (told_of f)
  unfolding next_task
  told-next_task now idle [] f = record { told_same = refl }
  told-next_task now idle (task ∷ rest) f =
      told-if _ _ _ _ (record { told_same = refl })
        (told-start_task now task (record f { work = rest }))
  told-next_task now (reading_active n) work f = record { told_same = refl }
  told-next_task now (reading_completed n k) work f = record { told_same = refl }
  told-next_task now (reading_hints ids) work f = record { told_same = refl }

  told-failed_at : (phase : Phase) (f : Feed) → SameTold (failed_at filters phase f) (told_of f)
  unfolding failed_at
  told-failed_at idle f = record { told_same = refl }
  told-failed_at (reading_active n) f = record { told_same = refl }
  told-failed_at (reading_completed n k) f = record { told_same = refl }
  told-failed_at (reading_hints ids) f = told-end_hints f

  written-Fair :
      (job : SelectedJobEvent) (f : Feed)
      → f.closed ≡ false
      → matches filters job ≡ true
      → is_observed (pair_of job) f.observed_job_statuses ≡ false
      → Fair filters (told_of f)
      → Fair filters (record {
        is_closed = f.closed;
        observed = pair_of job ∷ f.observed_job_statuses;
        told = job ∷ f.written;
      })
  written-Fair job f is_open fits new h = record {
    remembered = λ _. ap (λ ps. pair_of job ∷ ps) (h.remembered is_open);
    distinct =
        both_true _ _ (ap not (ap (is_observed (pair_of job)) (sym (h.remembered is_open)) ∙ new))
          h.distinct;
    matching = both_true _ _ fits h.matching;
  }

  emit-Fair :
      (job : SelectedJobEvent) (f : Feed)
      → Fair filters (told_of f)
      → Fair filters (told_of (emit_if_matched filters job f))
  unfolding emit_if_matched
  emit-Fair job f h =
      elim (Bool-cases (
        f.closed || (not (has_type filters job.job_type) || not (has_status filters job.status)))) [
          | inl passed ↦ subst (λ g. Fair filters (told_of g)) (sym (if_true _ _ passed)) h
          | inr let_in ↦
              subst (λ g. Fair filters (told_of g)) (sym (if_false _ _ let_in))
                (elim (Bool-cases (is_observed (pair_of job) f.observed_job_statuses)) [
                  | inl seen ↦ subst (λ g. Fair filters (told_of g)) (sym (if_true _ _ seen)) h
                  | inr new ↦
                      subst (λ g. Fair filters (told_of g)) (sym (if_false _ _ new))
                        (written-Fair job f (let_in-open _ _ _ let_in).0
                          (let_in-open _ _ _ let_in).1 new h)
                ])
        ]

  emit_all-Fair :
      (jobs : List SelectedJobEvent) (f : Feed)
      → Fair filters (told_of f)
      → Fair filters (told_of (emit_all filters jobs f))
  unfolding emit_all
  emit_all-Fair [] f h = h
  emit_all-Fair (job ∷ jobs) f h =
      emit_all-Fair jobs (emit_if_matched filters job f) (emit-Fair job f h)

  same-Fair :
      (f g : Feed) → SameTold g (told_of f) → Fair filters (told_of f) → Fair filters (told_of g)
  same-Fair f g e h = subst (Fair filters) (sym e.told_same) h

  answered-Fair :
      (now : ℕ) (phase : Phase) (jobs : List SelectedJobEvent) (f : Feed)
      → Fair filters (told_of f)
      → Fair filters (told_of (answered filters now phase jobs f))
  unfolding answered
  answered-Fair now idle jobs f h = h
  answered-Fair now (reading_active n) jobs f h =
      same-Fair (emit_all filters jobs f) _
        (told-active_replied now n jobs (emit_all filters jobs f)) (emit_all-Fair jobs f h)
  answered-Fair now (reading_completed since n) jobs f h =
      same-Fair (emit_all filters jobs f) _
        (told-completed_replied since n jobs (emit_all filters jobs f)) (emit_all-Fair jobs f h)
  answered-Fair now (reading_hints ids) jobs f h =
      same-Fair (emit_all filters jobs f) _ (told-end_hints (emit_all filters jobs f))
        (emit_all-Fair jobs f h)

  closed-Fair : (f : Feed) → Fair filters (told_of f) → Fair filters (told_of (close f))
  unfolding close
  closed-Fair f h = elim (Bool-cases f.closed) [
    | inl closed ↦ subst (λ g. Fair filters (told_of g)) (sym (if_true _ _ closed)) h
    | inr is_open ↦
        subst (λ g. Fair filters (told_of g)) (sym (if_false _ _ is_open))
          (record { remembered = λ e. cc; distinct = h.distinct; matching = h.matching })
  ]

  react-Fair :
      (x : Happening) (f : Feed)
      → Fair filters (told_of f)
      → Fair filters (told_of (react filters x f))
  unfolding react started replied refused
  react-Fair (notification id) f h = same-Fair f _ (told-notified id f) h
  react-Fair timer f h = same-Fair f _ (told-schedule_scan f) h
  react-Fair closing f h = closed-Fair f h
  react-Fair (task_start now) f h = same-Fair f _ (told-next_task now f.phase f.work f) h
  react-Fair (reply now jobs) f h = answered-Fair now f.phase jobs f h
  react-Fair failure f h = same-Fair f _ (told-failed_at f.phase f) h

  stream-Fair :
      (xs : List Happening) → Fair filters (told_of (stream_workspace_job_events filters xs))
  unfolding stream_workspace_job_events
  stream-Fair [] =
      same-Fair fresh _ (told-schedule_scan fresh)
        (record { remembered = λ _. refl; distinct = refl; matching = refl })
  stream-Fair (x ∷ xs) = react-Fair x (stream_workspace_job_events filters xs) (stream-Fair xs)

  -- Whatever happens to the feed, in whatever order, it writes no job twice with the same status,
  -- and only jobs of the types and the statuses that were asked for.
  pub feed_writes_once :
      (xs : List Happening)
      → (no_repeats (stream_workspace_job_events filters xs).written ≡ true)
        × (all (matches filters) (stream_workspace_job_events filters xs).written ≡ true)
  feed_writes_once xs = let h = stream-Fair xs in (h.distinct, h.matching)
