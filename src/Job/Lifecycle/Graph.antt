-- ===== src/Job/Lifecycle/Graph.antt =====
-- The diagram of a job's life that the transition table describes, as a relation.
use silo_core.Base.{
  ℕ, ◌≤◌, true, ◌≡◌, refl, ◌↔◌, ◌≢◌, ◌⊎◌, arith, inl, inr, ◌<◌, List, [], ◌∷◌, length,
}
use silo_core.Base.Int.{pos, negsuc, Number, int, non_integer}
use silo_core.Errors.{ok}
use silo_core.Job.{JobStatus, queued, running, cancel_requested, cancelled, succeeded, failed}
use silo_core.Job.Lifecycle.{
  is_terminal_job_status, assert_valid_job_status_transition, assert_valid_job_progress,
}

infix 40 ◌⟶◌
pub data ◌⟶◌ : JobStatus → JobStatus → Type 0 where
  start : queued ⟶ running
  withdraw : queued ⟶ cancel_requested
  refuse : queued ⟶ failed
  interrupt : running ⟶ cancel_requested
  finish : running ⟶ succeeded
  break_off : running ⟶ failed
  stop : cancel_requested ⟶ cancelled
  stop_broken : cancel_requested ⟶ failed

ruleset moves = (start, withdraw, refuse, interrupt, finish, break_off, stop, stop_broken)

-- The guard, read backwards: what it lets through is an edge of the diagram.
guard_sound : (s t : JobStatus) → assert_valid_job_status_transition s t ≡ ok tt → (s ≡ t) ⊎ (s ⟶ t)
unfolding assert_valid_job_status_transition
guard_sound s t h = grind (arith, moves)

guard_complete : {s t : JobStatus} → s ⟶ t → assert_valid_job_status_transition s t ≡ ok tt
unfolding assert_valid_job_status_transition
guard_complete start = refl
guard_complete withdraw = refl
guard_complete refuse = refl
guard_complete interrupt = refl
guard_complete finish = refl
guard_complete break_off = refl
guard_complete stop = refl
guard_complete stop_broken = refl

guard_same : (s : JobStatus) → assert_valid_job_status_transition s s ≡ ok tt
unfolding assert_valid_job_status_transition
guard_same s = ground arith

-- The guard lets a change of status through exactly when the status stays or the diagram has the
-- edge.
pub assert_valid_job_status_transition_iff :
    (s t : JobStatus) → (assert_valid_job_status_transition s t ≡ ok tt) ↔ ((s ≡ t) ⊎ (s ⟶ t))
assert_valid_job_status_transition_iff s t =
    (guard_sound s t, λ h. elim h [ inl e ↦ rw e (guard_same t) | inr m ↦ guard_complete m ])

no_edge : (s : JobStatus) → is_terminal_job_status s ≡ true → (t : JobStatus) → ¬ (s ⟶ t)
unfolding is_terminal_job_status
no_edge s h t start = cc
no_edge s h t withdraw = cc
no_edge s h t refuse = cc
no_edge s h t interrupt = cc
no_edge s h t finish = cc
no_edge s h t break_off = cc
no_edge s h t stop = cc
no_edge s h t stop_broken = cc

stuck_is_terminal :
    (s : JobStatus) → ((t : JobStatus) → ¬ (s ⟶ t)) → is_terminal_job_status s ≡ true
unfolding is_terminal_job_status
stuck_is_terminal queued h = absurd (h running start)
stuck_is_terminal running h = absurd (h failed break_off)
stuck_is_terminal cancel_requested h = absurd (h cancelled stop)
stuck_is_terminal _ h = refl

-- A status is final exactly when no edge leaves it.
pub is_terminal_job_status_iff :
    (s : JobStatus) → (is_terminal_job_status s ≡ true) ↔ ((t : JobStatus) → ¬ (s ⟶ t))
is_terminal_job_status_iff s = (no_edge s, stuck_is_terminal s)

-- The statuses that follow `s`, each accepted by the guard and each a change.
abbrev pub IsLife : JobStatus → List JobStatus → Type 0
IsLife s [] = Unit
IsLife s (t ∷ ts) = (assert_valid_job_status_transition s t ≡ ok tt) × (s ≢ t) × IsLife t ts

-- How far a status is from the end.
abbrev rank : JobStatus → ℕ
rank queued = 3
rank running = 2
rank cancel_requested = 1
rank _ = 0

rank-lt : {s t : JobStatus} → s ⟶ t → rank t < rank s
rank-lt start = omega arith
rank-lt withdraw = omega arith
rank-lt refuse = omega arith
rank-lt interrupt = omega arith
rank-lt finish = omega arith
rank-lt break_off = omega arith
rank-lt stop = omega arith
rank-lt stop_broken = omega arith

length-le-rank : (s : JobStatus) (ts : List JobStatus) → IsLife s ts → length ts ≤ rank s
length-le-rank s [] h = omega arith
length-le-rank s (t ∷ ts) (passed, moved, rest) = elim (guard_sound s t passed) [
  | inl e ↦ absurd (moved e)
  | inr m ↦ omega (arith, rank-lt m, length-le-rank t ts rest)
]

rank-le : (s : JobStatus) → rank s ≤ 3
rank-le s = ground arith

-- The guard admits no cycle: whatever statuses it lets follow one another, there are at most three
-- changes.
pub life_bounded : (s : JobStatus) (ts : List JobStatus) → IsLife s ts → length ts ≤ 3
life_bounded s ts h = omega (arith, length-le-rank s ts h, rank-le s)

abbrev pub IsPercent : Number → Type 0
IsPercent (int (pos n)) = n ≤ 100
IsPercent _ = ⊥

-- The guard on `progress` accepts exactly the integers from 0 to 100.
pub assert_valid_job_progress_iff :
    (n : Number) → (assert_valid_job_progress n ≡ ok tt) ↔ IsPercent n
unfolding assert_valid_job_progress
assert_valid_job_progress_iff (int (pos n)) = (λ h. ground arith, λ h. ground arith)
assert_valid_job_progress_iff (int (negsuc n)) = (λ h. cc, λ h. absurd h)
assert_valid_job_progress_iff non_integer = (λ h. cc, λ h. absurd h)
