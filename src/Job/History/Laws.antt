-- ===== src/Job/History/Laws.antt =====
-- What every life of a row has in common.
use silo_core.Base.{◌≡◌, refl, true, false, Option, none, some, arith, ◌≤◌, is_some}
use silo_core.Job.{Job, running, cancel_requested, succeeded, failed}
use silo_core.Job.Lifecycle.{is_terminal_job_status}
use silo_core.Job.Lifecycle.Graph.{IsPercent}
use silo_core.Job.Privacy.Laws.{IsSanitized}
use silo_core.Base.Int.{int, pos}
use silo_core.Job.History.{
  Change, attempted, progressed, progressed_to, put_back, beaten, asked_to_cancel, stopped,
  completed, broken, not_sent, sent, sent_again, IsNew, Evolves, unchanged, created, changed,
  ResultIsSanitized,
}

pub Evolves-trans : {a b c : Option Job} → Evolves a b → Evolves b c → Evolves a c
Evolves-trans r unchanged = r
Evolves-trans r (created s n) = created (Evolves-trans r s) n
Evolves-trans r (changed s c) = changed (Evolves-trans r s) c

pub Change-IsOpen : {j j' : Job} → Change j j' → is_terminal_job_status j.status ≡ false
unfolding is_terminal_job_status
Change-IsOpen (attempted t h g e) = ground arith
Change-IsOpen (progressed n g v e) = ground arith
Change-IsOpen (progressed_to n s g v f e) = ground arith
Change-IsOpen (put_back g e) = ground arith
Change-IsOpen (beaten h g e) = ground arith
Change-IsOpen (asked_to_cancel t g e) = ground arith
Change-IsOpen (stopped t g e) = ground arith
Change-IsOpen (completed r s t g v e) = ground arith
Change-IsOpen (broken c m t g e) = ground arith
Change-IsOpen (not_sent t g e) = ground arith
Change-IsOpen (sent i g e) = ground arith
Change-IsOpen (sent_again i g e) = ground arith

-- A final row stays as it is.
pub Evolves-frozen :
    {j : Job} {o : Option Job}
    → Evolves (some j) o
    → is_terminal_job_status j.status ≡ true
    → o ≡ some j
Evolves-frozen unchanged h = refl
Evolves-frozen (created r n) h = cc (Evolves-frozen r h)
Evolves-frozen (changed r c) h = ground (arith, Evolves-frozen r h, Change-IsOpen c)

-- What holds of every row of the table.
pub record IsWellFormed (j : Job) : Type 0 where
  pub percent : IsPercent j.progress
  pub ended : is_some j.completed_at ≡ is_terminal_job_status j.status
  pub succeeded_full : j.status ≡ succeeded → j.progress ≡ int (pos 100)
  pub failed_told :
      j.status ≡ failed → (is_some j.error_code ≡ true) × (is_some j.sanitized_error ≡ true)
  pub told_failed : is_some j.error_code ≡ true → j.status ≡ failed
  pub explained_failed : is_some j.sanitized_error ≡ true → j.status ≡ failed
  pub running_begun :
      j.status ≡ running
      → (is_some j.started_at ≡ true) × (is_some j.heartbeat_at ≡ true) × (1 ≤ j.attempts)
  pub cancel_dated : j.status ≡ cancel_requested → is_some j.cancel_requested_at ≡ true
  pub payload_clean : IsSanitized j.payload
  pub result_clean : ResultIsSanitized j.result

IsNew-IsWellFormed : {j : Job} → IsNew j → IsWellFormed j
unfolding is_terminal_job_status
IsNew-IsWellFormed n = record {
  percent = rw n.at_zero (ground arith);
  ended = rw n.waits (rw n.not_completed refl);
  succeeded_full = λ e. cc;
  failed_told = λ e. cc;
  told_failed = λ e. cc;
  explained_failed = λ e. cc;
  running_begun = λ e. cc;
  cancel_dated = λ e. cc;
  payload_clean = n.clean;
  result_clean = rw n.no_result tt;
}

Change-IsWellFormed : {j j' : Job} → Change j j' → IsWellFormed j → IsWellFormed j'
unfolding is_terminal_job_status
Change-IsWellFormed (attempted t h g e) w = rw e (ground arith)
Change-IsWellFormed (progressed n g v e) w = rw e (ground arith)
Change-IsWellFormed (progressed_to n s g v f e) w = rw e (ground arith)
Change-IsWellFormed (put_back g e) w = rw e (ground arith)
Change-IsWellFormed (beaten h g e) w = rw e (ground arith)
Change-IsWellFormed (asked_to_cancel t g e) w = rw e (ground arith)
Change-IsWellFormed (stopped t g e) w = rw e (ground arith)
Change-IsWellFormed (completed none s t g v e) w = rw e (ground arith)
Change-IsWellFormed (completed (some r) s t g v e) w = rw e (ground arith)
Change-IsWellFormed (broken c m t g e) w = rw e (ground arith)
Change-IsWellFormed (not_sent t g e) w = rw e (ground arith)
Change-IsWellFormed (sent i g e) w = rw e (ground arith)
Change-IsWellFormed (sent_again i g e) w = rw e (ground arith)

abbrev pub OptionHolds : (Job → Type 0) → Option Job → Type 0
OptionHolds P none = Unit
OptionHolds P (some j) = P j

-- Whatever becomes of a well-formed row, or of one that is not there yet, is well-formed.
pub Evolves-IsWellFormed :
    {o u : Option Job} → Evolves o u → OptionHolds IsWellFormed o → OptionHolds IsWellFormed u
Evolves-IsWellFormed unchanged h = h
Evolves-IsWellFormed (created r n) h = IsNew-IsWellFormed n
Evolves-IsWellFormed (changed r c) h = Change-IsWellFormed c (Evolves-IsWellFormed r h)
