-- ===== src/Job/Notifications.antt =====
-- job.notifications.ts: the payload of a notification and what is read from it, and the listener's
-- subscriptions. `JSON` and the connection to the database are parameters.
pub mod Subscriptions
mod Tests
use silo_core.Base.{
  ℕ, zero, suc, ◌≤◌, ◌<◌, String, Bool, true, false, not, ◌&&◌, ◌||◌, ◌≡◌, refl, sym, ap, ◌∙◌,
  subst, Option, none, some, leb, ltb, str_eq, if◌then◌else◌, arith, if_true, if_false, Bool-cases,
  inl, inr, eq_iff,
}
use silo_core.Base.Int.{Number, int, pos}
use silo_core.Json.{Json, text, number, object, Fields, end, field}
use silo_core.Job.{
  JobNotificationHint, hint_queued, hint_enqueue_failed, hint_running, hint_progress,
  hint_cancellation_requested, hint_cancelled, hint_succeeded, hint_failed, hint_heartbeat,
}

pub record JobNotification : Type 0 where
  pub job_id : ℕ
  pub event : JobNotificationHint

-- `JSON.parse` is `none` where it throws.
pub record JsonText : Type 0 where
  pub stringify : Json → String
  pub parse : String → Option Json

-- What is documented of `JSON`, for one value.
pub record IsJsonText (j : JsonText) (v : Json) : Type 0 where
  pub parse-stringify : j.parse (j.stringify v) ≡ some v
  pub parse-empty : j.parse "" ≡ none

abbrev pub hint_name : JobNotificationHint → String
hint_name hint_queued = "queued"
hint_name hint_enqueue_failed = "enqueue_failed"
hint_name hint_running = "running"
hint_name hint_progress = "progress"
hint_name hint_cancellation_requested = "cancellation_requested"
hint_name hint_cancelled = "cancelled"
hint_name hint_succeeded = "succeeded"
hint_name hint_failed = "failed"
hint_name hint_heartbeat = "heartbeat"

abbrev first_of :
    String → JobNotificationHint → Option JobNotificationHint → Option JobNotificationHint
first_of name hint rest = if str_eq name (hint_name hint) then some hint else rest

-- `VALID_JOB_NOTIFICATION_HINTS`
unfoldable hint_of : String → Option JobNotificationHint
hint_of name = first_of name hint_queued (
    first_of name hint_enqueue_failed (
      first_of name hint_running (
        first_of name hint_progress (
          first_of name hint_cancellation_requested (
            first_of name hint_cancelled (
              first_of name hint_succeeded
                (first_of name hint_failed (first_of name hint_heartbeat none))))))))

-- the property of an object
abbrev get : String → Fields → Option Json
get key end = none
get key (field name value rest) = if str_eq name key then some value else get key rest

-- Number.MAX_SAFE_INTEGER
abbrev pub max_safe_integer : ℕ
max_safe_integer = 9007199254740991

abbrev is_job_id : ℕ → Bool
is_job_id n = ltb 0 n && leb n max_safe_integer

abbrev job_id_of : Option Json → Option ℕ
job_id_of (some (number (int (pos n)))) = if is_job_id n then some n else none
job_id_of _ = none

unfoldable event_of : Option Json → Option JobNotificationHint
unfolding hint_of
event_of (some (text name)) = hint_of name
event_of _ = none

abbrev to_notification : Option ℕ → Option JobNotificationHint → Option JobNotification
to_notification (some n) (some hint) = some (record { job_id = n; event = hint })
to_notification _ _ = none

unfoldable read_notification : Option Json → Option JobNotification
unfolding event_of
read_notification (some (object fields)) =
    to_notification (job_id_of (get "jobId" fields)) (event_of (get "event" fields))
read_notification _ = none

-- the object that `notifyJobChanged` sends
abbrev pub notice : ℕ → JobNotificationHint → Json
notice job_id event =
    object (field "jobId" (number (int (pos job_id))) (field "event" (text (hint_name event)) end))

module _ (j : JsonText) where
  abbrev pub to_payload : ℕ → JobNotificationHint → String
  to_payload job_id event = j.stringify (notice job_id event)

  unfoldable pub parse_job_notification_payload : Option String → Option JobNotification
  unfolding read_notification
  parse_job_notification_payload none = none
  parse_job_notification_payload (some payload) =
      if str_eq payload "" then none else read_notification (j.parse payload)

hint_of-hint_name : (h : JobNotificationHint) → hint_of (hint_name h) ≡ some h
unfolding hint_of
hint_of-hint_name hint_queued = refl
hint_of-hint_name hint_enqueue_failed = refl
hint_of-hint_name hint_running = refl
hint_of-hint_name hint_progress = refl
hint_of-hint_name hint_cancellation_requested = refl
hint_of-hint_name hint_cancelled = refl
hint_of-hint_name hint_succeeded = refl
hint_of-hint_name hint_failed = refl
hint_of-hint_name hint_heartbeat = refl

read-fields :
    (n : ℕ) (h : JobNotificationHint)
    → is_job_id n ≡ true
    → read_notification (
        some
          (object (field "jobId" (number (int (pos n))) (field "event" (text (hint_name h)) end))))
      ≡ some (record { job_id = n; event = h })
unfolding read_notification event_of
read-fields n h good =
    ap (λ x. to_notification x (hint_of (hint_name h))) (if_true (some n) none good)
    ∙ ap (to_notification (some n)) (hint_of-hint_name h)

in_range : (n : ℕ) → 0 < n → n ≤ max_safe_integer → is_job_id n ≡ true
in_range n low high = ground arith

-- What `notifyJobChanged` sends about a job with a positive safe integer as its id is read back as
-- that id and that event.
pub parse_job_notification_payload-to_payload :
    (j : JsonText) (n : ℕ) (h : JobNotificationHint)
    → IsJsonText j (notice n h)
    → 0 < n
    → n ≤ max_safe_integer
    → parse_job_notification_payload j (some (to_payload j n h))
      ≡ some (record { job_id = n; event = h })
unfolding parse_job_notification_payload
parse_job_notification_payload-to_payload j n h laws low high =
    elim (Bool-cases (str_eq (to_payload j n h) "")) [
      | inl empty ↦
          let gone =
            sym (ap j.parse ((eq_iff _ _).0 empty) ∙ laws.parse-empty) ∙ laws.parse-stringify in
          cc
      | inr full ↦
          if_false _ _ full
          ∙ ap read_notification laws.parse-stringify
          ∙ read-fields n h (in_range n low high)
    ]
