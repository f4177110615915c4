-- ===== src/Job/Notifications/Tests.antt =====
-- Notifications at concrete inputs.
use silo_core.Base.{◌&&◌, ◌≡◌, refl, none, some, List, [], ◌∷◌, str_eq, if◌then◌else◌, arith}
use silo_core.Job.{hint_running}
use silo_core.Job.Notifications.{
  JsonText, IsJsonText, notice, to_payload, parse_job_notification_payload,
  parse_job_notification_payload-to_payload,
}
use silo_core.Job.Notifications.Subscriptions.{
  has, handle_notification, subscribe, unsubscribe, subscribe_to_categories, lookup,
}
use silo_core.Job.Notifications.Subscriptions.Laws.{
  Operation, subscribes, unsubscribes, subscribes_to_categories, closes, after_all, is_due,
  handle_notification_iff_subscribed,
}

-- the text of one object
abbrev one_text : JsonText
one_text = record {
  stringify = λ _. "{jobId:5,event:running}";
  parse = λ s. if str_eq s "" then none else some (notice 5 hint_running);
}

one_text-IsJsonText : IsJsonText one_text (notice 5 hint_running)
one_text-IsJsonText = record { parse-stringify = refl; parse-empty = refl }

parse_job_notification_payload-to_payload_example :
    parse_job_notification_payload one_text (some (to_payload one_text 5 hint_running))
    ≡ some (record { job_id = 5; event = hint_running })
parse_job_notification_payload-to_payload_example =
    parse_job_notification_payload-to_payload one_text 5 hint_running one_text-IsJsonText
      (omega arith) (omega arith)

abbrev operations : List Operation
operations =
    subscribes 5 2
    ∷ unsubscribes 5 1
    ∷ subscribes_to_categories 3
    ∷ subscribes 5 1
    ∷ closes
    ∷ subscribes 7 1
    ∷ []

-- The second subscriber waits for the job, the third for all jobs, the first no more.
called :
    handle_notification one_text "silocore_job_state_changed" (some "{}") (after_all operations)
    ≡ (2 ∷ 3 ∷ [])
unfolding subscribe unsubscribe subscribe_to_categories handle_notification lookup
called = refl

handle_notification_iff_subscribed_example :
    has 2
      (handle_notification one_text "silocore_job_state_changed" (some "{}") (after_all operations))
    ≡ (str_eq "silocore_job_state_changed" "silocore_job_state_changed"
        && is_due 2 operations (parse_job_notification_payload one_text (some "{}")))
handle_notification_iff_subscribed_example =
    handle_notification_iff_subscribed one_text "silocore_job_state_changed" (some "{}") 2
      operations
