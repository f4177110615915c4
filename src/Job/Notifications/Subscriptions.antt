-- ===== src/Job/Notifications/Subscriptions.antt =====
-- job.notifications.ts: JobNotificationListener. A subscriber is known by a number; its connection is
-- left out, since it only starts and reports `handleNotification`.
pub mod Laws
use silo_core.Base.{
  ℕ, String, Bool, true, false, not, ◌&&◌, ◌||◌, ◌≡◌, refl, ap, ◌∙◌, sym, Option, none, some, List,
  [], ◌∷◌, ◌++◌, ◌==◌, str_eq, any, if◌then◌else◌, Bool-cases, inl, inr, if_true, if_false, ==_iff,
  subst, arith,
}
use silo_core.Job.Notifications.{JobNotification, JsonText, parse_job_notification_payload}

-- `subscribersByJobId`, a map to sets in the order of insertion, and `categorySubscribers`.
pub record JobNotificationListener : Type 0 where
  pub subscribers_by_job_id : List (ℕ × List ℕ)
  pub category_subscribers : List ℕ

abbrev pub start : JobNotificationListener
start = record { subscribers_by_job_id = []; category_subscribers = [] }

-- `add`, `delete` and `has` of a set
abbrev pub has : ℕ → List ℕ → Bool
has x = any (λ y. x == y)

abbrev add : ℕ → List ℕ → List ℕ
add x xs = if has x xs then xs else xs ++ (x ∷ [])

abbrev remove : ℕ → List ℕ → List ℕ
remove x [] = []
remove x (y ∷ ys) = let rest = remove x ys in if x == y then rest else y ∷ rest

-- `get`, `set` and `delete` of the map
unfoldable pub lookup : ℕ → List (ℕ × List ℕ) → Option (List ℕ)
lookup k [] = none
lookup k ((i, xs) ∷ rest) = if i == k then some xs else lookup k rest

unfoldable put : ℕ → List ℕ → List (ℕ × List ℕ) → List (ℕ × List ℕ)
put k xs [] = (k, xs) ∷ []
put k xs ((i, ys) ∷ rest) =
    let later = put k xs rest in if i == k then (i, xs) ∷ rest else (i, ys) ∷ later

unfoldable drop_key : ℕ → List (ℕ × List ℕ) → List (ℕ × List ℕ)
drop_key k [] = []
drop_key k ((i, ys) ∷ rest) =
    let later = drop_key k rest in if i == k then later else (i, ys) ∷ later

abbrev pub or_nobody : Option (List ℕ) → List ℕ
or_nobody none = []
or_nobody (some xs) = xs

unfoldable pub subscribe : ℕ → ℕ → JobNotificationListener → JobNotificationListener
unfolding lookup put
subscribe job_id subscriber l = record l {
  subscribers_by_job_id =
      put job_id (add subscriber (or_nobody (lookup job_id l.subscribers_by_job_id)))
        l.subscribers_by_job_id;
}

unfoldable put_or_drop : ℕ → List ℕ → List (ℕ × List ℕ) → List (ℕ × List ℕ)
unfolding put drop_key
put_or_drop job_id [] m = drop_key job_id m
put_or_drop job_id (x ∷ xs) m = put job_id (x ∷ xs) m

unfoldable without : ℕ → ℕ → Option (List ℕ) → List (ℕ × List ℕ) → List (ℕ × List ℕ)
unfolding put_or_drop
without job_id subscriber none m = m
without job_id subscriber (some xs) m = put_or_drop job_id (remove subscriber xs) m

-- what `subscribe` returns
unfoldable pub unsubscribe : ℕ → ℕ → JobNotificationListener → JobNotificationListener
unfolding without lookup
unsubscribe job_id subscriber l = record l {
  subscribers_by_job_id =
      without job_id subscriber (lookup job_id l.subscribers_by_job_id) l.subscribers_by_job_id;
}

unfoldable pub subscribe_to_categories : ℕ → JobNotificationListener → JobNotificationListener
subscribe_to_categories subscriber l = record l {
  category_subscribers = add subscriber l.category_subscribers;
}

unfoldable pub unsubscribe_from_categories : ℕ → JobNotificationListener → JobNotificationListener
unsubscribe_from_categories subscriber l = record l {
  category_subscribers = remove subscriber l.category_subscribers;
}

abbrev pub close : JobNotificationListener → JobNotificationListener
close l = start

abbrev job_notification_channel : String
job_notification_channel = "silocore_job_state_changed"

-- The subscribers that are called with the notification, in order.
unfoldable deliver : Option JobNotification → JobNotificationListener → List ℕ
unfolding lookup
deliver none l = []
deliver (some n) l = or_nobody (lookup n.job_id l.subscribers_by_job_id) ++ l.category_subscribers

unfoldable pub handle_notification :
    JsonText → String → Option String → JobNotificationListener → List ℕ
unfolding deliver parse_job_notification_payload
handle_notification j channel payload l =
    if str_eq channel job_notification_channel
    then deliver (parse_job_notification_payload j payload) l
    else []
