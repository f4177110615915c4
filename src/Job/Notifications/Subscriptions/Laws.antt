-- ===== src/Job/Notifications/Subscriptions/Laws.antt =====
-- Whom the listener of job.notifications.ts calls, after any subscriptions and cancellations.
use silo_core.Base.{
  ℕ, String, Bool, true, false, not, ◌&&◌, ◌||◌, ◌≡◌, refl, ap, ◌∙◌, sym, Option, none, some, List,
  [], ◌∷◌, ◌++◌, ◌==◌, str_eq, if◌then◌else◌, Bool-cases, inl, inr, if_true, if_false, ==_iff,
  subst, arith,
}
use silo_core.Job.Notifications.{JobNotification, JsonText, parse_job_notification_payload}
use silo_core.Job.Notifications.Subscriptions.{
  JobNotificationListener, start, has, add, remove, lookup, put, drop_key, or_nobody, subscribe,
  put_or_drop, without, unsubscribe, subscribe_to_categories, unsubscribe_from_categories, close,
  job_notification_channel, deliver, handle_notification,
}

has-append : (x : ℕ) (xs : List ℕ) (y : ℕ) → has x (xs ++ (y ∷ [])) ≡ (has x xs || x == y)
has-append x [] y = ground arith
has-append x (z ∷ zs) y = let rest = has-append x zs y in ground arith

swap : (a b : Bool) → (a || b) ≡ (b || a)
swap true true = refl
swap true false = refl
swap false true = refl
swap false false = refl

already : (x y : ℕ) (xs : List ℕ) → has y xs ≡ true → has x xs ≡ (x == y || has x xs)
already x y xs there = elim (Bool-cases (x == y)) [
  | inl same ↦
      let here = subst (λ z. has z xs ≡ true) (sym ((==_iff x y).0 same)) there in
      here ∙ sym (ap (λ b. b || has x xs) same)
  | inr differs ↦ sym (ap (λ b. b || has x xs) differs)
]

gone :
    (x y z : ℕ) (b : Bool)
    → (y == z) ≡ true
    → (not (x == y) && b) ≡ (not (x == y) && ((x == z) || b))
gone x y z b same = ground arith

stays :
    (x y z : ℕ) (b : Bool)
    → (y == z) ≡ false
    → ((x == z) || (not (x == y) && b)) ≡ (not (x == y) && ((x == z) || b))
stays x y z b differs = ground arith

has-add : (x y : ℕ) (xs : List ℕ) → has x (add y xs) ≡ (x == y || has x xs)
has-add x y xs = elim (Bool-cases (has y xs)) [
  | inl there ↦ ap (has x) (if_true xs _ there) ∙ already x y xs there
  | inr missing ↦
      let appended = has-append x xs y in
      ap (has x) (if_false xs _ missing) ∙ appended ∙ swap (has x xs) (x == y)
]

has-remove : (x y : ℕ) (xs : List ℕ) → has x (remove y xs) ≡ (not (x == y) && has x xs)
has-remove x y [] = ground arith
has-remove x y (z ∷ zs) = elim (Bool-cases (y == z)) [
  | inl same ↦
      let rest = has-remove x y zs in
      ap (has x) (if_true _ _ same) ∙ rest ∙ gone x y z (has x zs) same
  | inr differs ↦
      let rest = has-remove x y zs in
      ap (has x) (if_false _ _ differs)
      ∙ ap (λ b. (x == z) || b) rest
      ∙ stays x y z (has x zs) differs
]

pick :
    {A : Type 0} (a b : Bool) (x y r : A)
    → a ≡ b
    → (if a then x else r) ≡ (if b then x else if a then y else r)
pick true true x y r e = refl
pick true false x y r e = cc
pick false true x y r e = cc
pick false false x y r e = refl

pick_same :
    {A : Type 0} (a b : Bool) (x y r : A)
    → a ≡ b
    → (if b then x else r) ≡ (if b then x else if a then y else r)
pick_same a true x y r e = refl
pick_same true false x y r e = cc
pick_same false false x y r e = refl

cross :
    {A : Type 0} (a b : Bool) (x y r : A)
    → (a ≡ true → b ≡ true → ⊥)
    → (if a then y else if b then x else r) ≡ (if b then x else if a then y else r)
cross true true x y r apart = elim (apart refl refl) [ ]
cross true false x y r apart = refl
cross false b x y r apart = refl

same_key : (j i k : ℕ) → (j == i) ≡ true → (j == k) ≡ (i == k)
same_key j i k e = ap (λ n. n == k) ((==_iff j i).0 e)

apart_keys : (j i k : ℕ) → (j == i) ≡ false → (j == k) ≡ true → (i == k) ≡ true → ⊥
apart_keys j i k e f g = let same = (==_iff j i).1 ((==_iff j k).0 f ∙ sym ((==_iff i k).0 g)) in cc

lookup-put :
    (k i : ℕ) (xs : List ℕ) (m : List (ℕ × List ℕ))
    → lookup k (put i xs m) ≡ (if i == k then some xs else lookup k m)
unfolding lookup put
lookup-put k i xs [] = refl
lookup-put k i xs ((j, ys) ∷ rest) = elim (Bool-cases (j == i)) [
  | inl same ↦
      ap (lookup k) (if_true _ _ same)
      ∙ pick (j == k) (i == k) (some xs) (some ys) _ (same_key j i k same)
  | inr differs ↦
      ap (lookup k) (if_false _ _ differs)
      ∙ ap (λ r. if j == k then some ys else r) (lookup-put k i xs rest)
      ∙ cross (j == k) (i == k) (some xs) (some ys) _ (apart_keys j i k differs)
]

none_if : (b : Bool) → ◌≡◌ {A = Option (List ℕ)} none (if b then none else none)
none_if true = refl
none_if false = refl

lookup-drop_key :
    (k i : ℕ) (m : List (ℕ × List ℕ))
    → lookup k (drop_key i m) ≡ (if i == k then none else lookup k m)
unfolding lookup drop_key
lookup-drop_key k i [] = none_if (i == k)
lookup-drop_key k i ((j, ys) ∷ rest) = elim (Bool-cases (j == i)) [
  | inl same ↦
      ap (lookup k) (if_true _ _ same)
      ∙ lookup-drop_key k i rest
      ∙ pick_same (j == k) (i == k) none (some ys) _ (same_key j i k same)
  | inr differs ↦
      ap (lookup k) (if_false _ _ differs)
      ∙ ap (λ r. if j == k then some ys else r) (lookup-drop_key k i rest)
      ∙ cross (j == k) (i == k) none (some ys) _ (apart_keys j i k differs)
]

-- The subscriber is in the set of the job.
abbrev listens : ℕ → ℕ → JobNotificationListener → Bool
listens k x l = has x (or_nobody (lookup k l.subscribers_by_job_id))

pub data Operation : Type 0 where
  subscribes unsubscribes : ℕ → ℕ → Operation
  subscribes_to_categories unsubscribes_from_categories : ℕ → Operation
  closes : Operation

abbrev pub operate : Operation → JobNotificationListener → JobNotificationListener
operate (subscribes job_id x) l = subscribe job_id x l
operate (unsubscribes job_id x) l = unsubscribe job_id x l
operate (subscribes_to_categories x) l = subscribe_to_categories x l
operate (unsubscribes_from_categories x) l = unsubscribe_from_categories x l
operate closes l = close l

-- The latest operation is first.
abbrev pub after_all : List Operation → JobNotificationListener
after_all [] = start
after_all (o ∷ os) = operate o (after_all os)

-- Whether the last operation on the job and the subscriber, and on all, subscribes.
abbrev pub is_subscribed : ℕ → ℕ → List Operation → Bool
is_subscribed k x [] = false
is_subscribed k x (subscribes i y ∷ os) = (i == k && x == y) || is_subscribed k x os
is_subscribed k x (unsubscribes i y ∷ os) = not (i == k && x == y) && is_subscribed k x os
is_subscribed k x (closes ∷ os) = false
is_subscribed k x (_ ∷ os) = is_subscribed k x os

-- The same for the subscriptions to the notifications of all jobs.
abbrev pub is_subscribed_to_categories : ℕ → List Operation → Bool
is_subscribed_to_categories x [] = false
is_subscribed_to_categories x (subscribes_to_categories y ∷ os) =
    x == y || is_subscribed_to_categories x os
is_subscribed_to_categories x (unsubscribes_from_categories y ∷ os) =
    not (x == y) && is_subscribed_to_categories x os
is_subscribed_to_categories x (closes ∷ os) = false
is_subscribed_to_categories x (_ ∷ os) = is_subscribed_to_categories x os

-- Whether the subscriber is to be called with what a payload is parsed to.
abbrev pub is_due : ℕ → List Operation → Option JobNotification → Bool
is_due x os none = false
is_due x os (some n) = is_subscribed n.job_id x os || is_subscribed_to_categories x os

has-if :
    (x : ℕ) (b : Bool) (xs : List ℕ) (o : Option (List ℕ))
    → has x (or_nobody (if b then some xs else o)) ≡ (if b then has x xs else has x (or_nobody o))
has-if x true xs o = refl
has-if x false xs o = refl

listens-subscribe :
    (k x i y : ℕ) (l : JobNotificationListener)
    → listens k x (subscribe i y l) ≡ ((i == k && x == y) || listens k x l)
unfolding subscribe
listens-subscribe k x i y l =
    let m = l.subscribers_by_job_id in
    ap (λ o. has x (or_nobody o)) (lookup-put k i _ m)
    ∙ has-if x (i == k) _ (lookup k m)
    ∙ elim (Bool-cases (i == k)) [
      | inl same ↦
          if_true _ _ same
          ∙ has-add x y (or_nobody (lookup i m))
          ∙ ap (λ n. x == y || has x (or_nobody (lookup n m))) ((==_iff i k).0 same)
          ∙ sym (ap (λ b. (b && x == y) || listens k x l) same)
      | inr differs ↦ if_false _ _ differs ∙ sym (ap (λ b. (b && x == y) || listens k x l) differs)
    ]

has-or_none :
    (x : ℕ) (b : Bool) (o : Option (List ℕ))
    → has x (or_nobody (if b then none else o)) ≡ (if b then false else has x (or_nobody o))
has-or_none x true o = refl
has-or_none x false o = refl

has-put_or_drop :
    (k i x : ℕ) (zs : List ℕ) (m : List (ℕ × List ℕ))
    → has x (or_nobody (lookup k (put_or_drop i zs m)))
      ≡ (if i == k then has x zs else has x (or_nobody (lookup k m)))
unfolding put_or_drop
has-put_or_drop k i x [] m =
    ap (λ o. has x (or_nobody o)) (lookup-drop_key k i m) ∙ has-or_none x (i == k) (lookup k m)
has-put_or_drop k i x (z ∷ zs) m =
    ap (λ o. has x (or_nobody o)) (lookup-put k i (z ∷ zs) m)
    ∙ has-if x (i == k) (z ∷ zs) (lookup k m)

nothing : (a b : Bool) → b ≡ false → (not a && b) ≡ false
nothing true b e = refl
nothing false b e = e

has-without :
    (k x i y : ℕ) (m : List (ℕ × List ℕ)) (o : Option (List ℕ))
    → lookup i m ≡ o
    → has x (or_nobody (lookup k (without i y o m)))
      ≡ (not (i == k && x == y) && has x (or_nobody (lookup k m)))
unfolding without
has-without k x i y m none e = elim (Bool-cases (i == k)) [
  | inl same ↦
      let nobody : has x (or_nobody (lookup k m)) ≡ false =
        ap (λ n. has x (or_nobody (lookup n m))) (sym ((==_iff i k).0 same))
        ∙ ap (λ r. has x (or_nobody r)) e in
      nobody ∙ sym (nothing (i == k && x == y) _ nobody)
  | inr differs ↦ sym (ap (λ b. not (b && x == y) && has x (or_nobody (lookup k m))) differs)
]
has-without k x i y m (some xs) e = elim (Bool-cases (i == k)) [
  | inl same ↦
      let here : has x xs ≡ has x (or_nobody (lookup k m)) =
        ap (λ r. has x (or_nobody r)) (sym e)
        ∙ ap (λ n. has x (or_nobody (lookup n m))) ((==_iff i k).0 same) in
      has-put_or_drop k i x (remove y xs) m
      ∙ if_true _ _ same
      ∙ has-remove x y xs
      ∙ ap (λ b. not (x == y) && b) here
      ∙ sym (ap (λ b. not (b && x == y) && has x (or_nobody (lookup k m))) same)
  | inr differs ↦
      has-put_or_drop k i x (remove y xs) m
      ∙ if_false _ _ differs
      ∙ sym (ap (λ b. not (b && x == y) && has x (or_nobody (lookup k m))) differs)
]

listens_iff : (k x : ℕ) (os : List Operation) → listens k x (after_all os) ≡ is_subscribed k x os
unfolding unsubscribe lookup subscribe_to_categories unsubscribe_from_categories
listens_iff k x [] = refl
listens_iff k x (subscribes i y ∷ os) =
    listens-subscribe k x i y (after_all os)
    ∙ ap (λ b. (i == k && x == y) || b) (listens_iff k x os)
listens_iff k x (unsubscribes i y ∷ os) =
    let m = (after_all os).subscribers_by_job_id in
    has-without k x i y m (lookup i m) refl
    ∙ ap (λ b. not (i == k && x == y) && b) (listens_iff k x os)
listens_iff k x (subscribes_to_categories y ∷ os) = listens_iff k x os
listens_iff k x (unsubscribes_from_categories y ∷ os) = listens_iff k x os
listens_iff k x (closes ∷ os) = refl

listens_to_categories_iff :
    (x : ℕ) (os : List Operation)
    → has x (after_all os).category_subscribers ≡ is_subscribed_to_categories x os
unfolding subscribe unsubscribe subscribe_to_categories unsubscribe_from_categories
listens_to_categories_iff x [] = refl
listens_to_categories_iff x (subscribes i y ∷ os) = listens_to_categories_iff x os
listens_to_categories_iff x (unsubscribes i y ∷ os) = listens_to_categories_iff x os
listens_to_categories_iff x (subscribes_to_categories y ∷ os) =
    has-add x y (after_all os).category_subscribers
    ∙ ap (λ b. x == y || b) (listens_to_categories_iff x os)
listens_to_categories_iff x (unsubscribes_from_categories y ∷ os) =
    has-remove x y (after_all os).category_subscribers
    ∙ ap (λ b. not (x == y) && b) (listens_to_categories_iff x os)
listens_to_categories_iff x (closes ∷ os) = refl

has-both : (x : ℕ) (xs ys : List ℕ) → has x (xs ++ ys) ≡ (has x xs || has x ys)
has-both x [] ys = refl
has-both x (z ∷ zs) ys = let rest = has-both x zs ys in ground arith

deliver-is_due :
    (x : ℕ) (os : List Operation) (n : Option JobNotification)
    → has x (deliver n (after_all os)) ≡ is_due x os n
unfolding deliver
deliver-is_due x os none = refl
deliver-is_due x os (some n) =
    let l = after_all os in
    has-both x (or_nobody (lookup n.job_id l.subscribers_by_job_id)) l.category_subscribers
    ∙ ap (λ b. b || has x l.category_subscribers) (listens_iff n.job_id x os)
    ∙ ap (λ b. is_subscribed n.job_id x os || b) (listens_to_categories_iff x os)

on_channel :
    (x : ℕ) (b : Bool) (xs : List ℕ) (due : Bool)
    → has x xs ≡ due
    → has x (if b then xs else []) ≡ (b && due)
on_channel x true xs due e = e
on_channel x false xs due e = refl

-- After any subscriptions to jobs and to all of them, cancellations of these and closings of the
-- listener, `handleNotification` calls a subscriber just if the notification came on the channel of
-- jobs, its payload is parsed to one about a job, and the last of the operations that concerns the
-- subscriber and that job, or else that concerns the subscriber and all jobs, is a subscription;
-- closing concerns everybody.
pub handle_notification_iff_subscribed :
    (j : JsonText) (channel : String) (payload : Option String) (x : ℕ) (os : List Operation)
    → has x (handle_notification j channel payload (after_all os)) ≡ (
        str_eq channel "silocore_job_state_changed"
        && is_due x os (parse_job_notification_payload j payload))
unfolding handle_notification
handle_notification_iff_subscribed j channel payload x os =
    on_channel x (str_eq channel job_notification_channel) _ _
      (deliver-is_due x os (parse_job_notification_payload j payload))
