-- ===== src/Job/Events/Hints/Waiting.antt =====
-- What keeps the feed of job.events.ts awake to its hints: when a hint is waited for, a task is there.
use silo_core.Base.{
  or_left, ℕ, zero, suc, ◌≤◌, Bool, true, false, ◌||◌, ◌≡◌, refl, sym, ap, ◌∙◌, subst, List, [],
  ◌∷◌, ◌++◌, ltb, ltb→lt, length, if◌then◌else◌, Bool-cases, inl, inr, if_true, if_false, arith,
}
use silo_core.Job.Events.{
  Feed, Phase, reading_hints, Task, scan, read_hints, is_pending, is_empty, drop, max_pending_hints,
  schedule_scan, schedule_hints, notified, close,
}

abbrev pub is_reading_hints : Phase → Bool
is_reading_hints (reading_hints _) = true
is_reading_hints _ = false

abbrev pub has_hints_task : List Task → Bool
has_hints_task [] = false
has_hints_task (read_hints ∷ ts) = true
has_hints_task (scan ∷ ts) = has_hints_task ts

-- `reads` says that the running task reads hints.
pub record Awake (reads closed : Bool) (pending : List ℕ) (hints_queued : Bool) (work : List Task)
    : Type 0 where
  pub bounded : length pending ≤ 1000
  pub flagged : closed ≡ false → is_empty pending ≡ false → hints_queued ≡ true
  pub tasked : closed ≡ false → hints_queued ≡ true → (has_hints_task work || reads) ≡ true

abbrev pub Wakes : Bool → Feed → Type 0
Wakes reads f = Awake reads f.closed f.pending_job_ids f.hints_queued f.work

pub record IsAwake (f : Feed) : Type 0 where
  pub awake : Wakes (is_reading_hints f.phase) f

pub IsAwake-if : (b : Bool) (x y : Feed) → IsAwake x → IsAwake y → IsAwake (if b then x else y)
IsAwake-if true x y h g = h
IsAwake-if false x y h g = g

has-scan : (ts : List Task) → has_hints_task (ts ++ (scan ∷ [])) ≡ has_hints_task ts
has-scan [] = refl
has-scan (scan ∷ ts) = has-scan ts
has-scan (read_hints ∷ ts) = refl

has-hints : (ts : List Task) → has_hints_task (ts ++ (read_hints ∷ [])) ≡ true
has-hints [] = refl
has-hints (scan ∷ ts) = has-hints ts
has-hints (read_hints ∷ ts) = refl

pub length-drop : (n : ℕ) (xs : List ℕ) → length (drop n xs) ≤ length xs
length-drop zero xs = omega arith
length-drop (suc n) [] = omega arith
length-drop (suc n) (x ∷ xs) = let rest = length-drop n xs in omega arith

length-snoc : (xs : List ℕ) (x : ℕ) → length (xs ++ (x ∷ [])) ≡ suc (length xs)
length-snoc [] x = refl
length-snoc (y ∷ ys) x = ap (λ n. suc n) (length-snoc ys x)

pub scheduled_scan : (f : Feed) → IsAwake f → IsAwake (schedule_scan f)
unfolding schedule_scan
scheduled_scan f h = IsAwake-if (f.closed || f.scan_queued) _ _ h (record {
  awake = record {
    bounded = h.awake.bounded;
    flagged = h.awake.flagged;
    tasked = λ is_open queued.
        ap (λ b. b || is_reading_hints f.phase) (has-scan f.work) ∙ h.awake.tasked is_open queued;
  };
})

-- What holds of a feed but for the flag.
pub record IsDrowsy (f : Feed) : Type 0 where
  pub few : length f.pending_job_ids ≤ 1000
  pub has_task :
      f.closed ≡ false
      → f.hints_queued ≡ true
      → (has_hints_task f.work || is_reading_hints f.phase) ≡ true

pub scheduled_hints : (f : Feed) → IsDrowsy f → IsAwake (schedule_hints f)
unfolding schedule_hints
scheduled_hints f h = elim (Bool-cases (f.closed || f.hints_queued)) [
  | inl skipped ↦ subst IsAwake (sym (if_true _ _ skipped)) (record {
    awake = record {
      bounded = h.few;
      flagged = λ is_open _. sym (ap (λ b. b || f.hints_queued) is_open) ∙ skipped;
      tasked = h.has_task;
    };
  })
  | inr due ↦ subst IsAwake (sym (if_false _ _ due)) (record {
    awake = record {
      bounded = h.few;
      flagged = λ _ _. refl;
      tasked = λ _ _. or_left _ _ (has-hints f.work);
    };
  })
]

pub notified-IsAwake : (id : ℕ) (f : Feed) → IsAwake f → IsAwake (notified id f)
unfolding notified
notified-IsAwake id f h = IsAwake-if f.closed _ _ h (
    IsAwake-if (is_pending id f.pending_job_ids) _ _
      (scheduled_hints f (record { few = h.awake.bounded; has_task = h.awake.tasked }))
      (elim (Bool-cases (ltb (length f.pending_job_ids) max_pending_hints)) [
        | inl room ↦
            let less = ltb→lt (length f.pending_job_ids) max_pending_hints room in
            let longer = length-snoc f.pending_job_ids id in
            subst IsAwake (sym (if_true _ _ room)) (
              scheduled_hints (record f { pending_job_ids = f.pending_job_ids ++ (id ∷ []) })
                (record { few = omega arith; has_task = h.awake.tasked }))
        | inr full ↦ subst IsAwake (sym (if_false _ _ full)) (scheduled_scan f h)
      ]))

pub close-IsAwake : (f : Feed) → IsAwake f → IsAwake (close f)
unfolding close
close-IsAwake f h =
    IsAwake-if f.closed _ _ h
      (record { awake = record { bounded = omega arith; flagged = λ e _. cc; tasked = λ e _. cc } })

pub or_right : (a : Bool) → (a || true) ≡ true
or_right true = refl
or_right false = refl

pub empty-drop : (n : ℕ) (xs : List ℕ) → is_empty (drop n xs) ≡ false → is_empty xs ≡ false
empty-drop zero xs e = e
empty-drop (suc n) [] e = e
empty-drop (suc n) (x ∷ xs) e = refl

-- A feed whose running task, if there is one, reads no hints.
pub settle : (f : Feed) → is_reading_hints f.phase ≡ false → Wakes false f → IsAwake f
settle f e h = record { awake = subst (λ r. Wakes r f) (sym e) h }

pub calm : (f : Feed) (b : Bool) → IsAwake f → is_reading_hints f.phase ≡ b → Wakes b f
calm f b h e = subst (λ r. Wakes r f) e h.awake

pub scan_taken :
    (f : Feed) (rest : List Task)
    → Awake false f.closed f.pending_job_ids f.hints_queued (scan ∷ rest)
    → Wakes false (record f { work = rest })
scan_taken f rest h = record { bounded = h.bounded; flagged = h.flagged; tasked = h.tasked }
