-- ===== src/Job/Platform/Memory/Laws.antt =====
-- The laws of the platform in memory.
use mathlib.Core.Option
use silo_core.Base.{
  ℕ, zero, suc, ◌+◌, ◌≤◌, ◌<◌, ◌≡◌, ◌≢◌, refl, sym, ap, subst, ◌∙◌, Bool, true, false, Option, none,
  some, List, [], ◌∷◌, ◌++◌, length, take, All, ◌==◌, if◌then◌else◌, arith, inl, inr, Bool-cases,
  Option-cases, ==_iff,
}
use silo_core.Job.{Job}
use silo_core.Job.Platform.{
  IsPlatform, JobCreateInput, QueueMessage, SendReply, HasDistinctIds, KeepsId, new_job,
}
use silo_core.Job.Platform.Memory.{
  label, nth, put, find, select, first, limited, append_row, write_row, memory,
}

-- A list from the place `n` on of a table.
abbrev IsTail : List Job → ℕ → List Job → Type 0
IsTail db n js = (i : ℕ) → nth db (n + i) ≡ nth js i

IsTail-next :
    (db : List Job) (n : ℕ) (j : Job) (js : List Job) → IsTail db n (j ∷ js) → IsTail db (suc n) js
IsTail-next db n j js h i = subst (λ m. nth db m ≡ nth js i) (omega arith) (h (suc i))

IsTail-here :
    (db : List Job) (n : ℕ) (j : Job) (js : List Job)
    → IsTail db n (j ∷ js)
    → find db n ≡ some (label n j)
IsTail-here db n j js h =
    ap (Option.map (label n)) (subst (λ m. nth db m ≡ some j) (omega arith) (h 0))

abbrev Passes : List Job → (Job → Bool) → Job → Type 0
Passes db q j = (find db j.id ≡ some j) × (q j ≡ true)

select-Passes :
    (db : List Job) (q : Job → Bool) (n : ℕ) (js : List Job)
    → IsTail db n js
    → All (Passes db q) (select q n js)
select-Passes db q n [] h = tt
select-Passes db q n (j ∷ js) h = elim (Bool-cases (q (label n j))) [
  | inl e ↦
      rw e ((IsTail-here db n j js h, e), select-Passes db q (suc n) js (IsTail-next db n j js h))
  | inr e ↦ rw e (select-Passes db q (suc n) js (IsTail-next db n j js h))
]

select-above :
    (q : Job → Bool) (n m : ℕ) (js : List Job) → n < m → All (λ k. n ≢ k.id) (select q m js)
select-above q n m [] h = tt
select-above q n m (j ∷ js) h = elim (Bool-cases (q (label m j))) [
  | inl e ↦ rw e (omega arith, select-above q n (suc m) js (omega arith))
  | inr e ↦ rw e (select-above q n (suc m) js (omega arith))
]

select-HasDistinctIds : (q : Job → Bool) (n : ℕ) (js : List Job) → HasDistinctIds (select q n js)
select-HasDistinctIds q n [] = tt
select-HasDistinctIds q n (j ∷ js) = elim (Bool-cases (q (label n j))) [
  | inl e ↦ rw e (select-above q n (suc n) js (omega arith), select-HasDistinctIds q (suc n) js)
  | inr e ↦ rw e (select-HasDistinctIds q (suc n) js)
]

All-take : (P : Job → Type 0) (n : ℕ) (js : List Job) → All P js → All P (take n js)
All-take P zero js h = tt
All-take P (suc n) [] h = tt
All-take P (suc n) (j ∷ js) (here, h) = (here, All-take P n js h)

take-HasDistinctIds : (n : ℕ) (js : List Job) → HasDistinctIds js → HasDistinctIds (take n js)
take-HasDistinctIds zero js h = tt
take-HasDistinctIds (suc n) [] h = tt
take-HasDistinctIds (suc n) (j ∷ js) (others, h) =
    (All-take _ n js others, take-HasDistinctIds n js h)

limited-All : (P : Job → Type 0) (n : Option ℕ) (js : List Job) → All P js → All P (limited n js)
limited-All P none js h = h
limited-All P (some n) js h = All-take P n js h

limited-HasDistinctIds :
    (n : Option ℕ) (js : List Job) → HasDistinctIds js → HasDistinctIds (limited n js)
limited-HasDistinctIds none js h = h
limited-HasDistinctIds (some n) js h = take-HasDistinctIds n js h

length-take : (n : ℕ) (js : List Job) → length (take n js) ≤ n
length-take zero js = omega arith
length-take (suc n) [] = omega arith
length-take (suc n) (j ∷ js) = omega (arith, length-take n js)

first-some : (P : Job → Type 0) (js : List Job) (j : Job) → All P js → first js ≡ some j → P j
first-some P [] j h e = cc
first-some P (k ∷ js) j h e = let same : k ≡ j = cc in subst P same h.0

first-rest :
    (b : Bool) (x : Job) (js : List Job)
    → first (if b then x ∷ js else js) ≡ none
    → (b ≡ false) × (first js ≡ none)
first-rest true x js e = cc
first-rest false x js e = (refl, e)

-- If no row was selected, no row passes.
first-none :
    (q : Job → Bool) (n : ℕ) (js : List Job) (i m : ℕ) (j : Job)
    → first (select q n js) ≡ none
    → nth js i ≡ some j
    → n + i ≡ m
    → q (label m j) ≡ false
first-none q n [] i m j e f s = cc
first-none q n (x ∷ js) zero m j e f s =
    let same : x ≡ j = cc in
    let place : n ≡ m = omega arith in
    subst (λ y. q (label m y) ≡ false) same
      (subst (λ k. q (label k x) ≡ false) place (first-rest _ _ _ e).0)
first-none q n (x ∷ js) (suc i) m j e f s =
    first-none q (suc n) js i m j (first-rest _ _ _ e).1 f (omega arith)

nth-append :
    (db : List Job) (j : Job) (k : ℕ)
    → nth (db ++ j ∷ []) k ≡ (if length db == k then some j else nth db k)
nth-append [] j zero = refl
nth-append [] j (suc k) = ground arith
nth-append (x ∷ db) j zero = ground arith
nth-append (x ∷ db) j (suc k) = ground (arith, nth-append db j k)

nth-length : (db : List Job) → nth db (length db) ≡ none
nth-length [] = refl
nth-length (x ∷ db) = nth-length db

nth-put :
    (db : List Job) (k : ℕ) (x : Job) (i : ℕ) {j : Job}
    → nth db k ≡ some j
    → nth (put db k x) i ≡ (if k == i then some x else nth db i)
nth-put [] k x i e = cc
nth-put (y ∷ db) zero x zero e = refl
nth-put (y ∷ db) zero x (suc i) e = ground arith
nth-put (y ∷ db) (suc k) x zero e = ground arith
nth-put (y ∷ db) (suc k) x (suc i) e = ground (arith, nth-put db k x i e)

IsTail-all : (db : List Job) → IsTail db 0 db
IsTail-all db i = ap (nth db) (omega arith)

find_id : (db : List Job) (k : ℕ) (j : Job) → find db k ≡ some j → j.id ≡ k
find_id db k j h = elim (Option-cases (nth db k)) [
  | inl absent ↦ cc (ap (Option.map (label k)) absent)
  | inr (x, there) ↦
      let same : some (label k x) ≡ some j = sym (ap (Option.map (label k)) there) ∙ h in
      let one : label k x ≡ j = cc same in ap (λ (y : Job). y.id) (sym one)
]

find-first-some :
    (db : List Job) (q : Job → Bool) (j : Job)
    → first (select q 0 db) ≡ some j
    → (q j ≡ true) × (find db j.id ≡ some j)
find-first-some db q j e =
    let (found, passed) =
      first-some (Passes db q) _ j (select-Passes db q 0 db (IsTail-all db)) e in
    (passed, found)

find-first-none :
    (db : List Job) (q : Job → Bool) (k : ℕ) (j : Job)
    → first (select q 0 db) ≡ none
    → find db k ≡ some j
    → q j ≡ false
find-first-none db q k j e h = elim (Option-cases (nth db k)) [
  | inl absent ↦ cc (ap (Option.map (label k)) absent)
  | inr (x, there) ↦
      let same : some (label k x) ≡ some j = sym (ap (Option.map (label k)) there) ∙ h in
      subst (λ y. q y ≡ false) (cc same) (first-none q 0 db k k x e there (omega arith))
]

find_many_rows :
    (db : List Job) (q : Job → Bool) (n : Option ℕ) → All (Passes db q) (limited n (select q 0 db))
find_many_rows db q n = limited-All _ n _ (select-Passes db q 0 db (IsTail-all db))

label_same : (k : ℕ) (j : Job) → j.id ≡ k → label k j ≡ j
label_same k j e = λ i. record j { id = sym e i }

find-append :
    (db : List Job) (d : JobCreateInput) (k : ℕ)
    → let new = append_row db d in find new.1 k ≡ (if new.0.id == k then some new.0 else find db k)
find-append db d k =
    let j = new_job (length db) 7 d in
    ap (Option.map (label k)) (nth-append db j k) ∙ labelled (length db == k) refl
  where
    labelled :
        (b : Bool)
        → (length db == k) ≡ b
        → Option.map (label k) (if b then some (new_job (length db) 7 d) else nth db k)
          ≡ (if b then some (new_job (length db) 7 d) else find db k)
    labelled true e = ap some (label_same k (new_job (length db) 7 d) ((==_iff (length db) k).0 e))
    labelled false e = refl

update_reply :
    (db : List Job) (k : ℕ) (f : Job → Job)
    → (write_row db k f (find db k)).0 ≡ Option.map f (find db k)
update_reply db k f = reply (find db k)
  where
    reply : (o : Option Job) → (write_row db k f o).0 ≡ Option.map f o
    reply none = refl
    reply (some j) = refl

-- An update reaches the row at its place, or there is none.
find-write_self :
    (db : List Job) (k : ℕ) (f : Job → Job)
    → KeepsId f
    → (o : Option Job) → nth db k ≡ o
    → find (write_row db k f (Option.map (label k) o)).1 k ≡ Option.map f (Option.map (label k) o)
find-write_self db k f keeps none e = ap (Option.map (label k)) e
find-write_self db k f keeps (some x) e =
    let y = f (label k x) in
    ap (Option.map (label k)) (rw ((==_iff k k).1 refl) at (nth-put db k y k e))
    ∙ ap some (label_same k y (keeps (label k x)))

find-write_other :
    (db : List Job) (k : ℕ) (f : Job → Job) (i : ℕ)
    → (k == i) ≡ false
    → (o : Option Job) → nth db k ≡ o
    → find (write_row db k f (Option.map (label k) o)).1 i ≡ find db i
find-write_other db k f i differs none e = refl
find-write_other db k f i differs (some x) e =
    ap (Option.map (label i)) (rw differs at (nth-put db k (f (label k x)) i e))

find-update :
    (db : List Job) (k : ℕ) (f : Job → Job) (i : ℕ)
    → KeepsId f
    → find (write_row db k f (find db k)).1 i
      ≡ (if k == i then Option.map f (find db i) else find db i)
find-update db k f i keeps = elim (Bool-cases (k == i)) [
  | inl same ↦ rw same (
      subst (λ m. find (write_row db k f (find db k)).1 m ≡ Option.map f (find db m))
        ((==_iff k i).0 same) (find-write_self db k f keeps (nth db k) refl))
  | inr differs ↦ rw differs (find-write_other db k f i differs (nth db k) refl)
]

-- The platform in memory has the documented behaviour, whatever its queue answers.
pub memory-IsPlatform :
    (answer : List QueueMessage → QueueMessage → SendReply) → IsPlatform (memory answer)
memory-IsPlatform answer = record {
  row_id = find_id;
  find_first_some = λ db q _ j e. find-first-some db q j e;
  find_first_none = λ db q _ k j e h. find-first-none db q k j e h;
  find_many_rows = λ db q _ n. find_many_rows db q n;
  find_many_distinct = λ db q _ n. limited-HasDistinctIds n _ (select-HasDistinctIds q 0 db);
  find_many_take = λ db q _ n. length-take n _;
  create_row = λ db d. (7, refl);
  create_new = λ db d. ap (Option.map (label (length db))) (nth-length db);
  find-create = find-append;
  update_reply = λ db k f _. update_reply db k f;
  find-update = find-update;
  find-create_metric = λ db m k. refl;
  find-rollback = λ before after k. refl;
}
