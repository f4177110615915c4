-- ===== src/Job/Platform/Memory.antt =====
-- A platform in memory, which shows that the laws can hold and runs the tests: a row stands in a
-- list at the place of its id, every metric is stored, every lock is free, the n-th reading of the
-- clock is `1000 + n`, and the queue answers as a given function says.
pub mod Laws
use mathlib.Core.Option
use silo_core.Base.{
  ℕ, zero, suc, ◌+◌, Bool, true, Option, none, some, List, [], ◌∷◌, ◌++◌, length, take,
  if◌then◌else◌,
}
use silo_core.Job.{Job}
use silo_core.Job.Platform.{
  Platform, JobCreateInput, OrderTerm, JobMetric, MetricReply, stored, QueueMessage, SendReply,
  new_job,
}

abbrev label : ℕ → Job → Job
label k j = record j { id = k }

abbrev nth : List Job → ℕ → Option Job
nth [] k = none
nth (j ∷ js) zero = some j
nth (j ∷ js) (suc k) = nth js k

abbrev put : List Job → ℕ → Job → List Job
put [] k x = []
put (j ∷ js) zero x = x ∷ js
put (j ∷ js) (suc k) x = j ∷ put js k x

abbrev find : List Job → ℕ → Option Job
find db k = Option.map (label k) (nth db k)

-- The rows from the place `n` on that pass a test.
abbrev select : (Job → Bool) → ℕ → List Job → List Job
select q n [] = []
select q n (j ∷ js) =
    let rest = select q (suc n) js in if q (label n j) then label n j ∷ rest else rest

abbrev first : List Job → Option Job
first [] = none
first (j ∷ js) = some j

abbrev limited : Option ℕ → List Job → List Job
limited none js = js
limited (some n) js = take n js

abbrev append_row : List Job → JobCreateInput → Job × List Job
append_row db d = let j = new_job (length db) 7 d in (j, db ++ j ∷ [])

abbrev write_row : List Job → ℕ → (Job → Job) → Option Job → Option Job × List Job
write_row db k f none = (none, db)
write_row db k f (some j) = (some (f j), put db k (f j))

abbrev pub memory : (List QueueMessage → QueueMessage → SendReply) → Platform
memory send = record {
  Db = List Job;
  find_unique = find;
  find_first = λ db q _. first (select q 0 db);
  find_many = λ db q _ n. limited n (select q 0 db);
  create = append_row;
  update = λ db k f. write_row db k f (find db k);
  create_metric = λ db _. (stored, db);
  try_lock = λ _ _. true;
  rollback = λ before _. before;
  time = λ n. 1000 + n;
  send = send;
}
