-- ===== src/Job/Platform.antt =====
-- What the job module takes from outside the repository: the Prisma client over the tables `jobs`
-- and `job_metrics`, the clock behind `new Date()`, and the queue of pg-boss. They are a parameter
-- of everything below; the laws state the documented behaviour that the module relies on.
pub mod Memory
use Prim.Native.Nat.{ℕ}
use silo_core.Base.{
  String, Bool, true, false, ◌≡◌, ◌≢◌, ◌≤◌, Option, none, some, List, ◌==◌, All, length, [], ◌∷◌,
  if◌then◌else◌,
}
use mathlib.Core.Option
use silo_core.Base.Int.{int, pos}
use silo_core.Json.{Json}
use silo_core.Job.{Job, JobStatus, JobNotificationHint}

-- Columns of `orderBy`.
pub data Column : Type 0 where
  by_id by_created_at by_started_at by_completed_at : Column

pub data OrderTerm : Type 0 where
  asc desc : Column → OrderTerm

-- `CreateQueuedJobData` with the status that `createQueuedJob` adds (job.repository.ts).
pub record JobCreateInput : Type 0 where
  pub workspace_id : ℕ
  pub created_by_user_id : ℕ
  pub job_type : String
  pub status : JobStatus
  pub payload : Json
  pub max_attempts : ℕ
  pub stage : String

pub data JobMetricOutcome : Type 0 where
  succeeded failed cancelled : JobMetricOutcome

-- A row of `job_metrics`, as JobMetricRepository.create writes it.
pub record JobMetric : Type 0 where
  pub job_id : ℕ
  pub workspace_id : ℕ
  pub job_type : String
  pub outcome : JobMetricOutcome
  pub attempts : ℕ
  pub queue_wait_ms : Option ℕ
  pub execution_duration_ms : Option ℕ
  pub error_code : Option String

-- `create` on `job_metrics`: it stores, breaks the unique key on the job (P2002), or throws.
pub data MetricReply : Type 0 where
  stored : MetricReply
  unique_violation : MetricReply
  refused : String → MetricReply

-- The call `queueTransport.send(queueName, { jobId }, { retryLimit })`.
pub record QueueMessage : Type 0 where
  pub queue_name : String
  pub job_id : ℕ
  pub retry_limit : ℕ

-- `send` throws, or resolves to an id or null.
pub data SendReply : Type 0 where
  threw : SendReply
  resolved : Option String → SendReply

-- An update input stands for the change that it makes to a row.
pub record Platform : Type 1 where
  pub Db : Type 0
  pub find_unique : Db → ℕ → Option Job
  pub find_first : Db → (Job → Bool) → List OrderTerm → Option Job
  pub find_many : Db → (Job → Bool) → List OrderTerm → Option ℕ → List Job
  pub create : Db → JobCreateInput → Job × Db
  pub update : Db → ℕ → (Job → Job) → Option Job × Db
  pub create_metric : Db → JobMetric → MetricReply × Db
  -- `pg_try_advisory_xact_lock` on a name
  pub try_lock : Db → String → Bool
  -- the database once a transaction that began at the first and reached the second has thrown
  pub rollback : Db → Db → Db
  -- the time that the n-th `new Date()` reads
  pub time : ℕ → ℕ
  -- the queue's answer, after the messages that it was sent before
  pub send : List QueueMessage → QueueMessage → SendReply

-- A new row: what the input leaves out has the default of the schema (prisma/schema.prisma).
abbrev pub new_job : ℕ → ℕ → JobCreateInput → Job
new_job id created_at d = record {
  id = id;
  workspace_id = d.workspace_id;
  job_type = d.job_type;
  status = d.status;
  progress = int (pos 0);
  stage = d.stage;
  payload = d.payload;
  result = none;
  error_code = none;
  sanitized_error = none;
  attempts = 0;
  max_attempts = d.max_attempts;
  queue_message_id = none;
  created_by_user_id = d.created_by_user_id;
  created_at = created_at;
  started_at = none;
  completed_at = none;
  heartbeat_at = none;
  cancel_requested_at = none;
}

abbrev pub KeepsId : (Job → Job) → Type 0
KeepsId f = (j : Job) → (f j).id ≡ j.id

-- No two rows of a list have one id.
abbrev pub HasDistinctIds : List Job → Type 0
HasDistinctIds [] = Unit
HasDistinctIds (j ∷ js) = All (λ k. j.id ≢ k.id) js × HasDistinctIds js

-- The documented behaviour of the client. An update of a row that is there succeeds; a failing
-- connection and a queue that hands out one id twice are left out.
pub record IsPlatform (p : Platform) : Type 0 where
  pub row_id : (db : p.Db) (k : ℕ) (j : Job) → p.find_unique db k ≡ some j → j.id ≡ k
  pub find_first_some :
      (db : p.Db) (q : Job → Bool) (o : List OrderTerm) (j : Job)
      → p.find_first db q o ≡ some j
      → (q j ≡ true) × (p.find_unique db j.id ≡ some j)
  pub find_first_none :
      (db : p.Db) (q : Job → Bool) (o : List OrderTerm) (k : ℕ) (j : Job)
      → p.find_first db q o ≡ none
      → p.find_unique db k ≡ some j
      → q j ≡ false
  pub find_many_rows :
      (db : p.Db) (q : Job → Bool) (o : List OrderTerm) (n : Option ℕ)
      → All (λ j. (p.find_unique db j.id ≡ some j) × (q j ≡ true)) (p.find_many db q o n)
  pub find_many_distinct :
      (db : p.Db) (q : Job → Bool) (o : List OrderTerm) (n : Option ℕ)
      → HasDistinctIds (p.find_many db q o n)
  pub find_many_take :
      (db : p.Db) (q : Job → Bool) (o : List OrderTerm) (n : ℕ)
      → length (p.find_many db q o (some n)) ≤ n
  pub create_row :
      (db : p.Db) (d : JobCreateInput)
      → (t : ℕ) × ((p.create db d).0 ≡ new_job (p.create db d).0.id t d)
  pub create_new : (db : p.Db) (d : JobCreateInput) → p.find_unique db (p.create db d).0.id ≡ none
  pub find-create :
      (db : p.Db) (d : JobCreateInput) (k : ℕ)
      → p.find_unique (p.create db d).1 k
        ≡ (if (p.create db d).0.id == k then some (p.create db d).0 else p.find_unique db k)
  pub update_reply :
      (db : p.Db) (k : ℕ) (f : Job → Job)
      → KeepsId f
      → (p.update db k f).0 ≡ Option.map f (p.find_unique db k)
  pub find-update :
      (db : p.Db) (k : ℕ) (f : Job → Job) (i : ℕ)
      → KeepsId f
      → p.find_unique (p.update db k f).1 i
        ≡ (if k == i then Option.map f (p.find_unique db i) else p.find_unique db i)
  pub find-create_metric :
      (db : p.Db) (m : JobMetric) (k : ℕ)
      → p.find_unique (p.create_metric db m).1 k ≡ p.find_unique db k
  pub find-rollback :
      (before after : p.Db) (k : ℕ)
      → p.find_unique (p.rollback before after) k ≡ p.find_unique before k

-- What the module keeps: the database, how often the clock was read, the notifications that were
-- sent (`pg_notify`) and the messages handed to the queue, in order.
pub record World (Db : Type 0) : Type 0 where
  pub db : Db
  pub ticks : ℕ
  pub notices : List (ℕ × JobNotificationHint)
  pub sent : List QueueMessage
