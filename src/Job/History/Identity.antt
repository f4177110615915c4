-- ===== src/Job/History/Identity.antt =====
-- What a row keeps for all its life.
use silo_core.Base.{◌≡◌, refl, Option, none, some, arith, ◌≤◌, ◌∙◌, subst}
use silo_core.Job.{Job}
use silo_core.Job.History.{
  Change, attempted, progressed, progressed_to, put_back, beaten, asked_to_cancel, stopped,
  completed, broken, not_sent, sent, sent_again, Evolves, unchanged, created, changed,
}

-- The later state of a row belongs to the same job, and no attempt is taken back.
pub record IsSameJob (j j' : Job) : Type 0 where
  pub same_id : j'.id ≡ j.id
  pub same_workspace : j'.workspace_id ≡ j.workspace_id
  pub same_type : j'.job_type ≡ j.job_type
  pub same_payload : j'.payload ≡ j.payload
  pub same_limit : j'.max_attempts ≡ j.max_attempts
  pub same_creator : j'.created_by_user_id ≡ j.created_by_user_id
  pub same_creation : j'.created_at ≡ j.created_at
  pub attempts_kept : j.attempts ≤ j'.attempts

IsSameJob-refl : (j : Job) → IsSameJob j j
IsSameJob-refl j = ground arith

IsSameJob-trans : {a b c : Job} → IsSameJob a b → IsSameJob b c → IsSameJob a c
IsSameJob-trans h g = record {
  same_id = g.same_id ∙ h.same_id;
  same_workspace = g.same_workspace ∙ h.same_workspace;
  same_type = g.same_type ∙ h.same_type;
  same_payload = g.same_payload ∙ h.same_payload;
  same_limit = g.same_limit ∙ h.same_limit;
  same_creator = g.same_creator ∙ h.same_creator;
  same_creation = g.same_creation ∙ h.same_creation;
  attempts_kept = omega (arith, h.attempts_kept, g.attempts_kept);
}

Change-IsSameJob : {j j' : Job} → Change j j' → IsSameJob j j'
Change-IsSameJob (attempted t h g e) = rw e (ground arith)
Change-IsSameJob (progressed n g v e) = rw e (ground arith)
Change-IsSameJob (progressed_to n s g v f e) = rw e (ground arith)
Change-IsSameJob (put_back g e) = rw e (ground arith)
Change-IsSameJob (beaten h g e) = rw e (ground arith)
Change-IsSameJob (asked_to_cancel t g e) = rw e (ground arith)
Change-IsSameJob (stopped t g e) = rw e (ground arith)
Change-IsSameJob (completed none s t g v e) = rw e (ground arith)
Change-IsSameJob (completed (some r) s t g v e) = rw e (ground arith)
Change-IsSameJob (broken c m t g e) = rw e (ground arith)
Change-IsSameJob (not_sent t g e) = rw e (ground arith)
Change-IsSameJob (sent i g e) = rw e (ground arith)
Change-IsSameJob (sent_again i g e) = rw e (ground arith)

-- What has become of a row that was there.
pub data IsSuccessor (j : Job) : Option Job → Type 0 where
  successor : {o : Option Job} (j' : Job) → o ≡ some j' → IsSameJob j j' → IsSuccessor j o

pub Evolves-IsSuccessor : {j : Job} {o : Option Job} → Evolves (some j) o → IsSuccessor j o
Evolves-IsSuccessor {j} unchanged = successor j refl (IsSameJob-refl j)
Evolves-IsSuccessor (created r n) = elim (Evolves-IsSuccessor r) [ successor j' e h ↦ absurd cc ]
Evolves-IsSuccessor {j} (changed {j = k} {j' = k'} r c) = elim (Evolves-IsSuccessor r) [
  | successor i e h ↦
      let same : i ≡ k = cc in
      successor k' refl (IsSameJob-trans (subst (IsSameJob j) same h) (Change-IsSameJob c))
]
