-- ===== src/Workspace/Tests.antt =====
-- Workspaces on a table that has room for one row: tests, and the theorems at concrete inputs.
use mathlib.Core.Option
use silo_core.Base.{
  ℕ, ◌≡◌, refl, ◌↔◌, ◌⊎◌, ◌≢◌, Bool, true, false, Option, none, some, List, [], ◌∷◌, ◌==◌,
  if◌then◌else◌, Bool-cases, inl, inr, ==_iff, sym, ap, ◌∙◌,
}
use silo_core.Workspace.{
  Workspace, standard, active, WorkspaceAction, AuthenticatedActorSource, user,
}
use silo_core.Workspace.Policy.{
  check_workspace_action, resolve_actor, check_workspace_action_iff, IsOwner,
}
use silo_core.Workspace.Repository.{Platform, IsPlatform, WorkspaceData, KeepsId}
use silo_core.Workspace.Service.{update_workspace, delete_workspace}
use silo_core.Workspace.Service.Laws.{
  RenameOutcome, DeleteOutcome, update_workspace-Outcome, delete_workspace-Outcome,
}

abbrev matching : (Workspace → Bool) → Option Workspace → Option Workspace
matching q none = none
matching q (some w) = if q w then some w else none

abbrev with_id : ℕ → Workspace → Bool
with_id k w = w.id == k

abbrev change : ℕ → (Workspace → Workspace) → Option Workspace → Option Workspace × Option Workspace
change k f none = (none, none)
change k f (some w) = if w.id == k then (some (f w), some (f w)) else (none, some w)

abbrev listed : Option Workspace → List Workspace
listed none = []
listed (some w) = w ∷ []

abbrev made : WorkspaceData → Workspace
made d = record {
  id = 7;
  name = d.name;
  workspace_type = d.workspace_type;
  status = d.status;
  owner_user_id = d.owner_user_id;
}

abbrev small : Platform
small = record {
  Db = Option Workspace;
  find_unique = λ db k. matching (with_id k) db;
  find_first = λ db q. matching q db;
  find_many = λ db q _. listed (matching q db);
  create = λ db d. (made d, some (made d));
  create_membership = λ db _. (true, db);
  update = λ db k f. change k f db;
  rollback = λ before _. before;
  trim = λ s. s;
}

matching-some :
    (db : Option Workspace) (q : Workspace → Bool) (w : Workspace)
    → matching q db ≡ some w
    → (q w ≡ true) × (db ≡ some w)
matching-some none q w e = cc
matching-some (some v) q w e = elim (Bool-cases (q v)) [
  | inl holds ↦ let same : v ≡ w = cc in (rw (← same) holds, ap (λ x. some x) same)
  | inr fails ↦ cc
]

matching-found : (k : ℕ) (w : Workspace) → w.id ≡ k → matching (with_id k) (some w) ≡ some w
matching-found k w e = rw ((==_iff w.id k).1 e) refl

matching-none :
    (db : Option Workspace) (q : Workspace → Bool) (w : Workspace)
    → matching q db ≡ none
    → db ≡ some w
    → q w ≡ false
matching-none db q w e found = elim (Bool-cases (q w)) [ inl holds ↦ cc | inr fails ↦ fails ]

small_row_id :
    (db : Option Workspace) (k : ℕ) (w : Workspace) → matching (with_id k) db ≡ some w → w.id ≡ k
small_row_id db k w e = (==_iff w.id k).0 (matching-some db (with_id k) w e).0

change-reply :
    (db : Option Workspace) (k : ℕ) (f : Workspace → Workspace)
    → (change k f db).0 ≡ Option.map f (matching (with_id k) db)
change-reply none k f = refl
change-reply (some w) k f = elim (Bool-cases (w.id == k)) [
  | inl same ↦ rw same refl
  | inr differs ↦ rw differs refl
]

find-change :
    (db : Option Workspace) (k i : ℕ) (f : Workspace → Workspace)
    → KeepsId f
    → matching (with_id i) (change k f db).1
      ≡ (if k == i then Option.map f (matching (with_id i) db) else matching (with_id i) db)
find-change none k i f keeps = elim (Bool-cases (k == i)) [
  | inl same ↦ rw same refl
  | inr differs ↦ rw differs refl
]
find-change (some w) k i f keeps = elim (Bool-cases (w.id == k)) [
  | inl a ↦
      let wk : w.id ≡ k = (==_iff w.id k).0 a in
      let c : (w.id == i) ≡ (k == i) = ap (λ n. n == i) wk in
      elim (Bool-cases (k == i)) [
        | inl b ↦
            let d : (w.id == i) ≡ true = c ∙ b in
            let e : ((f w).id == i) ≡ true = ap (λ n. n == i) (keeps w) ∙ d in rw (a, b, d, e) refl
        | inr b ↦
            let d : (w.id == i) ≡ false = c ∙ b in
            let e : ((f w).id == i) ≡ false = ap (λ n. n == i) (keeps w) ∙ d in rw (a, b, d, e) refl
      ]
  | inr a ↦ elim (Bool-cases (k == i)) [
    | inl b ↦
        let d : (w.id == i) ≡ false = ap (λ n. w.id == n) (sym ((==_iff k i).0 b)) ∙ a in
        rw (a, b, d) refl
    | inr b ↦ rw (a, b) refl
  ]
]

small-IsPlatform : IsPlatform small
small-IsPlatform = record {
  row_id = small_row_id;
  find_first_some = λ db q w e.
      let (holds, found) = matching-some db q w e in (holds, rw found (matching-found w.id w refl));
  find_first_none = λ db q k w e h. matching-none db q w e (matching-some db (with_id k) w h).1;
  update_reply = λ db k f _. change-reply db k f;
  find-update = λ db k f i keeps. find-change db k i f keeps;
}

abbrev team : Workspace
team = record {
  id = 7;
  name = "Team";
  workspace_type = standard;
  status = active;
  owner_user_id = 4;
}

abbrev caller : AuthenticatedActorSource
caller = record { id = 4; role = some user }

check_workspace_action_iff_example :
    ((check_workspace_action
        (resolve_actor (some caller))
        team
        WorkspaceAction.delete_workspace).allowed
      ≡ true)
    ↔ (IsOwner (some 4) team
        × ((WorkspaceAction.delete_workspace ≢ WorkspaceAction.delete_workspace)
            ⊎ (team.workspace_type ≡ standard)))
check_workspace_action_iff_example =
    check_workspace_action_iff (some caller) team WorkspaceAction.delete_workspace

update_workspace-Outcome_example :
    RenameOutcome small (some team) 7 4 "Crew" (update_workspace small 7 4 "Crew" none (some team))
update_workspace-Outcome_example =
    update_workspace-Outcome small small-IsPlatform (some team) 7 4 "Crew" none

delete_workspace-Outcome_example :
    DeleteOutcome small (some team) 7 4 (delete_workspace small 7 4 none (some team))
delete_workspace-Outcome_example =
    delete_workspace-Outcome small small-IsPlatform (some team) 7 4 none
