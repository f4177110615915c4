-- ===== src/Workspace/Repository.antt =====
-- workspace.repository.ts: the queries on the tables `workspaces` and `workspace_memberships`. The
-- Prisma client over them is a parameter, with the laws that it documents.
use mathlib.Core.Option
use silo_core.Base.{
  ℕ, String, Bool, true, false, ◌≡◌, ◌&&◌, Option, none, some, List, [], ◌∷◌, ◌==◌, if◌then◌else◌,
}
use silo_core.Errors.{Result, ok, err, external}
use silo_core.Exec.{Exec}
use silo_core.Workspace.{
  Workspace, WorkspaceType, personal, standard, WorkspaceStatus, active, deleted,
  WorkspaceMembershipRole, owner, WorkspaceMembershipStatus, membership_active, is_active,
}

-- The data of `workspace.create` and of `workspaceMembership.create`.
pub record WorkspaceData : Type 0 where
  pub name : String
  pub workspace_type : WorkspaceType
  pub status : WorkspaceStatus
  pub owner_user_id : ℕ

pub record MembershipData : Type 0 where
  pub workspace_id : ℕ
  pub user_id : ℕ
  pub role : WorkspaceMembershipRole
  pub status : WorkspaceMembershipStatus

pub data WorkspaceOrder : Type 0 where
  by_type by_created_at by_id : WorkspaceOrder

-- An update stands for the change that it makes to a row. `trim` is that of JavaScript's strings.
pub record Platform : Type 1 where
  pub Db : Type 0
  pub find_unique : Db → ℕ → Option Workspace
  pub find_first : Db → (Workspace → Bool) → Option Workspace
  pub find_many : Db → (Workspace → Bool) → List WorkspaceOrder → List Workspace
  pub create : Db → WorkspaceData → Workspace × Db
  -- whether the membership was stored; if not, the call throws
  pub create_membership : Db → MembershipData → Bool × Db
  pub update : Db → ℕ → (Workspace → Workspace) → Option Workspace × Db
  -- the database once a transaction that began at the first and reached the second has thrown
  pub rollback : Db → Db → Db
  pub trim : String → String

abbrev pub KeepsId : (Workspace → Workspace) → Type 0
KeepsId f = (w : Workspace) → (f w).id ≡ w.id

-- A row that is there can be updated; failing connections are left out.
pub record IsPlatform (p : Platform) : Type 0 where
  pub row_id : (db : p.Db) (k : ℕ) (w : Workspace) → p.find_unique db k ≡ some w → w.id ≡ k
  pub find_first_some :
      (db : p.Db) (q : Workspace → Bool) (w : Workspace)
      → p.find_first db q ≡ some w
      → (q w ≡ true) × (p.find_unique db w.id ≡ some w)
  pub find_first_none :
      (db : p.Db) (q : Workspace → Bool) (k : ℕ) (w : Workspace)
      → p.find_first db q ≡ none
      → p.find_unique db k ≡ some w
      → q w ≡ false
  pub update_reply :
      (db : p.Db) (k : ℕ) (f : Workspace → Workspace)
      → KeepsId f
      → (p.update db k f).0 ≡ Option.map f (p.find_unique db k)
  pub find-update :
      (db : p.Db) (k : ℕ) (f : Workspace → Workspace) (i : ℕ)
      → KeepsId f
      → p.find_unique (p.update db k f).1 i
        ≡ (if k == i then Option.map f (p.find_unique db i) else p.find_unique db i)

abbrev pub rename : String → Workspace → Workspace
rename name w = record w { name = name }

abbrev pub mark_deleted : Workspace → Workspace
mark_deleted w = record w { status = deleted }

-- `type: { in: [PERSONAL, STANDARD] }`
abbrev is_listed_type : WorkspaceType → Bool
is_listed_type personal = true
is_listed_type standard = true

abbrev pub is_active_owned : ℕ → ℕ → Workspace → Bool
is_active_owned id owner_user_id w =
    w.id == id && (w.owner_user_id == owner_user_id && is_active w.status)

module _ (p : Platform) where
  open p use {Db, find_first, find_many, create, create_membership, update, rollback}

  unfoldable pub list_active_owned_workspaces : ℕ → Exec Db (List Workspace)
  list_active_owned_workspaces owner_user_id db = (
    ok (
        find_many db
          (λ w.
            w.owner_user_id == owner_user_id
            && (is_active w.status && is_listed_type w.workspace_type))
          (by_type ∷ by_created_at ∷ by_id ∷ [])),
    db,
  )

  unfoldable pub find_active_owned_workspace_by_id : ℕ → ℕ → Exec Db (Option Workspace)
  find_active_owned_workspace_by_id id owner_user_id db =
      (ok (find_first db (is_active_owned id owner_user_id)), db)

  -- The transaction returns the workspace, or throws and is rolled back, by the second call's reply.
  abbrev pub with_membership : Db → Workspace → Bool × Db → Result Workspace × Db
  with_membership before workspace (true, db) = (ok workspace, db)
  with_membership before workspace (false, db) =
      (err (external "workspaceMembership.create"), rollback before db)

  unfoldable pub create_standard_workspace_with_owner_membership : ℕ → String → Exec Db Workspace
  create_standard_workspace_with_owner_membership owner_user_id name db =
      let (workspace, created) = create db (record {
        name = name;
        workspace_type = standard;
        status = active;
        owner_user_id = owner_user_id;
      }) in
      with_membership db workspace (
        create_membership created (record {
          workspace_id = workspace.id;
          user_id = owner_user_id;
          role = owner;
          status = membership_active;
        }))

  abbrev pub updated : Option Workspace × Db → Result Workspace × Db
  updated (none, db) = (err (external "P2025"), db)
  updated (some w, db) = (ok w, db)

  unfoldable pub update_workspace_name : ℕ → String → Exec Db Workspace
  update_workspace_name id name db = updated (update db id (rename name))

  unfoldable pub soft_delete_workspace : ℕ → Exec Db Workspace
  soft_delete_workspace id db = updated (update db id mark_deleted)
