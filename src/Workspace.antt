-- ===== src/Workspace.antt =====
-- Workspaces (backend/src/modules/workspace): the row of the table `workspaces` that
-- `WorkspaceSelectFields` reads (workspace.model.ts), without its times, and what the policy and the
-- service say about it (workspaceAuthorization.types.ts).
pub mod Policy
pub mod Repository
pub mod Service
mod Tests
use silo_core.Base.{ℕ, String, Bool, true, false, Option}

pub data WorkspaceType : Type 0 where
  personal standard : WorkspaceType

pub data WorkspaceStatus : Type 0 where
  active deleted : WorkspaceStatus

pub data WorkspaceMembershipRole : Type 0 where
  owner editor viewer : WorkspaceMembershipRole

pub data WorkspaceMembershipStatus : Type 0 where
  membership_active membership_inactive : WorkspaceMembershipStatus

pub record Workspace : Type 0 where
  pub id : ℕ
  pub name : String
  pub workspace_type : WorkspaceType
  pub status : WorkspaceStatus
  pub owner_user_id : ℕ

pub data UserRole : Type 0 where
  user admin : UserRole

pub data WorkspaceAction : Type 0 where
  read_workspace create_resource update_resource delete_resource : WorkspaceAction
  update_workspace delete_workspace : WorkspaceAction

pub data WorkspaceAuthorizationDenialReason : Type 0 where
  missing_actor not_workspace_owner personal_workspace_delete_forbidden :
      WorkspaceAuthorizationDenialReason

pub record WorkspaceActor : Type 0 where
  pub user_id : ℕ
  pub role : Option UserRole

pub record WorkspaceAuthorizationDecision : Type 0 where
  pub allowed : Bool
  pub reason : Option WorkspaceAuthorizationDenialReason

pub record AuthenticatedActorSource : Type 0 where
  pub id : ℕ
  pub role : Option UserRole

-- `===` on the enums
abbrev pub is_standard : WorkspaceType → Bool
is_standard standard = true
is_standard personal = false

abbrev pub is_active : WorkspaceStatus → Bool
is_active active = true
is_active deleted = false

abbrev pub is_delete_workspace : WorkspaceAction → Bool
is_delete_workspace delete_workspace = true
is_delete_workspace _ = false

abbrev pub is_personal_delete_forbidden : WorkspaceAuthorizationDenialReason → Bool
is_personal_delete_forbidden personal_workspace_delete_forbidden = true
is_personal_delete_forbidden _ = false
