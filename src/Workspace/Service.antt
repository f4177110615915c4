-- ===== src/Workspace/Service.antt =====
-- workspace.service.ts, with the policy of Workspace/Policy.antt, its default. An InvalidInputError
-- here has no code, so its message stands for it.
pub mod Laws
use silo_core.Base.{
  ℕ, String, Bool, true, false, not, ◌||◌, Option, none, some, List, str_eq, if◌then◌else◌,
}
use silo_core.Errors.{Result, ok, err, invalid_input, not_found}
use silo_core.Exec.{Exec, pure, raise, check, ◌>>=◌, ◌>>◌}
use silo_core.Workspace.{
  Workspace, UserRole, WorkspaceAction, WorkspaceActor, WorkspaceAuthorizationDenialReason,
  WorkspaceAuthorizationDecision, is_standard, is_delete_workspace, is_personal_delete_forbidden,
}
use silo_core.Workspace.Policy.{check_workspace_action}
use silo_core.Workspace.Repository.{
  Platform, list_active_owned_workspaces, find_active_owned_workspace_by_id,
  create_standard_workspace_with_owner_membership, update_workspace_name, soft_delete_workspace,
}

abbrev workspace_not_found_message : String
workspace_not_found_message = "Workspace not found"

abbrev personal_workspace_update_message : String
personal_workspace_update_message = "Personal workspace cannot be renamed."

abbrev personal_workspace_delete_message : String
personal_workspace_delete_message = "Personal workspace cannot be deleted."

abbrev pub ensure_workspace_actor : ℕ → Option UserRole → WorkspaceActor
ensure_workspace_actor user_id role = record { user_id = user_id; role = role }

unfoldable pub ensure_standard_workspace : Workspace → WorkspaceAction → Result (Unit {0})
ensure_standard_workspace workspace action =
    if is_standard workspace.workspace_type
    then ok tt
    else if is_delete_workspace action
    then err (invalid_input personal_workspace_delete_message)
    else err (invalid_input personal_workspace_update_message)

abbrev is_delete_refusal : Option WorkspaceAuthorizationDenialReason → Bool
is_delete_refusal none = false
is_delete_refusal (some reason) = is_personal_delete_forbidden reason

module _ (p : Platform) where
  open p use {Db, trim}

  unfoldable pub normalize_workspace_name : String → Exec Db String
  normalize_workspace_name name =
      let normalized_name = trim name in
      if str_eq normalized_name ""
      then raise (invalid_input "Workspace name is required.")
      else pure normalized_name

  or_not_found : Option Workspace → Exec Db Workspace
  or_not_found none = raise (not_found workspace_not_found_message)
  or_not_found (some workspace) = pure workspace

  unfoldable pub list_owned_workspaces : ℕ → Exec Db (List Workspace)
  list_owned_workspaces user_id = list_active_owned_workspaces p user_id

  unfoldable pub create_standard_workspace : ℕ → String → Exec Db Workspace
  create_standard_workspace owner_user_id name = do
    normalized_name ← normalize_workspace_name name
    create_standard_workspace_with_owner_membership p owner_user_id normalized_name

  unfoldable pub get_current_workspace : ℕ → ℕ → Exec Db Workspace
  unfolding or_not_found
  get_current_workspace id owner_user_id = do
    found ← find_active_owned_workspace_by_id p id owner_user_id
    or_not_found found

  -- `updateWorkspace` and `deleteWorkspace` from the found row on.
  unfoldable pub rename_found : ℕ → ℕ → String → Option UserRole → Workspace → Exec Db Workspace
  rename_found id user_id name role workspace =
      let decision =
        check_workspace_action (some (ensure_workspace_actor user_id role)) workspace
          WorkspaceAction.update_workspace in
      if not decision.allowed then raise (not_found workspace_not_found_message) else do
        check (ensure_standard_workspace workspace WorkspaceAction.update_workspace)
        normalized_name ← normalize_workspace_name name
        update_workspace_name p id normalized_name

  unfoldable pub update_workspace : ℕ → ℕ → String → Option UserRole → Exec Db Workspace
  unfolding or_not_found
  update_workspace id user_id name role = do
    found ← find_active_owned_workspace_by_id p id user_id
    workspace ← or_not_found found
    rename_found id user_id name role workspace

  refuse_delete : WorkspaceAuthorizationDecision → Workspace → Exec Db Workspace
  refuse_delete decision workspace =
      if is_delete_refusal decision.reason || not (is_standard workspace.workspace_type)
      then raise (invalid_input personal_workspace_delete_message)
      else raise (not_found workspace_not_found_message)

  unfoldable pub delete_found : ℕ → ℕ → Option UserRole → Workspace → Exec Db Workspace
  unfolding refuse_delete
  delete_found id user_id role workspace =
      let decision =
        check_workspace_action (some (ensure_workspace_actor user_id role)) workspace
          WorkspaceAction.delete_workspace in
      if not decision.allowed then refuse_delete decision workspace else do
        check (ensure_standard_workspace workspace WorkspaceAction.delete_workspace)
        soft_delete_workspace p id

  unfoldable pub delete_workspace : ℕ → ℕ → Option UserRole → Exec Db Workspace
  unfolding or_not_found
  delete_workspace id user_id role = do
    found ← find_active_owned_workspace_by_id p id user_id
    workspace ← or_not_found found
    delete_found id user_id role workspace
