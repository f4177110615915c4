-- ===== src/Workspace/Policy.antt =====
-- coreSingleOwnerWorkspaceAuthorization.policy.ts: only its owner may act in a workspace, and a
-- personal workspace is never deleted.
use silo_core.Base.{
  ℕ, Bool, true, false, not, ◌&&◌, ◌≡◌, refl, ◌↔◌, ◌⊎◌, ◌≢◌, Option, none, some, ◌==◌,
  if◌then◌else◌, arith,
}
use silo_core.Workspace.{
  Workspace, WorkspaceType, standard, WorkspaceAction, delete_workspace, WorkspaceActor,
  WorkspaceAuthorizationDecision, AuthenticatedActorSource, missing_actor, not_workspace_owner,
  personal_workspace_delete_forbidden, is_standard, is_delete_workspace,
}

abbrev allow : WorkspaceAuthorizationDecision
allow = record { allowed = true; reason = none }

unfoldable pub resolve_actor : Option AuthenticatedActorSource → Option WorkspaceActor
resolve_actor none = none
resolve_actor (some u) = some (record { user_id = u.id; role = u.role })

unfoldable pub check_workspace_access :
    Option WorkspaceActor → Workspace → WorkspaceAuthorizationDecision
check_workspace_access none workspace = record { allowed = false; reason = some missing_actor }
check_workspace_access (some actor) workspace =
    if not (actor.user_id == workspace.owner_user_id)
    then record { allowed = false; reason = some not_workspace_owner }
    else allow

-- `DELETABLE_WORKSPACE_TYPES.has(type)`
abbrev is_deletable : WorkspaceType → Bool
is_deletable = is_standard

unfoldable pub check_workspace_action :
    Option WorkspaceActor → Workspace → WorkspaceAction → WorkspaceAuthorizationDecision
unfolding check_workspace_access
check_workspace_action actor workspace action =
    let access = check_workspace_access actor workspace in
    if not access.allowed
    then access
    else if is_delete_workspace action && not (is_deletable workspace.workspace_type)
    then record { allowed = false; reason = some personal_workspace_delete_forbidden }
    else allow

unfoldable pub is_personal_workspace : Workspace → Bool
is_personal_workspace workspace = not (is_standard workspace.workspace_type)

abbrev pub IsOwner : Option ℕ → Workspace → Type 0
IsOwner none w = ⊥
IsOwner (some u) w = u ≡ w.owner_user_id

abbrev user_of : Option AuthenticatedActorSource → Option ℕ
user_of none = none
user_of (some u) = some u.id

pub action_allowed :
    (u : ℕ) (w : Workspace) (a : WorkspaceAction) (actor : WorkspaceActor)
    → actor.user_id ≡ u
    → ((check_workspace_action (some actor) w a).allowed ≡ true)
      ↔ ((u ≡ w.owner_user_id) × ((a ≢ delete_workspace) ⊎ (w.workspace_type ≡ standard)))
unfolding check_workspace_action check_workspace_access
action_allowed u w a actor e = ground arith

-- A request may act in a workspace exactly if its user is authenticated and owns the workspace, and
-- if the action is no deletion or the workspace is a standard one.
pub check_workspace_action_iff :
    (source : Option AuthenticatedActorSource) (w : Workspace) (a : WorkspaceAction)
    → ((check_workspace_action (resolve_actor source) w a).allowed ≡ true)
      ↔ (IsOwner (user_of source) w × ((a ≢ delete_workspace) ⊎ (w.workspace_type ≡ standard)))
unfolding resolve_actor check_workspace_action check_workspace_access
check_workspace_action_iff none w a = (λ h. cc, λ h. absurd h.0)
check_workspace_action_iff (some u) w a =
    action_allowed u.id w a (record { user_id = u.id; role = u.role }) refl
