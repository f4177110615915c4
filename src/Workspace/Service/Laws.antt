-- ===== src/Workspace/Service/Laws.antt =====
-- Every way in which a call that renames or deletes a workspace ends.
use mathlib.Core.Option
use silo_core.Base.{
  ℕ, String, ◌≡◌, refl, ◌∙◌, ap, sym, ◌↔◌, ◌≢◌, ◌⊎◌, inl, inr, Bool, true, false, Option, none,
  some, arith, ◌==◌, if◌then◌else◌, Option-cases, Bool-cases, ==_iff, str_eq, ◌||◌,
}
use silo_core.Errors.{Result, ok, err, invalid_input, not_found}
use silo_core.Workspace.{
  Workspace, WorkspaceType, personal, standard, active, UserRole, WorkspaceAction,
}
use silo_core.Workspace.Policy.{check_workspace_action, check_workspace_access, action_allowed}
use silo_core.Workspace.Repository.{
  Platform, IsPlatform, rename, mark_deleted, is_active_owned, updated, KeepsId,
  find_active_owned_workspace_by_id, update_workspace_name, soft_delete_workspace,
}
use silo_core.Workspace.Service.{
  update_workspace, delete_workspace, rename_found, delete_found, or_not_found, refuse_delete,
  ensure_workspace_actor, ensure_standard_workspace, normalize_workspace_name,
}

-- The row with the id is the workspace, which is active and belongs to the user.
pub record Owns (p : Platform) (db : p.Db) (id user_id : ℕ) (w : Workspace) : Type 0 where
  pub found : p.find_unique db id ≡ some w
  pub owned : w.owner_user_id ≡ user_id
  pub is_active : w.status ≡ active

-- The call returned the changed workspace, and no other row is different.
pub record Changed (p : Platform) (db : p.Db) (id : ℕ) (w' : Workspace)
    (r : Result Workspace × p.Db) : Type 0 where
  pub returned : r.0 ≡ ok w'
  pub rows : (k : ℕ) → p.find_unique r.1 k ≡ (if id == k then some w' else p.find_unique db k)

-- The ends of a deletion.
pub data DeleteOutcome (p : Platform) (db : p.Db) (id user_id : ℕ) (r : Result Workspace × p.Db)
    : Type 0 where
  none_there :
      ((w : Workspace) → ¬ Owns p db id user_id w)
      → r ≡ (err (not_found "Workspace not found"), db)
      → DeleteOutcome p db id user_id r
  kept_personal :
      (w : Workspace)
      → Owns p db id user_id w
      → w.workspace_type ≡ personal
      → r ≡ (err (invalid_input "Personal workspace cannot be deleted."), db)
      → DeleteOutcome p db id user_id r
  deleted :
      (w : Workspace)
      → Owns p db id user_id w
      → w.workspace_type ≡ standard
      → Changed p db id (mark_deleted w) r
      → DeleteOutcome p db id user_id r

-- The ends of a renaming to `name`.
pub data RenameOutcome (p : Platform) (db : p.Db) (id user_id : ℕ) (name : String)
    (r : Result Workspace × p.Db) : Type 0 where
  none_there :
      ((w : Workspace) → ¬ Owns p db id user_id w)
      → r ≡ (err (not_found "Workspace not found"), db)
      → RenameOutcome p db id user_id name r
  kept_personal :
      (w : Workspace)
      → Owns p db id user_id w
      → w.workspace_type ≡ personal
      → r ≡ (err (invalid_input "Personal workspace cannot be renamed."), db)
      → RenameOutcome p db id user_id name r
  no_name :
      (w : Workspace)
      → Owns p db id user_id w
      → w.workspace_type ≡ standard
      → str_eq (p.trim name) "" ≡ true
      → r ≡ (err (invalid_input "Workspace name is required."), db)
      → RenameOutcome p db id user_id name r
  renamed :
      (w : Workspace)
      → Owns p db id user_id w
      → w.workspace_type ≡ standard
      → str_eq (p.trim name) "" ≡ false
      → Changed p db id (rename (p.trim name) w) r
      → RenameOutcome p db id user_id name r

test_iff :
    (id user_id : ℕ) (w : Workspace)
    → (is_active_owned id user_id w ≡ true)
      ↔ ((w.id ≡ id) × (w.owner_user_id ≡ user_id) × (w.status ≡ active))
test_iff id user_id w = ground arith

or_true : (b : Bool) → (b || true) ≡ true
or_true true = refl
or_true false = refl

module _ (p : Platform) (laws : IsPlatform p) where
  found-Owns :
      (db : p.Db) (id user_id : ℕ) (w : Workspace)
      → p.find_first db (is_active_owned id user_id) ≡ some w
      → Owns p db id user_id w
  found-Owns db id user_id w e =
      let (tested, there) = laws.find_first_some db _ w e in
      let (same, owned, is_active) = (test_iff id user_id w).0 tested in
      record {
        found = ap (p.find_unique db) (sym same) ∙ there;
        owned = owned;
        is_active = is_active;
      }

  missing-Owns :
      (db : p.Db) (id user_id : ℕ) (w : Workspace)
      → p.find_first db (is_active_owned id user_id) ≡ none
      → ¬ Owns p db id user_id w
  missing-Owns db id user_id w e o =
      let tested : is_active_owned id user_id w ≡ true =
        (test_iff id user_id w).1 (laws.row_id db id w o.found, o.owned, o.is_active) in
      let refused : is_active_owned id user_id w ≡ false =
        laws.find_first_none db _ id w e o.found in
      cc

  updated-world : (r : Option Workspace × p.Db) → (updated p r).1 ≡ r.1
  updated-world (none, db) = refl
  updated-world (some w, db) = refl

  updated-reply :
      (r : Option Workspace × p.Db) (w : Workspace) → r.0 ≡ some w → (updated p r).0 ≡ ok w
  updated-reply (none, db) w e = cc
  updated-reply (some v, db) w e = cc

  changed_row :
      (db : p.Db) (id k : ℕ) (f : Workspace → Workspace) (w : Workspace)
      → p.find_unique db id ≡ some w
      → (if id == k then Option.map f (p.find_unique db k) else p.find_unique db k)
        ≡ (if id == k then some (f w) else p.find_unique db k)
  changed_row db id k f w found = elim (Bool-cases (id == k)) [
    | inl same ↦
        rw same (ap (Option.map f) (ap (p.find_unique db) (sym ((==_iff id k).0 same)) ∙ found))
    | inr differs ↦ rw differs refl
  ]

  update-Changed :
      (db : p.Db) (id : ℕ) (f : Workspace → Workspace) (w : Workspace)
      → KeepsId f
      → p.find_unique db id ≡ some w
      → Changed p db id (f w) (updated p (p.update db id f))
  update-Changed db id f w keeps found = record {
    returned = updated-reply _ (f w) (laws.update_reply db id f keeps ∙ ap (Option.map f) found);
    rows = λ k.
        ap (λ (d : p.Db). p.find_unique d k) (updated-world (p.update db id f))
        ∙ laws.find-update db id f k keeps
        ∙ changed_row db id k f w found;
  }

  owner_allowed :
      (user_id : ℕ) (role : Option UserRole) (w : Workspace) (a : WorkspaceAction)
      → w.owner_user_id ≡ user_id
      → (a ≢ WorkspaceAction.delete_workspace) ⊎ (w.workspace_type ≡ standard)
      → (check_workspace_action (some (ensure_workspace_actor user_id role)) w a).allowed ≡ true
  owner_allowed user_id role w a owned h =
      (action_allowed user_id w a (ensure_workspace_actor user_id role) refl).1 (sym owned, h)

  deletion_refused :
      (user_id : ℕ) (role : Option UserRole) (w : Workspace)
      → w.owner_user_id ≡ user_id
      → w.workspace_type ≡ personal
      → (check_workspace_action
          (some (ensure_workspace_actor user_id role))
          w
          WorkspaceAction.delete_workspace).allowed
        ≡ false
  unfolding check_workspace_action check_workspace_access
  deletion_refused user_id role w owned type = ground arith

  delete_found-Outcome :
      (db : p.Db) (id user_id : ℕ) (role : Option UserRole) (w : Workspace)
      → Owns p db id user_id w
      → (t : WorkspaceType) → w.workspace_type ≡ t
      → DeleteOutcome p db id user_id (delete_found p id user_id role w db)
  unfolding delete_found refuse_delete ensure_standard_workspace soft_delete_workspace
  delete_found-Outcome db id user_id role w o personal e =
      rw (deletion_refused user_id role w o.owned e, e) (kept_personal w o e (rw (or_true _) refl))
  delete_found-Outcome db id user_id role w o standard e =
      rw (owner_allowed user_id role w WorkspaceAction.delete_workspace o.owned (inr e), e)
        (deleted w o e (update-Changed db id mark_deleted w (λ _. refl) o.found))

  -- A call that deletes a workspace ends in one of three ways. There is no active workspace of the
  -- user with the id, and nothing changes; it is the user's personal one, and nothing changes; or it
  -- is a standard workspace of the user, which is returned as deleted while all other rows stay.
  pub delete_workspace-Outcome :
      (db : p.Db) (id user_id : ℕ) (role : Option UserRole)
      → DeleteOutcome p db id user_id (delete_workspace p id user_id role db)
  unfolding delete_workspace find_active_owned_workspace_by_id or_not_found
  delete_workspace-Outcome db id user_id role =
      elim (Option-cases (p.find_first db (is_active_owned id user_id))) [
        | inl e ↦ rw e (none_there (λ w. missing-Owns db id user_id w e) refl)
        | inr (w, e) ↦ rw e (
            delete_found-Outcome db id user_id role w (found-Owns db id user_id w e)
              w.workspace_type refl)
      ]

  update_is_no_deletion : WorkspaceAction.update_workspace ≢ WorkspaceAction.delete_workspace
  update_is_no_deletion e = cc

  rename_found-Outcome :
      (db : p.Db) (id user_id : ℕ) (name : String) (role : Option UserRole) (w : Workspace)
      → Owns p db id user_id w
      → (t : WorkspaceType) → w.workspace_type ≡ t
      → (b : Bool) → str_eq (p.trim name) "" ≡ b
      → RenameOutcome p db id user_id name (rename_found p id user_id name role w db)
  unfolding rename_found ensure_standard_workspace update_workspace_name normalize_workspace_name
  rename_found-Outcome db id user_id name role w o personal e b n =
      rw
        (
          owner_allowed user_id role w WorkspaceAction.update_workspace o.owned
              (inl update_is_no_deletion),
          e,
        )
        (kept_personal w o e refl)
  rename_found-Outcome db id user_id name role w o standard e true n =
      rw
        (
          owner_allowed user_id role w WorkspaceAction.update_workspace o.owned
              (inl update_is_no_deletion),
          e,
          n,
        )
        (no_name w o e n refl)
  rename_found-Outcome db id user_id name role w o standard e false n =
      rw
        (
          owner_allowed user_id role w WorkspaceAction.update_workspace o.owned
              (inl update_is_no_deletion),
          e,
          n,
        )
        (renamed w o e n (update-Changed db id (rename (p.trim name)) w (λ _. refl) o.found))

  -- A call that renames a workspace ends in one of four ways. There is no active workspace of the
  -- user with the id; it is the user's personal one; it is standard and the trimmed name is empty; so far
  -- nothing changes. Or it is standard and the trimmed name is not empty: it is returned with that
  -- name, while all other rows stay.
  pub update_workspace-Outcome :
      (db : p.Db) (id user_id : ℕ) (name : String) (role : Option UserRole)
      → RenameOutcome p db id user_id name (update_workspace p id user_id name role db)
  unfolding update_workspace find_active_owned_workspace_by_id or_not_found
  update_workspace-Outcome db id user_id name role =
      elim (Option-cases (p.find_first db (is_active_owned id user_id))) [
        | inl e ↦ rw e (none_there (λ w. missing-Owns db id user_id w e) refl)
        | inr (w, e) ↦ rw e (
            rename_found-Outcome db id user_id name role w (found-Owns db id user_id w e)
              w.workspace_type refl (str_eq (p.trim name) "") refl)
      ]
